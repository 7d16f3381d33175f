-- ===== src/Examples/Mappings.antt =====
-- The theorems on the field map, at a map of two fields.
use crm_bisync.Mapping.Directions.{is_direction, writes_to}
use crm_bisync.Mapping.Transforms.{is_known}
use crm_bisync.Prelude.Dict.{insert}
use crm_bisync.Connector.{schema_field}
use crm_bisync.Mapping.Fields.{path}
use crm_bisync.Prelude.{◌≡◌, ◌↔◌, refl, true, false, [], ◌∷◌, codes}
use crm_bisync.Prelude.Strings.{str_eq}
use crm_bisync.Prelude.Dict.{Dict, lookup}
use crm_bisync.Prelude.Result.{ok}
use crm_bisync.Model.{Value, text, Record}
use crm_bisync.Connector.{Schema}
use crm_bisync.Mapping.Directions.{left, right, bidirectional, left_to_right, narrow}
use crm_bisync.Mapping.Transforms.{normalize_domain, apply}
use crm_bisync.Mapping.Paths.{split_dots}
use crm_bisync.Mapping.Fields.{
  Field, Pair, Spec, Mapper, new_mapper, from_canonical, to_canonical, validate,
}
use crm_bisync.Mapping.Exchange.{Apart, NamedApart, Settled, ReadBack, to_canonical-from_canonical}
use crm_bisync.Mapping.Building.{IsBuiltFrom, new_mapper-IsBuiltFrom}
use crm_bisync.Mapping.Narrowing.{Narrows, narrow-Narrows}
use crm_bisync.Mapping.Checks.{FitsSide, validate-FitsSide}
use crm_bisync.Mapping.Hosts.{IsBare, normalize_domain-IsBare}
use crm_bisync.Examples.Values.{contact, differ, as_is}

abbrev email_pair : Pair
email_pair = record {
  canonical = codes "email";
  left_path = codes "props.email";
  right_path = codes "mail";
  transform = [];
  direction = [];
}

abbrev city_pair : Pair
city_pair = record {
  canonical = codes "city";
  left_path = codes "city";
  right_path = codes "address.city";
  transform = [];
  direction = left_to_right;
}

abbrev spec : Spec
spec = record { kind = contact; direction = bidirectional; fields = email_pair ∷ city_pair ∷ [] }

abbrev email_field : Field
email_field = record {
  canonical = codes "email";
  left_path = codes "props.email";
  right_path = codes "mail";
  transform = [];
  direction = bidirectional;
}

abbrev city_field : Field
city_field = record {
  canonical = codes "city";
  left_path = codes "city";
  right_path = codes "address.city";
  transform = [];
  direction = left_to_right;
}

abbrev mapper : Mapper
mapper = record {
  kind = contact;
  direction = bidirectional;
  fields = email_field ∷ city_field ∷ [];
  by_name = (codes "email", email_field) ∷ (codes "city", city_field) ∷ [];
}

spec_builds : new_mapper spec ≡ ok mapper
unfolding new_mapper str_eq lookup is_direction is_known narrow insert
spec_builds = refl

new_mapper-IsBuiltFrom_example : IsBuiltFrom spec mapper
new_mapper-IsBuiltFrom_example = new_mapper-IsBuiltFrom spec mapper spec_builds

narrow-Narrows_example : Narrows bidirectional left_to_right (narrow bidirectional left_to_right)
narrow-Narrows_example = narrow-Narrows bidirectional left_to_right

normalize_domain-IsBare_example :
    IsBare as_is (normalize_domain as_is (codes "https://ada@www.example.org:8080/a?b"))
normalize_domain-IsBare_example =
    normalize_domain-IsBare as_is (codes "https://ada@www.example.org:8080/a?b")

normalize_domain_test :
    normalize_domain as_is (codes "https://ada@www.example.org:8080/a?b") ≡ codes "example.org"
unfolding normalize_domain
normalize_domain_test = refl

abbrev left_schema : Schema
left_schema = record {
  kind = contact;
  fields =
      record {
        name = codes "props.email";
        type_name = codes "string";
        read_only = false;
        required = true;
      }
      ∷ record {
        name = codes "city";
        type_name = codes "string";
        read_only = true;
        required = false;
      }
      ∷ [];
}

abbrev right_schema : Schema
right_schema = record {
  kind = contact;
  fields =
      record { name = codes "mail"; type_name = codes "string"; read_only = false; required = true }
      ∷ record {
        name = codes "address.city";
        type_name = codes "string";
        read_only = false;
        required = false;
      }
      ∷ [];
}

validate-FitsSide_example :
    (validate mapper left_schema right_schema ≡ [])
    ↔ (FitsSide mapper left left_schema × FitsSide mapper right right_schema)
validate-FitsSide_example = validate-FitsSide mapper left_schema right_schema

validate_test : validate mapper left_schema right_schema ≡ []
unfolding validate str_eq lookup schema_field path writes_to
validate_test = refl

abbrev ada : Dict Value
ada = (codes "email", text (codes "a@x")) ∷ (codes "city", text (codes "Oslo")) ∷ []

abbrev desk_ada : Record
desk_ada = record {
  kind = contact;
  remote_id = codes "9";
  fields = from_canonical mapper right ada;
  updated_at = 5;
  version = [];
}

apart : Apart right mapper.fields
unfolding path str_eq split_dots
apart = ((differ (codes "mail") (codes "address") refl, tt), (tt, tt))

named_apart : NamedApart mapper.fields
unfolding str_eq
named_apart = ((differ (codes "email") (codes "city") refl, tt), (tt, tt))

settled : Settled as_is right ada mapper.fields
unfolding apply str_eq
settled = (λ v e. refl, (λ v e. refl, tt))

to_canonical-from_canonical_example :
    (out : Dict Value) × (to_canonical as_is mapper right desk_ada ≡ ok out)
    × ReadBack as_is right ada out mapper.fields
to_canonical-from_canonical_example =
    to_canonical-from_canonical as_is right ada mapper desk_ada refl apart named_apart settled
