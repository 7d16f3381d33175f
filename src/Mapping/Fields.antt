-- ===== src/Mapping/Fields.antt =====
-- internal/mapping/mapping.go: the field map that is built from the configuration, and the two
-- readings of a record that it gives. An error is data, with what its text is made of.
use crm_bisync.Prelude.{
  ℕ, ◌+◌, not, ◌&&◌, ◌||◌, Option, none, some, List, [], ◌∷◌, ◌++◌, Bytes, str_eq, is_some,
  is_empty, if◌then◌else◌,
}
use crm_bisync.Prelude.Strings.{str_lt}
use crm_bisync.Prelude.Sorting.{sort_by}
use crm_bisync.Prelude.Dict.{Dict, lookup, insert}
use crm_bisync.Prelude.Result.{Result, ok, err}
use crm_bisync.Model.{Value, Record}
use crm_bisync.Connector.{FieldSpec, Schema, schema_field, schema_names}
use crm_bisync.Mapping.Directions.{Side, left, right, is_direction, narrow, writes_to}
use crm_bisync.Mapping.Transforms.{Letters, is_known, apply}
use crm_bisync.Mapping.Paths.{get_path, set_path}

pub record Field : Type 0 where
  pub canonical : Bytes
  pub left_path : Bytes
  pub right_path : Bytes
  pub transform : Bytes
  pub direction : Bytes

-- `Path`
unfoldable pub path : Field → Side → Bytes
path f left = f.left_path
path f right = f.right_path

-- `FieldSpec`, as configured
pub record Pair : Type 0 where
  pub canonical : Bytes
  pub left_path : Bytes
  pub right_path : Bytes
  pub transform : Bytes
  pub direction : Bytes

pub record Spec : Type 0 where
  pub kind : Bytes
  pub direction : Bytes
  pub fields : List Pair

pub record Mapper : Type 0 where
  pub kind : Bytes
  pub direction : Bytes
  pub fields : List Field
  pub by_name : Dict Field

-- Where a configured field stands in the list, with its name
pub record Where : Type 0 where
  pub index : ℕ
  pub name : Bytes

pub data Problem : Type 0 where
  unknown_direction : Bytes → Problem
  no_name no_path : Where → Problem
  mapped_twice : Where → Problem
  unknown_transform : Where → Bytes → Problem
  never_syncs : Where → Bytes → Bytes → Problem
  maps_nothing : Problem
  not_transformed : Bytes → Bytes → Problem
  other_kind : Side → Bytes → Bytes → Problem
  not_in_schema : Bytes → Side → Bytes → List Bytes → Problem
  is_read_only : Bytes → Side → Bytes → Bytes → Problem

-- The loop's variables in `New`
pub record Built : Type 0 where
  pub fields : List Field
  pub by_name : Dict Field
  pub problems : List Problem

abbrev pub reject : Problem → Built → Built
reject p b = record b { problems = b.problems ++ p ∷ [] }

abbrev pub built_field : Pair → Bytes → Field
built_field f d = record {
  canonical = f.canonical;
  left_path = f.left_path;
  right_path = f.right_path;
  transform = f.transform;
  direction = d;
}

-- The end of a round: the field is added if its direction can be combined.
unfoldable pub add_narrowed : Bytes → ℕ → Pair → Built → Option Bytes → Built
add_narrowed direction i f b none =
    reject (never_syncs (record { index = i; name = f.canonical }) f.direction direction) b
add_narrowed direction i f b (some d) = record b {
  fields = b.fields ++ built_field f d ∷ [];
  by_name = insert f.canonical (built_field f d) b.by_name;
}

-- One round of the loop
unfoldable pub add_field : Bytes → ℕ → Pair → Built → Built
unfolding add_narrowed
add_field direction i f b =
    let at : Where = record { index = i; name = f.canonical } in
    if is_empty f.canonical
    then reject (no_name at) b
    else if is_some (lookup f.canonical b.by_name)
    then reject (mapped_twice at) b
    else if is_empty f.left_path || is_empty f.right_path
    then reject (no_path at) b
    else if not (is_known f.transform)
    then reject (unknown_transform at f.transform) b
    else add_narrowed direction i f b (narrow direction f.direction)

unfoldable pub add_fields : Bytes → ℕ → List Pair → Built → Built
unfolding add_field
add_fields direction i [] b = b
add_fields direction i (f ∷ fs) b = add_fields direction (i + 1) fs (add_field direction i f b)

abbrev pub nothing_built : Built
nothing_built = record { fields = []; by_name = []; problems = [] }

-- The two tests at the end of `New`
unfoldable pub conclude : Spec → Built → Result (List Problem) Mapper
conclude s b =
    if is_empty b.fields && is_empty b.problems
    then err (maps_nothing ∷ [])
    else if not (is_empty b.problems)
    then err b.problems
    else ok
        (record { kind = s.kind; direction = s.direction; fields = b.fields; by_name = b.by_name })

-- `New`
unfoldable pub new_mapper : Spec → Result (List Problem) Mapper
unfolding conclude add_fields
new_mapper s =
    if not (is_direction s.direction)
    then err (unknown_direction s.direction ∷ [])
    else conclude s (add_fields s.direction 0 s.fields nothing_built)

unfoldable pub names_in_order : List Field → List Bytes
names_in_order [] = []
names_in_order (f ∷ fs) = f.canonical ∷ names_in_order fs

-- `CanonicalNames`
unfoldable pub canonical_names : Mapper → List Bytes
unfolding names_in_order
canonical_names m = sort_by str_lt (names_in_order m.fields)

unfoldable pub writable_among : Side → List Field → List Bytes
writable_among side [] = []
writable_among side (f ∷ fs) =
    let rest = writable_among side fs in
    if writes_to f.direction side then f.canonical ∷ rest else rest

-- `WritableNames`
unfoldable pub writable_names : Mapper → Side → List Bytes
unfolding writable_among
writable_names m side = sort_by str_lt (writable_among side m.fields)

module _ (L : Letters) where
  -- The loop's variables in `ToCanonical`
  abbrev pub Read : Type 0
  Read = Dict Value × List Problem

  unfoldable pub add_read : Bytes → Result Bytes Value → Read → Read
  add_read name (ok v) (out, ps) = (insert name v out, ps)
  add_read name (err t) (out, ps) = (out, ps ++ not_transformed name t ∷ [])

  unfoldable pub read_found : Field → Option Value → Read → Read
  unfolding add_read
  read_found f none r = r
  read_found f (some v) r = add_read f.canonical (apply L f.transform v) r

  unfoldable pub read_fields : Side → Dict Value → List Field → Read → Read
  unfolding read_found
  read_fields side fields [] r = r
  read_fields side fields (f ∷ fs) r =
      read_fields side fields fs (read_found f (get_path fields (path f side)) r)

  abbrev pub unless_problems : Read → Result (List Problem) (Dict Value)
  unless_problems (out, []) = ok out
  unless_problems (out, p ∷ ps) = err (p ∷ ps)

  -- `ToCanonical`
  unfoldable pub to_canonical : Mapper → Side → Record → Result (List Problem) (Dict Value)
  unfolding read_fields
  to_canonical m side rec = unless_problems (read_fields side rec.fields m.fields ([], []))

abbrev pub written : Bytes → Option Value → Dict Value → Dict Value
written p none out = out
written p (some v) out = set_path out p v

-- One round of the loop of `FromCanonical`
unfoldable pub write_field : Side → Dict Value → Field → Dict Value → Dict Value
write_field side canonical f out =
    if not (writes_to f.direction side)
    then out
    else written (path f side) (lookup f.canonical canonical) out

unfoldable pub write_fields : Side → Dict Value → List Field → Dict Value → Dict Value
unfolding write_field
write_fields side canonical [] out = out
write_fields side canonical (f ∷ fs) out =
    write_fields side canonical fs (write_field side canonical f out)

-- `FromCanonical`
unfoldable pub from_canonical : Mapper → Side → Dict Value → Dict Value
unfolding write_fields
from_canonical m side canonical = write_fields side canonical m.fields []

abbrev pub unless_writable : Field → Side → FieldSpec → List Problem
unless_writable f side spec =
    if spec.read_only && writes_to f.direction side
    then is_read_only f.canonical side (path f side) f.direction ∷ []
    else []

unfoldable pub field_problems : Side → Schema → Field → Option FieldSpec → List Problem
field_problems side schema f none =
    not_in_schema f.canonical side (path f side) (schema_names schema) ∷ []
field_problems side schema f (some spec) = unless_writable f side spec

unfoldable pub all_problems : Side → Schema → List Field → List Problem
unfolding field_problems
all_problems side schema [] = []
all_problems side schema (f ∷ fs) =
    field_problems side schema f (schema_field schema (path f side)) ++ all_problems side schema fs

unfoldable pub kind_problems : Mapper → Side → Schema → List Problem
kind_problems m side schema =
    if not (is_empty schema.kind) && not (str_eq schema.kind m.kind)
    then other_kind side schema.kind m.kind ∷ []
    else []

unfoldable pub side_problems : Mapper → Side → Schema → List Problem
unfolding all_problems kind_problems
side_problems m side schema = kind_problems m side schema ++ all_problems side schema m.fields

-- `Validate`; the order that the texts of the errors are sorted in is left out.
unfoldable pub validate : Mapper → Schema → Schema → List Problem
unfolding side_problems
validate m left_schema right_schema =
    side_problems m left left_schema ++ side_problems m right right_schema
