-- ===== src/Mapping/Checks.antt =====
-- internal/mapping/mapping.go: when `Validate` has nothing to report.
use crm_bisync.Prelude.{
  ◌≡◌, ◌↔◌, refl, ap, Bool, false, not, ◌&&◌, Option, none, some, List, [], ◌∷◌, ◌++◌, str_eq,
  is_empty, All, arith, Bool-cases, inl, inr, if◌then◌else◌,
}
use crm_bisync.Connector.{FieldSpec, Schema, schema_field}
use crm_bisync.Mapping.Directions.{Side, left, right, writes_to}
use crm_bisync.Mapping.Fields.{
  Field, Mapper, path, field_problems, all_problems, side_problems, validate, kind_problems,
  is_read_only,
}

-- A field that a side's schema has, and that the map does not write where it is read only
abbrev pub Fits : Side → Schema → Field → Type 0
Fits side schema f =
    (spec : FieldSpec) × (schema_field schema (path f side) ≡ some spec)
    × ((spec.read_only && writes_to f.direction side) ≡ false)

pub record FitsSide (m : Mapper) (side : Side) (schema : Schema) : Type 0 where
  pub same_kind : (not (is_empty schema.kind) && not (str_eq schema.kind m.kind)) ≡ false
  pub every : All (Fits side schema) m.fields

append_nil : {A : Type 0} (xs ys : List A) → xs ++ ys ≡ [] → (xs ≡ []) × (ys ≡ [])
append_nil [] ys e = (refl, e)
append_nil (x ∷ xs) ys e = cc

module _ (side : Side) (schema : Schema) where
  field_problems-Fits :
      (f : Field) (o : Option FieldSpec)
      → schema_field schema (path f side) ≡ o
      → field_problems side schema f o ≡ []
      → Fits side schema f
  unfolding field_problems
  field_problems-Fits f none h e = cc
  field_problems-Fits f (some spec) h e =
      elim (Bool-cases (spec.read_only && writes_to f.direction side)) [
        | inl b ↦ cc (
            ap
              (λ (c : Bool).
                if c then is_read_only f.canonical side (path f side) f.direction ∷ [] else [])
              b)
        | inr b ↦ (spec, h, b)
      ]

  Fits-field_problems :
      (f : Field)
      → Fits side schema f
      → field_problems side schema f (schema_field schema (path f side)) ≡ []
  unfolding field_problems
  Fits-field_problems f (spec, h, b) = rw (h, field_problems) (rw b refl)

  all_problems-Fits :
      (fs : List Field) → all_problems side schema fs ≡ [] → All (Fits side schema) fs
  unfolding all_problems
  all_problems-Fits [] e = tt
  all_problems-Fits (f ∷ fs) e =
      let (here, rest) = append_nil _ _ e in
      (field_problems-Fits f _ refl here, all_problems-Fits fs rest)

  Fits-all_problems :
      (fs : List Field) → All (Fits side schema) fs → all_problems side schema fs ≡ []
  unfolding all_problems
  Fits-all_problems [] h = refl
  Fits-all_problems (f ∷ fs) (h, hs) = rw (Fits-field_problems f h, Fits-all_problems fs hs) refl

  kind_problems_iff :
      (m : Mapper)
      → (kind_problems m side schema ≡ [])
        ↔ ((not (is_empty schema.kind) && not (str_eq schema.kind m.kind)) ≡ false)
  unfolding kind_problems
  kind_problems_iff m = ground arith

  side_problems-FitsSide : (m : Mapper) → side_problems m side schema ≡ [] → FitsSide m side schema
  unfolding side_problems
  side_problems-FitsSide m e =
      let (here, rest) = append_nil _ _ e in
      record { same_kind = (kind_problems_iff m).0 here; every = all_problems-Fits m.fields rest }

  FitsSide-side_problems : (m : Mapper) → FitsSide m side schema → side_problems m side schema ≡ []
  unfolding side_problems
  FitsSide-side_problems m h =
      rw ((kind_problems_iff m).1 h.same_kind, Fits-all_problems m.fields h.every) refl

-- Validate has nothing to report exactly if each side's schema is of the map's kind or names
-- none, and has every mapped field of its side, which is not read only where the map writes it.
pub validate-FitsSide :
    (m : Mapper) (l r : Schema) → (validate m l r ≡ []) ↔ (FitsSide m left l × FitsSide m right r)
unfolding validate
validate-FitsSide m l r = (
  λ e.
      let (here, rest) = append_nil _ _ e in
      (side_problems-FitsSide left l m here, side_problems-FitsSide right r m rest),
  λ h. rw (FitsSide-side_problems left l m h.0, FitsSide-side_problems right r m h.1) refl,
)
