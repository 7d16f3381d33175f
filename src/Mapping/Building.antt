-- ===== src/Mapping/Building.antt =====
-- internal/mapping/mapping.go: what `New` builds.
use crm_bisync.Prelude.{
  ℕ, ◌+◌, ◌≡◌, ◌≢◌, ◌∙◌, refl, ap, sym, inl, inr, true, false, ◌||◌, Option, none, some, List, [],
  ◌∷◌, ◌++◌, Bytes, str_eq, str_eq_iff, is_empty, arith, Bool-cases, Option-cases, if◌then◌else◌,
}
use mathlib.Core.List.{append-nil, append_assoc}
use crm_bisync.Prelude.Dict.{lookup, insert, lookup-insert, lookup-nil}
use crm_bisync.Prelude.Result.{ok}
use crm_bisync.Mapping.Directions.{narrow, is_direction}
use crm_bisync.Mapping.Transforms.{is_known}
use crm_bisync.Mapping.Fields.{
  Field, Pair, Spec, Mapper, Problem, Built, reject, built_field, add_narrowed, add_field,
  add_fields, nothing_built, conclude, new_mapper,
}

-- A configured field, and the field that is built of it
pub record Builds (direction : Bytes) (f : Pair) (g : Field) : Type 0 where
  pub same_field : g ≡ built_field f g.direction
  pub named : is_empty f.canonical ≡ false
  pub placed : (is_empty f.left_path || is_empty f.right_path) ≡ false
  pub known_transform : is_known f.transform ≡ true
  pub narrowed : narrow direction f.direction ≡ some g.direction

pub data BuildsEach (direction : Bytes) : List Pair → List Field → Type 0 where
  none_left : BuildsEach direction [] []
  one_more :
      {f : Pair} {g : Field} {fs : List Pair} {gs : List Field}
      → Builds direction f g
      → BuildsEach direction fs gs
      → BuildsEach direction (f ∷ fs) (g ∷ gs)

unfoldable pub find_name : Bytes → List Field → Option Field
find_name n [] = none
find_name n (g ∷ gs) = if str_eq g.canonical n then some g else find_name n gs

-- No name stands twice.
abbrev pub DistinctNames : List Field → Type 0
DistinctNames [] = Unit
DistinctNames (g ∷ gs) = (find_name g.canonical gs ≡ none) × DistinctNames gs

find_name-concat :
    (n : Bytes) (gs : List Field) (g : Field)
    → find_name n gs ≡ none
    → find_name n (gs ++ g ∷ []) ≡ (if str_eq g.canonical n then some g else none)
unfolding find_name
find_name-concat n [] g h = refl
find_name-concat n (f ∷ gs) g h = ground (arith, find_name-concat n gs g)

find_name-concat_some :
    (n : Bytes) (gs : List Field) (g f : Field)
    → find_name n gs ≡ some f
    → find_name n (gs ++ g ∷ []) ≡ some f
unfolding find_name
find_name-concat_some n [] g f h = cc
find_name-concat_some n (e ∷ gs) g f h = ground (arith, find_name-concat_some n gs g f)

concat-DistinctNames :
    (gs : List Field) (g : Field)
    → DistinctNames gs
    → find_name g.canonical gs ≡ none
    → DistinctNames (gs ++ g ∷ [])
unfolding find_name
concat-DistinctNames [] g d h = (refl, tt)
concat-DistinctNames (f ∷ gs) g (e, d) h = ground (
  arith,
  str_eq_iff f.canonical g.canonical,
  str_eq_iff g.canonical f.canonical,
  find_name-concat f.canonical gs g e,
  concat-DistinctNames gs g d,
)

-- The table agrees with the list, and no name stands twice.
pub record IsTabled (b : Built) : Type 0 where
  pub agrees : (n : Bytes) → lookup n b.by_name ≡ find_name n b.fields
  pub distinct : DistinctNames b.fields

abbrev with_field : Built → Field → Built
with_field b g = record b { fields = b.fields ++ g ∷ []; by_name = insert g.canonical g b.by_name }

with_field-IsTabled :
    (b : Built) (g : Field)
    → IsTabled b
    → lookup g.canonical b.by_name ≡ none
    → IsTabled (with_field b g)
with_field-IsTabled b g t e = record {
  agrees = λ n. elim (Option-cases (find_name n b.fields)) [
    | inl h ↦
        lookup-insert g.canonical n g b.by_name
        ∙ rw (t.agrees n, h, find_name-concat n b.fields g h) refl
    | inr (f, h) ↦
        lookup-insert g.canonical n g b.by_name
        ∙ rw (t.agrees n, h, find_name-concat_some n b.fields g f h) (unshadowed n f h)
  ];
  distinct = concat-DistinctNames b.fields g t.distinct (sym (t.agrees g.canonical) ∙ e);
}
  where
    unshadowed :
        (n : Bytes) (f : Field)
        → find_name n b.fields ≡ some f
        → (if str_eq g.canonical n then some g else some f) ≡ some f
    unshadowed n f h = elim (Bool-cases (str_eq g.canonical n)) [
      | inl s ↦ cc (ap (λ m. lookup m b.by_name) ((str_eq_iff g.canonical n).0 s), t.agrees n)
      | inr s ↦ rw s refl
    ]

-- What a round does: it finds a problem, or adds the field.
data Round (direction : Bytes) (f : Pair) (b : Built) : Built → Type 0 where
  refused : (r : Built) → is_empty r.problems ≡ false → Round direction f b r
  added :
      (g : Field)
      → Builds direction f g
      → lookup g.canonical b.by_name ≡ none
      → Round direction f b (with_field b g)

reject-Round :
    (direction : Bytes) (f : Pair) (b : Built) (p : Problem) → Round direction f b (reject p b)
reject-Round direction f b p = refused (reject p b) (filled b.problems)
  where
    filled : (ps : List Problem) → is_empty (ps ++ p ∷ []) ≡ false
    filled [] = refl
    filled (q ∷ ps) = refl

add_field-Round :
    (direction : Bytes) (i : ℕ) (f : Pair) (b : Built)
    → Round direction f b (add_field direction i f b)
unfolding add_field add_narrowed
add_field-Round direction i f b = elim (Bool-cases (is_empty f.canonical)) [
  | inl e ↦ rw e (reject-Round direction f b _)
  | inr e ↦ rw e (elim (Option-cases (lookup f.canonical b.by_name)) [
    | inr (g, h) ↦ rw h (reject-Round direction f b _)
    | inl h ↦ rw h (elim (Bool-cases (is_empty f.left_path || is_empty f.right_path)) [
      | inl p ↦ rw p (reject-Round direction f b _)
      | inr p ↦ rw p (elim (Bool-cases (is_known f.transform)) [
        | inr k ↦ rw k (reject-Round direction f b _)
        | inl k ↦ rw k (elim (Option-cases (narrow direction f.direction)) [
          | inl n ↦ rw n (reject-Round direction f b _)
          | inr (d, n) ↦ rw n (
              added (built_field f d)
                (record {
                  same_field = refl;
                  named = e;
                  placed = p;
                  known_transform = k;
                  narrowed = n;
                })
                h)
        ])
      ])
    ])
  ])
]

Round-refused :
    (direction : Bytes) (f : Pair) (b r : Built)
    → Round direction f b r
    → is_empty b.problems ≡ false
    → is_empty r.problems ≡ false
Round-refused direction f b _ (refused r h) e = h
Round-refused direction f b _ (added g _ _) e = e

-- A problem stays.
add_fields_refused :
    (direction : Bytes) (i : ℕ) (fs : List Pair) (b : Built)
    → is_empty b.problems ≡ false
    → is_empty (add_fields direction i fs b).problems ≡ false
unfolding add_fields
add_fields_refused direction i [] b e = e
add_fields_refused direction i (f ∷ fs) b e =
    add_fields_refused direction (i + 1) fs (add_field direction i f b)
      (Round-refused direction f b _ (add_field-Round direction i f b) e)

-- What the loop ends with: a problem, or a field for each configured one.
data Ends (direction : Bytes) (fs : List Pair) (b r : Built) : Type 0 where
  refuses : is_empty r.problems ≡ false → Ends direction fs b r
  builds :
      (gs : List Field)
      → r.fields ≡ b.fields ++ gs
      → BuildsEach direction fs gs
      → IsTabled r
      → Ends direction fs b r

Ends-one_more :
    (direction : Bytes) (f : Pair) (fs : List Pair) (b r : Built) (g : Field)
    → Builds direction f g
    → Ends direction fs (with_field b g) r
    → Ends direction (f ∷ fs) b r
Ends-one_more direction f fs b r g built (refuses h) = refuses h
Ends-one_more direction f fs b r g built (builds gs e each t) =
    builds (g ∷ gs) (e ∙ append_assoc b.fields (g ∷ []) gs) (one_more built each) t

add_fields-Ends :
    (direction : Bytes) (i : ℕ) (fs : List Pair) (b : Built)
    → IsTabled b
    → Ends direction fs b (add_fields direction i fs b)
unfolding add_fields
add_fields-Ends direction i [] b t = builds [] (sym (append-nil b.fields)) none_left t
add_fields-Ends direction i (f ∷ fs) b t =
    go (add_field direction i f b) (add_field-Round direction i f b)
      (add_fields-Ends direction (i + 1) fs)
  where
    go :
        (r : Built)
        → Round direction f b r
        → ((c : Built) → IsTabled c → Ends direction fs c (add_fields direction (i + 1) fs c))
        → Ends direction (f ∷ fs) b (add_fields direction (i + 1) fs r)
    go _ (refused r h) ih = refuses (add_fields_refused direction (i + 1) fs r h)
    go _ (added g built fresh) ih =
        Ends-one_more direction f fs b _ g built
          (ih (with_field b g) (with_field-IsTabled b g t fresh))

-- What a mapper that is built promises.
pub record IsBuiltFrom (s : Spec) (m : Mapper) : Type 0 where
  pub same_kind : m.kind ≡ s.kind
  pub same_direction : m.direction ≡ s.direction
  pub valid_direction : is_direction m.direction ≡ true
  pub some_field : is_empty m.fields ≡ false
  pub each : BuildsEach s.direction s.fields m.fields
  pub distinct : DistinctNames m.fields
  pub tabled : (n : Bytes) → lookup n m.by_name ≡ find_name n m.fields

conclude_ok :
    (s : Spec) (b : Built) (m : Mapper)
    → conclude s b ≡ ok m
    → (is_empty b.fields ≡ false)
      × (is_empty b.problems ≡ true)
      × (m.kind ≡ s.kind)
      × (m.direction ≡ s.direction)
      × (m.fields ≡ b.fields)
      × (m.by_name ≡ b.by_name)
unfolding conclude
conclude_ok s b m e = ground arith

conclude-IsBuiltFrom :
    (s : Spec) (b : Built) (m : Mapper)
    → is_direction s.direction ≡ true
    → Ends s.direction s.fields nothing_built b
    → conclude s b ≡ ok m
    → IsBuiltFrom s m
conclude-IsBuiltFrom s b m d (refuses h) e = cc (h, (conclude_ok s b m e).1)
conclude-IsBuiltFrom s b m d (builds gs same each t) e =
    let (some_field, _, kind, direction, fields, table) = conclude_ok s b m e in
    record {
      same_kind = kind;
      same_direction = direction;
      valid_direction = rw direction d;
      some_field = rw fields some_field;
      each = rw (fields ∙ same) each;
      distinct = rw fields t.distinct;
      tabled = λ n. rw (table, fields) (t.agrees n);
    }

unknown_is_refused :
    (s : Spec) (m : Mapper) → is_direction s.direction ≡ false → new_mapper s ≢ ok m
unfolding new_mapper
unknown_is_refused s m n e = ground arith

known_concludes :
    (s : Spec)
    → is_direction s.direction ≡ true
    → new_mapper s ≡ conclude s (add_fields s.direction 0 s.fields nothing_built)
unfolding new_mapper
known_concludes s d = rw d refl

nothing_built-IsTabled : IsTabled nothing_built
unfolding find_name
nothing_built-IsTabled = record { agrees = λ n. lookup-nil n; distinct = tt }

-- A map that New builds has the kind and direction of its configuration, which is a known one;
-- it has at least one field; its fields are the configured ones in order, each with a name, two
-- paths, a known transform and its narrowed direction; their names are distinct; and the table
-- finds by a name just the field of that name.
pub new_mapper-IsBuiltFrom : (s : Spec) (m : Mapper) → new_mapper s ≡ ok m → IsBuiltFrom s m
new_mapper-IsBuiltFrom s m e = elim (Bool-cases (is_direction s.direction)) [
  | inr n ↦ absurd (unknown_is_refused s m n e)
  | inl d ↦
      conclude-IsBuiltFrom s _ m d
        (add_fields-Ends s.direction 0 s.fields nothing_built nothing_built-IsTabled)
        (sym (known_concludes s d) ∙ e)
]
