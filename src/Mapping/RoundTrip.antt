-- ===== src/Mapping/RoundTrip.antt =====
-- internal/mapping/mapping.go: reading back what `setPath` wrote.
use crm_bisync.Prelude.{
  ℕ, ◌<◌, ◌≡◌, ◌≢◌, refl, ap, sym, ◌∙◌, Bool-cases, Option-cases, inl, inr, Option, none, some,
  List, [], ◌∷◌, Bytes, str_eq, str_eq_iff, str_eq_refl, arith, length, ◌==◌, if◌then◌else◌,
}
use crm_bisync.Prelude.Dict.{Dict, lookup, insert, lookup-insert, lookup-nil}
use crm_bisync.Model.{Value, object, Fields, no_fields, field}
use crm_bisync.Mapping.Paths.{
  Parts, add_byte, split_dots, lookup_field, put_field, get_in, traverse, or_else, get_path, nested,
  set_in, set_at, set_path,
}

pub lookup_field-put_field :
    (k j : Bytes) (v : Value) (fs : Fields)
    → lookup_field j (put_field k v fs) ≡ (if str_eq k j then some v else lookup_field j fs)
unfolding lookup_field put_field
lookup_field-put_field k j v no_fields = refl
lookup_field-put_field k j v (field i w fs) =
    ground (arith, str_eq_iff k j, str_eq_iff i k, str_eq_iff i j, lookup_field-put_field k j v fs)

put_field_self : (k : Bytes) (v : Value) (fs : Fields) → lookup_field k (put_field k v fs) ≡ some v
put_field_self k v fs = lookup_field-put_field k k v fs ∙ rw (str_eq_refl k) refl

get_in-set_in :
    (fs : Fields) (p : Bytes) (ps : List Bytes) (v : Value)
    → get_in (some (object (set_in fs p ps v))) (p ∷ ps) ≡ some v
unfolding get_in set_in
get_in-set_in fs p [] v = put_field_self p v fs
get_in-set_in fs p (q ∷ ps) v =
    ap (λ (w : Option Value). get_in w (q ∷ ps))
      (put_field_self p (object (set_in (nested (lookup_field p fs)) q ps v)) fs)
    ∙ get_in-set_in (nested (lookup_field p fs)) q ps v

-- The first part of a path
abbrev pub head_of : Bytes → Bytes
head_of path = (split_dots path).0

abbrev rest_of : Bytes → List Bytes
rest_of path = (split_dots path).1

-- A path of one part is that part, and the first of several is shorter than the path.
abbrev Splits : Bytes → Parts → Type 0
Splits path (h, []) = h ≡ path
Splits path (h, p ∷ ps) = length h < length path

add_byte-Splits :
    (c : ℕ) (path : Bytes) (q : Parts) → Splits path q → Splits (c ∷ path) (add_byte c q)
add_byte-Splits c path (h, []) s = elim (Bool-cases (c == b'.')) [
  | inl e ↦ rw e (omega arith)
  | inr e ↦ rw e (cc)
]
add_byte-Splits c path (h, p ∷ ps) s = elim (Bool-cases (c == b'.')) [
  | inl e ↦ rw e (omega arith)
  | inr e ↦ rw e (omega arith)
]

split_dots-Splits : (path : Bytes) → Splits path (split_dots path)
unfolding split_dots
split_dots-Splits [] = refl
split_dots-Splits (c ∷ s) = add_byte-Splits c s (split_dots s) (split_dots-Splits s)

get_path-set_at :
    (fields : Dict Value) (path : Bytes) (q : Parts) (v : Value)
    → Splits path q
    → lookup path fields ≡ none
    → or_else (lookup path (set_at fields path q v)) (traverse (set_at fields path q v) q) ≡ some v
unfolding set_at traverse
get_path-set_at fields path (h, []) v s e =
    rw (lookup-insert path path v fields, str_eq_refl path) refl
get_path-set_at fields path (h, p ∷ ps) v s e = elim (Bool-cases (str_eq h path)) [
  | inl same ↦ absurd (omega (arith, ap length ((str_eq_iff h path).0 same)))
  | inr differ ↦
      let w : Value = object (set_in (nested (lookup h fields)) p ps v) in
      rw (lookup-insert h path w fields, differ, e, lookup-insert h h w fields, str_eq_refl h)
        (get_in-set_in (nested (lookup h fields)) p ps v)
]

-- What setPath wrote at a path, getPath reads back there, where the map had no entry under the whole
-- path.
pub get_path-set_path :
    (fields : Dict Value) (path : Bytes) (v : Value)
    → lookup path fields ≡ none
    → get_path (set_path fields path v) path ≡ some v
unfolding get_path set_path
get_path-set_path fields path v e =
    get_path-set_at fields path (split_dots path) v (split_dots-Splits path) e

head_of-add_byte :
    (c : ℕ) (q : Parts)
    → split_dots q.0 ≡ (q.0, [])
    → split_dots (add_byte c q).0 ≡ ((add_byte c q).0, [])
unfolding split_dots
head_of-add_byte c (h, t) e = elim (Bool-cases (c == b'.')) [
  | inl b ↦ rw b refl
  | inr b ↦ rw b (rw (e, b) refl)
]

-- The first part of a path is a path of one part.
split_dots-head_of : (path : Bytes) → split_dots (head_of path) ≡ (head_of path, [])
unfolding split_dots
split_dots-head_of [] = refl
split_dots-head_of (c ∷ s) = head_of-add_byte c (split_dots s) (split_dots-head_of s)

traverse-insert :
    (k : Bytes) (v : Value) (fields : Dict Value) (q : Parts)
    → k ≢ q.0
    → traverse (insert k v fields) q ≡ traverse fields q
unfolding traverse
traverse-insert k v fields (h, []) d = refl
traverse-insert k v fields (h, p ∷ ps) d =
    let e : lookup h (insert k v fields) ≡ lookup h fields =
      lookup-insert k h v fields ∙ ground (arith, str_eq_iff k h) in
    ap (λ (w : Option Value). get_in w (p ∷ ps)) e

get_path-insert :
    (k : Bytes) (v : Value) (fields : Dict Value) (path : Bytes)
    → k ≢ head_of path
    → k ≢ path
    → get_path (insert k v fields) path ≡ get_path fields path
unfolding get_path
get_path-insert k v fields path d e =
    rw (lookup-insert k path v fields, traverse-insert k v fields (split_dots path) d)
      (ground (arith, str_eq_iff k path))

get_path-set_at_other :
    (fields : Dict Value) (path at : Bytes) (q : Parts) (v : Value)
    → Splits path q
    → head_of q.0 ≡ q.0
    → q.0 ≢ head_of at
    → get_path (set_at fields path q v) at ≡ get_path fields at
unfolding set_at
get_path-set_at_other fields path at (h, []) v s e d =
    get_path-insert path v fields at (λ f. d (s ∙ f)) (λ f. d (sym e ∙ ap head_of (s ∙ f)))
get_path-set_at_other fields path at (h, p ∷ ps) v s e d =
    get_path-insert h _ fields at d (λ f. d (sym e ∙ ap head_of f))

-- A write under one first part changes nothing under another.
pub get_path-set_path_other :
    (fields : Dict Value) (path at : Bytes) (v : Value)
    → head_of path ≢ head_of at
    → get_path (set_path fields path v) at ≡ get_path fields at
unfolding set_path
get_path-set_path_other fields path at v d =
    get_path-set_at_other fields path at (split_dots path) v (split_dots-Splits path)
      (ap (λ (q : Parts). q.0) (split_dots-head_of path)) d

pub lookup_of_get_path :
    (fields : Dict Value) (path : Bytes) → get_path fields path ≡ none → lookup path fields ≡ none
unfolding get_path
lookup_of_get_path fields path e = elim (Option-cases (lookup path fields)) [
  | inl n ↦ n
  | inr (v, n) ↦ absurd (found v n e)
]
  where
    found : (v : Value) → lookup path fields ≡ some v → get_path fields path ≢ none
    found v n e = cc (ap (λ o. or_else o (traverse fields (split_dots path))) n)

traverse_nil : (q : Parts) → traverse ([]) q ≡ none
unfolding traverse
traverse_nil (h, []) = refl
traverse_nil (h, p ∷ ps) = ap (λ (w : Option Value). get_in w (p ∷ ps)) (lookup-nil h)

pub get_path_nil : (path : Bytes) → get_path ([]) path ≡ none
unfolding get_path
get_path_nil path = rw (lookup-nil {V = Value} path) (traverse_nil (split_dots path))
