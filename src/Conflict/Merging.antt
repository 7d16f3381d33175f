-- ===== src/Conflict/Merging.antt =====
-- internal/conflict/conflict.go: `merge` as what its loop collects.
use crm_bisync.Prelude.{
  ℕ, ◌≡◌, ◌∙◌, refl, ap, sym, Bool, true, false, not, ◌&&◌, none, some, List, [], ◌∷◌, Bytes,
  is_empty, str_eq, if◌then◌else◌, arith, inl, inr, Bool-cases,
}
use crm_bisync.Prelude.Strings.{str_lt}
use crm_bisync.Prelude.Sorting.{sort_by, any_b, any_b-sort_by, any_b_ext}
use crm_bisync.Prelude.Dict.{Dict, lookup, lookup-nil}
use crm_bisync.Model.{Value, Formats}
use crm_bisync.Conflict.Terms.{
  field_level, write_left, write_right, write_both, escalate, State, Loop, merging, Resolution,
  Resolver, changed, has_base, or_nil, classify,
}
use crm_bisync.Conflict.Loops.{Collected, collect, nothing_collected, conclude, merge_choice, merge}
use crm_bisync.Conflict.Resolve.{
  by_policy, resolve_conflict, field_changed, difference, diff, by_situation, undecided_resolution,
  resolve,
}
use crm_bisync.Conflict.Diffs.{
  listed, same_field, picked, goes_left, goes_right, blocks, collect_lem,
}

-- The values that a resolution has the caller write to a side
abbrev pub for_right : Resolution → Dict Value
for_right res = elim res.action [
  | write_right ↦ res.values
  | write_both ↦ res.right_values
  | _ ↦ []
]

abbrev pub for_left : Resolution → Dict Value
for_left res = elim res.action [ write_left ↦ res.values | write_both ↦ res.left_values | _ ↦ [] ]

pub nil_of_is_empty : {A : Type 0} (xs : List A) → is_empty xs ≡ true → xs ≡ []
nil_of_is_empty [] e = refl
nil_of_is_empty (x ∷ xs) e = cc

pub conclude_lem :
    (loop : Loop) (c : Collected) (res : Resolution)
    → is_empty c.blocked ≡ true
    → (for_right (conclude loop c res) ≡ c.right_values)
      × (for_left (conclude loop c res) ≡ c.left_values)
unfolding conclude
conclude_lem loop c res e = elim (Bool-cases (is_empty c.left_values)) [
  | inl l ↦ elim (Bool-cases (is_empty c.right_values)) [
    | inl r ↦
        rw (e, l, r) (sym (nil_of_is_empty c.right_values r), sym (nil_of_is_empty c.left_values l))
    | inr r ↦ rw (e, l, r) (refl, sym (nil_of_is_empty c.left_values l))
  ]
  | inr l ↦ elim (Bool-cases (is_empty c.right_values)) [
    | inl r ↦ rw (e, l, r) (sym (nil_of_is_empty c.right_values r), refl)
    | inr r ↦ rw (e, l, r) (refl, refl)
  ]
]

pub conclude_blocked :
    (loop : Loop) (c : Collected) (res : Resolution)
    → is_empty c.blocked ≡ false
    → (conclude loop c res).action ≡ escalate
unfolding conclude
conclude_blocked loop c res e = rw e refl

-- The field-level policy with no overrides
abbrev pub field_level_resolver : ℕ → Resolver
field_level_resolver skew = record { default_policy = field_level; overrides = []; skew = skew }

module _ (F : Formats) (left right : State) where
  -- A side's edit of a field on which the sides differ
  abbrev pub left_edit : Bytes → Bool
  left_edit n = not (same_field F left right n) && field_changed F left n

  abbrev pub right_edit : Bytes → Bool
  right_edit n = not (same_field F left right n) && field_changed F right n

  abbrev pub contested : Bytes → Bool
  contested n = left_edit n && right_edit n

  -- Both sides changed since they last agreed, and that state is recorded.
  pub record IsMergeable : Type 0 where
    pub left_moved : changed left ≡ true
    pub right_moved : changed right ≡ true
    pub left_base : has_base left ≡ true
    pub right_base : has_base right ≡ true

  abbrev pub collected : List Bytes → Collected
  collected fields = collect merge_choice (diff F left right fields) nothing_collected

  pub resolve_merges :
      (skew : ℕ) (fields : List Bytes)
      → IsMergeable
      → is_empty (diff F left right fields) ≡ false
      → resolve F (field_level_resolver skew) left right fields
        ≡ conclude merging
            (collected fields)
            (record (undecided_resolution F (field_level_resolver skew) left right fields) {
              policy = field_level;
            })
  unfolding resolve by_situation resolve_conflict by_policy merge classify
  resolve_merges skew fields h e =
      rw (e, h.left_moved, h.right_moved, h.left_base, h.right_base) refl

  choice_right :
      (n : Bytes)
      → goes_right (picked F left right merge_choice n) ≡ (left_edit n && not (contested n))
  unfolding picked merge_choice difference
  choice_right n = ground arith

  choice_left :
      (n : Bytes)
      → goes_left (picked F left right merge_choice n) ≡ (right_edit n && not (contested n))
  unfolding picked merge_choice difference
  choice_left n = ground arith

  choice_blocks : (n : Bytes) → blocks (picked F left right merge_choice n) ≡ contested n
  unfolding picked merge_choice difference
  choice_blocks n = ground arith

  pub collected_lem :
      (fields : List Bytes) (n : Bytes)
      → (lookup n (collected fields).right_values ≡ (
          if listed n fields && left_edit n && not (contested n)
          then some (or_nil (lookup n left.fields))
          else none))
        × (lookup n (collected fields).left_values ≡ (
            if listed n fields && right_edit n && not (contested n)
            then some (or_nil (lookup n right.fields))
            else none))
        × (is_empty (collected fields).blocked ≡ not (any_b contested fields))
  unfolding diff
  collected_lem fields n =
      let (r, l, b) =
        collect_lem F left right merge_choice (sort_by str_lt fields) n nothing_collected in
      (
        r
            ∙ rw (any_b-sort_by (λ m. str_eq m n) str_lt fields, choice_right n, lookup-nil n)
                (ground arith),
        l
            ∙ rw (any_b-sort_by (λ m. str_eq m n) str_lt fields, choice_left n, lookup-nil n)
                (ground arith),
        b
            ∙ ap not (
                any_b-sort_by (λ m. blocks (picked F left right merge_choice m)) str_lt fields
                ∙ any_b_ext (λ m. blocks (picked F left right merge_choice m)) contested fields
                    choice_blocks),
      )

  pub resolve_agreed :
      (r : Resolver) (fields : List Bytes)
      → is_empty (diff F left right fields) ≡ true
      → (for_right (resolve F r left right fields) ≡ [])
        × (for_left (resolve F r left right fields) ≡ [])
  unfolding resolve
  resolve_agreed r fields e = rw e (refl, refl)

  -- With no contested field, what is written is what the loop collects.
  pub merged_lem :
      (skew : ℕ) (fields : List Bytes)
      → IsMergeable
      → any_b contested fields ≡ false
      → let res = resolve F (field_level_resolver skew) left right fields in
        (for_right res ≡ (collected fields).right_values)
        × (for_left res ≡ (collected fields).left_values)
  unfolding collect
  merged_lem skew fields h c = elim (Bool-cases (is_empty (diff F left right fields))) [
    | inl e ↦
        let (r, l) = resolve_agreed (field_level_resolver skew) fields e in
        let none_left =
          ap (λ ds. collect merge_choice ds nothing_collected)
            (nil_of_is_empty (diff F left right fields) e) in
        (r ∙ sym (ap (λ x. x.right_values) none_left), l ∙ sym (ap (λ x. x.left_values) none_left))
    | inr e ↦ rw (resolve_merges skew fields h e) (
        conclude_lem merging (collected fields)
          (record (undecided_resolution F (field_level_resolver skew) left right fields) {
            policy = field_level;
          })
          ((collected_lem fields []).2 ∙ rw c refl))
  ]
