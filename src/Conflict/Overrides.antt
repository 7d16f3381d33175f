-- ===== src/Conflict/Overrides.antt =====
-- internal/conflict/conflict.go: `resolvePerField` as what its loop collects.
use crm_bisync.Prelude.{
  ◌≡◌, ◌∙◌, refl, ap, sym, Bool, true, false, not, ◌&&◌, none, some, List, [], Bytes, is_empty,
  str_eq, if◌then◌else◌, inl, inr, Bool-cases,
}
use crm_bisync.Prelude.Strings.{str_lt}
use crm_bisync.Prelude.Sorting.{sort_by, any_b, any_b-sort_by}
use crm_bisync.Prelude.Dict.{lookup, lookup-nil}
use crm_bisync.Model.{Formats}
use crm_bisync.Conflict.Terms.{
  left_wins, right_wins, State, per_field, Resolver, policy_for, changed, or_nil, classify,
}
use crm_bisync.Conflict.Loops.{
  Pick, keep_left, keep_right, Collected, collect, nothing_collected, conclude, policy_choice,
  pick_by, resolve_per_field,
}
use crm_bisync.Conflict.Resolve.{
  resolve_conflict, difference, diff, by_situation, undecided_resolution, resolve,
}
use crm_bisync.Conflict.Diffs.{
  listed, same_field, picked, goes_left, goes_right, blocks, collect_lem, picked_other,
}
use crm_bisync.Conflict.Merging.{for_left, for_right, nil_of_is_empty, conclude_lem, resolve_agreed}

module _ (F : Formats) (r : Resolver) (left right : State) where
  -- What `resolvePerField` does with a name
  abbrev pub choice : Bytes → Pick
  choice n = picked F left right (policy_choice r left right) n

  abbrev pub undecidable : Bytes → Bool
  undecidable n = blocks (choice n)

  abbrev collected : List Bytes → Collected
  collected fields =
      collect (policy_choice r left right) (diff F left right fields) nothing_collected

  collected_lem :
      (fields : List Bytes) (n : Bytes)
      → (lookup n (collected fields).right_values ≡ (
          if listed n fields && goes_right (choice n)
          then some (or_nil (lookup n left.fields))
          else none))
        × (lookup n (collected fields).left_values ≡ (
            if listed n fields && goes_left (choice n)
            then some (or_nil (lookup n right.fields))
            else none))
        × (is_empty (collected fields).blocked ≡ not (any_b undecidable fields))
  unfolding diff
  collected_lem fields n =
      let (a, b, c) =
        collect_lem F left right (policy_choice r left right) (sort_by str_lt fields) n
          nothing_collected in
      (
        a ∙ rw (any_b-sort_by (λ m. str_eq m n) str_lt fields, lookup-nil n) refl,
        b ∙ rw (any_b-sort_by (λ m. str_eq m n) str_lt fields, lookup-nil n) refl,
        c ∙ rw (any_b-sort_by undecidable str_lt fields) refl,
      )

  resolves_per_field :
      (fields : List Bytes)
      → is_empty r.overrides ≡ false
      → changed left ≡ true
      → changed right ≡ true
      → is_empty (diff F left right fields) ≡ false
      → resolve F r left right fields
        ≡ conclude per_field
            (collected fields)
            (record (undecided_resolution F r left right fields) { policy = r.default_policy })
  unfolding resolve by_situation resolve_conflict resolve_per_field classify
  resolves_per_field fields o l r' e = simp (e, o, l, r') refl

  policy_keeps_left :
      (n : Bytes)
      → policy_for r n ≡ left_wins
      → policy_choice r left right (difference F left right n) ≡ keep_left
  unfolding policy_choice difference
  policy_keeps_left n p = ap (λ q. pick_by q r left right (difference F left right n)) p

  policy_keeps_right :
      (n : Bytes)
      → policy_for r n ≡ right_wins
      → policy_choice r left right (difference F left right n) ≡ keep_right
  unfolding policy_choice difference
  policy_keeps_right n p = ap (λ q. pick_by q r left right (difference F left right n)) p

  written_lem :
      (fields : List Bytes)
      → is_empty r.overrides ≡ false
      → changed left ≡ true
      → changed right ≡ true
      → any_b undecidable fields ≡ false
      → (for_right (resolve F r left right fields) ≡ (collected fields).right_values)
        × (for_left (resolve F r left right fields) ≡ (collected fields).left_values)
  unfolding collect
  written_lem fields o l r' c = elim (Bool-cases (is_empty (diff F left right fields))) [
    | inl e ↦
        let (x, y) = resolve_agreed F left right r fields e in
        let none_left =
          ap (λ ds. collect (policy_choice r left right) ds nothing_collected)
            (nil_of_is_empty (diff F left right fields) e) in
        (x ∙ sym (ap (λ z. z.right_values) none_left), y ∙ sym (ap (λ z. z.left_values) none_left))
    | inr e ↦ rw (resolves_per_field fields o l r' e) (
        conclude_lem per_field (collected fields)
          (record (undecided_resolution F r left right fields) { policy = r.default_policy })
          ((collected_lem fields []).2 ∙ rw c refl))
  ]

  -- When both sides changed, there are per-field policies and none leaves a mapped field without
  -- a winner, a differing mapped field whose policy names the winning side is written with that
  -- side's value to the other side and is not written to its own, whatever the default policy
  -- and whether or not another field goes the other way.
  pub override_wins :
      (fields : List Bytes) (n : Bytes) (left_owns : Bool)
      → is_empty r.overrides ≡ false
      → changed left ≡ true
      → changed right ≡ true
      → any_b undecidable fields ≡ false
      → listed n fields ≡ true
      → same_field F left right n ≡ false
      → policy_for r n ≡ (if left_owns then left_wins else right_wins)
      → let res = resolve F r left right fields in
        (lookup n (for_right res)
          ≡ (if left_owns then some (or_nil (lookup n left.fields)) else none))
        × (lookup n (for_left res)
            ≡ (if left_owns then none else some (or_nil (lookup n right.fields))))
  override_wins fields n true o l r' c m d p =
      let (x, y) = written_lem fields o l r' c in
      let (a, b, _) = collected_lem fields n in
      let kept : choice n ≡ keep_left =
        picked_other F left right (policy_choice r left right) n d ∙ policy_keeps_left n p in
      (ap (lookup n) x ∙ a ∙ rw (m, kept) refl, ap (lookup n) y ∙ b ∙ rw (m, kept) refl)
  override_wins fields n false o l r' c m d p =
      let (x, y) = written_lem fields o l r' c in
      let (a, b, _) = collected_lem fields n in
      let kept : choice n ≡ keep_right =
        picked_other F left right (policy_choice r left right) n d ∙ policy_keeps_right n p in
      (ap (lookup n) x ∙ a ∙ rw (m, kept) refl, ap (lookup n) y ∙ b ∙ rw (m, kept) refl)
