-- ===== src/Conflict/Lossless.antt =====
-- internal/conflict/conflict.go: resolutions under the field-level policy, and the fields after
-- they are written.
use crm_bisync.Prelude.{
  ℕ, ◌≡◌, ◌∙◌, refl, ap, Bool, true, false, not, ◌&&◌, Option, none, some, List, [], ◌∷◌, Bytes,
  is_empty, is_some, str_eq_iff, str_eq_refl, codes, if◌then◌else◌, arith, inl, inr, Bool-cases,
}
use crm_bisync.Prelude.Sorting.{any_b}
use crm_bisync.Prelude.Dict.{Dict, lookup, insert, lookup-insert}
use crm_bisync.Model.{null, Value, Formats, snapshot_hash}
use crm_bisync.Conflict.Terms.{field_level, escalate, State, merging, Resolution, or_nil}
use crm_bisync.Conflict.Loops.{collect, nothing_collected, merge_choice}
use crm_bisync.Conflict.Resolve.{equal, agree, field_changed, diff, undecided_resolution, resolve}
use crm_bisync.Conflict.Diffs.{listed, same_field}
use crm_bisync.Conflict.Merging.{
  for_left, for_right, field_level_resolver, left_edit, right_edit, contested, IsMergeable,
  collected, collected_lem, conclude_blocked, nil_of_is_empty, merged_lem, resolve_merges,
}

any_b-false :
    (p : Bytes → Bool) (xs : List Bytes) (n : Bytes)
    → any_b p xs ≡ false
    → listed n xs ≡ true
    → p n ≡ false
any_b-false p [] n h l = cc
any_b-false p (x ∷ xs) n h l = ground (arith, str_eq_iff x n, any_b-false p xs n)

-- A side's fields, once the values are written
abbrev pub applied : Dict Value → Dict Value → Dict Value
applied [] d = d
applied ((k, v) ∷ w) d = insert k v (applied w d)

lookup-applied :
    (n : Bytes) (w d : Dict Value)
    → lookup n (applied w d) ≡ (elim (lookup n w) [ some v ↦ some v | none ↦ lookup n d ])
unfolding lookup
lookup-applied n [] d = refl
lookup-applied n ((k, v) ∷ w) d =
    lookup-insert k n v (applied w d) ∙ ground (arith, lookup-applied n w d)

module _ (F : Formats) (left right : State) (skew : ℕ) (fields : List Bytes) where
  -- What the field-level policy decides
  abbrev pub merged : Resolution
  merged = resolve F (field_level_resolver skew) left right fields

  -- Under the field-level policy without overrides, when both sides changed and have a recorded
  -- base and no mapped field is contested, a mapped field's value goes to the right side exactly
  -- if the two sides differ in it and the left side moved it off its base, and to the left side
  -- exactly if they differ and the right side moved it; a field on which they agree is written
  -- nowhere.
  pub merge_lossless :
      (n : Bytes)
      → IsMergeable F left right
      → any_b (contested F left right) fields ≡ false
      → listed n fields ≡ true
      → (lookup n (for_right merged)
          ≡ (if left_edit F left right n then some (or_nil (lookup n left.fields)) else none))
        × (lookup n (for_left merged)
            ≡ (if right_edit F left right n then some (or_nil (lookup n right.fields)) else none))
  merge_lossless n h c m =
      let (r, l) = merged_lem F left right skew fields h c in
      let (cr, cl, b) = collected_lem F left right fields n in
      let free = any_b-false (contested F left right) fields n c m in
      (ap (lookup n) r ∙ cr ∙ ground arith, ap (lookup n) l ∙ cl ∙ ground arith)

  -- Under the field-level policy without overrides, when both sides changed and have a recorded
  -- base and some mapped field is contested, the resolution escalates.
  pub merge_contested :
      IsMergeable F left right
      → any_b (contested F left right) fields ≡ true
      → merged.action ≡ escalate
  unfolding collect
  merge_contested h c =
      let b = (collected_lem F left right fields []).2 in
      elim (Bool-cases (is_empty (diff F left right fields))) [
        | inl e ↦
            let none_left =
              ap (λ ds. collect merge_choice ds nothing_collected)
                (nil_of_is_empty (diff F left right fields) e) in
            let empty : is_empty (collected F left right fields).blocked ≡ true =
              ap (λ x. is_empty x.blocked) none_left in
            cc
        | inr e ↦ rw (resolve_merges F left right skew fields h e) (
            conclude_blocked merging (collected F left right fields)
              (record (undecided_resolution F (field_level_resolver skew) left right fields) {
                policy = field_level;
              })
              (b ∙ rw c refl))
      ]

  abbrev digest : Option Value → Bytes
  digest a = snapshot_hash F ((codes "v", or_nil a) ∷ []) (codes "v" ∷ [])

  agree_refl : (a : Option Value) → agree F a a ≡ true
  unfolding agree equal
  agree_refl none = str_eq_refl _
  agree_refl (some v) = str_eq_refl _

  agree_sym : (a b : Option Value) → agree F a b ≡ true → agree F b a ≡ true
  unfolding agree equal
  agree_sym a b h =
      ground (arith, str_eq_iff (digest a) (digest b), str_eq_iff (digest b) (digest a))

  agree_trans :
      (a b c : Option Value) → agree F a b ≡ true → agree F b c ≡ true → agree F a c ≡ true
  unfolding agree equal
  agree_trans a b c h k = ground (
    arith,
    str_eq_iff (digest a) (digest b),
    str_eq_iff (digest b) (digest c),
    str_eq_iff (digest a) (digest c),
  )

  abbrev written : Bool → Option Value → Option Value → Option Value
  written edited from to = elim (if edited then some (or_nil from) else none) [
    | some v ↦ some v
    | none ↦ to
  ]

  -- One field on the two sides, after the writes that its edits call for
  fields_converge :
      (l r bl br : Option Value)
      → let differ = not (agree F l r) in
        let left_edits = differ && not (agree F l bl) in
        let right_edits = differ && not (agree F r br) in
        (left_edits && right_edits) ≡ false
        → agree F bl br ≡ true
        → (left_edits && not (is_some l)) ≡ false
        → (right_edits && not (is_some r)) ≡ false
        → agree F (written right_edits r l) (written left_edits l r) ≡ true
  fields_converge l r bl br once same there_l there_r =
      ground
        (arith, agree_refl l, agree_refl r, agree_sym r br, agree_trans l bl br, agree_trans l br r)

  -- Under the field-level policy without overrides, when both sides changed and have a recorded
  -- base and no mapped field is contested, a mapped field on whose base the sides agreed, and
  -- which no edit removed, is the same on both sides once the resolution is written.
  pub merge_converges :
      (n : Bytes)
      → IsMergeable F left right
      → any_b (contested F left right) fields ≡ false
      → listed n fields ≡ true
      → agree F (lookup n left.base) (lookup n right.base) ≡ true
      → (left_edit F left right n && not (is_some (lookup n left.fields))) ≡ false
      → (right_edit F left right n && not (is_some (lookup n right.fields))) ≡ false
      → agree F
          (lookup n (applied (for_left merged) left.fields))
          (lookup n (applied (for_right merged) right.fields))
        ≡ true
  unfolding same_field field_changed
  merge_converges n h c m same there_l there_r =
      let (r, l) = merge_lossless n h c m in
      rw
        (
          lookup-applied n (for_left merged) left.fields,
          lookup-applied n (for_right merged) right.fields,
          r,
          l,
        )
        (fields_converge (lookup n left.fields) (lookup n right.fields) (lookup n left.base)
          (lookup n right.base) (any_b-false (contested F left right) fields n c m) same there_l
          there_r)

  -- Under the field-level policy without overrides, when both sides changed and have a recorded
  -- base and no mapped field is contested, a mapped field that the left side's edit removed is
  -- written to the right side as null, and the two sides still disagree about it once the
  -- resolution is written.
  pub cleared_stays_apart :
      (n : Bytes)
      → IsMergeable F left right
      → any_b (contested F left right) fields ≡ false
      → listed n fields ≡ true
      → left_edit F left right n ≡ true
      → lookup n left.fields ≡ none
      → (lookup n (for_right merged) ≡ some null)
        × (agree F
              (lookup n (applied (for_left merged) left.fields))
              (lookup n (applied (for_right merged) right.fields))
            ≡ false)
  unfolding agree
  cleared_stays_apart n h c m edit gone =
      let (r, l) = merge_lossless n h c m in
      let free = any_b-false (contested F left right) fields n c m in
      let writes : lookup n (for_right merged) ≡ some null = r ∙ rw (edit, gone) refl in
      let keeps : lookup n (for_left merged) ≡ none = l ∙ ground arith in
      (
        writes,
        rw
            (
              lookup-applied n (for_left merged) left.fields,
              lookup-applied n (for_right merged) right.fields,
              writes,
              keeps,
              gone,
            )
            refl,
      )
