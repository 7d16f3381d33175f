-- ===== src/Conflict/Writes.antt =====
-- internal/conflict/conflict.go: the values of a resolution for each action.
use crm_bisync.Prelude.{
  ◌≡◌, refl, false, not, ◌||◌, List, [], Bytes, is_empty, ltb, inl, inr, Bool-cases, if_both,
}
use crm_bisync.Prelude.Int.{pos, leb_ℤ}
use crm_bisync.Prelude.Dict.{Dict}
use crm_bisync.Model.{Value, Formats}
use crm_bisync.Conflict.Terms.{
  Policy, left_wins, right_wins, newest_wins, field_level, review, Situation, unchanged,
  left_changed, right_changed, both_changed, Action, write_left, write_right, write_both, State,
  Loop, merging, per_field, Resolution, Resolver, has_base, classify, gap,
}
use crm_bisync.Conflict.Loops.{
  Collected, collect, nothing_collected, conclude, merge_choice, merge, policy_choice,
  resolve_per_field,
}
use crm_bisync.Conflict.Resolve.{
  by_policy, by_situation, newest, resolve_conflict, diff, undecided_resolution, resolve,
}

abbrev Tidy : Action → Dict Value → Dict Value → Dict Value → Type 0
Tidy write_left values left right = (left ≡ []) × (right ≡ [])
Tidy write_right values left right = (left ≡ []) × (right ≡ [])
Tidy write_both values left right =
    (values ≡ []) × (is_empty left ≡ false) × (is_empty right ≡ false)
Tidy _ values left right = (values ≡ []) × (left ≡ []) × (right ≡ [])

-- Nothing to write comes with no action and with an escalation; a write to one side carries one set
-- of values, and a write to both carries a set that is not empty for each.
abbrev pub IsTidy : Resolution → Type 0
IsTidy res = Tidy res.action res.values res.left_values res.right_values

-- A resolution that carries no value yet
abbrev IsBare : Resolution → Type 0
IsBare res = (res.values ≡ []) × (res.left_values ≡ []) × (res.right_values ≡ [])

conclude-IsTidy :
    (loop : Loop) (c : Collected) (res : Resolution) → IsBare res → IsTidy (conclude loop c res)
unfolding conclude
conclude-IsTidy loop c res (v, l, r) = elim (Bool-cases (is_empty c.blocked)) [
  | inr e ↦ rw e (v, refl, refl)
  | inl e ↦ elim (Bool-cases (is_empty c.left_values)) [
    | inr el ↦ elim (Bool-cases (is_empty c.right_values)) [
      | inr er ↦ rw (e, el, er) (v, el, er)
      | inl er ↦ rw (e, el, er) (refl, refl)
    ]
    | inl el ↦ elim (Bool-cases (is_empty c.right_values)) [
      | inr er ↦ rw (e, el, er) (refl, refl)
      | inl er ↦ rw (e, el, er) (v, refl, refl)
    ]
  ]
]

merge-IsTidy : (left right : State) (res : Resolution) → IsBare res → IsTidy (merge left right res)
unfolding merge
merge-IsTidy left right res b = if_both IsTidy (not (has_base left) || not (has_base right)) b (
    conclude-IsTidy merging (collect merge_choice res.diffs nothing_collected)
      (record res { policy = field_level }) b)

newest-IsTidy :
    (r : Resolver) (left right : State) (fields : List Bytes) (res : Resolution)
    → IsBare res
    → IsTidy (newest r left right fields res)
unfolding newest
newest-IsTidy r left right fields res (v, l, r') =
    if_both IsTidy (leb_ℤ (gap left.updated_at right.updated_at) (pos r.skew)) (v, l, r')
      (if_both IsTidy (ltb right.updated_at left.updated_at) (l, r') (l, r'))

by_policy-IsTidy :
    (r : Resolver) (p : Policy) (left right : State) (fields : List Bytes) (res : Resolution)
    → IsBare res
    → IsTidy (by_policy r p left right fields res)
unfolding by_policy
by_policy-IsTidy r left_wins left right fields res (v, l, r') = (l, r')
by_policy-IsTidy r right_wins left right fields res (v, l, r') = (l, r')
by_policy-IsTidy r newest_wins left right fields res b =
    newest-IsTidy r left right fields (record res { policy = r.default_policy }) b
by_policy-IsTidy r field_level left right fields res b = merge-IsTidy left right res b
by_policy-IsTidy r review left right fields res b = b

resolve_conflict-IsTidy :
    (r : Resolver) (left right : State) (fields : List Bytes) (res : Resolution)
    → IsBare res
    → IsTidy (resolve_conflict r left right fields res)
unfolding resolve_conflict resolve_per_field
resolve_conflict-IsTidy r left right fields res b =
    if_both IsTidy (not (is_empty r.overrides))
      (conclude-IsTidy per_field (collect (policy_choice r left right) res.diffs nothing_collected)
        (record res { policy = r.default_policy }) b)
      (by_policy-IsTidy r r.default_policy left right fields res b)

by_situation-IsTidy :
    (F : Formats) (s : Situation) (r : Resolver) (left right : State) (fields : List Bytes)
    (res : Resolution)
    → IsBare res
    → IsTidy (by_situation F s r left right fields res)
unfolding by_situation
by_situation-IsTidy F unchanged r left right fields res b = b
by_situation-IsTidy F left_changed r left right fields res (v, l, r') = (l, r')
by_situation-IsTidy F right_changed r left right fields res (v, l, r') = (l, r')
by_situation-IsTidy F both_changed r left right fields res b =
    resolve_conflict-IsTidy r left right fields res b

-- Under every policy a resolution with no action or an escalation carries no values, a write to
-- one side carries one set of values, and a write to both carries a set that is not empty for
-- each side.
pub resolve-IsTidy :
    (F : Formats) (r : Resolver) (left right : State) (fields : List Bytes)
    → IsTidy (resolve F r left right fields)
unfolding resolve
resolve-IsTidy F r left right fields =
    if_both IsTidy (is_empty (diff F left right fields)) (refl, refl, refl)
      (by_situation-IsTidy F (classify left right) r left right fields
        (undecided_resolution F r left right fields) (refl, refl, refl))
