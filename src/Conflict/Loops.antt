-- ===== src/Conflict/Loops.antt =====
-- internal/conflict/conflict.go: `merge` and `resolvePerField`, the two loops over the differing
-- fields.
use crm_bisync.Prelude.{
  not, ◌&&◌, ◌||◌, Option, none, some, List, [], ◌∷◌, ◌++◌, Bytes, is_empty, if◌then◌else◌,
}
use crm_bisync.Prelude.Dict.{Dict, insert}
use crm_bisync.Model.{Value}
use crm_bisync.Conflict.Terms.{
  Policy, left_wins, right_wins, newest_wins, field_level, review, Action, nothing, write_left,
  write_right, write_both, escalate, FieldDiff, State, Loop, merging, per_field, no_base_to_merge,
  blocked_by, both_win, only_left_edits, only_right_edits, no_mapped_field, Resolution, Resolver,
  policy_for, has_base, clock_winner, join_fields,
}

-- What a pass of a merging loop does with a field: keep the left value, the right value, or
-- neither, or have it block the merge.
pub data Pick : Type 0 where
  keep_left keep_right keep_neither blocked : Pick

-- What the loop has collected
pub record Collected : Type 0 where
  pub diffs : List FieldDiff
  pub left_values : Dict Value
  pub right_values : Dict Value
  pub blocked : List Bytes

unfoldable pub note : FieldDiff → Pick → Collected → Collected
note d keep_left c = record c {
  right_values = insert d.field d.left c.right_values;
  diffs = c.diffs ++ (record d { winner = write_right }) ∷ [];
}
note d keep_right c = record c {
  left_values = insert d.field d.right c.left_values;
  diffs = c.diffs ++ (record d { winner = write_left }) ∷ [];
}
note d keep_neither c = record c { diffs = c.diffs ++ d ∷ [] }
note d blocked c = record c { blocked = c.blocked ++ d.field ∷ []; diffs = c.diffs ++ d ∷ [] }

unfoldable pub collect : (FieldDiff → Pick) → List FieldDiff → Collected → Collected
unfolding note
collect choose [] c = c
collect choose (d ∷ ds) c = collect choose ds (note d (choose d) c)

abbrev pub nothing_collected : Collected
nothing_collected = record { diffs = []; left_values = []; right_values = []; blocked = [] }

-- The end of both loops: escalate if a field is blocked, or write what the sides lack.
unfoldable pub conclude : Loop → Collected → Resolution → Resolution
conclude loop c res =
    let done = record res { diffs = c.diffs; left_values = []; right_values = [] } in
    if not (is_empty c.blocked)
    then record done { action = escalate; reason = blocked_by loop (join_fields c.blocked) }
    else if not (is_empty c.left_values) && not (is_empty c.right_values)
    then record done {
      action = write_both;
      left_values = c.left_values;
      right_values = c.right_values;
      reason = both_win loop;
    }
    else if not (is_empty c.right_values)
    then record done {
      action = write_right;
      values = c.right_values;
      reason = only_left_edits loop;
    }
    else if not (is_empty c.left_values)
    then record done { action = write_left; values = c.left_values; reason = only_right_edits loop }
    else record done { action = nothing; reason = no_mapped_field loop }

-- `d.LeftChanged && d.RightChanged`, `d.LeftChanged`, `d.RightChanged`
unfoldable pub merge_choice : FieldDiff → Pick
merge_choice d =
    if d.left_changed && d.right_changed
    then blocked
    else if d.left_changed
    then keep_left
    else if d.right_changed
    then keep_right
    else keep_neither

-- `merge`
unfoldable pub merge : State → State → Resolution → Resolution
unfolding collect conclude
merge left right res =
    let named = record res { policy = field_level } in
    if not (has_base left) || not (has_base right)
    then record named { action = escalate; reason = no_base_to_merge }
    else conclude merging (collect merge_choice res.diffs nothing_collected) named

by_clock : Option Action → Pick
by_clock (some write_right) = keep_left
by_clock (some _) = keep_right
by_clock none = blocked

-- A pass of the loop of `resolvePerField`, for the field's policy
unfoldable pub pick_by : Policy → Resolver → State → State → FieldDiff → Pick
unfolding merge_choice by_clock
pick_by left_wins r left right d = keep_left
pick_by right_wins r left right d = keep_right
pick_by newest_wins r left right d = by_clock (clock_winner r left right)
pick_by field_level r left right d =
    if not (has_base left) || not (has_base right) then blocked else merge_choice d
pick_by review r left right d = blocked

unfoldable pub policy_choice : Resolver → State → State → FieldDiff → Pick
unfolding pick_by
policy_choice r left right d = pick_by (policy_for r d.field) r left right d

-- `resolvePerField`
unfoldable pub resolve_per_field : Resolver → State → State → Resolution → Resolution
unfolding policy_choice collect conclude
resolve_per_field r left right res =
    conclude per_field (collect (policy_choice r left right) res.diffs nothing_collected)
      (record res { policy = r.default_policy })
