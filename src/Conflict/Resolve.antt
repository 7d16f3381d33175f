-- ===== src/Conflict/Resolve.antt =====
-- internal/conflict/conflict.go: `diff`, `newest`, `resolveConflict` and `Resolve`.
use crm_bisync.Prelude.{
  Bool, not, ◌&&◌, Option, List, [], ◌∷◌, Bytes, codes, str_eq, is_some, is_empty, ltb,
  if◌then◌else◌,
}
use crm_bisync.Prelude.Int.{pos, leb_ℤ}
use crm_bisync.Prelude.Strings.{str_lt}
use crm_bisync.Prelude.Sorting.{sort_by}
use crm_bisync.Prelude.Dict.{lookup}
use crm_bisync.Model.{Value, Formats, snapshot_hash}
use crm_bisync.Conflict.Terms.{
  Policy, left_wins, right_wins, newest_wins, field_level, review, Situation, unchanged,
  left_changed, right_changed, both_changed, nothing, write_left, write_right, escalate, FieldDiff,
  State, undecided, agree_on_mapped, neither_changed, only_left_changed, only_right_changed,
  left_is_source, right_is_source, policy_is_to_ask, within_tolerance, left_later, right_later,
  Resolution, Resolver, or_nil, classify, gap, pick,
}
use crm_bisync.Conflict.Loops.{merge, resolve_per_field}

-- `newest`
unfoldable pub newest : Resolver → State → State → List Bytes → Resolution → Resolution
newest r left right fields res =
    let apart = gap left.updated_at right.updated_at in
    if leb_ℤ apart (pos r.skew)
    then record res { action = escalate; reason = within_tolerance apart r.skew }
    else if ltb right.updated_at left.updated_at
    then record res {
      action = write_right;
      values = pick left.fields fields;
      reason = left_later apart;
    }
    else record res {
      action = write_left;
      values = pick right.fields fields;
      reason = right_later apart;
    }

unfoldable pub by_policy : Resolver → Policy → State → State → List Bytes → Resolution → Resolution
unfolding newest merge
by_policy r field_level left right fields res = merge left right res
by_policy r left_wins left right fields res = record res {
  policy = r.default_policy;
  action = write_right;
  values = pick left.fields fields;
  reason = left_is_source;
}
by_policy r right_wins left right fields res = record res {
  policy = r.default_policy;
  action = write_left;
  values = pick right.fields fields;
  reason = right_is_source;
}
by_policy r newest_wins left right fields res =
    newest r left right fields (record res { policy = r.default_policy })
by_policy r review left right fields res = record res {
  policy = r.default_policy;
  action = escalate;
  reason = policy_is_to_ask;
}

-- `resolveConflict`
unfoldable pub resolve_conflict : Resolver → State → State → List Bytes → Resolution → Resolution
unfolding by_policy resolve_per_field
resolve_conflict r left right fields res =
    if not (is_empty r.overrides)
    then resolve_per_field r left right res
    else by_policy r r.default_policy left right fields res

module _ (F : Formats) where
  -- `equal`
  unfoldable pub equal : Value → Value → Bool
  equal a b =
      let v = codes "v" in
      str_eq (snapshot_hash F ((v, a) ∷ []) (v ∷ [])) (snapshot_hash F ((v, b) ∷ []) (v ∷ []))

  -- Two reads that find the same: both a value and equal ones, or both none.
  unfoldable pub agree : Option Value → Option Value → Bool
  agree a b = (if is_some a then is_some b else not (is_some b)) && equal (or_nil a) (or_nil b)

  -- `fieldChanged`
  unfoldable pub field_changed : State → Bytes → Bool
  unfolding agree
  field_changed s name = not (agree (lookup name s.fields) (lookup name s.base))

  -- The entry for a field
  unfoldable pub difference : State → State → Bytes → FieldDiff
  unfolding field_changed
  difference left right name = record {
    field = name;
    left = or_nil (lookup name left.fields);
    right = or_nil (lookup name right.fields);
    left_changed = field_changed left name;
    right_changed = field_changed right name;
    winner = nothing;
  }

  unfoldable pub diffs_of : State → State → List Bytes → List FieldDiff
  unfolding difference agree
  diffs_of left right [] = []
  diffs_of left right (name ∷ names) =
      let rest = diffs_of left right names in
      if agree (lookup name left.fields) (lookup name right.fields)
      then rest
      else difference left right name ∷ rest

  -- `diff`
  unfoldable pub diff : State → State → List Bytes → List FieldDiff
  unfolding diffs_of
  diff left right fields = diffs_of left right (sort_by str_lt fields)

  unfoldable pub by_situation :
      Situation → Resolver → State → State → List Bytes → Resolution → Resolution
  by_situation unchanged r left right fields res = record res {
    action = nothing;
    reason = neither_changed;
  }
  by_situation left_changed r left right fields res = record res {
    action = write_right;
    values = pick left.fields fields;
    reason = only_left_changed;
  }
  by_situation right_changed r left right fields res = record res {
    action = write_left;
    values = pick right.fields fields;
    reason = only_right_changed;
  }
  by_situation both_changed r left right fields res = resolve_conflict r left right fields res

  -- The resolution before a decision
  abbrev pub undecided_resolution : Resolver → State → State → List Bytes → Resolution
  undecided_resolution r left right fields = record {
    situation = classify left right;
    action = nothing;
    policy = r.default_policy;
    values = [];
    left_values = [];
    right_values = [];
    diffs = diff left right fields;
    reason = undecided;
  }

  -- `Resolve`
  unfoldable pub resolve : Resolver → State → State → List Bytes → Resolution
  unfolding by_situation
  resolve r left right fields =
      let res = undecided_resolution r left right fields in
      if is_empty res.diffs
      then record res { action = nothing; reason = agree_on_mapped }
      else by_situation (classify left right) r left right fields res
