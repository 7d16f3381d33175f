-- ===== src/Conflict/Terms.antt =====
-- internal/conflict/conflict.go: policies, the sides' states, clocks, and the small helpers.
use crm_bisync.Prelude.{
  ℕ, zero, suc, ◌-◌, ◌*◌, ◌^◌, min, Bool, not, ◌&&◌, Option, none, some, List, [], ◌∷◌, ◌++◌, Bytes,
  codes, str_eq, is_empty, leb, ltb, ◌==◌, if◌then◌else◌,
}
use crm_bisync.Prelude.Int.{ℤ, pos, negsuc, leb_ℤ}
use crm_bisync.Prelude.Strings.{str_lt}
use crm_bisync.Prelude.Sorting.{sort_by}
use crm_bisync.Prelude.Dict.{Dict, lookup, insert}
use crm_bisync.Prelude.Result.{Result, ok, err}
use crm_bisync.Model.{Value, null}

-- The policies by their names in the configuration
pub data Policy : Type 0 where
  left_wins right_wins newest_wins field_level review : Policy

unfoldable pub policy_of : Bytes → Option Policy
policy_of p =
    if str_eq p (codes "left_wins")
    then some left_wins
    else if str_eq p (codes "right_wins")
    then some right_wins
    else if str_eq p (codes "newest_wins")
    then some newest_wins
    else if str_eq p (codes "field_level")
    then some field_level
    else if str_eq p (codes "review")
    then some review
    else none

pub data Situation : Type 0 where
  unchanged left_changed right_changed both_changed : Situation

pub data Action : Type 0 where
  nothing write_left write_right write_both escalate : Action

pub record FieldDiff : Type 0 where
  pub field : Bytes
  pub left : Value
  pub right : Value
  pub left_changed : Bool
  pub right_changed : Bool
  pub winner : Action

pub record State : Type 0 where
  pub fields : Dict Value
  pub hash : Bytes
  pub base : Dict Value
  pub synced_hash : Bytes
  pub updated_at : ℕ
  pub present : Bool

-- Which of the two merging loops speaks: `merge` or `resolvePerField`.
pub data Loop : Type 0 where
  merging per_field : Loop

pub data Reason : Type 0 where
  undecided : Reason
  agree_on_mapped neither_changed only_left_changed only_right_changed : Reason
  left_is_source right_is_source policy_is_to_ask no_base_to_merge : Reason
  within_tolerance : ℤ → ℕ → Reason
  left_later right_later : ℤ → Reason
  blocked_by : Loop → Bytes → Reason
  both_win only_left_edits only_right_edits no_mapped_field : Loop → Reason

pub record Resolution : Type 0 where
  pub situation : Situation
  pub action : Action
  pub policy : Policy
  pub values : Dict Value
  pub left_values : Dict Value
  pub right_values : Dict Value
  pub diffs : List FieldDiff
  pub reason : Reason

pub record Resolver : Type 0 where
  pub default_policy : Policy
  pub overrides : Dict Policy
  pub skew : ℕ

pub data BadPolicy : Type 0 where
  unknown_policy : Bytes → BadPolicy
  unknown_policy_for : Bytes → Bytes → BadPolicy

abbrev pub default_skew : ℕ
default_skew = 2 * 1000000000

pub valid_overrides : Dict Bytes → Result BadPolicy (Dict Policy)
valid_overrides [] = ok []
valid_overrides ((field, p) ∷ rest) = elim (policy_of p) [
  | none ↦ err (unknown_policy_for p field)
  | some q ↦ elim (valid_overrides rest) [ ok qs ↦ ok ((field, q) ∷ qs) | err e ↦ err e ]
]

-- `New`
unfoldable pub new_resolver : Bytes → Dict Bytes → ℤ → Result BadPolicy Resolver
new_resolver default_name overrides skew =
    let name : Bytes = if is_empty default_name then codes "review" else default_name in
    elim (policy_of name) [
      | none ↦ err (unknown_policy name)
      | some p ↦ elim (valid_overrides overrides) [
        | err e ↦ err e
        | ok qs ↦ ok (record { default_policy = p; overrides = qs; skew = positive skew })
      ]
    ]
  where
    positive : ℤ → ℕ
    positive (pos (suc n)) = suc n
    positive _ = default_skew

unfoldable pub policy_for : Resolver → Bytes → Policy
policy_for r field = elim (lookup field r.overrides) [ some p ↦ p | none ↦ r.default_policy ]

unfoldable pub changed : State → Bool
changed s = not (str_eq s.hash s.synced_hash)

unfoldable pub has_base : State → Bool
has_base s = not (is_empty s.synced_hash)

-- The value that a read of a Go map gives
abbrev pub or_nil : Option Value → Value
or_nil none = null
or_nil (some v) = v

-- `classify`
unfoldable pub classify : State → State → Situation
unfolding changed
classify left right =
    if changed left && changed right
    then both_changed
    else if changed left
    then left_changed
    else if changed right
    then right_changed
    else unchanged

-- The int64 arithmetic of `Sub` and of negation
abbrev pub half : ℕ
half = 2 ^ 63

unfoldable pub time_sub : ℕ → ℕ → ℤ
time_sub t u = if leb u t then pos (min (t - u) (half - 1)) else negsuc (min (u - t) half - 1)

unfoldable pub neg_int64 : ℤ → ℤ
neg_int64 (pos zero) = pos zero
neg_int64 (pos (suc n)) = negsuc n
neg_int64 (negsuc n) = if n == half - 1 then negsuc n else pos (suc n)

-- `gap := left.Sub(right); if gap < 0 { gap = -gap }`
unfoldable pub gap : ℕ → ℕ → ℤ
unfolding neg_int64
gap t u = elim (time_sub t u) [ pos n ↦ pos n | negsuc n ↦ neg_int64 (negsuc n) ]

-- `clockWinner`; none is its false.
unfoldable pub clock_winner : Resolver → State → State → Option Action
clock_winner r left right =
    if leb_ℤ (gap left.updated_at right.updated_at) (pos r.skew)
    then none
    else if ltb right.updated_at left.updated_at
    then some write_right
    else some write_left

-- `pick`
unfoldable pub pick : Dict Value → List Bytes → Dict Value
pick fields [] = []
pick fields (name ∷ names) = elim (lookup name fields) [
  | some v ↦ insert name v (pick fields names)
  | none ↦ pick fields names
]

-- `joinFields`
joined : List Bytes → Bytes
joined [] = []
joined (n ∷ []) = n
joined (n ∷ m ∷ ns) = n ++ codes ", " ++ joined (m ∷ ns)

unfoldable pub join_fields : List Bytes → Bytes
unfolding joined
join_fields names = joined (sort_by str_lt names)
