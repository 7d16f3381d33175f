-- ===== src/Examples/Conflicts.antt =====
-- The resolver's theorems on two edited contacts.
use crm_bisync.Conflict.Diffs.{picked}
use crm_bisync.Conflict.Loops.{policy_choice}
use crm_bisync.Conflict.Resolve.{difference}
use crm_bisync.Prelude.Strings.{str_eq}
use crm_bisync.Model.{hex, snapshot_hash}
use crm_bisync.Prelude.Decimal.{chunk, frames, itoa}
use crm_bisync.Prelude.Sorting.{sort_by}
use crm_bisync.Prelude.{
  ℕ, ◌^◌, ◌≡◌, refl, true, false, not, ◌&&◌, none, some, Bytes, List, [], ◌∷◌, codes, arith,
  is_some, if◌then◌else◌,
}
use crm_bisync.Prelude.Sorting.{any_b}
use crm_bisync.Prelude.Dict.{Dict, lookup}
use crm_bisync.Model.{Value, text}
use crm_bisync.Conflict.Terms.{
  newest_wins, write_left, write_right, escalate, State, Resolver, changed, has_base, or_nil,
  clock_winner,
}
use crm_bisync.Conflict.Resolve.{equal, agree, field_changed, resolve}
use crm_bisync.Conflict.Overrides.{undecidable, override_wins}
use crm_bisync.Conflict.Terms.{policy_for, left_wins, right_wins, review}
use crm_bisync.Conflict.Lossless.{cleared_stays_apart}
use crm_bisync.Model.{null}
use crm_bisync.Conflict.Clock.{clock_winner_lem, clock_winner_far}
use crm_bisync.Conflict.Writes.{IsTidy, resolve-IsTidy}
use crm_bisync.Conflict.Owned.{CarriesOwned, resolve-IsOwned}
use crm_bisync.Conflict.Diffs.{listed, same_field}
use crm_bisync.Conflict.Merging.{for_left, for_right, left_edit, right_edit, contested, IsMergeable}
use crm_bisync.Conflict.Lossless.{merged, merge_lossless, merge_contested, applied, merge_converges}
use crm_bisync.Examples.Values.{formats}

abbrev contact : Bytes → Bytes → Dict Value
contact email phone = (codes "email", text email) ∷ (codes "phone", text phone) ∷ []

abbrev side : Dict Value → Bytes → ℕ → State
side fields hash at = record {
  fields = fields;
  hash = hash;
  base = contact (codes "a@x") (codes "1");
  synced_hash = codes "h";
  updated_at = at;
  present = true;
}

-- The left side has another email, the right side another phone.
abbrev left : State
left = side (contact (codes "b@x") (codes "1")) (codes "l") 5000000000

abbrev right : State
right = side (contact (codes "a@x") (codes "2")) (codes "r") 9000000000

-- The right side has another email too.
abbrev rival : State
rival = side (contact (codes "c@x") (codes "2")) (codes "r") 9000000000

abbrev fields : List Bytes
fields = codes "email" ∷ codes "phone" ∷ []

abbrev newest_resolver : Resolver
newest_resolver = record { default_policy = newest_wins; overrides = []; skew = 2000000000 }

clock_winner_lem_example : clock_winner newest_resolver left right ≡ some write_left
clock_winner_lem_example = clock_winner_lem newest_resolver left right (omega arith)

-- A side with no modification time
abbrev undated : State
undated = side (contact (codes "b@x") (codes "1")) (codes "l") 0

abbrev dated : State
dated = side (contact (codes "a@x") (codes "2")) (codes "r") (2 ^ 63)

clock_winner_far_example :
    (clock_winner newest_resolver undated dated ≡ none)
    × (clock_winner newest_resolver dated undated ≡ some write_right)
clock_winner_far_example =
    clock_winner_far newest_resolver undated dated (omega arith) (omega arith)

resolve-IsTidy_example : IsTidy (resolve formats newest_resolver left right fields)
resolve-IsTidy_example = resolve-IsTidy formats newest_resolver left right fields

resolve-IsOwned_example : CarriesOwned fields (resolve formats newest_resolver left right fields)
resolve-IsOwned_example = resolve-IsOwned formats newest_resolver left right fields

mergeable : IsMergeable formats left right
unfolding changed str_eq has_base
mergeable = record { left_moved = refl; right_moved = refl; left_base = refl; right_base = refl }

rivals : IsMergeable formats left rival
unfolding changed str_eq has_base
rivals = record { left_moved = refl; right_moved = refl; left_base = refl; right_base = refl }

no_contest : any_b (contested formats left right) fields ≡ false
unfolding same_field agree lookup str_eq equal snapshot_hash hex frames sort_by chunk itoa
    field_changed
no_contest = refl

a_contest : any_b (contested formats left rival) fields ≡ true
unfolding same_field agree lookup str_eq equal snapshot_hash hex frames sort_by chunk itoa
    field_changed
a_contest = refl

email_listed : listed (codes "email") fields ≡ true
unfolding str_eq
email_listed = refl

merge_lossless_example :
    (lookup (codes "email") (for_right (merged formats left right 2 fields)) ≡ (
      if left_edit formats left right (codes "email")
      then some (or_nil (lookup (codes "email") left.fields))
      else none))
    × (lookup (codes "email") (for_left (merged formats left right 2 fields)) ≡ (
        if right_edit formats left right (codes "email")
        then some (or_nil (lookup (codes "email") right.fields))
        else none))
merge_lossless_example =
    merge_lossless formats left right 2 fields (codes "email") mergeable no_contest email_listed

merge_contested_example : (merged formats left rival 2 fields).action ≡ escalate
merge_contested_example = merge_contested formats left rival 2 fields rivals a_contest

same_base :
    agree formats (lookup (codes "email") left.base) (lookup (codes "email") right.base) ≡ true
unfolding agree lookup str_eq equal snapshot_hash hex frames sort_by chunk itoa
same_base = refl

left_has_it :
    (left_edit formats left right (codes "email")
      && not (is_some (lookup (codes "email") left.fields)))
    ≡ false
unfolding same_field agree lookup str_eq equal snapshot_hash hex frames sort_by chunk itoa
    field_changed
left_has_it = refl

right_has_it :
    (right_edit formats left right (codes "email")
      && not (is_some (lookup (codes "email") right.fields)))
    ≡ false
unfolding same_field agree lookup str_eq equal snapshot_hash hex frames sort_by chunk itoa
    field_changed
right_has_it = refl

merge_converges_example :
    agree formats
      (lookup (codes "email") (applied (for_left (merged formats left right 2 fields)) left.fields))
      (lookup
        (codes "email")
        (applied (for_right (merged formats left right 2 fields)) right.fields))
    ≡ true
merge_converges_example =
    merge_converges formats left right 2 fields (codes "email") mergeable no_contest email_listed
      same_base left_has_it right_has_it

-- The left side owns the email and the right side the phone.
abbrev owners : Resolver
owners = record {
  default_policy = review;
  overrides = (codes "email", left_wins) ∷ (codes "phone", right_wins) ∷ [];
  skew = 2;
}

abbrev email_only : List Bytes
email_only = codes "email" ∷ []

email_decided : any_b (undecidable formats owners left rival) email_only ≡ false
unfolding picked agree lookup str_eq equal snapshot_hash hex frames sort_by chunk itoa policy_choice
    policy_for difference
email_decided = refl

emails_differ : same_field formats left rival (codes "email") ≡ false
unfolding same_field agree lookup str_eq equal snapshot_hash hex frames sort_by chunk itoa
emails_differ = refl

email_alone : listed (codes "email") email_only ≡ true
unfolding str_eq
email_alone = refl

left_owns : policy_for owners (codes "email") ≡ left_wins
unfolding policy_for lookup str_eq
left_owns = refl

override_wins_example :
    (lookup (codes "email") (for_right (resolve formats owners left rival email_only))
      ≡ some (or_nil (lookup (codes "email") left.fields)))
    × (lookup (codes "email") (for_left (resolve formats owners left rival email_only)) ≡ none)
override_wins_example =
    override_wins formats owners left rival email_only (codes "email") true refl rivals.left_moved
      rivals.right_moved email_decided email_alone emails_differ left_owns

-- A left side whose peer did not return the email
abbrev silent : State
silent = side ((codes "phone", text (codes "1")) ∷ []) (codes "l") 5000000000

silences : IsMergeable formats silent right
unfolding changed str_eq has_base
silences = record { left_moved = refl; right_moved = refl; left_base = refl; right_base = refl }

silence_uncontested : any_b (contested formats silent right) fields ≡ false
unfolding same_field agree lookup str_eq field_changed equal snapshot_hash hex frames sort_by chunk
    itoa
silence_uncontested = refl

silence_edits : left_edit formats silent right (codes "email") ≡ true
unfolding same_field agree lookup str_eq field_changed
silence_edits = refl

silence : lookup (codes "email") silent.fields ≡ none
unfolding lookup str_eq
silence = refl

cleared_stays_apart_example :
    (lookup (codes "email") (for_right (merged formats silent right 2 fields)) ≡ some null)
    × (agree formats
          (lookup
            (codes "email")
            (applied (for_left (merged formats silent right 2 fields)) silent.fields))
          (lookup
            (codes "email")
            (applied (for_right (merged formats silent right 2 fields)) right.fields))
        ≡ false)
cleared_stays_apart_example =
    cleared_stays_apart formats silent right 2 fields (codes "email") silences silence_uncontested
      email_listed silence_edits silence
