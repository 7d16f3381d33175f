-- ===== src/Conflict/Owned.antt =====
-- internal/conflict/conflict.go: the names in a resolution's values.
use crm_bisync.Prelude.{
  All-imp, ◌≡◌, refl, not, ◌&&◌, ◌||◌, List, [], ◌∷◌, Bytes, All, Any, is_empty, str_eq, ltb, inl,
  inr, Option-cases, if_both,
}
use crm_bisync.Prelude.Int.{pos, leb_ℤ}
use crm_bisync.Prelude.Strings.{str_lt}
use crm_bisync.Prelude.Sorting.{sort_by, All-sort_by}
use crm_bisync.Prelude.Dict.{Dict, lookup, insert}
use crm_bisync.Model.{Value, Formats}
use crm_bisync.Conflict.Terms.{
  Policy, left_wins, right_wins, newest_wins, field_level, review, Situation, unchanged,
  left_changed, right_changed, both_changed, FieldDiff, State, Loop, merging, per_field, Resolution,
  Resolver, has_base, classify, gap, pick,
}
use crm_bisync.Conflict.Loops.{
  Pick, keep_left, keep_right, keep_neither, blocked, Collected, note, collect, nothing_collected,
  conclude, merge_choice, merge, policy_choice, resolve_per_field,
}
use crm_bisync.Conflict.Resolve.{
  by_policy, by_situation, newest, resolve_conflict, agree, difference, diffs_of, diff,
  undecided_resolution, resolve,
}

-- The names that the mapping owns
infix 50 ◌∈◌
abbrev pub ◌∈◌ : Bytes → List Bytes → Type 0
name ∈ names = Any (λ n. n ≡ name) names

All-self : (names : List Bytes) → All (λ n. n ∈ names) names
All-self [] = tt
All-self (n ∷ ns) = (inl refl, All-imp (λ a p. inr p) ns (All-self ns))

-- A set of values for mapped fields
abbrev pub IsOwned : List Bytes → Dict Value → Type 0
IsOwned fields d = All (λ p. p.0 ∈ fields) d

insert-IsOwned :
    (fields : List Bytes) (n : Bytes) (v : Value) (d : Dict Value)
    → n ∈ fields
    → IsOwned fields d
    → IsOwned fields (insert n v d)
unfolding insert
insert-IsOwned fields n v [] m h = (m, tt)
insert-IsOwned fields n v ((j, w) ∷ d) m (p, ps) =
    if_both (IsOwned fields) (str_eq j n) (m, ps) (p, insert-IsOwned fields n v d m ps)

pick-IsOwned :
    (fields : List Bytes) (d : Dict Value) (names : List Bytes)
    → All (λ n. n ∈ fields) names
    → IsOwned fields (pick d names)
unfolding pick
pick-IsOwned fields d [] h = tt
pick-IsOwned fields d (n ∷ ns) (m, ms) = elim (Option-cases (lookup n d)) [
  | inl e ↦ rw (pick, e) (pick-IsOwned fields d ns ms)
  | inr (v, e) ↦
      rw (pick, e) (insert-IsOwned fields n v (pick d ns) m (pick-IsOwned fields d ns ms))
]

-- All that a resolution carries is for mapped fields.
abbrev pub CarriesOwned : List Bytes → Resolution → Type 0
CarriesOwned fields res =
    IsOwned fields res.values × IsOwned fields res.left_values × IsOwned fields res.right_values

abbrev Mapped : List Bytes → List FieldDiff → Type 0
Mapped fields ds = All (λ d. d.field ∈ fields) ds

abbrev CollectedOwned : List Bytes → Collected → Type 0
CollectedOwned fields c = IsOwned fields c.left_values × IsOwned fields c.right_values

note-IsOwned :
    (fields : List Bytes) (d : FieldDiff) (p : Pick) (c : Collected)
    → d.field ∈ fields
    → CollectedOwned fields c
    → CollectedOwned fields (note d p c)
unfolding note
note-IsOwned fields d keep_left c m (l, r) =
    (l, insert-IsOwned fields d.field d.left c.right_values m r)
note-IsOwned fields d keep_right c m (l, r) =
    (insert-IsOwned fields d.field d.right c.left_values m l, r)
note-IsOwned fields d keep_neither c m h = h
note-IsOwned fields d blocked c m h = h

collect-IsOwned :
    (fields : List Bytes) (choose : FieldDiff → Pick) (ds : List FieldDiff) (c : Collected)
    → Mapped fields ds
    → CollectedOwned fields c
    → CollectedOwned fields (collect choose ds c)
unfolding collect
collect-IsOwned fields choose [] c m h = h
collect-IsOwned fields choose (d ∷ ds) c (m, ms) h =
    collect-IsOwned fields choose ds (note d (choose d) c) ms
      (note-IsOwned fields d (choose d) c m h)

conclude-IsOwned :
    (fields : List Bytes) (loop : Loop) (c : Collected) (res : Resolution)
    → CollectedOwned fields c
    → IsOwned fields res.values
    → CarriesOwned fields (conclude loop c res)
unfolding conclude
conclude-IsOwned fields loop c res (l, r) v =
    if_both (CarriesOwned fields) (not (is_empty c.blocked)) (v, tt, tt)
      (if_both (CarriesOwned fields) (not (is_empty c.left_values) && not (is_empty c.right_values))
        (v, l, r)
        (if_both (CarriesOwned fields) (not (is_empty c.right_values)) (r, tt, tt)
          (if_both (CarriesOwned fields) (not (is_empty c.left_values)) (l, tt, tt) (v, tt, tt))))

merge-IsOwned :
    (fields : List Bytes) (left right : State) (res : Resolution)
    → Mapped fields res.diffs
    → CarriesOwned fields res
    → CarriesOwned fields (merge left right res)
unfolding merge
merge-IsOwned fields left right res m (v, l, r') =
    if_both (CarriesOwned fields) (not (has_base left) || not (has_base right)) (v, l, r')
      (conclude-IsOwned fields merging (collect merge_choice res.diffs nothing_collected)
        (record res { policy = field_level })
        (collect-IsOwned fields merge_choice res.diffs nothing_collected m (tt, tt)) v)

newest-IsOwned :
    (fields : List Bytes) (r : Resolver) (left right : State) (res : Resolution)
    → CarriesOwned fields res
    → CarriesOwned fields (newest r left right fields res)
unfolding newest
newest-IsOwned fields r left right res (v, l, r') =
    if_both (CarriesOwned fields) (leb_ℤ (gap left.updated_at right.updated_at) (pos r.skew))
      (v, l, r')
      (if_both (CarriesOwned fields) (ltb right.updated_at left.updated_at)
        (pick-IsOwned fields left.fields fields (All-self fields), l, r')
        (pick-IsOwned fields right.fields fields (All-self fields), l, r'))

by_policy-IsOwned :
    (fields : List Bytes) (r : Resolver) (p : Policy) (left right : State) (res : Resolution)
    → Mapped fields res.diffs
    → CarriesOwned fields res
    → CarriesOwned fields (by_policy r p left right fields res)
unfolding by_policy
by_policy-IsOwned fields r left_wins left right res m (v, l, r') =
    (pick-IsOwned fields left.fields fields (All-self fields), l, r')
by_policy-IsOwned fields r right_wins left right res m (v, l, r') =
    (pick-IsOwned fields right.fields fields (All-self fields), l, r')
by_policy-IsOwned fields r newest_wins left right res m h =
    newest-IsOwned fields r left right (record res { policy = r.default_policy }) h
by_policy-IsOwned fields r field_level left right res m h = merge-IsOwned fields left right res m h
by_policy-IsOwned fields r review left right res m h = h

resolve_conflict-IsOwned :
    (fields : List Bytes) (r : Resolver) (left right : State) (res : Resolution)
    → Mapped fields res.diffs
    → CarriesOwned fields res
    → CarriesOwned fields (resolve_conflict r left right fields res)
unfolding resolve_conflict resolve_per_field
resolve_conflict-IsOwned fields r left right res m (v, l, r') =
    if_both (CarriesOwned fields) (not (is_empty r.overrides))
      (conclude-IsOwned fields per_field
        (collect (policy_choice r left right) res.diffs nothing_collected)
        (record res { policy = r.default_policy })
        (collect-IsOwned fields (policy_choice r left right) res.diffs nothing_collected m (tt, tt))
        v)
      (by_policy-IsOwned fields r r.default_policy left right res m (v, l, r'))

module _ (F : Formats) where
  diffs_of-Mapped :
      (fields : List Bytes) (left right : State) (names : List Bytes)
      → All (λ n. n ∈ fields) names
      → Mapped fields (diffs_of F left right names)
  unfolding diffs_of difference
  diffs_of-Mapped fields left right [] h = tt
  diffs_of-Mapped fields left right (n ∷ ns) (m, ms) =
      if_both (Mapped fields) (agree F (lookup n left.fields) (lookup n right.fields))
        (diffs_of-Mapped fields left right ns ms) (m, diffs_of-Mapped fields left right ns ms)

  diff-Mapped :
      (fields : List Bytes) (left right : State) → Mapped fields (diff F left right fields)
  unfolding diff
  diff-Mapped fields left right =
      diffs_of-Mapped fields left right (sort_by str_lt fields)
        (All-sort_by (λ n. n ∈ fields) str_lt fields (All-self fields))

  by_situation-IsOwned :
      (fields : List Bytes) (s : Situation) (r : Resolver) (left right : State) (res : Resolution)
      → Mapped fields res.diffs
      → CarriesOwned fields res
      → CarriesOwned fields (by_situation F s r left right fields res)
  unfolding by_situation
  by_situation-IsOwned fields unchanged r left right res m h = h
  by_situation-IsOwned fields left_changed r left right res m (v, l, r') =
      (pick-IsOwned fields left.fields fields (All-self fields), l, r')
  by_situation-IsOwned fields right_changed r left right res m (v, l, r') =
      (pick-IsOwned fields right.fields fields (All-self fields), l, r')
  by_situation-IsOwned fields both_changed r left right res m h =
      resolve_conflict-IsOwned fields r left right res m h

  -- Under every policy each name in the values of a resolution is one of the mapped fields.
  pub resolve-IsOwned :
      (r : Resolver) (left right : State) (fields : List Bytes)
      → CarriesOwned fields (resolve F r left right fields)
  unfolding resolve
  resolve-IsOwned r left right fields =
      if_both (CarriesOwned fields) (is_empty (diff F left right fields)) (tt, tt, tt)
        (by_situation-IsOwned fields (classify left right) r left right
          (undecided_resolution F r left right fields) (diff-Mapped fields left right) (tt, tt, tt))
