-- ===== src/Conflict/Diffs.antt =====
-- internal/conflict/conflict.go: what the two loops collect, name by name.
use crm_bisync.Prelude.{
  ◌≡◌, refl, Bool, true, false, not, ◌&&◌, some, List, [], ◌∷◌, ◌++◌, Bytes, is_empty, str_eq,
  str_eq_iff, if◌then◌else◌, arith, inl, inr, Bool-cases,
}
use crm_bisync.Prelude.Sorting.{any_b}
use crm_bisync.Prelude.Dict.{lookup, lookup-insert}
use crm_bisync.Model.{Formats}
use crm_bisync.Conflict.Terms.{FieldDiff, State, or_nil}
use crm_bisync.Conflict.Loops.{
  Pick, keep_left, keep_right, keep_neither, blocked, Collected, note, collect,
}
use crm_bisync.Conflict.Resolve.{agree, difference, diffs_of}

-- The name is among those of a list.
abbrev pub listed : Bytes → List Bytes → Bool
listed n names = any_b (λ m. str_eq m n) names

abbrev pub goes_right : Pick → Bool
goes_right keep_left = true
goes_right _ = false

abbrev pub goes_left : Pick → Bool
goes_left keep_right = true
goes_left _ = false

abbrev pub blocks : Pick → Bool
blocks blocked = true
blocks _ = false

is_empty-snoc : {A : Type 0} (xs : List A) (x : A) → is_empty (xs ++ x ∷ []) ≡ false
is_empty-snoc [] x = refl
is_empty-snoc (y ∷ ys) x = refl

module _ (F : Formats) (left right : State) where
  -- The two sides agree on the field.
  unfoldable pub same_field : Bytes → Bool
  same_field n = agree F (lookup n left.fields) (lookup n right.fields)

  -- What a loop does with a name: nothing, where the sides agree.
  unfoldable pub picked : (FieldDiff → Pick) → Bytes → Pick
  unfolding same_field
  picked choose n = if same_field n then keep_neither else choose (difference F left right n)

  note_lem :
      (m n : Bytes) (p : Pick) (c : Collected)
      → let d = difference F left right m in
        (lookup n (note d p c).right_values
          ≡ (if str_eq m n && goes_right p then some d.left else lookup n c.right_values))
        × (lookup n (note d p c).left_values
            ≡ (if str_eq m n && goes_left p then some d.right else lookup n c.left_values))
        × (is_empty (note d p c).blocked ≡ (is_empty c.blocked && not (blocks p)))
  unfolding note difference
  note_lem m n keep_left c = (
    ground (arith, lookup-insert m n (or_nil (lookup m left.fields)) c.right_values),
    ground arith,
    ground arith,
  )
  note_lem m n keep_right c = (
    ground arith,
    ground (arith, lookup-insert m n (or_nil (lookup m right.fields)) c.left_values),
    ground arith,
  )
  note_lem m n keep_neither c = (ground arith, ground arith, ground arith)
  note_lem m n blocked c = (ground arith, ground arith, ground (arith, is_empty-snoc c.blocked m))

  -- What a loop has collected for a name, after the names of a list
  abbrev pub Collects : (FieldDiff → Pick) → List Bytes → Bytes → Collected → Collected → Type 0
  Collects choose names n before after =
      (lookup n after.right_values ≡ (
        if listed n names && goes_right (picked choose n)
        then some (or_nil (lookup n left.fields))
        else lookup n before.right_values))
      × (lookup n after.left_values ≡ (
          if listed n names && goes_left (picked choose n)
          then some (or_nil (lookup n right.fields))
          else lookup n before.left_values))
      × (is_empty after.blocked
          ≡ (is_empty before.blocked && not (any_b (λ m. blocks (picked choose m)) names)))

  diffs_of_same :
      (m : Bytes) (ms : List Bytes)
      → same_field m ≡ true
      → diffs_of F left right (m ∷ ms) ≡ diffs_of F left right ms
  unfolding diffs_of same_field
  diffs_of_same m ms e = rw e refl

  diffs_of_other :
      (m : Bytes) (ms : List Bytes)
      → same_field m ≡ false
      → diffs_of F left right (m ∷ ms) ≡ difference F left right m ∷ diffs_of F left right ms
  unfolding diffs_of same_field
  diffs_of_other m ms e = rw e refl

  Collects-same :
      (choose : FieldDiff → Pick) (m : Bytes) (ms : List Bytes) (n : Bytes) (c c' : Collected)
      → same_field m ≡ true
      → Collects choose ms n c c'
      → Collects choose (m ∷ ms) n c c'
  unfolding picked
  Collects-same choose m ms n c c' e (r, l, b) =
      (ground (arith, str_eq_iff m n), ground (arith, str_eq_iff m n), ground arith)

  pub picked_other :
      (choose : FieldDiff → Pick) (m : Bytes)
      → same_field m ≡ false
      → picked choose m ≡ choose (difference F left right m)
  unfolding picked
  picked_other choose m e = rw e refl

  Collects-other :
      (choose : FieldDiff → Pick) (m : Bytes) (ms : List Bytes) (n : Bytes) (c c' : Collected)
      → same_field m ≡ false
      → Collects choose ms n
          (note (difference F left right m) (choose (difference F left right m)) c)
          c'
      → Collects choose (m ∷ ms) n c c'
  unfolding difference
  Collects-other choose m ms n c c' e (r, l, b) =
      let (nr, nl, nb) = note_lem m n (choose (difference F left right m)) c in
      let pm = picked_other choose m e in
      (ground (arith, str_eq_iff m n), ground (arith, str_eq_iff m n), ground arith)

  pub collect_lem :
      (choose : FieldDiff → Pick) (names : List Bytes) (n : Bytes) (c : Collected)
      → Collects choose names n c (collect choose (diffs_of F left right names) c)
  unfolding collect diffs_of
  collect_lem choose [] n c = (refl, refl, ground arith)
  collect_lem choose (m ∷ ms) n c = elim (Bool-cases (same_field m)) [
    | inl e ↦ rw (diffs_of_same m ms e) (
        Collects-same choose m ms n c (collect choose (diffs_of F left right ms) c) e
          (collect_lem choose ms n c))
    | inr e ↦ rw (diffs_of_other m ms e) (
        let d = difference F left right m in
        Collects-other choose m ms n c
          (collect choose (diffs_of F left right ms) (note d (choose d) c)) e
          (collect_lem choose ms n (note d (choose d) c)))
  ]
