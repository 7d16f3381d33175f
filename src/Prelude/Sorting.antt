-- ===== src/Prelude/Sorting.antt =====
-- A stable sort by insertion, for `sort.Strings`, `sort.Slice` and `sort.SliceStable`; among elements
-- that compare equal `sort.Slice` leaves the order open.
use mathlib.Core.Path.{◌≡◌, ◌∙◌, refl, ap}
use native.Mathlib.Omega.{arith}
use mathlib.Core.Bool.{Bool, false, ◌||◌}
use mathlib.Core.List.{List, [], ◌∷◌, ◌++◌}
use Prim.Native.Nat.{suc}
use crm_bisync.Prelude.Tests.{if◌then◌else◌, Bool-cases}
use mathlib.Core.Logic.{inl, inr}
use crm_bisync.Prelude.Lists.{All, length}

module _ {A : Type 0} where
  -- `x` goes in front of the first element that is not less than it.
  unfoldable pub insert_by : (A → A → Bool) → A → List A → List A
  insert_by less x [] = x ∷ []
  insert_by less x (y ∷ ys) = if less y x then y ∷ insert_by less x ys else x ∷ y ∷ ys

  unfoldable pub sort_by : (A → A → Bool) → List A → List A
  unfolding insert_by
  sort_by less [] = []
  sort_by less (x ∷ xs) = insert_by less x (sort_by less xs)

  -- No element is less than one before it.
  abbrev pub IsSorted : (A → A → Bool) → List A → Type 0
  IsSorted less [] = Unit
  IsSorted less (x ∷ xs) = All (λ y. less y x ≡ false) xs × IsSorted less xs

  pub All-insert_by :
      (P : A → Type 0) (less : A → A → Bool) (x : A) (xs : List A)
      → P x
      → All P xs
      → All P (insert_by less x xs)
  unfolding insert_by
  All-insert_by P less x [] p ps = (p, tt)
  All-insert_by P less x (y ∷ ys) p (q, qs) = elim (Bool-cases (less y x)) [
    | inl e ↦ rw e (q, All-insert_by P less x ys p qs)
    | inr e ↦ rw e (p, (q, qs))
  ]

  pub All-sort_by :
      (P : A → Type 0) (less : A → A → Bool) (xs : List A) → All P xs → All P (sort_by less xs)
  unfolding sort_by
  All-sort_by P less [] ps = tt
  All-sort_by P less (x ∷ xs) (p, ps) =
      All-insert_by P less x (sort_by less xs) p (All-sort_by P less xs ps)

  All-of_insert_by :
      (P : A → Type 0) (less : A → A → Bool) (x : A) (xs : List A)
      → All P (insert_by less x xs)
      → P x × All P xs
  unfolding insert_by
  All-of_insert_by P less x [] h = h
  All-of_insert_by P less x (y ∷ ys) h = elim (Bool-cases (less y x)) [
    | inl e ↦
        let (q, rest) = rw e at h in let (p, qs) = All-of_insert_by P less x ys rest in (p, (q, qs))
    | inr e ↦ rw e at h
  ]

  pub All-of_sort_by :
      (P : A → Type 0) (less : A → A → Bool) (xs : List A) → All P (sort_by less xs) → All P xs
  unfolding sort_by
  All-of_sort_by P less [] h = tt
  All-of_sort_by P less (x ∷ xs) h =
      let (p, ps) = All-of_insert_by P less x (sort_by less xs) h in
      (p, All-of_sort_by P less xs ps)

module _ {A : Type 0} where
  -- Whether a test holds of some element
  abbrev pub any_b : (A → Bool) → List A → Bool
  any_b p [] = false
  any_b p (x ∷ xs) = p x || any_b p xs

  any_b-insert_by :
      (p : A → Bool) (less : A → A → Bool) (x : A) (xs : List A)
      → any_b p (insert_by less x xs) ≡ (p x || any_b p xs)
  unfolding insert_by
  any_b-insert_by p less x [] = refl
  any_b-insert_by p less x (y ∷ ys) = ground (arith, any_b-insert_by p less x ys)

  pub any_b-sort_by :
      (p : A → Bool) (less : A → A → Bool) (xs : List A) → any_b p (sort_by less xs) ≡ any_b p xs
  unfolding sort_by
  any_b-sort_by p less [] = refl
  any_b-sort_by p less (x ∷ xs) =
      any_b-insert_by p less x (sort_by less xs) ∙ rw (any_b-sort_by p less xs) refl

  pub any_b_ext : (p q : A → Bool) (xs : List A) → ((x : A) → p x ≡ q x) → any_b p xs ≡ any_b q xs
  any_b_ext p q [] h = refl
  any_b_ext p q (x ∷ xs) h = rw (h x, any_b_ext p q xs h) refl

  pub any_b-append :
      (p : A → Bool) (xs ys : List A) → any_b p (xs ++ ys) ≡ (any_b p xs || any_b p ys)
  any_b-append p [] ys = refl
  any_b-append p (x ∷ xs) ys = ground (arith, any_b-append p xs ys)

  length-insert_by :
      (less : A → A → Bool) (x : A) (xs : List A) → length (insert_by less x xs) ≡ suc (length xs)
  unfolding insert_by
  length-insert_by less x [] = refl
  length-insert_by less x (y ∷ ys) = ground (arith, length-insert_by less x ys)

  pub length-sort_by : (less : A → A → Bool) (xs : List A) → length (sort_by less xs) ≡ length xs
  unfolding sort_by
  length-sort_by less [] = refl
  length-sort_by less (x ∷ xs) =
      length-insert_by less x (sort_by less xs) ∙ ap suc (length-sort_by less xs)
