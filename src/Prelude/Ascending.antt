-- ===== src/Prelude/Ascending.antt =====
-- `sort.Strings` and the key order of maps: lists in ascending order of distinct keys.
use mathlib.Core.Path.{◌≡◌, refl}
use mathlib.Core.Logic.{◌≢◌, inl, inr}
use mathlib.Core.Bool.{Bool, true, false}
use mathlib.Core.List.{List, [], ◌∷◌}
use native.Mathlib.Omega.{arith}
use crm_bisync.Prelude.Tests.{Bool-cases}
use crm_bisync.Prelude.Lists.{All, All-imp}
use crm_bisync.Prelude.Strings.{Bytes, str_lt}
use crm_bisync.Prelude.Sorting.{insert_by, sort_by, All-insert_by, All-sort_by}

str_lt_trans : (a b c : Bytes) → str_lt a b ≡ true → str_lt b c ≡ true → str_lt a c ≡ true
unfolding str_lt
str_lt_trans a [] c h k = cc
str_lt_trans a (y ∷ b) [] h k = cc
str_lt_trans [] (y ∷ b) (z ∷ c) h k = refl
str_lt_trans (x ∷ a) (y ∷ b) (z ∷ c) h k = ground (arith, str_lt_trans a b c)

str_lt_total : (a b : Bytes) → str_lt a b ≡ false → str_lt b a ≡ false → a ≡ b
unfolding str_lt
str_lt_total [] [] h k = refl
str_lt_total [] (y ∷ b) h k = cc
str_lt_total (x ∷ a) [] h k = cc
str_lt_total (x ∷ a) (y ∷ b) h k = ground (arith, str_lt_total a b)

pub All-both :
    {A : Type 0} (P Q R : A → Type 0) (xs : List A)
    → ((x : A) → P x → Q x → R x)
    → All P xs
    → All Q xs
    → All R xs
All-both P Q R [] f h k = tt
All-both P Q R (x ∷ xs) f (p, h) (q, k) = (f x p q, All-both P Q R xs f h k)

module _ {A : Type 0} (key : A → Bytes) where
  abbrev pub by_key : A → A → Bool
  by_key x y = str_lt (key x) (key y)

  -- Each key is below every later one.
  abbrev pub Ascending : List A → Type 0
  Ascending [] = Unit
  Ascending (x ∷ xs) = All (λ y. str_lt (key x) (key y) ≡ true) xs × Ascending xs

  abbrev pub Distinct : List A → Type 0
  Distinct [] = Unit
  Distinct (x ∷ xs) = All (λ y. key x ≢ key y) xs × Distinct xs

  insert_by-Ascending :
      (x : A) (xs : List A)
      → All (λ y. key x ≢ key y) xs
      → Ascending xs
      → Ascending (insert_by by_key x xs)
  unfolding insert_by
  insert_by-Ascending x [] d h = (tt, tt)
  insert_by-Ascending x (y ∷ ys) (n, d) (above, h) = elim (Bool-cases (by_key y x)) [
    | inl e ↦ rw e (
      All-insert_by (λ z. str_lt (key y) (key z) ≡ true) by_key x ys e above,
      insert_by-Ascending x ys d h,
    )
    | inr e ↦
        let below : str_lt (key x) (key y) ≡ true = elim (Bool-cases (by_key x y)) [
          | inl t ↦ t
          | inr f ↦ absurd (n (str_lt_total (key x) (key y) f e))
        ] in
        rw e (
          (below, All-imp (λ z t. str_lt_trans (key x) (key y) (key z) below t) ys above),
          (above, h),
        )
  ]

  pub sort_by-Ascending : (xs : List A) → Distinct xs → Ascending (sort_by by_key xs)
  unfolding sort_by
  sort_by-Ascending [] d = tt
  sort_by-Ascending (x ∷ xs) (n, d) =
      insert_by-Ascending x (sort_by by_key xs) (All-sort_by (λ y. key x ≢ key y) by_key xs n)
        (sort_by-Ascending xs d)
