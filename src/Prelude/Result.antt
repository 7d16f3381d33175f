-- ===== src/Prelude/Result.antt =====
-- Go's `(T, error)` results: a value or an error, and the methods of an object that may fail.
use mathlib.Core.Path.{◌≡◌, refl}

pub data Result (E A : Type 0) : Type 0 where
  ok : A → Result E A
  err : E → Result E A

-- A method reads and writes the object's state, and what it wrote stays written when it fails.
abbrev pub Exec : Type 0 → Type 0 → Type 0 → Type 0
Exec S E A = S → Result E A × S

module _ {S E A : Type 0} where
  abbrev pub pure : A → Exec S E A
  pure a s = (ok a, s)

  abbrev pub fail : E → Exec S E A
  fail e s = (err e, s)

module _ {S E A B : Type 0} where
  abbrev pub continue : (A → Exec S E B) → Result E A × S → Result E B × S
  continue f (ok a, s) = f a s
  continue f (err e, s) = (err e, s)

  continue_ok :
      (f : A → Exec S E B) (p : Result E A × S) (a : A) → p.0 ≡ ok a → continue f p ≡ f a p.1
  continue_ok f (ok x, s) a h = let e : x ≡ a = cc in rw e
  continue_ok f (err e, s) a h = cc

  continue_err :
      (f : A → Exec S E B) (p : Result E A × S) (e : E) → p.0 ≡ err e → continue f p ≡ (err e, p.1)
  continue_err f (ok x, s) e h = cc
  continue_err f (err x, s) e h = let p : x ≡ e = cc in rw p

  infixl 10 ◌>>=◌ ◌>>◌
  abbrev pub ◌>>=◌ : Exec S E A → (A → Exec S E B) → Exec S E B
  ◌>>=◌ m f s = continue f (m s)

  abbrev pub ◌>>◌ : Exec S E A → Exec S E B → Exec S E B
  m >> n = m >>= λ _. n

  -- A step that returns goes on from the state that it leaves, and one that fails stops there.
  pub bind_ok :
      (m : Exec S E A) (f : A → Exec S E B) (s : S) (a : A)
      → (m s).0 ≡ ok a
      → (m >>= f) s ≡ f a (m s).1
  bind_ok m f s a h = continue_ok f (m s) a h

  pub bind_err :
      (m : Exec S E A) (f : A → Exec S E B) (s : S) (e : E)
      → (m s).0 ≡ err e
      → (m >>= f) s ≡ (err e, (m s).1)
  bind_err m f s e h = continue_err f (m s) e h

pub with_result : {R S : Type 0} (p : R × S) {r : R} → p.0 ≡ r → p ≡ (r, p.1)
with_result (q, s) h = rw h

abbrev pub map_result : {E A B : Type 0} → (A → B) → Result E A → Result E B
map_result g (ok a) = ok (g a)
map_result g (err e) = err e

-- A read whose result is only transformed.
pub bind_pure :
    {S E A B : Type 0} (g : A → B) (m : Exec S E A) (s : S) {r : Result E A}
    → m s ≡ (r, s)
    → (m >>= λ a. pure (g a)) s ≡ (map_result g r, s)
bind_pure {S} {E} {A} {B} g m s {r} h = rw h (go r)
  where
    go : (r : Result E A) → continue {B = B} (λ a. pure (g a)) (r, s) ≡ (map_result g r, s)
    go (ok a) = refl
    go (err e) = refl
