-- ===== src/Prelude/Strings.antt =====
-- Go strings as lists of bytes: equality, and the order that `<` and `sort.Strings` use.
use Prim.Native.Nat.{ℕ}
use Prim.Native.Char.{code}
use Prim.Native.String.{String}
use mathlib.Core.Path.{◌≡◌, refl}
use mathlib.Core.Logic.{◌↔◌, ◌≢◌}
use mathlib.Core.Bool.{Bool, true, false, ◌&&◌}
use mathlib.Core.List.{List, [], ◌∷◌, ◌++◌}
use native.Mathlib.Omega.{arith}
use crm_bisync.Prelude.Lists.{length, All}
use crm_bisync.Prelude.Tests.{ltb, ◌==◌, if◌then◌else◌}

abbrev pub Bytes : Type 0
Bytes = List ℕ

-- The bytes of an ASCII literal.
abbrev pub codes : String → Bytes
codes String.[] = []
codes (String.◌∷◌ c s) = code c ∷ codes s

unfoldable pub str_eq : Bytes → Bytes → Bool
str_eq [] [] = true
str_eq [] (_ ∷ _) = false
str_eq (_ ∷ _) [] = false
str_eq (a ∷ s) (b ∷ t) = a == b && str_eq s t

pub str_eq_iff : (s t : Bytes) → (str_eq s t ≡ true) ↔ (s ≡ t)
unfolding str_eq
str_eq_iff [] [] = (λ _. refl, λ _. refl)
str_eq_iff [] (b ∷ t) = (λ h. cc, λ h. cc)
str_eq_iff (a ∷ s) [] = (λ h. cc, λ h. cc)
str_eq_iff (a ∷ s) (b ∷ t) = ground (arith, str_eq_iff s t)

pub str_eq_refl : (s : Bytes) → str_eq s s ≡ true
str_eq_refl s = (str_eq_iff s s).1 refl

-- Bytewise lexicographic order.
unfoldable pub str_lt : Bytes → Bytes → Bool
str_lt _ [] = false
str_lt [] (_ ∷ _) = true
str_lt (a ∷ s) (b ∷ t) = if ltb a b then true else a == b && str_lt s t

-- No byte of the string is `sep`.
abbrev pub Without : ℕ → Bytes → Type 0
Without sep = All (λ b. b ≢ sep)

pub Without-append : (sep : ℕ) (s t : Bytes) → Without sep s → Without sep t → Without sep (s ++ t)
Without-append sep [] t h q = q
Without-append sep (c ∷ s) t (n, h) q = (n, Without-append sep s t h q)

-- The first separator marks where a string ends.
pub cut_at_separator :
    (sep : ℕ) (s t s' t' : Bytes)
    → Without sep s
    → Without sep s'
    → s ++ sep ∷ t ≡ s' ++ sep ∷ t'
    → (s ≡ s') × (t ≡ t')
cut_at_separator sep [] t [] t' p p' e = (refl, cc)
cut_at_separator sep [] t (b ∷ s') t' p (q, p') e = absurd (q cc)
cut_at_separator sep (a ∷ s) t [] t' (q, p) p' e = absurd (q cc)
cut_at_separator sep (a ∷ s) t (b ∷ s') t' (_, p) (_, p') e =
    let h = cut_at_separator sep s t s' t' p p' (cc) in (cc, h.1)

-- Strings of one length end at one place.
pub cut_at_length :
    (s t s' t' : Bytes) → length s ≡ length s' → s ++ t ≡ s' ++ t' → (s ≡ s') × (t ≡ t')
cut_at_length [] t [] t' l e = (refl, e)
cut_at_length [] t (b ∷ s') t' l e = absurd (omega arith)
cut_at_length (a ∷ s) t [] t' l e = absurd (omega arith)
cut_at_length (a ∷ s) t (b ∷ s') t' l e =
    let h = cut_at_length s t s' t' (omega arith) (cc) in (cc, h.1)
