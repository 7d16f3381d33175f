-- ===== src/Prelude/Decimal.antt =====
-- `strconv.Itoa` on the numbers, and length-prefixed framing: what `writeChunk` of
-- internal/model/record.go and the loop of `Key` in internal/idem/idem.go feed to the hash.
use Prim.Native.Nat.{ℕ, zero, suc, ◌+◌, ◌-◌, ◌*◌, ◌/◌, ◌%◌, ◌<◌}
use mathlib.Core.Path.{◌≡◌, refl, ap, ◌∙◌, sym}
use mathlib.Core.Logic.{◌≢◌, inl, inr}
use mathlib.Core.Bool.{true, false}
use mathlib.Core.List.{List, [], ◌∷◌, ◌++◌, append_assoc}
use native.Mathlib.Omega.{arith}
use crm_bisync.Prelude.Lists.{length}
use crm_bisync.Prelude.Tests.{ltb, Bool-cases}
use crm_bisync.Prelude.Strings.{Bytes, Without, cut_at_separator, cut_at_length}

-- The fuel is the number of digits at most.
itoa_fuel : ℕ → ℕ → Bytes
itoa_fuel zero n = []
itoa_fuel (suc fuel) n = elim (ltb n 10) [
  | true ↦ (b'0' + n) ∷ []
  | false ↦ itoa_fuel fuel (n / 10) ++ (b'0' + n % 10) ∷ []
]

unfoldable pub itoa : ℕ → Bytes
unfolding itoa_fuel
itoa n = itoa_fuel (suc n) n

-- The number that a run of digits continues `acc` to.
value : ℕ → Bytes → ℕ
value acc [] = acc
value acc (d ∷ s) = value (acc * 10 + (d - b'0')) s

value-snoc : (acc d : ℕ) (s : Bytes) → value acc (s ++ d ∷ []) ≡ value acc s * 10 + (d - b'0')
unfolding value
value-snoc acc d [] = refl
value-snoc acc d (c ∷ s) = value-snoc (acc * 10 + (c - b'0')) d s

value-itoa_fuel : (fuel n : ℕ) → n < fuel → value 0 (itoa_fuel fuel n) ≡ n
unfolding itoa_fuel
value-itoa_fuel zero n h = absurd (omega arith)
value-itoa_fuel (suc fuel) n h = elim (Bool-cases (ltb n 10)) [
  | inl small ↦ rw (small, itoa_fuel) (unfold value in omega arith)
  | inr big ↦
      rw (big, itoa_fuel)
        (rw (value-snoc 0 (b'0' + n % 10))
          (rw (value-itoa_fuel fuel (n / 10) (ground arith)) (omega arith)))
]

value-itoa : (n : ℕ) → value 0 (itoa n) ≡ n
unfolding itoa
value-itoa n = value-itoa_fuel (suc n) n (omega arith)

Without-snoc : (sep d : ℕ) (s : Bytes) → Without sep s → d ≢ sep → Without sep (s ++ d ∷ [])
Without-snoc sep d [] p q = (q, tt)
Without-snoc sep d (c ∷ s) (r, p) q = (r, Without-snoc sep d s p q)

itoa_fuel-Without : (fuel n : ℕ) → Without b':' (itoa_fuel fuel n)
unfolding itoa_fuel
itoa_fuel-Without zero n = tt
itoa_fuel-Without (suc fuel) n = elim (Bool-cases (ltb n 10)) [
  | inl small ↦ rw (small, itoa_fuel) (ground arith, tt)
  | inr big ↦
      rw (big, itoa_fuel)
        (Without-snoc b':' (b'0' + n % 10) (itoa_fuel fuel (n / 10))
          (itoa_fuel-Without fuel (n / 10)) (omega arith))
]

itoa-Without : (n : ℕ) → Without b':' (itoa n)
unfolding itoa
itoa-Without n = itoa_fuel-Without (suc n) n

-- `strconv.Itoa(len(part))`, `":"`, `part`
unfoldable pub chunk : Bytes → Bytes
chunk part = itoa (length part) ++ b':' ∷ part

-- What the hash is fed for a sequence of parts.
unfoldable pub frames : List Bytes → Bytes
frames [] = []
frames (part ∷ parts) = chunk part ++ frames parts

itoa_injective : (m n : ℕ) → itoa m ≡ itoa n → m ≡ n
itoa_injective m n e = sym (value-itoa m) ∙ ap (value 0) e ∙ value-itoa n

chunk_injective : (s t s' t' : Bytes) → chunk s ++ t ≡ chunk s' ++ t' → (s ≡ s') × (t ≡ t')
unfolding chunk
chunk_injective s t s' t' e =
    let cut =
      cut_at_separator b':' (itoa (length s)) (s ++ t) (itoa (length s')) (s' ++ t')
        (itoa-Without (length s)) (itoa-Without (length s'))
        (sym (append_assoc (itoa (length s)) (b':' ∷ s) t)
          ∙ e
          ∙ append_assoc (itoa (length s')) (b':' ∷ s') t') in
    cut_at_length s t s' t' (itoa_injective (length s) (length s') cut.0) cut.1

filled_ne_nil : (xs s t : Bytes) (b : ℕ) → (xs ++ b ∷ s) ++ t ≢ []
filled_ne_nil [] s t b e = cc
filled_ne_nil (x ∷ xs) s t b e = cc

chunk_ne_nil : (s t : Bytes) → chunk s ++ t ≢ []
unfolding chunk
chunk_ne_nil s t e = filled_ne_nil (itoa (length s)) s t b':' e

-- Length-prefixed parts can be told apart, however many there are.
pub frames_injective : (ps qs : List Bytes) → frames ps ≡ frames qs → ps ≡ qs
unfolding frames
frames_injective [] [] e = refl
frames_injective [] (q ∷ qs) e = absurd (chunk_ne_nil q (frames qs) (sym e))
frames_injective (p ∷ ps) [] e = absurd (chunk_ne_nil p (frames ps) e)
frames_injective (p ∷ ps) (q ∷ qs) e =
    let h = chunk_injective p (frames ps) q (frames qs) e in cc (h.0, frames_injective ps qs h.1)
