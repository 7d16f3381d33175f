-- ===== src/Watermark/Window.antt =====
-- internal/watermark/watermark.go: the overlap window, and the highest instant of a page.
use crm_bisync.Prelude.{
  ℕ, ◌≤◌, ◌<◌, ◌≡◌, refl, List, [], ◌∷◌, Bytes, max, arith, All, if◌then◌else◌, ltb, ◌==◌, ◌||◌,
  ◌⊎◌, inl, inr, Any,
}
use native.Mathlib.Decide.{dec_le}
use mathlib.Core.Path.{subst}
use crm_bisync.Prelude.Int.{pos_part}
use crm_bisync.Prelude.Dict.{Dict, lookup}
use crm_bisync.Watermark.{
  PeerConfig, or_zero, or_default, overlap, coarse_overlap, highest, highest_from,
}

-- The overlap window is never empty and at least what was configured; for a peer with exact
-- timestamps it is just that or the default, and for any other at least the coarse floor.
pub overlap_bounds :
    (peers : Dict PeerConfig) (connector : Bytes)
    → let cfg = or_zero (lookup connector peers) in
      (0 < overlap peers connector)
      × (pos_part cfg.overlap ≤ overlap peers connector)
      × (if cfg.exact_timestamps
          then overlap peers connector ≡ or_default cfg.overlap
          else coarse_overlap ≤ overlap peers connector)
unfolding overlap
overlap_bounds peers connector = (ground arith, ground arith, ground arith)

-- `Highest` as a maximum: zero times are the least.
abbrev pub maximum : List ℕ → ℕ
maximum [] = 0
maximum (t ∷ ts) = max t (maximum ts)

highest_from-max : (out : ℕ) (ts : List ℕ) → highest_from out ts ≡ max out (maximum ts)
unfolding highest_from
highest_from-max out [] = omega arith
highest_from-max out (t ∷ ts) =
    ground (
      arith,
      highest_from-max (if t == 0 then out else if out == 0 || ltb out t then t else out) ts,
    )

All-of_maximum : (n : ℕ) (ts : List ℕ) → maximum ts ≤ n → All (λ t. t ≤ n) ts
All-of_maximum n [] h = tt
All-of_maximum n (t ∷ ts) h = (omega arith, All-of_maximum n ts (omega arith))

maximum_occurs : (ts : List ℕ) → (maximum ts ≡ 0) ⊎ Any (λ t. t ≡ maximum ts) ts
maximum_occurs [] = inl refl
maximum_occurs (t ∷ ts) = elim (dec_le (maximum ts) t) [
  | yes h ↦ inr (inl (omega arith))
  | no h ↦
      let same : maximum ts ≡ max t (maximum ts) = omega arith in
      elim (maximum_occurs ts) [
        | inl z ↦ inl (omega arith)
        | inr a ↦ inr (inr (subst (λ m. Any (λ x. x ≡ m) ts) same a))
      ]
]

-- No time of the page is later than Highest, which is one of them or the zero time.
pub highest_bounds :
    (ts : List ℕ) → All (λ t. t ≤ highest ts) ts × ((highest ts ≡ 0) ⊎ Any (λ t. t ≡ highest ts) ts)
unfolding highest
highest_bounds ts =
    let same : highest_from 0 ts ≡ maximum ts = omega (arith, highest_from-max 0 ts) in
    rw same (All-of_maximum (maximum ts) ts (omega arith), maximum_occurs ts)
