-- ===== src/Watermark.antt =====
-- internal/watermark/watermark.go: how far a delta read has got.
pub mod Marks
pub mod Window
use crm_bisync.Prelude.{
  ℕ, zero, suc, ◌*◌, ◌-◌, Bool, true, false, ◌&&◌, ◌||◌, not, Option, none, some, List, [], ◌∷◌,
  Bytes, ltb, ◌==◌, if◌then◌else◌,
}
use crm_bisync.Prelude.Int.{ℤ, pos, negsuc, sub_ℕ}
use crm_bisync.Prelude.Dict.{Dict, lookup}
use crm_bisync.Prelude.Result.{Exec, pure, ◌>>=◌, ◌>>◌}
use crm_bisync.Store.Defs.{Store, StoreErr}
use crm_bisync.Store.Typed.{Document, ◌⊹◌, watermark, set_watermark, coll_watermarks}

abbrev pub minute : ℕ
minute = 60 * 1000000000

abbrev pub default_overlap : ℕ
default_overlap = 2 * minute

abbrev pub coarse_overlap : ℕ
coarse_overlap = 5 * minute

-- A `time.Duration` is a signed number of nanoseconds.
pub record PeerConfig : Type 0 where
  pub overlap : ℤ
  pub exact_timestamps : Bool

-- A connector that is not in the map reads as the zero `PeerConfig`.
abbrev pub or_zero : Option PeerConfig → PeerConfig
or_zero none = record { overlap = pos 0; exact_timestamps = false }
or_zero (some c) = c

-- `if overlap <= 0 { overlap = DefaultOverlap }`
abbrev pub or_default : ℤ → ℕ
or_default (pos zero) = default_overlap
or_default (pos (suc n)) = suc n
or_default (negsuc _) = default_overlap

unfoldable pub overlap : Dict PeerConfig → Bytes → ℕ
overlap peers connector =
    let cfg = or_zero (lookup connector peers) in
    let chosen = or_default cfg.overlap in
    if not cfg.exact_timestamps && ltb chosen coarse_overlap then coarse_overlap else chosen

-- `Highest`: zero times are ignored.
unfoldable pub highest_from : ℕ → List ℕ → ℕ
highest_from out [] = out
highest_from out (t ∷ ts) =
    highest_from (if t == 0 then out else if out == 0 || ltb out t then t else out) ts

unfoldable pub highest : List ℕ → ℕ
unfolding highest_from
highest ts = highest_from 0 ts

-- `mark.Add(-d)` may lie before Go's zero time, so it is a signed instant.
abbrev pub back_from : ℕ → Option ℕ → Option ℤ
back_from d none = none
back_from d (some mark) = some (sub_ℕ mark d)

-- `now.Sub(mark)`
abbrev pub behind : ℕ → Option ℕ → Option ℤ
behind now none = none
behind now (some mark) = some (sub_ℕ now mark)

module _ (S : Store Document) (peers : Dict PeerConfig) where
  unfoldable pub since : ℕ → Bytes → Bytes → Exec S.State StoreErr (Option ℤ)
  unfolding overlap
  since now connector kind = do
    found ← watermark S now connector kind
    pure (back_from (overlap peers connector) found)

module _ (S : Store Document) where
  unfoldable pub mark : ℕ → Bytes → Bytes → Exec S.State StoreErr (Option ℕ)
  mark now connector kind = watermark S now connector kind

  -- What `Advance` does with the mark that it read.
  pub advance_from : Bytes → Bytes → ℕ → Option ℕ → Exec S.State StoreErr (Unit {0})
  advance_from connector kind capped none = set_watermark S connector kind capped
  advance_from connector kind capped (some current) =
      if ltb current capped then set_watermark S connector kind capped else pure tt

  unfoldable pub advance : ℕ → Bytes → Bytes → ℕ → Exec S.State StoreErr (Unit {0})
  unfolding advance_from
  advance now connector kind highest =
      let capped = if ltb now highest then now else highest in
      if highest == 0
      then pure tt
      else (do current ← watermark S now connector kind; advance_from connector kind capped current)

  unfoldable pub lag : ℕ → Bytes → Bytes → Exec S.State StoreErr (Option ℤ)
  lag now connector kind = do found ← watermark S now connector kind; pure (behind now found)

  unfoldable pub reset : Bytes → Bytes → Exec S.State StoreErr (Unit {0})
  reset connector kind = S.delete coll_watermarks (connector ⊹ kind)
