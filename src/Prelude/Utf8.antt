-- ===== src/Prelude/Utf8.antt =====
-- Valid UTF-8: the strings that encoding/json writes and reads back unchanged.
use Prim.Native.Nat.{ℕ, zero, suc}
use mathlib.Core.Bool.{Bool, false, ◌&&◌}
use mathlib.Core.Option.{Option, none, some}
use mathlib.Core.List.{[], ◌∷◌}
use crm_bisync.Prelude.Tests.{ltb, leb, ◌==◌, if◌then◌else◌}
use crm_bisync.Prelude.Strings.{Bytes}

abbrev between : ℕ → ℕ → ℕ → Bool
between lo hi b = leb lo b && leb b hi

-- How many bytes follow a first byte, and the bounds of the next of them
abbrev lead : ℕ → Option (ℕ × ℕ × ℕ)
lead b =
    if ltb b 128
    then some (0, 128, 191)
    else if between 194 223 b
    then some (1, 128, 191)
    else if b == 224
    then some (2, 160, 191)
    else if b == 237
    then some (2, 128, 159)
    else if between 225 239 b
    then some (2, 128, 191)
    else if b == 240
    then some (3, 144, 191)
    else if between 241 243 b
    then some (3, 128, 191)
    else if b == 244
    then some (3, 128, 143)
    else none

unfoldable pub utf8_from : ℕ → ℕ → ℕ → Bytes → Bool
utf8_from n lo hi [] = n == 0
utf8_from zero lo hi (b ∷ s) = elim (lead b) [ none ↦ false | some (n, l, h) ↦ utf8_from n l h s ]
utf8_from (suc n) lo hi (b ∷ s) = let rest = utf8_from n 128 191 s in between lo hi b && rest

unfoldable pub is_utf8 : Bytes → Bool
unfolding utf8_from
is_utf8 s = utf8_from 0 128 191 s
