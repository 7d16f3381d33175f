-- ===== src/Mapping/Directions.antt =====
-- internal/mapping/mapping.go: sides, directions, and how they combine. A direction is its text in
-- the configuration, and its bits are those of the table `directionBits`.
use Prim.Native.Nat.{bit_and}
use crm_bisync.Prelude.{
  ℕ, Bool, not, Option, none, some, List, [], ◌∷◌, Bytes, codes, str_eq, is_empty, is_some, ◌==◌,
  if◌then◌else◌,
}

pub data Side : Type 0 where
  left right : Side

unfoldable pub side_name : Side → Bytes
side_name left = codes "left"
side_name right = codes "right"

unfoldable pub other_side : Side → Side
other_side left = right
other_side right = left

abbrev pub left_to_right : Bytes
left_to_right = codes "left_to_right"

abbrev pub right_to_left : Bytes
right_to_left = codes "right_to_left"

abbrev pub bidirectional : Bytes
bidirectional = codes "bidirectional"

unfoldable pub direction_bits : Bytes → Option ℕ
direction_bits d =
    if str_eq d left_to_right
    then some 1
    else if str_eq d right_to_left
    then some 2
    else if str_eq d bidirectional
    then some 3
    else none

abbrev pub directions : List Bytes
directions = left_to_right ∷ right_to_left ∷ bidirectional ∷ []

-- `IsValidDirection`
unfoldable pub is_direction : Bytes → Bool
unfolding direction_bits
is_direction d = is_some (direction_bits d)

-- The switch of `Narrow`
unfoldable pub direction_of_bits : ℕ → Option Bytes
direction_of_bits b =
    if b == 1
    then some left_to_right
    else if b == 2
    then some right_to_left
    else if b == 3
    then some bidirectional
    else none

unfoldable pub narrow_bits : ℕ → Option ℕ → Option Bytes
unfolding direction_of_bits
narrow_bits base none = none
narrow_bits base (some over) = direction_of_bits (bit_and base over)

unfoldable pub narrow_from : Bytes → Bytes → Option ℕ → Option Bytes
unfolding narrow_bits direction_bits
narrow_from sync field none = none
narrow_from sync field (some base) =
    if is_empty field then some sync else narrow_bits base (direction_bits field)

-- `Narrow`
unfoldable pub narrow : Bytes → Bytes → Option Bytes
unfolding narrow_from direction_bits
narrow sync field = narrow_from sync field (direction_bits sync)

abbrev pub or_no_bits : Option ℕ → ℕ
or_no_bits none = 0
or_no_bits (some b) = b

abbrev pub bit_into : Side → ℕ
bit_into left = 2
bit_into right = 1

-- `WritesTo`
unfoldable pub writes_to : Bytes → Side → Bool
unfolding direction_bits
writes_to d side = not (bit_and (or_no_bits (direction_bits d)) (bit_into side) == 0)
