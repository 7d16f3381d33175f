-- ===== src/Mapping/Narrowing.antt =====
-- internal/mapping/mapping.go: what a combined direction writes.
use crm_bisync.Prelude.Strings.{str_eq}
use crm_bisync.Prelude.{
  ℕ, ◌≡◌, refl, ap, is_some, Bool-cases, inl, inr, Bool, true, false, ◌&&◌, ◌||◌, Option, none,
  some, Bytes, str_eq_iff, is_empty, arith,
}
use crm_bisync.Mapping.Directions.{
  Side, left, right, left_to_right, right_to_left, bidirectional, narrow, narrow_from, writes_to,
  is_direction, direction_bits,
}

-- Whether a field's own direction, or none, lets it into a side
abbrev pub allows : Bytes → Side → Bool
allows field side = is_empty field || writes_to field side

abbrev pub Narrows : Bytes → Bytes → Option Bytes → Type 0
Narrows sync field (some d) =
    (is_direction d ≡ true)
    × ((side : Side) → writes_to d side ≡ (writes_to sync side && allows field side))
Narrows sync field none =
    (side : Side) → (is_direction sync && (writes_to sync side && allows field side)) ≡ false

-- A text is no direction, or one of the three.
data Direction (d : Bytes) : Type 0 where
  unheard : direction_bits d ≡ none → Direction d
  to_right : d ≡ left_to_right → Direction d
  to_left : d ≡ right_to_left → Direction d
  both : d ≡ bidirectional → Direction d

Direction-cases : (d : Bytes) → Direction d
unfolding direction_bits
Direction-cases d = elim (Bool-cases (str_eq d left_to_right)) [
  | inl e ↦ to_right ((str_eq_iff d left_to_right).0 e)
  | inr e ↦ elim (Bool-cases (str_eq d right_to_left)) [
    | inl f ↦ to_left ((str_eq_iff d right_to_left).0 f)
    | inr f ↦ elim (Bool-cases (str_eq d bidirectional)) [
      | inl g ↦ both ((str_eq_iff d bidirectional).0 g)
      | inr g ↦ unheard (rw (e, f, g) refl)
    ]
  ]
]

each_side : (P : Side → Type 0) → P left → P right → (side : Side) → P side
each_side P p q left = p
each_side P p q right = q

-- A field's own text that is no direction narrows only if it is empty.
narrow_unheard :
    (sync field : Bytes) (bits : ℕ)
    → direction_bits sync ≡ some bits
    → direction_bits field ≡ none
    → Narrows sync field (narrow_from sync field (some bits))
unfolding narrow_from writes_to is_direction
narrow_unheard sync field bits e g = elim (Bool-cases (is_empty field)) [
  | inl b ↦ rw (b, e) (refl, λ side. ground arith)
  | inr b ↦ rw (b, g) (λ side. ground arith)
]

no_direction :
    (sync field : Bytes) → direction_bits sync ≡ none → Narrows sync field (narrow sync field)
unfolding narrow is_direction
no_direction sync field e =
    rw e (λ side. ap (λ o. is_some o && (writes_to sync side && allows field side)) e)

narrow_known :
    (sync field : Bytes) → Direction sync → Direction field → Narrows sync field (narrow sync field)
unfolding narrow writes_to is_direction direction_bits str_eq
narrow_known sync field (unheard e) _ = no_direction sync field e
narrow_known sync field (to_right e) (unheard g) =
    rw e (narrow_unheard left_to_right field 1 refl g)
narrow_known sync field (to_left e) (unheard g) = rw e (narrow_unheard right_to_left field 2 refl g)
narrow_known sync field (both e) (unheard g) = rw e (narrow_unheard bidirectional field 3 refl g)
narrow_known sync field (to_right e) (to_right g) = rw (e, g) (refl, each_side _ refl refl)
narrow_known sync field (to_right e) (to_left g) = rw (e, g) (each_side _ refl refl)
narrow_known sync field (to_right e) (both g) = rw (e, g) (refl, each_side _ refl refl)
narrow_known sync field (to_left e) (to_right g) = rw (e, g) (each_side _ refl refl)
narrow_known sync field (to_left e) (to_left g) = rw (e, g) (refl, each_side _ refl refl)
narrow_known sync field (to_left e) (both g) = rw (e, g) (refl, each_side _ refl refl)
narrow_known sync field (both e) (to_right g) = rw (e, g) (refl, each_side _ refl refl)
narrow_known sync field (both e) (to_left g) = rw (e, g) (refl, each_side _ refl refl)
narrow_known sync field (both e) (both g) = rw (e, g) (refl, each_side _ refl refl)

-- A narrowed direction is a known one and writes to just the sides that both the sync's
-- direction and the field's let through, an empty field direction letting through both; there is
-- none only if no side is left for them to write to.
pub narrow-Narrows : (sync field : Bytes) → Narrows sync field (narrow sync field)
narrow-Narrows sync field = narrow_known sync field (Direction-cases sync) (Direction-cases field)
