-- ===== src/Origin/Tags.antt =====
-- internal/origin/origin.go and internal/store/typed.go: the tags of one record's payloads.
use crm_bisync.Prelude.{
  ◌≡◌, ◌≢◌, refl, ap, ◌∷◌, Bytes, str_eq, str_eq_iff, arith, false, inl, inr, Bool-cases,
}
use crm_bisync.Prelude.Strings.{cut_at_length}
use crm_bisync.Store.Typed.{Ref, key, origin_tag}

pub origin_tag_injective : (r : Ref) (h g : Bytes) → origin_tag r h ≡ origin_tag r g → h ≡ g
unfolding origin_tag
origin_tag_injective r h g e =
    let rest : 0 ∷ h ≡ 0 ∷ g = (cut_at_length (key r) (0 ∷ h) (key r) (0 ∷ g) refl e).1 in cc

-- Whether two tags of one record are one.
pub str_eq-origin_tag :
    (r : Ref) (h g : Bytes) → str_eq (origin_tag r h) (origin_tag r g) ≡ str_eq h g
str_eq-origin_tag r h g = elim (Bool-cases (str_eq h g)) [
  | inl e ↦ rw e ((str_eq_iff _ _).1 (ap (origin_tag r) ((str_eq_iff h g).0 e)))
  | inr d ↦ rw d (not_equal (λ p. ground (arith, str_eq_iff h g, origin_tag_injective r h g p)))
]
  where
    not_equal : (origin_tag r h ≢ origin_tag r g) → str_eq (origin_tag r h) (origin_tag r g) ≡ false
    not_equal n = ground (arith, str_eq_iff (origin_tag r h) (origin_tag r g))
