-- ===== src/Model/Digest.antt =====
-- internal/model/record.go: equal digests.
use crm_bisync.Prelude.{
  ℕ, ◌/◌, ◌%◌, ◌≡◌, ◌≢◌, refl, ap, ◌⊎◌, inl, inr, List, [], ◌∷◌, Bytes, arith, All, str_eq,
  str_eq_iff, Bool-cases,
}
use crm_bisync.Prelude.Decimal.{frames, frames_injective}
use crm_bisync.Prelude.Strings.{str_lt}
use crm_bisync.Prelude.Sorting.{sort_by, All-sort_by, All-of_sort_by}
use crm_bisync.Prelude.Dict.{Dict, lookup}
use crm_bisync.Model.{Value, Formats, hex, hex_digit, rendered, chunks, snapshot_hash}

hex_digit_injective : (m n : ℕ) → hex_digit m ≡ hex_digit n → m ≡ n
unfolding hex_digit
hex_digit_injective m n e = ground arith

pub hex_injective : (s t : Bytes) → hex s ≡ hex t → s ≡ t
unfolding hex
hex_injective [] [] e = refl
hex_injective [] (b ∷ t) e = cc
hex_injective (a ∷ s) [] e = cc
hex_injective (a ∷ s) (b ∷ t) e =
    let high : a / 16 ≡ b / 16 = hex_digit_injective _ _ (cc) in
    let low : a % 16 ≡ b % 16 = hex_digit_injective _ _ (cc) in
    let whole : a ≡ b = omega arith in cc (whole, hex_injective s t (cc))

module _ (F : Formats) where
  -- Two different inputs with one hash.
  abbrev pub Collide : Bytes → Bytes → Type 0
  Collide a b = (a ≢ b) × (F.sha256 a ≡ F.sha256 b)

  pub sha256_cases : (a b : Bytes) → hex (F.sha256 a) ≡ hex (F.sha256 b) → (a ≡ b) ⊎ Collide a b
  sha256_cases a b e = elim (Bool-cases (str_eq a b)) [
    | inl h ↦ inl ((str_eq_iff a b).0 h)
    | inr h ↦ inr (λ p. cc (h, (str_eq_iff a b).1 p), hex_injective _ _ e)
  ]

  -- The two records show the same in every named field.
  abbrev pub SameFields : Dict Value → Dict Value → List Bytes → Type 0
  SameFields f g = All (λ name. rendered F (lookup name f) ≡ rendered F (lookup name g))

  chunks_injective :
      (f g : Dict Value) (names : List Bytes)
      → chunks F f names ≡ chunks F g names
      → SameFields f g names
  unfolding chunks
  chunks_injective f g [] e = tt
  chunks_injective f g (name ∷ names) e = (cc, chunks_injective f g names (cc))

  chunks_same :
      (f g : Dict Value) (names : List Bytes)
      → SameFields f g names
      → chunks F f names ≡ chunks F g names
  unfolding chunks
  chunks_same f g [] h = refl
  chunks_same f g (name ∷ names) (e, h) = cc (e, chunks_same f g names h)

  -- Records that show the same in every named field have one digest, whatever their other
  -- fields.
  pub snapshot_hash_same :
      (f g : Dict Value) (names : List Bytes)
      → SameFields f g names
      → snapshot_hash F f names ≡ snapshot_hash F g names
  unfolding snapshot_hash
  snapshot_hash_same f g names h =
      ap (λ cs. hex (F.sha256 (frames cs)))
        (chunks_same f g (sort_by str_lt names) (All-sort_by _ str_lt names h))

  -- Records with one digest show the same in every named field, or exhibit a collision of
  -- SHA-256.
  pub snapshot_hash_differs :
      (f g : Dict Value) (names : List Bytes)
      → snapshot_hash F f names ≡ snapshot_hash F g names
      → SameFields f g names
        ⊎ Collide
            (frames (chunks F f (sort_by str_lt names)))
            (frames (chunks F g (sort_by str_lt names)))
  unfolding snapshot_hash
  snapshot_hash_differs f g names e = elim (sha256_cases _ _ e) [
    | inl same ↦
        inl (All-of_sort_by _ str_lt names (chunks_injective f g _ (frames_injective _ _ same)))
    | inr clash ↦ inr clash
  ]
