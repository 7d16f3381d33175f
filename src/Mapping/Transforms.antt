-- ===== src/Mapping/Transforms.antt =====
-- internal/mapping/transform.go: the transforms on text. What package strings does to the letters
-- and the blanks of Unicode is taken as the parameter `Letters`; the rest works on bytes.
use crm_bisync.Prelude.{
  ℕ, Bool, not, ◌||◌, Option, none, some, List, [], ◌∷◌, ◌++◌, Bytes, codes, str_eq, ◌==◌,
  if◌then◌else◌,
}
use crm_bisync.Prelude.Sorting.{any_b}
use crm_bisync.Prelude.Result.{Result, ok, err}
use crm_bisync.Model.{Value, text}

-- `strings.TrimSpace` and `strings.ToLower`
pub record Letters : Type 0 where
  pub trim_space : Bytes → Bytes
  pub to_lower : Bytes → Bytes

abbrev pub known : List Bytes
known =
    []
    ∷ codes "email_normalize"
    ∷ codes "email_fold_plus"
    ∷ codes "domain_normalize"
    ∷ codes "trim"
    ∷ codes "lowercase"
    ∷ []

-- `IsKnown`
unfoldable pub is_known : Bytes → Bool
is_known name = any_b (λ k. str_eq k name) known

-- `s[:i]` at the first byte that the test finds, as after `strings.IndexAny` and `strings.Index`
-- of one byte; all of `s` if it finds none
unfoldable pub before_first : (ℕ → Bool) → Bytes → Bytes
before_first p [] = []
before_first p (c ∷ s) = if p c then [] else c ∷ before_first p s

-- `s[:i]` and `s[i+1:]` at `strings.LastIndex` of one byte
unfoldable pub last_or_here : ℕ → ℕ → Bytes → Option (Bytes × Bytes) → Option (Bytes × Bytes)
last_or_here sep c s (some (l, d)) = some (c ∷ l, d)
last_or_here sep c s none = if c == sep then some ([], s) else none

unfoldable pub split_last : ℕ → Bytes → Option (Bytes × Bytes)
unfolding last_or_here
split_last sep [] = none
split_last sep (c ∷ s) = last_or_here sep c s (split_last sep s)

abbrev pub after : Bytes → Option (Bytes × Bytes) → Bytes
after s none = s
after s (some (_, d)) = d

-- `strings.HasPrefix`, with what follows the prefix
unfoldable pub strip_prefix : Bytes → Bytes → Option Bytes
strip_prefix [] s = some s
strip_prefix (p ∷ ps) [] = none
strip_prefix (p ∷ ps) (c ∷ s) = if p == c then strip_prefix ps s else none

-- `if i := strings.Index(s, "://"); i >= 0 { s = s[i+3:] }`
unfoldable pub after_scheme_or : Bytes → Bytes → Bytes
unfolding strip_prefix
after_scheme_or whole [] = whole
after_scheme_or whole (c ∷ s) = elim (strip_prefix (codes "://") (c ∷ s)) [
  | some rest ↦ rest
  | none ↦ after_scheme_or whole s
]

-- `strings.TrimSuffix(s, ".")`
unfoldable pub trim_dot : Bytes → Bytes
trim_dot [] = []
trim_dot (c ∷ []) = if c == b'.' then [] else c ∷ []
trim_dot (c ∷ d ∷ s) = c ∷ trim_dot (d ∷ s)

-- `strings.TrimPrefix(s, "www.")`
abbrev pub or_whole : Bytes → Option Bytes → Bytes
or_whole s none = s
or_whole s (some rest) = rest

unfoldable pub trim_www : Bytes → Bytes
unfolding strip_prefix
trim_www s = or_whole s (strip_prefix (codes "www.") s)

abbrev pub ends_host : ℕ → Bool
ends_host c = c == b'/' || c == b'?' || c == b'#'

abbrev pub is_colon : ℕ → Bool
is_colon c = c == b':'

-- `FoldPlusAddress`, at the place of the last at sign
unfoldable pub fold_at : Bytes → Option (Bytes × Bytes) → Bytes
unfolding before_first
fold_at s none = s
fold_at s (some (local, domain)) = before_first (λ c. c == b'+') local ++ b'@' ∷ domain

unfoldable pub fold_plus_address : Bytes → Bytes
unfolding fold_at split_last
fold_plus_address s = fold_at s (split_last b'@' s)

module _ (L : Letters) where
  unfoldable pub host_of : Bytes → Bytes
  unfolding before_first split_last after_scheme_or
  host_of s =
      let r = before_first ends_host (after_scheme_or s s) in
      before_first is_colon (after r (split_last b'@' r))

  unfoldable pub normalize_domain : Bytes → Bytes
  unfolding host_of trim_dot trim_www
  normalize_domain s = trim_www (trim_dot (host_of (L.trim_space (L.to_lower s))))

  unfoldable pub normalize_at : Bytes → Option (Bytes × Bytes) → Bytes
  unfolding normalize_domain
  normalize_at s none = L.to_lower s
  normalize_at s (some (local, domain)) = L.to_lower local ++ b'@' ∷ normalize_domain domain

  unfoldable pub normalize_email : Bytes → Bytes
  unfolding normalize_at split_last
  normalize_email s = normalize_at (L.trim_space s) (split_last b'@' (L.trim_space s))

  -- The switch of `Apply`; none is its default.
  unfoldable pub transform : Bytes → Bytes → Option Bytes
  unfolding normalize_email normalize_domain fold_plus_address
  transform name s =
      if str_eq name (codes "trim")
      then some (L.trim_space s)
      else if str_eq name (codes "lowercase")
      then some (L.to_lower (L.trim_space s))
      else if str_eq name (codes "email_normalize")
      then some (normalize_email s)
      else if str_eq name (codes "email_fold_plus")
      then some (fold_plus_address (normalize_email s))
      else if str_eq name (codes "domain_normalize")
      then some (normalize_domain s)
      else none

  abbrev pub text_or_unknown : Bytes → Option Bytes → Result Bytes Value
  text_or_unknown name none = err name
  text_or_unknown name (some s) = ok (text s)

  unfoldable pub apply_known : Bytes → Value → Result Bytes Value
  unfolding transform
  apply_known name (text s) = text_or_unknown name (transform name s)
  apply_known name v = ok v

  -- `Apply`; its error is of the transform that it does not know.
  unfoldable pub apply : Bytes → Value → Result Bytes Value
  unfolding apply_known is_known
  apply name v =
      if str_eq name [] then ok v else if not (is_known name) then err name else apply_known name v
