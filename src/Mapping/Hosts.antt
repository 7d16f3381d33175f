-- ===== src/Mapping/Hosts.antt =====
-- internal/mapping/transform.go: what the transforms of domains and addresses leave.
use crm_bisync.Prelude.{
  ℕ, ◌≡◌, Bool, false, Option, none, some, [], ◌∷◌, Bytes, codes, All, arith, Bool-cases, inl, inr,
  ◌==◌, ==_iff,
}
use crm_bisync.Prelude.Strings.{Without}
use crm_bisync.Mapping.Transforms.{
  Letters, before_first, last_or_here, split_last, after, strip_prefix, or_whole, trim_dot,
  trim_www, ends_host, is_colon, after_scheme_or, host_of, normalize_domain,
}

-- No byte is one that the test finds.
abbrev pub Free : (ℕ → Bool) → Bytes → Type 0
Free p = All (λ b. p b ≡ false)

before_first-Free : (p : ℕ → Bool) (s : Bytes) → Free p (before_first p s)
unfolding before_first
before_first-Free p [] = tt
before_first-Free p (c ∷ s) = elim (Bool-cases (p c)) [
  | inl e ↦ rw e tt
  | inr e ↦ rw e (e, before_first-Free p s)
]

module _ (P : ℕ → Type 0) where
  All-before_first : (p : ℕ → Bool) (s : Bytes) → All P s → All P (before_first p s)
  unfolding before_first
  All-before_first p [] h = tt
  All-before_first p (c ∷ s) (h, hs) = elim (Bool-cases (p c)) [
    | inl e ↦ rw e tt
    | inr e ↦ rw e (h, All-before_first p s hs)
  ]

  All-last_or_here :
      (sep c : ℕ) (s : Bytes) (o : Option (Bytes × Bytes))
      → P c
      → All P s
      → All P (after s o)
      → All P (after (c ∷ s) (last_or_here sep c s o))
  unfolding last_or_here
  All-last_or_here sep c s (some (l, d)) h hs a = a
  All-last_or_here sep c s none h hs a = elim (Bool-cases (c == sep)) [
    | inl e ↦ rw e hs
    | inr e ↦ rw e (h, hs)
  ]

  All-after : (sep : ℕ) (s : Bytes) → All P s → All P (after s (split_last sep s))
  unfolding split_last
  All-after sep [] h = tt
  All-after sep (c ∷ s) (h, hs) =
      All-last_or_here sep c s (split_last sep s) h hs (All-after sep s hs)

  All-trim_dot : (s : Bytes) → All P s → All P (trim_dot s)
  unfolding trim_dot
  All-trim_dot [] h = tt
  All-trim_dot (c ∷ []) h = elim (Bool-cases (c == b'.')) [ inl e ↦ rw e tt | inr e ↦ rw e h ]
  All-trim_dot (c ∷ d ∷ s) (h, hs) = (h, All-trim_dot (d ∷ s) hs)

  All-strip_prefix :
      (prefix s whole : Bytes)
      → All P s
      → All P whole
      → All P (or_whole whole (strip_prefix prefix s))
  unfolding strip_prefix
  All-strip_prefix [] s whole h w = h
  All-strip_prefix (p ∷ ps) [] whole h w = w
  All-strip_prefix (p ∷ ps) (c ∷ s) whole (h, hs) w = elim (Bool-cases (p == c)) [
    | inl e ↦ rw e (All-strip_prefix ps s whole hs w)
    | inr e ↦ rw e w
  ]

  All-trim_www : (s : Bytes) → All P s → All P (trim_www s)
  unfolding trim_www
  All-trim_www s h = All-strip_prefix (codes "www.") s s h h

-- What stands after the last separator holds none.
last_or_here-Without :
    (sep c : ℕ) (s : Bytes) (o : Option (Bytes × Bytes))
    → Without sep (after s o)
    → Without sep (after (c ∷ s) (last_or_here sep c s o))
unfolding last_or_here
last_or_here-Without sep c s (some (l, d)) h = h
last_or_here-Without sep c s none h = elim (Bool-cases (c == sep)) [
  | inl e ↦ rw e h
  | inr e ↦ rw e ((λ q. ground (arith, ==_iff c sep)), h)
]

after-Without : (sep : ℕ) (s : Bytes) → Without sep (after s (split_last sep s))
unfolding split_last
after-Without sep [] = tt
after-Without sep (c ∷ s) = last_or_here-Without sep c s (split_last sep s) (after-Without sep s)

module _ (L : Letters) where
  -- A text without a path, a query, a fragment, a user or a port
  pub record IsBare (s : Bytes) : Type 0 where
    pub no_path : Free ends_host s
    pub no_user : Without b'@' s
    pub no_port : Free is_colon s

  host_of-IsBare : (s : Bytes) → IsBare (host_of L s)
  unfolding host_of
  host_of-IsBare s =
      let r = before_first ends_host (after_scheme_or s s) in
      let h = after r (split_last b'@' r) in
      record {
        no_path =
            All-before_first _ is_colon h
              (All-after _ b'@' r (before_first-Free ends_host (after_scheme_or s s)));
        no_user = All-before_first _ is_colon h (after-Without b'@' r);
        no_port = before_first-Free is_colon h;
      }

  trimmed-IsBare : (s : Bytes) → IsBare s → IsBare (trim_www (trim_dot s))
  trimmed-IsBare s b = record {
    no_path = All-trim_www _ (trim_dot s) (All-trim_dot _ s b.no_path);
    no_user = All-trim_www _ (trim_dot s) (All-trim_dot _ s b.no_user);
    no_port = All-trim_www _ (trim_dot s) (All-trim_dot _ s b.no_port);
  }

  -- A normalised domain holds no path, query or fragment mark, no at sign and no colon.
  pub normalize_domain-IsBare : (s : Bytes) → IsBare (normalize_domain L s)
  unfolding normalize_domain
  normalize_domain-IsBare s =
      trimmed-IsBare (host_of L (L.trim_space (L.to_lower s)))
        (host_of-IsBare (L.trim_space (L.to_lower s)))
