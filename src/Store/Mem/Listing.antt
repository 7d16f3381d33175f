-- ===== src/Store/Mem/Listing.antt =====
-- internal/store/mem.go: `List` and `Len` against what readers see.
use crm_bisync.Prelude.{
  ℕ, zero, suc, ◌≡◌, ◌≢◌, ◌∙◌, refl, ap, sym, Bool, true, false, Option, none, some, List, [], ◌∷◌,
  Bytes, str_eq, str_eq_iff, arith, if◌then◌else◌, inl, inr, Bool-cases, Option-cases, All, length,
  take,
}
use crm_bisync.Prelude.Strings.{str_lt}
use crm_bisync.Prelude.Sorting.{sort_by, any_b, any_b-sort_by, All-sort_by, length-sort_by}
use crm_bisync.Prelude.Ascending.{Ascending, Distinct, All-both, sort_by-Ascending}
use crm_bisync.Prelude.Dict.{Dict, lookup, NodupKeys}
use crm_bisync.Prelude.Result.{ok}
use crm_bisync.Store.Defs.{Entry, live, first_of_limit, listed_value}
use crm_bisync.Store.Mem.{
  Mem, table, visible, live_keys, entries_of, with_key, count_live, list, len,
}
use crm_bisync.Store.Mem.Writes.{IsOpen, view}

module _ {V : Type 0} where
  -- Whether an entry is there and live
  abbrev is_live : ℕ → Option (Entry V) → Bool
  is_live now none = false
  is_live now (some e) = live e.expires_at now

  absent_below :
      (now : ℕ) (k : Bytes) (t : Dict (Entry V))
      → lookup k t ≡ none
      → All (λ j. k ≢ j) (live_keys now t)
  unfolding lookup live_keys
  absent_below now k [] h = tt
  absent_below now k ((j, e) ∷ t) h =
      let other : k ≢ j = λ same. ground (arith, str_eq_iff j k) in
      let rest : lookup k t ≡ none = ground (arith, str_eq_iff j k) in
      elim (Bool-cases (live e.expires_at now)) [
        | inl l ↦ rw l (other, absent_below now k t rest)
        | inr l ↦ rw l (absent_below now k t rest)
      ]

  live_keys-Distinct :
      (now : ℕ) (t : Dict (Entry V)) → NodupKeys t → Distinct (λ k. k) (live_keys now t)
  unfolding live_keys
  live_keys-Distinct now [] h = tt
  live_keys-Distinct now ((j, e) ∷ t) (fresh, once) = elim (Bool-cases (live e.expires_at now)) [
    | inl l ↦ rw l (absent_below now j t fresh, live_keys-Distinct now t once)
    | inr l ↦ rw l (live_keys-Distinct now t once)
  ]

  lookup_past :
      (now : ℕ) (j k : Bytes) (e : Entry V) (t : Dict (Entry V))
      → j ≢ k
      → is_live now (lookup k t) ≡ true
      → is_live now (lookup k ((j, e) ∷ t)) ≡ true
  unfolding lookup
  lookup_past now j k e t n h = ground (arith, str_eq_iff j k)

  lookup_here : (k : Bytes) (e : Entry V) (t : Dict (Entry V)) → lookup k ((k, e) ∷ t) ≡ some e
  unfolding lookup
  lookup_here k e t = ground (arith, str_eq_iff k k)

  live_keys_live :
      (now : ℕ) (t : Dict (Entry V))
      → NodupKeys t
      → All (λ k. is_live now (lookup k t) ≡ true) (live_keys now t)
  unfolding live_keys
  live_keys_live now [] h = tt
  live_keys_live now ((j, e) ∷ t) (fresh, once) =
      let rest =
        All-both (λ k. j ≢ k) (λ k. is_live now (lookup k t) ≡ true)
          (λ k. is_live now (lookup k ((j, e) ∷ t)) ≡ true) (live_keys now t)
          (λ k n h. lookup_past now j k e t n h) (absent_below now j t fresh)
          (live_keys_live now t once) in
      elim (Bool-cases (live e.expires_at now)) [
        | inl l ↦ rw l (ap (is_live now) (lookup_here j e t) ∙ l, rest)
        | inr l ↦ rw l rest
      ]

  live_keys_all :
      (now : ℕ) (k : Bytes) (t : Dict (Entry V))
      → NodupKeys t
      → any_b (λ j. str_eq j k) (live_keys now t) ≡ is_live now (lookup k t)
  unfolding live_keys lookup
  live_keys_all now k [] h = refl
  live_keys_all now k ((j, e) ∷ t) (fresh, once) =
      ground (arith, str_eq_iff j k, live_keys_all now k t once)

  length-live_keys : (now : ℕ) (t : Dict (Entry V)) → length (live_keys now t) ≡ count_live now t
  unfolding live_keys count_live
  length-live_keys now [] = refl
  length-live_keys now ((j, e) ∷ t) = ground (arith, length-live_keys now t)

  -- Entries of keys that are all there
  module _ (now : ℕ) (t : Dict (Entry V)) where
    abbrev AllLive : List Bytes → Type 0
    AllLive = All (λ k. is_live now (lookup k t) ≡ true)

    there :
        (k : Bytes)
        → is_live now (lookup k t) ≡ true
        → (e : Entry V) × (lookup k t ≡ some e) × (live e.expires_at now ≡ true)
    there k h = elim (Option-cases (lookup k t)) [
      | inl n ↦ absurd (let lost : false ≡ true = sym (ap (is_live now) n) ∙ h in cc)
      | inr (e, s) ↦ (e, s, sym (ap (is_live now) s) ∙ h)
    ]

    entries_cons :
        (k : Bytes) (ks : List Bytes) (e : Entry V)
        → lookup k t ≡ some e
        → entries_of t (k ∷ ks) ≡ record e { key = k } ∷ entries_of t ks
    unfolding entries_of
    entries_cons k ks e h = ap (λ o. with_key k o (entries_of t ks)) h

    take-entries_of :
        (n : ℕ) (ks : List Bytes) → AllLive ks → entries_of t (take n ks) ≡ take n (entries_of t ks)
    take-entries_of zero ks h = unfold entries_of in refl
    take-entries_of (suc n) [] h = unfold entries_of in refl
    take-entries_of (suc n) (k ∷ ks) (here, rest) =
        let (e, found, _) = there k here in
        rw (entries_cons k ks e found, entries_cons k (take n ks) e found)
          (ap (λ es. record e { key = k } ∷ es) (take-entries_of n ks rest))

    pub first-entries_of :
        (limit : ℕ) (ks : List Bytes)
        → AllLive ks
        → entries_of t (first_of_limit limit ks) ≡ first_of_limit limit (entries_of t ks)
    first-entries_of zero ks h = refl
    first-entries_of (suc n) ks h = take-entries_of (suc n) ks h

    length-entries_of : (ks : List Bytes) → AllLive ks → length (entries_of t ks) ≡ length ks
    length-entries_of [] h = unfold entries_of in refl
    length-entries_of (k ∷ ks) (here, rest) =
        let (e, found, _) = there k here in
        rw (entries_cons k ks e found) (ap suc (length-entries_of ks rest))

    -- A property of the keys is one of the entries.
    All-entries_of :
        (P : Bytes → Type 0) (ks : List Bytes)
        → AllLive ks
        → All P ks
        → All (λ e. P e.key) (entries_of t ks)
    All-entries_of P [] h ps = unfold entries_of in tt
    All-entries_of P (k ∷ ks) (here, rest) (p, ps) =
        let (e, found, _) = there k here in
        rw (entries_cons k ks e found) (p, All-entries_of P ks rest ps)

    entries_of-Ascending :
        (ks : List Bytes)
        → AllLive ks
        → Ascending (λ k. k) ks
        → Ascending (λ e. e.key) (entries_of t ks)
    entries_of-Ascending [] h a = unfold entries_of in tt
    entries_of-Ascending (k ∷ ks) (here, rest) (above, a) =
        let (e, found, _) = there k here in
        rw (entries_cons k ks e found)
          (All-entries_of (λ j. str_lt k j ≡ true) ks rest above, entries_of-Ascending ks rest a)

    entries_of_live :
        (ks : List Bytes) → AllLive ks → All (λ e. live e.expires_at now ≡ true) (entries_of t ks)
    entries_of_live [] h = unfold entries_of in tt
    entries_of_live (k ∷ ks) (here, rest) =
        let (e, found, alive) = there k here in
        rw (entries_cons k ks e found) (alive, entries_of_live ks rest)

    value_of : Option (Entry V) → Option V
    value_of none = none
    value_of (some e) = some e.value

    listed_value-entries_of :
        (k : Bytes) (ks : List Bytes)
        → AllLive ks
        → listed_value k (entries_of t ks)
          ≡ (if any_b (λ j. str_eq j k) ks then value_of (lookup k t) else none)
    listed_value-entries_of k [] h = unfold entries_of in refl
    listed_value-entries_of k (j ∷ ks) (here, rest) =
        let (e, found, _) = there j here in
        rw (entries_cons j ks e found) (elim (Bool-cases (str_eq j k)) [
          | inl same ↦
              let at : lookup k t ≡ some e =
                ap (λ x. lookup x t) (sym ((str_eq_iff j k).0 same)) ∙ found in
              rw (same, at) (unfold value_of in refl)
          | inr other ↦ rw other (listed_value-entries_of k ks rest)
        ])

    value_of_live :
        (o : Option (Entry V)) → (if is_live now o then value_of o else none) ≡ visible now o
    unfolding value_of
    value_of_live none = refl
    value_of_live (some e) = refl

  -- What `List` gives without a limit
  unfoldable pub entries : ℕ → Bytes → Mem V → List (Entry V)
  entries now c m = entries_of (table c m) (sort_by str_lt (live_keys now (table c m)))

  keys_live :
      (now : ℕ) (c : Bytes) (m : Mem V)
      → IsOpen m
      → AllLive now (table c m) (sort_by str_lt (live_keys now (table c m)))
  keys_live now c m h =
      All-sort_by (λ k. is_live now (lookup k (table c m)) ≡ true) str_lt
        (live_keys now (table c m)) (live_keys_live now (table c m) (h.table_keys_once c))

  pub list_lem :
      (now : ℕ) (c : Bytes) (limit : ℕ) (m : Mem V)
      → IsOpen m
      → list now c limit m ≡ (ok (first_of_limit limit (entries now c m)), m)
  unfolding list entries
  list_lem now c limit m h =
      simp h.not_closed
        (ap (λ es. (ok es, m)) (first-entries_of now (table c m) limit _ (keys_live now c m h)))

  pub entries-view :
      (now : ℕ) (c k : Bytes) (m : Mem V)
      → IsOpen m
      → listed_value k (entries now c m) ≡ view now c k m
  unfolding entries view
  entries-view now c k m h =
      let t = table c m in
      let ks = live_keys now t in
      listed_value-entries_of now t k (sort_by str_lt ks) (keys_live now c m h)
      ∙ ap (λ b. if b then value_of now t (lookup k t) else none)
          (any_b-sort_by (λ j. str_eq j k) str_lt ks ∙ live_keys_all now k t (h.table_keys_once c))
      ∙ value_of_live now t (lookup k t)

  pub entries-Ascending :
      (now : ℕ) (c : Bytes) (m : Mem V) → IsOpen m → Ascending (λ e. e.key) (entries now c m)
  unfolding entries
  entries-Ascending now c m h = entries_of-Ascending now (table c m) _ (keys_live now c m h) (
      sort_by-Ascending (λ k. k) (live_keys now (table c m))
        (live_keys-Distinct now (table c m) (h.table_keys_once c)))

  pub entries_live :
      (now : ℕ) (c : Bytes) (m : Mem V)
      → IsOpen m
      → All (λ e. live e.expires_at now ≡ true) (entries now c m)
  unfolding entries
  entries_live now c m h = entries_of_live now (table c m) _ (keys_live now c m h)

  pub len_lem :
      (now : ℕ) (c : Bytes) (m : Mem V)
      → IsOpen m
      → len now c m ≡ (ok (length (entries now c m)), m)
  unfolding len entries
  len_lem now c m h =
      let t = table c m in
      simp h.not_closed (
        ap (λ n. (ok n, m))
          (sym (
            length-entries_of now t _ (keys_live now c m h)
            ∙ length-sort_by str_lt (live_keys now t)
            ∙ length-live_keys now t)))
