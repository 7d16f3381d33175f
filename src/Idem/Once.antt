-- ===== src/Idem/Once.antt =====
-- internal/idem/idem.go: whole histories of calls.
use crm_bisync.Prelude.{
  ℕ, suc, ◌+◌, ◌≤◌, ◌<◌, ◌≡◌, ◌≢◌, ◌∙◌, refl, Bool, true, false, Option, none, some, List, [], ◌∷◌,
  Bytes, str_eq, str_eq_refl, str_eq_iff, arith, if◌then◌else◌, ◌&&◌, inl, inr, Bool-cases,
}
use crm_bisync.Prelude.Result.{Result, ok, err}
use crm_bisync.Store.Defs.{Store, IsLawful, StoreErr, live}
use crm_bisync.Store.Typed.{Document, IdemResult}
use crm_bisync.Idem.{Decision, proceed, replayed, no_result, begin, commit, committed, abandon}
use crm_bisync.Idem.Protocol.{
  mark, entry_of, begin_all, begin_repeat, begin_stops, begin-IsOpen, entry_of-commit,
  commit-IsOpen, entry_of-abandon, abandon-IsOpen,
}

module _ (S : Store Document) (L : IsLawful S) (ttl : ℕ) where
  live_until : (e t : ℕ) → t < e → live e t ≡ true
  unfolding live
  live_until e t h = ground arith

  -- On an open store Begin after a Commit, before the ttl has passed, replays what was committed
  -- and changes nothing.
  pub begin-commit :
      (now : ℕ) (k : Bytes) (res : IdemResult) (s : S.State) (t : ℕ)
      → L.IsOpen s
      → t < now + ttl
      → (begin S ttl t k (commit S ttl now k res s).1
          ≡ (ok (committed now res, replayed), (commit S ttl now k res s).1))
  begin-commit now k res s t h lt =
      begin_repeat S L ttl t k (committed now res) (commit S ttl now k res s).1
        (commit-IsOpen S L ttl now k res s h)
        (entry_of-commit S L ttl now k res s t k h
          ∙ rw (str_eq_refl k) (rw (live_until (now + ttl) t lt) refl))
      ∙ (unfold committed in refl)

  -- On an open store Begin after an Abandon proceeds.
  pub begin-abandon :
      (k : Bytes) (s : S.State) (t : ℕ)
      → L.IsOpen s
      → (begin S ttl t k (abandon S k s).1).0 ≡ ok (no_result, proceed)
  begin-abandon k s t h =
      (begin_all S L ttl t k none (abandon S k s).1 (abandon-IsOpen S L k s h)
        (entry_of-abandon S L k s t k h ∙ rw (str_eq_refl k) refl)).0

-- The calls that the engine makes on the cache.
pub data Call : Type 0 where
  begins : ℕ → Bytes → Call
  commits : ℕ → Bytes → IdemResult → Call
  abandons : Bytes → Call

abbrev pub is_proceed : Result StoreErr (IdemResult × Decision) → Bool
is_proceed (ok (_, proceed)) = true
is_proceed (ok (_, _)) = false
is_proceed (err _) = false

-- How often `Begin` answers `Proceed` for `k` in a run of calls.
unfoldable pub proceeds : (S : Store Document) → ℕ → Bytes → List Call → S.State → ℕ
proceeds S ttl k [] s = 0
proceeds S ttl k (begins now j ∷ calls) s =
    let (r, s') = begin S ttl now j s in
    let rest = proceeds S ttl k calls s' in if str_eq k j && is_proceed r then suc rest else rest
proceeds S ttl k (commits now j res ∷ calls) s = proceeds S ttl k calls (commit S ttl now j res s).1
proceeds S ttl k (abandons j ∷ calls) s = proceeds S ttl k calls (abandon S j s).1

-- A run before `end` that does not abandon `k`, in which what is committed outlives `end`.
abbrev pub Within : ℕ → ℕ → Bytes → List Call → Type 0
Within ttl end k [] = Unit
Within ttl end k (begins now j ∷ calls) = (now < end) × Within ttl end k calls
Within ttl end k (commits now j res ∷ calls) = (end ≤ now + ttl) × Within ttl end k calls
Within ttl end k (abandons j ∷ calls) = (k ≢ j) × Within ttl end k calls

module _ (S : Store Document) (L : IsLawful S) (ttl end : ℕ) (k : Bytes) where
  -- Until `end` the key has an entry.
  record IsHeld (s : S.State) : Type 0 where
    pub is_open : L.IsOpen s
    pub held : (t : ℕ) → t < end → (r : IdemResult) × (entry_of S L t k s ≡ ok (some r))

  begin_held :
      (now : ℕ) (s : S.State)
      → now < end
      → IsHeld s
      → (is_proceed (begin S ttl now k s).0 ≡ false) × ((begin S ttl now k s).1 ≡ s)
  begin_held now s lt h =
      let (r, e) = h.held now lt in
      rw (begin_repeat S L ttl now k r s h.is_open e) (ground arith, refl)

  begin_other :
      (now : ℕ) (j : Bytes) (s : S.State) → j ≢ k → IsHeld s → IsHeld (begin S ttl now j s).1
  begin_other now j s d h = go (entry_of S L now j s) refl
    where
      go :
          (found : Result StoreErr (Option IdemResult))
          → entry_of S L now j s ≡ found
          → IsHeld (begin S ttl now j s).1
      go (ok prev) e = record {
        is_open = begin-IsOpen S L ttl now j prev s h.is_open e;
        held = λ t lt.
            let (r, there) = h.held t lt in
            (r, (begin_all S L ttl now j prev s h.is_open e).3 t k d ∙ there);
      }
      go (err x) e = rw (begin_stops S L ttl now j x s h.is_open e) h

  commit-IsHeld :
      (now : ℕ) (j : Bytes) (res : IdemResult) (s : S.State)
      → end ≤ now + ttl
      → IsHeld s
      → IsHeld (commit S ttl now j res s).1
  commit-IsHeld now j res s le h = record {
    is_open = commit-IsOpen S L ttl now j res s h.is_open;
    held = λ t lt. elim (Bool-cases (str_eq j k)) [
      | inl e ↦ (
        committed now res,
        entry_of-commit S L ttl now j res s t k h.is_open
            ∙ rw (e, live_until S L ttl (now + ttl) t (omega arith)) refl,
      )
      | inr e ↦
          let (r, there) = h.held t lt in
          (r, entry_of-commit S L ttl now j res s t k h.is_open ∙ rw e there)
    ];
  }

  abandon-IsHeld : (j : Bytes) (s : S.State) → k ≢ j → IsHeld s → IsHeld (abandon S j s).1
  abandon-IsHeld j s d h = record {
    is_open = abandon-IsOpen S L j s h.is_open;
    held = λ t lt.
        let (r, there) = h.held t lt in
        (r, entry_of-abandon S L j s t k h.is_open ∙ ground (arith, str_eq_iff j k, there));
  }

  proceeds_held :
      (calls : List Call) (s : S.State)
      → Within ttl end k calls
      → IsHeld s
      → proceeds S ttl k calls s ≡ 0
  unfolding proceeds
  proceeds_held [] s w h = refl
  proceeds_held (begins now j ∷ calls) s (lt, w) h = elim (Bool-cases (str_eq k j)) [
    | inl e ↦
        let same : k ≡ j = (str_eq_iff k j).0 e in
        let (not_again, stays) = begin_held now s lt h in
        rw (← same) (rw (str_eq_refl k, not_again, stays) (proceeds_held calls s w h))
    | inr e ↦ rw e (
        proceeds_held calls (begin S ttl now j s).1 w
          (begin_other now j s (λ p. ground (arith, str_eq_iff k j)) h))
  ]
  proceeds_held (commits now j res ∷ calls) s (le, w) h =
      proceeds_held calls (commit S ttl now j res s).1 w (commit-IsHeld now j res s le h)
  proceeds_held (abandons j ∷ calls) s (d, w) h =
      proceeds_held calls (abandon S j s).1 w (abandon-IsHeld j s d h)

-- On an open store without an entry for the key Begin proceeds; and in any run of Begin, Commit
-- and Abandon on any keys that follows, before the ttl has passed, that does not abandon this
-- key and whose commits live that long, no Begin of the key proceeds again.
pub proceeds_once :
    (S : Store Document) (L : IsLawful S) (ttl t0 : ℕ) (k : Bytes) (calls : List Call) (s : S.State)
    → L.IsOpen s
    → entry_of S L t0 k s ≡ ok none
    → Within ttl (t0 + ttl) k calls
    → ((begin S ttl t0 k s).0 ≡ ok (no_result, proceed))
      × (proceeds S ttl k calls (begin S ttl t0 k s).1 ≡ 0)
proceeds_once S L ttl t0 k calls s h e w =
    let first = begin_all S L ttl t0 k none s h e in
    (
      first.0,
      proceeds_held S L ttl (t0 + ttl) k calls (begin S ttl t0 k s).1 w (record {
        is_open = begin-IsOpen S L ttl t0 k none s h e;
        held = λ t lt. (mark t0, first.1 refl t ∙ rw (live_until S L ttl (t0 + ttl) t lt) refl);
      }),
    )
