-- ===== src/Idem/Protocol.antt =====
-- internal/idem/idem.go: `Begin`, `Commit` and `Abandon` one by one.
use crm_bisync.Prelude.{
  is_some, ℕ, ◌+◌, ◌≡◌, ◌≢◌, ◌∙◌, refl, ap, sym, true, Option, none, some, Bytes, str_eq,
  str_eq_refl, str_eq_iff, arith, if◌then◌else◌, false,
}
use crm_bisync.Prelude.Result.{Result, ok, err, bind_ok}
use crm_bisync.Store.Defs.{Store, IsLawful, StoreErr, live}
use crm_bisync.Store.Typed.{
  Document, IdemResult, idem, as_idem, decoded, get_idem, put_idem, coll_idem,
}
use crm_bisync.Store.Typed.Access.{get_as_lem}
use crm_bisync.Idem.{
  Decision, proceed, replayed, recheck, no_result, begin, begin_from, commit, committed, abandon,
}

-- What `Begin` answers to an entry, and the entry that it leaves.
abbrev pub answer : Option IdemResult → IdemResult × Decision
answer none = (no_result, proceed)
answer (some prev) = if prev.in_flight then (no_result, recheck) else (prev, replayed)

abbrev pub mark : ℕ → IdemResult
mark now = record no_result { in_flight = true; written_at = now }

module _ (S : Store Document) (L : IsLawful S) where
  -- The entry of a key, as a reader finds it.
  abbrev pub entry_of : ℕ → Bytes → S.State → Result StoreErr (Option IdemResult)
  entry_of now k s = (get_idem S now k s).0

  pub entry_of_lem :
      (now : ℕ) (k : Bytes) (s : S.State)
      → L.IsOpen s
      → entry_of now k s ≡ decoded as_idem (L.view now coll_idem k s)
  unfolding get_idem
  entry_of_lem now k s h = ap (λ p. p.0) (get_as_lem S L as_idem now coll_idem k s h)

  get_idem_lem :
      (now : ℕ) (k : Bytes) (s : S.State) → L.IsOpen s → get_idem S now k s ≡ (entry_of now k s, s)
  unfolding get_idem
  get_idem_lem now k s h =
      get_as_lem S L as_idem now coll_idem k s h ∙ ap (λ r. (r, s)) (sym (entry_of_lem now k s h))

  entry_of-put_idem :
      (k : Bytes) (r : IdemResult) (e : ℕ) (s : S.State) (t : ℕ) (k' : Bytes)
      → L.IsOpen s
      → entry_of t k' (put_idem S k r e s).1
        ≡ (if str_eq k k' then (if live e t then ok (some r) else ok none) else entry_of t k' s)
  entry_of-put_idem k r e s t k' h =
      unfold put_idem in
      rw
        (
          entry_of_lem t k' (S.put coll_idem k (idem r) e s).1
              (L.put-IsOpen coll_idem k (idem r) e s h),
          entry_of_lem t k' s h,
        )
        (rw (L.view-put coll_idem k (idem r) e s t coll_idem k' h)
          (rw (str_eq_refl coll_idem) (ground arith)))

  put_idem-IsOpen :
      (k : Bytes) (r : IdemResult) (e : ℕ) (s : S.State)
      → L.IsOpen s
      → L.IsOpen (put_idem S k r e s).1
  unfolding put_idem
  put_idem-IsOpen k r e s h = L.put-IsOpen coll_idem k (idem r) e s h

  put_idem_ok :
      (k : Bytes) (r : IdemResult) (e : ℕ) (s : S.State)
      → L.IsOpen s
      → (put_idem S k r e s).0 ≡ ok tt
  unfolding put_idem
  put_idem_ok k r e s h = L.put_ok coll_idem k (idem r) e s h

  module _ (ttl : ℕ) where
    begin_proceed :
        (now : ℕ) (k : Bytes) (s : S.State)
        → L.IsOpen s
        → entry_of now k s ≡ ok none
        → begin S ttl now k s ≡ (ok (no_result, proceed), (put_idem S k (mark now) (now + ttl) s).1)
    begin_proceed now k s h e =
        unfold begin in
        rw (get_idem_lem now k s h) (
          rw e (
            unfold begin_from in
            bind_ok (put_idem S k (mark now) (now + ttl)) _ s tt
              (put_idem_ok k (mark now) (now + ttl) s h)))

    pub begin_repeat :
        (now : ℕ) (k : Bytes) (prev : IdemResult) (s : S.State)
        → L.IsOpen s
        → entry_of now k s ≡ ok (some prev)
        → begin S ttl now k s ≡ (ok (answer (some prev)), s)
    begin_repeat now k prev s h e =
        unfold begin in rw (get_idem_lem now k s h) (rw e (unfold begin_from in ground arith))

    -- An entry that does not decode stops the call.
    pub begin_stops :
        (now : ℕ) (k : Bytes) (x : StoreErr) (s : S.State)
        → L.IsOpen s
        → entry_of now k s ≡ err x
        → begin S ttl now k s ≡ (err x, s)
    begin_stops now k x s h e = unfold begin in rw (get_idem_lem now k s h) (rw e refl)

    pub begin_all :
        (now : ℕ) (k : Bytes) (prev : Option IdemResult) (s : S.State)
        → L.IsOpen s
        → entry_of now k s ≡ ok prev
        → ((begin S ttl now k s).0 ≡ ok (answer prev))
          × (prev ≡ none
              → (t : ℕ)
              → entry_of t k (begin S ttl now k s).1
                ≡ (if live (now + ttl) t then ok (some (mark now)) else ok none))
          × (prev ≢ none → (begin S ttl now k s).1 ≡ s)
          × ((t : ℕ) (k' : Bytes)
              → k ≢ k'
              → entry_of t k' (begin S ttl now k s).1 ≡ entry_of t k' s)
    begin_all now k none s h e = rw (begin_proceed now k s h e) (
      refl,
      λ _ t. entry_of-put_idem k (mark now) (now + ttl) s t k h ∙ rw (str_eq_refl k) refl,
      λ d. absurd (d refl),
      λ t k' d.
          entry_of-put_idem k (mark now) (now + ttl) s t k' h ∙ ground (arith, str_eq_iff k k'),
    )
    begin_all now k (some prev) s h e =
        rw (begin_repeat now k prev s h e) (refl, λ d. cc, λ _. refl, λ t k' d. refl)

    -- Begin on an open store whose entry decodes gives the answer that the entry calls for,
    -- marks the intent until the ttl where there was no entry, keeps the entry that was there
    -- otherwise, and leaves another key's entry.
    pub begin_lem :
        (now : ℕ) (k : Bytes) (prev : Option IdemResult) (s : S.State) (t : ℕ) (k' : Bytes)
        → L.IsOpen s
        → entry_of now k s ≡ ok prev
        → k ≢ k'
        → ((begin S ttl now k s).0 ≡ ok (answer prev))
          × (entry_of t k (begin S ttl now k s).1 ≡ (
              if is_some prev
              then entry_of t k s
              else if live (now + ttl) t
              then ok (some (mark now))
              else ok none))
          × (entry_of t k' (begin S ttl now k s).1 ≡ entry_of t k' s)
    begin_lem now k none s t k' h e d =
        let (answers, marks, _, others) = begin_all now k none s h e in
        (answers, marks refl t, others t k' d)
    begin_lem now k (some prev) s t k' h e d =
        let (answers, _, kept, others) = begin_all now k (some prev) s h e in
        (answers, ap (λ x. entry_of t k x) (kept (λ q. cc)), others t k' d)

    pub begin-IsOpen :
        (now : ℕ) (k : Bytes) (prev : Option IdemResult) (s : S.State)
        → L.IsOpen s
        → entry_of now k s ≡ ok prev
        → L.IsOpen (begin S ttl now k s).1
    begin-IsOpen now k none s h e =
        rw (begin_proceed now k s h e) (put_idem-IsOpen k (mark now) (now + ttl) s h)
    begin-IsOpen now k (some prev) s h e = rw (begin_repeat now k prev s h e) h

    pub entry_of-commit :
        (now : ℕ) (k : Bytes) (res : IdemResult) (s : S.State) (t : ℕ) (k' : Bytes)
        → L.IsOpen s
        → entry_of t k' (commit S ttl now k res s).1 ≡ (
            if str_eq k k'
            then (if live (now + ttl) t then ok (some (committed now res)) else ok none)
            else entry_of t k' s)
    entry_of-commit now k res s t k' h =
        unfold commit in
        entry_of-put_idem k (unfold committed in committed now res) (now + ttl) s t k' h

    pub commit-IsOpen :
        (now : ℕ) (k : Bytes) (res : IdemResult) (s : S.State)
        → L.IsOpen s
        → L.IsOpen (commit S ttl now k res s).1
    commit-IsOpen now k res s h =
        unfold commit in put_idem-IsOpen k (unfold committed in committed now res) (now + ttl) s h

    pub commit_ok :
        (now : ℕ) (k : Bytes) (res : IdemResult) (s : S.State)
        → L.IsOpen s
        → (commit S ttl now k res s).0 ≡ ok tt
    commit_ok now k res s h =
        unfold commit in put_idem_ok k (unfold committed in committed now res) (now + ttl) s h

    -- A commit writes to no other collection.
    pub view-commit_other :
        (now : ℕ) (k : Bytes) (res : IdemResult) (s : S.State) (t : ℕ) (c k' : Bytes)
        → L.IsOpen s
        → str_eq coll_idem c ≡ false
        → L.view t c k' (commit S ttl now k res s).1 ≡ L.view t c k' s
    view-commit_other now k res s t c k' h d =
        unfold commit committed put_idem in
        L.view-put coll_idem k _ (now + ttl) s t c k' h ∙ rw d refl

  pub entry_of-abandon :
      (k : Bytes) (s : S.State) (t : ℕ) (k' : Bytes)
      → L.IsOpen s
      → entry_of t k' (abandon S k s).1 ≡ (if str_eq k k' then ok none else entry_of t k' s)
  entry_of-abandon k s t k' h =
      unfold abandon in
      rw
        (
          entry_of_lem t k' (S.delete coll_idem k s).1 (L.delete-IsOpen coll_idem k s h),
          entry_of_lem t k' s h,
        )
        (rw (L.view-delete coll_idem k s t coll_idem k' h)
          (rw (str_eq_refl coll_idem) (ground arith)))

  pub abandon-IsOpen : (k : Bytes) (s : S.State) → L.IsOpen s → L.IsOpen (abandon S k s).1
  unfolding abandon
  abandon-IsOpen k s h = L.delete-IsOpen coll_idem k s h
