-- ===== src/Engine/Webhooks/Redelivered.antt =====
-- internal/engine/webhook.go: `ingest` of a delivery that comes again.
use crm_bisync.Prelude.{
  ℕ, ◌+◌, ◌<◌, ◌≡◌, ◌∙◌, refl, ap, sym, subst, ◌⊎◌, inl, inr, Bool, true, false, Option, List, [],
  ◌∷◌, Bytes, str_eq, str_eq_refl, is_some, is_empty, arith, Bool-cases, Option-cases, All, All-imp,
  if◌then◌else◌,
}
use crm_bisync.Prelude.Result.{ok, with_result}
use crm_bisync.Store.Defs.{IsLawful, live, same}
use crm_bisync.Store.Typed.{Document, nanos, unix_nano, seen_delivery, coll_deliveries, ◌⊹◌}
use crm_bisync.Model.{ChangeEvent}
use crm_bisync.Engine.Parts.{◌>>=◌, Setting, State, Sync}
use crm_bisync.Engine.Tasks.{Worker, submit}
use crm_bisync.Engine.Webhooks.{
  delivery_ttl, from_source, delivery_key, Ingested, delivered, submit_to, syncs_for, ingest_unseen,
  ingest_one, both, ingest,
}

module _ (E : Setting) (L : IsLawful E.store) (name : Bytes) where
  abbrev pub row_key : ChangeEvent → Bytes
  row_key ev = name ⊹ delivery_key ev

  abbrev pub row_at : ℕ → Bytes → E.store.State → Option Document
  row_at t k s = L.view t coll_deliveries k s

  -- The store after a delivery has been looked up
  abbrev marked : ℕ → Bytes → E.store.State → E.store.State
  marked at k s =
      if is_some (row_at at k s)
      then s
      else (E.store.put coll_deliveries k (nanos (unix_nano at)) (at + delivery_ttl) s).1

  seen_lem :
      (at : ℕ) (d : Bytes) (s : E.store.State)
      → L.IsOpen s
      → seen_delivery E.store at name d at (at + delivery_ttl) s
        ≡ (ok (is_some (row_at at (name ⊹ d) s)), marked at (name ⊹ d) s)
  unfolding seen_delivery
  seen_lem at d s h =
      let k : Bytes = name ⊹ d in
      rw (L.get_lem at coll_deliveries k s h) (elim (Option-cases (row_at at k s)) [
        | inr (x, e) ↦ rw e refl
        | inl e ↦ rw e (
            rw
              (with_result
                (E.store.put coll_deliveries k (nanos (unix_nano at)) (at + delivery_ttl) s)
                (L.put_ok coll_deliveries k (nanos (unix_nano at)) (at + delivery_ttl) s h))
              refl)
      ])

  marked-IsOpen : (at : ℕ) (k : Bytes) (s : E.store.State) → L.IsOpen s → L.IsOpen (marked at k s)
  marked-IsOpen at k s h = elim (Bool-cases (is_some (row_at at k s))) [
    | inl e ↦ rw e h
    | inr e ↦ rw e (L.put-IsOpen coll_deliveries k (nanos (unix_nano at)) (at + delivery_ttl) s h)
  ]

  row_at-marked :
      (at : ℕ) (k : Bytes) (s : E.store.State) (t : ℕ) (j : Bytes)
      → L.IsOpen s
      → is_some (row_at at k s) ≡ false
      → t < at + delivery_ttl
      → is_some (row_at t j (marked at k s)) ≡ (if str_eq k j then true else is_some (row_at t j s))
  unfolding live
  row_at-marked at k s t j h e soon =
      rw
        (
          e,
          L.view-put coll_deliveries k (nanos (unix_nano at)) (at + delivery_ttl) s t
              coll_deliveries j h,
          str_eq_refl coll_deliveries,
        )
        (ground arith)

  -- A row that lasts for the ttl
  abbrev Lasts : ℕ → E.store.State → Bytes → Type 0
  Lasts at s k = (t : ℕ) → t < at + delivery_ttl → is_some (row_at t k s) ≡ true

  abbrev IsFresh : ℕ → E.store.State → Bytes → Type 0
  IsFresh at s k = (is_some (row_at at k s) ≡ false) ⊎ Lasts at s k

  marked-Lasts :
      (at : ℕ) (k : Bytes) (s : E.store.State)
      → L.IsOpen s
      → IsFresh at s k
      → Lasts at (marked at k s) k
  marked-Lasts at k s h (inl e) t soon = row_at-marked at k s t k h e soon ∙ rw (str_eq_refl k) refl
  marked-Lasts at k s h (inr l) t soon =
      let there : is_some (row_at at k s) ≡ true = l at (omega arith) in rw there (l t soon)

  Lasts-marked :
      (at : ℕ) (k : Bytes) (s : E.store.State) (j : Bytes)
      → L.IsOpen s
      → Lasts at s j
      → Lasts at (marked at k s) j
  Lasts-marked at k s j h l t soon = elim (Bool-cases (is_some (row_at at k s))) [
    | inl e ↦ rw e (l t soon)
    | inr e ↦ row_at-marked at k s t j h e soon ∙ rw (l t soon) (ground arith)
  ]

  IsFresh-marked :
      (at : ℕ) (k : Bytes) (s : E.store.State) (j : Bytes)
      → L.IsOpen s
      → IsFresh at s j
      → IsFresh at (marked at k s) j
  IsFresh-marked at k s j h (inr l) = inr (Lasts-marked at k s j h l)
  IsFresh-marked at k s j h (inl f) = elim (Bool-cases (is_some (row_at at k s))) [
    | inl e ↦ inl (rw e f)
    | inr e ↦ elim (Bool-cases (str_eq k j)) [
      | inl q ↦ inr (λ t soon. row_at-marked at k s t j h e soon ∙ rw q refl)
      | inr q ↦ inl (row_at-marked at k s at j h e (omega arith) ∙ rw (q, f) refl)
    ]
  ]

  -- Ingesting

  abbrev IsNamed : ChangeEvent → Type 0
  IsNamed ev = is_empty ev.delivery_id ≡ false

  abbrev pub time_of : Worker E → ℕ
  time_of w = E.peers.time w.engine.world

  delivered_lem :
      (ev : ChangeEvent) (e : State E)
      → IsNamed ev
      → L.IsOpen e.store
      → let at = E.peers.time e.world in
        delivered E name (from_source name ev) e ≡ (
          ok (is_some (row_at at (row_key ev) e.store)),
          record e { store = marked at (row_key ev) e.store },
        )
  unfolding delivered ◌>>=◌
  delivered_lem ev e n h = rw (n, seen_lem (E.peers.time e.world) (delivery_key ev) e.store h) refl

  pub record SameBase (w v : Worker E) : Type 0 where
    pub store : v.engine.store ≡ w.engine.store
    pub world : v.engine.world ≡ w.engine.world

  submit_to-SameBase :
      (ss : List Sync) (ev : ChangeEvent) (w : Worker E) → SameBase w (submit_to E ss ev w).1
  unfolding submit_to submit
  submit_to-SameBase [] ev w = record { store = refl; world = refl }
  submit_to-SameBase (s ∷ ss) ev w =
      let rest = submit_to-SameBase ss ev (submit E s.name ev w).1 in
      record { store = rest.store; world = rest.world }

  ingest_unseen-SameBase :
      (ev : ChangeEvent) (b : Bool) (w : Worker E)
      → SameBase w (ingest_unseen E ev (ok b) w).1 × ((ingest_unseen E ev (ok b) w).0.1 ≡ [])
  ingest_unseen-SameBase ev true w = (record { store = refl; world = refl }, refl)
  ingest_unseen-SameBase ev false w =
      (submit_to-SameBase (syncs_for ev.source ev.kind E.syncs) ev w, refl)

  -- The worker after one event has been looked up
  abbrev looked_up : ChangeEvent → Worker E → Worker E
  looked_up ev w = record w {
    engine = record w.engine { store = marked (time_of w) (row_key ev) w.engine.store };
  }

  ingest_one_lem :
      (ev : ChangeEvent) (w : Worker E)
      → IsNamed ev
      → L.IsOpen w.engine.store
      → ingest_one E name (from_source name ev) w
        ≡ ingest_unseen E
            (from_source name ev)
            (ok (is_some (row_at (time_of w) (row_key ev) w.engine.store)))
            (looked_up ev w)
  unfolding ingest_one
  ingest_one_lem ev w n h = rw (delivered_lem ev w.engine n h) refl

  -- What a delivery comes to
  record IsTaken (at : ℕ) (evs : List ChangeEvent) (w : Worker E) (p : Ingested × Worker E)
      : Type 0 where
    no_errors : p.0.1 ≡ []
    lasting : (k : Bytes) → Lasts at w.engine.store k → Lasts at p.1.engine.store k
    all_last : All (λ ev. Lasts at p.1.engine.store (row_key ev)) evs

  one_more :
      (ev : ChangeEvent) (evs : List ChangeEvent) (w : Worker E) (p : Ingested × Worker E)
      → L.IsOpen w.engine.store
      → IsFresh (time_of w) w.engine.store (row_key ev)
      → (p.0.1 ≡ []) × SameBase (looked_up ev w) p.1
      → IsTaken (time_of w) evs p.1 (ingest E name evs p.1)
      → IsTaken (time_of w) (ev ∷ evs) w (both E p.0 (ingest E name evs p.1))
  one_more ev evs w p h fresh (none_yet, base) rest =
      let at = time_of w in
      let here : Lasts at p.1.engine.store (row_key ev) =
        rw base.store (marked-Lasts at (row_key ev) w.engine.store h fresh) in
      record {
        no_errors = rw (none_yet, rest.no_errors) refl;
        lasting = λ k l.
            rest.lasting k (rw base.store (Lasts-marked at (row_key ev) w.engine.store k h l));
        all_last = (rest.lasting (row_key ev) here, rest.all_last);
      }

  ingest-IsTaken :
      (evs : List ChangeEvent) (w : Worker E)
      → L.IsOpen w.engine.store
      → All IsNamed evs
      → All (λ ev. IsFresh (time_of w) w.engine.store (row_key ev)) evs
      → IsTaken (time_of w) evs w (ingest E name evs w)
  unfolding ingest
  ingest-IsTaken [] w h n f = record { no_errors = refl; lasting = λ k l. l; all_last = tt }
  ingest-IsTaken (ev ∷ evs) w h (n, ns) (f, fs) =
      let at = time_of w in
      let seen = is_some (row_at at (row_key ev) w.engine.store) in
      let (base, fine) = ingest_unseen-SameBase (from_source name ev) seen (looked_up ev w) in
      let p = ingest_unseen E (from_source name ev) (ok seen) (looked_up ev w) in
      let same_time : time_of p.1 ≡ at = ap E.peers.time base.world in
      let kept_fresh : All (λ v. IsFresh at (marked at (row_key ev) w.engine.store) (row_key v))
          evs =
        All-imp (λ v fr. IsFresh-marked at (row_key ev) w.engine.store (row_key v) h fr) evs fs in
      let still_fresh : All (λ v. IsFresh (time_of p.1) p.1.engine.store (row_key v)) evs =
        subst (λ t. All (λ v. IsFresh t p.1.engine.store (row_key v)) evs) (sym same_time)
          (rw base.store kept_fresh) in
      rw (ingest_one_lem ev w n h) (
        one_more ev evs w p h f (fine, base)
          (subst (λ t. IsTaken t evs p.1 (ingest E name evs p.1)) same_time
            (ingest-IsTaken evs p.1 (rw base.store (marked-IsOpen at (row_key ev) w.engine.store h))
              ns still_fresh)))

  ingest_again :
      (evs : List ChangeEvent) (w : Worker E)
      → L.IsOpen w.engine.store
      → All IsNamed evs
      → All (λ ev. is_some (row_at (time_of w) (row_key ev) w.engine.store) ≡ true) evs
      → ingest E name evs w ≡ ((0, []), w)
  unfolding ingest
  ingest_again [] w h n s = refl
  ingest_again (ev ∷ evs) w h (n, ns) (s, ss) =
      rw (ingest_one_lem ev w n h) (rw s (rw (ingest_again evs w h ns ss) refl))

  ingest-IsOpen :
      (evs : List ChangeEvent) (w : Worker E)
      → L.IsOpen w.engine.store
      → All IsNamed evs
      → L.IsOpen (ingest E name evs w).1.engine.store
  unfolding ingest
  ingest-IsOpen [] w h n = h
  ingest-IsOpen (ev ∷ evs) w h (n, ns) =
      let seen = is_some (row_at (time_of w) (row_key ev) w.engine.store) in
      let base = (ingest_unseen-SameBase (from_source name ev) seen (looked_up ev w)).0 in
      rw (ingest_one_lem ev w n h) (
        ingest-IsOpen evs _
          (rw base.store (marked-IsOpen (time_of w) (row_key ev) w.engine.store h)) ns)

  -- Of a delivery whose events all have an identifier and none of which was delivered before,
  -- ingest reports no error on an open store; and the same delivery again, on the same store
  -- before the ttl has passed, queues nothing and changes nothing.
  pub redelivery_ignored :
      (evs : List ChangeEvent) (w later : Worker E)
      → L.IsOpen w.engine.store
      → All (λ (ev : ChangeEvent). is_empty ev.delivery_id ≡ false) evs
      → All (λ ev. is_some (row_at (time_of w) (row_key ev) w.engine.store) ≡ false) evs
      → later.engine.store ≡ (ingest E name evs w).1.engine.store
      → time_of later < time_of w + delivery_ttl
      → ((ingest E name evs w).0.1 ≡ []) × (ingest E name evs later ≡ ((0, []), later))
  redelivery_ignored evs w later h n fresh same soon =
      let taken = ingest-IsTaken evs w h n (All-imp (λ v e. inl e) evs fresh) in
      (
        taken.no_errors,
        ingest_again evs later (rw same (ingest-IsOpen evs w h n)) n
            (rw same (All-imp (λ v l. l (time_of later) soon) evs taken.all_last)),
      )
