-- ===== src/Engine/Pipeline/Sending.antt =====
-- internal/engine/pipeline.go: `write` and the idempotency cache.
use crm_bisync.Prelude.{
  ℕ, ◌+◌, ◌<◌, ◌≡◌, ◌∙◌, refl, ap, true, false, Option, none, some, is_empty, arith, Bool-cases,
  inl, inr, if◌then◌else◌,
}
use crm_bisync.Prelude.Result.{Result, ok, err, with_result}
use crm_bisync.Store.Defs.{IsLawful, StoreErr, live}
use crm_bisync.Store.Typed.{IdemResult}
use crm_bisync.Connector.{Failure, recheck, answered, WriteResult, kind_of, retry_after_of}
use crm_bisync.Idem.{begin}
use crm_bisync.Idem.Protocol.{answer, mark, entry_of, begin_all, begin-IsOpen}
use crm_bisync.Engine.Parts.{
  ◌>>=◌, Setting, State, Peer, lift_stored, note_failure, is_rate_limited,
}
use crm_bisync.Engine.Pipeline.{
  Write, is_create, target_fields, no_write, idem_key, begin_write, clear_mark, tag_known, replied,
  upsert, deliver, decided, send, write,
}

module _ (E : Setting) (L : IsLawful E.store) where
  abbrev pub time_of : State E → ℕ
  time_of e = E.peers.time e.world

  -- What the cache holds for a write, as it is read at an instant
  abbrev pub held : ℕ → Write → State E → Result StoreErr (Option IdemResult)
  held t w e = entry_of E.store L t (idem_key E w) e.store

  abbrev pub begun : Write → State E → State E
  begun w e = record e { store = (begin E.store E.idem_ttl (time_of e) (idem_key E w) e.store).1 }

  -- A write that is carried out: not a dry run, and with something to write.
  pub record IsLive (w : Write) (e : State E) : Type 0 where
    pub is_open : L.IsOpen e.store
    pub no_plan : e.plan ≡ none
    pub has_fields : is_empty (target_fields w) ≡ false

  pub begin_write_lem :
      (w : Write) (e : State E) (prev : Option IdemResult)
      → L.IsOpen e.store
      → held (time_of e) w e ≡ ok prev
      → begin_write E (idem_key E w) e ≡ (ok (answer prev), begun w e)
  unfolding begin_write ◌>>=◌
  begin_write_lem w e prev h found =
      let answers =
        (begin_all E.store L E.idem_ttl (time_of e) (idem_key E w) prev e.store h found).0 in
      ap (λ r. (lift_stored E r, begun w e)) answers

  pub write_live : (w : Write) (e : State E) → IsLive w e → write E w e ≡ send E w e
  unfolding write
  write_live w e h = rw (h.has_fields, h.no_plan) refl

  pub send_lem :
      (w : Write) (e : State E) (prev : Option IdemResult)
      → L.IsOpen e.store
      → held (time_of e) w e ≡ ok prev
      → send E w e ≡ decided E w (answer prev) (begun w e)
  unfolding send ◌>>=◌
  send_lem w e prev h found = rw (begin_write_lem w e prev h found) refl

  pub begun_same :
      (w : Write) (e : State E) (prev : IdemResult)
      → L.IsOpen e.store
      → held (time_of e) w e ≡ ok (some prev)
      → begun w e ≡ e
  begun_same w e prev h found =
      ap (λ s. record e { store = s })
        ((begin_all E.store L E.idem_ttl (time_of e) (idem_key E w) (some prev) e.store h found).2
          (λ q. cc))

  abbrev pub cached : IdemResult → WriteResult
  cached prev = record no_write.0 { remote_id = prev.remote_id; created = prev.created }

  pub write_replays :
      (w : Write) (e : State E) (prev : IdemResult)
      → IsLive w e
      → held (time_of e) w e ≡ ok (some prev)
      → prev.in_flight ≡ false
      → write E w e ≡ (ok (cached prev, true), e)
  unfolding decided ◌>>=◌
  write_replays w e prev h found done =
      write_live w e h
      ∙ send_lem w e (some prev) h.is_open found
      ∙ rw (begun_same w e prev h.is_open found, done) refl

  -- A create whose mark is in flight
  pub create_rechecks :
      (w : Write) (e : State E) (prev : IdemResult)
      → IsLive w e
      → is_create w ≡ true
      → held (time_of e) w e ≡ ok (some prev)
      → prev.in_flight ≡ true
      → write E w e ≡ (err recheck, e)
  unfolding decided ◌>>=◌
  create_rechecks w e prev h new found flying =
      write_live w e h
      ∙ send_lem w e (some prev) h.is_open found
      ∙ rw (begun_same w e prev h.is_open found, flying, new) refl

  -- A create that the peer did not answer
  pub record IsUnanswered (w : Write) (f : Failure) (e : State E) : Type 0 where
    pub live : IsLive w e
    pub new : is_create w ≡ true
    pub fresh : held (time_of e) w e ≡ ok none
    pub admitted : (E.peers.wait w.to.name e.world).0 ≡ ok tt
    pub fails :
        (upsert E w (record (begun w e) { world = (E.peers.wait w.to.name e.world).1 })).0 ≡ err f
    pub unanswered : answered f ≡ false

  -- What the peer's bucket hears of a failure
  abbrev pub after_error : Peer → Failure → E.peers.World → E.peers.World
  after_error p f world =
      if is_rate_limited E (kind_of f)
      then E.peers.reject p.name (retry_after_of f) world
      else world

  pub note_failure_lem :
      (p : Peer) (f : Failure) (e : State E)
      → note_failure E p f e ≡ (ok tt, record e { world = after_error p f e.world })
  unfolding note_failure ◌>>=◌
  note_failure_lem p f e = elim (Bool-cases (is_rate_limited E (kind_of f))) [
    | inl b ↦ rw b refl
    | inr b ↦ rw b refl
  ]

  replied_unanswered :
      (w : Write) (f : Failure) (e : State E)
      → answered f ≡ false
      → replied E w (err f) e ≡ (err f, record e { world = after_error w.to f e.world })
  unfolding replied clear_mark ◌>>=◌
  replied_unanswered w f e h = rw (note_failure_lem w.to f e, h) refl

  abbrev admitted_state : Write → State E → State E
  admitted_state w e = record e { world = (E.peers.wait w.to.name e.world).1 }

  -- The state in which the write's request is made, where the write is a create
  abbrev asked : Write → State E → State E
  asked w e = admitted_state w (begun w e)

  deliver_create :
      (w : Write) (e : State E)
      → is_create w ≡ true
      → (E.peers.wait w.to.name e.world).0 ≡ ok tt
      → deliver E w e
        ≡ replied E w (upsert E w (admitted_state w e)).0 (upsert E w (admitted_state w e)).1
  unfolding deliver tag_known ◌>>=◌
  deliver_create w e new admitted =
      rw (new, with_result (E.peers.wait w.to.name e.world) admitted) refl

  abbrev replying : Write → State E → State E
  replying w e = (upsert E w (asked w e)).1

  replying_keeps :
      (w : Write) (e : State E)
      → ((replying w e).store ≡ (begun w e).store) × ((replying w e).plan ≡ e.plan)
  unfolding upsert ◌>>=◌
  replying_keeps w e = (refl, refl)

  unanswered_lem :
      (w : Write) (f : Failure) (e : State E)
      → IsUnanswered w f e
      → write E w e
        ≡ (err f, record (replying w e) { world = after_error w.to f (replying w e).world })
  unfolding decided ◌>>=◌
  unanswered_lem w f e u =
      write_live w e u.live
      ∙ send_lem w e none u.live.is_open u.fresh
      ∙ deliver_create w (begun w e) u.new u.admitted
      ∙ ap (λ r. replied E w r (replying w e)) u.fails
      ∙ replied_unanswered w f (replying w e) u.unanswered

  write_unanswered :
      (w : Write) (f : Failure) (e : State E)
      → IsUnanswered w f e
      → ((write E w e).0 ≡ err f) × ((write E w e).1.store ≡ (begun w e).store)
  write_unanswered w f e u = rw (unanswered_lem w f e u) (refl, (replying_keeps w e).0)

  live_until : (e t : ℕ) → t < e → live e t ≡ true
  unfolding live
  live_until e t h = ground arith

  -- A create that is carried out, of which the cache holds nothing, that the rate limit lets
  -- through, and to which the peer gives no answer, fails with the peer's error; carried out
  -- again on the same store before the ttl has passed, it fails with the mark for a recheck,
  -- sends no request, and changes nothing.
  pub no_second_create :
      (w : Write) (f : Failure) (e later : State E)
      → IsUnanswered w f e
      → later.store ≡ (write E w e).1.store
      → later.plan ≡ none
      → time_of later < time_of e + E.idem_ttl
      → ((write E w e).0 ≡ err f) × (write E w later ≡ (err recheck, later))
  no_second_create w f e later u same live_run soon =
      let (fails, kept) = write_unanswered w f e u in
      let marked =
        begin_all E.store L E.idem_ttl (time_of e) (idem_key E w) none e.store u.live.is_open
          u.fresh in
      let here : later.store ≡ (begun w e).store = same ∙ kept in
      (
        fails,
        create_rechecks w later (mark (time_of e))
            (record {
              is_open = rw here (
                  begin-IsOpen E.store L E.idem_ttl (time_of e) (idem_key E w) none e.store
                    u.live.is_open u.fresh);
              no_plan = live_run;
              has_fields = u.live.has_fields;
            })
            u.new
            (rw here (
              marked.1 refl (time_of later)
              ∙ rw (live_until (time_of e + E.idem_ttl) (time_of later) soon) refl))
            refl,
      )
