-- ===== src/Engine/Pipeline/Swallowed.antt =====
-- internal/engine/pipeline.go: `write` of an update, and the same update once more.
use crm_bisync.Prelude.{
  ℕ, ◌+◌, ◌<◌, ◌≡◌, ◌≢◌, ◌∙◌, refl, ap, sym, true, none, some, [], str_eq_refl, str_eq_iff, arith,
}
use crm_bisync.Prelude.Result.{ok}
use crm_bisync.Store.Defs.{IsLawful, live}
use crm_bisync.Store.Typed.{as_idem, decoded, coll_idem}
use crm_bisync.Connector.{WriteResult}
use crm_bisync.Idem.{committed}
use crm_bisync.Origin.Verdicts.{view-noted_other}
use crm_bisync.Idem.Protocol.{entry_of_lem, begin_all, entry_of, entry_of-commit}
use crm_bisync.Engine.Parts.{Setting, State}
use crm_bisync.Engine.Pipeline.{payload_hash, Write, idem_key, write, upsert}
use crm_bisync.Engine.Pipeline.Sending.{begun, time_of, held, IsLive, write_replays}
use crm_bisync.Engine.Pipeline.Tagging.{
  begun-IsOpen, window_end, origins_apart, IsUpdate, asking, updated_state, write_accepted,
  result_of, asking-IsOpen, upsert_keeps,
}

module _ (E : Setting) (L : IsLawful E.store) where
  live_until : (e t : ℕ) → t < e → live e t ≡ true
  unfolding live
  live_until e t h = ground arith

  -- When the peer has accepted
  abbrev pub accepted_at : Write → State E → ℕ
  accepted_at w e = E.peers.time (E.peers.succeed w.to.name (upsert E w (asking E L w e)).1.world)

  held_afterwards :
      (w again : Write) (res : WriteResult) (e : State E) (t : ℕ)
      → IsUpdate E L w e
      → idem_key E again ≡ idem_key E w
      → t < accepted_at w e + E.idem_ttl
      → held E L t again (updated_state E L w res e)
        ≡ ok (some (committed (accepted_at w e) (result_of E L res (accepted_at w e))))
  held_afterwards w again res e t u same soon =
      let at : ℕ = accepted_at w e in
      ap (λ k. entry_of E.store L t k (updated_state E L w res e).store) same
      ∙ entry_of-commit E.store L E.idem_ttl at (idem_key E w) (result_of E L res at)
          (upsert E w (asking E L w e)).1.store t (idem_key E w)
          (rw (upsert_keeps E L w (asking E L w e)) (asking-IsOpen E L w e u))
      ∙ rw (str_eq_refl (idem_key E w), live_until (at + E.idem_ttl) t soon) refl

  -- An accepted update leaves what the cache holds for other writes.
  pub held_other :
      (w v : Write) (res : WriteResult) (e : State E) (t : ℕ)
      → IsUpdate E L w e
      → idem_key E w ≢ idem_key E v
      → held E L t v (updated_state E L w res e) ≡ held E L t v e
  held_other w v res e t u apart =
      let from = (begun E L w e).store in
      let opened = begun-IsOpen E L w e u in
      let k = idem_key E v in
      entry_of-commit E.store L E.idem_ttl (accepted_at w e) (idem_key E w)
        (result_of E L res (accepted_at w e)) (upsert E w (asking E L w e)).1.store t k
        (rw (upsert_keeps E L w (asking E L w e)) (asking-IsOpen E L w e u))
      ∙ rw (upsert_keeps E L w (asking E L w e)) (ground (arith, str_eq_iff (idem_key E w) k))
      ∙ entry_of_lem E.store L t k (asking E L w e).store (asking-IsOpen E L w e u)
      ∙ ap (λ o. decoded as_idem o)
          (view-noted_other E.store L (time_of E L e) (window_end E L w e) w.target
            (payload_hash E w) from t coll_idem k opened origins_apart)
      ∙ sym (entry_of_lem E.store L t k from opened)
      ∙ (begin_all E.store L E.idem_ttl (time_of E L e) (idem_key E w) none e.store u.live.is_open
            u.fresh).3
          t k apart

  -- After an update that is carried out and that the peer accepts, a live write with the same
  -- idempotency key, whose cache entry is still as that update left it, sends nothing before the
  -- ttl has passed and reports that it was written.
  pub repeat_is_replayed :
      (w again : Write) (res : WriteResult) (e later : State E)
      → IsUpdate E L w e
      → (upsert E w (asking E L w e)).0 ≡ ok res
      → idem_key E again ≡ idem_key E w
      → IsLive E L again later
      → held E L (time_of E L later) again later
        ≡ held E L (time_of E L later) again (write E w e).1
      → time_of E L later < accepted_at w e + E.idem_ttl
      → write E again later ≡ (
        ok (
          record { remote_id = res.remote_id; created = res.created; version = []; updated_at = 0 },
          true,
        ),
        later,
      )
  repeat_is_replayed w again res e later u done same live_again kept soon =
      let t = time_of E L later in
      write_replays E L again later
        (committed (accepted_at w e) (result_of E L res (accepted_at w e))) live_again
        (kept
          ∙ ap (λ p. held E L t again p.1) (write_accepted E L w res e u done)
          ∙ held_afterwards w again res e t u same soon)
        (unfold committed in refl)
      ∙ (unfold committed in refl)
