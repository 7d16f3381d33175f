-- ===== src/Engine/Process/Echoes.antt =====
-- internal/engine/pipeline.go: the stages before the resolution, for a change that the engine caused
-- itself.
use crm_bisync.Prelude.{◌<◌, ◌≡◌, ◌≢◌, ◌∙◌, refl, ap, some, true}
use crm_bisync.Prelude.Result.{ok}
use crm_bisync.Store.Defs.{IsLawful}
use crm_bisync.Store.Typed.{Origin, origin}
use crm_bisync.Connector.{WriteResult}
use crm_bisync.Origin.{recent_marker, processed}
use crm_bisync.Origin.Verdicts.{tagged, classify_lem}
use crm_bisync.Engine.Parts.{◌>>=◌, Setting, State, echo}
use crm_bisync.Engine.Pipeline.{Write, payload_hash, write, upsert}
use crm_bisync.Engine.Pipeline.Sending.{time_of}
use crm_bisync.Engine.Pipeline.Tagging.{
  IsUpdate, asking, window_end, updated_state, updated-IsOpen, updated_tagged, write_accepted,
  log_of, tag_of,
}
use crm_bisync.Engine.Process.{Change, filtered, after_verdict}

module _ (E : Setting) (L : IsLawful E.store) where
  filtered_echo :
      (c : Change) (e : State E) (x : Origin)
      → L.IsOpen e.store
      → c.hash ≢ recent_marker
      → tagged E.store L (time_of E L e) c.source c.hash (log_of E L e) ≡ some (origin x)
      → ((filtered E c e).0 ≡ ok echo) × ((filtered E c e).1.world ≡ e.world)
  unfolding filtered after_verdict processed ◌>>=◌
  filtered_echo c e x h plain found =
      rw (classify_lem E.store L (time_of E L e) c.source c.hash (log_of E L e) h plain, found)
        (refl, refl)

  -- What an event is to come to that carries back what a write sent.
  pub record Carries (w : Write) (c : Change) : Type 0 where
    pub same_record : c.source ≡ w.target
    pub same_payload : c.hash ≡ payload_hash E w
    pub plain : payload_hash E w ≢ recent_marker

  -- After an update that is carried out and that the peer accepts, a change of the same record
  -- with the same payload, which reaches the filter on the same store before the end of the
  -- window, is an echo, and the filter makes no call of a peer.
  pub own_update_is_echo :
      (w : Write) (res : WriteResult) (e later : State E) (c : Change)
      → IsUpdate E L w e
      → (upsert E w (asking E L w e)).0 ≡ ok res
      → Carries w c
      → later.store ≡ (write E w e).1.store
      → time_of E L later < window_end E L w e
      → ((write E w e).0 ≡ ok (res, true))
        × ((filtered E c later).0 ≡ ok echo)
        × ((filtered E c later).1.world ≡ later.world)
  own_update_is_echo w res e later c u done carries same soon =
      let sent = write_accepted E L w res e u done in
      let here : later.store ≡ (updated_state E L w res e).store =
        same ∙ ap (λ p. p.1.store) sent in
      let there : tagged E.store L (time_of E L later) c.source c.hash (log_of E L later)
          ≡ some (tag_of E L w (time_of E L e)) =
        rw (carries.same_record, carries.same_payload, here)
          (updated_tagged E L w res e (time_of E L later) u carries.plain soon) in
      let (is_echo, quiet) =
        filtered_echo c later _ (rw here (updated-IsOpen E L w res e u))
          (rw carries.same_payload carries.plain) there in
      (ap (λ p. p.0) sent, is_echo, quiet)
