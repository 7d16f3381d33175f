-- ===== src/Engine/Pipeline/Tagging.antt =====
-- internal/engine/pipeline.go: `write` of an update, and the origin log.
use crm_bisync.Prelude.{
  ℕ, ◌+◌, ◌<◌, ◌≡◌, ◌≢◌, ◌∙◌, refl, ap, sym, true, false, Option, none, some, str_eq_refl,
  str_eq_iff, arith,
}
use crm_bisync.Prelude.Strings.{str_eq}
use crm_bisync.Prelude.Result.{ok, with_result}
use crm_bisync.Store.Defs.{IsLawful, live}
use crm_bisync.Store.Typed.{
  Document, origin, IdemResult, as_idem, decoded, coll_origins, coll_idem, origin_tag,
}
use crm_bisync.Connector.{WriteResult}
use crm_bisync.Idem.{commit}
use crm_bisync.Idem.Protocol.{
  mark, entry_of_lem, begin_all, begin-IsOpen, commit-IsOpen, commit_ok, view-commit_other,
}
use crm_bisync.Origin.{Suppressor, window_of, recent_marker}
use crm_bisync.Origin.Verdicts.{
  tagged, noted, note_write_lem, noted-IsOpen, tagged-noted, view-noted_other,
}
use crm_bisync.Engine.Parts.{◌>>=◌, Setting, State}
use crm_bisync.Engine.Pipeline.{
  Write, is_create, idem_key, payload_hash, record_origin, tag_known, tag_created, replied, upsert,
  deliver, decided, write,
}
use crm_bisync.Engine.Pipeline.Sending.{time_of, held, begun, IsLive, write_live, send_lem}

pub origins_apart : str_eq coll_origins coll_idem ≡ false
unfolding str_eq
origins_apart = refl

idem_apart : str_eq coll_idem coll_origins ≡ false
unfolding str_eq
idem_apart = refl

module _ (E : Setting) (L : IsLawful E.store) where
  -- The origin log as the suppressor of the engine's state
  abbrev pub log_of : State E → Suppressor E.store.State
  log_of e = record { store = e.store; stats = e.tags }

  abbrev pub window_end : Write → State E → ℕ
  window_end w e = time_of E L e + window_of E.windows w.target.connector

  -- The state after the tag of an update
  abbrev pub tagged_state : Write → State E → State E
  tagged_state w e = record e {
    store = noted E.store L (time_of E L e) (window_end w e) w.target (payload_hash E w) e.store;
    tags = record e.tags { recorded = e.tags.recorded + 1 };
  }

  tag_known_lem :
      (w : Write) (e : State E)
      → is_create w ≡ false
      → L.IsOpen e.store
      → tag_known E w e ≡ (ok tt, tagged_state w e)
  unfolding tag_known record_origin ◌>>=◌
  tag_known_lem w e known h =
      rw
        (
          known,
          note_write_lem E.store L E.windows (time_of E L e) w.target (payload_hash E w) (log_of e)
              h,
        )
        refl

  -- An update that is carried out, of which no earlier attempt is known, and that the rate limit lets
  -- through
  pub record IsUpdate (w : Write) (e : State E) : Type 0 where
    pub live : IsLive E L w e
    pub known : is_create w ≡ false
    pub fresh : held E L (time_of E L e) w e ≡ ok none
    pub admitted : (E.peers.wait w.to.name e.world).0 ≡ ok tt

  -- The state in which the request is made
  abbrev pub asking : Write → State E → State E
  asking w e = record (tagged_state w (begun E L w e)) {
    world = (E.peers.wait w.to.name e.world).1;
  }

  deliver_update :
      (w : Write) (e : State E)
      → is_create w ≡ false
      → L.IsOpen e.store
      → (E.peers.wait w.to.name e.world).0 ≡ ok tt
      → let asked : State E = record (tagged_state w e) {
        world = (E.peers.wait w.to.name e.world).1;
      } in
        deliver E w e ≡ replied E w (upsert E w asked).0 (upsert E w asked).1
  unfolding deliver ◌>>=◌
  deliver_update w e known h admitted =
      rw (tag_known_lem w e known h, with_result (E.peers.wait w.to.name e.world) admitted) refl

  pub begun-IsOpen : (w : Write) (e : State E) → IsUpdate w e → L.IsOpen (begun E L w e).store
  begun-IsOpen w e u =
      begin-IsOpen E.store L E.idem_ttl (time_of E L e) (idem_key E w) none e.store u.live.is_open
        u.fresh

  pub asking-IsOpen : (w : Write) (e : State E) → IsUpdate w e → L.IsOpen (asking w e).store
  asking-IsOpen w e u =
      noted-IsOpen E.store L (time_of E L e) (window_end w e) w.target (payload_hash E w)
        (begun E L w e).store (begun-IsOpen w e u)

  write_update :
      (w : Write) (e : State E)
      → IsUpdate w e
      → write E w e ≡ replied E w (upsert E w (asking w e)).0 (upsert E w (asking w e)).1
  unfolding decided ◌>>=◌
  write_update w e u =
      write_live E L w e u.live
      ∙ send_lem E L w e none u.live.is_open u.fresh
      ∙ deliver_update w (begun E L w e) u.known (begun-IsOpen w e u) u.admitted

  live_until : (e t : ℕ) → t < e → live e t ≡ true
  unfolding live
  live_until e t h = ground arith

  -- The tag of the payload, as the log has it
  abbrev pub tag_at : ℕ → Write → State E → Option Document
  tag_at t w e = tagged E.store L t w.target (payload_hash E w) (log_of e)

  abbrev pub tag_of : Write → ℕ → Document
  tag_of w at = origin (record { ref = w.target; hash = payload_hash E w; written_at = at })

  asking_tagged :
      (w : Write) (e : State E) (t : ℕ)
      → IsUpdate w e
      → payload_hash E w ≢ recent_marker
      → t < window_end w e
      → tag_at t w (asking w e) ≡ some (tag_of w (time_of E L e))
  asking_tagged w e t u plain soon =
      tagged-noted E.store L (time_of E L e) (window_end w e) w.target (payload_hash E w)
        (begun E L w e).store t (payload_hash E w) (begun-IsOpen w e u)
      ∙ rw (live_until (window_end w e) t soon, str_eq_refl (payload_hash E w))
          (ground (arith, str_eq_iff recent_marker (payload_hash E w)))

  asking_marked :
      (w : Write) (e : State E) (t : ℕ)
      → IsUpdate w e
      → t < time_of E L e + E.idem_ttl
      → held E L t w (asking w e) ≡ ok (some (mark (time_of E L e)))
  asking_marked w e t u soon =
      let from = (begun E L w e).store in
      let opened = begun-IsOpen w e u in
      entry_of_lem E.store L t (idem_key E w) (asking w e).store (asking-IsOpen w e u)
      ∙ ap (λ o. decoded as_idem o)
          (view-noted_other E.store L (time_of E L e) (window_end w e) w.target (payload_hash E w)
            from t coll_idem (idem_key E w) opened origins_apart)
      ∙ sym (entry_of_lem E.store L t (idem_key E w) from opened)
      ∙ (begin_all E.store L E.idem_ttl (time_of E L e) (idem_key E w) none e.store u.live.is_open
            u.fresh).1
          refl t
      ∙ rw (live_until (time_of E L e + E.idem_ttl) t soon) refl

  -- In an update that is carried out, of which the cache holds nothing and that the rate limit
  -- lets through, when the request is made the origin log holds the tag of its payload, before
  -- the end of the window, and the cache holds its mark in flight, before the ttl; the update is
  -- that request and what its reply leads to. The payload's digest is not the marker.
  pub tagged_before_request :
      (w : Write) (e : State E) (t : ℕ)
      → IsUpdate w e
      → payload_hash E w ≢ recent_marker
      → t < window_end w e
      → t < time_of E L e + E.idem_ttl
      → (asked : State E) × (write E w e ≡ replied E w (upsert E w asked).0 (upsert E w asked).1)
        × (asked.world ≡ (E.peers.wait w.to.name e.world).1)
        × (tag_at t w asked ≡ some (tag_of w (time_of E L e)))
        × (held E L t w asked ≡ ok (some (mark (time_of E L e))))
  tagged_before_request w e t u plain a b =
      (asking w e, write_update w e u, refl, asking_tagged w e t u plain a, asking_marked w e t u b)

  abbrev pub result_of : WriteResult → ℕ → IdemResult
  result_of res at = record {
    remote_id = res.remote_id;
    created = res.created;
    in_flight = false;
    written_at = at;
  }

  -- The state after the peer accepted the write
  abbrev pub accepted : Write → WriteResult → State E → State E
  accepted w res e =
      let world = E.peers.succeed w.to.name e.world in
      let at = E.peers.time world in
      record e {
        world = world;
        store = (commit E.store E.idem_ttl at (idem_key E w) (result_of res at) e.store).1;
      }

  replied-accepted :
      (w : Write) (res : WriteResult) (e : State E)
      → is_create w ≡ false
      → L.IsOpen e.store
      → replied E w (ok res) e ≡ (ok (res, true), accepted w res e)
  unfolding replied tag_created ◌>>=◌
  replied-accepted w res e known h =
      let at = E.peers.time (E.peers.succeed w.to.name e.world) in
      rw
        (
          known,
          with_result (commit E.store E.idem_ttl at (idem_key E w) (result_of res at) e.store)
              (commit_ok E.store L E.idem_ttl at (idem_key E w) (result_of res at) e.store h),
        )
        refl

  pub upsert_keeps : (w : Write) (e : State E) → (upsert E w e).1.store ≡ e.store
  unfolding upsert ◌>>=◌
  upsert_keeps w e = refl

  -- The state after an update that the peer accepted
  abbrev pub updated_state : Write → WriteResult → State E → State E
  updated_state w res e = accepted w res (upsert E w (asking w e)).1

  pub write_accepted :
      (w : Write) (res : WriteResult) (e : State E)
      → IsUpdate w e
      → (upsert E w (asking w e)).0 ≡ ok res
      → write E w e ≡ (ok (res, true), updated_state w res e)
  write_accepted w res e u done =
      write_update w e u
      ∙ ap (λ r. replied E w r (upsert E w (asking w e)).1) done
      ∙ replied-accepted w res (upsert E w (asking w e)).1 u.known
          (rw (upsert_keeps w (asking w e)) (asking-IsOpen w e u))

  pub updated-IsOpen :
      (w : Write) (res : WriteResult) (e : State E)
      → IsUpdate w e
      → L.IsOpen (updated_state w res e).store
  updated-IsOpen w res e u =
      commit-IsOpen E.store L E.idem_ttl _ (idem_key E w) _ (upsert E w (asking w e)).1.store
        (rw (upsert_keeps w (asking w e)) (asking-IsOpen w e u))

  pub updated_tagged :
      (w : Write) (res : WriteResult) (e : State E) (t : ℕ)
      → IsUpdate w e
      → payload_hash E w ≢ recent_marker
      → t < window_end w e
      → tag_at t w (updated_state w res e) ≡ some (tag_of w (time_of E L e))
  updated_tagged w res e t u plain soon =
      (view-commit_other E.store L E.idem_ttl _ (idem_key E w) _ (upsert E w (asking w e)).1.store t
        coll_origins (origin_tag w.target (payload_hash E w))
        (rw (upsert_keeps w (asking w e)) (asking-IsOpen w e u)) idem_apart)
      ∙ rw (upsert_keeps w (asking w e)) (asking_tagged w e t u plain soon)
