-- ===== src/Engine/Webhooks.antt =====
-- internal/engine/webhook.go and run.go: inbound deliveries, and the replay of dead letters.
--
-- The signature check of the connector, `VerifyWebhook`, is an argument of the handler.
pub mod Redelivered
use crm_bisync.Prelude.{
  ℕ, ◌+◌, ◌*◌, Bool, true, false, not, ◌&&◌, ◌||◌, Option, none, some, List, [], ◌∷◌, ◌++◌, Bytes,
  codes, str_eq, take, is_some, is_empty, ◌==◌, if◌then◌else◌,
}
use crm_bisync.Prelude.Sorting.{any_b}
use crm_bisync.Prelude.Dict.{Dict, lookup}
use crm_bisync.Prelude.Result.{Result, Exec, ok, err}
use crm_bisync.Model.{ChangeEvent}
use crm_bisync.Connector.{Failure, Kind, auth, kind_of}
use crm_bisync.Mapping.Transforms.{strip_prefix, or_whole}
use crm_bisync.Store.Typed.{seen_delivery}
use crm_bisync.Engine.Parts.{
  pure, ◌>>=◌, Setting, State, Method, Peer, Sync, peer_by_name, on_store, on_world, now,
}
use crm_bisync.Engine.Tasks.{Worker, submit}

abbrev pub delivery_ttl : ℕ
delivery_ttl = 24 * 3600 * 1000000000

abbrev pub max_webhook_body : ℕ
max_webhook_body = 4 * 1024 * 1024

abbrev pub peer_and : Option Peer → List Peer → List Peer
peer_and none rest = rest
peer_and (some p) rest = p ∷ rest

-- `peersNamed`
unfoldable pub peers_named : Bytes → Dict Sync → List Peer
peers_named name [] = []
peers_named name ((_, s) ∷ ss) = peer_and (peer_by_name s name) (peers_named name ss)

-- `syncsFor`
unfoldable pub syncs_for : Bytes → Bytes → Dict Sync → List Sync
syncs_for name kind [] = []
syncs_for name kind ((_, s) ∷ ss) =
    let rest = syncs_for name kind ss in
    if str_eq s.kind kind && is_some (peer_by_name s name) then s ∷ rest else rest

abbrev pub from_source : Bytes → ChangeEvent → ChangeEvent
from_source name ev = record ev { source = name }

-- A redelivery is told by the event within the delivery.
abbrev pub delivery_key : ChangeEvent → Bytes
delivery_key ev = ev.delivery_id ++ 0 ∷ ev.kind ++ 0 ∷ ev.remote_id

-- The events that were queued, and the errors
abbrev pub Ingested : Type 0
Ingested = ℕ × List Failure

module _ (E : Setting) where
  -- Whether an event was delivered before; one without an identifier never was.
  unfoldable pub delivered : Bytes → ChangeEvent → Method E Bool
  delivered name ev = if is_empty ev.delivery_id then pure E false else (do
    at ← now E
    on_store E (seen_delivery E.store at name (delivery_key ev) at (at + delivery_ttl)))

  unfoldable pub submit_to : List Sync → ChangeEvent → Worker E → ℕ × Worker E
  unfolding submit
  submit_to [] ev w = (0, w)
  submit_to (s ∷ ss) ev w = let (n, w') = submit_to ss ev (submit E s.name ev w).1 in (n + 1, w')

  abbrev pub ingest_unseen : ChangeEvent → Result Failure Bool → Worker E → Ingested × Worker E
  ingest_unseen ev (err f) w = ((0, f ∷ []), w)
  ingest_unseen ev (ok true) w = ((0, []), w)
  ingest_unseen ev (ok false) w =
      let (n, w') = submit_to (syncs_for ev.source ev.kind E.syncs) ev w in ((n, []), w')

  -- The body of the loop of `ingest`
  unfoldable pub ingest_one : Bytes → ChangeEvent → Worker E → Ingested × Worker E
  unfolding delivered submit_to syncs_for
  ingest_one name ev w =
      let (r, e) = delivered name ev w.engine in ingest_unseen ev r (record w { engine = e })

  abbrev pub both : Ingested → Ingested × Worker E → Ingested × Worker E
  both (n, fs) ((m, gs), w) = ((n + m, fs ++ gs), w)

  -- `ingest`
  unfoldable pub ingest : Bytes → List ChangeEvent → Worker E → Ingested × Worker E
  unfolding ingest_one
  ingest name [] w = ((0, []), w)
  ingest name (ev ∷ evs) w =
      let (r, w') = ingest_one name (from_source name ev) w in both r (ingest name evs w')

  pub record Request : Type 0 where
    pub is_post : Bool
    pub path : Bytes
    pub body : Option Bytes  -- none if it cannot be read

  abbrev pub is_auth : Kind → Bool
  is_auth auth = true
  is_auth _ = false

  abbrev pub replied_with : Ingested × Worker E → ℕ × Worker E
  replied_with ((n, []), w) = (202, w)
  replied_with ((n, _ ∷ _), w) = (500, w)

  abbrev pub verified : Bytes → Result Failure (List ChangeEvent) → Worker E → ℕ × Worker E
  verified name (err f) w = (if is_auth (kind_of f) then 401 else 400, w)
  verified name (ok evs) w = replied_with (ingest name evs w)

  abbrev pub with_body :
      (Bytes → Exec E.peers.World Failure (List ChangeEvent))
      → Bytes
      → Option Bytes
      → Worker E
      → ℕ × Worker E
  with_body verify name none w = (400, w)
  with_body verify name (some body) w =
      let (r, e) = on_world E (verify (take max_webhook_body body)) w.engine in
      verified name r (record w { engine = e })

  abbrev pub to_peer :
      (Bytes → Exec E.peers.World Failure (List ChangeEvent))
      → Request
      → Bytes
      → Worker E
      → ℕ × Worker E
  to_peer verify r name w =
      if is_empty name || any_b (λ c. c == b'/') name || is_empty (peers_named name E.syncs)
      then (404, w)
      else with_body verify name r.body w

  -- `serveWebhook`: the status of the response, and the engine after it
  unfoldable pub serve_webhook :
      (Bytes → Exec E.peers.World Failure (List ChangeEvent)) → Request → Worker E → ℕ × Worker E
  unfolding ingest peers_named strip_prefix
  serve_webhook verify r w =
      if not r.is_post
      then (405, w)
      else to_peer verify r (or_whole r.path (strip_prefix (codes "/webhook/") r.path)) w
