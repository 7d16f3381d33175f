-- ===== src/Engine/Pipeline.antt =====
-- internal/engine/pipeline.go: writes, and what is recorded of a pair.
pub mod Sending
pub mod Tagging
pub mod Swallowed
pub mod Asking
use crm_bisync.Prelude.{
  ℕ, ◌+◌, Bool, true, false, not, ◌&&◌, Option, none, some, List, [], ◌∷◌, ◌++◌, Bytes, codes,
  str_eq, take, is_some, is_empty, if◌then◌else◌,
}
use crm_bisync.Prelude.Dict.{Dict, lookup, insert}
use crm_bisync.Prelude.Result.{Result, ok, err}
use crm_bisync.Model.{Value, Record, snapshot_hash, hex}
use crm_bisync.Connector.{Failure, other, recheck, permanent, WriteResult, answered}
use crm_bisync.Mapping.Fields.{from_canonical, writable_names}
use crm_bisync.Store.Typed.{
  Ref, Link, key, put_link, delete_link, get_link, Snapshot, set_snapshot, get_snapshot, IdemResult,
  QueueItem, get_queue_item, put_queue_item, coll_review, coll_snapshots,
}
use crm_bisync.Idem
use crm_bisync.Idem.{Decision, proceed, replayed, begin, commit, abandon}
use crm_bisync.Origin.{note_write}
use crm_bisync.Identity
use crm_bisync.Engine.Parts.{
  pure, fail, ◌>>=◌, ◌>>◌, Setting, Engine, State, Method, Stats, Peer, Sync, Outcome, reviewed,
  Planner, PlannedChange, PlanAction, create, update, plan_change, named_values, Payload, on_store,
  on_origin, on_world, change_world, now, count, attempt, note_failure,
}

-- `merge`: the values over the base
unfoldable pub merge : Dict Value → Dict Value → Dict Value
merge base [] = base
merge base ((k, v) ∷ values) = insert k v (merge base values)

-- `only`
unfoldable pub only : Dict Value → List Bytes → Dict Value
only values [] = []
only values (n ∷ ns) = elim (lookup n values) [
  | some v ↦ insert n v (only values ns)
  | none ↦ only values ns
]

abbrev pub no_write : WriteResult × Bool
no_write = (record { remote_id = []; created = false; version = []; updated_at = 0 }, false)

-- `String` of a ref
unfoldable pub ref_text : Ref → Bytes
ref_text r = r.connector ++ codes ":" ++ r.kind ++ codes "/" ++ r.remote_id

unfoldable pub ref_texts : List Ref → List Bytes
unfolding ref_text
ref_texts [] = []
ref_texts (r ∷ rs) = ref_text r ∷ ref_texts rs

-- One write: the sync, the peer that it goes to, and the refs and values of the call.
pub record Write : Type 0 where
  pub sync : Sync
  pub to : Peer
  pub target : Ref
  pub source : Ref
  pub values : Dict Value
  pub base : Dict Value

abbrev pub is_create : Write → Bool
is_create w = is_empty w.target.remote_id

unfoldable pub target_fields : Write → Dict Value
target_fields w = from_canonical w.sync.mapper w.to.side w.values

unfoldable pub upserted : Write → Record
unfolding target_fields
upserted w = record {
  kind = w.sync.kind;
  remote_id = w.target.remote_id;
  fields = target_fields w;
  updated_at = 0;
  version = [];
}

unfoldable pub planned_change : Write → PlannedChange
unfolding only
planned_change w = record {
  sync = w.sync.name;
  action = if is_create w then create else update;
  source = w.source;
  target = w.target;
  fields = named_values (only w.values (writable_names w.sync.mapper w.to.side));
}

-- A create is given the identifier of its plan.
abbrev pub planned_result : Write → Bytes → WriteResult
planned_result w id =
    if is_create w
    then record no_write.0 { remote_id = id; created = true }
    else record no_write.0 { remote_id = w.target.remote_id }

unfoldable pub created_ref : Write → WriteResult → Ref
created_ref w res = record { connector = w.to.name; kind = w.sync.kind; remote_id = res.remote_id }

module _ (E : Setting) where
  -- The digest of what the record is to look like afterwards
  unfoldable pub payload_hash : Write → Bytes
  unfolding merge
  payload_hash w = snapshot_hash E.formats (merge w.base w.values) w.sync.canonical

  unfoldable pub idem_key : Write → Bytes
  unfolding payload_hash
  idem_key w = Idem.key E.formats w.sync.name w.sync.kind w.source w.target (payload_hash w)

  -- `recordOrigin`
  unfoldable pub record_origin : Ref → Bytes → Method E (Unit {0})
  record_origin r hash = do at ← now E; on_origin E (note_write E.store E.windows at r hash)

  unfoldable pub begin_write : Bytes → Method E (IdemResult × Decision)
  begin_write k = do at ← now E; on_store E (begin E.store E.idem_ttl at k)

  -- The abandoning after an answer; its own failure is only logged.
  unfoldable pub clear_mark : Bytes → Failure → Method E (Unit {0})
  clear_mark k f =
      if answered f
      then (do _ ← attempt E (on_store E (abandon E.store k)); pure E tt)
      else pure E tt

  unfoldable pub tag_known : Write → Method E (Unit {0})
  unfolding record_origin
  tag_known w = if is_create w then pure E tt else record_origin w.target (payload_hash w)

  unfoldable pub tag_created : Write → WriteResult → Method E (Unit {0})
  unfolding record_origin
  tag_created w res =
      if is_create w then record_origin (created_ref w res) (payload_hash w) else pure E tt

  -- What the peer's reply to the write leads to
  unfoldable pub replied : Write → Result Failure WriteResult → Method E (WriteResult × Bool)
  unfolding clear_mark tag_created
  replied w (err f) = do note_failure E w.to f; clear_mark (idem_key w) f; fail E f
  replied w (ok res) = do
    change_world E (E.peers.succeed w.to.name)
    tag_created w res
    at ← now E
    on_store E (
        commit E.store E.idem_ttl at (idem_key w) (record {
          remote_id = res.remote_id;
          created = res.created;
          in_flight = false;
          written_at = at;
        }))
    pure E (res, true)

  unfoldable pub upsert : Write → Method E WriteResult
  unfolding upserted
  upsert w = on_world E (E.peers.upsert w.to.name w.sync.kind (upserted w) (idem_key w))

  -- The write from the origin tag on
  unfoldable pub deliver : Write → Method E (WriteResult × Bool)
  unfolding tag_known upsert replied
  deliver w = do
    tag_known w
    on_world E (E.peers.wait w.to.name)
    r ← attempt E (upsert w)
    replied w r

  -- What the cache's decision leads to
  unfoldable pub decided : Write → IdemResult × Decision → Method E (WriteResult × Bool)
  unfolding deliver begin_write
  decided w (previous, replayed) =
      pure E
        (record no_write.0 { remote_id = previous.remote_id; created = previous.created }, true)
  decided w (previous, proceed) = deliver w
  decided w (previous, Decision.recheck) =
      if is_create w
      then fail E recheck
      else (do on_store E (abandon E.store (idem_key w)); begin_write (idem_key w); deliver w)

  unfoldable pub send : Write → Method E (WriteResult × Bool)
  unfolding decided
  send w = do d ← begin_write (idem_key w); decided w d

  abbrev pub plan_with : PlannedChange → Planner → Method E Bytes
  plan_with c p e = let (id, p') = plan_change c p in (ok id, record e { plan = some p' })

  unfoldable pub plan_write : Write → Planner → Method E (WriteResult × Bool)
  unfolding planned_change
  plan_write w p = do id ← plan_with (planned_change w) p; pure E (planned_result w id, true)

  abbrev pub planned_or :
      (Planner → Method E (WriteResult × Bool))
      → Method E (WriteResult × Bool)
      → Option Planner
      → Method E (WriteResult × Bool)
  planned_or plan live none = live
  planned_or plan live (some p) = plan p

  -- `write`
  unfoldable pub write : Write → Method E (WriteResult × Bool)
  unfolding send plan_write target_fields
  write w e =
      if is_empty (target_fields w)
      then (ok no_write, e)
      else planned_or (plan_write w) (send w) e.plan e

  -- A side of a pair, with what it holds after the resolution
  unfoldable pub commit_side : Sync → ℕ → Ref → Dict Value → Method E (Unit {0})
  commit_side s at r values = do
    on_store E (
        set_snapshot E.store r
          (record { hash = snapshot_hash E.formats values s.canonical; values = values; at = at }))
    on_store E (Identity.index E.formats E.store s.identity at r values)

  -- `commitPair`
  unfoldable pub commit_pair : Sync → Ref → Ref → Dict Value → Dict Value → Method E (Unit {0})
  unfolding commit_side
  commit_pair s left right left_values right_values = do
    at ← now E
    on_store E (put_link E.store (record { left = left; right = right; linked_at = at }))
    commit_side s at left left_values
    commit_side s at right right_values

  unfoldable pub delete_found : Option Link → Method E (Unit {0})
  delete_found none = pure E tt
  delete_found (some l) = on_store E (delete_link E.store l)

  unfoldable pub forget : ℕ → Ref → Method E (Unit {0})
  forget at r = do
    on_store E (Identity.deindex E.formats E.store at r)
    on_store E (E.store.delete coll_snapshots (key r))

  -- `dropLink`
  unfoldable pub drop_link : Ref → Ref → Method E (Unit {0})
  unfolding delete_found forget
  drop_link a b = do
    at ← now E
    found ← on_store E (get_link E.store at a)
    delete_found found
    forget at a
    forget at b

  -- `reviewID`
  unfoldable pub review_id : Bytes → Bytes → Bytes
  review_id sync subject = codes "review-" ++ hex (take 16 (E.formats.sha256 (sync ++ 0 ∷ subject)))

  abbrev pub review_item : Sync → Bytes → Ref → Bytes → ℕ → Bytes → QueueItem
  review_item s id r reason at raw = record {
    id = id;
    sync = s.name;
    ref = r;
    reason = reason;
    created_at = at;
    attempts = 0;
    payload = raw;
  }

  unfoldable pub put_review : Sync → Bytes → Ref → Bytes → Result Bytes Bytes → Method E Outcome
  put_review s id r reason (err text) =
      fail E (other (codes "engine: encode review payload: " ++ text))
  put_review s id r reason (ok raw) = do
    at ← now E
    on_store E (put_queue_item E.store coll_review (review_item s id r reason at raw))
    count E (λ st. record st { reviewed = st.reviewed + 1 })
    pure E reviewed

  -- The question is asked once.
  unfoldable pub ask_once :
      Sync → Bytes → Ref → Bytes → Payload → Option QueueItem → Method E Outcome
  unfolding put_review
  ask_once s id r reason payload (some _) = pure E reviewed
  ask_once s id r reason payload none = put_review s id r reason (E.texts.encode payload)

  -- `queueReview`
  unfoldable pub queue_review : Sync → Bytes → Ref → Bytes → Payload → Method E Outcome
  unfolding review_id ask_once
  queue_review s subject r reason payload = do
    let id = review_id s.name subject
    at ← now E
    found ← on_store E (get_queue_item E.store at coll_review id)
    ask_once s id r reason payload found
