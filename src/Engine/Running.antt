-- ===== src/Engine/Running.antt =====
-- internal/engine/pipeline.go and run.go: deletions, the whole pipeline, dead letters, and what a
-- worker does with a task. Its cancelled context is a shutdown, a test of the world.
use crm_bisync.Prelude.{◌+◌, false, not, Option, none, some, [], ◌++◌, Bytes, codes, if◌then◌else◌}
use crm_bisync.Prelude.Dict.{lookup}
use crm_bisync.Prelude.Result.{Result, ok, err}
use crm_bisync.Model.{Record, ChangeEvent, hydrated}
use crm_bisync.Connector.{Failure, other, permanent, is_not_found}
use crm_bisync.Mapping.Directions.{writes_to}
use crm_bisync.Mapping.Fields.{to_canonical}
use crm_bisync.Store.Typed.{Ref, Link, get_link, peer, IdemResult}
use crm_bisync.Idem
use crm_bisync.Idem.{Decision, proceed, replayed, commit, abandon}
use crm_bisync.Engine.Parts.{
  pure, fail, ◌>>=◌, ◌>>◌, Setting, Method, Peer, Sync, peer_by_name, other_peer, Outcome, deleted,
  skipped, Planner, PlannedChange, delete, on_store, on_world, now, count, attempt, got, get,
}
use crm_bisync.Engine.Pipeline.{ref_text, begin_write, drop_link, plan_with}
use crm_bisync.Engine.Process.{read_record}

-- The deletion of a record: the sync, the peers, and the ref of what is gone
pub record Deletion : Type 0 where
  pub sync : Sync
  pub to : Peer
  pub source : Ref

module _ (E : Setting) where
  unfoldable pub delete_key : Deletion → Ref → Bytes
  delete_key d target = Idem.key E.formats d.sync.name d.sync.kind d.source target (codes "delete")

  -- The end of a deletion
  unfoldable pub finish_delete : Deletion → Ref → Method E Outcome
  finish_delete d target = do
    drop_link E d.source target
    count E (λ st. record st { deleted = st.deleted + 1 })
    pure E deleted

  abbrev pub delete_done : Ref → IdemResult
  delete_done target = record {
    remote_id = target.remote_id;
    created = false;
    in_flight = false;
    written_at = 0;
  }

  -- The call and its bookkeeping, if the decision is to proceed
  unfoldable pub delete_far : Deletion → Ref → Decision → Method E (Unit {0})
  delete_far d target proceed = do
    on_world E (E.peers.wait d.to.name)
    r ←
        attempt E
          (on_world E (E.peers.delete d.to.name d.sync.kind target.remote_id (delete_key d target)))
    got E d.to r
    at ← now E
    on_store E (commit E.store E.idem_ttl at (delete_key d target) (delete_done target))
  delete_far d target _ = pure E tt

  -- A delete whose outcome was not learned is taken up afresh.
  unfoldable pub fresh_decision : Deletion → Ref → Decision → Method E Decision
  fresh_decision d target Decision.recheck = do
    on_store E (abandon E.store (delete_key d target))
    again ← begin_write E (delete_key d target)
    pure E again.1
  fresh_decision d target decision = pure E decision

  unfoldable pub delete_live : Deletion → Ref → Method E Outcome
  unfolding delete_far fresh_decision finish_delete
  delete_live d target = do
    first ← begin_write E (delete_key d target)
    decision ← fresh_decision d target first.1
    delete_far d target decision
    finish_delete d target

  abbrev pub planned_delete : Deletion → Ref → PlannedChange
  planned_delete d target = record {
    sync = d.sync.name;
    action = delete;
    source = d.source;
    target = target;
    fields = [];
  }

  unfoldable pub delete_planned : Deletion → Ref → Planner → Method E Outcome
  unfolding finish_delete
  delete_planned d target p = do _ ← plan_with E (planned_delete d target) p; finish_delete d target

  abbrev pub live_or_planned : Deletion → Ref → Option Planner → Method E Outcome
  live_or_planned d target none = delete_live d target
  live_or_planned d target (some p) = delete_planned d target p

  unfoldable pub delete_peer : Deletion → Option Ref → Method E Outcome
  unfolding delete_live delete_planned
  delete_peer d none =
      fail E (permanent (other (codes "link for " ++ ref_text d.source ++ codes " names no peer")))
  delete_peer d (some target) = λ e. live_or_planned d target e.plan e

  unfoldable pub delete_linked : Deletion → Option Link → Method E Outcome
  unfolding delete_peer
  delete_linked d none = do count E (λ st. record st { skipped = st.skipped + 1 }); pure E skipped
  delete_linked d (some l) = delete_peer d (peer l d.source)

  -- `processDelete`
  unfoldable pub process_delete : Deletion → Method E Outcome
  unfolding delete_linked
  process_delete d = do
    at ← now E
    found ← on_store E (get_link E.store at d.source)
    delete_linked d found

  abbrev pub found_or_gone : Result Failure Record → Method E (Option Record)
  found_or_gone (ok rec) = pure E (some rec)
  found_or_gone (err f) = if is_not_found f then pure E none else fail E f

  -- `hydrate`
  unfoldable pub hydrate : Sync → Peer → ChangeEvent → Method E (Option Record)
  hydrate s from ev =
      if hydrated ev
      then pure E ev.body
      else (do r ← attempt E (get E from s.kind ev.remote_id); found_or_gone r)

  abbrev pub deletion_of : Sync → Peer → Peer → ChangeEvent → Deletion
  deletion_of s from to ev = record {
    sync = s;
    to = to;
    source = record { connector = from.name; kind = s.kind; remote_id = ev.remote_id };
  }

  unfoldable pub process_body : Sync → Peer → Peer → ChangeEvent → Option Record → Method E Outcome
  unfolding process_delete
  process_body s from to ev none = process_delete (deletion_of s from to ev)
  process_body s from to ev (some rec) =
      read_record E s from to rec (to_canonical E.letters s.mapper from.side rec)

  unfoldable pub process_from : Sync → Peer → Peer → ChangeEvent → Method E Outcome
  unfolding process_body hydrate
  process_from s from to ev =
      if not (writes_to s.mapper.direction to.side)
      then pure E skipped
      else if ev.deleted
      then process_delete (deletion_of s from to ev)
      else (do body ← hydrate s from ev; process_body s from to ev body)

  unfoldable pub process_in : Sync → ChangeEvent → Option Peer → Method E Outcome
  unfolding process_from
  process_in s ev none =
      fail E (permanent (other (s.name ++ codes ": no peer named " ++ E.texts.quoted ev.source)))
  process_in s ev (some from) = process_from s from (other_peer s from) ev

  unfoldable pub process_named : Bytes → ChangeEvent → Option Sync → Method E Outcome
  unfolding process_in
  process_named name ev none =
      fail E (permanent (other (codes "no sync named " ++ E.texts.quoted name)))
  process_named name ev (some s) = process_in s ev (peer_by_name s ev.source)

  -- `process`
  unfoldable pub process : Bytes → ChangeEvent → Method E Outcome
  unfolding process_named
  process name ev = process_named name ev (lookup name E.syncs)
