-- ===== src/Engine/DryRuns.antt =====
-- internal/engine/pipeline.go in a dry run: what reaches the peers.
pub mod Writing
pub mod Processing
use crm_bisync.Prelude.{
  ℕ, ◌≡◌, refl, Bool, true, false, not, ◌&&◌, Option, none, some, List, [], ◌∷◌, Bytes, str_eq,
  is_some, is_empty, Bool-cases, inl, inr, if◌then◌else◌,
}
use crm_bisync.Prelude.Dict.{Dict, lookup}
use crm_bisync.Prelude.Result.{Result, Exec, ok, err, continue}
use crm_bisync.Model.{Value, Record, ChangeEvent, hydrated}
use crm_bisync.Connector.{Failure, kind_of, retry_after_of}
use crm_bisync.Mapping.Directions.{writes_to, bidirectional}
use crm_bisync.Mapping.Fields.{Problem, to_canonical}
use crm_bisync.Store.Typed.{Ref, Link, peer, QueueItem}
use crm_bisync.Store.Defs.{StoreErr}
use crm_bisync.Origin
use crm_bisync.Origin.{Suppressor, Verdict, near_miss, processed}
use crm_bisync.Identity
use crm_bisync.Conflict.Terms
use crm_bisync.Engine.Parts.{
  pure, fail, ◌>>=◌, ◌>>◌, Setting, State, Engine, Method, Peer, Sync, Outcome, Planner, Payload,
  on_store, on_origin, on_world, change_world, now, count, attempt, note_failure, got, get, Stats,
  is_rate_limited, PlannedChange, peer_by_name, other_peer,
}
use crm_bisync.Engine.Pipeline.{
  Write, write, plan_write, plan_with, planned_result, target_fields, commit_side, commit_pair,
  delete_found, forget, drop_link, put_review, ask_once, queue_review,
}
use crm_bisync.Engine.Process.{
  Change, commit_created, created_or_not, create, carry_out, reconciled, act, settle, with_far,
  far_read, compare, reconcile, to_target, matched, resolve_and_act, after_verdict, filtered,
  read_record,
}
use crm_bisync.Engine.Running.{
  Deletion, finish_delete, delete_planned, delete_peer, delete_linked, process_delete, hydrate,
  process_body, process_from, process_in, process_named, process,
}

-- A property of the peers that reading keeps: waiting for the rate limit, reading a record, and what
-- the limiter hears of it.
pub record IsKeptByReads (E : Setting) (P : E.peers.World → Type 0) : Type 0 where
  pub wait : (name : Bytes) (w : E.peers.World) → P w → P (E.peers.wait name w).1
  pub succeed : (name : Bytes) (w : E.peers.World) → P w → P (E.peers.succeed name w)
  pub reject : (name : Bytes) (n : ℕ) (w : E.peers.World) → P w → P (E.peers.reject name n w)
  pub get : (name kind id : Bytes) (w : E.peers.World) → P w → P (E.peers.get name kind id w).1

module _ (E : Setting) (P : E.peers.World → Type 0) (K : IsKeptByReads E P) where
  -- A dry run in which the property holds
  pub record IsDry (e : State E) : Type 0 where
    pub planned : is_some e.plan ≡ true
    pub holds : P e.world

  -- A method that leaves such a run such a run
  pub record Quiet {A : Type 0} (m : Method E A) : Type 0 where
    pub keeps : (e : State E) → IsDry e → IsDry (m e).1

  Quiet-continue :
      {A B : Type 0} (f : A → Method E B) (p : Result Failure A × State E)
      → ((a : A) → Quiet (f a))
      → IsDry p.1
      → IsDry (continue f p).1
  Quiet-continue f (ok a, e) q d = (q a).keeps e d
  Quiet-continue f (err x, e) q d = d

  pub Quiet-bind :
      {A B : Type 0} (m : Method E A) (f : A → Method E B)
      → Quiet m
      → ((a : A) → Quiet (f a))
      → Quiet (m >>= f)
  unfolding ◌>>=◌
  Quiet-bind m f q r = record { keeps = λ e d. Quiet-continue f (m e) r (q.keeps e d) }

  pub Quiet-on_store : {A : Type 0} (m : Exec E.store.State StoreErr A) → Quiet (on_store E m)
  unfolding on_store
  Quiet-on_store m = record { keeps = λ e d. record { planned = d.planned; holds = d.holds } }

  pub Quiet-on_origin :
      {A : Type 0} (m : Exec (Suppressor E.store.State) StoreErr A) → Quiet (on_origin E m)
  unfolding on_origin
  Quiet-on_origin m = record { keeps = λ e d. record { planned = d.planned; holds = d.holds } }

  pub Quiet-count : (f : Stats → Stats) → Quiet (count E f)
  unfolding count
  Quiet-count f = record { keeps = λ e d. record { planned = d.planned; holds = d.holds } }

  pub Quiet-pure : {A : Type 0} (a : A) → Quiet (pure E a)
  unfolding pure
  Quiet-pure a = record { keeps = λ e d. d }

  pub Quiet-fail : {A : Type 0} (f : Failure) → Quiet (fail E {A = A} f)
  unfolding fail
  Quiet-fail f = record { keeps = λ e d. d }

  pub Quiet-now : Quiet (now E)
  unfolding now
  Quiet-now = record { keeps = λ e d. d }

  pub Quiet-attempt : {A : Type 0} (m : Method E A) → Quiet m → Quiet (attempt E m)
  unfolding attempt
  Quiet-attempt m q = record { keeps = λ e d. q.keeps e d }

  pub Quiet-if :
      {A : Type 0} (b : Bool) (m n : Method E A) → Quiet m → Quiet n → Quiet (if b then m else n)
  Quiet-if true m n q r = q
  Quiet-if false m n q r = r

  pub ruleset quiet_rules = (
    Quiet-bind, Quiet-on_store, Quiet-on_origin, Quiet-count, Quiet-pure, Quiet-fail, Quiet-now,
    Quiet-attempt, Quiet-if,
  )

  Quiet-wait : (name : Bytes) → Quiet (on_world E (E.peers.wait name))
  unfolding on_world
  Quiet-wait name = record {
    keeps = λ e d. record { planned = d.planned; holds = K.wait name e.world d.holds };
  }

  Quiet-succeed : (name : Bytes) → Quiet (change_world E (E.peers.succeed name))
  unfolding change_world
  Quiet-succeed name = record {
    keeps = λ e d. record { planned = d.planned; holds = K.succeed name e.world d.holds };
  }

  Quiet-reject : (name : Bytes) (n : ℕ) → Quiet (change_world E (E.peers.reject name n))
  unfolding change_world
  Quiet-reject name n = record {
    keeps = λ e d. record { planned = d.planned; holds = K.reject name n e.world d.holds };
  }

  Quiet-read : (name kind id : Bytes) → Quiet (on_world E (E.peers.get name kind id))
  unfolding on_world
  Quiet-read name kind id = record {
    keeps = λ e d. record { planned = d.planned; holds = K.get name kind id e.world d.holds };
  }

  Quiet-note : (p : Peer) (f : Failure) → Quiet (note_failure E p f)
  unfolding note_failure
  Quiet-note p f = search (quiet_rules, Quiet-reject)

  Quiet-got : {A : Type 0} (p : Peer) (r : Result Failure A) → Quiet (got E p r)
  unfolding got
  Quiet-got p (err f) = search (quiet_rules, Quiet-note)
  Quiet-got p (ok a) = search (quiet_rules, Quiet-succeed)

  pub Quiet-get : (p : Peer) (kind id : Bytes) → Quiet (get E p kind id)
  unfolding get
  Quiet-get p kind id = search (quiet_rules, Quiet-wait, Quiet-read, Quiet-got)
