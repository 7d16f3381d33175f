-- ===== src/Engine/DryRuns/Writing.antt =====
-- internal/engine/pipeline.go in a dry run: writes, and what is recorded of a pair.
use crm_bisync.Prelude.{
  ℕ, ◌≡◌, refl, Bool, true, Option, none, some, Bytes, is_some, is_empty, if_both,
}
use crm_bisync.Prelude.Dict.{Dict}
use crm_bisync.Prelude.Result.{Result, ok, err}
use crm_bisync.Model.{Value}
use crm_bisync.Connector.{Failure, WriteResult}
use crm_bisync.Store.Typed.{Ref, Link, QueueItem}
use crm_bisync.Engine.Parts.{Setting, State, Method, Sync, Planner, Payload, PlannedChange}
use crm_bisync.Engine.Pipeline.{
  Write, write, send, planned_or, plan_write, plan_with, target_fields, commit_side, commit_pair,
  delete_found, forget, drop_link, put_review, ask_once, queue_review,
}
use crm_bisync.Engine.Running.{
  Deletion, live_or_planned, finish_delete, delete_planned, delete_peer, delete_linked,
  process_delete,
}
use crm_bisync.Engine.DryRuns.{IsKeptByReads, IsDry, Quiet, quiet_rules}

module _ (E : Setting) (P : E.peers.World → Type 0) (K : IsKeptByReads E P) where
  abbrev Calm : {A : Type 0} → Method E A → Type 0
  Calm = Quiet E P K

  quiet_plan_with : (c : PlannedChange) (p : Planner) → Calm (plan_with E c p)
  quiet_plan_with c p = record { keeps = λ e d. record { planned = refl; holds = d.holds } }

  quiet_plan_write : (w : Write) (p : Planner) → Calm (plan_write E w p)
  unfolding plan_write
  quiet_plan_write w p = search (quiet_rules, quiet_plan_with)

  quiet_planned_or :
      (w : Write) (o : Option Planner) (e : State E)
      → is_some o ≡ true
      → IsDry E P K e
      → IsDry E P K (planned_or E (plan_write E w) (send E w) o e).1
  quiet_planned_or w none e s d = cc
  quiet_planned_or w (some p) e s d = (quiet_plan_write w p).keeps e d

  pub quiet_write : (w : Write) → Calm (write E w)
  unfolding write
  quiet_write w = record {
    keeps = λ e d.
        if_both (λ (r : Result Failure (WriteResult × Bool) × State E). IsDry E P K r.1)
          (is_empty (target_fields w)) d (quiet_planned_or w e.plan e d.planned d);
  }

  quiet_commit_side :
      (s : Sync) (at : ℕ) (r : Ref) (values : Dict Value) → Calm (commit_side E s at r values)
  unfolding commit_side
  quiet_commit_side s at r values = search (quiet_rules)

  pub quiet_commit_pair :
      (s : Sync) (l r : Ref) (lv rv : Dict Value) → Calm (commit_pair E s l r lv rv)
  unfolding commit_pair
  quiet_commit_pair s l r lv rv = search (quiet_rules, quiet_commit_side)

  quiet_delete_found : (l : Option Link) → Calm (delete_found E l)
  unfolding delete_found
  quiet_delete_found none = search quiet_rules
  quiet_delete_found (some l) = search quiet_rules

  quiet_forget : (at : ℕ) (r : Ref) → Calm (forget E at r)
  unfolding forget
  quiet_forget at r = search (quiet_rules)

  pub quiet_drop_link : (a b : Ref) → Calm (drop_link E a b)
  unfolding drop_link
  quiet_drop_link a b = search (quiet_rules, quiet_delete_found, quiet_forget)

  quiet_put_review :
      (s : Sync) (id : Bytes) (r : Ref) (reason : Bytes) (raw : Result Bytes Bytes)
      → Calm (put_review E s id r reason raw)
  unfolding put_review
  quiet_put_review s id r reason (err x) = search quiet_rules
  quiet_put_review s id r reason (ok raw) = search quiet_rules

  quiet_ask_once :
      (s : Sync) (id : Bytes) (r : Ref) (reason : Bytes) (payload : Payload)
      (found : Option QueueItem)
      → Calm (ask_once E s id r reason payload found)
  unfolding ask_once
  quiet_ask_once s id r reason payload (some i) = search quiet_rules
  quiet_ask_once s id r reason payload none = search (quiet_rules, quiet_put_review)

  pub quiet_queue_review :
      (s : Sync) (subject : Bytes) (r : Ref) (reason : Bytes) (payload : Payload)
      → Calm (queue_review E s subject r reason payload)
  unfolding queue_review
  quiet_queue_review s subject r reason payload = search (quiet_rules, quiet_ask_once)

  quiet_finish_delete : (d : Deletion) (target : Ref) → Calm (finish_delete E d target)
  unfolding finish_delete
  quiet_finish_delete d target = search (quiet_rules, quiet_drop_link)

  quiet_delete_planned :
      (d : Deletion) (target : Ref) (p : Planner) → Calm (delete_planned E d target p)
  unfolding delete_planned
  quiet_delete_planned d target p = search (quiet_rules, quiet_plan_with, quiet_finish_delete)

  quiet_live_or_planned :
      (d : Deletion) (target : Ref) (o : Option Planner) (e : State E)
      → is_some o ≡ true
      → IsDry E P K e
      → IsDry E P K (live_or_planned E d target o e).1
  quiet_live_or_planned d target none e s q = cc
  quiet_live_or_planned d target (some p) e s q = (quiet_delete_planned d target p).keeps e q

  quiet_delete_peer : (d : Deletion) (o : Option Ref) → Calm (delete_peer E d o)
  unfolding delete_peer
  quiet_delete_peer d none = search quiet_rules
  quiet_delete_peer d (some target) = record {
    keeps = λ e q. quiet_live_or_planned d target e.plan e q.planned q;
  }

  quiet_delete_linked : (d : Deletion) (l : Option Link) → Calm (delete_linked E d l)
  unfolding delete_linked
  quiet_delete_linked d none = search quiet_rules
  quiet_delete_linked d (some l) = search (quiet_rules, quiet_delete_peer)

  pub quiet_process_delete : (d : Deletion) → Calm (process_delete E d)
  unfolding process_delete
  quiet_process_delete d = search (quiet_rules, quiet_delete_linked)
