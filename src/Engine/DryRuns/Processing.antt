-- ===== src/Engine/DryRuns/Processing.antt =====
-- internal/engine/pipeline.go in a dry run: the pipeline from a change to its outcome.
use crm_bisync.Prelude.{◌≡◌, Bool, true, false, Option, none, some, List, Bytes, is_some}
use crm_bisync.Prelude.Dict.{Dict, lookup}
use crm_bisync.Prelude.Result.{Result, ok, err}
use crm_bisync.Model.{Value, Record, ChangeEvent}
use crm_bisync.Connector.{Failure, WriteResult}
use crm_bisync.Mapping.Fields.{Problem}
use crm_bisync.Store.Typed.{Ref}
use crm_bisync.Origin.{Verdict, near_miss}
use crm_bisync.Identity
use crm_bisync.Conflict.Terms
use crm_bisync.Engine.Parts.{Setting, State, Method, Peer, Sync}
use crm_bisync.Engine.Process.{
  Change, count_near_miss, commit_created, created_or_not, create, carry_out, reconciled, act,
  settle, with_far, far_read, compare, reconcile, to_target, matched, resolve_and_act,
  after_verdict, filtered, read_record,
}
use crm_bisync.Engine.Running.{
  found_or_gone, hydrate, process_body, process_from, process_in, process_named, process,
}
use crm_bisync.Engine.DryRuns.{IsKeptByReads, Quiet, Quiet-get, quiet_rules}
use crm_bisync.Engine.DryRuns.Writing.{
  quiet_write, quiet_commit_pair, quiet_drop_link, quiet_queue_review, quiet_process_delete,
}

module _ (E : Setting) (P : E.peers.World → Type 0) (K : IsKeptByReads E P) where
  abbrev Calm : {A : Type 0} → Method E A → Type 0
  Calm = Quiet E P K

  quiet_commit_created : (c : Change) (target : Ref) → Calm (commit_created E c target)
  unfolding commit_created
  quiet_commit_created c target = search (quiet_rules, quiet_commit_pair)

  quiet_created_or_not : (c : Change) (reply : WriteResult × Bool) → Calm (created_or_not E c reply)
  unfolding created_or_not
  quiet_created_or_not c (res, false) = search quiet_rules
  quiet_created_or_not c (res, true) = search (quiet_rules, quiet_commit_created)

  quiet_create : (c : Change) → Calm (create E c)
  unfolding create
  quiet_create c = search (quiet_rules, quiet_write, quiet_created_or_not)

  quiet_carry_out :
      (s : Sync) (l r : Ref) (lv rv : Terms.State) (res : Terms.Resolution) (a : Terms.Action)
      → Calm (carry_out E s l r lv rv res a)
  unfolding carry_out
  quiet_carry_out s l r lv rv res Terms.nothing = search quiet_rules
  quiet_carry_out s l r lv rv res Terms.write_left = search (quiet_rules, quiet_write)
  quiet_carry_out s l r lv rv res Terms.write_right = search (quiet_rules, quiet_write)
  quiet_carry_out s l r lv rv res Terms.write_both = search (quiet_rules, quiet_write)
  quiet_carry_out s l r lv rv res Terms.escalate = search quiet_rules

  quiet_reconciled : (a : Terms.Action) → Calm (reconciled E a)
  unfolding reconciled
  quiet_reconciled Terms.nothing = search quiet_rules
  quiet_reconciled Terms.write_left = search quiet_rules
  quiet_reconciled Terms.write_right = search quiet_rules
  quiet_reconciled Terms.write_both = search quiet_rules
  quiet_reconciled Terms.escalate = search quiet_rules

  quiet_act :
      (c : Change) (target l r : Ref) (lv rv : Terms.State) (res : Terms.Resolution)
      (a : Terms.Action)
      → Calm (act E c target l r lv rv res a)
  unfolding act
  quiet_act c target l r lv rv res Terms.nothing =
      search (quiet_rules, quiet_commit_pair, quiet_reconciled)
  quiet_act c target l r lv rv res Terms.write_left =
      search (quiet_rules, quiet_carry_out, quiet_commit_pair, quiet_reconciled)
  quiet_act c target l r lv rv res Terms.write_right =
      search (quiet_rules, quiet_carry_out, quiet_commit_pair, quiet_reconciled)
  quiet_act c target l r lv rv res Terms.write_both =
      search (quiet_rules, quiet_carry_out, quiet_commit_pair, quiet_reconciled)
  quiet_act c target l r lv rv res Terms.escalate = search (quiet_rules, quiet_queue_review)

  quiet_settle :
      (c : Change) (target : Ref) (near far : Terms.State) → Calm (settle E c target near far)
  unfolding settle
  quiet_settle c target near far = search (quiet_rules, quiet_act)

  quiet_with_far :
      (c : Change) (target : Ref) (near far : Terms.State) (rec : Record)
      (read : Result (List Problem) (Dict Value))
      → Calm (with_far E c target near far rec read)
  unfolding with_far
  quiet_with_far c target near far rec (err ps) = search quiet_rules
  quiet_with_far c target near far rec (ok values) = search (quiet_rules, quiet_settle)

  quiet_far_read :
      (c : Change) (target : Ref) (near far : Terms.State) (r : Result Failure Record)
      → Calm (far_read E c target near far r)
  unfolding far_read
  quiet_far_read c target near far (ok rec) = search (quiet_rules, quiet_with_far)
  quiet_far_read c target near far (err f) = search (quiet_rules, quiet_drop_link, quiet_create)

  quiet_compare :
      (c : Change) (target : Ref) (near far : Terms.State) → Calm (compare E c target near far)
  unfolding compare
  quiet_compare c target near far = search (quiet_rules, Quiet-get, quiet_far_read, quiet_settle)

  quiet_reconcile : (c : Change) (target : Ref) → Calm (reconcile E c target)
  unfolding reconcile
  quiet_reconcile c target = search (quiet_rules, quiet_compare)

  quiet_to_target : (c : Change) (target : Ref) → Calm (to_target E c target)
  unfolding to_target
  quiet_to_target c target = search (quiet_rules, quiet_create, quiet_reconcile)

  quiet_matched :
      (c : Change) (res : Identity.Resolution) (o : Identity.Outcome) → Calm (matched E c res o)
  unfolding matched
  quiet_matched c res Identity.linked = search (quiet_rules, quiet_to_target)
  quiet_matched c res Identity.matched = search (quiet_rules, quiet_to_target)
  quiet_matched c res Identity.create = search (quiet_rules, quiet_to_target)
  quiet_matched c res Identity.review = search (quiet_rules, quiet_queue_review)
  quiet_matched c res Identity.skip = search quiet_rules

  quiet_resolve_and_act : (c : Change) → Calm (resolve_and_act E c)
  unfolding resolve_and_act
  quiet_resolve_and_act c = search (quiet_rules, quiet_matched)

  quiet_near_miss : (v : Verdict) → Calm (count_near_miss E v)
  quiet_near_miss near_miss = search quiet_rules
  quiet_near_miss Verdict.echo = search quiet_rules
  quiet_near_miss Verdict.foreign = search quiet_rules

  quiet_after_verdict : (c : Change) (v : Verdict) → Calm (after_verdict E c v)
  unfolding after_verdict
  quiet_after_verdict c v = search (quiet_rules, quiet_near_miss, quiet_resolve_and_act)

  quiet_filtered : (c : Change) → Calm (filtered E c)
  unfolding filtered
  quiet_filtered c = search (quiet_rules, quiet_after_verdict)

  quiet_read_record :
      (s : Sync) (from to : Peer) (rec : Record) (read : Result (List Problem) (Dict Value))
      → Calm (read_record E s from to rec read)
  unfolding read_record
  quiet_read_record s from to rec (err ps) = search quiet_rules
  quiet_read_record s from to rec (ok values) = search (quiet_rules, quiet_filtered)

  quiet_found_or_gone : (r : Result Failure Record) → Calm (found_or_gone E r)
  quiet_found_or_gone (ok rec) = search quiet_rules
  quiet_found_or_gone (err f) = search quiet_rules

  quiet_hydrate : (s : Sync) (from : Peer) (ev : ChangeEvent) → Calm (hydrate E s from ev)
  unfolding hydrate
  quiet_hydrate s from ev = search (quiet_rules, Quiet-get, quiet_found_or_gone)

  quiet_process_body :
      (s : Sync) (from to : Peer) (ev : ChangeEvent) (body : Option Record)
      → Calm (process_body E s from to ev body)
  unfolding process_body
  quiet_process_body s from to ev none = search (quiet_rules, quiet_process_delete)
  quiet_process_body s from to ev (some rec) = search (quiet_rules, quiet_read_record)

  quiet_process_from :
      (s : Sync) (from to : Peer) (ev : ChangeEvent) → Calm (process_from E s from to ev)
  unfolding process_from
  quiet_process_from s from to ev =
      search (quiet_rules, quiet_process_delete, quiet_hydrate, quiet_process_body)

  quiet_process_in :
      (s : Sync) (ev : ChangeEvent) (from : Option Peer) → Calm (process_in E s ev from)
  unfolding process_in
  quiet_process_in s ev none = search quiet_rules
  quiet_process_in s ev (some from) = search (quiet_rules, quiet_process_from)

  quiet_process_named :
      (name : Bytes) (ev : ChangeEvent) (s : Option Sync) → Calm (process_named E name ev s)
  unfolding process_named
  quiet_process_named name ev none = search quiet_rules
  quiet_process_named name ev (some s) = search (quiet_rules, quiet_process_in)

  -- In a dry run a property of the peers' state that waiting for the rate limit, reading a
  -- record and the limiter's bookkeeping keep, as that no write or delete has been sent, is kept
  -- by the processing of any event.
  pub dry_run_only_reads :
      (name : Bytes) (ev : ChangeEvent) (e : State E)
      → is_some e.plan ≡ true
      → P e.world
      → P (process E name ev e).1.world
  unfolding process
  dry_run_only_reads name ev e planned holds =
      ((quiet_process_named name ev (lookup name E.syncs)).keeps e
        (record { planned = planned; holds = holds })).holds
