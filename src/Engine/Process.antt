-- ===== src/Engine/Process.antt =====
-- internal/engine/pipeline.go: what happens to one change.
pub mod Echoes
use crm_bisync.Prelude.{
  ℕ, ◌+◌, Bool, true, false, not, ◌&&◌, Option, none, some, List, [], ◌∷◌, ◌++◌, Bytes, codes,
  str_eq, is_some, is_empty, if◌then◌else◌,
}
use crm_bisync.Prelude.Dict.{Dict}
use crm_bisync.Prelude.Result.{Result, ok, err}
use crm_bisync.Model.{Value, Record, ChangeEvent, snapshot_hash, hydrated}
use crm_bisync.Connector.{Failure, other, permanent, is_not_found, WriteResult}
use crm_bisync.Mapping.Directions.{bidirectional}
use crm_bisync.Mapping.Fields.{to_canonical, Problem}
use crm_bisync.Store.Typed.{Ref, Link, get_link, peer, Snapshot, get_snapshot, IdemResult}
use crm_bisync.Idem
use crm_bisync.Idem.{Decision, proceed, replayed, commit, abandon}
use crm_bisync.Origin
use crm_bisync.Origin.{Verdict, near_miss, processed, classify}
use crm_bisync.Identity
use crm_bisync.Conflict.Terms
use crm_bisync.Conflict.Terms.{Action, nothing, write_left, write_right, write_both, escalate}
use crm_bisync.Conflict.Resolve
use crm_bisync.Engine.Parts.{
  pure, fail, ◌>>=◌, ◌>>◌, Setting, Method, Stats, Peer, Sync, peer_by_name, other_peer, is_left,
  Outcome, echo, no_change, created, updated, deleted, skipped, Planner, PlannedChange, delete,
  plan_change, Payload, ambiguous, disputed, on_store, on_origin, on_world, change_world, now,
  count, attempt, got, get,
}
use crm_bisync.Engine.Pipeline.{
  merge, ref_text, ref_texts, Write, write, begin_write, commit_pair, drop_link, queue_review,
  plan_with,
}

-- `sides`
unfoldable pub sides {ℓ} : {A : Type ℓ} → Peer → A → A → A × A
sides from near far = if is_left from.side then (near, far) else (far, near)

-- A change of a record that is there: the sync and its peers, the record's ref, its canonical
-- values with their digest, and when the peer says it was updated.
pub record Change : Type 0 where
  pub sync : Sync
  pub from : Peer
  pub to : Peer
  pub source : Ref
  pub values : Dict Value
  pub hash : Bytes
  pub updated_at : ℕ

abbrev pub no_snapshot : Option Snapshot → Snapshot
no_snapshot none = record { hash = []; values = []; at = 0 }
no_snapshot (some s) = s

abbrev pub new_target : Change → Ref
new_target c = record { connector = c.to.name; kind = c.sync.kind; remote_id = [] }

unfoldable pub near_state : Change → Snapshot → Terms.State
near_state c snap = record {
  fields = c.values;
  hash = c.hash;
  base = snap.values;
  synced_hash = snap.hash;
  updated_at = c.updated_at;
  present = true;
}

unfoldable pub far_state : Snapshot → Terms.State
far_state snap = record {
  fields = snap.values;
  hash = snap.hash;
  base = snap.values;
  synced_hash = snap.hash;
  updated_at = 0;
  present = true;
}

unfoldable pub pair_text : Ref → Ref → Bytes
unfolding ref_text
pair_text l r = ref_text l ++ codes " <-> " ++ ref_text r

abbrev pub target_of : Change → Option Ref → Ref
target_of c none = new_target c
target_of c (some r) = r

-- `lockKey`
unfoldable pub lock_key : Setting → Sync → Dict Value → Ref → Bytes
unfolding ref_text
lock_key E s values r =
    let keys = s.identity.keys in
    let fingerprint = snapshot_hash E.formats values keys in
    if not (is_empty keys) && not (str_eq fingerprint (snapshot_hash E.formats [] keys))
    then s.name ++ 0 ∷ codes "id" ++ 0 ∷ fingerprint
    else s.name ++ 0 ∷ codes "ref" ++ 0 ∷ ref_text r

module _ (E : Setting) where
  abbrev create_write : Change → Write
  create_write c = record {
    sync = c.sync;
    to = c.to;
    target = new_target c;
    source = c.source;
    values = c.values;
    base = [];
  }

  unfoldable pub commit_created : Change → Ref → Method E (Unit {0})
  unfolding sides
  commit_created c target =
      let (l, r) = sides c.from c.source target in
      let (lv, rv) = sides c.from c.values c.values in commit_pair E c.sync l r lv rv

  abbrev pub bump_created : Stats → Stats
  bump_created st = record st { created = st.created + 1 }

  unfoldable pub created_or_not : Change → WriteResult × Bool → Method E Outcome
  created_or_not c (res, false) = pure E no_change
  created_or_not c (res, true) = do
    commit_created c (record (new_target c) { remote_id = res.remote_id })
    count E bump_created
    pure E created

  -- `create`
  unfoldable pub create : Change → Method E Outcome
  unfolding created_or_not commit_created
  create c = do reply ← write E (create_write c); created_or_not c reply

  -- The writes of a resolution, and what the sides then hold
  abbrev write_to : Sync → Peer → Ref → Ref → Dict Value → Dict Value → Method E (Unit {0})
  write_to s to target source values base = do
    _ ← write E (record {
      sync = s;
      to = to;
      target = target;
      source = source;
      values = values;
      base = base;
    })
    pure E tt

  unfoldable pub carry_out :
      Sync
      → Ref
      → Ref
      → Terms.State
      → Terms.State
      → Terms.Resolution
      → Action
      → Method E (Dict Value × Dict Value)
  carry_out s l r left right res write_left = do
    write_to s s.left_peer l r res.values left.fields
    pure E (merge left.fields res.values, right.fields)
  carry_out s l r left right res write_right = do
    write_to s s.right_peer r l res.values right.fields
    pure E (left.fields, merge right.fields res.values)
  carry_out s l r left right res write_both = do
    write_to s s.left_peer l r res.left_values left.fields
    write_to s s.right_peer r l res.right_values right.fields
    pure E (merge left.fields res.left_values, merge right.fields res.right_values)
  carry_out s l r left right res _ = pure E (left.fields, right.fields)

  unfoldable pub reconciled : Action → Method E Outcome
  reconciled nothing = do
    count E (λ st. record st { no_change = st.no_change + 1 })
    pure E no_change
  reconciled _ = do count E (λ st. record st { updated = st.updated + 1 }); pure E updated

  unfoldable pub act :
      Change
      → Ref
      → Ref
      → Ref
      → Terms.State
      → Terms.State
      → Terms.Resolution
      → Action
      → Method E Outcome
  unfolding carry_out reconciled pair_text
  act c target l r left right res escalate =
      queue_review E c.sync (pair_text l r) c.source (E.texts.of_resolution res.reason)
        (disputed res.situation res.policy res.diffs (ref_text target))
  act c target l r left right res action = do
    final ← carry_out c.sync l r left right res action
    commit_pair E c.sync l r final.0 final.1
    reconciled action

  -- `reconcile`, once both states are known
  unfoldable pub settle : Change → Ref → Terms.State → Terms.State → Method E Outcome
  unfolding act sides
  settle c target near far =
      let (l, r) = sides c.from c.source target in
      let (left, right) = sides c.from near far in
      let res = Resolve.resolve E.formats c.sync.conflict left right c.sync.canonical in
      act c target l r left right res res.action

  unfoldable pub with_far :
      Change
      → Ref
      → Terms.State
      → Terms.State
      → Record
      → Result (List Problem) (Dict Value)
      → Method E Outcome
  unfolding settle
  with_far c target near far rec (err ps) = fail E (permanent (other (E.texts.of_problems ps)))
  with_far c target near far rec (ok values) = settle c target near (record far {
    fields = values;
    hash = snapshot_hash E.formats values c.sync.canonical;
    updated_at = rec.updated_at;
  })

  -- What the read of the far side leads to
  unfoldable pub far_read :
      Change → Ref → Terms.State → Terms.State → Result Failure Record → Method E Outcome
  unfolding with_far create
  far_read c target near far (ok rec) =
      with_far c target near far rec (to_canonical E.letters c.sync.mapper c.to.side rec)
  far_read c target near far (err f) =
      if is_not_found f then (do drop_link E c.source target; create c) else fail E f

  unfoldable pub compare : Change → Ref → Terms.State → Terms.State → Method E Outcome
  unfolding far_read settle
  compare c target near far =
      if str_eq c.sync.mapper.direction bidirectional
      then (do
        r ← attempt E (get E c.to c.sync.kind target.remote_id)
        far_read c target near far r)
      else settle c target near far

  -- `reconcile`
  unfoldable pub reconcile : Change → Ref → Method E Outcome
  unfolding compare near_state far_state
  reconcile c target = do
    at ← now E
    near ← on_store E (get_snapshot E.store at c.source)
    far ← on_store E (get_snapshot E.store at target)
    compare c target (near_state c (no_snapshot near)) (far_state (no_snapshot far))

  unfoldable pub to_target : Change → Ref → Method E Outcome
  unfolding create reconcile
  to_target c target = if is_empty target.remote_id then create c else reconcile c target

  -- The switch on the outcome of the matching
  unfoldable pub matched : Change → Identity.Resolution → Identity.Outcome → Method E Outcome
  unfolding to_target
  matched c res Identity.review =
      queue_review E c.sync (ref_text c.source) c.source (E.texts.of_match res.reason)
        (ambiguous (ref_texts res.candidates) c.values)
  matched c res Identity.skip = do
    count E (λ st. record st { skipped = st.skipped + 1 })
    pure E skipped
  matched c res Identity.create = to_target c (new_target c)
  matched c res _ = to_target c (target_of c res.peer_ref)

  unfoldable pub resolve_and_act : Change → Method E Outcome
  unfolding matched
  resolve_and_act c = do
    at ← now E
    on_store E (Identity.index E.formats E.store c.sync.identity at c.source c.values)
    res ←
        on_store E
          (Identity.resolve E.formats E.store c.sync.identity at c.source c.to.name c.values)
    matched c res res.outcome

  abbrev pub count_near_miss : Verdict → Method E (Unit {0})
  count_near_miss near_miss = count E (λ st. record st { near_misses = st.near_misses + 1 })
  count_near_miss _ = pure E tt

  unfoldable pub after_verdict : Change → Verdict → Method E Outcome
  unfolding resolve_and_act
  after_verdict c v =
      if not (processed v)
      then (do count E (λ st. record st { echoes = st.echoes + 1 }); pure E echo)
      else (do count_near_miss v; resolve_and_act c)

  -- The stages from the echo filter on
  unfoldable pub filtered : Change → Method E Outcome
  unfolding after_verdict
  filtered c = do
    at ← now E
    v ← on_origin E (classify E.store at c.source c.hash)
    after_verdict c v

  abbrev pub change_of : Sync → Peer → Peer → Record → Dict Value → Change
  change_of s from to rec values = record {
    sync = s;
    from = from;
    to = to;
    source = record { connector = from.name; kind = s.kind; remote_id = rec.remote_id };
    values = values;
    hash = snapshot_hash E.formats values s.canonical;
    updated_at = rec.updated_at;
  }

  unfoldable pub read_record :
      Sync → Peer → Peer → Record → Result (List Problem) (Dict Value) → Method E Outcome
  unfolding filtered
  read_record s from to rec (err ps) = fail E (permanent (other (E.texts.of_problems ps)))
  read_record s from to rec (ok values) = filtered (change_of s from to rec values)
