-- ===== src/Examples/Engines.antt =====
-- The engine's theorems on a sync of one field between two peers.
use crm_bisync.Idem.{key}
use crm_bisync.Mapping.Directions.{writes_to}
use crm_bisync.Mapping.Paths.{set_path}
use crm_bisync.Mapping.Fields.{path}
use crm_bisync.Prelude.Dict.{insert}
use crm_bisync.Model.{hex}
use crm_bisync.Prelude.Decimal.{chunk, frames, itoa}
use crm_bisync.Prelude.Sorting.{sort_by}
use crm_bisync.Origin.{window_of}
use crm_bisync.Prelude.{
  ℕ, ◌+◌, ◌≡◌, ◌≢◌, refl, ap, sym, subst, ◌∙◌, Bool, true, false, none, some, [], ◌∷◌, codes,
  is_empty, arith,
}
use crm_bisync.Prelude.Strings.{str_eq}
use crm_bisync.Prelude.Dict.{lookup}
use crm_bisync.Prelude.Int.{pos}
use crm_bisync.Prelude.Result.{Result, ok, err}
use crm_bisync.Model.{text, Record, ChangeEvent, snapshot_hash}
use crm_bisync.Connector.{Failure, other, recheck, WriteResult, answered}
use crm_bisync.Mapping.Directions.{left, right, bidirectional}
use crm_bisync.Mapping.Fields.{Field, from_canonical}
use crm_bisync.Store.Typed.{Document, queue_item, get_idem, get_as}
use crm_bisync.Store.Mem.{Mem, get, new_mem}
use crm_bisync.Store.Mem.Writes.{view}
use crm_bisync.Idem.Protocol.{mark}
use crm_bisync.Origin.{recent_marker}
use crm_bisync.Identity
use crm_bisync.Conflict.Terms
use crm_bisync.Engine.Queue.{Task, new_queue}
use crm_bisync.Engine.Parts.{
  Sync, Setting, Peers, Texts, Engine, State, echo, reviewed, Payload, ambiguous, ◌>>=◌,
}
use crm_bisync.Engine.Pipeline.{
  Write, target_fields, payload_hash, idem_key, write, upsert, replied, queue_review, review_item,
}
use crm_bisync.Engine.Pipeline.Sending.{held, IsLive, IsUnanswered, no_second_create}
use crm_bisync.Engine.Pipeline.Tagging.{
  window_end, updated_state, IsUpdate, asking, write_accepted, updated-IsOpen, tag_at, tag_of,
  tagged_before_request,
}
use crm_bisync.Engine.Pipeline.Swallowed.{held_other, accepted_at, repeat_is_replayed}
use crm_bisync.Engine.Pipeline.Asking.{asked_id, row_of, asked_once}
use crm_bisync.Engine.Process.{Change, filtered}
use crm_bisync.Engine.Process.Echoes.{own_update_is_echo}
use crm_bisync.Engine.Running.{process}
use crm_bisync.Engine.Tasks.{Worker}
use crm_bisync.Engine.Draining.{Drained, drain_ends}
use crm_bisync.Engine.DryRuns.{IsKeptByReads}
use crm_bisync.Engine.DryRuns.Processing.{dry_run_only_reads}
use crm_bisync.Engine.Webhooks.{ingest}
use crm_bisync.Engine.Webhooks.Redelivered.{row_at, row_key, redelivery_ignored}
use crm_bisync.Prelude.{All, List, is_some}
use crm_bisync.Examples.Values.{
  S, L, empty, empty-IsOpen, formats, contact, crm_seven, desk_nine, differ, as_is,
}

abbrev email_field : Field
email_field = record {
  canonical = codes "email";
  left_path = codes "email";
  right_path = codes "mail";
  transform = [];
  direction = bidirectional;
}

abbrev sync : Sync
sync = record {
  name = codes "s";
  kind = contact;
  left_peer = record { name = codes "crm"; side = left };
  right_peer = record { name = codes "desk"; side = right };
  mapper = record {
    kind = contact;
    direction = bidirectional;
    fields = email_field ∷ [];
    by_name = (codes "email", email_field) ∷ [];
  };
  identity = record { kind = contact; keys = []; on_ambiguous = Identity.to_review };
  conflict = record { default_policy = Terms.left_wins; overrides = []; skew = 2 };
  canonical = codes "email" ∷ [];
}

abbrev person : Record
person = record {
  kind = contact;
  remote_id = codes "7";
  fields = (codes "email", text (codes "a@x")) ∷ [];
  updated_at = 4;
  version = [];
}

abbrev texts : Texts
texts = record {
  of_store = λ _. [];
  of_problems = λ _. [];
  of_match = λ _. [];
  of_resolution = λ _. [];
  of_failure = λ _. [];
  encode = λ _. ok (codes "{}");
  quoted = λ s. s;
}

-- Peers that answer every write in one way; their state is the time and the number of writes.
abbrev peers : Result Failure WriteResult → Peers
peers answer = record {
  World = ℕ × ℕ;
  time = λ w. w.0;
  wait = λ name w. (ok tt, w);
  succeed = λ name w. w;
  reject = λ name n w. w;
  get = λ name kind id w. (ok person, w);
  upsert = λ name kind rec key w. (answer, (w.0, w.1 + 1));
  delete = λ name kind id key w. (ok tt, (w.0, w.1 + 1));
  list_changed =
      λ name kind since cursor w. (ok (record { records = []; deleted = []; cursor = [] }), w);
  cancelled = λ w. false;
  random = λ n w. (0, w);
}

abbrev setting : Result Failure WriteResult → Setting
setting answer = record {
  formats = formats;
  texts = texts;
  letters = as_is;
  store = S;
  peers = peers answer;
  syncs = (codes "s", sync) ∷ [];
  windows = [];
  idem_ttl = 10;
  max_attempts = 3;
}

abbrev result : WriteResult
result = record { remote_id = codes "9"; created = false; version = []; updated_at = 6 }

abbrev silent : Failure
silent = other (codes "timeout")

-- The peers that accept, and those that do not answer
abbrev accepting : Setting
accepting = setting (ok result)

abbrev mute : Setting
mute = setting (err silent)

abbrev at : ℕ → Engine (Mem Document) (ℕ × ℕ)
at t = record {
  store = empty;
  tags = record { foreign = 0; echoes = 0; near_miss = 0; recorded = 0; swept = 0; unmatched = 0 };
  stats = record {
    ingested = 0;
    echoes = 0;
    near_misses = 0;
    created = 0;
    updated = 0;
    deleted = 0;
    reviewed = 0;
    skipped = 0;
    no_change = 0;
    retried = 0;
    dead_lettered = 0;
  };
  world = (t, 0);
  plan = none;
  seq = 0;
}

abbrev later_than : Engine (Mem Document) (ℕ × ℕ) → ℕ → Engine (Mem Document) (ℕ × ℕ)
later_than e t = record e { world = (t, e.world.1) }

abbrev update_desk : Write
update_desk = record {
  sync = sync;
  to = sync.right_peer;
  target = desk_nine;
  source = crm_seven;
  values = (codes "email", text (codes "a@x")) ∷ [];
  base = [];
}

abbrev create_desk : Write
create_desk = record update_desk { target = record desk_nine { remote_id = [] } }

update_has_fields : is_empty (target_fields update_desk) ≡ false
unfolding target_fields from_canonical writes_to str_eq lookup set_path path insert
update_has_fields = refl

create_has_fields : is_empty (target_fields create_desk) ≡ false
unfolding target_fields from_canonical writes_to str_eq lookup set_path path insert
create_has_fields = refl

nothing_held : held accepting L 5 update_desk (at 5) ≡ ok none
unfolding get_idem get_as get new_mem lookup
nothing_held = refl

update_desk-IsLive :
    (e : State accepting) → L.IsOpen e.store → e.plan ≡ none → IsLive accepting L update_desk e
update_desk-IsLive e h p = record { is_open = h; no_plan = p; has_fields = update_has_fields }

update_desk-IsUpdate : IsUpdate accepting L update_desk (at 5)
update_desk-IsUpdate = record {
  live = update_desk-IsLive (at 5) empty-IsOpen refl;
  known = refl;
  fresh = nothing_held;
  admitted = refl;
}

update_accepted :
    (upsert accepting update_desk (asking accepting L update_desk (at 5))).0 ≡ ok result
unfolding upsert ◌>>=◌
update_accepted = refl

plain : payload_hash accepting update_desk ≢ recent_marker
unfolding str_eq payload_hash snapshot_hash hex frames sort_by chunk itoa
plain = differ (payload_hash accepting update_desk) recent_marker refl

tagged_before_request_example :
    (asked : State accepting) × (write accepting update_desk (at 5)
      ≡ replied accepting update_desk
          (upsert accepting update_desk asked).0
          (upsert accepting update_desk asked).1)
    × (asked.world ≡ (5, 0))
    × (tag_at accepting L 6 update_desk asked ≡ some (tag_of accepting L update_desk 5))
    × (held accepting L 6 update_desk asked ≡ ok (some (mark 5)))
unfolding window_of lookup
tagged_before_request_example =
    tagged_before_request accepting L update_desk (at 5) 6 update_desk-IsUpdate plain (omega arith)
      (omega arith)

-- The update, another of the same record, and the first once more

abbrev sent_at_five : State accepting
sent_at_five = (write accepting update_desk (at 5)).1

sent_lem :
    write accepting update_desk (at 5)
    ≡ (ok (result, true), updated_state accepting L update_desk result (at 5))
sent_lem = write_accepted accepting L update_desk result (at 5) update_desk-IsUpdate update_accepted

sent-IsOpen : L.IsOpen sent_at_five.store
sent-IsOpen =
    subst (λ (p : Result Failure (WriteResult × Bool) × State accepting). L.IsOpen p.1.store)
      (sym sent_lem) (updated-IsOpen accepting L update_desk result (at 5) update_desk-IsUpdate)

sent_no_plan : sent_at_five.plan ≡ none
unfolding upsert ◌>>=◌
sent_no_plan = ap (λ p. p.1.plan) sent_lem

accepted_at_five : accepted_at accepting L update_desk (at 5) ≡ 5
unfolding upsert ◌>>=◌
accepted_at_five = refl

window_end_lem : window_end accepting L update_desk (at 5) ≡ 300000000005
unfolding window_of lookup
window_end_lem = refl

abbrev other_update : Write
other_update = record update_desk { values = (codes "email", text (codes "b@x")) ∷ [] }

abbrev at_six : State accepting
at_six = later_than sent_at_five 6

other_has_fields : is_empty (target_fields other_update) ≡ false
unfolding target_fields from_canonical writes_to str_eq lookup set_path path insert
other_has_fields = refl

other_key : idem_key accepting update_desk ≢ idem_key accepting other_update
unfolding str_eq payload_hash idem_key key hex frames chunk itoa snapshot_hash sort_by lookup insert
other_key = differ (idem_key accepting update_desk) (idem_key accepting other_update) refl

key_of_other : idem_key accepting other_update ≢ idem_key accepting update_desk
unfolding str_eq payload_hash idem_key key hex frames chunk itoa snapshot_hash sort_by lookup insert
key_of_other = differ (idem_key accepting other_update) (idem_key accepting update_desk) refl

other_fresh : held accepting L 6 other_update (at 5) ≡ ok none
unfolding get_idem get_as get new_mem lookup
other_fresh = refl

other_not_held : held accepting L 6 other_update at_six ≡ ok none
other_not_held =
    ap (λ p. held accepting L 6 other_update p.1) sent_lem
    ∙ held_other accepting L update_desk other_update result (at 5) 6 update_desk-IsUpdate other_key
    ∙ other_fresh

other-IsUpdate : IsUpdate accepting L other_update at_six
other-IsUpdate = record {
  live = record { is_open = sent-IsOpen; no_plan = sent_no_plan; has_fields = other_has_fields };
  known = refl;
  fresh = other_not_held;
  admitted = refl;
}

other_accepted :
    (upsert accepting other_update (asking accepting L other_update at_six)).0 ≡ ok result
unfolding upsert ◌>>=◌
other_accepted = refl

abbrev at_seven : State accepting
at_seven = later_than (write accepting other_update at_six).1 7

other_lem :
    write accepting other_update at_six
    ≡ (ok (result, true), updated_state accepting L other_update result at_six)
other_lem = write_accepted accepting L other_update result at_six other-IsUpdate other_accepted

at_seven-IsLive : IsLive accepting L update_desk at_seven
unfolding upsert ◌>>=◌
at_seven-IsLive =
    update_desk-IsLive at_seven
      (subst (λ (p : Result Failure (WriteResult × Bool) × State accepting). L.IsOpen p.1.store)
        (sym other_lem) (updated-IsOpen accepting L other_update result at_six other-IsUpdate))
      (ap (λ p. p.1.plan) other_lem ∙ sent_no_plan)

still_held : held accepting L 7 update_desk at_seven ≡ held accepting L 7 update_desk sent_at_five
still_held =
    ap (λ p. held accepting L 7 update_desk p.1) other_lem
    ∙ held_other accepting L other_update update_desk result at_six 7 other-IsUpdate key_of_other

repeat_is_replayed_example : write accepting update_desk at_seven ≡ (
  ok (record { remote_id = codes "9"; created = false; version = []; updated_at = 0 }, true),
  at_seven,
)
repeat_is_replayed_example =
    repeat_is_replayed accepting L update_desk update_desk result (at 5) at_seven
      update_desk-IsUpdate update_accepted refl at_seven-IsLive still_held
      (rw accepted_at_five (omega arith))

abbrev echoed : Change
echoed = record {
  sync = sync;
  from = sync.right_peer;
  to = sync.left_peer;
  source = desk_nine;
  values = (codes "email", text (codes "a@x")) ∷ [];
  hash = payload_hash accepting update_desk;
  updated_at = 6;
}

own_update_is_echo_example :
    ((write accepting update_desk (at 5)).0 ≡ ok (result, true))
    × ((filtered accepting echoed (later_than sent_at_five 7)).0 ≡ ok echo)
    × ((filtered accepting echoed (later_than sent_at_five 7)).1.world
        ≡ (later_than sent_at_five 7).world)
own_update_is_echo_example =
    own_update_is_echo accepting L update_desk result (at 5) (later_than sent_at_five 7) echoed
      update_desk-IsUpdate update_accepted
      (record { same_record = refl; same_payload = refl; plain = plain }) refl
      (rw window_end_lem (omega arith))

-- A create that nobody answers

mute_held : held mute L 5 create_desk (at 5) ≡ ok none
unfolding get_idem get_as get new_mem lookup
mute_held = refl

create_desk-IsUnanswered : IsUnanswered mute L create_desk silent (at 5)
unfolding upsert ◌>>=◌ answered
create_desk-IsUnanswered = record {
  live = record { is_open = empty-IsOpen; no_plan = refl; has_fields = create_has_fields };
  new = refl;
  fresh = mute_held;
  admitted = refl;
  fails = refl;
  unanswered = refl;
}

abbrev unanswered_at_five : State mute
unanswered_at_five = record (at 5) {
  store = (write mute create_desk (at 5)).1.store;
  world = (7, 1);
}

no_second_create_example :
    ((write mute create_desk (at 5)).0 ≡ err silent)
    × (write mute create_desk unanswered_at_five ≡ (err recheck, unanswered_at_five))
no_second_create_example =
    no_second_create mute L create_desk silent (at 5) unanswered_at_five create_desk-IsUnanswered
      refl refl (omega arith)

-- A question of a reviewer

abbrev question : Payload
question = ambiguous (codes "7" ∷ []) []

not_asked : row_of accepting L 5 sync (codes "x") (at 5) ≡ none
unfolding view new_mem lookup
not_asked = refl

abbrev asked_at_five : State accepting
asked_at_five =
    later_than (queue_review accepting sync (codes "x") crm_seven [] question (at 5)).1 8

asked_once_example :
    ((queue_review accepting sync (codes "x") crm_seven [] question (at 5)).0 ≡ ok reviewed)
    × (row_of accepting L 8 sync (codes "x") asked_at_five
        ≡ some (
            queue_item (
              review_item accepting sync
                (asked_id accepting L sync (codes "x"))
                crm_seven
                []
                5
                (codes "{}"))))
    × (queue_review accepting sync (codes "x") desk_nine [] question asked_at_five
        ≡ (ok reviewed, asked_at_five))
asked_once_example =
    asked_once accepting L sync (codes "x") crm_seven desk_nine [] [] question question (codes "{}")
      (at 5) asked_at_five empty-IsOpen not_asked refl refl

-- A dry run, and a drain

abbrev event : ChangeEvent
event = record {
  source = codes "crm";
  kind = contact;
  remote_id = codes "7";
  delivery_id = [];
  observed_at = 4;
  deleted = false;
  body = none;
}

abbrev Unwritten : ℕ × ℕ → Type 0
Unwritten w = w.1 ≡ 0

Unwritten-IsKeptByReads : IsKeptByReads accepting Unwritten
Unwritten-IsKeptByReads = record {
  wait = λ name w h. h;
  succeed = λ name w h. h;
  reject = λ name n w h. h;
  get = λ name kind id w h. h;
}

abbrev planning : State accepting
planning = record (at 5) { plan = some (record { changes = []; next = 0 }) }

dry_run_only_reads_example : Unwritten (process accepting (codes "s") event planning).1.world
dry_run_only_reads_example =
    dry_run_only_reads accepting Unwritten Unwritten-IsKeptByReads (codes "s") event planning refl
      refl

abbrev one_task : Task
one_task = record {
  id = 1;
  sync = codes "s";
  event = event;
  attempts = 0;
  not_before = 0;
  awaited = true;
}

abbrev one_worker : Worker accepting
one_worker = record {
  engine = at 5;
  queue = record (new_queue (pos 1)) { ready = one_task ∷ []; depth = pos 1 };
  next_id = 2;
}

drain_ends_example : Drained accepting 5 one_worker
unfolding new_queue
drain_ends_example = drain_ends accepting 5 one_worker (omega arith)

-- A webhook delivery of two events, and the same once more

abbrev delivery : List ChangeEvent
delivery =
    record event { delivery_id = codes "d" }
    ∷ record event { delivery_id = codes "d"; remote_id = codes "8" }
    ∷ []

abbrev hour_later : Worker accepting
hour_later = record one_worker {
  engine = later_than (ingest accepting (codes "crm") delivery one_worker).1.engine 3600000000000;
}

never_delivered :
    All
      (λ ev.
        is_some (row_at accepting L (codes "crm") 5 (row_key accepting L (codes "crm") ev) empty)
        ≡ false)
      delivery
unfolding view new_mem lookup
never_delivered = (refl, (refl, tt))

redelivery_ignored_example :
    ((ingest accepting (codes "crm") delivery one_worker).0.1 ≡ [])
    × (ingest accepting (codes "crm") delivery hour_later ≡ ((0, []), hour_later))
redelivery_ignored_example =
    redelivery_ignored accepting L (codes "crm") delivery one_worker hour_later empty-IsOpen
      (refl, (refl, tt)) never_delivered refl (omega arith)
