-- ===== src/Engine/Tasks.antt =====
-- internal/engine/run.go, and the dead letters of pipeline.go: what becomes of a task.
use crm_bisync.Prelude.{
  ℕ, zero, suc, ◌+◌, ◌*◌, ◌-◌, min, max, ltb, Bool, true, false, ◌&&◌, Option, none, some, [], ◌∷◌,
  ◌++◌, Bytes, codes, length, if◌then◌else◌,
}
use crm_bisync.Prelude.Int.{ℤ, pos, negsuc}
use crm_bisync.Prelude.Decimal.{itoa}
use crm_bisync.Prelude.Dict.{lookup}
use crm_bisync.Prelude.Result.{Result, ok, err}
use crm_bisync.Model.{ChangeEvent}
use crm_bisync.Connector.{
  Failure, other, permanent, wrapped, recheck, can_retry, kind_of, retry_after_of,
}
use crm_bisync.Store.Typed.{Ref, QueueItem, put_queue_item, unix_nano, coll_dlq}
use crm_bisync.Engine.Parts.{
  pure, fail, ◌>>=◌, ◌>>◌, Setting, State, Method, Sync, Outcome, failed, on_store, now, count,
}
use crm_bisync.Engine.Running.{process}
use crm_bisync.Engine.Queue.{Task, WorkQueue, push, next, complete, requeue}

-- `%0nd` of a number, and of an int64
unfoldable pub zeros : ℕ → Bytes
zeros zero = []
zeros (suc n) = b'0' ∷ zeros n

abbrev pub padded : ℕ → Bytes → Bytes
padded width digits = zeros (width - length digits) ++ digits

unfoldable pub padded_int : ℕ → ℤ → Bytes
unfolding zeros
padded_int width (pos n) = padded width (itoa n)
padded_int width (negsuc n) = b'-' ∷ padded (width - 1) (itoa (n + 1))

-- `NewQueueID`
unfoldable pub new_queue_id : ℕ → ℕ → Bytes
unfolding padded_int
new_queue_id at seq = padded_int 20 (unix_nano at) ++ b'-' ∷ padded 10 (itoa seq)

-- `retryable`
unfoldable pub retryable : Failure → Bool
retryable (permanent _) = false
retryable (wrapped _ e) = retryable e
retryable recheck = true
retryable e = can_retry e

abbrev pub min_backoff : ℕ
min_backoff = 100 * 1000000

abbrev pub base_backoff : ℕ
base_backoff = 250 * 1000000

abbrev pub max_backoff : ℕ
max_backoff = 30 * 1000000000

-- The loop of `backoff`, with the rounds that are left
unfoldable pub doubled : ℕ → ℕ → ℕ
doubled zero window = window
doubled (suc rounds) window =
    let more = doubled rounds (window * 2) in if ltb window max_backoff then more else window

unfoldable pub backoff_window : ℕ → ℕ
unfolding doubled
backoff_window attempts = min (doubled (attempts - 1) base_backoff) max_backoff

-- `backoff`, once the number is drawn
unfoldable pub backoff_of : ℕ → ℕ → ℕ
backoff_of hint drawn = max hint (max drawn min_backoff)

-- The engine with its queue
pub record Worker (E : Setting) : Type 0 where
  pub engine : State E
  pub queue : WorkQueue
  pub next_id : ℕ  -- for the tasks to come

abbrev pub event_ref : ChangeEvent → Ref
event_ref ev = record { connector = ev.source; kind = ev.kind; remote_id = ev.remote_id }

abbrev pub name_or_none : Option Sync → Bytes
name_or_none none = []
name_or_none (some s) = s.name

abbrev pub tried_again : Task → ℕ → Task
tried_again t at = record t { not_before = at }

module _ (E : Setting) where
  -- `enqueueItem`
  unfoldable pub enqueue_item :
      Bytes → Option Sync → Ref → Bytes → ℕ → Result Bytes Bytes → Method E (Unit {0})
  unfolding new_queue_id
  enqueue_item collection s r reason attempts (err text) =
      fail E (other (codes "engine: encode queue payload: " ++ text))
  enqueue_item collection s r reason attempts (ok raw) = do
    at ← now E
    n ← next_seq
    let item : QueueItem = record {
      id = new_queue_id at n;
      sync = name_or_none s;
      ref = r;
      reason = reason;
      created_at = at;
      attempts = attempts;
      payload = raw;
    }
    on_store E (put_queue_item E.store collection item)
    where
      next_seq : Method E ℕ
      next_seq e = (ok (e.seq + 1), record e { seq = e.seq + 1 })

  -- `deadLetter`
  unfoldable pub dead_letter : Option Sync → Task → Failure → Method E (Unit {0})
  unfolding enqueue_item
  dead_letter s t cause = do
    enqueue_item coll_dlq s (event_ref t.event) (E.texts.of_failure cause) t.attempts
        (E.texts.encode (failed t.event (E.texts.of_failure cause) (kind_of cause)))
    count E (λ st. record st { dead_lettered = st.dead_lettered + 1 })

  unfoldable pub backoff : ℕ → ℕ → Method E ℕ
  unfolding backoff_window backoff_of
  backoff attempts hint e =
      let (drawn, w) = E.peers.random (backoff_window attempts + 1) e.world in
      (ok (backoff_of hint drawn), record e { world = w })

  -- What `t.NotBefore` becomes, and the count of the retry
  unfoldable pub schedule : Task → Failure → Method E ℕ
  unfolding backoff
  schedule t f = do
    at ← now E
    delay ← backoff t.attempts (retry_after_of f)
    count E (λ st. record st { retried = st.retried + 1 })
    pure E (at + delay)

  abbrev pub or_now : Result Failure ℕ → ℕ
  or_now (ok at) = at
  or_now (err _) = 0

  unfoldable pub retry : Task → Failure → Worker E → Worker E
  unfolding schedule
  retry t f w =
      let (at, e) = schedule t f w.engine in
      record w { engine = e; queue = requeue (tried_again t (or_now at)) w.queue }

  -- An error of the dead letter itself is only logged.
  unfoldable pub give_up : Task → Failure → Worker E → Worker E
  unfolding dead_letter
  give_up t f w = record w {
    engine = (dead_letter (lookup t.sync E.syncs) t f w.engine).1;
    queue = complete t w.queue;
  }

  unfoldable pub after_failure : Task → Failure → Worker E → Worker E
  unfolding retry give_up
  after_failure t f w =
      if retryable f && ltb t.attempts E.max_attempts then retry t f w else give_up t f w

  unfoldable pub after_process : Task → Result Failure Outcome → Worker E → Worker E
  unfolding after_failure
  after_process t (ok _) w = record w { queue = complete t w.queue }
  after_process t (err f) w =
      if E.peers.cancelled w.engine.world
      then record w { queue = complete t w.queue }
      else after_failure (record t { attempts = t.attempts + 1 }) f w

  -- `runTask`
  unfoldable pub run_task : Task → Worker E → Worker E
  unfolding after_process
  run_task t w =
      let (r, e) = process E t.sync t.event w.engine in after_process t r (record w { engine = e })

  -- The body of `Drain`: whether there was a task, and the state after it
  unfoldable pub drain_found : Option Task × WorkQueue → Worker E → Bool × Worker E
  unfolding run_task
  drain_found (none, q) w = (false, record w { queue = q })
  drain_found (some t, q) w = (true, run_task t (record w { queue = q }))

  unfoldable pub drain_step : Worker E → Bool × Worker E
  unfolding drain_found
  drain_step w =
      if E.peers.cancelled w.engine.world
      then (false, w)
      else drain_found (next (E.peers.time w.engine.world) w.queue) w

  abbrev pub drain_on : (Worker E → Option (Worker E)) → Bool × Worker E → Option (Worker E)
  drain_on go (false, w) = some w
  drain_on go (true, w) = go w

  -- `Drain`; none is fuel that ran out.
  unfoldable pub drain : ℕ → Worker E → Option (Worker E)
  unfolding drain_step
  drain zero w = none
  drain (suc fuel) w = drain_on (drain fuel) (drain_step w)

  abbrev pub new_task : Worker E → Bytes → ChangeEvent → Task
  new_task w sync ev = record {
    id = w.next_id;
    sync = sync;
    event = ev;
    attempts = 0;
    not_before = 0;
    awaited = true;
  }

  abbrev pub count_ingested : State E → State E
  count_ingested e = record e { stats = record e.stats { ingested = e.stats.ingested + 1 } }

  -- `Submit`
  unfoldable pub submit : Bytes → ChangeEvent → Worker E → Task × Worker E
  submit sync ev w =
      let t = new_task w sync ev in
      (
        t,
        record {
          engine = count_ingested w.engine;
          queue = (push t w.queue).1;
          next_id = w.next_id + 1;
        },
      )
