-- ===== src/Engine/Queue.antt =====
-- internal/engine/queue.go: the queue that feeds the worker pool.
--
-- A task is a pointer in the source: `id` stands for it, and `finished` lists the tasks whose `done`
-- is closed. A task that nobody waits for has no `done`. The wake channel is the number of signals
-- in it, of at most `capacity`, and the empty channel, of capacity one, is a flag. The mutex makes
-- each method one step, and the two locked sections of `next` are run together; the caller's worker
-- holds the tasks in flight.
pub mod Promotion
pub mod Runs
pub mod Placed
pub mod Counting
pub mod Released
use crm_bisync.Prelude.{
  ℕ, zero, suc, ◌+◌, ◌==◌, leb, ltb, Bool, true, false, not, ◌&&◌, ◌||◌, Option, none, some, List,
  [], ◌∷◌, ◌++◌, Bytes, if◌then◌else◌,
}
use crm_bisync.Prelude.Int.{ℤ, pos, negsuc, ltb_ℤ}
use crm_bisync.Prelude.Sorting.{sort_by, any_b}
use crm_bisync.Model.{ChangeEvent}

pub record Task : Type 0 where
  pub id : ℕ
  pub sync : Bytes
  pub event : ChangeEvent
  pub attempts : ℕ
  pub not_before : ℕ
  pub awaited : Bool  -- `done != nil`

pub record WorkQueue : Type 0 where
  pub ready : List Task
  pub delayed : List Task
  pub is_closed : Bool
  pub wake : ℕ
  pub capacity : ℕ
  pub depth : ℤ
  pub empty : Bool
  pub finished : List ℕ

-- `newWorkQueue`
unfoldable pub new_queue : ℤ → WorkQueue
new_queue workers = record {
  ready = [];
  delayed = [];
  is_closed = false;
  wake = 0;
  capacity = at_least_one workers;
  depth = pos 0;
  empty = false;
  finished = [];
}
  where
    at_least_one : ℤ → ℕ
    at_least_one (pos (suc n)) = suc n
    at_least_one _ = 1

-- `depth++` and `depth--`
abbrev pub increment : ℤ → ℤ
increment (pos n) = pos (suc n)
increment (negsuc zero) = pos 0
increment (negsuc (suc n)) = negsuc n

abbrev pub decrement : ℤ → ℤ
decrement (pos zero) = negsuc 0
decrement (pos (suc n)) = pos n
decrement (negsuc n) = negsuc (suc n)

abbrev pub is_zero : ℤ → Bool
is_zero (pos n) = n == 0
is_zero (negsuc n) = false

-- Whether `done` is closed
abbrev pub has_finished : Task → WorkQueue → Bool
has_finished t q = any_b (λ i. i == t.id) q.finished

-- `finish`
unfoldable pub finish : Task → WorkQueue → WorkQueue
finish t q =
    if not t.awaited || has_finished t q then q else record q { finished = t.id ∷ q.finished }

unfoldable pub signal : WorkQueue → WorkQueue
signal q = if ltb q.wake q.capacity then record q { wake = q.wake + 1 } else q

unfoldable pub push : Task → WorkQueue → Bool × WorkQueue
unfolding finish signal
push t q =
    if q.is_closed
    then (false, finish t q)
    else (true, signal (record q { ready = q.ready ++ t ∷ []; depth = increment q.depth }))

-- The loop of `promote`: the tasks up to the first whose backoff has not elapsed, and the rest
unfoldable pub due : ℕ → List Task → List Task × List Task
due now [] = ([], [])
due now (t ∷ ts) =
    let (soon, later) = due now ts in
    if leb t.not_before now then (t ∷ soon, later) else ([], t ∷ ts)

unfoldable pub promote : ℕ → WorkQueue → WorkQueue
promote now q =
    let (soon, later) = due now q.delayed in record q { ready = q.ready ++ soon; delayed = later }

take_ready : List Task → WorkQueue → Option Task × WorkQueue
take_ready [] q = (none, q)
take_ready (t ∷ ts) q = (some t, record q { ready = ts })

unfoldable pub next : ℕ → WorkQueue → Option Task × WorkQueue
unfolding take_ready promote
next now q = let q' = promote now q in take_ready q'.ready q'

-- What `complete` does under the mutex, and its signal
unfoldable pub count_down : WorkQueue → WorkQueue
count_down q =
    let q' = record q { depth = decrement q.depth } in
    if is_zero q'.depth then record q' { empty = true } else q'

unfoldable pub complete : Task → WorkQueue → WorkQueue
complete t q = count_down (finish t q)

-- The order of `sort.SliceStable`
abbrev pub before : Task → Task → Bool
before t u = ltb t.not_before u.not_before

unfoldable pub requeue : Task → WorkQueue → WorkQueue
unfolding finish signal
requeue t q =
    if q.is_closed
    then finish t q
    else signal (record q { delayed = sort_by before (q.delayed ++ t ∷ []) })

unfoldable pub next_deadline : WorkQueue → Option ℕ
next_deadline q = elim q.delayed [ [] ↦ none | t ∷ ts ↦ some t.not_before ]

unfoldable pub finish_all : List Task → WorkQueue → WorkQueue
unfolding finish
finish_all [] q = q
finish_all (t ∷ ts) q = finish_all ts (finish t q)

unfoldable pub close : WorkQueue → WorkQueue
unfolding finish_all
close q =
    record (finish_all (q.ready ++ q.delayed)
      (record q { is_closed = true; ready = []; delayed = []; depth = pos 0 })) { empty = true }
