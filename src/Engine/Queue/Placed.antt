-- ===== src/Engine/Queue/Placed.antt =====
-- internal/engine/queue.go: where a task is after each step of the queue and its workers.
use crm_bisync.Prelude.{◌==◌, ==_iff, ◌≡◌, ap, true, not, ◌||◌, List, [], ◌∷◌, ◌++◌, arith, if_both}
use crm_bisync.Prelude.Int.{pos}
use crm_bisync.Prelude.Sorting.{any_b, any_b-append, any_b-sort_by}
use crm_bisync.Engine.Queue.{
  Task, WorkQueue, finish, signal, push, complete, count_down, before, requeue, finish_all, close,
  decrement, is_zero,
}
use crm_bisync.Engine.Queue.Runs.{
  System, same_task, Step, pushes, takes, completes, requeues, closes, released, held, placed,
  released-finish, next-Taken, held-promoted, finish-Kept, signal-Kept, finished-signal,
  pushed_queue, push_lem, delayed_queue, requeue_lem,
}

-- A task that is released, queued, or in flight
abbrev pub Stands : Task → List Task → WorkQueue → Type 0
Stands t fs k = (released t k || held t k.ready || held t k.delayed || held t fs) ≡ true

-- Finishing a task loses no other.
placed-finish :
    (t u : Task) (q : WorkQueue) (fs : List Task)
    → (released t q || same_task t u || held t q.ready || held t q.delayed || held t fs) ≡ true
    → Stands t fs (finish u q)
placed-finish t u q fs h =
    let k = finish-Kept u q in
    let r = ap (held t) k.ready in
    let d = ap (held t) k.delayed in ground (arith, released-finish t u q)

placed-signal :
    (t : Task) (q : WorkQueue) (fs : List Task)
    → (released t q || held t q.ready || held t q.delayed || held t fs) ≡ true
    → Stands t fs (signal q)
placed-signal t q fs h =
    let k = signal-Kept q in
    let r = ap (held t) k.ready in
    let d = ap (held t) k.delayed in
    let f : released t (signal q) ≡ released t q =
      ap (λ x. not t.awaited || any_b (λ i. i == t.id) x) (finished-signal q) in
    ground arith

pub placed-push :
    (t u : Task) (q : WorkQueue) (fs : List Task)
    → (released t q || same_task t u || held t q.ready || held t q.delayed || held t fs) ≡ true
    → Stands t fs (push u q).1
unfolding pushed_queue
placed-push t u q fs h = rw (push_lem u q) (
    if_both (Stands t fs) q.is_closed (placed-finish t u q fs h) (
      placed-signal t (pushed_queue u q) fs
        (ground (arith, any_b-append (same_task t) q.ready (u ∷ [])))))

placed-requeue :
    (t u : Task) (q : WorkQueue) (fs : List Task)
    → (released t q || same_task t u || held t q.ready || held t q.delayed || held t fs) ≡ true
    → Stands t fs (requeue u q)
unfolding delayed_queue
placed-requeue t u q fs h = rw (requeue_lem u q) (
    if_both (Stands t fs) q.is_closed (placed-finish t u q fs h) (
      placed-signal t (delayed_queue u q) fs (
        ground (
          arith,
          any_b-append (same_task t) q.delayed (u ∷ []),
          any_b-sort_by (same_task t) before (q.delayed ++ u ∷ []),
        ))))

placed-count_down :
    (t : Task) (q : WorkQueue) (fs : List Task) → Stands t fs q → Stands t fs (count_down q)
unfolding count_down
placed-count_down t q fs h =
    if_both (Stands t fs) (is_zero (decrement q.depth))
      {x = record q { depth = decrement q.depth; empty = true }}
      {y = record q { depth = decrement q.depth }} h h

placed-complete :
    (t u : Task) (q : WorkQueue) (fs : List Task)
    → (released t q || same_task t u || held t q.ready || held t q.delayed || held t fs) ≡ true
    → Stands t fs (complete u q)
unfolding complete
placed-complete t u q fs h = placed-count_down t (finish u q) fs (placed-finish t u q fs h)

released-finish_all :
    (t : Task) (us : List Task) (q : WorkQueue)
    → (released t q || held t us) ≡ true
    → released t (finish_all us q) ≡ true
unfolding finish_all
released-finish_all t [] q h = ground arith
released-finish_all t (u ∷ us) q h =
    released-finish_all t us (finish u q) (ground (arith, released-finish t u q))

placed-close :
    (t : Task) (q : WorkQueue) (fs : List Task)
    → (released t q || held t q.ready || held t q.delayed || held t fs) ≡ true
    → (released t (close q) || held t fs) ≡ true
unfolding close
placed-close t q fs h = ground (
  arith,
  any_b-append (same_task t) q.ready q.delayed,
  released-finish_all t (q.ready ++ q.delayed)
      (record q { is_closed = true; ready = []; delayed = []; depth = pos 0 }),
)

held-flight :
    (t u : Task) (others rest : List Task)
    → held t (others ++ u ∷ rest) ≡ (same_task t u || held t (others ++ rest))
held-flight t u others rest =
    ground
      (arith, any_b-append (same_task t) others (u ∷ rest), any_b-append (same_task t) others rest)

-- No step loses a task: one that was released, queued or in flight is so afterwards.
pub placed-Step : (t : Task) {y z : System} → Step y z → placed t y ≡ true → placed t z ≡ true
placed-Step t (pushes u y) h = placed-push t u y.queue y.in_flight (ground arith)
placed-Step t (takes now u q y e) h =
    let k = next-Taken now u y.queue q e in
    let f : released t q ≡ released t y.queue =
      ap (λ x. not t.awaited || any_b (λ i. i == t.id) x) k.finished in
    ground (arith, held-promoted now t u y.queue q k)
placed-Step t (completes u others rest y e) h =
    placed-complete t u y.queue (others ++ rest)
      (let m = ap (held t) e in ground (arith, held-flight t u others rest))
placed-Step t (requeues u again others rest y e same) h =
    placed-requeue t again y.queue (others ++ rest) (
      let m = ap (held t) e in
      ground (
        arith,
        held-flight t u others rest,
        ==_iff u.id t.id,
        ==_iff again.id u.id,
        ==_iff again.id t.id,
      ))
placed-Step t (closes y) h = ground (arith, placed-close t y.queue y.in_flight)
