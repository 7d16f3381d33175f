-- ===== src/Engine/Queue/Counting.antt =====
-- internal/engine/queue.go: the depth over the steps of the queue and its workers.
use crm_bisync.Prelude.{
  ℕ, suc, ◌+◌, ◌≡◌, ◌⊎◌, inl, inr, ◌∙◌, refl, ap, true, false, List, [], ◌∷◌, ◌++◌, length,
  length-append, arith, if_both,
}
use crm_bisync.Prelude.Int.{pos, negsuc}
use crm_bisync.Prelude.Sorting.{length-sort_by}
use crm_bisync.Engine.Queue.{
  Task, WorkQueue, finish, signal, push, due, complete, count_down, before, requeue, finish_all,
  close, increment, decrement, is_zero,
}
use crm_bisync.Engine.Queue.Runs.{
  System, Step, pushes, takes, completes, requeues, closes, Taken, next-Taken, Kept, Kept-refl,
  finish-Kept, signal-Kept, due_append, pushed_queue, push_closed, push_open, delayed_queue,
  requeue_closed, requeue_open,
}

abbrev Stopped : WorkQueue → Type 0
Stopped q = (q.is_closed ≡ true) × (q.ready ≡ []) × (q.delayed ≡ [])

abbrev Counts : List Task → WorkQueue → Type 0
Counts fs q =
    (q.is_closed ≡ false) × (q.depth ≡ pos (length q.ready + length q.delayed + length fs))

-- A closed queue is empty; the depth of an open one counts the tasks queued or in flight.
abbrev pub IsCounted : List Task → WorkQueue → Type 0
IsCounted fs q = Stopped q ⊎ Counts fs q

Stopped-Kept : (q q' : WorkQueue) → Kept q q' → Stopped q → Stopped q'
Stopped-Kept q q' k (c, r, d) = (k.is_closed ∙ c, k.ready ∙ r, k.delayed ∙ d)

Counts-Kept : (fs : List Task) (q q' : WorkQueue) → Kept q q' → Counts fs q → Counts fs q'
Counts-Kept fs q q' k (c, d) = (
  k.is_closed ∙ c,
  let r = ap length k.ready in let l = ap length k.delayed in k.depth ∙ d ∙ ap pos (omega arith),
)

push-IsCounted :
    (u : Task) (fs : List Task) (q : WorkQueue) → IsCounted fs q → IsCounted fs (push u q).1
unfolding pushed_queue
push-IsCounted u fs q (inl (c, r, d)) =
    rw (push_closed u q c) (inl (Stopped-Kept q (finish u q) (finish-Kept u q) (c, r, d)))
push-IsCounted u fs q (inr (c, d)) = rw (push_open u q c) (
    inr (
      Counts-Kept fs (pushed_queue u q) (signal (pushed_queue u q)) (signal-Kept (pushed_queue u q))
        (c, ap increment d ∙ ap pos (omega (arith, length-append q.ready (u ∷ []))))))

requeue-IsCounted :
    (u : Task) (fs fs' : List Task) (q : WorkQueue)
    → length fs ≡ suc (length fs')
    → IsCounted fs q
    → IsCounted fs' (requeue u q)
unfolding delayed_queue
requeue-IsCounted u fs fs' q l (inl (c, r, d)) =
    rw (requeue_closed u q c) (inl (Stopped-Kept q (finish u q) (finish-Kept u q) (c, r, d)))
requeue-IsCounted u fs fs' q l (inr (c, d)) = rw (requeue_open u q c) (
    inr (
      Counts-Kept fs' (delayed_queue u q) (signal (delayed_queue u q))
        (signal-Kept (delayed_queue u q))
        (
          c,
          d
              ∙ ap pos (
                  omega (
                    arith,
                    length-append q.delayed (u ∷ []),
                    length-sort_by before (q.delayed ++ u ∷ []),
                  )),
        )))

count_down-IsCounted :
    (fs fs' : List Task) (q : WorkQueue)
    → length fs ≡ suc (length fs')
    → IsCounted fs q
    → IsCounted fs' (count_down q)
unfolding count_down
count_down-IsCounted fs fs' q l h =
    if_both (IsCounted fs') (is_zero (decrement q.depth))
      {x = record q { depth = decrement q.depth; empty = true }}
      {y = record q { depth = decrement q.depth }} (lower h) (lower h)
  where
    lower :
        IsCounted fs q
        → Stopped q
          ⊎ ((q.is_closed ≡ false)
              × (decrement q.depth ≡ pos (length q.ready + length q.delayed + length fs')))
    lower (inl s) = inl s
    lower (inr (c, d)) =
        let up : length q.ready + length q.delayed + length fs
            ≡ suc (length q.ready + length q.delayed + length fs') =
          omega arith in
        inr (c, ap decrement (d ∙ ap pos up))

finish-IsCounted :
    (u : Task) (fs : List Task) (q : WorkQueue) → IsCounted fs q → IsCounted fs (finish u q)
finish-IsCounted u fs q (inl s) = inl (Stopped-Kept q (finish u q) (finish-Kept u q) s)
finish-IsCounted u fs q (inr s) = inr (Counts-Kept fs q (finish u q) (finish-Kept u q) s)

finish_all-Kept : (us : List Task) (q : WorkQueue) → Kept q (finish_all us q)
unfolding finish_all
finish_all-Kept [] q = Kept-refl q
finish_all-Kept (u ∷ us) q =
    let k = finish-Kept u q in
    let m = finish_all-Kept us (finish u q) in
    record {
      ready = m.ready ∙ k.ready;
      delayed = m.delayed ∙ k.delayed;
      depth = m.depth ∙ k.depth;
      is_closed = m.is_closed ∙ k.is_closed;
    }

close-Stopped : (q : WorkQueue) → Stopped (close q)
unfolding close
close-Stopped q =
    let k =
      finish_all-Kept (q.ready ++ q.delayed)
        (record q { is_closed = true; ready = []; delayed = []; depth = pos 0 }) in
    (k.is_closed, k.ready, k.delayed)

take-IsCounted :
    (now : ℕ) (u : Task) (fs : List Task) (q q' : WorkQueue)
    → Taken now u q q'
    → IsCounted fs q
    → IsCounted (u ∷ fs) q'
take-IsCounted now u fs q q' k (inl (c, r, d)) =
    let soon = (due now q.delayed).0 in
    let front = ap length k.ready in
    let split = ap length (due_append now q.delayed) in
    let no_ready = ap length r in
    let no_delayed = ap length d in
    absurd (omega (arith, length-append q.ready soon, length-append soon (due now q.delayed).1))
take-IsCounted now u fs q q' k (inr (c, d)) =
    let soon = (due now q.delayed).0 in
    let front = ap length k.ready in
    let back = ap length k.delayed in
    let split = ap length (due_append now q.delayed) in
    inr (
      k.is_closed ∙ c,
      k.depth
          ∙ d
          ∙ ap pos
              (omega (arith, length-append q.ready soon, length-append soon (due now q.delayed).1)),
    )

length-flight :
    (u : Task) (fs others rest : List Task)
    → fs ≡ others ++ u ∷ rest
    → length fs ≡ suc (length (others ++ rest))
length-flight u fs others rest e =
    let m = ap length e in omega (arith, length-append others (u ∷ rest), length-append others rest)

-- Every step keeps the count.
pub Step-IsCounted :
    {y z : System} → Step y z → IsCounted y.in_flight y.queue → IsCounted z.in_flight z.queue
Step-IsCounted (pushes u y) h = push-IsCounted u y.in_flight y.queue h
Step-IsCounted (takes now u q y e) h =
    take-IsCounted now u y.in_flight y.queue q (next-Taken now u y.queue q e) h
Step-IsCounted (completes u others rest y e) h =
    unfold complete in
    count_down-IsCounted y.in_flight (others ++ rest) (finish u y.queue)
      (length-flight u y.in_flight others rest e) (finish-IsCounted u y.in_flight y.queue h)
Step-IsCounted (requeues u again others rest y e same) h =
    requeue-IsCounted again y.in_flight (others ++ rest) y.queue
      (length-flight u y.in_flight others rest e) h
Step-IsCounted (closes y) h = inl (close-Stopped y.queue)

depth-count_down : (q : WorkQueue) → (count_down q).depth ≡ decrement q.depth
unfolding count_down
depth-count_down q =
    if_both (λ (r : WorkQueue). r.depth ≡ decrement q.depth) (is_zero (decrement q.depth))
      {x = record q { depth = decrement q.depth; empty = true }}
      {y = record q { depth = decrement q.depth }} refl refl

-- A task that completes after the queue was closed takes the depth below zero.
pub complete-close : (t : Task) (q : WorkQueue) → (complete t (close q)).depth ≡ negsuc 0
complete-close t q =
    unfold complete in
    depth-count_down (finish t (close q))
    ∙ ap decrement ((finish-Kept t (close q)).depth ∙ close_depth)
  where
    close_depth : (close q).depth ≡ pos 0
    close_depth =
        unfold close in
        (finish_all-Kept (q.ready ++ q.delayed)
          (record q { is_closed = true; ready = []; delayed = []; depth = pos 0 })).depth
