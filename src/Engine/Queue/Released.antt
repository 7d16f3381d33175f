-- ===== src/Engine/Queue/Released.antt =====
-- internal/engine/queue.go: the queue over whole runs.
use crm_bisync.Prelude.{
  ◌+◌, All-imp, ==_iff, ◌≡◌, ◌⊎◌, inl, inr, ◌∙◌, refl, sym, ap, true, List, [], ◌∷◌, All, length,
  arith,
}
use crm_bisync.Prelude.Int.{ℤ, pos, pos_part}
use crm_bisync.Engine.Queue.{Task, WorkQueue, new_queue}
use crm_bisync.Engine.Queue.Runs.{
  System, same_task, Step, pushes, takes, completes, requeues, closes, Reaches, stays, steps,
  started, released, held, placed,
}
use crm_bisync.Engine.Queue.Placed.{placed-Step, placed-push}
use crm_bisync.Engine.Queue.Counting.{IsCounted, Step-IsCounted}

reaches-IsCounted :
    {x y : System} → Reaches x y → IsCounted x.in_flight x.queue → IsCounted y.in_flight y.queue
reaches-IsCounted (stays y) h = h
reaches-IsCounted (steps r s) h = Step-IsCounted s (reaches-IsCounted r h)

started-IsCounted : (workers : ℤ) → IsCounted [] (new_queue workers)
unfolding new_queue
started-IsCounted workers = inr (refl, refl)

-- In every run from an empty queue a closed queue holds no task, and the depth of an open one is
-- the number of tasks queued or in flight.
pub depth_counts :
    (workers : ℤ) (y : System) → Reaches (started workers) y → IsCounted y.in_flight y.queue
depth_counts workers y r = reaches-IsCounted r (started-IsCounted workers)

AllPlaced : System → Type 0
AllPlaced y = All (λ t. placed t y ≡ true) y.pushed

same_task_refl : (t : Task) → same_task t t ≡ true
same_task_refl t = ground (arith, ==_iff t.id t.id)

Step-AllPlaced : {y z : System} → Step y z → AllPlaced y → AllPlaced z
unfolding AllPlaced
Step-AllPlaced (pushes u y) h = (
  placed-push u u y.queue y.in_flight (let s = same_task_refl u in ground arith),
  All-imp (λ t. placed-Step t (pushes u y)) y.pushed h,
)
Step-AllPlaced (takes now u q y e) h = All-imp (λ t. placed-Step t (takes now u q y e)) y.pushed h
Step-AllPlaced (completes u others rest y e) h =
    All-imp (λ t. placed-Step t (completes u others rest y e)) y.pushed h
Step-AllPlaced (requeues u again others rest y e same) h =
    All-imp (λ t. placed-Step t (requeues u again others rest y e same)) y.pushed h
Step-AllPlaced (closes y) h = All-imp (λ t. placed-Step t (closes y)) y.pushed h

reaches-AllPlaced : {x y : System} → Reaches x y → AllPlaced x → AllPlaced y
reaches-AllPlaced (stays y) h = h
reaches-AllPlaced (steps r s) h = Step-AllPlaced s (reaches-AllPlaced r h)

nil_of_length : {A : Type 0} (xs : List A) → length xs ≡ 0 → xs ≡ []
nil_of_length [] e = refl
nil_of_length (x ∷ xs) e = absurd (omega arith)

none_queued :
    (q : WorkQueue)
    → IsCounted [] q
    → (q.is_closed ≡ true) ⊎ (q.depth ≡ pos 0)
    → (q.ready ≡ []) × (q.delayed ≡ [])
none_queued q (inl (c, r, d)) e = (r, d)
none_queued q (inr (c, d)) (inl e) = cc
none_queued q (inr (c, d)) (inr e) =
    let n : length q.ready + length q.delayed + 0 ≡ 0 = ap pos_part (sym d ∙ e) in
    (nil_of_length q.ready (omega arith), nil_of_length q.delayed (omega arith))

-- In every run of the queue and its workers from an empty queue, once no task is in flight and
-- the queue is closed or its depth is zero, whoever waits for a task that was pushed is
-- released.
pub drained_released :
    (workers : ℤ) (y : System)
    → Reaches (started workers) y
    → y.in_flight ≡ []
    → (y.queue.is_closed ≡ true) ⊎ (y.queue.depth ≡ pos 0)
    → All (λ t. released t y.queue ≡ true) y.pushed
unfolding AllPlaced
drained_released workers y r f e =
    let counted = rw f at (depth_counts workers y r) in
    let gone = none_queued y.queue counted e in
    All-imp
      (λ t p.
        let x = ap (held t) gone.0 in
        let z = ap (held t) gone.1 in let w = ap (held t) f in ground arith)
      y.pushed (reaches-AllPlaced r tt)
