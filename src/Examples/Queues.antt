-- ===== src/Examples/Queues.antt =====
-- The work queue's theorems on a run of one task.
use crm_bisync.Engine.Queue.{count_down, finish}
use crm_bisync.Prelude.{ℕ, ◌≡◌, inr, refl, true, false, none, some, [], ◌∷◌, All, codes}
use crm_bisync.Prelude.Int.{pos, negsuc}
use crm_bisync.Model.{ChangeEvent}
use crm_bisync.Engine.Queue.{Task, new_queue, push, next, complete, close}
use crm_bisync.Engine.Queue.Runs.{
  System, pushes, takes, completes, Reaches, stays, steps, started, released,
}
use crm_bisync.Engine.Queue.Counting.{IsCounted, complete-close}
use crm_bisync.Engine.Queue.Released.{depth_counts, drained_released}

abbrev change : ChangeEvent
change = record {
  source = codes "crm";
  kind = codes "contact";
  remote_id = codes "7";
  delivery_id = [];
  observed_at = 1;
  deleted = false;
  body = none;
}

abbrev task : ℕ → ℕ → Task
task id not_before = record {
  id = id;
  sync = codes "s";
  event = change;
  attempts = 0;
  not_before = not_before;
  awaited = true;
}

abbrev one : Task
one = task 1 0

abbrev pushed_one : System
pushed_one = record { queue = (push one (new_queue (pos 2))).1; in_flight = []; pushed = one ∷ [] }

abbrev taken_one : System
taken_one = record { queue = (next 5 pushed_one.queue).1; in_flight = one ∷ []; pushed = one ∷ [] }

abbrev done_one : System
done_one = record { queue = complete one taken_one.queue; in_flight = []; pushed = one ∷ [] }

takes_one : next 5 pushed_one.queue ≡ (some one, taken_one.queue)
unfolding next push new_queue
takes_one = refl

run : Reaches (started (pos 2)) done_one
run =
    steps
      (steps (steps (stays (started (pos 2))) (pushes one (started (pos 2))))
        (takes 5 one taken_one.queue pushed_one takes_one))
      (completes one [] [] taken_one refl)

depth_counts_example : IsCounted [] done_one.queue
depth_counts_example = depth_counts (pos 2) done_one run

depth_zero : done_one.queue.depth ≡ pos 0
unfolding complete count_down finish next push new_queue
depth_zero = refl

drained_released_example : All (λ t. released t done_one.queue ≡ true) (one ∷ [])
drained_released_example = drained_released (pos 2) done_one run refl (inr depth_zero)

complete-close_example : (complete one (close taken_one.queue)).depth ≡ negsuc 0
complete-close_example = complete-close one taken_one.queue
