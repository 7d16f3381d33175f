-- ===== src/Engine/Draining.antt =====
-- internal/engine/run.go: `Drain` and the attempts that its tasks have left.
use crm_bisync.Prelude.{
  ℕ, zero, suc, ◌+◌, ◌-◌, ◌<◌, ◌≤◌, ◌≡◌, ◌∙◌, refl, ap, Bool, true, false, ◌&&◌, Option, none, some,
  List, [], ◌∷◌, ◌++◌, ltb, ltb→lt, arith, Bool-cases, inl, inr, if_both,
}
use crm_bisync.Prelude.Sorting.{insert_by, sort_by}
use crm_bisync.Prelude.Result.{Result, ok, err}
use crm_bisync.Connector.{Failure}
use crm_bisync.Engine.Queue.{
  Task, WorkQueue, next, complete, count_down, finish, signal, requeue, due, before, is_zero,
  decrement,
}
use crm_bisync.Engine.Queue.Runs.{
  next-Taken, due_append, Kept, finish-Kept, signal-Kept, delayed_queue, requeue_closed,
  requeue_open, next_again,
}
use crm_bisync.Engine.Parts.{◌>>=◌, Setting, Outcome}
use crm_bisync.Engine.Running.{process}
use crm_bisync.Engine.Tasks.{
  Worker, retryable, tried_again, schedule, or_now, retry, give_up, after_failure, after_process,
  run_task, drain_found, drain_step, drain_on, drain,
}

-- The attempts that a task has left, and one more
abbrev pub weight : ℕ → Task → ℕ
weight max t = suc (max - t.attempts)

abbrev pub weights : ℕ → List Task → ℕ
weights max [] = 0
weights max (t ∷ ts) = weight max t + weights max ts

weights-append :
    (max : ℕ) (ts us : List Task) → weights max (ts ++ us) ≡ weights max ts + weights max us
weights-append max [] us = omega arith
weights-append max (t ∷ ts) us = omega (arith, weights-append max ts us)

weights-insert_by :
    (max : ℕ) (less : Task → Task → Bool) (t : Task) (ts : List Task)
    → weights max (insert_by less t ts) ≡ weight max t + weights max ts
unfolding insert_by
weights-insert_by max less t [] = refl
weights-insert_by max less t (u ∷ us) = ground (arith, weights-insert_by max less t us)

weights-sort_by :
    (max : ℕ) (less : Task → Task → Bool) (ts : List Task)
    → weights max (sort_by less ts) ≡ weights max ts
unfolding sort_by
weights-sort_by max less [] = refl
weights-sort_by max less (t ∷ ts) =
    weights-insert_by max less t (sort_by less ts)
    ∙ ap (λ n. weight max t + n) (weights-sort_by max less ts)

-- What the queue's tasks have left
abbrev pub left_in : ℕ → WorkQueue → ℕ
left_in max q = weights max q.ready + weights max q.delayed

next_left :
    (max now : ℕ) (t : Task) (q q' : WorkQueue)
    → next now q ≡ (some t, q')
    → left_in max q ≡ weight max t + left_in max q'
next_left max now t q q' e =
    let taken = next-Taken now t q q' e in
    let soon = (due now q.delayed).0 in
    let later = (due now q.delayed).1 in
    let front = ap (weights max) taken.ready in
    let rest = ap (weights max) taken.delayed in
    let split = ap (weights max) (due_append now q.delayed) in
    omega (arith, weights-append max q.ready soon, weights-append max soon later)

Kept-left : (max : ℕ) (q q' : WorkQueue) → Kept q q' → left_in max q' ≡ left_in max q
Kept-left max q q' k = rw (k.ready, k.delayed) refl

count_down_left : (max : ℕ) (q : WorkQueue) → left_in max (count_down q) ≡ left_in max q
unfolding count_down
count_down_left max q =
    if_both (λ (r : WorkQueue). left_in max r ≡ left_in max q) (is_zero (decrement q.depth)) refl
      refl

complete_left : (max : ℕ) (t : Task) (q : WorkQueue) → left_in max (complete t q) ≡ left_in max q
unfolding complete
complete_left max t q =
    count_down_left max (finish t q) ∙ Kept-left max q (finish t q) (finish-Kept t q)

requeue_left :
    (max : ℕ) (t : Task) (q : WorkQueue) → left_in max (requeue t q) ≤ weight max t + left_in max q
unfolding delayed_queue
requeue_left max t q = elim (Bool-cases q.is_closed) [
  | inl c ↦
      let same = Kept-left max q (finish t q) (finish-Kept t q) in
      rw (requeue_closed t q c) (omega arith)
  | inr c ↦
      let same =
        Kept-left max (delayed_queue t q) (signal (delayed_queue t q))
          (signal-Kept (delayed_queue t q)) in
      rw (requeue_open t q c) (
        omega (
          arith,
          weights-sort_by max before (q.delayed ++ t ∷ []),
          weights-append max q.delayed (t ∷ []),
        ))
]

and_right : (a b : Bool) → (a && b) ≡ true → b ≡ true
and_right a b h = ground arith

module _ (E : Setting) where
  abbrev pub left_of : Worker E → ℕ
  left_of w = left_in E.max_attempts w.queue

  retry_left :
      (t : Task) (f : Failure) (w : Worker E)
      → left_of (retry E t f w) ≤ weight E.max_attempts t + left_of w
  unfolding retry ◌>>=◌
  retry_left t f w =
      requeue_left E.max_attempts (tried_again t (or_now E (schedule E t f w.engine).0)) w.queue

  after_failure_left :
      (t : Task) (f : Failure) (w : Worker E)
      → left_of (after_failure E (record t { attempts = t.attempts + 1 }) f w)
        < weight E.max_attempts t + left_of w
  unfolding after_failure give_up
  after_failure_left t f w =
      let again : Task = record t { attempts = t.attempts + 1 } in
      elim (Bool-cases (retryable f && ltb again.attempts E.max_attempts)) [
        | inl b ↦
            let few = ltb→lt again.attempts E.max_attempts (and_right (retryable f) _ b) in
            let kept = retry_left again f w in rw b (omega arith)
        | inr b ↦ let same = complete_left E.max_attempts again w.queue in rw b (omega arith)
      ]

  after_process_left :
      (t : Task) (r : Result Failure Outcome) (w : Worker E)
      → left_of (after_process E t r w) < weight E.max_attempts t + left_of w
  unfolding after_process
  after_process_left t (ok o) w = let same = complete_left E.max_attempts t w.queue in omega arith
  after_process_left t (err f) w = elim (Bool-cases (E.peers.cancelled w.engine.world)) [
    | inl b ↦ let same = complete_left E.max_attempts t w.queue in rw b (omega arith)
    | inr b ↦ rw b (after_failure_left t f w)
  ]

  run_task_left :
      (t : Task) (w : Worker E) → left_of (run_task E t w) < weight E.max_attempts t + left_of w
  unfolding run_task
  run_task_left t w =
      after_process_left t (process E t.sync t.event w.engine).0
        (record w { engine = (process E t.sync t.event w.engine).1 })

  -- A run that comes to its end, in a state from which the loop does not go on
  abbrev pub Drained : ℕ → Worker E → Type 0
  Drained fuel w = (w' : Worker E) × (drain E fuel w ≡ some w') × ((drain_step E w').0 ≡ false)

  drain_found-none :
      (p : Option Task × WorkQueue) (w : Worker E) → p.0 ≡ none → (drain_found E p w).0 ≡ false
  unfolding drain_found
  drain_found-none (none, q) w e = refl
  drain_found-none (some t, q) w e = cc

  drain_on_left :
      (fuel : ℕ) (w : Worker E) (p : Option Task × WorkQueue)
      → ((v : Worker E) → left_of v < fuel → Drained fuel v)
      → next (E.peers.time w.engine.world) w.queue ≡ p
      → left_of w < suc fuel
      → E.peers.cancelled w.engine.world ≡ false
      → (w' : Worker E) × (drain_on E (drain E fuel) (drain_found E p w) ≡ some w')
        × ((drain_step E w').0 ≡ false)
  unfolding drain_found drain_step
  drain_on_left fuel w (none, q) ih e h c = (
    record w { queue = q },
    refl,
    rw c (
        drain_found-none (next (E.peers.time w.engine.world) q) (record w { queue = q })
          (next_again (E.peers.time w.engine.world) w.queue q e)),
  )
  drain_on_left fuel w (some t, q) ih e h c =
      let before = next_left E.max_attempts (E.peers.time w.engine.world) t w.queue q e in
      let after = run_task_left t (record w { queue = q }) in
      ih (run_task E t (record w { queue = q })) (omega arith)

  -- Drain comes to its end in a state from which its loop does not go on, on any fuel above the
  -- number of attempts that the queued tasks have left, each task counted once more.
  pub drain_ends : (fuel : ℕ) (w : Worker E) → left_of w < fuel → Drained fuel w
  unfolding drain drain_step
  drain_ends zero w h = absurd (omega arith)
  drain_ends (suc fuel) w h = elim (Bool-cases (E.peers.cancelled w.engine.world)) [
    | inl c ↦ (w, rw c refl, rw c refl)
    | inr c ↦ rw c (
        drain_on_left fuel w (next (E.peers.time w.engine.world) w.queue) (λ v. drain_ends fuel v)
          refl h c)
  ]
