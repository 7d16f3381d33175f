-- ===== src/Engine/Queue/Runs.antt =====
-- internal/engine/queue.go: runs of the queue and its workers, as sequences of steps.
use crm_bisync.Prelude.{
  ℕ, ◌==◌, ==_iff, ◌≡◌, inl, inr, ◌∙◌, refl, sym, ap, Bool, true, false, not, ◌&&◌, ◌||◌, none,
  some, List, [], ◌∷◌, ◌++◌, leb, ltb, arith, Bool-cases, if_both, if◌then◌else◌,
}
use crm_bisync.Prelude.Int.{ℤ}
use crm_bisync.Prelude.Sorting.{any_b, any_b-append, sort_by}
use crm_bisync.Engine.Queue.{
  Task, WorkQueue, new_queue, has_finished, finish, signal, push, due, promote, take_ready, next,
  complete, before, requeue, close, increment,
}

-- The queue, the tasks that its workers hold, and every task that was ever pushed
pub record System : Type 0 where
  pub queue : WorkQueue
  pub in_flight : List Task
  pub pushed : List Task

-- A worker's copy of a task may differ in its attempts and its instant.
abbrev pub same_task : Task → Task → Bool
same_task t u = (u.id == t.id) && (if u.awaited then t.awaited else not t.awaited)

pub data Step : System → System → Type 0 where
  pushes :
      (t : Task) (y : System)
      → Step y (record y { queue = (push t y.queue).1; pushed = t ∷ y.pushed })
  takes :
      (now : ℕ) (t : Task) (q : WorkQueue) (y : System)
      → next now y.queue ≡ (some t, q)
      → Step y (record y { queue = q; in_flight = t ∷ y.in_flight })
  completes :
      (t : Task) (others rest : List Task) (y : System)
      → y.in_flight ≡ others ++ t ∷ rest
      → Step y (record y { queue = complete t y.queue; in_flight = others ++ rest })
  requeues :
      (t again : Task) (others rest : List Task) (y : System)
      → y.in_flight ≡ others ++ t ∷ rest
      → same_task t again ≡ true
      → Step y (record y { queue = requeue again y.queue; in_flight = others ++ rest })
  closes : (y : System) → Step y (record y { queue = close y.queue })

pub data Reaches : System → System → Type 0 where
  stays : (y : System) → Reaches y y
  steps : {x y z : System} → Reaches x y → Step y z → Reaches x z

abbrev pub started : ℤ → System
started workers = record { queue = new_queue workers; in_flight = []; pushed = [] }

-- Who waits for the task is released, or there is nobody.
abbrev pub released : Task → WorkQueue → Bool
released t q = not t.awaited || has_finished t q

abbrev pub held : Task → List Task → Bool
held t xs = any_b (same_task t) xs

-- The task is released or still somewhere.
abbrev pub placed : Task → System → Bool
placed t y =
    released t y.queue || held t y.queue.ready || held t y.queue.delayed || held t y.in_flight

pub released-finish :
    (t u : Task) (q : WorkQueue)
    → released t q || same_task t u ≡ true
    → released t (finish u q) ≡ true
unfolding finish
released-finish t u q h = ground (arith, ==_iff u.id t.id)

pub due_append : (now : ℕ) (ts : List Task) → ts ≡ (due now ts).0 ++ (due now ts).1
unfolding due
due_append now [] = refl
due_append now (t ∷ ts) = elim (Bool-cases (leb t.not_before now)) [
  | inl e ↦ rw e (ap (λ xs. t ∷ xs) (due_append now ts))
  | inr e ↦ rw e refl
]

-- What is taken stands in front of the tasks that stay ready.
pub record Taken (now : ℕ) (t : Task) (q q' : WorkQueue) : Type 0 where
  pub ready : q.ready ++ (due now q.delayed).0 ≡ t ∷ q'.ready
  pub delayed : q'.delayed ≡ (due now q.delayed).1
  pub depth : q'.depth ≡ q.depth
  pub is_closed : q'.is_closed ≡ q.is_closed
  pub finished : q'.finished ≡ q.finished

pub next-Taken :
    (now : ℕ) (t : Task) (q q' : WorkQueue) → next now q ≡ (some t, q') → Taken now t q q'
unfolding next promote take_ready
next-Taken now t q q' e = go (q.ready ++ (due now q.delayed).0) refl e
  where
    go :
        (ready : List Task)
        → q.ready ++ (due now q.delayed).0 ≡ ready
        → take_ready ready (promote now q) ≡ (some t, q')
        → Taken now t q q'
    go [] r e = let p : none ≡ some t = ap (λ x. x.0) e in cc
    go (u ∷ us) r e =
        let head : some u ≡ some t = ap (λ x. x.0) e in
        let same : u ≡ t = cc in
        let q_is = ap (λ x. x.1) e in
        record {
          ready = r ∙ rw same (ap (λ x. t ∷ x.ready) q_is);
          delayed = sym (ap (λ x. x.delayed) q_is);
          depth = sym (ap (λ x. x.depth) q_is);
          is_closed = sym (ap (λ x. x.is_closed) q_is);
          finished = sym (ap (λ x. x.finished) q_is);
        }

pub held-promoted :
    (now : ℕ) (t u : Task) (q q' : WorkQueue)
    → Taken now u q q'
    → (held t q.ready || held t q.delayed) ≡ (same_task t u || held t q'.ready || held t q'.delayed)
held-promoted now t u q q' h =
    let soon = (due now q.delayed).0 in
    let later = (due now q.delayed).1 in
    let front = ap (held t) h.ready in
    let left = ap (held t) h.delayed in
    let split = ap (held t) (due_append now q.delayed) in
    ground (arith, any_b-append (same_task t) q.ready soon, any_b-append (same_task t) soon later)

-- What finishing a task and signalling keep
pub record Kept (q q' : WorkQueue) : Type 0 where
  pub ready : q'.ready ≡ q.ready
  pub delayed : q'.delayed ≡ q.delayed
  pub depth : q'.depth ≡ q.depth
  pub is_closed : q'.is_closed ≡ q.is_closed

pub Kept-refl : (q : WorkQueue) → Kept q q
Kept-refl q = record { ready = refl; delayed = refl; depth = refl; is_closed = refl }

pub finish-Kept : (t : Task) (q : WorkQueue) → Kept q (finish t q)
unfolding finish
finish-Kept t q =
    if_both (Kept q) (not t.awaited || has_finished t q) (Kept-refl q)
      (record { ready = refl; delayed = refl; depth = refl; is_closed = refl })

pub signal-Kept : (q : WorkQueue) → Kept q (signal q)
unfolding signal
signal-Kept q =
    if_both (Kept q) (ltb q.wake q.capacity)
      (record { ready = refl; delayed = refl; depth = refl; is_closed = refl }) (Kept-refl q)

pub finished-signal : (q : WorkQueue) → (signal q).finished ≡ q.finished
unfolding signal
finished-signal q =
    if_both (λ (r : WorkQueue). r.finished ≡ q.finished) (ltb q.wake q.capacity) refl refl

unfoldable pub pushed_queue : Task → WorkQueue → WorkQueue
pushed_queue t q = record q { ready = q.ready ++ t ∷ []; depth = increment q.depth }

pub push_lem :
    (t : Task) (q : WorkQueue)
    → (push t q).1 ≡ (if q.is_closed then finish t q else signal (pushed_queue t q))
unfolding push pushed_queue
push_lem t q = elim (Bool-cases q.is_closed) [ inl e ↦ rw e refl | inr e ↦ rw e refl ]

unfoldable pub delayed_queue : Task → WorkQueue → WorkQueue
delayed_queue t q = record q { delayed = sort_by before (q.delayed ++ t ∷ []) }

pub requeue_lem :
    (t : Task) (q : WorkQueue)
    → requeue t q ≡ (if q.is_closed then finish t q else signal (delayed_queue t q))
unfolding requeue delayed_queue
requeue_lem t q = refl

pub push_closed : (t : Task) (q : WorkQueue) → q.is_closed ≡ true → (push t q).1 ≡ finish t q
push_closed t q c =
    push_lem t q ∙ ap (λ (b : Bool). if b then finish t q else signal (pushed_queue t q)) c

pub push_open :
    (t : Task) (q : WorkQueue) → q.is_closed ≡ false → (push t q).1 ≡ signal (pushed_queue t q)
push_open t q c =
    push_lem t q ∙ ap (λ (b : Bool). if b then finish t q else signal (pushed_queue t q)) c

pub requeue_closed : (t : Task) (q : WorkQueue) → q.is_closed ≡ true → requeue t q ≡ finish t q
requeue_closed t q c =
    requeue_lem t q ∙ ap (λ (b : Bool). if b then finish t q else signal (delayed_queue t q)) c

pub requeue_open :
    (t : Task) (q : WorkQueue) → q.is_closed ≡ false → requeue t q ≡ signal (delayed_queue t q)
requeue_open t q c =
    requeue_lem t q ∙ ap (λ (b : Bool). if b then finish t q else signal (delayed_queue t q)) c

-- What is not due now is not due on a second look.
due_later : (now : ℕ) (ts : List Task) → (due now (due now ts).1).0 ≡ []
unfolding due
due_later now [] = refl
due_later now (t ∷ ts) = elim (Bool-cases (leb t.not_before now)) [
  | inl e ↦ rw e (due_later now ts)
  | inr e ↦ rw (e, due) (rw e refl)
]

-- Where nothing is ready, nothing is on a second look.
pub next_again : (now : ℕ) (q q' : WorkQueue) → next now q ≡ (none, q') → (next now q').0 ≡ none
unfolding next promote take_ready
next_again now q q' e = go (q.ready ++ (due now q.delayed).0) refl e
  where
    go :
        (ready : List Task)
        → q.ready ++ (due now q.delayed).0 ≡ ready
        → take_ready ready (promote now q) ≡ (none, q')
        → (next now q').0 ≡ none
    go (u ∷ us) r e = let p : some u ≡ none = ap (λ x. x.0) e in cc
    go [] r e =
        let q_is = ap (λ x. x.1) e in
        let nothing_ready : q'.ready ≡ [] = sym (ap (λ x. x.ready) q_is) ∙ r in
        let later : q'.delayed ≡ (due now q.delayed).1 = sym (ap (λ x. x.delayed) q_is) in
        let nothing_due : (due now q'.delayed).0 ≡ [] = rw later (due_later now q.delayed) in
        let nothing : q'.ready ++ (due now q'.delayed).0 ≡ [] =
          rw (nothing_ready, nothing_due) refl in
        ap (λ (l : List Task). (take_ready l (promote now q')).0) nothing
