-- ===== src/Engine/Queue/Promotion.antt =====
-- internal/engine/queue.go: `promote`.
use crm_bisync.Prelude.{
  ℕ, ◌≡◌, ◌≤◌, ◌<◌, refl, ap, false, List, [], ◌∷◌, ◌++◌, All, leb, arith, inl, inr, Bool-cases,
}
use crm_bisync.Prelude.Sorting.{IsSorted}
use crm_bisync.Engine.Queue.{Task, WorkQueue, before, due, promote}

All-later :
    (now : ℕ) (t : Task) (ts : List Task)
    → now < t.not_before
    → All (λ u. before u t ≡ false) ts
    → All (λ u. now < u.not_before) ts
All-later now t [] h a = tt
All-later now t (u ∷ us) h (b, bs) = (ground arith, All-later now t us h bs)

due_lem :
    (now : ℕ) (ts : List Task)
    → IsSorted before ts
    → (ts ≡ (due now ts).0 ++ (due now ts).1)
      × All (λ t. t.not_before ≤ now) (due now ts).0
      × All (λ t. now < t.not_before) (due now ts).1
unfolding due
due_lem now [] s = (refl, tt, tt)
due_lem now (t ∷ ts) (a, s) = elim (Bool-cases (leb t.not_before now)) [
  | inl e ↦ let (p, q, r) = due_lem now ts s in rw e (ap (λ xs. t ∷ xs) p, (ground arith, q), r)
  | inr e ↦ rw e (refl, tt, (ground arith, All-later now t ts (ground arith) a))
]

-- Of delayed tasks in order of their instants promote appends to the ready ones just those whose
-- instant has come, in order, and leaves just those whose instant is to come.
pub promote_exact :
    (now : ℕ) (q : WorkQueue)
    → IsSorted before q.delayed
    → (soon : List Task) × (q.delayed ≡ soon ++ (promote now q).delayed)
      × ((promote now q).ready ≡ q.ready ++ soon)
      × All (λ t. t.not_before ≤ now) soon
      × All (λ t. now < t.not_before) (promote now q).delayed
unfolding promote
promote_exact now q s =
    let (p, l, r) = due_lem now q.delayed s in ((due now q.delayed).0, p, refl, l, r)
