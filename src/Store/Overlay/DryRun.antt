-- ===== src/Store/Overlay/DryRun.antt =====
-- internal/store/overlay.go: a run over the overlay beside the same run over the store.
use crm_bisync.Prelude.{
  ℕ, ◌≤◌, ◌≡◌, refl, ap, ap₂, true, false, Option, none, some, List, [], ◌∷◌, Bytes, str_eq_refl,
  arith,
}
use crm_bisync.Prelude.Result.{Result, ok, err}
use crm_bisync.Store.Defs.{Store, IsLawful, StoreErr, live}
use crm_bisync.Store.Overlay.{
  State, new_overlay, get, put, delete, take, take_got, list, len, sweep, close, overlay_store,
  get_over, from_base, list_base, counted,
}
use crm_bisync.Store.Overlay.View.{
  IsPlain, IsOpen, view, get_lem, put_ok, put-IsOpen, view-put, delete_ok, delete-IsOpen,
  view-delete, new_overlay-IsOpen, view-new_overlay,
}
use crm_bisync.Store.Overlay.Taking.{take_ok, take-IsOpen, view-take}

module _ {V : Type 0} (S : Store V) (L : IsLawful S) where
  base-get : (now : ℕ) (c k : Bytes) (o : State S) → (get S now c k o).1.base ≡ o.base
  unfolding get get_over from_base
  base-get now c k o = ground (arith, L.get_reads now c k o.base)

  base-take : (now : ℕ) (c k : Bytes) (o : State S) → (take S now c k o).1.base ≡ o.base
  unfolding take take_got
  base-take now c k o = ground (arith, base-get now c k o)

  base-list :
      (now : ℕ) (c : Bytes) (limit : ℕ) (o : State S) → (list S now c limit o).1.base ≡ o.base
  unfolding list list_base
  base-list now c limit o = ground (arith, L.list_reads now c 0 o.base)

  -- No operation of the overlay changes the store below it.
  pub base_untouched :
      (now : ℕ) (c k : Bytes) (v : V) (e : ℕ) (limit : ℕ) (o : State S)
      → ((get S now c k o).1.base ≡ o.base)
        × ((put S c k v e o).1.base ≡ o.base)
        × ((delete S c k o).1.base ≡ o.base)
        × ((take S now c k o).1.base ≡ o.base)
        × ((list S now c limit o).1.base ≡ o.base)
        × ((len S now c o).1.base ≡ o.base)
        × ((sweep S now o).1.base ≡ o.base)
        × ((close S o).1.base ≡ o.base)
  base_untouched now c k v e limit o = (
    base-get now c k o,
    (unfold put in ground arith),
    (unfold delete in ground arith),
    base-take now c k o,
    base-list now c limit o,
    (unfold len counted in ground (arith, base-list now c 0 o)),
    (unfold sweep in ground arith),
    (unfold close in refl),
  )

-- The reads and writes of a run.
pub data Op (V : Type 0) : Type 0 where
  read : ℕ → Bytes → Bytes → Op V
  write : Bytes → Bytes → V → ℕ → Op V
  remove : Bytes → Bytes → Op V
  consume : ℕ → Bytes → Bytes → Op V

module _ {V : Type 0} (T : Store V) where
  abbrev pub silent : Result StoreErr (Unit {0}) → Result StoreErr (Option V)
  silent (ok _) = ok none
  silent (err e) = err e

  abbrev pub quiet : Result StoreErr (Unit {0}) × T.State → Result StoreErr (Option V) × T.State
  quiet (r, s) = (silent r, s)

  pub step : Op V → T.State → Result StoreErr (Option V) × T.State
  step (read now c k) s = T.get now c k s
  step (write c k v e) s = quiet (T.put c k v e s)
  step (remove c k) s = quiet (T.delete c k s)
  step (consume now c k) s = T.take now c k s

  -- The answers of a run, in order.
  pub answers : List (Op V) → T.State → List (Result StoreErr (Option V))
  answers [] s = []
  answers (op ∷ ops) s = let (r, s') = step op s in r ∷ answers ops s'

-- A run from `t` up to `horizon`: its instants do not go back, it names plain collections, and what
-- it writes does not expire before the horizon.
abbrev pub Fits : {V : Type 0} → ℕ → ℕ → List (Op V) → Type 0
Fits t horizon [] = Unit
Fits t horizon (read now c k ∷ ops) = (t ≤ now) × (now ≤ horizon) × IsPlain c × Fits now horizon ops
Fits t horizon (write c k v e ∷ ops) = (live e horizon ≡ true) × IsPlain c × Fits t horizon ops
Fits t horizon (remove c k ∷ ops) = IsPlain c × Fits t horizon ops
Fits t horizon (consume now c k ∷ ops) =
    (t ≤ now) × (now ≤ horizon) × IsPlain c × Fits now horizon ops

module _ {V : Type 0} (S : Store V) (L : IsLawful S) (horizon : ℕ) where
  -- From `t` up to the horizon the overlay and the store look the same.
  record Agree (t : ℕ) (o : State S) (s : S.State) : Type 0 where
    pub over_open : IsOpen S L o
    pub store_open : L.IsOpen s
    pub same_view :
        (now : ℕ) (c k : Bytes)
        → t ≤ now
        → now ≤ horizon
        → IsPlain c
        → view S L now c k o ≡ L.view now c k s

  live_before : (e now : ℕ) → live e horizon ≡ true → now ≤ horizon → live e now ≡ true
  unfolding live
  live_before e now h le = ground arith

  Agree-write :
      {t : ℕ} (c k : Bytes) (v : V) (e : ℕ) (o : State S) (s : S.State)
      → live e horizon ≡ true
      → IsPlain c
      → Agree t o s
      → Agree t (put S c k v e o).1 (S.put c k v e s).1
  Agree-write c k v e o s fresh p h = record {
    over_open = put-IsOpen S L c k v e o h.over_open;
    store_open = L.put-IsOpen c k v e s h.store_open;
    same_view = λ now c' k' from upto p'.
        rw
          (
            view-put S L c k v e o now c' k' p p' h.over_open,
            L.view-put c k v e s now c' k' h.store_open,
          )
          (ground (arith, live_before e now fresh upto, h.same_view now c' k' from upto p'));
  }

  Agree-remove :
      {t : ℕ} (c k : Bytes) (o : State S) (s : S.State)
      → IsPlain c
      → Agree t o s
      → Agree t (delete S c k o).1 (S.delete c k s).1
  Agree-remove c k o s p h = record {
    over_open = delete-IsOpen S L c k o h.over_open;
    store_open = L.delete-IsOpen c k s h.store_open;
    same_view = λ now c' k' from upto p'.
        rw
          (
            view-delete S L c k o now c' k' p p' h.over_open,
            L.view-delete c k s now c' k' h.store_open,
          )
          (ground (arith, h.same_view now c' k' from upto p'));
  }

  Agree-consume :
      {t : ℕ} (at : ℕ) (c k : Bytes) (o : State S) (s : S.State)
      → t ≤ at
      → IsPlain c
      → Agree t o s
      → Agree at (take S at c k o).1 (S.take at c k s).1
  Agree-consume at c k o s le p h = record {
    over_open = take-IsOpen S L at c k o h.over_open;
    store_open = L.take-IsOpen at c k s h.store_open;
    same_view = λ now c' k' from upto p'.
        rw
          (
            view-take S L at c k o now c' k' p p' h.over_open from,
            L.view-take at c k s now c' k' h.store_open from,
          )
          (ground (arith, h.same_view now c' k' (omega arith) upto p'));
  }

  Agree-later : {t t' : ℕ} (o : State S) (s : S.State) → t ≤ t' → Agree t o s → Agree t' o s
  Agree-later o s le h = record {
    over_open = h.over_open;
    store_open = h.store_open;
    same_view = λ now c k from upto p. h.same_view now c k (omega arith) upto p;
  }

  answers-Agree :
      (ops : List (Op V)) (t : ℕ) (o : State S) (s : S.State)
      → Fits t horizon ops
      → Agree t o s
      → answers (overlay_store S) ops o ≡ answers S ops s
  unfolding answers step
  answers-Agree [] t o s f h = refl
  answers-Agree (read now c k ∷ ops) t o s (from, upto, p, f) h =
      rw (get_lem S L now c k o h.over_open, L.get_lem now c k s h.store_open)
        (ap₂ ◌∷◌ (ap ok (h.same_view now c k from upto p))
          (answers-Agree ops now o s f (Agree-later o s from h)))
  answers-Agree (write c k v e ∷ ops) t o s (fresh, p, f) h =
      ap₂ ◌∷◌ (rw (put_ok S L c k v e o h.over_open, L.put_ok c k v e s h.store_open)) (
        answers-Agree ops t (put S c k v e o).1 (S.put c k v e s).1 f
          (Agree-write c k v e o s fresh p h))
  answers-Agree (remove c k ∷ ops) t o s (p, f) h =
      ap₂ ◌∷◌ (rw (delete_ok S L c k o h.over_open, L.delete_ok c k s h.store_open))
        (answers-Agree ops t (delete S c k o).1 (S.delete c k s).1 f (Agree-remove c k o s p h))
  answers-Agree (consume now c k ∷ ops) t o s (from, upto, p, f) h =
      ap₂ ◌∷◌
        (rw (take_ok S L now c k o h.over_open, L.take_ok now c k s h.store_open)
          (ap ok (h.same_view now c k from upto p)))
        (answers-Agree ops now (take S now c k o).1 (S.take now c k s).1 f
          (Agree-consume now c k o s from p h))

  Agree-new : (s : S.State) → L.IsOpen s → Agree 0 (new_overlay S s) s
  Agree-new s h = record {
    over_open = new_overlay-IsOpen S L s h;
    store_open = h;
    same_view = λ now c k from upto p. view-new_overlay S L now c k s;
  }

-- A run of reads and writes over a new overlay of an open store answers what the same run would
-- answer over the store, if its instants do not go back, its collections hold no separator, and
-- nothing it writes expires before its end.
pub dry_run_agrees :
    {V : Type 0} (S : Store V) (L : IsLawful S) (horizon : ℕ) (ops : List (Op V)) (s : S.State)
    → L.IsOpen s
    → Fits 0 horizon ops
    → answers (overlay_store S) ops (new_overlay S s) ≡ answers S ops s
dry_run_agrees S L horizon ops s h f =
    answers-Agree S L horizon ops 0 (new_overlay S s) s f (Agree-new S L horizon s h)

-- On an open store that holds the key, after an entry put through a new overlay has expired, a
-- read finds the base's entry, where the store itself reports the key absent.
pub expired_put_shows_base :
    {V : Type 0} (S : Store V) (L : IsLawful S) (c k : Bytes) (v old : V) (e now : ℕ) (s : S.State)
    → L.IsOpen s
    → IsPlain c
    → L.view now c k s ≡ some old
    → live e now ≡ false
    → ((get S now c k (put S c k v e (new_overlay S s)).1).0 ≡ ok (some old))
      × ((S.get now c k (S.put c k v e s).1).0 ≡ ok none)
expired_put_shows_base S L c k v old e now s h p there gone =
    let o = new_overlay S s in
    let ho = new_overlay-IsOpen S L s h in
    (
      rw (get_lem S L now c k (put S c k v e o).1 (put-IsOpen S L c k v e o ho)) (
          rw (view-put S L c k v e o now c k p p ho)
            (simp (str_eq_refl, gone) (unfold new_overlay in ap ok there))),
      rw (L.get_lem now c k (S.put c k v e s).1 (L.put-IsOpen c k v e s h))
          (rw (L.view-put c k v e s now c k h) (simp (str_eq_refl, gone))),
    )
