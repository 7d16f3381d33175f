-- ===== src/Store/Overlay/Taking.antt =====
-- internal/store/overlay.go: `Take`.
use crm_bisync.Prelude.{
  ℕ, ◌≤◌, ◌≡◌, refl, false, none, some, Bytes, str_eq_iff, arith, if◌then◌else◌, inl, inr,
  Bool-cases, Option-cases, none_of_none,
}
use crm_bisync.Prelude.Result.{ok}
use crm_bisync.Store.Defs.{Store, IsLawful, same}
use crm_bisync.Store.Mem.Writes
use crm_bisync.Store.Mem.Lawful
use crm_bisync.Store.Overlay.{State, delete, take, take_got, is_deleted}
use crm_bisync.Store.Overlay.View.{
  IsPlain, IsOpen, view, get_lem, delete_lem, delete-IsOpen, view-delete,
}

module _ {V : Type 0} (S : Store V) (L : IsLawful S) where
  take_got-some :
      (c k : Bytes) (v : V) (o : State S)
      → IsOpen S L o
      → take_got S c k (ok (some v)) o ≡ (ok (some v), (delete S c k o).1)
  unfolding take_got
  take_got-some c k v o h =
      rw (delete_lem S L c k o h) (ground (arith, Lawful.delete_ok c k o.over h.over_open))

  take_lem :
      (now : ℕ) (c k : Bytes) (o : State S)
      → IsOpen S L o
      → take S now c k o ≡ take_got S c k (ok (view S L now c k o)) o
  unfolding take
  take_lem now c k o h = rw (get_lem S L now c k o h)

  pub take_ok :
      (now : ℕ) (c k : Bytes) (o : State S)
      → IsOpen S L o
      → (take S now c k o).0 ≡ ok (view S L now c k o)
  take_ok now c k o h = elim (Option-cases (view S L now c k o)) [
    | inl e ↦ rw (take_lem now c k o h) (rw e (unfold take_got in refl))
    | inr (v, e) ↦ rw (take_lem now c k o h) (rw (e, take_got-some c k v o h))
  ]

  pub take-IsOpen :
      (now : ℕ) (c k : Bytes) (o : State S) → IsOpen S L o → IsOpen S L (take S now c k o).1
  take-IsOpen now c k o h = elim (Option-cases (view S L now c k o)) [
    | inl e ↦ rw (take_lem now c k o h) (rw e (unfold take_got in h))
    | inr (v, e) ↦
        rw (take_lem now c k o h) (rw (e, take_got-some c k v o h) (delete-IsOpen S L c k o h))
  ]

  -- What is invisible now, in the layer and below it, stays so.
  stays_hidden :
      (now later : ℕ) (c k : Bytes) (o : State S)
      → now ≤ later
      → view S L now c k o ≡ none
      → view S L later c k o ≡ none
  unfolding view
  stays_hidden now later c k o le h = elim (Bool-cases (is_deleted S c k o)) [
    | inl e ↦ rw (e, over_none) refl
    | inr e ↦ rw (e, over_none) (base_none e)
  ]
    where
      over_none : Writes.view later c k o.over ≡ none
      over_none =
          none_of_none _ _ (λ v. Lawful.view_earlier now later c k o.over v le) (ground arith)

      base_none : is_deleted S c k o ≡ false → L.view later c k o.base ≡ none
      base_none e =
          none_of_none (L.view now c k o.base) _ (λ v. L.view_earlier now later c k o.base v le)
            (ground arith)

  pub view-take :
      (now : ℕ) (c k : Bytes) (o : State S) (later : ℕ) (c' k' : Bytes)
      → IsPlain c
      → IsPlain c'
      → IsOpen S L o
      → now ≤ later
      → view S L later c' k' (take S now c k o).1
        ≡ (if same c k c' k' then none else view S L later c' k' o)
  view-take now c k o later c' k' p p' h le = elim (Option-cases (view S L now c k o)) [
    | inl e ↦ rw (take_lem now c k o h) (
        rw e (
          unfold take_got in
          (ground (arith, str_eq_iff c c', str_eq_iff k k', stays_hidden now later c k o le e))))
    | inr (v, e) ↦
        rw (take_lem now c k o h)
          (rw (e, take_got-some c k v o h) (view-delete S L c k o later c' k' p p' h))
  ]
