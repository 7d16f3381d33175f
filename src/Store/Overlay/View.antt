-- ===== src/Store/Overlay/View.antt =====
-- internal/store/overlay.go: what a reader of the overlay sees.
use crm_bisync.Prelude.{
  ℕ, ◌≡◌, refl, Bool, true, false, Option, none, some, Bytes, str_eq, str_eq_iff, arith,
  if◌then◌else◌, inl, inr, Bool-cases,
}
use crm_bisync.Prelude.Strings.{Without, cut_at_separator}
use crm_bisync.Prelude.Dict.{lookup, insert, erase, lookup-insert, lookup-erase}
use crm_bisync.Prelude.Result.{ok}
use crm_bisync.Store.Defs.{Store, IsLawful, live, same}
use crm_bisync.Store.Mem
use crm_bisync.Store.Mem.Writes
use crm_bisync.Store.Mem.Lawful
use crm_bisync.Store.Mem.{Mem}
use crm_bisync.Store.Overlay.{
  State, tomb, nul, is_deleted, get, get_over, from_base, put, delete, new_overlay,
}

-- No byte of a collection's name is the separator.
abbrev pub IsPlain : Bytes → Type 0
IsPlain = Without nul

-- Tombstones of different places differ.
tomb_injective :
    (c k c' k' : Bytes) → IsPlain c → IsPlain c' → tomb c k ≡ tomb c' k' → (c ≡ c') × (k ≡ k')
unfolding tomb
tomb_injective c k c' k' p p' e = cut_at_separator nul c k c' k' p p' e

str_eq-tomb :
    (c k c' k' : Bytes) → IsPlain c → IsPlain c' → str_eq (tomb c k) (tomb c' k') ≡ same c k c' k'
str_eq-tomb c k c' k' p p' = elim (Bool-cases (str_eq (tomb c k) (tomb c' k'))) [
  | inl e ↦
      let h = tomb_injective c k c' k' p p' ((str_eq_iff _ _).0 e) in
      rw (e, (str_eq_iff c c').1 h.0, (str_eq_iff k k').1 h.1)
  | inr e ↦ ground (arith, str_eq_iff c c', str_eq_iff k k', str_eq_iff (tomb c k) (tomb c' k'))
]

module _ {V : Type 0} (S : Store V) (L : IsLawful S) where
  -- Open, with an open layer, over an open base.
  pub record IsOpen (o : State S) : Type 0 where
    pub not_closed : o.is_closed ≡ false
    pub over_open : Writes.IsOpen o.over
    pub base_open : L.IsOpen o.base

  abbrev pub below : Bool → Option V → Option V
  below true v = none
  below false v = v

  abbrev pub layered : Option V → Bool → Option V → Option V
  layered (some v) gone v' = some v
  layered none gone v' = below gone v'

  -- The layer first; then the base, where no tombstone hides it.
  unfoldable pub view : ℕ → Bytes → Bytes → State S → Option V
  view now c k o = layered (Writes.view now c k o.over) (is_deleted S c k o) (L.view now c k o.base)

  get_over_lem :
      (now : ℕ) (c k : Bytes) (v : Option V) (o : State S)
      → IsOpen o
      → get_over S now c k (ok v) o
        ≡ (ok (layered v (is_deleted S c k o) (L.view now c k o.base)), o)
  unfolding get_over
  get_over_lem now c k (some v) o h = refl
  get_over_lem now c k none o h = elim (Bool-cases (is_deleted S c k o)) [
    | inl e ↦ rw e
    | inr e ↦ rw e (rw (L.get_lem now c k o.base h.base_open) (unfold from_base in refl))
  ]

  pub get_lem :
      (now : ℕ) (c k : Bytes) (o : State S) → IsOpen o → get S now c k o ≡ (ok (view now c k o), o)
  unfolding get view
  get_lem now c k o h =
      simp (h.not_closed, Lawful.get_lem now c k o.over h.over_open)
        (get_over_lem now c k (Writes.view now c k o.over) o h)

  pub put_lem :
      (c k : Bytes) (v : V) (e : ℕ) (o : State S)
      → IsOpen o
      → put S c k v e o ≡ (
        ok tt,
        record o { deleted = erase (tomb c k) o.deleted; over = (Mem.put c k v e o.over).1 },
      )
  unfolding put
  put_lem c k v e o h = simp (h.not_closed, Lawful.put_ok c k v e o.over h.over_open)

  pub put_ok : (c k : Bytes) (v : V) (e : ℕ) (o : State S) → IsOpen o → (put S c k v e o).0 ≡ ok tt
  put_ok c k v e o h = rw (put_lem c k v e o h)

  pub put-IsOpen :
      (c k : Bytes) (v : V) (e : ℕ) (o : State S) → IsOpen o → IsOpen (put S c k v e o).1
  put-IsOpen c k v e o h = rw (put_lem c k v e o h) (record {
    not_closed = h.not_closed;
    over_open = Writes.put-IsOpen c k v e o.over h.over_open;
    base_open = h.base_open;
  })

  -- Once what was put has expired, the base shows through.
  pub view-put :
      (c k : Bytes) (v : V) (e : ℕ) (o : State S) (now : ℕ) (c' k' : Bytes)
      → IsPlain c
      → IsPlain c'
      → IsOpen o
      → view now c' k' (put S c k v e o).1 ≡ (
          if same c k c' k'
          then (if live e now then some v else L.view now c' k' o.base)
          else view now c' k' o)
  view-put c k v e o now c' k' p p' h = rw (put_lem c k v e o h) (
      unfold view is_deleted in
      rw
        (
          Writes.view-put c k v e o.over now c' k' h.over_open,
          lookup-erase,
          str_eq-tomb c k c' k' p p',
        )
        (ground arith))

  pub delete_lem :
      (c k : Bytes) (o : State S)
      → IsOpen o
      → delete S c k o ≡ (
        ok tt,
        record o { deleted = insert (tomb c k) true o.deleted; over = (Mem.delete c k o.over).1 },
      )
  unfolding delete
  delete_lem c k o h = simp (h.not_closed, Lawful.delete_ok c k o.over h.over_open)

  pub delete_ok : (c k : Bytes) (o : State S) → IsOpen o → (delete S c k o).0 ≡ ok tt
  delete_ok c k o h = rw (delete_lem c k o h)

  pub delete-IsOpen : (c k : Bytes) (o : State S) → IsOpen o → IsOpen (delete S c k o).1
  delete-IsOpen c k o h = rw (delete_lem c k o h) (record {
    not_closed = h.not_closed;
    over_open = Lawful.delete-IsOpen c k o.over h.over_open;
    base_open = h.base_open;
  })

  pub view-delete :
      (c k : Bytes) (o : State S) (now : ℕ) (c' k' : Bytes)
      → IsPlain c
      → IsPlain c'
      → IsOpen o
      → view now c' k' (delete S c k o).1 ≡ (if same c k c' k' then none else view now c' k' o)
  view-delete c k o now c' k' p p' h = rw (delete_lem c k o h) (
      unfold view is_deleted in
      rw
        (
          Lawful.view-delete c k o.over now c' k' h.over_open,
          lookup-insert,
          str_eq-tomb c k c' k' p p',
        )
        (ground arith))

  pub new_overlay-IsOpen : (s : S.State) → L.IsOpen s → IsOpen (new_overlay S s)
  unfolding new_overlay
  new_overlay-IsOpen s h = record {
    not_closed = refl;
    over_open = Writes.new_mem-IsOpen;
    base_open = h;
  }

  pub view-new_overlay :
      (now : ℕ) (c k : Bytes) (s : S.State) → view now c k (new_overlay S s) ≡ L.view now c k s
  unfolding view new_overlay is_deleted lookup
  view-new_overlay now c k s = rw Writes.view-new_mem
