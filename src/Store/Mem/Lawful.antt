-- ===== src/Store/Mem/Lawful.antt =====
-- internal/store/mem.go and the contract of the interface.
use crm_bisync.Prelude.{
  ℕ, ◌≤◌, ◌≡◌, refl, true, none, some, Bytes, str_eq_iff, arith, if◌then◌else◌, inl, inr,
  Option-cases,
}
use crm_bisync.Prelude.Dict.{lookup}
use crm_bisync.Prelude.Result.{ok, err}
use crm_bisync.Store.Defs.{IsLawful, live, same, closed}
use crm_bisync.Store.Mem.{
  Mem, table, get, put, delete, take, take_found, close, mem_store, list, len, sweep, new_mem,
}
use crm_bisync.Store.Mem.Writes.{
  IsOpen, view, new_mem-IsOpen, view-new_mem, put-IsOpen, view-put, erase_in-IsOpen, view-erase_in,
}
use crm_bisync.Store.Mem.Sweep.{sweep-IsOpen, view-sweep, sweep_ok, sweep_again}
use crm_bisync.Store.Mem.Listing.{
  entries, list_lem, entries-view, entries-Ascending, entries_live, len_lem,
}

module _ {V : Type 0} where
  pub get_lem :
      (now : ℕ) (c k : Bytes) (m : Mem V) → IsOpen m → get now c k m ≡ (ok (view now c k m), m)
  unfolding get view
  get_lem now c k m h = simp h.not_closed

  pub put_ok : (c k : Bytes) (v : V) (e : ℕ) (m : Mem V) → IsOpen m → (put c k v e m).0 ≡ ok tt
  unfolding put
  put_ok c k v e m h = ground (arith, h.not_closed)

  pub delete_ok : (c k : Bytes) (m : Mem V) → IsOpen m → (delete c k m).0 ≡ ok tt
  unfolding delete
  delete_ok c k m h = ground (arith, h.not_closed)

  pub delete-IsOpen : (c k : Bytes) (m : Mem V) → IsOpen m → IsOpen (delete c k m).1
  unfolding delete
  delete-IsOpen c k m h = simp h.not_closed (erase_in-IsOpen c k m h)

  pub view-delete :
      (c k : Bytes) (m : Mem V) (now : ℕ) (c' k' : Bytes)
      → IsOpen m
      → view now c' k' (delete c k m).1 ≡ (if same c k c' k' then none else view now c' k' m)
  unfolding delete
  view-delete c k m now c' k' h = simp h.not_closed (view-erase_in c k m now c' k')

  pub take_ok :
      (now : ℕ) (c k : Bytes) (m : Mem V) → IsOpen m → (take now c k m).0 ≡ ok (view now c k m)
  unfolding take view take_found
  take_ok now c k m h = ground (arith, h.not_closed)

  pub take-IsOpen : (now : ℕ) (c k : Bytes) (m : Mem V) → IsOpen m → IsOpen (take now c k m).1
  unfolding take
  take-IsOpen now c k m h = elim (Option-cases (lookup k (table c m))) [
    | inl e ↦ simp (h.not_closed, e) (unfold take_found in h)
    | inr (x, e) ↦ simp (h.not_closed, e) (unfold take_found in erase_in-IsOpen c k m h)
  ]

  pub view-take :
      (now : ℕ) (c k : Bytes) (m : Mem V) (later : ℕ) (c' k' : Bytes)
      → IsOpen m
      → now ≤ later
      → view later c' k' (take now c k m).1 ≡ (if same c k c' k' then none else view later c' k' m)
  unfolding take
  view-take now c k m later c' k' h le = elim (Option-cases (lookup k (table c m))) [
    | inl e ↦
        simp (h.not_closed, e)
          (unfold take_found view in ground (arith, str_eq_iff c c', str_eq_iff k k'))
    | inr (x, e) ↦ simp (h.not_closed, e) (unfold take_found in view-erase_in c k m later c' k')
  ]

  pub view_earlier :
      (now later : ℕ) (c k : Bytes) (m : Mem V) (v : V)
      → now ≤ later
      → view later c k m ≡ some v
      → view now c k m ≡ some v
  unfolding view live
  view_earlier now later c k m v le h = ground arith

  pub get_reads : (now : ℕ) (c k : Bytes) (m : Mem V) → (get now c k m).1 ≡ m
  unfolding get
  get_reads now c k m = ground arith

  pub list_reads : (now : ℕ) (c : Bytes) (limit : ℕ) (m : Mem V) → (list now c limit m).1 ≡ m
  unfolding list
  list_reads now c limit m = ground arith

  pub closed_get :
      (now : ℕ) (c k : Bytes) (m : Mem V) → m.is_closed ≡ true → get now c k m ≡ (err closed, m)
  unfolding get
  closed_get now c k m h = ground arith

  pub closed_put :
      (c k : Bytes) (v : V) (e : ℕ) (m : Mem V)
      → m.is_closed ≡ true
      → put c k v e m ≡ (err closed, m)
  unfolding put
  closed_put c k v e m h = ground arith

  pub closed_take :
      (now : ℕ) (c k : Bytes) (m : Mem V) → m.is_closed ≡ true → take now c k m ≡ (err closed, m)
  unfolding take
  closed_take now c k m h = ground arith

  pub closed_delete :
      (c k : Bytes) (m : Mem V) → m.is_closed ≡ true → delete c k m ≡ (err closed, m)
  unfolding delete
  closed_delete c k m h = ground (arith, h)

  pub closed_list :
      (now : ℕ) (c : Bytes) (limit : ℕ) (m : Mem V)
      → m.is_closed ≡ true
      → list now c limit m ≡ (err closed, m)
  unfolding list
  closed_list now c limit m h = ground arith

  pub closed_len :
      (now : ℕ) (c : Bytes) (m : Mem V) → m.is_closed ≡ true → len now c m ≡ (err closed, m)
  unfolding len
  closed_len now c m h = ground arith

  pub closed_sweep : (t : ℕ) (m : Mem V) → m.is_closed ≡ true → sweep t m ≡ (err closed, m)
  unfolding sweep
  closed_sweep t m h = ground arith

  pub close_ok : (m : Mem V) → (close m).0 ≡ ok tt
  unfolding close
  close_ok m = refl

  pub close-IsClosed : (m : Mem V) → (close m).1.is_closed ≡ true
  unfolding close
  close-IsClosed m = refl

abbrev pub mem_laws : (V : Type 0) → IsLawful (mem_store V)
mem_laws V = record {
  IsOpen = IsOpen;
  IsClosed = λ m. m.is_closed ≡ true;
  new = new_mem;
  new-IsOpen = new_mem-IsOpen;
  view = view;
  view-new = view-new_mem;
  get_lem = get_lem;
  get_reads = get_reads;
  list_reads = list_reads;
  put_ok = put_ok;
  put-IsOpen = put-IsOpen;
  view-put = view-put;
  delete_ok = delete_ok;
  delete-IsOpen = delete-IsOpen;
  view-delete = view-delete;
  take_ok = take_ok;
  take-IsOpen = take-IsOpen;
  view-take = view-take;
  view_earlier = view_earlier;
  entries = entries;
  list_lem = list_lem;
  entries-view = entries-view;
  entries-Ascending = entries-Ascending;
  entries_live = entries_live;
  len_lem = len_lem;
  sweep_ok = sweep_ok;
  sweep_again = sweep_again;
  sweep-IsOpen = sweep-IsOpen;
  view-sweep = view-sweep;
  closed_get = closed_get;
  closed_put = closed_put;
  closed_take = closed_take;
  closed_delete = closed_delete;
  closed_list = closed_list;
  closed_len = closed_len;
  closed_sweep = closed_sweep;
  close_ok = close_ok;
  close-IsClosed = close-IsClosed;
}
