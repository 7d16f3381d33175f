-- ===== src/Store/Mem/Writes.antt =====
-- internal/store/mem.go: what the writes leave visible.
use crm_bisync.Prelude.{
  ℕ, ◌≡◌, refl, false, Option, none, some, Bytes, str_eq, str_eq_iff, arith, if◌then◌else◌, inl,
  inr, Bool-cases, Option-cases,
}
use crm_bisync.Prelude.Dict.{
  Dict, lookup, insert, erase, lookup-insert, lookup-erase, lookup-nil, NodupKeys, insert-NodupKeys,
  erase-NodupKeys,
}
use crm_bisync.Prelude.Result.{ok}
use crm_bisync.Store.Defs.{Entry, live, same}
use crm_bisync.Store.Mem.{Mem, new_mem, write, table, visible, put, erase_in}

module _ {V : Type 0} where
  -- Open, and each map has a key once.
  pub record IsOpen (m : Mem V) : Type 0 where
    pub not_closed : m.is_closed ≡ false
    pub keys_once : NodupKeys m.tables
    pub table_keys_once : (c : Bytes) → NodupKeys (table c m)

  unfoldable pub view : ℕ → Bytes → Bytes → Mem V → Option V
  view now c k m = visible now (lookup k (table c m))

  table-write :
      (c c' : Bytes) (t : Dict (Entry V)) (m : Mem V)
      → table c' (write c t m) ≡ (if str_eq c c' then t else table c' m)
  unfolding write
  table-write c c' t m = ground (arith, lookup-insert c c' t m.tables)

  write-IsOpen :
      (c : Bytes) (t : Dict (Entry V)) (m : Mem V) → IsOpen m → NodupKeys t → IsOpen (write c t m)
  write-IsOpen c t m h once = record {
    not_closed = unfold write in h.not_closed;
    keys_once = unfold write in insert-NodupKeys c t m.tables h.keys_once;
    table_keys_once = λ c'. elim (Bool-cases (str_eq c c')) [
      | inl e ↦ rw (table-write c c' t m, e) once
      | inr e ↦ rw (table-write c c' t m, e) (h.table_keys_once c')
    ];
  }

  view-write :
      (c : Bytes) (t : Dict (Entry V)) (m : Mem V) (now : ℕ) (c' k' : Bytes)
      → view now c' k' (write c t m)
        ≡ (if str_eq c c' then visible now (lookup k' t) else view now c' k' m)
  unfolding view
  view-write c t m now c' k' = rw (table-write c c' t m) (ground arith)

  abbrev entry : Bytes → V → ℕ → Entry V
  entry k v e = record { key = k; value = v; expires_at = e }

  put_lem :
      (c k : Bytes) (v : V) (e : ℕ) (m : Mem V)
      → m.is_closed ≡ false
      → put c k v e m ≡ (ok tt, write c (insert k (entry k v e) (table c m)) m)
  unfolding put
  put_lem c k v e m h = ground arith

  pub put-IsOpen : (c k : Bytes) (v : V) (e : ℕ) (m : Mem V) → IsOpen m → IsOpen (put c k v e m).1
  put-IsOpen c k v e m h =
      rw (put_lem c k v e m h.not_closed)
        (write-IsOpen c _ m h (insert-NodupKeys k _ (table c m) (h.table_keys_once c)))

  pub view-put :
      (c k : Bytes) (v : V) (e : ℕ) (m : Mem V) (now : ℕ) (c' k' : Bytes)
      → IsOpen m
      → view now c' k' (put c k v e m).1
        ≡ (if same c k c' k' then (if live e now then some v else none) else view now c' k' m)
  view-put c k v e m now c' k' h = rw (put_lem c k v e m h.not_closed) (
      rw (view-write, lookup-insert)
        (unfold view in ground (arith, str_eq_iff c c', str_eq_iff k k')))

  pub erase_in-IsOpen :
      (c k : Bytes) (m : Mem V) → IsOpen m → IsOpen (erase_in c k (lookup c m.tables) m)
  erase_in-IsOpen c k m h = elim (Option-cases (lookup c m.tables)) [
    | inl e ↦ rw e (unfold erase_in in h)
    | inr (t, e) ↦ rw e (
        unfold erase_in in
        (write-IsOpen c (erase k t) m h (erase-NodupKeys k t (rw e at (h.table_keys_once c)))))
  ]

  pub view-erase_in :
      (c k : Bytes) (m : Mem V) (now : ℕ) (c' k' : Bytes)
      → view now c' k' (erase_in c k (lookup c m.tables) m)
        ≡ (if same c k c' k' then none else view now c' k' m)
  view-erase_in c k m now c' k' = elim (Option-cases (lookup c m.tables)) [
    | inl e ↦ rw e (
        unfold erase_in view in
        ground (arith, str_eq_iff c c', str_eq_iff k k', lookup-nil {V = Entry V} k'))
    | inr (t, e) ↦ rw e (
        unfold erase_in in
        rw (view-write, lookup-erase)
          (unfold view in ground (arith, str_eq_iff c c', str_eq_iff k k')))
  ]

  pub new_mem-IsOpen : IsOpen (new_mem {V = V})
  unfolding new_mem lookup
  new_mem-IsOpen = record { not_closed = refl; keys_once = tt; table_keys_once = λ c. tt }

  pub view-new_mem : (now : ℕ) (c k : Bytes) → view now c k (new_mem {V = V}) ≡ none
  unfolding view new_mem lookup
  view-new_mem now c k = refl
