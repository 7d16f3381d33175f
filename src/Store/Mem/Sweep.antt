-- ===== src/Store/Mem/Sweep.antt =====
-- internal/store/mem.go: `Sweep` and what readers see.
use crm_bisync.Prelude.{
  ℕ, ◌≤◌, ◌≡◌, ◌∙◌, refl, ap, false, Option, none, some, [], ◌∷◌, Bytes, str_eq_iff, arith,
  if◌then◌else◌, inl, inr, Bool-cases,
}
use crm_bisync.Prelude.Result.{ok}
use crm_bisync.Prelude.Dict.{Dict, lookup, NodupKeys}
use crm_bisync.Store.Defs.{Entry, live}
use crm_bisync.Store.Mem.{Mem, table, visible, sweep_table, sweep_tables, sweep}
use crm_bisync.Store.Mem.Writes.{IsOpen, view}

module _ {V : Type 0} where
  -- An entry as a sweep leaves it.
  abbrev kept : ℕ → Option (Entry V) → Option (Entry V)
  kept t none = none
  kept t (some e) = if live e.expires_at t then some e else none

  lookup-sweep_table :
      (t : ℕ) (k : Bytes) (d : Dict (Entry V))
      → NodupKeys d
      → lookup k (sweep_table t d).0 ≡ kept t (lookup k d)
  unfolding lookup sweep_table
  lookup-sweep_table t k [] h = refl
  lookup-sweep_table t k ((j, e) ∷ d) (fresh, once) =
      ground (arith, str_eq_iff j k, lookup-sweep_table t k d once)

  NodupKeys-sweep_table : (t : ℕ) (d : Dict (Entry V)) → NodupKeys d → NodupKeys (sweep_table t d).0
  unfolding sweep_table
  NodupKeys-sweep_table t [] h = tt
  NodupKeys-sweep_table t ((j, e) ∷ d) (fresh, once) =
      ground (arith, lookup-sweep_table t j d once, NodupKeys-sweep_table t d once)

  swept : ℕ → Option (Dict (Entry V)) → Option (Dict (Entry V))
  swept t none = none
  swept t (some d) = some (sweep_table t d).0

  lookup-sweep_tables :
      (t : ℕ) (c : Bytes) (ts : Dict (Dict (Entry V)))
      → lookup c (sweep_tables t ts).0 ≡ swept t (lookup c ts)
  unfolding lookup sweep_tables swept
  lookup-sweep_tables t c [] = refl
  lookup-sweep_tables t c ((j, d) ∷ ts) = ground (arith, lookup-sweep_tables t c ts)

  NodupKeys-sweep_tables :
      (t : ℕ) (ts : Dict (Dict (Entry V))) → NodupKeys ts → NodupKeys (sweep_tables t ts).0
  unfolding sweep_tables
  NodupKeys-sweep_tables t [] h = tt
  NodupKeys-sweep_tables t ((j, d) ∷ ts) (fresh, once) = (
    lookup-sweep_tables t j ts ∙ (rw fresh (unfold swept in refl)),
    NodupKeys-sweep_tables t ts once,
  )

  sweep_lem :
      (t : ℕ) (m : Mem V)
      → m.is_closed ≡ false
      → (sweep t m).1 ≡ record m { tables = (sweep_tables t m.tables).0 }
  unfolding sweep
  sweep_lem t m h = ground arith

  table-sweep :
      (t : ℕ) (c : Bytes) (m : Mem V)
      → table c (record m { tables = (sweep_tables t m.tables).0 }) ≡ (sweep_table t (table c m)).0
  unfolding swept sweep_table
  table-sweep t c m = ground (arith, lookup-sweep_tables t c m.tables)

  pub sweep-IsOpen : (t : ℕ) (m : Mem V) → IsOpen m → IsOpen (sweep t m).1
  sweep-IsOpen t m h = rw (sweep_lem t m h.not_closed) (record {
    not_closed = h.not_closed;
    keys_once = NodupKeys-sweep_tables t m.tables h.keys_once;
    table_keys_once = λ c. rw (table-sweep t c m) (NodupKeys-sweep_table t _ (h.table_keys_once c));
  })

  -- What a sweep has left it does not drop.
  swept_table : (t : ℕ) (d : Dict (Entry V)) → (sweep_table t (sweep_table t d).0).1 ≡ 0
  unfolding sweep_table
  swept_table t [] = refl
  swept_table t ((j, e) ∷ d) = elim (Bool-cases (live e.expires_at t)) [
    | inl l ↦ rw l (rw l (swept_table t d))
    | inr l ↦ rw l (swept_table t d)
  ]

  swept_tables : (t : ℕ) (ts : Dict (Dict (Entry V))) → (sweep_tables t (sweep_tables t ts).0).1 ≡ 0
  unfolding sweep_tables
  swept_tables t [] = refl
  swept_tables t ((j, d) ∷ ts) = ground (arith, swept_table t d, swept_tables t ts)

  pub sweep_ok : (t : ℕ) (m : Mem V) → IsOpen m → (n : ℕ) × ((sweep t m).0 ≡ ok n)
  unfolding sweep
  sweep_ok t m h = ((sweep_tables t m.tables).1, simp h.not_closed refl)

  pub sweep_again : (t : ℕ) (m : Mem V) → IsOpen m → (sweep t (sweep t m).1).0 ≡ ok 0
  unfolding sweep
  sweep_again t m h =
      rw (sweep_lem t m h.not_closed) (simp h.not_closed (ap (λ n. ok n) (swept_tables t m.tables)))

  kept_later : (t now : ℕ) (o : Option (Entry V)) → t ≤ now → visible now (kept t o) ≡ visible now o
  unfolding live
  kept_later t now o le = ground arith

  pub view-sweep :
      (t : ℕ) (m : Mem V) (now : ℕ) (c k : Bytes)
      → IsOpen m
      → t ≤ now
      → view now c k (sweep t m).1 ≡ view now c k m
  unfolding view
  view-sweep t m now c k h le = rw (sweep_lem t m h.not_closed) (
      rw (table-sweep t c m)
        (rw (lookup-sweep_table t k (table c m) (h.table_keys_once c)) (kept_later t now _ le)))
