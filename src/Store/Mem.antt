-- ===== src/Store/Mem.antt =====
-- internal/store/mem.go: the in-memory store. Its data is a map of maps, as in the source; the
-- mutex makes each method one step.
pub mod Writes
pub mod Sweep
pub mod Listing
pub mod Lawful
use crm_bisync.Prelude.{
  ℕ, zero, suc, ◌+◌, Bool, true, false, Option, none, some, List, [], ◌∷◌, Bytes, ltb,
  if◌then◌else◌,
}
use crm_bisync.Prelude.Strings.{str_lt}
use crm_bisync.Prelude.Sorting.{sort_by}
use crm_bisync.Prelude.Dict.{Dict, lookup, insert, erase}
use crm_bisync.Prelude.Result.{Exec, ok, err}
use crm_bisync.Store.Defs.{Store, Entry, StoreErr, closed, live, first_of_limit}

pub record Mem (V : Type 0) : Type 0 where
  pub is_closed : Bool
  pub tables : Dict (Dict (Entry V))

module _ {V : Type 0} where
  unfoldable pub new_mem : Mem V
  new_mem = record { is_closed = false; tables = [] }

  -- `m.data[collection]`: a missing table reads as an empty one.
  abbrev pub or_empty : Option (Dict (Entry V)) → Dict (Entry V)
  or_empty none = []
  or_empty (some t) = t

  abbrev pub table : Bytes → Mem V → Dict (Entry V)
  table collection m = or_empty (lookup collection m.tables)

  -- `m.data[collection] = c`
  pub write : Bytes → Dict (Entry V) → Mem V → Mem V
  write collection c m = record m { tables = insert collection c m.tables }

  abbrev pub visible : ℕ → Option (Entry V) → Option V
  visible now none = none
  visible now (some e) = if live e.expires_at now then some e.value else none

  unfoldable pub get : ℕ → Bytes → Bytes → Exec (Mem V) StoreErr (Option V)
  get now collection key m =
      if m.is_closed
      then (err closed, m)
      else (ok (visible now (lookup key (table collection m))), m)

  unfoldable pub put : Bytes → Bytes → V → ℕ → Exec (Mem V) StoreErr (Unit {0})
  unfolding write
  put collection key value expires_at m =
      let entry : Entry V = record { key = key; value = value; expires_at = expires_at } in
      if m.is_closed
      then (err closed, m)
      else (ok tt, write collection (insert key entry (table collection m)) m)

  -- `delete(m.data[collection], key)`: nothing to do on a missing table.
  pub erase_in : Bytes → Bytes → Option (Dict (Entry V)) → Mem V → Mem V
  unfolding write
  erase_in collection key none m = m
  erase_in collection key (some t) m = write collection (erase key t) m

  unfoldable pub delete : Bytes → Bytes → Exec (Mem V) StoreErr (Unit {0})
  unfolding erase_in
  delete collection key m =
      if m.is_closed
      then (err closed, m)
      else (ok tt, erase_in collection key (lookup collection m.tables) m)

  -- An entry that has expired is removed too, and not returned.
  pub take_found : ℕ → Bytes → Bytes → Option (Entry V) → Mem V → Option V × Mem V
  unfolding erase_in
  take_found now collection key none m = (none, m)
  take_found now collection key (some e) m =
      (visible now (some e), erase_in collection key (lookup collection m.tables) m)

  unfoldable pub take : ℕ → Bytes → Bytes → Exec (Mem V) StoreErr (Option V)
  unfolding take_found
  take now collection key m =
      let (found, m') = take_found now collection key (lookup key (table collection m)) m in
      if m.is_closed then (err closed, m) else (ok found, m')

  -- The keys of the live entries.
  unfoldable pub live_keys : ℕ → Dict (Entry V) → List Bytes
  live_keys now [] = []
  live_keys now ((k, e) ∷ t) =
      let rest = live_keys now t in if live e.expires_at now then k ∷ rest else rest

  abbrev pub with_key : Bytes → Option (Entry V) → List (Entry V) → List (Entry V)
  with_key k none rest = rest
  with_key k (some e) rest = record e { key = k } ∷ rest

  unfoldable pub entries_of : Dict (Entry V) → List Bytes → List (Entry V)
  entries_of t [] = []
  entries_of t (k ∷ ks) = with_key k (lookup k t) (entries_of t ks)

  unfoldable pub list : ℕ → Bytes → ℕ → Exec (Mem V) StoreErr (List (Entry V))
  unfolding live_keys entries_of
  list now collection limit m =
      let t = table collection m in
      if m.is_closed
      then (err closed, m)
      else (ok (entries_of t (first_of_limit limit (sort_by str_lt (live_keys now t)))), m)

  unfoldable pub count_live : ℕ → Dict (Entry V) → ℕ
  count_live now [] = 0
  count_live now ((k, e) ∷ t) =
      let rest = count_live now t in if live e.expires_at now then suc rest else rest

  unfoldable pub len : ℕ → Bytes → Exec (Mem V) StoreErr ℕ
  unfolding count_live
  len now collection m =
      if m.is_closed then (err closed, m) else (ok (count_live now (table collection m)), m)

  -- One table without its expired entries, and how many those were.
  unfoldable pub sweep_table : ℕ → Dict (Entry V) → Dict (Entry V) × ℕ
  sweep_table now [] = ([], 0)
  sweep_table now ((k, e) ∷ t) =
      let (t', n) = sweep_table now t in
      if live e.expires_at now then ((k, e) ∷ t', n) else (t', suc n)

  unfoldable pub sweep_tables : ℕ → Dict (Dict (Entry V)) → Dict (Dict (Entry V)) × ℕ
  unfolding sweep_table
  sweep_tables now [] = ([], 0)
  sweep_tables now ((c, t) ∷ ts) =
      let (t', n) = sweep_table now t in
      let (ts', rest) = sweep_tables now ts in ((c, t') ∷ ts', n + rest)

  unfoldable pub sweep : ℕ → Exec (Mem V) StoreErr ℕ
  unfolding sweep_tables
  sweep now m =
      let (ts, dropped) = sweep_tables now m.tables in
      if m.is_closed then (err closed, m) else (ok dropped, record m { tables = ts })

  unfoldable pub close : Exec (Mem V) StoreErr (Unit {0})
  close m = (ok tt, record { is_closed = true; tables = [] })

abbrev pub mem_store : (V : Type 0) → Store V
mem_store V = record {
  State = Mem V;
  get = get;
  put = put;
  delete = delete;
  take = take;
  list = list;
  len = len;
  sweep = sweep;
  close = close;
}
