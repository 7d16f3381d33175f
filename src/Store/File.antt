-- ===== src/Store/File.antt =====
-- internal/store/file.go: the store that keeps its data in memory and every change in a log.
--
-- The directory is two files, the snapshot and the log, as the bytes that a reopening finds. What
-- the operating system answers to the calls that write is the parameter `Os`, over a state of its
-- own; what encoding/json makes of an operation and of a snapshot is the parameter `Json`.
pub mod Calls
pub mod Replay
pub mod Snapshots
pub mod Ordered
pub mod Durable
pub mod Surviving
pub mod Torn
pub mod Runs
use crm_bisync.Prelude.{
  ℕ, zero, suc, ◌+◌, ◌≡◌, Bool, true, false, not, ◌&&◌, Option, none, some, List, [], ◌∷◌, ◌++◌,
  Bytes, length, take, ltb, leb, ◌==◌, is_empty, if◌then◌else◌,
}
use crm_bisync.Prelude.Int.{ℤ, pos, negsuc, to_int64}
use crm_bisync.Prelude.Strings.{str_lt}
use crm_bisync.Prelude.Sorting.{sort_by}
use crm_bisync.Prelude.Ascending.{by_key}
use crm_bisync.Prelude.Dict.{Dict, lookup, insert, erase}
use crm_bisync.Prelude.Result.{Result, Exec, ok, err, pure, fail, ◌>>=◌, ◌>>◌}
use crm_bisync.Store.Defs.{Entry, live}
use crm_bisync.Store.Mem.{or_empty, visible, live_keys, entries_of, count_live}
use crm_bisync.Store.Typed.{unix_nano, from_unix_nano}

abbrev pub Tables : Type 0 → Type 0
Tables A = Dict (Dict A)

-- `op`: a deletion carries no value.
pub data Op (V : Type 0) : Type 0 where
  put_op : (collection key : Bytes) → V → (expires_at : ℤ) → Op V
  delete_op : (collection key : Bytes) → Op V

-- Go's maps stand as lists in the order of their keys.
pub record Json (V : Type 0) : Type 0 where
  pub encode_op : Op V → Bytes
  pub decode_op : Bytes → Option (Op V)
  pub encode_snapshot : Tables (Op V) → Bytes
  pub decode_snapshot : Bytes → Option (Tables (Op V))

-- `f.log.Write`: the whole line, or some bytes of it and an error
pub data Written : Type 0 where
  whole : Written
  short : ℕ → Written

-- The steps from the temporary file to the sync of the directory: an error before the rename, one
-- after it, or none
pub data Saved : Type 0 where
  unsaved renamed saved : Saved

-- The steps from the truncation of the log to its sync
pub data Emptied : Type 0 where
  kept unsynced emptied : Emptied

pub record Os : Type 1 where
  pub World : Type 0
  pub write : World → Written × World
  pub sync : World → Bool × World
  pub save : World → Saved × World
  pub empty_log : World → Emptied × World

pub data FileErr : Type 0 where
  closed not_written not_synced not_saved not_emptied corrupt : FileErr

pub record File (V W : Type 0) : Type 0 where
  pub is_closed : Bool
  pub tables : Tables (Entry V)
  pub ops : ℕ
  pub compact_after : ℕ
  pub log_bytes : ℕ
  pub snapshot : Option Bytes  -- snapshot.json, if there is one
  pub log : Bytes  -- log.jsonl
  pub world : W

-- `UnixNano` of an expiry, and the expiry again, from an int64; the zero time is 0.
abbrev pub nanos_of : ℕ → ℤ
nanos_of e = if e == 0 then pos 0 else unix_nano e

abbrev pub is_epoch : ℤ → Bool
is_epoch (pos n) = n == 0
is_epoch (negsuc n) = false

abbrev pub expiry_of : ℤ → ℕ
expiry_of n = let m = to_int64 n in if is_epoch m then 0 else from_unix_nano m

abbrev pub newline : ℕ
newline = b'\n'

module _ {V : Type 0} where
  -- `delete(f.data[collection], key)`
  abbrev pub erase_row :
      Bytes → Bytes → Option (Dict (Entry V)) → Tables (Entry V) → Tables (Entry V)
  erase_row c k none ts = ts
  erase_row c k (some t) ts = insert c (erase k t) ts

  -- `apply`
  unfoldable pub apply_op : Op V → Tables (Entry V) → Tables (Entry V)
  apply_op (delete_op c k) ts = erase_row c k (lookup c ts) ts
  apply_op (put_op c k v e) ts =
      let entry : Entry V = record { key = k; value = v; expires_at = expiry_of e } in
      insert c (insert k entry (or_empty (lookup c ts))) ts

  -- The snapshot's rows of one collection, and of all that are not empty
  unfoldable pub rows_of : Bytes → Dict (Entry V) → Dict (Op V)
  rows_of c [] = []
  rows_of c ((k, e) ∷ t) = (k, put_op c k e.value (nanos_of e.expires_at)) ∷ rows_of c t

  unfoldable pub snapshot_of : Tables (Entry V) → Tables (Op V)
  unfolding rows_of
  snapshot_of [] = []
  snapshot_of ((c, t) ∷ ts) =
      if is_empty t then snapshot_of ts else (c, rows_of c t) ∷ snapshot_of ts

  -- `f.apply(coll, o)`: the collection is the one given, not the operation's own.
  abbrev pub within : Bytes → Op V → Op V
  within c (put_op _ k v e) = put_op c k v e
  within c (delete_op _ k) = delete_op c k

  -- The order in which encoding/json writes the entries of a map
  unfoldable pub sort_each : Tables (Entry V) → Tables (Entry V)
  sort_each [] = []
  sort_each ((c, t) ∷ ts) = (c, sort_by (by_key (λ p. p.0)) t) ∷ sort_each ts

  unfoldable pub in_order : Tables (Entry V) → Tables (Entry V)
  unfolding sort_each
  in_order ts = sort_by (by_key (λ p. p.0)) (sort_each ts)

  -- The loops of `loadSnapshot`: a row is applied in the collection it is filed under, and its key
  -- in the file is not read.
  unfoldable pub load_rows : Bytes → Dict (Op V) → Tables (Entry V) → Tables (Entry V)
  unfolding apply_op
  load_rows c [] ts = ts
  load_rows c ((_, o) ∷ rows) ts = load_rows c rows (apply_op (within c o) ts)

  unfoldable pub load_tables : Tables (Op V) → Tables (Entry V) → Tables (Entry V)
  unfolding load_rows
  load_tables [] ts = ts
  load_tables ((c, rows) ∷ more) ts = load_tables more (load_rows c rows ts)

  -- The keys of a table that are dead, with their collection
  unfoldable pub dead_keys : ℕ → Bytes → Dict (Entry V) → List (Bytes × Bytes)
  dead_keys now c [] = []
  dead_keys now c ((k, e) ∷ t) =
      let rest = dead_keys now c t in if live e.expires_at now then rest else (c, k) ∷ rest

  unfoldable pub all_dead : ℕ → Tables (Entry V) → List (Bytes × Bytes)
  unfolding dead_keys
  all_dead now [] = []
  all_dead now ((c, t) ∷ ts) = dead_keys now c t ++ all_dead now ts

-- The order of `Sweep`
abbrev pub ref_lt : Bytes × Bytes → Bytes × Bytes → Bool
ref_lt (c, k) (c', k') = if str_lt c c' then true else if str_lt c' c then false else str_lt k k'

-- The complete lines of a text, and what stands after the last of them
abbrev pub Lines : Type 0
Lines = List Bytes × Bytes

abbrev pub add_to_line : ℕ → Lines → Lines
add_to_line c ([], tail) = ([], c ∷ tail)
add_to_line c (l ∷ ls, tail) = ((c ∷ l) ∷ ls, tail)

unfoldable pub split_lines : Bytes → Lines
split_lines [] = ([], [])
split_lines (c ∷ s) =
    let rest = split_lines s in if c == newline then ([] ∷ rest.0, rest.1) else add_to_line c rest

module _ {V : Type 0} (J : Json V) where
  -- A line of the log: the first that does not decode ends the replay.
  abbrev pub after_line :
      Bytes
      → (Op V → Tables (Entry V) × ℕ)
      → Tables (Entry V)
      → Option (Op V)
      → Tables (Entry V) × ℕ
  after_line l next ts none = (ts, 0)
  after_line l next ts (some o) = let (ts', good) = next o in (ts', length l + 1 + good)

  -- The loop of `replayLog`: the tables, and how many bytes were good
  unfoldable pub replay : List Bytes → Tables (Entry V) → Tables (Entry V) × ℕ
  unfolding apply_op
  replay [] ts = (ts, 0)
  replay (l ∷ ls) ts = after_line l (λ o. replay ls (apply_op o ts)) ts (J.decode_op l)

  abbrev pub read_snapshot : Option (Tables (Op V)) → Result FileErr (Tables (Entry V))
  read_snapshot none = err corrupt
  read_snapshot (some rows) = ok (load_tables rows [])

  -- `loadSnapshot`
  unfoldable pub load_snapshot : Option Bytes → Result FileErr (Tables (Entry V))
  unfolding load_tables
  load_snapshot none = ok []
  load_snapshot (some raw) = read_snapshot (J.decode_snapshot raw)

  abbrev pub opened : {W : Type 0} → ℕ → Option Bytes → Bytes → W → Tables (Entry V) × ℕ → File V W
  opened compact_after snapshot log w (ts, good) = record {
    is_closed = false;
    tables = ts;
    ops = 0;
    compact_after = compact_after;
    log_bytes = good;
    snapshot = snapshot;
    log = take good log;
    world = w;
  }

  abbrev pub replayed :
      {W : Type 0}
      → ℕ
      → Option Bytes
      → Bytes
      → W
      → Result FileErr (Tables (Entry V))
      → Result FileErr (File V W)
  replayed compact_after snapshot log w (err e) = err e
  replayed compact_after snapshot log w (ok ts) =
      ok (opened compact_after snapshot log w (replay (split_lines log).0 ts))

  -- `OpenFile` of a directory that can be read, with the log cut after its last good line
  unfoldable pub open_file : {W : Type 0} → ℕ → Option Bytes → Bytes → W → Result FileErr (File V W)
  unfolding load_snapshot replay split_lines
  open_file compact_after snapshot log w =
      replayed compact_after snapshot log w (load_snapshot snapshot)

-- The option `CompactAfter`
unfoldable pub compact_after_of : ℤ → ℕ
compact_after_of (pos zero) = 1000
compact_after_of (pos n) = n
compact_after_of (negsuc _) = 0
