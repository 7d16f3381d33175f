-- ===== src/Store/File/Calls.antt =====
-- internal/store/file.go: the methods of the store, on what the operating system answers.
use crm_bisync.Prelude.{
  ℕ, ◌+◌, Bool, true, false, ◌&&◌, Option, none, some, List, [], ◌∷◌, ◌++◌, Bytes, length, take,
  ltb, leb, if◌then◌else◌,
}
use crm_bisync.Prelude.Strings.{str_lt}
use crm_bisync.Prelude.Sorting.{sort_by}
use crm_bisync.Prelude.Dict.{lookup}
use crm_bisync.Prelude.Result.{Result, Exec, ok, err, continue}
use crm_bisync.Store.Defs.{Entry, first_of_limit}
use crm_bisync.Store.Mem.{or_empty, visible, live_keys, entries_of, count_live}
use crm_bisync.Store.File.{
  Op, put_op, delete_op, Json, Os, Written, whole, short, Saved, unsaved, renamed, saved, Emptied,
  kept, unsynced, emptied, FileErr, closed, not_written, not_synced, not_saved, not_emptied, File,
  nanos_of, newline, apply_op, snapshot_of, in_order, all_dead, ref_lt,
}

module _ {V : Type 0} (J : Json V) (O : Os) where
  abbrev pub State : Type 0
  State = File V O.World

  abbrev pub line_of : Op V → Bytes
  line_of o = J.encode_op o ++ newline ∷ []

  abbrev pub with_bytes : Bytes → O.World → State → State
  with_bytes bs w f = record f { log = f.log ++ bs; log_bytes = f.log_bytes + length bs; world = w }

  abbrev pub synced : State → Bool × O.World → Result FileErr (Unit {0}) × State
  synced f (false, w) = (err not_synced, record f { world = w })
  synced f (true, w) = (ok tt, record f { world = w; ops = f.ops + 1 })

  abbrev pub after_write : Op V → State → Written × O.World → Result FileErr (Unit {0}) × State
  after_write o f (short n, w) = (err not_written, with_bytes (take n (line_of o)) w f)
  after_write o f (whole, w) =
      let f' : State = with_bytes (line_of o) w f in synced f' (O.sync f'.world)

  -- `append`
  unfoldable pub append : Op V → Exec State FileErr (Unit {0})
  append o f = after_write o f (O.write f.world)

  abbrev pub after_emptied : State → Emptied × O.World → Result FileErr (Unit {0}) × State
  after_emptied f (kept, w) = (err not_emptied, record f { world = w })
  after_emptied f (unsynced, w) = (err not_emptied, record f { world = w; log = [] })
  after_emptied f (emptied, w) = (ok tt, record f { world = w; log = []; log_bytes = 0; ops = 0 })

  abbrev pub after_saved : Bytes → State → Saved × O.World → Result FileErr (Unit {0}) × State
  after_saved raw f (unsaved, w) = (err not_saved, record f { world = w })
  after_saved raw f (renamed, w) = (err not_saved, record f { world = w; snapshot = some raw })
  after_saved raw f (saved, w) =
      let f' : State = record f { world = w; snapshot = some raw } in
      after_emptied f' (O.empty_log f'.world)

  -- `compact`
  unfoldable pub compact : Exec State FileErr (Unit {0})
  compact f = after_saved (J.encode_snapshot (snapshot_of (in_order f.tables))) f (O.save f.world)

  unfoldable pub maybe_compact : Exec State FileErr (Unit {0})
  unfolding compact
  maybe_compact f =
      if ltb 0 f.compact_after && leb f.compact_after f.ops then compact f else (ok tt, f)

  abbrev pub applied : Op V → State → State
  applied o f = record f { tables = apply_op o f.tables }

  -- An operation of an open store: it is appended, applied, and the log compacted if it is long.
  unfoldable pub mutate : Op V → Exec State FileErr (Unit {0})
  unfolding append maybe_compact
  mutate o f = continue (λ _ g. maybe_compact (applied o g)) (append o f)

  abbrev pub entry_at : Bytes → Bytes → State → Option (Entry V)
  entry_at c k f = lookup k (or_empty (lookup c f.tables))

  unfoldable pub get : ℕ → Bytes → Bytes → Exec State FileErr (Option V)
  get now c k f = if f.is_closed then (err closed, f) else (ok (visible now (entry_at c k f)), f)

  unfoldable pub put : Bytes → Bytes → V → ℕ → Exec State FileErr (Unit {0})
  unfolding mutate
  put c k v expires_at f =
      if f.is_closed then (err closed, f) else mutate (put_op c k v (nanos_of expires_at)) f

  abbrev pub delete_found : Bytes → Bytes → Option (Entry V) → Exec State FileErr (Unit {0})
  delete_found c k none f = (ok tt, f)
  delete_found c k (some _) f = mutate (delete_op c k) f

  unfoldable pub delete : Bytes → Bytes → Exec State FileErr (Unit {0})
  unfolding mutate
  delete c k f = if f.is_closed then (err closed, f) else delete_found c k (entry_at c k f) f

  abbrev pub take_found : ℕ → Bytes → Bytes → Option (Entry V) → Exec State FileErr (Option V)
  take_found now c k none f = (ok none, f)
  take_found now c k (some e) f =
      continue (λ _ g. (ok (visible now (some e)), g)) (mutate (delete_op c k) f)

  -- `Take`
  unfoldable pub take_one : ℕ → Bytes → Bytes → Exec State FileErr (Option V)
  unfolding mutate
  take_one now c k f =
      if f.is_closed then (err closed, f) else take_found now c k (entry_at c k f) f

  unfoldable pub list : ℕ → Bytes → ℕ → Exec State FileErr (List (Entry V))
  list now c limit f =
      let t = or_empty (lookup c f.tables) in
      if f.is_closed
      then (err closed, f)
      else (ok (entries_of t (first_of_limit limit (sort_by str_lt (live_keys now t)))), f)

  unfoldable pub len : ℕ → Bytes → Exec State FileErr ℕ
  len now c f =
      if f.is_closed
      then (err closed, f)
      else (ok (count_live now (or_empty (lookup c f.tables))), f)

  -- The deletions of a sweep; the first that cannot be appended ends it.
  unfoldable pub drop_all : List (Bytes × Bytes) → Exec State FileErr (Unit {0})
  unfolding append
  drop_all [] f = (ok tt, f)
  drop_all ((c, k) ∷ dead) f =
      continue (λ _ g. drop_all dead (applied (delete_op c k) g)) (append (delete_op c k) f)

  unfoldable pub sweep : ℕ → Exec State FileErr ℕ
  unfolding drop_all maybe_compact
  sweep now f =
      let dead = sort_by ref_lt (all_dead now f.tables) in
      let dropped = continue (λ _ g. maybe_compact g) (drop_all dead f) in
      if f.is_closed then (err closed, f) else continue (λ _ g. (ok (length dead), g)) dropped

  unfoldable pub close : Exec State FileErr (Unit {0})
  close f = (ok tt, if f.is_closed then f else record f { is_closed = true; tables = [] })

  -- `Compact`
  unfoldable pub compact_now : Exec State FileErr (Unit {0})
  unfolding compact
  compact_now f = if f.is_closed then (err closed, f) else compact f
