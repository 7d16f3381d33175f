-- ===== src/Store/File/Durable.antt =====
-- internal/store/file.go: what a reopening finds of what was written.
use crm_bisync.Prelude.{
  ℕ, ◌≡◌, ◌∙◌, refl, ap, sym, Bool, true, false, Option, none, some, List, [], ◌∷◌, ◌++◌, Bytes,
  length, take, All, All-append, arith, if◌then◌else◌,
}
use mathlib.Core.List.{append_assoc}
use crm_bisync.Prelude.Strings.{Without}
use crm_bisync.Prelude.Dict.{lookup}
use crm_bisync.Prelude.Result.{ok}
use crm_bisync.Store.Defs.{Entry}
use crm_bisync.Store.File.{
  Tables, Op, Json, Os, Written, whole, short, newline, snapshot_of, in_order, load_tables,
  load_snapshot, open_file, opened, replay, split_lines,
}
use crm_bisync.Store.File.Calls.{State, line_of, with_bytes, synced, after_write, append, applied}
use crm_bisync.Store.File.Replay.{
  find, touches, left_by, find-apply_op, apply_all, after, find-apply_all, after_twice,
  apply_all-append, is_written, IsFaithful, logged, split_lines-logged, split_lines-tail,
  replay-encoded, take_whole,
}
use crm_bisync.Store.File.Ordered.{
  in_order-IsKept, find-in_order, in_order-IsSnapshot, nothing-IsKept, load_tables-IsKept,
}
use crm_bisync.Store.File.Snapshots.{IsKept, or_entry, load_tables-snapshot_of, apply_op-IsKept}

module _ {V : Type 0} (J : Json V) (F : IsFaithful J) (O : Os) where
  -- An open store whose log holds whole lines, and whose files, replayed, agree with its tables
  pub record IsDurable (f : State J O) : Type 0 where
    pub not_closed : f.is_closed ≡ false
    pub kept : IsKept f.tables
    pub ops : List (Op V)
    pub base : Tables (Entry V)
    pub whole_log : f.log ≡ logged J F ops
    pub loads : load_snapshot J f.snapshot ≡ ok base
    pub base_kept : IsKept base
    pub ops_written : All (λ o. is_written o ≡ true) ops
    pub agrees : (c k : Bytes) → find c k (apply_all ops base) ≡ find c k f.tables

  -- Reopening

  replays :
      (f : State J O) (torn : Bytes) (d : IsDurable f)
      → Without newline torn
      → replay J (split_lines (f.log ++ torn)).0 d.base
        ≡ (apply_all d.ops d.base, length (logged J F d.ops))
  unfolding replay
  replays f torn d h =
      rw (d.whole_log, split_lines-logged J F d.ops torn, split_lines-tail torn h)
        (replay-encoded J F d.ops [] d.base d.ops_written
          ∙ ap (λ n. (apply_all d.ops d.base, n)) (omega arith))

  pub reopens :
      (n : ℕ) (f : State J O) (torn : Bytes) (w : O.World) (d : IsDurable f)
      → Without newline torn
      → open_file J n f.snapshot (f.log ++ torn) w
        ≡ ok (
            opened J n f.snapshot
              (f.log ++ torn)
              w
              (apply_all d.ops d.base, length (logged J F d.ops)))
  unfolding open_file
  reopens n f torn w d h =
      rw d.loads (ap (λ p. ok (opened J n f.snapshot (f.log ++ torn) w p)) (replays f torn d h))

  pub cut_log :
      (f : State J O) (torn : Bytes) (d : IsDurable f)
      → take (length (logged J F d.ops)) (f.log ++ torn) ≡ f.log
  cut_log f torn d = rw d.whole_log (take_whole (logged J F d.ops) torn)

  -- Appending

  pub record Landed (o : Op V) (f g : State J O) : Type 0 where
    pub not_closed : g.is_closed ≡ f.is_closed
    pub tables : g.tables ≡ f.tables
    pub snapshot : g.snapshot ≡ f.snapshot
    pub log : g.log ≡ f.log ++ line_of J O o
    pub compact_after : g.compact_after ≡ f.compact_after

  synced-Landed :
      (o : Op V) (f : State J O) (w : O.World) (p : Bool × O.World)
      → (synced J O (with_bytes J O (line_of J O o) w f) p).0 ≡ ok tt
      → Landed o f (synced J O (with_bytes J O (line_of J O o) w f) p).1
  synced-Landed o f w (true, w') e = record {
    not_closed = refl;
    tables = refl;
    snapshot = refl;
    log = refl;
    compact_after = refl;
  }
  synced-Landed o f w (false, w') e = cc

  after_write-Landed :
      (o : Op V) (f : State J O) (p : Written × O.World)
      → (after_write J O o f p).0 ≡ ok tt
      → Landed o f (after_write J O o f p).1
  after_write-Landed o f (whole, w) e = synced-Landed o f w (O.sync w) e
  after_write-Landed o f (short n, w) e = cc

  pub append-Landed :
      (o : Op V) (f : State J O) → (append J O o f).0 ≡ ok tt → Landed o f (append J O o f).1
  unfolding append
  append-Landed o f e = after_write-Landed o f (O.write f.world) e

  logged-append :
      (os : List (Op V)) (o : Op V) → logged J F os ++ line_of J O o ≡ logged J F (os ++ o ∷ [])
  unfolding logged
  logged-append [] o = refl
  logged-append (p ∷ os) o =
      append_assoc (J.encode_op p) (newline ∷ logged J F os) (line_of J O o)
      ∙ ap (λ s. J.encode_op p ++ newline ∷ s) (logged-append os o)

  pub applied-IsDurable :
      (o : Op V) (f g : State J O)
      → is_written o ≡ true
      → IsDurable f
      → Landed o f g
      → IsDurable (applied J O o g)
  unfolding apply_all
  applied-IsDurable o f g w d l = record {
    not_closed = l.not_closed ∙ d.not_closed;
    kept = rw l.tables (apply_op-IsKept o f.tables w d.kept);
    ops = d.ops ++ o ∷ [];
    base = d.base;
    whole_log = l.log ∙ ap (λ s. s ++ line_of J O o) d.whole_log ∙ logged-append d.ops o;
    loads = rw l.snapshot d.loads;
    base_kept = d.base_kept;
    ops_written = All-append (λ p. is_written p ≡ true) d.ops (o ∷ []) d.ops_written (w, tt);
    agrees = λ c k. rw l.tables (
        ap (find c k) (apply_all-append d.ops (o ∷ []) d.base)
        ∙ find-apply_op o (apply_all d.ops d.base) c k
        ∙ ap (λ x. if touches o c k then left_by o else x) (d.agrees c k)
        ∙ sym (find-apply_op o f.tables c k));
  }

  -- Compacting

  abbrev loaded : State J O → Tables (Entry V)
  loaded f = load_tables (snapshot_of (in_order f.tables)) []

  find_nil : (c k : Bytes) → find {V = V} c k [] ≡ none
  unfolding find lookup
  find_nil c k = refl

  or_none : (x y : Option (Entry V)) → y ≡ none → or_entry x y ≡ x
  or_none none y e = e
  or_none (some x) y e = refl

  loaded_agrees :
      (f : State J O) (c k : Bytes) → IsKept f.tables → find c k (loaded f) ≡ find c k f.tables
  loaded_agrees f c k h =
      load_tables-snapshot_of (in_order f.tables) [] c k (in_order-IsKept f.tables h)
      ∙ or_none (find c k (in_order f.tables)) (find c k []) (find_nil c k)
      ∙ find-in_order f.tables c k h

  loaded-IsKept : (f : State J O) → IsKept f.tables → IsKept (loaded f)
  loaded-IsKept f h =
      load_tables-IsKept (snapshot_of (in_order f.tables)) [] (in_order-IsSnapshot f.tables h).1
        nothing-IsKept

  loads_saved :
      (f : State J O)
      → IsKept f.tables
      → load_snapshot J (some (J.encode_snapshot (snapshot_of (in_order f.tables)))) ≡ ok (loaded f)
  unfolding load_snapshot
  loads_saved f h =
      rw (F.snapshot_back (snapshot_of (in_order f.tables)) (in_order-IsSnapshot f.tables h)) refl

  -- The new snapshot with the whole log: the log is replayed once more.
  pub renamed-IsDurable :
      (f g : State J O)
      → IsDurable f
      → g.is_closed ≡ f.is_closed
      → g.tables ≡ f.tables
      → g.log ≡ f.log
      → g.snapshot ≡ some (J.encode_snapshot (snapshot_of (in_order f.tables)))
      → IsDurable g
  renamed-IsDurable f g d closed_same same_tables same_log new_snapshot = record {
    not_closed = closed_same ∙ d.not_closed;
    kept = rw same_tables d.kept;
    ops = d.ops;
    base = loaded f;
    whole_log = same_log ∙ d.whole_log;
    loads = rw new_snapshot (loads_saved f d.kept);
    base_kept = loaded-IsKept f d.kept;
    ops_written = d.ops_written;
    agrees = λ c k. rw same_tables (
        find-apply_all d.ops (loaded f) c k
        ∙ ap (after c k d.ops)
            (loaded_agrees f c k d.kept ∙ sym (d.agrees c k) ∙ find-apply_all d.ops d.base c k)
        ∙ after_twice c k d.ops (find c k d.base)
        ∙ sym (find-apply_all d.ops d.base c k)
        ∙ d.agrees c k);
  }

  pub emptied-IsDurable :
      (f g : State J O)
      → IsDurable f
      → g.is_closed ≡ f.is_closed
      → g.tables ≡ f.tables
      → g.log ≡ []
      → g.snapshot ≡ some (J.encode_snapshot (snapshot_of (in_order f.tables)))
      → IsDurable g
  unfolding logged apply_all
  emptied-IsDurable f g d closed_same same_tables no_log new_snapshot = record {
    not_closed = closed_same ∙ d.not_closed;
    kept = rw same_tables d.kept;
    ops = [];
    base = loaded f;
    whole_log = no_log;
    loads = rw new_snapshot (loads_saved f d.kept);
    base_kept = loaded-IsKept f d.kept;
    ops_written = tt;
    agrees = λ c k. rw same_tables (loaded_agrees f c k d.kept);
  }
