-- ===== src/Store/File/Runs.antt =====
-- internal/store/file.go: runs of calls and crashes, from an empty directory.
use crm_bisync.Prelude.{
  ℕ, ◌≡◌, ◌∙◌, refl, ap, sym, subst, inl, inr, true, false, none, some, List, [], ◌∷◌, ◌++◌, Bytes,
  length, All, Option-cases,
}
use crm_bisync.Prelude.Strings.{Without}
use crm_bisync.Prelude.Sorting.{sort_by, All-sort_by}
use crm_bisync.Prelude.Utf8.{is_utf8}
use crm_bisync.Prelude.Result.{Result, ok, err, with_result, continue}
use crm_bisync.Store.Mem.{visible}
use crm_bisync.Store.File.{
  Op, put_op, delete_op, Json, Os, FileErr, nanos_of, newline, load_snapshot, open_file, opened,
  all_dead, ref_lt,
}
use crm_bisync.Store.File.Calls.{
  State, entry_at, append, applied, mutate, compact, maybe_compact, put, delete, take_one,
  take_found, drop_all, sweep, compact_now,
}
use crm_bisync.Store.File.Replay.{find, apply_all, IsFaithful, logged}
use crm_bisync.Store.File.Ordered.{
  IsNamed, nothing-IsKept, apply_all-IsKept, found_written, all_dead_written,
}
use crm_bisync.Store.File.Durable.{IsDurable, append-Landed, applied-IsDurable, reopens, cut_log}
use crm_bisync.Store.File.Surviving.{
  Reopened, reopened, compact-IsDurable, maybe_compact-IsDurable, mutate-IsDurable, put_survives,
  delete_survives,
}

module _ {V : Type 0} (J : Json V) (F : IsFaithful J) (O : Os) where
  opened-IsDurable :
      (n : ℕ) (f g : State J O) (torn : Bytes) (w : O.World)
      → IsDurable J F O f
      → Without newline torn
      → open_file J n f.snapshot (f.log ++ torn) w ≡ ok g
      → IsDurable J F O g
  opened-IsDurable n f g torn w d h e =
      let made : IsDurable J F O (
          opened J n f.snapshot (f.log ++ torn) w
            (apply_all d.ops d.base, length (logged J F d.ops))) =
        record {
          not_closed = refl;
          kept = apply_all-IsKept d.ops d.base d.ops_written d.base_kept;
          ops = d.ops;
          base = d.base;
          whole_log = cut_log J F O f torn d ∙ d.whole_log;
          loads = d.loads;
          base_kept = d.base_kept;
          ops_written = d.ops_written;
          agrees = λ c k. refl;
        } in
      let reached = sym (reopens J F O n f torn w d h) ∙ e in
      let same : opened J n f.snapshot (f.log ++ torn) w
            (apply_all d.ops d.base, length (logged J F d.ops))
          ≡ g =
        cc in
      subst (IsDurable J F O) same made

  abbrev pub empty_directory : (n : ℕ) → O.World → State J O
  empty_directory n w = record {
    is_closed = false;
    tables = [];
    ops = 0;
    compact_after = n;
    log_bytes = 0;
    snapshot = none;
    log = [];
    world = w;
  }

  lands_first :
      (next : Unit {0} → State J O → Result FileErr (Unit {0}) × State J O)
      (p : Result FileErr (Unit {0}) × State J O)
      → (continue next p).0 ≡ ok tt
      → p.0 ≡ ok tt
  lands_first next (ok tt, g) e = refl
  lands_first next (err x, g) e = cc

  drop_all-IsDurable :
      (dead : List (Bytes × Bytes)) (f : State J O)
      → All IsNamed dead
      → IsDurable J F O f
      → (drop_all J O dead f).0 ≡ ok tt
      → IsDurable J F O (drop_all J O dead f).1
  unfolding drop_all
  drop_all-IsDurable [] f ns d e = d
  drop_all-IsDurable ((c, k) ∷ dead) f (named, ns) d e =
      let o : Op V = delete_op c k in
      let next : Unit {0} → State J O → Result FileErr (Unit {0}) × State J O =
        λ _ g. drop_all J O dead (applied J O o g) in
      let landed = lands_first next (append J O o f) e in
      rw (with_result (append J O o f) landed) (
        drop_all-IsDurable dead (applied J O o (append J O o f).1) ns
          (applied-IsDurable J F O o f (append J O o f).1 named d (append-Landed J F O o f landed))
          (subst (λ q. (continue next q).0 ≡ ok tt) (with_result (append J O o f) landed) e))

  -- A call that only looks at what was answered leaves the state.
  answered :
      {A B : Type 0} (r : A → B) (p : Result FileErr A × State J O)
      → (continue (λ a g. (ok (r a), g)) p).1 ≡ p.1
  answered r (ok a, g) = refl
  answered r (err x, g) = refl

  abbrev dead_of : ℕ → State J O → List (Bytes × Bytes)
  dead_of now f = sort_by ref_lt (all_dead now f.tables)

  sweep_open :
      (now : ℕ) (f : State J O)
      → f.is_closed ≡ false
      → sweep J O now f
        ≡ continue
            (λ _ g. (ok (length (dead_of now f)), g))
            (continue (λ _ g. maybe_compact J O g) (drop_all J O (dead_of now f) f))
  unfolding sweep
  sweep_open now f h = rw h refl

  sweep_lem :
      (now : ℕ) (f : State J O)
      → f.is_closed ≡ false
      → (drop_all J O (dead_of now f) f).0 ≡ ok tt
      → (sweep J O now f).1 ≡ (maybe_compact J O (drop_all J O (dead_of now f) f).1).1
  sweep_lem now f h e =
      let swept = drop_all J O (dead_of now f) f in
      ap (λ p. p.1) (sweep_open now f h)
      ∙ answered (λ _. length (dead_of now f)) (continue (λ _ g. maybe_compact J O g) swept)
      ∙ ap (λ p. (continue (λ _ g. maybe_compact J O g) p).1) (with_result swept e)

  take_open :
      (now : ℕ) (c k : Bytes) (f : State J O)
      → f.is_closed ≡ false
      → take_one J O now c k f ≡ take_found J O now c k (entry_at J O c k f) f
  unfolding take_one
  take_open now c k f h = rw h refl

  compact_open : (f : State J O) → f.is_closed ≡ false → compact_now J O f ≡ compact J O f
  unfolding compact_now
  compact_open f h = rw h refl

  take_one-IsDurable :
      (now : ℕ) (c k : Bytes) (f : State J O)
      → IsDurable J F O f
      → (append J O (delete_op c k) f).0 ≡ ok tt
      → IsDurable J F O (take_one J O now c k f).1
  take_one-IsDurable now c k f d landed =
      rw (take_open now c k f d.not_closed) (elim (Option-cases (entry_at J O c k f)) [
        | inl e ↦ rw e d
        | inr (x, e) ↦
            let written = found_written c k f.tables x d.kept (unfold find in e) in
            rw (e, answered (λ _. visible now (some x)) (mutate J O (delete_op c k) f))
              (mutate-IsDurable J F O (delete_op c k) f written d landed)
      ])

  -- A call whose appends land, a compaction however far it gets, or a crash that may leave part of
  -- a line behind and after which the directory is opened again
  pub data Step : State J O → State J O → Type 0 where
    puts :
        (c k : Bytes) (v : V) (e : ℕ) (f : State J O)
        → is_utf8 c ≡ true
        → is_utf8 k ≡ true
        → (append J O (put_op c k v (nanos_of e)) f).0 ≡ ok tt
        → Step f (put J O c k v e f).1
    deletes :
        (c k : Bytes) (f : State J O)
        → (append J O (delete_op c k) f).0 ≡ ok tt
        → Step f (delete J O c k f).1
    takes :
        (now : ℕ) (c k : Bytes) (f : State J O)
        → (append J O (delete_op c k) f).0 ≡ ok tt
        → Step f (take_one J O now c k f).1
    sweeps :
        (now : ℕ) (f : State J O)
        → (drop_all J O (sort_by ref_lt (all_dead now f.tables)) f).0 ≡ ok tt
        → Step f (sweep J O now f).1
    compacts : (f : State J O) → Step f (compact_now J O f).1
    crashes :
        (n : ℕ) (f g : State J O) (torn : Bytes) (w : O.World)
        → Without newline torn
        → open_file J n f.snapshot (f.log ++ torn) w ≡ ok g
        → Step f g

  Step-IsDurable : (f g : State J O) → Step f g → IsDurable J F O f → IsDurable J F O g
  Step-IsDurable f _ (puts c k v e _ uc uk landed) d =
      (put_survives J F O c k v e f [] uc uk d landed tt).0
  Step-IsDurable f _ (deletes c k _ landed) d = (delete_survives J F O c k f [] d landed tt).0
  Step-IsDurable f _ (takes now c k _ landed) d = take_one-IsDurable now c k f d landed
  Step-IsDurable f _ (sweeps now _ landed) d = rw (sweep_lem now f d.not_closed landed) (
      maybe_compact-IsDurable J F O _ (
        drop_all-IsDurable (dead_of now f) f
          (All-sort_by IsNamed ref_lt (all_dead now f.tables)
            (all_dead_written now f.tables d.kept.each))
          d landed))
  Step-IsDurable f _ (compacts _) d = rw (compact_open f d.not_closed) (compact-IsDurable J F O f d)
  Step-IsDurable f g (crashes n _ _ torn w h e) d = opened-IsDurable n f g torn w d h e

  pub data Run : State J O → State J O → Type 0 where
    stays : (f : State J O) → Run f f
    steps : {f g h : State J O} → Run f g → Step g h → Run f h

  pub empty-IsDurable : (n : ℕ) (w : O.World) → IsDurable J F O (empty_directory n w)
  unfolding logged load_snapshot apply_all
  empty-IsDurable n w = record {
    not_closed = refl;
    kept = nothing-IsKept;
    ops = [];
    base = [];
    whole_log = refl;
    loads = refl;
    base_kept = nothing-IsKept;
    ops_written = tt;
    agrees = λ c k. refl;
  }

  Run-IsDurable : (f g : State J O) → Run f g → IsDurable J F O f → IsDurable J F O g
  Run-IsDurable f _ (stays _) d = d
  Run-IsDurable f h (steps r s) d = Step-IsDurable _ h s (Run-IsDurable f _ r d)

  -- In every run from an empty directory of puts of UTF-8 collections and keys, deletes, takes
  -- and sweeps, all of whose appends land, of compactions however far they get, and of crashes
  -- that may leave a part of a line at the end of the log and after which the directory is
  -- opened again, opening the directory once more, after a torn line or none, gives a store in
  -- which every read finds what the run's store holds.
  pub nothing_lost :
      (n : ℕ) (w : O.World) (f : State J O) (torn : Bytes)
      → Run (empty_directory n w) f
      → Without newline torn
      → Reopened J F O f torn (λ now c k. visible now (find c k f.tables))
  nothing_lost n w f torn r h =
      reopened J F O f torn (Run-IsDurable (empty_directory n w) f r (empty-IsDurable n w)) h
