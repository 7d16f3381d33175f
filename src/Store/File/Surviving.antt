-- ===== src/Store/File/Surviving.antt =====
-- internal/store/file.go: changes and compactions, and what is read after the store is opened again.
use crm_bisync.Prelude.{
  ℕ, ◌≡◌, ◌∙◌, refl, ap, inl, inr, true, false, ◌&&◌, Option, none, some, ◌++◌, Bytes, length,
  str_eq_iff, arith, Bool-cases, Option-cases, ltb, leb, if◌then◌else◌,
}
use crm_bisync.Prelude.Strings.{Without}
use crm_bisync.Prelude.Utf8.{is_utf8}
use crm_bisync.Prelude.Result.{ok, with_result}
use crm_bisync.Store.Defs.{live, same}
use crm_bisync.Store.Mem.{visible}
use crm_bisync.Store.File.{
  Op, put_op, delete_op, Json, Os, Saved, unsaved, renamed, saved, Emptied, kept, unsynced, emptied,
  nanos_of, expiry_of, newline, apply_op, snapshot_of, in_order, open_file, opened,
}
use crm_bisync.Store.File.Calls.{
  State, append, after_emptied, after_saved, compact, maybe_compact, applied, mutate, get, put,
  delete, delete_found,
}
use crm_bisync.Store.File.Replay.{find, find-apply_op, apply_all, is_written, IsFaithful, logged}
use crm_bisync.Store.File.Ordered.{nanos_of-is_int64, found_written}
use crm_bisync.Store.File.Durable.{
  IsDurable, append-Landed, applied-IsDurable, renamed-IsDurable, emptied-IsDurable, reopens,
}

module _ {V : Type 0} (J : Json V) (F : IsFaithful J) (O : Os) where
  -- Another state with the same data and files
  moved-IsDurable :
      (f g : State J O)
      → IsDurable J F O f
      → g.is_closed ≡ f.is_closed
      → g.tables ≡ f.tables
      → g.log ≡ f.log
      → g.snapshot ≡ f.snapshot
      → IsDurable J F O g
  moved-IsDurable f g d a b c e = record {
    not_closed = a ∙ d.not_closed;
    kept = rw b d.kept;
    ops = d.ops;
    base = d.base;
    whole_log = c ∙ d.whole_log;
    loads = rw e d.loads;
    base_kept = d.base_kept;
    ops_written = d.ops_written;
    agrees = λ c k. rw b (d.agrees c k);
  }

  abbrev raw_of : State J O → Bytes
  raw_of f = J.encode_snapshot (snapshot_of (in_order f.tables))

  abbrev renamed_to : State J O → O.World → State J O
  renamed_to f w = record f { world = w; snapshot = some (raw_of f) }

  after_emptied-IsDurable :
      (f : State J O) (w : O.World) (p : Emptied × O.World)
      → IsDurable J F O f
      → IsDurable J F O (after_emptied J O (renamed_to f w) p).1
  after_emptied-IsDurable f w (kept, w') d = renamed-IsDurable J F O f _ d refl refl refl refl
  after_emptied-IsDurable f w (unsynced, w') d = emptied-IsDurable J F O f _ d refl refl refl refl
  after_emptied-IsDurable f w (emptied, w') d = emptied-IsDurable J F O f _ d refl refl refl refl

  after_saved-IsDurable :
      (f : State J O) (p : Saved × O.World)
      → IsDurable J F O f
      → IsDurable J F O (after_saved J O (raw_of f) f p).1
  after_saved-IsDurable f (unsaved, w) d = moved-IsDurable f _ d refl refl refl refl
  after_saved-IsDurable f (renamed, w) d = renamed-IsDurable J F O f _ d refl refl refl refl
  after_saved-IsDurable f (saved, w) d = after_emptied-IsDurable f w (O.empty_log w) d

  pub compact-IsDurable : (f : State J O) → IsDurable J F O f → IsDurable J F O (compact J O f).1
  unfolding compact
  compact-IsDurable f d = after_saved-IsDurable f (O.save f.world) d

  after_emptied_tables :
      (f : State J O) (p : Emptied × O.World) → (after_emptied J O f p).1.tables ≡ f.tables
  after_emptied_tables f (kept, w) = refl
  after_emptied_tables f (unsynced, w) = refl
  after_emptied_tables f (emptied, w) = refl

  after_saved_tables :
      (raw : Bytes) (f : State J O) (p : Saved × O.World)
      → (after_saved J O raw f p).1.tables ≡ f.tables
  after_saved_tables raw f (unsaved, w) = refl
  after_saved_tables raw f (renamed, w) = refl
  after_saved_tables raw f (saved, w) =
      after_emptied_tables (record f { world = w; snapshot = some raw }) (O.empty_log w)

  compact_tables : (f : State J O) → (compact J O f).1.tables ≡ f.tables
  unfolding compact
  compact_tables f = after_saved_tables (raw_of f) f (O.save f.world)

  pub maybe_compact-IsDurable :
      (f : State J O) → IsDurable J F O f → IsDurable J F O (maybe_compact J O f).1
  unfolding maybe_compact
  maybe_compact-IsDurable f d =
      elim (Bool-cases (ltb 0 f.compact_after && leb f.compact_after f.ops)) [
        | inl e ↦ rw e (compact-IsDurable f d)
        | inr e ↦ rw e d
      ]

  maybe_compact_tables : (f : State J O) → (maybe_compact J O f).1.tables ≡ f.tables
  unfolding maybe_compact
  maybe_compact_tables f = elim (Bool-cases (ltb 0 f.compact_after && leb f.compact_after f.ops)) [
    | inl e ↦ rw e (compact_tables f)
    | inr e ↦ rw e refl
  ]

  pub mutate_landed :
      (o : Op V) (f : State J O)
      → (append J O o f).0 ≡ ok tt
      → mutate J O o f ≡ maybe_compact J O (applied J O o (append J O o f).1)
  unfolding mutate
  mutate_landed o f e = rw (with_result (append J O o f) e) refl

  pub mutate-IsDurable :
      (o : Op V) (f : State J O)
      → is_written o ≡ true
      → IsDurable J F O f
      → (append J O o f).0 ≡ ok tt
      → IsDurable J F O (mutate J O o f).1
  mutate-IsDurable o f w d e = rw (mutate_landed o f e) (
      maybe_compact-IsDurable _
        (applied-IsDurable J F O o f (append J O o f).1 w d (append-Landed J F O o f e)))

  mutate_tables :
      (o : Op V) (f : State J O)
      → (append J O o f).0 ≡ ok tt
      → (mutate J O o f).1.tables ≡ apply_op o f.tables
  mutate_tables o f e = rw (mutate_landed o f e) (
      maybe_compact_tables (applied J O o (append J O o f).1)
      ∙ ap (apply_op o) (append-Landed J F O o f e).tables)

  -- A store opened again reads what the tables held.
  abbrev pub Reopened : State J O → Bytes → (ℕ → Bytes → Bytes → Option V) → Type 0
  Reopened f torn reads =
      (n : ℕ) (w : O.World)
      → (g : State J O) × (open_file J n f.snapshot (f.log ++ torn) w ≡ ok g)
        × ((now : ℕ) (c k : Bytes) → (get J O now c k g).0 ≡ ok (reads now c k))

  pub reopened :
      (f : State J O) (torn : Bytes)
      → IsDurable J F O f
      → Without newline torn
      → Reopened f torn (λ now c k. visible now (find c k f.tables))
  unfolding get find
  reopened f torn d h n w = (
    opened J n f.snapshot (f.log ++ torn) w (apply_all d.ops d.base, length (logged J F d.ops)),
    reopens J F O n f torn w d h,
    λ now c k. ap (λ x. ok (visible now x)) (d.agrees c k),
  )

  pub compact_loses_nothing :
      (f : State J O) (torn : Bytes)
      → IsDurable J F O f
      → Without newline torn
      → Reopened (compact J O f).1 torn (λ now c k. visible now (find c k f.tables))
  compact_loses_nothing f torn d h n w =
      let (g, opens, reads) = reopened (compact J O f).1 torn (compact-IsDurable f d) h n w in
      (
        g,
        opens,
        λ now c k. reads now c k ∙ ap (λ ts. ok (visible now (find c k ts))) (compact_tables f),
      )

  mutate_survives :
      (o : Op V) (f : State J O) (torn : Bytes)
      → is_written o ≡ true
      → IsDurable J F O f
      → (append J O o f).0 ≡ ok tt
      → Without newline torn
      → Reopened (mutate J O o f).1 torn (λ now c k. visible now (find c k (apply_op o f.tables)))
  mutate_survives o f torn p d landed h n w =
      let durable = mutate-IsDurable o f p d landed in
      let (g, opens, reads) = reopened (mutate J O o f).1 torn durable h n w in
      (
        g,
        opens,
        λ now c k.
            reads now c k ∙ ap (λ ts. ok (visible now (find c k ts))) (mutate_tables o f landed),
      )

  -- What is to be read after a put
  abbrev pub with_put : Bytes → Bytes → V → ℕ → State J O → ℕ → Bytes → Bytes → Option V
  with_put c k v e f now c' k' =
      if same c k c' k'
      then (if live (expiry_of (nanos_of e)) now then some v else none)
      else visible now (find c' k' f.tables)

  reads_put :
      (c k : Bytes) (v : V) (e : ℕ) (f : State J O) (now : ℕ) (c' k' : Bytes)
      → visible now (find c' k' (apply_op (put_op c k v (nanos_of e)) f.tables))
        ≡ with_put c k v e f now c' k'
  reads_put c k v e f now c' k' =
      rw (find-apply_op (put_op c k v (nanos_of e)) f.tables c' k')
        (elim (Bool-cases (same c k c' k')) [ inl b ↦ rw b refl | inr b ↦ rw b refl ])

  pub put_mutates :
      (c k : Bytes) (v : V) (e : ℕ) (f : State J O)
      → f.is_closed ≡ false
      → put J O c k v e f ≡ mutate J O (put_op c k v (nanos_of e)) f
  unfolding put
  put_mutates c k v e f h = rw h refl

  -- A put of a UTF-8 collection and key whose append lands keeps the store's files in step with
  -- its tables, whatever becomes of the compaction that it may start; and after a crash that
  -- leaves no newline behind, a reopened store reads the value until its expiry, as nanoseconds
  -- keep it, and for any other key what was read before.
  pub put_survives :
      (c k : Bytes) (v : V) (e : ℕ) (f : State J O) (torn : Bytes)
      → is_utf8 c ≡ true
      → is_utf8 k ≡ true
      → IsDurable J F O f
      → (append J O (put_op c k v (nanos_of e)) f).0 ≡ ok tt
      → Without newline torn
      → IsDurable J F O (put J O c k v e f).1
        × Reopened (put J O c k v e f).1 torn (with_put c k v e f)
  put_survives c k v e f torn uc uk d landed h =
      let o : Op V = put_op c k v (nanos_of e) in
      let fits = nanos_of-is_int64 e in
      let written : is_written o ≡ true = ground arith in
      rw (put_mutates c k v e f d.not_closed) (
        mutate-IsDurable o f written d landed,
        λ n w.
            let (g, opens, reads) = mutate_survives o f torn written d landed h n w in
            (
              g,
              opens,
              λ now c' k'. reads now c' k' ∙ ap (λ x. ok x) (reads_put c k v e f now c' k'),
            ),
      )

  -- What is to be read after a deletion
  abbrev pub without : Bytes → Bytes → State J O → ℕ → Bytes → Bytes → Option V
  without c k f now c' k' = if same c k c' k' then none else visible now (find c' k' f.tables)

  reads_delete :
      (c k : Bytes) (f : State J O) (now : ℕ) (c' k' : Bytes)
      → visible now (find c' k' (apply_op (delete_op c k) f.tables)) ≡ without c k f now c' k'
  reads_delete c k f now c' k' =
      rw (find-apply_op (delete_op c k) f.tables c' k')
        (elim (Bool-cases (same c k c' k')) [ inl b ↦ rw b refl | inr b ↦ rw b refl ])

  -- A key that is not there
  reads_absent :
      (c k : Bytes) (f : State J O) (now : ℕ) (c' k' : Bytes)
      → find c k f.tables ≡ none
      → visible now (find c' k' f.tables) ≡ without c k f now c' k'
  reads_absent c k f now c' k' e = ground (arith, str_eq_iff c c', str_eq_iff k k')

  delete_lem :
      (c k : Bytes) (f : State J O)
      → f.is_closed ≡ false
      → delete J O c k f ≡ delete_found J O c k (find c k f.tables) f
  unfolding delete find
  delete_lem c k f h = rw h refl

  pub delete_survives :
      (c k : Bytes) (f : State J O) (torn : Bytes)
      → IsDurable J F O f
      → (append J O (delete_op c k) f).0 ≡ ok tt
      → Without newline torn
      → IsDurable J F O (delete J O c k f).1 × Reopened (delete J O c k f).1 torn (without c k f)
  delete_survives c k f torn d landed h =
      rw (delete_lem c k f d.not_closed) (elim (Option-cases (find c k f.tables)) [
        | inl e ↦ rw e (
          d,
          λ n w.
              let (g, opens, reads) = reopened f torn d h n w in
              (
                g,
                opens,
                λ now c' k'. reads now c' k' ∙ ap (λ x. ok x) (reads_absent c k f now c' k' e),
              ),
        )
        | inr (x, e) ↦
            let written = found_written c k f.tables x d.kept e in
            rw e (
              mutate-IsDurable (delete_op c k) f written d landed,
              λ n w.
                  let (g, opens, reads) =
                    mutate_survives (delete_op c k) f torn written d landed h n w in
                  (
                    g,
                    opens,
                    λ now c' k'. reads now c' k' ∙ ap (λ x. ok x) (reads_delete c k f now c' k'),
                  ),
            )
      ])
