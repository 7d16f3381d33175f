-- ===== src/Store/File/Torn.antt =====
-- internal/store/file.go: `Put` after a write of the log that fell short.
use crm_bisync.Prelude.{
  ℕ, ◌≡◌, ◌∙◌, refl, ap, sym, subst, true, false, none, List, [], ◌∷◌, ◌++◌, Bytes, length, take,
  All, arith,
}
use mathlib.Core.List.{append_assoc}
use crm_bisync.Prelude.Strings.{Without, Without-append}
use crm_bisync.Prelude.Result.{ok, err}
use crm_bisync.Store.Defs.{Entry}
use crm_bisync.Store.Mem.{visible}
use crm_bisync.Store.File.{
  Tables, Op, put_op, Json, Os, short, not_written, nanos_of, newline, open_file, opened, replay,
  split_lines,
}
use crm_bisync.Store.File.Calls.{
  State, line_of, with_bytes, append, maybe_compact, applied, mutate, get, put,
}
use crm_bisync.Store.File.Replay.{
  find, apply_all, is_written, IsFaithful, logged, split_lines-logged, split_lines-line,
  replay-encoded,
}
use crm_bisync.Store.File.Durable.{IsDurable, append-Landed}
use crm_bisync.Store.File.Surviving.{Reopened, put_mutates, mutate_landed}

module _ {V : Type 0} (J : Json V) (F : IsFaithful J) (O : Os) where
  abbrev pub cut_of : Op V → ℕ → Bytes
  cut_of o m = take m (line_of J O o)

  -- The state after the write that fell short
  abbrev pub fallen_short : Op V → ℕ → O.World → State J O → State J O
  fallen_short o m w f = with_bytes J O (cut_of o m) w f

  put_short :
      (c k : Bytes) (v : V) (e m : ℕ) (f : State J O) (w : O.World)
      → f.is_closed ≡ false
      → O.write f.world ≡ (short m, w)
      → put J O c k v e f ≡ (err not_written, fallen_short (put_op c k v (nanos_of e)) m w f)
  unfolding mutate append
  put_short c k v e m f w open_ falls = put_mutates J F O c k v e f open_ ∙ rw falls refl

  -- A write that lands in a store that does not compact
  mutate_plain :
      (o : Op V) (f : State J O)
      → f.compact_after ≡ 0
      → (append J O o f).0 ≡ ok tt
      → mutate J O o f ≡ (ok tt, applied J O o (append J O o f).1)
  unfolding maybe_compact
  mutate_plain o f never landed =
      mutate_landed J F O o f landed
      ∙ rw ((append-Landed J F O o f landed).compact_after, never) refl

  -- The garbled line in the log, and what follows it
  garbled_log :
      (log cut line tail : Bytes)
      → ((log ++ cut) ++ (line ++ newline ∷ [])) ++ tail ≡ log ++ ((cut ++ line) ++ newline ∷ tail)
  garbled_log log cut line tail =
      append_assoc (log ++ cut) (line ++ newline ∷ []) tail
      ∙ append_assoc log cut ((line ++ newline ∷ []) ++ tail)
      ∙ ap (λ s. log ++ (cut ++ s)) (append_assoc line (newline ∷ []) tail)
      ∙ ap (λ s. log ++ s) (sym (append_assoc cut line (newline ∷ tail)))

  replay_stops :
      (os : List (Op V)) (cut tail : Bytes) (p : Op V) (base : Tables (Entry V))
      → All (λ o. is_written o ≡ true) os
      → Without newline cut
      → J.decode_op (cut ++ J.encode_op p) ≡ none
      → replay J (split_lines (((logged J F os ++ cut) ++ line_of J O p) ++ tail)).0 base
        ≡ (apply_all os base, length (logged J F os))
  unfolding replay
  replay_stops os cut tail p base ws h garbled =
      let line : Bytes = cut ++ J.encode_op p in
      ap (λ s. replay J (split_lines s).0 base)
        (garbled_log (logged J F os) cut (J.encode_op p) tail)
      ∙ rw
          (
            split_lines-logged J F os (line ++ newline ∷ tail),
            split_lines-line line tail
                (Without-append newline cut (J.encode_op p) h (F.one_line p)),
          )
          (replay-encoded J F os (line ∷ (split_lines tail).0) base ws
            ∙ rw garbled (ap (λ n. (apply_all os base, n)) (omega arith)))

  -- Opening a directory whose log holds the garbled line
  reopens_before :
      (f g : State J O) (cut tail : Bytes) (p : Op V) (d : IsDurable J F O f)
      → g.snapshot ≡ f.snapshot
      → g.log ≡ (f.log ++ cut) ++ line_of J O p
      → Without newline cut
      → J.decode_op (cut ++ J.encode_op p) ≡ none
      → Reopened J F O g tail (λ now c k. visible now (find c k f.tables))
  unfolding open_file get find
  reopens_before f g cut tail p d same_snapshot grown h garbled n w = (
    opened J n g.snapshot (g.log ++ tail) w (apply_all d.ops d.base, length (logged J F d.ops)),
    rw (same_snapshot, d.loads)
        (ap (λ q. ok (opened J n f.snapshot (g.log ++ tail) w q))
          (rw (grown, d.whole_log) (replay_stops d.ops cut tail p d.base d.ops_written h garbled))),
    λ now c k. ap (λ x. ok (visible now x)) (d.agrees c k),
  )

  -- In a store that does not compact, if the log takes only a part of a put's line, without its
  -- newline, that put fails; if the next put lands and the joined line does not decode, that put
  -- succeeds, and a store opened from the directory, whatever was logged afterwards, reads
  -- neither of them.
  pub short_write_loses :
      (c k : Bytes) (v : V) (e m : ℕ) (c' k' : Bytes) (v' : V) (e' : ℕ) (f : State J O)
      (w : O.World) (later : Bytes)
      → IsDurable J F O f
      → f.compact_after ≡ 0
      → O.write f.world ≡ (short m, w)
      → Without newline (cut_of (put_op c k v (nanos_of e)) m)
      → (append J O (put_op c' k' v' (nanos_of e')) (put J O c k v e f).1).0 ≡ ok tt
      → J.decode_op
          (cut_of (put_op c k v (nanos_of e)) m ++ J.encode_op (put_op c' k' v' (nanos_of e')))
        ≡ none
      → ((put J O c k v e f).0 ≡ err not_written)
        × ((put J O c' k' v' e' (put J O c k v e f).1).0 ≡ ok tt)
        × Reopened J F O
            (put J O c' k' v' e' (put J O c k v e f).1).1
            later
            (λ now d j. visible now (find d j f.tables))
  short_write_loses c k v e m c' k' v' e' f w later d never falls one_line landed garbled =
      let o : Op V = put_op c k v (nanos_of e) in
      let p : Op V = put_op c' k' v' (nanos_of e') in
      let f' : State J O = fallen_short o m w f in
      let first = put_short c k v e m f w d.not_closed falls in
      let landed' = subst (λ q. (append J O p q.1).0 ≡ ok tt) first landed in
      let l = append-Landed J F O p f' landed' in
      let second =
        put_mutates J F O c' k' v' e' f' d.not_closed ∙ mutate_plain p f' never landed' in
      rw (first, second)
        (
          refl,
          refl,
          reopens_before f (applied J O p (append J O p f').1) (cut_of o m) later p d l.snapshot
              l.log one_line garbled,
        )
