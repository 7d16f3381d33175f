-- ===== src/Store/File/Replay.antt =====
-- internal/store/file.go: what the operations of a log leave in the tables, and the lines of a log.
use crm_bisync.Prelude.{
  ◌+◌, ◌≡◌, ◌∙◌, refl, ap, sym, ◌⊎◌, inl, inr, Bool, true, ◌&&◌, Option, none, some, List, [], ◌∷◌,
  ◌++◌, Bytes, length, take, All, str_eq, str_eq_iff, arith, Bool-cases, ==_iff, length-append,
  if◌then◌else◌,
}
use mathlib.Core.List.{append_assoc}
use crm_bisync.Prelude.Strings.{Without}
use crm_bisync.Prelude.Utf8.{is_utf8}
use crm_bisync.Prelude.Ascending.{Ascending}
use crm_bisync.Prelude.Int.{is_int64}
use crm_bisync.Prelude.Dict.{Dict, lookup, insert, erase, lookup-insert, lookup-erase, lookup-nil}
use crm_bisync.Store.Defs.{Entry, same}
use crm_bisync.Store.Mem.{or_empty}
use crm_bisync.Store.File.{
  Tables, Op, put_op, delete_op, Json, expiry_of, erase_row, apply_op, split_lines, replay, newline,
}

module _ {V : Type 0} where
  -- An entry of the tables
  unfoldable pub find : Bytes → Bytes → Tables (Entry V) → Option (Entry V)
  find c k ts = lookup k (or_empty (lookup c ts))

  abbrev pub touches : Op V → Bytes → Bytes → Bool
  touches (put_op c k _ _) c' k' = same c k c' k'
  touches (delete_op c k) c' k' = same c k c' k'

  abbrev pub left_by : Op V → Option (Entry V)
  left_by (put_op c k v e) = some (record { key = k; value = v; expires_at = expiry_of e })
  left_by (delete_op c k) = none

  find-insert :
      (c k : Bytes) (t : Dict (Entry V)) (ts : Tables (Entry V)) (c' : Bytes)
      → find c' k (insert c t ts) ≡ (if str_eq c c' then lookup k t else find c' k ts)
  unfolding find
  find-insert c k t ts c' = rw (lookup-insert c c' t ts) (ground arith)

  find-erase_row :
      (d j : Bytes) (o : Option (Dict (Entry V))) (ts : Tables (Entry V)) (c k : Bytes)
      → lookup d ts ≡ o
      → find c k (erase_row d j o ts) ≡ (if same d j c k then none else find c k ts)
  unfolding find
  find-erase_row d j none ts c k e = ground (arith, str_eq_iff d c, lookup-nil {V = Entry V} k)
  find-erase_row d j (some t) ts c k e =
      find-insert d k (erase j t) ts c ∙ rw (lookup-erase j k t) (ground (arith, str_eq_iff d c))

  pub find-apply_op :
      (o : Op V) (ts : Tables (Entry V)) (c k : Bytes)
      → find c k (apply_op o ts) ≡ (if touches o c k then left_by o else find c k ts)
  unfolding apply_op
  find-apply_op (put_op d j v e) ts c k =
      find-insert d k _ ts c
      ∙ rw
          (lookup-insert j k (record { key = j; value = v; expires_at = expiry_of e })
            (or_empty (lookup d ts)))
          (unfold find in ground (arith, str_eq_iff d c))
  find-apply_op (delete_op d j) ts c k = find-erase_row d j (lookup d ts) ts c k refl

  unfoldable pub apply_all : List (Op V) → Tables (Entry V) → Tables (Entry V)
  apply_all [] ts = ts
  apply_all (o ∷ os) ts = apply_all os (apply_op o ts)

  -- What operations leave of an entry
  unfoldable pub after : Bytes → Bytes → List (Op V) → Option (Entry V) → Option (Entry V)
  after c k [] x = x
  after c k (o ∷ os) x = after c k os (if touches o c k then left_by o else x)

  pub find-apply_all :
      (os : List (Op V)) (ts : Tables (Entry V)) (c k : Bytes)
      → find c k (apply_all os ts) ≡ after c k os (find c k ts)
  unfolding apply_all after
  find-apply_all [] ts c k = refl
  find-apply_all (o ∷ os) ts c k =
      find-apply_all os (apply_op o ts) c k ∙ ap (after c k os) (find-apply_op o ts c k)

  -- Operations leave an entry alone, or leave one thing whatever was there.
  after_settles :
      (c k : Bytes) (os : List (Op V))
      → ((x : Option (Entry V)) → after c k os x ≡ x)
        ⊎ ((y : Option (Entry V)) × ((x : Option (Entry V)) → after c k os x ≡ y))
  unfolding after
  after_settles c k [] = inl (λ x. refl)
  after_settles c k (o ∷ os) = elim (after_settles c k os) [
    | inr (y, h) ↦ inr (y, λ x. h _)
    | inl h ↦ elim (Bool-cases (touches o c k)) [
      | inl e ↦ inr (left_by o, λ x. h _ ∙ rw e refl)
      | inr e ↦ inl (λ x. h _ ∙ rw e refl)
    ]
  ]

  pub after_twice :
      (c k : Bytes) (os : List (Op V)) (x : Option (Entry V))
      → after c k os (after c k os x) ≡ after c k os x
  after_twice c k os x = elim (after_settles c k os) [
    | inl h ↦ h (after c k os x)
    | inr (y, h) ↦ h (after c k os x) ∙ sym (h x)
  ]

  pub apply_all-append :
      (os more : List (Op V)) (ts : Tables (Entry V))
      → apply_all (os ++ more) ts ≡ apply_all more (apply_all os ts)
  unfolding apply_all
  apply_all-append [] more ts = refl
  apply_all-append (o ∷ os) more ts = apply_all-append os more (apply_op o ts)

-- Lines

pub split_lines-line :
    (l rest : Bytes)
    → Without newline l
    → split_lines (l ++ newline ∷ rest) ≡ (l ∷ (split_lines rest).0, (split_lines rest).1)
unfolding split_lines
split_lines-line [] rest h = refl
split_lines-line (c ∷ l) rest (n, h) =
    rw (split_lines-line l rest h) (ground (arith, ==_iff c newline))

pub split_lines-tail : (t : Bytes) → Without newline t → split_lines t ≡ ([], t)
unfolding split_lines
split_lines-tail [] h = refl
split_lines-tail (c ∷ t) (n, h) = rw (split_lines-tail t h) (ground (arith, ==_iff c newline))

pub take_whole : (s t : Bytes) → take (length s) (s ++ t) ≡ s
take_whole [] t = refl
take_whole (c ∷ s) t = ap (λ r. c ∷ r) (take_whole s t)

-- An operation that encoding/json keeps: its strings are UTF-8 and its expiry is an int64.
abbrev pub is_written : {V : Type 0} → Op V → Bool
is_written (put_op c k v e) = is_utf8 c && (is_utf8 k && is_int64 e)
is_written (delete_op c k) = is_utf8 c && is_utf8 k

-- A snapshot that encoding/json keeps, row by row: maps in the order of their keys
abbrev pub IsRow : {V : Type 0} → Bytes × Op V → Type 0
IsRow (k, o) = (is_utf8 k ≡ true) × (is_written o ≡ true)

abbrev pub IsRows : {V : Type 0} → Bytes × Dict (Op V) → Type 0
IsRows (c, rows) = (is_utf8 c ≡ true) × Ascending (λ p. p.0) rows × All IsRow rows

abbrev pub IsSnapshot : {V : Type 0} → Tables (Op V) → Type 0
IsSnapshot d = Ascending (λ p. p.0) d × All IsRows d

-- What the log relies on of encoding/json: a line that it can keep is read as it was written, no
-- line holds a newline, and a snapshot that it can keep is read as it was written.
pub record IsFaithful {V : Type 0} (J : Json V) : Type 0 where
  pub op_back : (o : Op V) → is_written o ≡ true → J.decode_op (J.encode_op o) ≡ some o
  pub one_line : (o : Op V) → Without newline (J.encode_op o)
  pub snapshot_back :
      (d : Tables (Op V)) → IsSnapshot d → J.decode_snapshot (J.encode_snapshot d) ≡ some d

module _ {V : Type 0} (J : Json V) (F : IsFaithful J) where
  -- The log of operations, and its lines
  unfoldable pub logged : List (Op V) → Bytes
  logged [] = []
  logged (o ∷ os) = J.encode_op o ++ newline ∷ logged os

  unfoldable pub encoded : List (Op V) → List Bytes
  encoded [] = []
  encoded (o ∷ os) = J.encode_op o ∷ encoded os

  pub split_lines-logged :
      (os : List (Op V)) (tail : Bytes)
      → split_lines (logged os ++ tail) ≡ (encoded os ++ (split_lines tail).0, (split_lines tail).1)
  unfolding logged encoded
  split_lines-logged [] tail = refl
  split_lines-logged (o ∷ os) tail =
      ap split_lines (append_assoc (J.encode_op o) (newline ∷ logged os) tail)
      ∙ split_lines-line (J.encode_op o) (logged os ++ tail) (F.one_line o)
      ∙ rw (split_lines-logged os tail) refl

  pub replay-encoded :
      (os : List (Op V)) (more : List Bytes) (ts : Tables (Entry V))
      → All (λ o. is_written o ≡ true) os
      → replay J (encoded os ++ more) ts ≡ (
        (replay J more (apply_all os ts)).0,
        length (logged os) + (replay J more (apply_all os ts)).1,
      )
  unfolding replay encoded logged apply_all
  replay-encoded [] more ts h = ap (λ n. ((replay J more ts).0, n)) (omega arith)
  replay-encoded (o ∷ os) more ts (w, h) =
      rw
        (
          F.op_back o w,
          replay-encoded os more (apply_op o ts) h,
          length-append (J.encode_op o) (newline ∷ logged os),
        )
        (ap (λ n. ((replay J more (apply_all os (apply_op o ts))).0, n)) (omega arith))
