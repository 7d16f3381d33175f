-- ===== src/Store/File/Ordered.antt =====
-- internal/store/file.go: the tables in the order in which a snapshot is written.
use crm_bisync.Prelude.{
  ℕ, ◌≡◌, ◌≢◌, ◌∙◌, refl, ap, subst, inl, inr, true, ◌&&◌, List, Option, none, some, [], ◌∷◌, Bytes,
  str_eq, str_eq_iff, arith, Bool-cases, All, All-imp, All-append, Option-cases, sym, is_empty,
  if◌then◌else◌,
}
use crm_bisync.Prelude.Strings.{str_lt}
use crm_bisync.Prelude.Utf8.{is_utf8}
use crm_bisync.Prelude.Int.{is_int64, is_int64-to_int64, sub_ℕ}
use crm_bisync.Prelude.Sorting.{insert_by, sort_by, All-sort_by}
use crm_bisync.Prelude.Ascending.{by_key, Ascending, Distinct, sort_by-Ascending}
use crm_bisync.Prelude.Dict.{Dict, lookup, NodupKeys}
use crm_bisync.Store.Defs.{Entry, live}
use crm_bisync.Store.Mem.{or_empty}
use crm_bisync.Store.Typed.{unix_nano, unix_epoch}
use crm_bisync.Store.File.{
  Tables, Op, put_op, delete_op, nanos_of, apply_op, rows_of, snapshot_of, sort_each, in_order,
  dead_keys, all_dead, within, load_rows, load_tables,
}
use crm_bisync.Store.File.Replay.{find, is_written, apply_all, IsRow, IsRows, IsSnapshot}
use crm_bisync.Store.File.Snapshots.{IsOwnEntry, IsTable, IsKept, apply_op-IsKept}

pub nanos_of-is_int64 : (e : ℕ) → is_int64 (nanos_of e) ≡ true
nanos_of-is_int64 e =
    let fits : is_int64 (unix_nano e) ≡ true =
      unfold unix_nano in is_int64-to_int64 (sub_ℕ e unix_epoch) in
    ground arith

-- A collection and a key that a deletion can name
abbrev pub IsNamed : Bytes × Bytes → Type 0
IsNamed (c, k) = (is_utf8 c && is_utf8 k) ≡ true

-- A dictionary put in the order of its keys
module _ {A : Type 0} where
  abbrev name : Bytes × A → Bytes
  name p = p.0

  abbrev sorted : Dict A → Dict A
  sorted d = sort_by (by_key name) d

  lookup-insert_by :
      (k j : Bytes) (v : A) (d : Dict A)
      → lookup j d ≡ none
      → lookup k (insert_by (by_key name) (j, v) d) ≡ lookup k ((j, v) ∷ d)
  unfolding lookup insert_by
  lookup-insert_by k j v [] h = refl
  lookup-insert_by k j v ((i, w) ∷ d) h =
      ground (arith, str_eq_iff i k, str_eq_iff j k, str_eq_iff i j, lookup-insert_by k j v d)

  insert_by-NodupKeys :
      (j : Bytes) (v : A) (d : Dict A)
      → lookup j d ≡ none
      → NodupKeys d
      → NodupKeys (insert_by (by_key name) (j, v) d)
  unfolding lookup insert_by
  insert_by-NodupKeys j v [] h once = (refl, tt)
  insert_by-NodupKeys j v ((i, w) ∷ d) h (fresh, once) =
      ground
        (arith, str_eq_iff i j, str_eq_iff j i, lookup-insert_by i j v d, insert_by-NodupKeys j v d)

  lookup-sorted : (k : Bytes) (d : Dict A) → NodupKeys d → lookup k (sorted d) ≡ lookup k d
  unfolding sort_by lookup
  lookup-sorted k [] h = refl
  lookup-sorted k ((j, v) ∷ d) (fresh, once) =
      lookup-insert_by k j v (sorted d) (lookup-sorted j d once ∙ fresh)
      ∙ ap (λ o. if str_eq j k then some v else o) (lookup-sorted k d once)

  sorted-NodupKeys : (d : Dict A) → NodupKeys d → NodupKeys (sorted d)
  unfolding sort_by
  sorted-NodupKeys [] h = tt
  sorted-NodupKeys ((j, v) ∷ d) (fresh, once) =
      insert_by-NodupKeys j v (sorted d) (lookup-sorted j d once ∙ fresh) (sorted-NodupKeys d once)

  absent-Distinct : (k : Bytes) (d : Dict A) → lookup k d ≡ none → All (λ p. k ≢ p.0) d
  unfolding lookup
  absent-Distinct k [] h = tt
  absent-Distinct k ((j, v) ∷ d) h =
      let rest : lookup k d ≡ none = ground (arith, str_eq_iff j k) in
      ((λ same. ground (arith, str_eq_iff j k)), absent-Distinct k d rest)

  once-Distinct : (d : Dict A) → NodupKeys d → Distinct name d
  once-Distinct [] h = tt
  once-Distinct ((j, v) ∷ d) (fresh, once) = (absent-Distinct j d fresh, once-Distinct d once)

  sorted-Ascending : (d : Dict A) → NodupKeys d → Ascending name (sorted d)
  sorted-Ascending d h = sort_by-Ascending name d (once-Distinct d h)

module _ {V : Type 0} where
  sort_one : Option (Dict (Entry V)) → Option (Dict (Entry V))
  sort_one none = none
  sort_one (some t) = some (sorted t)

  lookup-sort_each :
      (c : Bytes) (ts : Tables (Entry V)) → lookup c (sort_each ts) ≡ sort_one (lookup c ts)
  unfolding lookup sort_each sort_one
  lookup-sort_each c [] = refl
  lookup-sort_each c ((d, t) ∷ ts) = ground (arith, lookup-sort_each c ts)

  sort_each-NodupKeys : (ts : Tables (Entry V)) → NodupKeys ts → NodupKeys (sort_each ts)
  unfolding sort_each
  sort_each-NodupKeys [] h = tt
  sort_each-NodupKeys ((d, t) ∷ ts) (fresh, once) =
      (lookup-sort_each d ts ∙ rw fresh (unfold sort_one in refl), sort_each-NodupKeys ts once)

  -- A table in order
  abbrev IsOrdered : Bytes × Dict (Entry V) → Type 0
  IsOrdered row = IsTable row × Ascending (λ p. p.0) row.1

  sort_each-IsOrdered : (ts : Tables (Entry V)) → All IsTable ts → All IsOrdered (sort_each ts)
  unfolding sort_each
  sort_each-IsOrdered [] h = tt
  sort_each-IsOrdered ((d, t) ∷ ts) (q, h) = (
    (
      record {
        text = q.text;
        once = sorted-NodupKeys t q.once;
        own = All-sort_by IsOwnEntry (by_key (λ p. p.0)) t q.own;
      },
      sorted-Ascending t q.once,
    ),
    sort_each-IsOrdered ts h,
  )

  in_order-IsOrdered : (ts : Tables (Entry V)) → IsKept ts → All IsOrdered (in_order ts)
  unfolding in_order
  in_order-IsOrdered ts h =
      All-sort_by IsOrdered (by_key (λ p. p.0)) (sort_each ts) (sort_each-IsOrdered ts h.each)

  pub in_order-IsKept : (ts : Tables (Entry V)) → IsKept ts → IsKept (in_order ts)
  unfolding in_order
  in_order-IsKept ts h = record {
    once = sorted-NodupKeys (sort_each ts) (sort_each-NodupKeys ts h.once);
    each = All-imp (λ row p. p.0) (in_order ts) (in_order-IsOrdered ts h);
  }

  lookup-or_empty :
      (k : Bytes) (o : Option (Dict (Entry V)))
      → ((t : Dict (Entry V)) → o ≡ some t → NodupKeys t)
      → lookup k (or_empty (sort_one o)) ≡ lookup k (or_empty o)
  unfolding sort_one
  lookup-or_empty k none h = refl
  lookup-or_empty k (some t) h = lookup-sorted k t (h t refl)

  lookup-IsTable :
      (c : Bytes) (ts : Tables (Entry V)) (t : Dict (Entry V))
      → All IsTable ts
      → lookup c ts ≡ some t
      → IsTable (c, t)
  unfolding lookup
  lookup-IsTable c [] t h e = cc
  lookup-IsTable c ((d, u) ∷ ts) t (q, h) e = elim (Bool-cases (str_eq d c)) [
    | inl s ↦
        let found : some u ≡ some t = rw s at e in
        let same : u ≡ t = cc in
        record {
          text = subst (λ x. is_utf8 x ≡ true) ((str_eq_iff d c).0 s) q.text;
          once = subst (λ x. NodupKeys x) same q.once;
          own = subst (λ x. All IsOwnEntry x) same q.own;
        }
    | inr s ↦ lookup-IsTable c ts t h (rw s at e)
  ]

  entry_text :
      (k : Bytes) (t : Dict (Entry V)) (e : Entry V)
      → All IsOwnEntry t
      → lookup k t ≡ some e
      → is_utf8 k ≡ true
  unfolding lookup
  entry_text k [] e h l = cc
  entry_text k ((j, x) ∷ t) e ((_, _, text), h) l = elim (Bool-cases (str_eq j k)) [
    | inl s ↦ subst (λ x. is_utf8 x ≡ true) ((str_eq_iff j k).0 s) text
    | inr s ↦ entry_text k t e h (rw s at l)
  ]

  -- The deletion of an entry that is there
  pub found_written :
      (c k : Bytes) (ts : Tables (Entry V)) (e : Entry V)
      → IsKept ts
      → find c k ts ≡ some e
      → is_written {V = V} (delete_op c k) ≡ true
  unfolding find lookup
  found_written c k ts e h l = elim (Option-cases (lookup c ts)) [
    | inl n ↦ let nowhere : none ≡ some e = sym (ap (λ o. lookup k (or_empty o)) n) ∙ l in cc
    | inr (t, s) ↦
        let table = lookup-IsTable c ts t h.each s in
        let column : is_utf8 c ≡ true = table.text in
        let text : is_utf8 k ≡ true =
          entry_text k t e table.own (sym (ap (λ o. lookup k (or_empty o)) s) ∙ l) in
        ground arith
  ]

  dead_keys_written :
      (now : ℕ) (c : Bytes) (t : Dict (Entry V))
      → is_utf8 c ≡ true
      → All IsOwnEntry t
      → All IsNamed (dead_keys now c t)
  unfolding dead_keys
  dead_keys_written now c [] u h = tt
  dead_keys_written now c ((k, e) ∷ t) u ((_, _, text), h) =
      let rest = dead_keys_written now c t u h in
      elim (Bool-cases (live e.expires_at now)) [
        | inl l ↦ rw l rest
        | inr l ↦ rw l ((ground arith), rest)
      ]

  pub all_dead_written :
      (now : ℕ) (ts : Tables (Entry V)) → All IsTable ts → All IsNamed (all_dead now ts)
  unfolding all_dead
  all_dead_written now [] h = tt
  all_dead_written now ((c, t) ∷ ts) (q, h) =
      All-append IsNamed (dead_keys now c t) (all_dead now ts)
        (dead_keys_written now c t q.text q.own) (all_dead_written now ts h)

  pub find-in_order :
      (ts : Tables (Entry V)) (c k : Bytes) → IsKept ts → find c k (in_order ts) ≡ find c k ts
  unfolding find in_order
  find-in_order ts c k h =
      ap (λ o. lookup k (or_empty o))
        (lookup-sorted c (sort_each ts) (sort_each-NodupKeys ts h.once) ∙ lookup-sort_each c ts)
      ∙ lookup-or_empty k (lookup c ts) (λ t e. (lookup-IsTable c ts t h.each e).once)

  -- What is saved of them

  rows_of-IsRow :
      (c : Bytes) (t : Dict (Entry V))
      → is_utf8 c ≡ true
      → All IsOwnEntry t
      → All IsRow (rows_of c t)
  unfolding rows_of
  rows_of-IsRow c [] u h = tt
  rows_of-IsRow c ((k, e) ∷ t) u ((own, again, text), h) =
      let fits = nanos_of-is_int64 e.expires_at in ((text, ground arith), rows_of-IsRow c t u h)

  rows_of-names :
      (P : Bytes → Type 0) (c : Bytes) (t : Dict (Entry V))
      → All (λ p. P p.0) t
      → All (λ p. P p.0) (rows_of c t)
  unfolding rows_of
  rows_of-names P c [] h = tt
  rows_of-names P c ((k, e) ∷ t) (p, h) = (p, rows_of-names P c t h)

  rows_of-Ascending :
      (c : Bytes) (t : Dict (Entry V)) → Ascending (λ p. p.0) t → Ascending (λ p. p.0) (rows_of c t)
  unfolding rows_of
  rows_of-Ascending c [] h = tt
  rows_of-Ascending c ((k, e) ∷ t) (above, h) =
      (rows_of-names (λ j. str_lt k j ≡ true) c t above, rows_of-Ascending c t h)

  snapshot_of-names :
      (P : Bytes → Type 0) (ts : Tables (Entry V))
      → All (λ p. P p.0) ts
      → All (λ p. P p.0) (snapshot_of ts)
  unfolding snapshot_of
  snapshot_of-names P [] h = tt
  snapshot_of-names P ((c, t) ∷ ts) (p, h) = elim (Bool-cases (is_empty t)) [
    | inl e ↦ rw e (snapshot_of-names P ts h)
    | inr e ↦ rw e (p, snapshot_of-names P ts h)
  ]

  ordered-IsSnapshot :
      (ts : Tables (Entry V))
      → Ascending (λ p. p.0) ts
      → All IsOrdered ts
      → IsSnapshot (snapshot_of ts)
  unfolding snapshot_of
  ordered-IsSnapshot [] a h = (tt, tt)
  ordered-IsSnapshot ((c, t) ∷ ts) (above, a) ((q, up), h) =
      let (rest, each) = ordered-IsSnapshot ts a h in
      elim (Bool-cases (is_empty t)) [
        | inl e ↦ rw e (rest, each)
        | inr e ↦ rw e (
          (snapshot_of-names (λ d. str_lt c d ≡ true) ts above, rest),
          ((q.text, rows_of-Ascending c t up, rows_of-IsRow c t q.text q.own), each),
        )
      ]

  pub in_order-IsSnapshot :
      (ts : Tables (Entry V)) → IsKept ts → IsSnapshot (snapshot_of (in_order ts))
  in_order-IsSnapshot ts h =
      let up : Ascending (λ p. p.0) (in_order ts) =
        unfold in_order in sorted-Ascending (sort_each ts) (sort_each-NodupKeys ts h.once) in
      ordered-IsSnapshot (in_order ts) up (in_order-IsOrdered ts h)

  -- What is loaded and replayed is well kept.

  pub nothing-IsKept : IsKept {V = V} []
  nothing-IsKept = record { once = tt; each = tt }

  pub apply_all-IsKept :
      (os : List (Op V)) (ts : Tables (Entry V))
      → All (λ o. is_written o ≡ true) os
      → IsKept ts
      → IsKept (apply_all os ts)
  unfolding apply_all
  apply_all-IsKept [] ts w h = h
  apply_all-IsKept (o ∷ os) ts (w, ws) h =
      apply_all-IsKept os (apply_op o ts) ws (apply_op-IsKept o ts w h)

  within_written :
      (c : Bytes) (o : Op V)
      → is_utf8 c ≡ true
      → is_written o ≡ true
      → is_written (within c o) ≡ true
  within_written c (put_op d k v e) u w = ground arith
  within_written c (delete_op d k) u w = ground arith

  load_rows-IsKept :
      (c : Bytes) (rows : Dict (Op V)) (ts : Tables (Entry V))
      → is_utf8 c ≡ true
      → All IsRow rows
      → IsKept ts
      → IsKept (load_rows c rows ts)
  unfolding load_rows
  load_rows-IsKept c [] ts u r h = h
  load_rows-IsKept c ((k, o) ∷ rows) ts u ((_, w), r) h =
      load_rows-IsKept c rows (apply_op (within c o) ts) u r
        (apply_op-IsKept (within c o) ts (within_written c o u w) h)

  pub load_tables-IsKept :
      (d : Tables (Op V)) (ts : Tables (Entry V))
      → All IsRows d
      → IsKept ts
      → IsKept (load_tables d ts)
  unfolding load_tables
  load_tables-IsKept [] ts r h = h
  load_tables-IsKept ((c, rows) ∷ d) ts ((u, _, r), rs) h =
      load_tables-IsKept d (load_rows c rows ts) rs (load_rows-IsKept c rows ts u r h)
