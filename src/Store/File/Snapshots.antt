-- ===== src/Store/File/Snapshots.antt =====
-- internal/store/file.go: a snapshot of the tables, and the tables that are loaded from it.
use crm_bisync.Prelude.{
  ◌≡◌, ◌∙◌, refl, ap, sym, subst, inl, inr, true, Option, none, some, [], ◌∷◌, Bytes, str_eq,
  str_eq_iff, arith, Bool-cases, All, is_empty, if◌then◌else◌,
}
use crm_bisync.Prelude.Utf8.{is_utf8}
use crm_bisync.Prelude.Int.{ℤ}
use crm_bisync.Prelude.Dict.{
  Dict, lookup, insert, erase, lookup-nil, NodupKeys, insert-NodupKeys, erase-NodupKeys,
}
use crm_bisync.Store.Defs.{Entry}
use crm_bisync.Store.Mem.{or_empty}
use crm_bisync.Store.Typed.{unix_nano, from_unix_nano}
use crm_bisync.Store.File.{
  Tables, Op, put_op, delete_op, nanos_of, expiry_of, apply_op, erase_row, rows_of, snapshot_of,
  load_rows, load_tables,
}
use crm_bisync.Store.File.Replay.{find, find-apply_op, is_written}

-- An expiry that was read from nanoseconds is written as them again.
expiry_again : (n : ℤ) → expiry_of (nanos_of (expiry_of n)) ≡ expiry_of n
unfolding unix_nano from_unix_nano
expiry_again n = ground arith

-- An entry put into a dictionary, or taken out, where all entries have a property
module _ {A : Type 0} (P : Bytes × A → Type 0) where
  All-insert : (k : Bytes) (v : A) (d : Dict A) → P (k, v) → All P d → All P (insert k v d)
  unfolding insert
  All-insert k v [] p h = (p, tt)
  All-insert k v ((j, w) ∷ d) p (q, h) = elim (Bool-cases (str_eq j k)) [
    | inl e ↦ rw e (p, h)
    | inr e ↦ rw e (q, All-insert k v d p h)
  ]

  All-erase : (k : Bytes) (d : Dict A) → All P d → All P (erase k d)
  unfolding erase
  All-erase k [] h = tt
  All-erase k ((j, w) ∷ d) (q, h) = elim (Bool-cases (str_eq j k)) [
    | inl e ↦ rw e (All-erase k d h)
    | inr e ↦ rw e (q, All-erase k d h)
  ]

module _ {V : Type 0} where
  abbrev pub IsOwnEntry : Bytes × Entry V → Type 0
  IsOwnEntry (k, e) =
      (e.key ≡ k) × (expiry_of (nanos_of e.expires_at) ≡ e.expires_at) × (is_utf8 k ≡ true)

  -- Keys in UTF-8 that stand once, and entries that have their own key and an expiry in nanoseconds
  pub record IsTable (row : Bytes × Dict (Entry V)) : Type 0 where
    pub text : is_utf8 row.0 ≡ true
    pub once : NodupKeys row.1
    pub own : All IsOwnEntry row.1

  pub record IsKept (ts : Tables (Entry V)) : Type 0 where
    pub once : NodupKeys ts
    pub each : All IsTable ts

  abbrev pub or_entry : Option (Entry V) → Option (Entry V) → Option (Entry V)
  or_entry none x = x
  or_entry (some e) x = some e

  entry_again :
      (k : Bytes) (e : Entry V)
      → IsOwnEntry (k, e)
      → record { key = k; value = e.value; expires_at = expiry_of (nanos_of e.expires_at) } ≡ e
  entry_again k e (own, again, _) = rw (sym own, again) refl

  load_rows-rows_of :
      (c : Bytes) (t : Dict (Entry V)) (ts : Tables (Entry V)) (c' k : Bytes)
      → IsTable (c, t)
      → find c' k (load_rows c (rows_of c t) ts)
        ≡ (if str_eq c c' then or_entry (lookup k t) (find c' k ts) else find c' k ts)
  unfolding load_rows rows_of lookup
  load_rows-rows_of c [] ts c' k h = ground arith
  load_rows-rows_of c ((j, e) ∷ t) ts c' k h =
      let o : Op V = put_op c j e.value (nanos_of e.expires_at) in
      load_rows-rows_of c t (apply_op o ts) c' k
        (record { text = h.text; once = h.once.1; own = h.own.1 })
      ∙ rw (find-apply_op o ts c' k, entry_again j e h.own.0)
          (let fresh : lookup j t ≡ none = h.once.0 in ground (arith, str_eq_iff j k))

  find_cons :
      (d : Bytes) (t : Dict (Entry V)) (ts : Tables (Entry V)) (c k : Bytes)
      → find c k ((d, t) ∷ ts) ≡ (if str_eq d c then lookup k t else find c k ts)
  unfolding find lookup
  find_cons d t ts c k = ground arith

  find_absent :
      (d : Bytes) (ts : Tables (Entry V)) (k : Bytes) → lookup d ts ≡ none → find d k ts ≡ none
  unfolding find
  find_absent d ts k e = rw e (lookup-nil k)

  -- A table with its rows loaded first, and then the tables after it
  rest_over :
      (d : Bytes) (t : Dict (Entry V)) (ts : Tables (Entry V)) (c k : Bytes) (x : Option (Entry V))
      → lookup d ts ≡ none
      → or_entry (find c k ts) (if str_eq d c then or_entry (lookup k t) x else x)
        ≡ or_entry (find c k ((d, t) ∷ ts)) x
  rest_over d t ts c k x absent =
      rw (find_cons d t ts c k)
        (let nowhere = find_absent d ts k absent in ground (arith, str_eq_iff d c))

  no_rows : (t : Dict (Entry V)) (k : Bytes) → is_empty t ≡ true → lookup k t ≡ none
  no_rows [] k e = lookup-nil k
  no_rows (x ∷ t) k e = cc

  pub load_tables-snapshot_of :
      (ts base : Tables (Entry V)) (c k : Bytes)
      → IsKept ts
      → find c k (load_tables (snapshot_of ts) base) ≡ or_entry (find c k ts) (find c k base)
  unfolding load_tables snapshot_of
  load_tables-snapshot_of [] base c k h = unfold find lookup in refl
  load_tables-snapshot_of ((d, t) ∷ ts) base c k h =
      let rest : IsKept ts = record { once = h.once.1; each = h.each.1 } in
      elim (Bool-cases (is_empty t)) [
        | inl e ↦ rw e (
            load_tables-snapshot_of ts base c k rest
            ∙ sym (
                sym (rest_over d t ts c k (find c k base) h.once.0)
                ∙ rw (no_rows t k e) (ground arith)))
        | inr e ↦ rw e (
            load_tables-snapshot_of ts (load_rows d (rows_of d t) base) c k rest
            ∙ ap (or_entry (find c k ts)) (load_rows-rows_of d t base c k h.each.0)
            ∙ rest_over d t ts c k (find c k base) h.once.0)
      ]

  -- The tables stay well kept.
  entries-IsTable :
      (c : Bytes) (ts : Tables (Entry V))
      → is_utf8 c ≡ true
      → All IsTable ts
      → IsTable (c, or_empty (lookup c ts))
  unfolding lookup
  entries-IsTable c [] u h = record { text = u; once = tt; own = tt }
  entries-IsTable c ((d, t) ∷ ts) u (q, h) = elim (Bool-cases (str_eq d c)) [
    | inl e ↦ rw e (record { text = u; once = q.once; own = q.own })
    | inr e ↦ rw e (entries-IsTable c ts u h)
  ]

  erase_row-IsKept :
      (c k : Bytes) (o : Option (Dict (Entry V))) (ts : Tables (Entry V))
      → lookup c ts ≡ o
      → is_utf8 c ≡ true
      → IsKept ts
      → IsKept (erase_row c k o ts)
  erase_row-IsKept c k none ts e u h = h
  erase_row-IsKept c k (some t) ts e u h =
      let found : IsTable (c, t) =
        subst (λ o. IsTable (c, or_empty o)) e (entries-IsTable c ts u h.each) in
      record {
        once = insert-NodupKeys c (erase k t) ts h.once;
        each =
            All-insert IsTable c (erase k t) ts
              (record {
                text = u;
                once = erase-NodupKeys k t found.once;
                own = All-erase IsOwnEntry k t found.own;
              })
              h.each;
      }

  pub apply_op-IsKept :
      (o : Op V) (ts : Tables (Entry V)) → is_written o ≡ true → IsKept ts → IsKept (apply_op o ts)
  unfolding apply_op
  apply_op-IsKept (delete_op c k) ts w h =
      let u : is_utf8 c ≡ true = ground arith in erase_row-IsKept c k (lookup c ts) ts refl u h
  apply_op-IsKept (put_op c k v e) ts w h =
      let u : is_utf8 c ≡ true = ground arith in
      let text : is_utf8 k ≡ true = ground arith in
      let found = entries-IsTable c ts u h.each in
      record {
        once = insert-NodupKeys c _ ts h.once;
        each =
            All-insert IsTable c _ ts
              (record {
                text = u;
                once = insert-NodupKeys k _ (or_empty (lookup c ts)) found.once;
                own =
                    All-insert IsOwnEntry k _ (or_empty (lookup c ts)) (refl, expiry_again e, text)
                      found.own;
              })
              h.each;
      }
