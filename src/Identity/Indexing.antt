-- ===== src/Identity/Indexing.antt =====
-- internal/identity/identity.go: the steps of `Index` and what each key then lists.
use crm_bisync.Prelude.{
  ℕ, ◌≡◌, ◌∙◌, refl, Bool, not, ◌&&◌, ◌||◌, none, some, List, [], ◌∷◌, ◌++◌, Bytes, str_eq_iff,
  arith, if◌then◌else◌, inl, inr, Bool-cases, Option-cases,
}
use crm_bisync.Prelude.Strings.{str_eq}
use crm_bisync.Prelude.Sorting.{sort_by, any_b, any_b-append, any_b-sort_by}
use crm_bisync.Prelude.Dict.{Dict}
use crm_bisync.Prelude.Result.{Result, Exec, ◌>>=◌, pure, ok, bind_ok}
use crm_bisync.Model.{Formats, Value}
use crm_bisync.Store.Defs.{Store, IsLawful, StoreErr}
use crm_bisync.Store.Typed.{Document, key_entry, Ref, coll_keys}
use crm_bisync.Identity.{
  ref_eq, listed, by_id, without, save_key, add_to, add_ref, keep, remove_ref, remove_all, held_key,
  add_held,
}
use crm_bisync.Identity.Entries.{
  ref_eq_iff, listed-without, refs_at, IsIndex, Changes, load_key_lem, save_key-Changes,
  delete_key-Changes,
}

module _ (F : Formats) (S : Store Document) (L : IsLawful S) (now : ℕ) where
  relists :
      {s s' : S.State} (f g : Bytes → Ref → Bool)
      → Changes F S L now s s' f
      → ((k : Bytes) (q : Ref) → f k q ≡ g k q)
      → Changes F S L now s s' g
  relists f g c e = record {
    is_index = c.is_index;
    owners = c.owners;
    refs = λ k q. c.refs k q ∙ e k q;
  }

  Changes-same :
      (s : S.State)
      → IsIndex F S L now s
      → Changes F S L now s s (λ k q. listed q (refs_at F S L now k s))
  Changes-same s h = record { is_index = h; owners = λ k. refl; refs = λ k q. refl }

  -- A step that returns a value and changes the index
  abbrev pub Does :
      {A : Type 0} → Result StoreErr A × S.State → A → S.State → (Bytes → Ref → Bool) → Type 0
  Does p a s lists = (p.0 ≡ ok a) × Changes F S L now s p.1 lists

  add_to-Does :
      (k : Bytes) (r : Ref) (s : S.State)
      → IsIndex F S L now s
      → Does
          (add_to F S k r (refs_at F S L now k s) s)
          tt
          s
          (λ k' q. (str_eq k k' && ref_eq r q) || listed q (refs_at F S L now k' s))
  unfolding add_to save_key
  add_to-Does k r s h = elim (Bool-cases (listed r (refs_at F S L now k s))) [
    | inl e ↦ rw e (
      refl,
      relists _ _ (Changes-same s h) (λ k' q. ground (arith, str_eq_iff k k', ref_eq_iff r q)),
    )
    | inr e ↦ rw e (
      L.put_ok coll_keys k (key_entry (sort_by by_id (refs_at F S L now k s ++ r ∷ []))) 0 s
          h.is_open,
      relists _ _
          (save_key-Changes F S L now k (sort_by by_id (refs_at F S L now k s ++ r ∷ [])) s h)
          (λ k' q. ground (
            arith,
            str_eq_iff k k',
            any_b-sort_by (λ p. ref_eq p q) by_id (refs_at F S L now k s ++ r ∷ []),
            any_b-append (λ p. ref_eq p q) (refs_at F S L now k s) (r ∷ []),
          )),
    )
  ]

  add_ref-Does :
      (k : Bytes) (r : Ref) (s : S.State)
      → IsIndex F S L now s
      → Does
          (add_ref F S now k r s)
          tt
          s
          (λ k' q. (str_eq k k' && ref_eq r q) || listed q (refs_at F S L now k' s))
  unfolding add_ref
  add_ref-Does k r s h = rw (load_key_lem F S L now k s h) (add_to-Does k r s h)

  keep-Does :
      (k : Bytes) (refs : List Ref) (s : S.State)
      → IsIndex F S L now s
      → Does
          (keep F S k refs s)
          tt
          s
          (λ k' q. if str_eq k k' then listed q refs else listed q (refs_at F S L now k' s))
  unfolding keep save_key
  keep-Does k [] s h = (L.delete_ok coll_keys k s h.is_open, delete_key-Changes F S L now k s h)
  keep-Does k (r ∷ rs) s h = (
    L.put_ok coll_keys k (key_entry (r ∷ rs)) 0 s h.is_open,
    save_key-Changes F S L now k (r ∷ rs) s h,
  )

  remove_ref-Does :
      (k : Bytes) (r : Ref) (s : S.State)
      → IsIndex F S L now s
      → Does
          (remove_ref F S now k r s)
          tt
          s
          (λ k' q. listed q (refs_at F S L now k' s) && not (str_eq k k' && ref_eq r q))
  unfolding remove_ref
  remove_ref-Does k r s h = rw (load_key_lem F S L now k s h) (
      let d = keep-Does k (without r (refs_at F S L now k s)) s h in
      (
        d.0,
        relists _ _ d.1
            (λ k' q. ground (arith, str_eq_iff k k', listed-without r q (refs_at F S L now k s))),
      ))

  then-Does :
      {A B : Type 0} (m : Exec S.State StoreErr A) (f : A → Exec S.State StoreErr B) (a : A) (b : B)
      (s : S.State) (first second whole : Bytes → Ref → Bool)
      → Does (m s) a s first
      → Does (f a (m s).1) b (m s).1 second
      → ((k : Bytes) (q : Ref) → second k q ≡ whole k q)
      → Does ((m >>= f) s) b s whole
  then-Does m f a b s first second whole (e, c) (e', c') w = rw (bind_ok m f s a e) (
    e',
    record {
      is_index = c'.is_index;
      owners = λ k. c'.owners k ∙ c.owners k;
      refs = λ k q. c'.refs k q ∙ w k q;
    },
  )

  abbrev pub among : Bytes → List Bytes → Bool
  among k ks = any_b (λ j. str_eq j k) ks

  pub remove_all-Does :
      (r : Ref) (ks : List Bytes) (s : S.State)
      → IsIndex F S L now s
      → Does
          (remove_all F S now r ks s)
          tt
          s
          (λ k' q. listed q (refs_at F S L now k' s) && not (among k' ks && ref_eq r q))
  unfolding remove_all
  remove_all-Does r [] s h = (refl, relists _ _ (Changes-same s h) (λ k q. ground arith))
  remove_all-Does r (k ∷ ks) s h =
      let first = remove_ref-Does k r s h in
      let s1 : S.State = (remove_ref F S now k r s).1 in
      then-Does (remove_ref F S now k r) (λ _. remove_all F S now r ks) tt tt s
        (λ k' q. listed q (refs_at F S L now k' s) && not (str_eq k k' && ref_eq r q))
        (λ k' q. listed q (refs_at F S L now k' s1) && not (among k' ks && ref_eq r q))
        (λ k' q. listed q (refs_at F S L now k' s) && not (among k' (k ∷ ks) && ref_eq r q)) first
        (remove_all-Does r ks s1 first.1.is_index)
        (λ k' q. let e = first.1.refs k' q in ground arith)

  -- The keys that a record holds
  unfoldable pub held_keys : Ref → Dict Value → List Bytes → List Bytes
  held_keys r canonical [] = []
  held_keys r canonical (name ∷ names) = elim (held_key F S r canonical name) [
    | none ↦ held_keys r canonical names
    | some k ↦ k ∷ held_keys r canonical names
  ]

  hold-Does :
      (k : Bytes) (r : Ref) (canonical : Dict Value) (names : List Bytes) (s : S.State)
      → IsIndex F S L now s
      → (let s1 = (add_ref F S now k r s).1 in
          IsIndex F S L now s1
          → Does (add_held F S now r canonical names s1) (held_keys r canonical names) s1 (λ k' q.
            (among k' (held_keys r canonical names) && ref_eq r q)
            || listed q (refs_at F S L now k' s1)))
      → Does
          ((add_ref F S now k r >>= λ _.
              add_held F S now r canonical names >>= λ rest. pure (k ∷ rest))
            s)
          (k ∷ held_keys r canonical names)
          s
          (λ k' q.
            (among k' (k ∷ held_keys r canonical names) && ref_eq r q)
            || listed q (refs_at F S L now k' s))
  hold-Does k r canonical names s h more =
      let first = add_ref-Does k r s h in
      let s1 : S.State = (add_ref F S now k r s).1 in
      let held = held_keys r canonical names in
      let rest = more first.1.is_index in
      let s2 : S.State = (add_held F S now r canonical names s1).1 in
      then-Does (add_ref F S now k r)
        (λ _. add_held F S now r canonical names >>= λ rest. pure (k ∷ rest)) tt (k ∷ held) s
        (λ k' q. (str_eq k k' && ref_eq r q) || listed q (refs_at F S L now k' s))
        (λ k' q. (among k' held && ref_eq r q) || listed q (refs_at F S L now k' s1))
        (λ k' q. (among k' (k ∷ held) && ref_eq r q) || listed q (refs_at F S L now k' s)) first
        (then-Does (add_held F S now r canonical names) (λ rest. pure (k ∷ rest)) held (k ∷ held) s1
          (λ k' q. (among k' held && ref_eq r q) || listed q (refs_at F S L now k' s1))
          (λ k' q. listed q (refs_at F S L now k' s2))
          (λ k' q. (among k' held && ref_eq r q) || listed q (refs_at F S L now k' s1)) rest
          (refl, Changes-same s2 rest.1.is_index) (λ k' q. rest.1.refs k' q))
        (λ k' q. let e = first.1.refs k' q in ground arith)

  pub add_held-Does :
      (r : Ref) (canonical : Dict Value) (names : List Bytes) (s : S.State)
      → IsIndex F S L now s
      → Does (add_held F S now r canonical names s) (held_keys r canonical names) s (λ k' q.
        (among k' (held_keys r canonical names) && ref_eq r q) || listed q (refs_at F S L now k' s))
  unfolding add_held held_keys
  add_held-Does r canonical [] s h = (refl, relists _ _ (Changes-same s h) (λ k q. ground arith))
  add_held-Does r canonical (name ∷ names) s h =
      elim (Option-cases (held_key F S r canonical name)) [
        | inl e ↦ rw (add_held, held_keys, e) (add_held-Does r canonical names s h)
        | inr (k, e) ↦
            rw (add_held, held_keys, e)
              (hold-Does k r canonical names s h
                (add_held-Does r canonical names (add_ref F S now k r s).1))
      ]
