-- ===== src/Identity/Entries.antt =====
-- internal/identity/identity.go: what adding a ref to a key's entry, and removing it, does to the
-- index.
use crm_bisync.Prelude.{
  ℕ, ◌≡◌, ◌∙◌, refl, ap, Bool, true, false, not, ◌&&◌, Option, none, some, List, [], ◌∷◌, Bytes,
  str_eq_iff, str_eq_refl, arith, if◌then◌else◌, inl, inr, Bool-cases, ◌↔◌,
}
use crm_bisync.Prelude.Strings.{str_eq}
use crm_bisync.Prelude.Result.{ok, bind_pure, map_result}
use crm_bisync.Model.{Formats}
use crm_bisync.Store.Defs.{Store, IsLawful, live}
use crm_bisync.Store.Typed.{Document, key_entry, Ref, get_as, decoded, coll_keys, coll_key_owner}
use crm_bisync.Store.Typed.Access.{get_as_lem}
use crm_bisync.Identity.{ref_eq, listed, without, as_key_entry, or_none, load_key}

pub ref_eq_iff : (r q : Ref) → (ref_eq r q ≡ true) ↔ (r ≡ q)
unfolding ref_eq
ref_eq_iff r q = (
  λ h.
      let a : r.connector ≡ q.connector = (str_eq_iff r.connector q.connector).0 (ground arith) in
      let b : r.kind ≡ q.kind = (str_eq_iff r.kind q.kind).0 (ground arith) in
      let c : r.remote_id ≡ q.remote_id = (str_eq_iff r.remote_id q.remote_id).0 (ground arith) in
      λ i. record { connector = a i; kind = b i; remote_id = c i },
  λ e. rw e (rw (str_eq_refl q.connector, str_eq_refl q.kind, str_eq_refl q.remote_id) refl),
)

-- The refs of a stored entry; a document of another shape has none.
abbrev pub entry_at : Option Document → List Ref
entry_at none = []
entry_at (some (key_entry refs)) = refs
entry_at (some _) = []

abbrev pub is_entry : Option Document → Bool
is_entry none = true
is_entry (some (key_entry refs)) = true
is_entry (some _) = false

decoded_entry :
    (d : Option Document)
    → is_entry d ≡ true
    → map_result or_none (decoded as_key_entry d) ≡ ok (entry_at d)
decoded_entry none h = refl
decoded_entry (some (key_entry refs)) h = refl
decoded_entry (some _) h = cc

pub listed-without :
    (r q : Ref) (refs : List Ref) → listed q (without r refs) ≡ (listed q refs && not (ref_eq r q))
unfolding without
listed-without r q [] = refl
listed-without r q (p ∷ ps) =
    ground (arith, listed-without r q ps, ref_eq_iff p r, ref_eq_iff p q, ref_eq_iff r q)

module _ (F : Formats) (S : Store Document) (L : IsLawful S) (now : ℕ) where
  abbrev pub refs_at : Bytes → S.State → List Ref
  refs_at k s = entry_at (L.view now coll_keys k s)

  -- The store is open and every entry of the key index decodes.
  pub record IsIndex (s : S.State) : Type 0 where
    pub is_open : L.IsOpen s
    pub entries : (k : Bytes) → is_entry (L.view now coll_keys k s) ≡ true

  -- A change of the index from `s`: which refs each key then lists. The owners stay.
  pub record Changes (s s' : S.State) (lists : Bytes → Ref → Bool) : Type 0 where
    pub is_index : IsIndex s'
    pub owners : (k : Bytes) → L.view now coll_key_owner k s' ≡ L.view now coll_key_owner k s
    pub refs : (k : Bytes) (q : Ref) → listed q (refs_at k s') ≡ lists k q

  pub load_key_lem :
      (k : Bytes) (s : S.State) → IsIndex s → load_key F S now k s ≡ (ok (refs_at k s), s)
  unfolding load_key
  load_key_lem k s h =
      bind_pure or_none (get_as S as_key_entry now coll_keys k) s
        (get_as_lem S L as_key_entry now coll_keys k s h.is_open)
      ∙ ap (λ r. (r, s)) (decoded_entry (L.view now coll_keys k s) (h.entries k))

  -- Saving an entry changes what its key lists.
  pub save_key-Changes :
      (k : Bytes) (refs : List Ref) (s : S.State)
      → IsIndex s
      → Changes s
          (S.put coll_keys k (key_entry refs) 0 s).1
          (λ k' q. if str_eq k k' then listed q refs else listed q (refs_at k' s))
  save_key-Changes k refs s h = record {
    is_index = record {
      is_open = L.put-IsOpen coll_keys k (key_entry refs) 0 s h.is_open;
      entries = λ k'.
          rw
            (
              L.view-put coll_keys k (key_entry refs) 0 s now coll_keys k' h.is_open,
              str_eq_refl coll_keys,
            )
            (elim (Bool-cases (str_eq k k')) [
              | inl e ↦ rw e (unfold live in refl)
              | inr e ↦ rw e (h.entries k')
            ]);
    };
    owners = λ k'.
        rw (L.view-put coll_keys k (key_entry refs) 0 s now coll_key_owner k' h.is_open)
          (unfold str_eq in refl);
    refs = λ k' q.
        rw
          (
            L.view-put coll_keys k (key_entry refs) 0 s now coll_keys k' h.is_open,
            str_eq_refl coll_keys,
          )
          (elim (Bool-cases (str_eq k k')) [
            | inl e ↦ rw e (unfold live in refl)
            | inr e ↦ rw e refl
          ]);
  }

  pub delete_key-Changes :
      (k : Bytes) (s : S.State)
      → IsIndex s
      → Changes s
          (S.delete coll_keys k s).1
          (λ k' q. if str_eq k k' then false else listed q (refs_at k' s))
  delete_key-Changes k s h = record {
    is_index = record {
      is_open = L.delete-IsOpen coll_keys k s h.is_open;
      entries = λ k'.
          rw (L.view-delete coll_keys k s now coll_keys k' h.is_open, str_eq_refl coll_keys)
            (elim (Bool-cases (str_eq k k')) [ inl e ↦ rw e refl | inr e ↦ rw e (h.entries k') ]);
    };
    owners = λ k'.
        rw (L.view-delete coll_keys k s now coll_key_owner k' h.is_open) (unfold str_eq in refl);
    refs = λ k' q.
        rw (L.view-delete coll_keys k s now coll_keys k' h.is_open, str_eq_refl coll_keys)
          (elim (Bool-cases (str_eq k k')) [ inl e ↦ rw e refl | inr e ↦ rw e refl ]);
  }
