-- ===== src/Identity/Reindexing.antt =====
-- internal/identity/identity.go: `Index` and `Deindex` as a whole.
use crm_bisync.Prelude.{
  ℕ, ◌≡◌, ◌∙◌, refl, ap, Bool, not, ◌&&◌, ◌||◌, Option, none, some, List, [], ◌∷◌, Bytes,
  str_eq_refl, arith,
}
use crm_bisync.Prelude.Strings.{str_lt, str_eq}
use crm_bisync.Prelude.Sorting.{sort_by}
use crm_bisync.Prelude.Dict.{Dict}
use crm_bisync.Prelude.Result.{Result, ◌>>=◌, ok, bind_ok}
use crm_bisync.Model.{Formats, Value}
use crm_bisync.Store.Defs.{Store, IsLawful, StoreErr, live}
use crm_bisync.Store.Typed.{Document, owner_entry, Ref, key, decoded, coll_keys, coll_key_owner}
use crm_bisync.Store.Typed.Access.{get_as_lem}
use crm_bisync.Identity.{
  Resolver, ref_eq, listed, as_owner_entry, remove_all, release_found, release_keys, add_held,
  record_owner, index,
}
use crm_bisync.Identity.Entries.{entry_at, refs_at, IsIndex}
use crm_bisync.Identity.Indexing.{among, remove_all-Does, held_keys, add_held-Does}

-- The stored form of a record's keys
abbrev pub owner_doc : Option (List Bytes) → Option Document
owner_doc none = none
owner_doc (some ks) = some (owner_entry ks)

abbrev pub keys_of : Option (List Bytes) → List Bytes
keys_of none = []
keys_of (some ks) = ks

-- What `Index` stores for the keys that it added
abbrev pub owner_of : List Bytes → Option (List Bytes)
owner_of [] = none
owner_of (k ∷ ks) = some (sort_by str_lt (k ∷ ks))

module _ (F : Formats) (S : Store Document) (L : IsLawful S) (now : ℕ) where
  -- The index as it was, with another owner for the record
  record Owned (s s' : S.State) (r : Ref) (owner : Option (List Bytes)) : Type 0 where
    pub is_index : IsIndex F S L now s'
    pub owner_at : L.view now coll_key_owner (key r) s' ≡ owner_doc owner
    pub refs : (k : Bytes) → L.view now coll_keys k s' ≡ L.view now coll_keys k s

  put_owner-Owned :
      (r : Ref) (ks : List Bytes) (s : S.State)
      → IsIndex F S L now s
      → Owned s (S.put coll_key_owner (key r) (owner_entry ks) 0 s).1 r (some ks)
  put_owner-Owned r ks s h =
      let kept : (k : Bytes)
          → L.view now coll_keys k (S.put coll_key_owner (key r) (owner_entry ks) 0 s).1
            ≡ L.view now coll_keys k s =
        λ k.
          rw (L.view-put coll_key_owner (key r) (owner_entry ks) 0 s now coll_keys k h.is_open)
            (unfold str_eq in refl) in
      record {
        is_index = record {
          is_open = L.put-IsOpen coll_key_owner (key r) (owner_entry ks) 0 s h.is_open;
          entries = λ k. rw (kept k) (h.entries k);
        };
        owner_at =
            rw
              (
                L.view-put coll_key_owner (key r) (owner_entry ks) 0 s now coll_key_owner (key r)
                    h.is_open,
                str_eq_refl coll_key_owner,
                str_eq_refl (key r),
              )
              (unfold live in refl);
        refs = kept;
      }

  delete_owner-Owned :
      (r : Ref) (s : S.State)
      → IsIndex F S L now s
      → Owned s (S.delete coll_key_owner (key r) s).1 r none
  delete_owner-Owned r s h =
      let kept : (k : Bytes)
          → L.view now coll_keys k (S.delete coll_key_owner (key r) s).1
            ≡ L.view now coll_keys k s =
        λ k.
          rw (L.view-delete coll_key_owner (key r) s now coll_keys k h.is_open)
            (unfold str_eq in refl) in
      record {
        is_index = record {
          is_open = L.delete-IsOpen coll_key_owner (key r) s h.is_open;
          entries = λ k. rw (kept k) (h.entries k);
        };
        owner_at =
            rw
              (
                L.view-delete coll_key_owner (key r) s now coll_key_owner (key r) h.is_open,
                str_eq_refl coll_key_owner,
                str_eq_refl (key r),
              )
              refl;
        refs = kept;
      }

  -- A call that succeeds, the refs that each key then lists, and the record's owner entry
  pub record Leaves (p : Result StoreErr (Unit {0}) × S.State) (r : Ref)
      (owner : Option (List Bytes)) (lists : Bytes → Ref → Bool) : Type 0 where
    pub succeeds : p.0 ≡ ok tt
    pub is_index : IsIndex F S L now p.1
    pub owner_at : L.view now coll_key_owner (key r) p.1 ≡ owner_doc owner
    pub refs : (k : Bytes) (q : Ref) → listed q (refs_at F S L now k p.1) ≡ lists k q

  release_found-Leaves :
      (r : Ref) (owner : Option (List Bytes)) (s : S.State)
      → IsIndex F S L now s
      → L.view now coll_key_owner (key r) s ≡ owner_doc owner
      → Leaves (release_found F S now r owner s) r none (λ k q.
        listed q (refs_at F S L now k s) && not (among F S L now k (keys_of owner) && ref_eq r q))
  unfolding release_found
  release_found-Leaves r none s h e = record {
    succeeds = refl;
    is_index = h;
    owner_at = e;
    refs = λ k q. ground arith;
  }
  release_found-Leaves r (some ks) s h e =
      let d = remove_all-Does F S L now r ks s h in
      let s1 : S.State = (remove_all F S now r ks s).1 in
      let o = delete_owner-Owned r s1 d.1.is_index in
      rw (bind_ok (remove_all F S now r ks) (λ _. S.delete coll_key_owner (key r)) s tt d.0)
        (record {
          succeeds = L.delete_ok coll_key_owner (key r) s1 d.1.is_index.is_open;
          is_index = o.is_index;
          owner_at = o.owner_at;
          refs = λ k q. ap (λ x. listed q (entry_at x)) (o.refs k) ∙ d.1.refs k q;
        })

  decoded_owner :
      (owner : Option (List Bytes)) → decoded as_owner_entry (owner_doc owner) ≡ ok owner
  decoded_owner none = refl
  decoded_owner (some ks) = refl

  -- `releaseKeys`: the record is taken from each key that its owner entry names, and from no other.
  release_keys-Leaves :
      (r : Ref) (owner : Option (List Bytes)) (s : S.State)
      → IsIndex F S L now s
      → L.view now coll_key_owner (key r) s ≡ owner_doc owner
      → Leaves (release_keys F S now r s) r none (λ k q.
        listed q (refs_at F S L now k s) && not (among F S L now k (keys_of owner) && ref_eq r q))
  unfolding release_keys
  release_keys-Leaves r owner s h e =
      rw
        (
          get_as_lem S L as_owner_entry now coll_key_owner (key r) s h.is_open,
          e,
          decoded_owner owner,
        )
        (release_found-Leaves r owner s h e)

  record_owner-Leaves :
      (r : Ref) (held : List Bytes) (s : S.State)
      → IsIndex F S L now s
      → L.view now coll_key_owner (key r) s ≡ none
      → Leaves
          (record_owner F S r held s)
          r
          (owner_of held)
          (λ k q. listed q (refs_at F S L now k s))
  unfolding record_owner
  record_owner-Leaves r [] s h e = record {
    succeeds = refl;
    is_index = h;
    owner_at = e;
    refs = λ k q. refl;
  }
  record_owner-Leaves r (k ∷ ks) s h e =
      let o = put_owner-Owned r (sort_by str_lt (k ∷ ks)) s h in
      record {
        succeeds =
            L.put_ok coll_key_owner (key r) (owner_entry (sort_by str_lt (k ∷ ks))) 0 s h.is_open;
        is_index = o.is_index;
        owner_at = o.owner_at;
        refs = λ j q. ap (λ x. listed q (entry_at x)) (o.refs j);
      }

  -- On an open store whose key entries decode and whose owner entry for the record is as given,
  -- Index succeeds; a key then lists the record exactly if the record holds it now, or it listed
  -- the record before and was not in that owner entry; it lists any other record as before; and
  -- the owner entry names the keys held now.
  pub index-Leaves :
      (resolver : Resolver) (r : Ref) (canonical : Dict Value) (owner : Option (List Bytes))
      (s : S.State)
      → IsIndex F S L now s
      → L.view now coll_key_owner (key r) s ≡ owner_doc owner
      → let held = held_keys F S L now r canonical resolver.keys in
        Leaves (index F S resolver now r canonical s) r (owner_of held) (λ k q.
          (among F S L now k held && ref_eq r q)
          || (listed q (refs_at F S L now k s)
              && not (among F S L now k (keys_of owner) && ref_eq r q)))
  unfolding index
  index-Leaves resolver r canonical owner s h e =
      let released = release_keys-Leaves r owner s h e in
      let s1 : S.State = (release_keys F S now r s).1 in
      let added = add_held-Does F S L now r canonical resolver.keys s1 released.is_index in
      let s2 : S.State = (add_held F S now r canonical resolver.keys s1).1 in
      let held : List Bytes = held_keys F S L now r canonical resolver.keys in
      let done =
        record_owner-Leaves r held s2 added.1.is_index
          (added.1.owners (key r) ∙ released.owner_at) in
      rw
        (
          bind_ok (release_keys F S now r)
              (λ _. add_held F S now r canonical resolver.keys >>= record_owner F S r) s tt
              released.succeeds,
          bind_ok (add_held F S now r canonical resolver.keys) (record_owner F S r) s1 held added.0,
        )
        (record {
          succeeds = done.succeeds;
          is_index = done.is_index;
          owner_at = done.owner_at;
          refs = λ k q.
              done.refs k q
              ∙ added.1.refs k q
              ∙ ap (λ b. (among F S L now k held && ref_eq r q) || b) (released.refs k q);
        })
