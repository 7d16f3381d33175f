-- ===== src/Examples/Identities.antt =====
-- The key index and the matching of two contacts.
use crm_bisync.Identity.{
  add_unseen, after_link, by_keys, candidates_of, decide, gather, key_string, linked_peer,
  record_owner,
}
use crm_bisync.Prelude.Dict.{insert}
use crm_bisync.Store.Defs.{live}
use crm_bisync.Prelude.Sorting.{sort_by}
use crm_bisync.Conflict.Terms.{join_fields}
use crm_bisync.Store.Mem.Writes.{view}
use crm_bisync.Prelude.Dict.{lookup}
use crm_bisync.Store.Mem.{get, new_mem, put}
use crm_bisync.Store.Typed.{get_as}
use crm_bisync.Identity.{
  add_held, add_ref, add_to, held_key, load_key, release_found, release_keys, usable,
}
use crm_bisync.Prelude.Strings.{str_eq}
use crm_bisync.Prelude.{◌≡◌, ◌&&◌, ◌||◌, not, refl, none, some, Bytes, List, [], ◌∷◌, codes}
use crm_bisync.Prelude.Sorting.{any_b}
use crm_bisync.Prelude.Dict.{Dict}
use crm_bisync.Prelude.Result.{ok}
use crm_bisync.Model.{Value, text}
use crm_bisync.Store.Mem.{Mem}
use crm_bisync.Store.Typed.{Document, Ref, key, get_link, coll_key_owner}
use crm_bisync.Identity.{
  Resolver, to_review, Resolution, matched, matched_on, listed, ref_eq, index, resolve,
}
use crm_bisync.Identity.Entries.{IsIndex, refs_at}
use crm_bisync.Identity.Indexing.{among, held_keys}
use crm_bisync.Identity.Reindexing.{Leaves, owner_of, index-Leaves}
use crm_bisync.Identity.Matching.{found_by, matched_is_unique}
use crm_bisync.Examples.Values.{S, L, empty, empty-IsOpen, formats, contact, crm_seven, desk_nine}

abbrev resolver : Resolver
resolver = record { kind = contact; keys = codes "email" ∷ []; on_ambiguous = to_review }

abbrev ada : Dict Value
ada = (codes "email", text (codes "a@x")) ∷ []

empty-IsIndex : IsIndex formats S L 1 empty
unfolding view lookup new_mem
empty-IsIndex = record { is_open = empty-IsOpen; entries = λ k. refl }

no_owner : L.view 1 coll_key_owner (key crm_seven) empty ≡ none
unfolding view lookup new_mem
no_owner = refl

abbrev indexed : Mem Document
indexed = (index formats S resolver 1 crm_seven ada empty).1

abbrev held : List Bytes
held = held_keys formats S L 1 crm_seven ada resolver.keys

index-Leaves_example :
    Leaves formats S L 1
      (index formats S resolver 1 crm_seven ada empty)
      crm_seven
      (owner_of held)
      (λ k q.
        (among formats S L 1 k held && ref_eq crm_seven q)
        || (listed q (refs_at formats S L 1 k empty)
            && not (among formats S L 1 k [] && ref_eq crm_seven q)))
index-Leaves_example =
    index-Leaves formats S L 1 resolver crm_seven ada none empty empty-IsIndex no_owner

indexed-IsIndex : IsIndex formats S L 1 indexed
indexed-IsIndex =
    (index-Leaves formats S L 1 resolver crm_seven ada none empty empty-IsIndex no_owner).is_index

abbrev answer : Resolution
answer = record {
  outcome = matched;
  peer_ref = some crm_seven;
  candidates = [];
  reason = matched_on (codes "email");
}

not_linked : get_link S 1 desk_nine indexed ≡ (ok none, indexed)
unfolding get_link get_as get index release_keys new_mem lookup release_found add_held held_key
    usable str_eq add_ref load_key add_to put record_owner insert
not_linked = refl

answers : (resolve formats S resolver 1 desk_nine (codes "crm") ada indexed).0 ≡ ok answer
unfolding resolve get_link get_as get index release_keys new_mem lookup release_found add_held
    held_key usable str_eq add_ref load_key add_to put record_owner insert after_link linked_peer
    by_keys candidates_of gather key_string live decide sort_by add_unseen join_fields
answers = refl

matched_is_unique_example :
    (p : Ref) × (some crm_seven ≡ some p)
    × ((q : Ref)
        → any_b
            (λ n. listed q (found_by formats S L 1 resolver (codes "crm") ada indexed n))
            resolver.keys
          ≡ ref_eq p q)
matched_is_unique_example =
    matched_is_unique formats S L 1 resolver (codes "crm") ada desk_nine none answer indexed
      indexed-IsIndex not_linked answers refl
