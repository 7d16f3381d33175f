-- ===== src/Identity/Matching.antt =====
-- internal/identity/identity.go: `candidates` and `Resolve`.
use crm_bisync.Prelude.{
  ℕ, ◌≡◌, ◌∙◌, refl, ap, sym, ◌||◌, Option, none, some, List, [], ◌∷◌, ◌++◌, Bytes, arith,
  if◌then◌else◌, is_empty, inl, inr, Bool-cases, Option-cases,
}
use crm_bisync.Prelude.Sorting.{sort_by, any_b, any_b-append, any_b-sort_by}
use crm_bisync.Prelude.Dict.{Dict}
use crm_bisync.Prelude.Result.{Result, Exec, ◌>>=◌, ok}
use crm_bisync.Model.{Formats, Value}
use crm_bisync.Store.Defs.{Store, IsLawful, StoreErr}
use crm_bisync.Store.Typed.{Document, Ref, Link, get_link}
use crm_bisync.Conflict.Terms.{join_fields}
use crm_bisync.Identity.{
  linked, matched, Resolution, OnAmbiguous, to_review, to_create, to_skip, Resolver, load_key,
  usable, ref_eq, listed, by_id, add_unseen, key_string, gather, candidates_of, decide, by_keys,
  linked_peer, after_link, resolve,
}
use crm_bisync.Identity.Entries.{ref_eq_iff, refs_at, IsIndex, load_key_lem}

listed-add_unseen :
    (q : Ref) (rs out : List Ref) → listed q (add_unseen out rs) ≡ (listed q out || listed q rs)
unfolding add_unseen
listed-add_unseen q [] out = ground arith
listed-add_unseen q (r ∷ rs) out =
    listed-add_unseen q rs (if listed r out then out else out ++ r ∷ [])
    ∙ elim (Bool-cases (listed r out)) [
      | inl e ↦ rw e (ground (arith, ref_eq_iff r q))
      | inr e ↦ rw e (ground (arith, any_b-append (λ p. ref_eq p q) out (r ∷ [])))
    ]

module _ (F : Formats) (S : Store Document) (L : IsLawful S) (now : ℕ) (resolver : Resolver)
    (connector : Bytes) (canonical : Dict Value) where
  -- The records of the peer that a key finds
  abbrev pub found_in : S.State → Bytes → Option Value → List Ref
  found_in s name none = []
  found_in s name (some v) = refs_at F S L now (key_string F S connector resolver.kind name v) s

  abbrev pub found_by : S.State → Bytes → List Ref
  found_by s name = found_in s name (usable name canonical)

  -- What the loop gathers: candidates in the order of discovery, and the names that matched
  gathered : S.State → List Bytes → List Ref → List Bytes → List Ref × List Bytes
  gathered s [] out names = (out, names)
  gathered s (name ∷ rest) out names =
      gathered s rest (add_unseen out (found_by s name))
        (if is_empty (found_by s name) then names else names ++ name ∷ [])

  listed-gathered :
      (q : Ref) (s : S.State) (names : List Bytes) (out : List Ref) (ns : List Bytes)
      → listed q (gathered s names out ns).0
        ≡ (listed q out || any_b (λ n. listed q (found_by s n)) names)
  unfolding gathered
  listed-gathered q s [] out ns = ground arith
  listed-gathered q s (name ∷ rest) out ns =
      listed-gathered q s rest (add_unseen out (found_by s name))
        (if is_empty (found_by s name) then ns else ns ++ name ∷ [])
      ∙ ground (arith, listed-add_unseen q (found_by s name) out)

  found_none : (s : S.State) (name : Bytes) → usable name canonical ≡ none → found_by s name ≡ []
  found_none s name e = ap (found_in s name) e

  found_some :
      (s : S.State) (name : Bytes) (v : Value)
      → usable name canonical ≡ some v
      → found_by s name ≡ refs_at F S L now (key_string F S connector resolver.kind name v) s
  found_some s name v e = ap (found_in s name) e

  gathered_found :
      (s : S.State) (name : Bytes) (rest : List Bytes) (out : List Ref) (ns : List Bytes)
      (f : List Ref)
      → found_by s name ≡ f
      → gathered s (name ∷ rest) out ns
        ≡ gathered s rest (add_unseen out f) (if is_empty f then ns else ns ++ name ∷ [])
  unfolding gathered
  gathered_found s name rest out ns f e =
      ap
        (λ (x : List Ref).
          gathered s rest (add_unseen out x) (if is_empty x then ns else ns ++ name ∷ []))
        e

  gather-none :
      (s : S.State) (name : Bytes) (rest : List Bytes) (out : List Ref) (ns : List Bytes)
      → usable name canonical ≡ none
      → gather F S resolver now connector canonical (name ∷ rest) out ns s
        ≡ gather F S resolver now connector canonical rest out ns s
  gather-none s name rest out ns e =
      unfold gather in
      ap
        (λ (o : Option Value).
          (elim o as (λ _. Exec S.State StoreErr (List Ref × Bytes)) [
            | none ↦ gather F S resolver now connector canonical rest out ns
            | some v ↦
                (load_key F S now (key_string F S connector resolver.kind name v) >>= λ refs.
                gather F S resolver now connector canonical rest (add_unseen out refs)
                  (if is_empty refs then ns else ns ++ name ∷ []))
          ])
            s)
        e

  gather-some :
      (s : S.State) (name : Bytes) (rest : List Bytes) (out : List Ref) (ns : List Bytes)
      (v : Value)
      → usable name canonical ≡ some v
      → gather F S resolver now connector canonical (name ∷ rest) out ns s
        ≡ (load_key F S now (key_string F S connector resolver.kind name v) >>= λ refs.
              gather F S resolver now connector canonical rest
                (add_unseen out refs)
                (if is_empty refs then ns else ns ++ name ∷ []))
            s
  gather-some s name rest out ns v e =
      unfold gather in
      ap
        (λ (o : Option Value).
          (elim o as (λ _. Exec S.State StoreErr (List Ref × Bytes)) [
            | none ↦ gather F S resolver now connector canonical rest out ns
            | some v ↦
                (load_key F S now (key_string F S connector resolver.kind name v) >>= λ refs.
                gather F S resolver now connector canonical rest (add_unseen out refs)
                  (if is_empty refs then ns else ns ++ name ∷ []))
          ])
            s)
        e

  gather_lem :
      (s : S.State) (names : List Bytes) (out : List Ref) (ns : List Bytes)
      → IsIndex F S L now s
      → gather F S resolver now connector canonical names out ns s ≡ (
        ok (sort_by by_id (gathered s names out ns).0, join_fields (gathered s names out ns).1),
        s,
      )
  unfolding gather gathered add_unseen
  gather_lem s [] out ns h = refl
  gather_lem s (name ∷ rest) out ns h = elim (Option-cases (usable name canonical)) [
    | inl e ↦
        gather-none s name rest out ns e
        ∙ gather_lem s rest out ns h
        ∙ ap (λ g. (ok (sort_by by_id g.0, join_fields g.1), s))
            (sym (gathered_found s name rest out ns [] (found_none s name e)))
    | inr (v, e) ↦
        let k : Bytes = key_string F S connector resolver.kind name v in
        gather-some s name rest out ns v e
        ∙ rw (load_key_lem F S L now k s h) refl
        ∙ gather_lem s rest (add_unseen out (refs_at F S L now k s))
            (if is_empty (refs_at F S L now k s) then ns else ns ++ name ∷ []) h
        ∙ ap (λ g. (ok (sort_by by_id g.0, join_fields g.1), s))
            (sym
              (gathered_found s name rest out ns (refs_at F S L now k s) (found_some s name v e)))
  ]

  decide-matched :
      (policy : OnAmbiguous) (rs : List Ref) (names : Bytes)
      → (decide F S policy connector rs names).outcome ≡ matched
      → (p : Ref) × ((decide F S policy connector rs names).peer_ref ≡ some p) × (rs ≡ p ∷ [])
  unfolding decide
  decide-matched to_review [] names e = cc
  decide-matched to_create [] names e = cc
  decide-matched to_skip [] names e = cc
  decide-matched policy (r ∷ []) names e = (r, refl, refl)
  decide-matched to_review (r ∷ q ∷ rs) names e = cc
  decide-matched to_create (r ∷ q ∷ rs) names e = cc
  decide-matched to_skip (r ∷ q ∷ rs) names e = cc

  by_keys_lem :
      (s : S.State)
      → IsIndex F S L now s
      → let g = gathered s resolver.keys [] [] in
        (by_keys F S resolver now connector canonical s).0
        ≡ ok (decide F S resolver.on_ambiguous connector (sort_by by_id g.0) (join_fields g.1))
  unfolding by_keys candidates_of
  by_keys_lem s h = rw (gather_lem s resolver.keys [] [] h) refl

  succeeded : Resolution → Result StoreErr Resolution
  succeeded a = ok a

  ok_injective : (a b : Resolution) → succeeded a ≡ succeeded b → a ≡ b
  unfolding succeeded
  ok_injective a b e = cc

  answered :
      (o : Option Ref) (res : Resolution) (s : S.State)
      → IsIndex F S L now s
      → (after_link F S resolver now connector canonical o s).0 ≡ ok res
      → res.outcome ≡ matched
      → (p : Ref) × (res.peer_ref ≡ some p)
        × ((q : Ref) → any_b (λ n. listed q (found_by s n)) resolver.keys ≡ ref_eq p q)
  unfolding after_link succeeded
  answered (some p) res s h r m =
      let bad : linked ≡ matched = ap (λ x. x.outcome) (ok_injective _ res r) ∙ m in cc
  answered none res s h r m =
      let g = gathered s resolver.keys [] [] in
      let answer =
        decide F S resolver.on_ambiguous connector (sort_by by_id g.0) (join_fields g.1) in
      let is_answer = ok_injective answer res (sym (by_keys_lem s h) ∙ r) in
      let (p, named, only) =
        decide-matched resolver.on_ambiguous (sort_by by_id g.0) (join_fields g.1)
          (ap (λ x. x.outcome) is_answer ∙ m) in
      (
        p,
        sym (ap (λ x. x.peer_ref) is_answer) ∙ named,
        λ q.
            let e = ap (listed q) only in
            ground (
              arith,
              any_b-sort_by (λ x. ref_eq x q) by_id g.0,
              listed-gathered q s resolver.keys [] [],
            ),
      )

  -- On an open store whose key entries decode and whose link entry of the record can be read, if
  -- Resolve answers that a record matched, then it names one, and a key finds a record exactly
  -- if it is that one.
  pub matched_is_unique :
      (from : Ref) (l : Option Link) (res : Resolution) (s : S.State)
      → IsIndex F S L now s
      → get_link S now from s ≡ (ok l, s)
      → (resolve F S resolver now from connector canonical s).0 ≡ ok res
      → res.outcome ≡ matched
      → (p : Ref) × (res.peer_ref ≡ some p)
        × ((q : Ref) → any_b (λ n. listed q (found_by s n)) resolver.keys ≡ ref_eq p q)
  matched_is_unique from l res s h e r m =
      let looked : (resolve F S resolver now from connector canonical s).0
          ≡ (after_link F S resolver now connector canonical (linked_peer F S l from) s).0 =
        unfold resolve in rw e refl in
      answered (linked_peer F S l from) res s h (sym looked ∙ r) m
