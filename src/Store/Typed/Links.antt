-- ===== src/Store/Typed/Links.antt =====
-- internal/store/typed.go: the link table and the keys of refs.
use crm_bisync.Prelude.{
  ℕ, ◌≡◌, ◌≢◌, ◌∙◌, refl, ap, Option, none, some, str_eq, str_eq_refl, str_eq_iff, arith,
  if◌then◌else◌, ◌||◌,
}
use crm_bisync.Prelude.Strings.{Without, cut_at_separator}
use crm_bisync.Prelude.Result.{Result, ok}
use crm_bisync.Store.Defs.{Store, IsLawful, StoreErr}
use crm_bisync.Store.Typed.{
  Document, Ref, Link, key, peer, get_link, as_link, decoded, put_link, delete_link, coll_links,
}
use crm_bisync.Store.Typed.Access.{
  get_as_lem, both_put, put_link_lem, both_put-IsOpen, view-both_put, both_deleted, delete_link_lem,
  both_deleted-IsOpen, view-both_deleted,
}

-- Nothing before the last part of a ref's key holds the separator.
pub record IsPlainRef (r : Ref) : Type 0 where
  pub connector : Without 0 r.connector
  pub kind : Without 0 r.kind

-- Refs whose connectors and kinds hold no separator and that have one key are one ref.
pub key_injective : (r q : Ref) → IsPlainRef r → IsPlainRef q → key r ≡ key q → r ≡ q
unfolding key
key_injective r q p p' e =
    let first = cut_at_separator 0 r.connector _ q.connector _ p.connector p'.connector e in
    let second = cut_at_separator 0 r.kind _ q.kind _ p.kind p'.kind first.1 in
    λ i. record { connector = first.0 i; kind = second.0 i; remote_id = second.1 i }

module _ (S : Store Document) (L : IsLawful S) where
  -- What `get_link` finds.
  abbrev pub link_of : ℕ → Ref → S.State → Result StoreErr (Option Link)
  link_of now r s = (get_link S now r s).0

  link_of_lem :
      (now : ℕ) (r : Ref) (s : S.State)
      → L.IsOpen s
      → link_of now r s ≡ decoded as_link (L.view now coll_links (key r) s)
  unfolding get_link
  link_of_lem now r s h = ap (λ p. p.0) (get_as_lem S L as_link now coll_links (key r) s h)

  link_of-both_put :
      (l : Link) (s : S.State) (now : ℕ) (r : Ref)
      → L.IsOpen s
      → link_of now r (both_put S L l s) ≡ (
          if str_eq (key l.left) (key r) || str_eq (key l.right) (key r)
          then ok (some l)
          else link_of now r s)
  link_of-both_put l s now r h =
      rw (link_of_lem now r (both_put S L l s) (both_put-IsOpen S L l s h), link_of_lem now r s h)
        (rw (view-both_put S L l s now coll_links (key r) h)
          (rw (str_eq_refl coll_links) (ground arith)))

  -- After PutLink on an open store both refs find the link, and a ref with another key finds
  -- what it found.
  pub link_of-put_link :
      (l : Link) (s : S.State) (now : ℕ) (r : Ref)
      → L.IsOpen s
      → key r ≢ key l.left
      → key r ≢ key l.right
      → (link_of now l.left (put_link S l s).1 ≡ ok (some l))
        × (link_of now l.right (put_link S l s).1 ≡ ok (some l))
        × (link_of now r (put_link S l s).1 ≡ link_of now r s)
  link_of-put_link l s now r h d e = rw (put_link_lem S L l s h) (
    link_of-both_put l s now l.left h ∙ rw (str_eq_refl (key l.left)) refl,
    link_of-both_put l s now l.right h ∙ rw (str_eq_refl (key l.right)) (ground (arith)),
    link_of-both_put l s now r h
        ∙ ground (arith, str_eq_iff (key l.left) (key r), str_eq_iff (key l.right) (key r)),
  )

  link_of-both_deleted :
      (l : Link) (s : S.State) (now : ℕ) (r : Ref)
      → L.IsOpen s
      → link_of now r (both_deleted S L l s) ≡ (
          if str_eq (key l.left) (key r) || str_eq (key l.right) (key r)
          then ok none
          else link_of now r s)
  link_of-both_deleted l s now r h =
      rw
        (
          link_of_lem now r (both_deleted S L l s) (both_deleted-IsOpen S L l s h),
          link_of_lem now r s h,
        )
        (rw (view-both_deleted S L l s now coll_links (key r) h)
          (rw (str_eq_refl coll_links) (ground arith)))

  -- After DeleteLink on an open store neither ref finds a link, and a ref with another key finds
  -- what it found.
  pub link_of-delete_link :
      (l : Link) (s : S.State) (now : ℕ) (r : Ref)
      → L.IsOpen s
      → key r ≢ key l.left
      → key r ≢ key l.right
      → (link_of now l.left (delete_link S l s).1 ≡ ok none)
        × (link_of now l.right (delete_link S l s).1 ≡ ok none)
        × (link_of now r (delete_link S l s).1 ≡ link_of now r s)
  link_of-delete_link l s now r h d e = rw (delete_link_lem S L l s h) (
    link_of-both_deleted l s now l.left h ∙ rw (str_eq_refl (key l.left)) refl,
    link_of-both_deleted l s now l.right h ∙ rw (str_eq_refl (key l.right)) (ground arith),
    link_of-both_deleted l s now r h
        ∙ ground (arith, str_eq_iff (key l.left) (key r), str_eq_iff (key l.right) (key r)),
  )

-- The two ends of a link with different keys are each other's peers, and a ref with a third key
-- has no peer in it.
pub peer_ends :
    (l : Link) (r : Ref)
    → key l.left ≢ key l.right
    → key r ≢ key l.left
    → key r ≢ key l.right
    → (peer l l.left ≡ some l.right) × (peer l l.right ≡ some l.left) × (peer l r ≡ none)
unfolding peer
peer_ends l r d p q = (
  rw (str_eq_refl (key l.left)),
  ground (arith, str_eq_iff (key l.right) (key l.left), str_eq_refl (key l.right)),
  ground (arith, str_eq_iff (key r) (key l.left), str_eq_iff (key r) (key l.right)),
)
