-- ===== src/Store/Typed/Access.antt =====
-- internal/store/typed.go: the accessors over a lawful store that is open.
use crm_bisync.Prelude.{ℕ, ◌≡◌, ◌∙◌, none, some, Bytes, str_eq, arith, if◌then◌else◌, ◌&&◌, ◌||◌}
use crm_bisync.Prelude.Result.{Result, ok, bind_ok, with_result}
use crm_bisync.Store.Defs.{Store, IsLawful, StoreErr, live}
use crm_bisync.Store.Typed.{
  Document, Link, link, key, get_as, decoded, put_link, delete_link, coll_links,
}

module _ (S : Store Document) (L : IsLawful S) where
  pub get_as_lem :
      {A : Type 0} (read : Document → Result StoreErr A) (now : ℕ) (c k : Bytes) (s : S.State)
      → L.IsOpen s
      → get_as S read now c k s ≡ (decoded read (L.view now c k s), s)
  unfolding get_as
  get_as_lem read now c k s h = rw (L.get_lem now c k s h)

  -- The state between the two writes of a link, and the one after them.
  abbrev left_put : Link → S.State → S.State
  left_put l s = (S.put coll_links (key l.left) (link l) 0 s).1

  abbrev pub both_put : Link → S.State → S.State
  both_put l s = (S.put coll_links (key l.right) (link l) 0 (left_put l s)).1

  pub put_link_lem : (l : Link) (s : S.State) → L.IsOpen s → put_link S l s ≡ (ok tt, both_put l s)
  unfolding put_link
  put_link_lem l s h =
      bind_ok (S.put coll_links (key l.left) (link l) 0) _ s tt (L.put_ok _ _ _ _ s h)
      ∙ with_result _ (L.put_ok _ _ _ _ (left_put l s) (L.put-IsOpen _ _ _ _ s h))

  pub both_put-IsOpen : (l : Link) (s : S.State) → L.IsOpen s → L.IsOpen (both_put l s)
  both_put-IsOpen l s h = L.put-IsOpen _ _ _ _ (left_put l s) (L.put-IsOpen _ _ _ _ s h)

  -- Under both of its refs, and nowhere else.
  pub view-both_put :
      (l : Link) (s : S.State) (now : ℕ) (c k : Bytes)
      → L.IsOpen s
      → L.view now c k (both_put l s) ≡ (
          if str_eq coll_links c && (str_eq (key l.left) k || str_eq (key l.right) k)
          then some (link l)
          else L.view now c k s)
  unfolding live
  view-both_put l s now c k h =
      rw
        (
          L.view-put coll_links (key l.right) (link l) 0 (left_put l s) now c k
              (L.put-IsOpen _ _ _ _ s h),
          L.view-put coll_links (key l.left) (link l) 0 s now c k h,
        )
        (ground arith)

  abbrev left_deleted : Link → S.State → S.State
  left_deleted l s = (S.delete coll_links (key l.left) s).1

  abbrev pub both_deleted : Link → S.State → S.State
  both_deleted l s = (S.delete coll_links (key l.right) (left_deleted l s)).1

  pub delete_link_lem :
      (l : Link) (s : S.State) → L.IsOpen s → delete_link S l s ≡ (ok tt, both_deleted l s)
  unfolding delete_link
  delete_link_lem l s h =
      bind_ok (S.delete coll_links (key l.left)) _ s tt (L.delete_ok _ _ s h)
      ∙ with_result _ (L.delete_ok _ _ (left_deleted l s) (L.delete-IsOpen _ _ s h))

  pub both_deleted-IsOpen : (l : Link) (s : S.State) → L.IsOpen s → L.IsOpen (both_deleted l s)
  both_deleted-IsOpen l s h = L.delete-IsOpen _ _ (left_deleted l s) (L.delete-IsOpen _ _ s h)

  pub view-both_deleted :
      (l : Link) (s : S.State) (now : ℕ) (c k : Bytes)
      → L.IsOpen s
      → L.view now c k (both_deleted l s) ≡ (
          if str_eq coll_links c && (str_eq (key l.left) k || str_eq (key l.right) k)
          then none
          else L.view now c k s)
  view-both_deleted l s now c k h =
      rw
        (
          L.view-delete coll_links (key l.right) (left_deleted l s) now c k
              (L.delete-IsOpen _ _ s h),
          L.view-delete coll_links (key l.left) s now c k h,
        )
        (ground arith)
