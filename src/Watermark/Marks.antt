-- ===== src/Watermark/Marks.antt =====
-- internal/watermark/watermark.go: `Advance` and series of commits.
use crm_bisync.Prelude.{
  ℕ, zero, suc, ◌≤◌, ◌≡◌, ◌≢◌, ◌∙◌, refl, ap, sym, Bool, true, false, ◌||◌, ◌⊎◌, Option, none, some,
  List, [], ◌∷◌, Bytes, All, Any, max, min, str_eq, str_eq_refl, str_eq_iff, arith, if◌then◌else◌,
  ltb, ◌==◌, inl, inr, Bool-cases,
}
use native.Mathlib.Decide.{dec_le}
use crm_bisync.Prelude.Int.{ℤ, sub_ℕ, is_int64, to_int64-is_int64, is_int64-to_int64}
use crm_bisync.Prelude.Result.{Result, ok, map_result, bind_pure}
use crm_bisync.Store.Defs.{Store, IsLawful, StoreErr, live}
use crm_bisync.Store.Typed.{
  Document, nanos, as_nanos, at_nanos, decoded, watermark, set_watermark, coll_watermarks,
  unix_nano, from_unix_nano, unix_epoch, get_as, ◌⊹◌,
}
use crm_bisync.Store.Typed.Access.{get_as_lem}
use crm_bisync.Watermark.{advance, advance_from}

-- An instant whose `UnixNano` does not wrap: the years 1678 to 2262
abbrev pub in_nanos : ℕ → Bool
in_nanos t = is_int64 (sub_ℕ t unix_epoch)

-- A mark that is stored is the mark that is read.
unix_nano_inverse : (t : ℕ) → in_nanos t ≡ true → from_unix_nano (unix_nano t) ≡ t
unfolding unix_nano from_unix_nano
unix_nano_inverse t h =
    let d : ℤ = sub_ℕ t unix_epoch in
    rw (to_int64-is_int64 d h) (rw (to_int64-is_int64 d h) (ground arith))

read_nanos :
    (t : ℕ)
    → in_nanos t ≡ true
    → map_result at_nanos (decoded as_nanos (some (nanos (unix_nano t)))) ≡ ok (some t)
read_nanos t h =
    let fits : is_int64 (unix_nano t) ≡ true =
      unfold unix_nano in is_int64-to_int64 (sub_ℕ t unix_epoch) in
    rw fits (ap (λ x. ok (some x)) (unix_nano_inverse t h))

-- What one call makes of the mark: the highest instant that was seen, but no later than now, and
-- never back.
abbrev pub advanced : ℕ → ℕ → Option ℕ → Option ℕ
advanced now zero m = m
advanced now (suc h) none = some (min (suc h) now)
advanced now (suc h) (some c) = some (max c (min (suc h) now))

abbrev pub advanced_all : List (ℕ × ℕ) → Option ℕ → Option ℕ
advanced_all [] m = m
advanced_all ((now, high) ∷ cs) m = advanced_all cs (advanced now high m)

-- The page has no time, or the mark that it calls for is one that nanoseconds can tell.
abbrev pub is_timed : ℕ × ℕ → Bool
is_timed (now, high) = high == 0 || in_nanos (min high now)

-- A series of commits, each with the clock and the highest instant of its page.
unfoldable pub commits : (S : Store Document) → Bytes → Bytes → List (ℕ × ℕ) → S.State → S.State
commits S c k [] s = s
commits S c k ((now, high) ∷ cs) s = commits S c k cs (advance S now c k high s).1

module _ (S : Store Document) (L : IsLawful S) where
  -- What a read of the mark returns.
  abbrev pub mark_of : ℕ → Bytes → Bytes → S.State → Result StoreErr (Option ℕ)
  mark_of now connector kind s = (watermark S now connector kind s).0

  watermark_lem :
      (now : ℕ) (c k : Bytes) (s : S.State)
      → L.IsOpen s
      → watermark S now c k s
        ≡ (map_result at_nanos (decoded as_nanos (L.view now coll_watermarks (c ⊹ k) s)), s)
  unfolding watermark
  watermark_lem now c k s h =
      bind_pure at_nanos (get_as S as_nanos now coll_watermarks (c ⊹ k)) s
        (get_as_lem S L as_nanos now coll_watermarks (c ⊹ k) s h)

  mark_of_lem :
      (now : ℕ) (c k : Bytes) (s : S.State)
      → L.IsOpen s
      → mark_of now c k s
        ≡ map_result at_nanos (decoded as_nanos (L.view now coll_watermarks (c ⊹ k) s))
  mark_of_lem now c k s h = ap (λ p. p.0) (watermark_lem now c k s h)

  watermark-mark_of :
      (now : ℕ) (c k : Bytes) (s : S.State)
      → L.IsOpen s
      → watermark S now c k s ≡ (mark_of now c k s, s)
  watermark-mark_of now c k s h =
      watermark_lem now c k s h ∙ ap (λ r. (r, s)) (sym (mark_of_lem now c k s h))

  set_watermark-IsOpen :
      (c k : Bytes) (t : ℕ) (s : S.State) → L.IsOpen s → L.IsOpen (set_watermark S c k t s).1
  unfolding set_watermark
  set_watermark-IsOpen c k t s h = L.put-IsOpen _ _ _ _ s h

  -- A mark that was set is read back, and no other mark has changed.
  pub mark_of-set_watermark :
      (now : ℕ) (c k : Bytes) (t : ℕ) (s : S.State) (c' k' : Bytes)
      → L.IsOpen s
      → in_nanos t ≡ true
      → mark_of now c' k' (set_watermark S c k t s).1
        ≡ (if str_eq (c ⊹ k) (c' ⊹ k') then ok (some t) else mark_of now c' k' s)
  unfolding set_watermark live
  mark_of-set_watermark now c k t s c' k' h n =
      rw
        (
          mark_of_lem now c' k' (S.put coll_watermarks (c ⊹ k) (nanos (unix_nano t)) 0 s).1
              (L.put-IsOpen coll_watermarks (c ⊹ k) (nanos (unix_nano t)) 0 s h),
          mark_of_lem now c' k' s h,
        )
        (rw
          (L.view-put coll_watermarks (c ⊹ k) (nanos (unix_nano t)) 0 s now coll_watermarks
            (c' ⊹ k') h)
          (rw (str_eq_refl coll_watermarks) (ground (arith, read_nanos t n))))

  -- Whenever it is read, the mark is `m`.
  abbrev pub Holds : Bytes → Bytes → Option ℕ → S.State → Type 0
  Holds c k m s = (t : ℕ) → mark_of t c k s ≡ ok m

  advance_from_lem :
      (now : ℕ) (c k : Bytes) (high : ℕ) (m : Option ℕ) (s : S.State)
      → L.IsOpen s
      → Holds c k m s
      → high ≢ 0
      → in_nanos (min high now) ≡ true
      → Holds c k (advanced now high m) (advance_from S c k (min high now) m s).1
  advance_from_lem now c k zero m s h e d i t = absurd (d refl)
  advance_from_lem now c k (suc n) none s h e d i t =
      unfold advance_from in
      rw (mark_of-set_watermark t c k (min (suc n) now) s c k h i) (rw (str_eq_refl (c ⊹ k)) refl)
  advance_from_lem now c k (suc n) (some cur) s h e d i t =
      elim (Bool-cases (ltb cur (min (suc n) now))) [
        | inl lt ↦
            unfold advance_from in
            rw (lt, mark_of-set_watermark t c k (min (suc n) now) s c k h i)
              (rw (str_eq_refl (c ⊹ k)) (ap (λ x. ok (some x)) (ground arith)))
        | inr ge ↦ unfold advance_from in rw ge (e t ∙ ap (λ x. ok (some x)) (ground arith))
      ]

  advance_from-IsOpen :
      (c k : Bytes) (capped : ℕ) (m : Option ℕ) (s : S.State)
      → L.IsOpen s
      → L.IsOpen (advance_from S c k capped m s).1
  unfolding advance_from
  advance_from-IsOpen c k capped none s h = set_watermark-IsOpen c k capped s h
  advance_from-IsOpen c k capped (some cur) s h = elim (Bool-cases (ltb cur capped)) [
    | inl lt ↦ rw lt (set_watermark-IsOpen c k capped s h)
    | inr ge ↦ rw ge h
  ]

  advance_from_other :
      (c k : Bytes) (capped : ℕ) (m : Option ℕ) (s : S.State) (t : ℕ) (c' k' : Bytes)
      → L.IsOpen s
      → c ⊹ k ≢ c' ⊹ k'
      → in_nanos capped ≡ true
      → mark_of t c' k' (advance_from S c k capped m s).1 ≡ mark_of t c' k' s
  unfolding advance_from
  advance_from_other c k capped none s t c' k' h d i =
      mark_of-set_watermark t c k capped s c' k' h i ∙ ground (arith, str_eq_iff (c ⊹ k) (c' ⊹ k'))
  advance_from_other c k capped (some cur) s t c' k' h d i = elim (Bool-cases (ltb cur capped)) [
    | inl lt ↦ rw lt (
        mark_of-set_watermark t c k capped s c' k' h i
        ∙ ground (arith, str_eq_iff (c ⊹ k) (c' ⊹ k')))
    | inr ge ↦ rw ge
  ]

  advance-eq :
      (now : ℕ) (c k : Bytes) (high : ℕ) (m : Option ℕ) (s : S.State)
      → L.IsOpen s
      → mark_of now c k s ≡ ok m
      → high ≢ 0
      → advance S now c k high s ≡ advance_from S c k (min high now) m s
  advance-eq now c k high m s h e d =
      let zero_test : (high == 0) ≡ false = ground arith in
      let capped : (if ltb now high then now else high) ≡ min high now = ground arith in
      unfold advance in rw (zero_test, capped) (rw (watermark-mark_of now c k s h) (rw e refl))

  pub advance-IsOpen :
      (now : ℕ) (c k : Bytes) (high : ℕ) (m : Option ℕ) (s : S.State)
      → L.IsOpen s
      → Holds c k m s
      → L.IsOpen (advance S now c k high s).1
  advance-IsOpen now c k zero m s h e = unfold advance in h
  advance-IsOpen now c k (suc n) m s h e =
      rw (advance-eq now c k (suc n) m s h (e now) (omega arith))
        (advance_from-IsOpen c k (min (suc n) now) m s h)

  advance_all :
      (now : ℕ) (c k : Bytes) (high : ℕ) (m : Option ℕ) (s : S.State)
      → L.IsOpen s
      → Holds c k m s
      → is_timed (now, high) ≡ true
      → Holds c k (advanced now high m) (advance S now c k high s).1
        × ((t : ℕ) (c' k' : Bytes)
            → c ⊹ k ≢ c' ⊹ k'
            → mark_of t c' k' (advance S now c k high s).1 ≡ mark_of t c' k' s)
  advance_all now c k zero m s h e i = unfold advance in (e, λ t c' k' d. refl)
  advance_all now c k (suc n) m s h e i =
      let here : in_nanos (min (suc n) now) ≡ true = ground arith in
      rw (advance-eq now c k (suc n) m s h (e now) (omega arith)) (
        advance_from_lem now c k (suc n) m s h e (omega arith) here,
        λ t c' k' d. advance_from_other c k (min (suc n) now) m s t c' k' h d here,
      )

  -- Advance on an open store whose mark decodes leaves the mark at the highest instant seen,
  -- capped by the clock, unless it was there already; a zero time changes nothing; and the mark
  -- of another key does not move.
  pub advance_marks :
      (now : ℕ) (c k : Bytes) (high : ℕ) (m : Option ℕ) (s : S.State) (t : ℕ) (c' k' : Bytes)
      → L.IsOpen s
      → Holds c k m s
      → is_timed (now, high) ≡ true
      → c ⊹ k ≢ c' ⊹ k'
      → Holds c k (advanced now high m) (advance S now c k high s).1
        × (mark_of t c' k' (advance S now c k high s).1 ≡ mark_of t c' k' s)
  advance_marks now c k high m s t c' k' h e i d =
      let (here, other) = advance_all now c k high m s h e i in (here, other t c' k' d)

  commits_mark :
      (c k : Bytes) (cs : List (ℕ × ℕ)) (m : Option ℕ) (s : S.State)
      → L.IsOpen s
      → Holds c k m s
      → All (λ p. is_timed p ≡ true) cs
      → Holds c k (advanced_all cs m) (commits S c k cs s)
  unfolding commits
  commits_mark c k [] m s h e i = e
  commits_mark c k ((now, high) ∷ cs) m s h e (i, is) =
      commits_mark c k cs (advanced now high m) (advance S now c k high s).1
        (advance-IsOpen now c k high m s h e) (advance_all now c k high m s h e i).0 is

-- The mark as a number: none is below every instant.
abbrev pub at_mark : Option ℕ → ℕ
at_mark none = 0
at_mark (some t) = t

-- The page of each commit, so far as the clock had got there, lies below the mark.
abbrev pub Covered : List (ℕ × ℕ) → ℕ → Type 0
Covered [] t = Unit
Covered ((now, high) ∷ cs) t = (min high now ≤ t) × Covered cs t

-- The mark is the instant of this page, capped by the clock of its commit.
abbrev pub Sets : Option ℕ → ℕ × ℕ → Type 0
Sets end (now, high) = (high ≢ 0) × (end ≡ some (min high now))

advanced_step :
    (now high : ℕ) (m : Option ℕ)
    → (at_mark m ≤ at_mark (advanced now high m)) × (min high now ≤ at_mark (advanced now high m))
advanced_step now zero m = (omega arith, omega arith)
advanced_step now (suc h) none = (omega arith, omega arith)
advanced_step now (suc h) (some c) = (omega arith, omega arith)

advanced-Sets :
    (now high : ℕ) (m : Option ℕ)
    → (advanced now high m ≡ m) ⊎ Sets (advanced now high m) (now, high)
advanced-Sets now zero m = inl refl
advanced-Sets now (suc h) none = inr ((λ e. omega arith), refl)
advanced-Sets now (suc h) (some c) = elim (dec_le (min (suc h) now) c) [
  | yes le ↦ inl (ap some (omega arith))
  | no gt ↦ inr ((λ e. omega arith), ap some (omega arith))
]

advanced_all_covers :
    (cs : List (ℕ × ℕ)) (m : Option ℕ)
    → (at_mark m ≤ at_mark (advanced_all cs m)) × Covered cs (at_mark (advanced_all cs m))
advanced_all_covers [] m = (omega arith, tt)
advanced_all_covers ((now, high) ∷ cs) m =
    let (up, cover) = advanced_all_covers cs (advanced now high m) in
    let (kept, seen) = advanced_step now high m in (omega arith, (omega arith, cover))

advanced_all-Sets :
    (cs : List (ℕ × ℕ)) (m : Option ℕ) → (advanced_all cs m ≡ m) ⊎ Any (Sets (advanced_all cs m)) cs
advanced_all-Sets [] m = inl refl
advanced_all-Sets ((now, high) ∷ cs) m = elim (advanced_all-Sets cs (advanced now high m)) [
  | inr later ↦ inr (inr later)
  | inl same ↦ elim (advanced-Sets now high m) [
    | inl kept ↦ inl (same ∙ kept)
    | inr (some_time, here) ↦ inr (inl (some_time, same ∙ here))
  ]
]

-- Over any series of commits for one peer and kind on an open store whose mark decodes, if each
-- page without a zero time is one whose instant, capped by the clock of its commit, lies where
-- nanoseconds from the Unix epoch fit an int64, then the mark does not go back, it ends at or
-- above each such capped instant, and it ends where it began or exactly at one of them.
pub commits_cover :
    (S : Store Document) (L : IsLawful S) (c k : Bytes) (cs : List (ℕ × ℕ)) (m : Option ℕ)
    (s : S.State)
    → L.IsOpen s
    → Holds S L c k m s
    → All (λ p. is_timed p ≡ true) cs
    → (end : Option ℕ) × Holds S L c k end (commits S c k cs s)
      × (at_mark m ≤ at_mark end)
      × Covered cs (at_mark end)
      × ((end ≡ m) ⊎ Any (Sets end) cs)
commits_cover S L c k cs m s h e i =
    let (up, cover) = advanced_all_covers cs m in
    (advanced_all cs m, commits_mark S L c k cs m s h e i, up, cover, advanced_all-Sets cs m)
