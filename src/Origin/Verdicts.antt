-- ===== src/Origin/Verdicts.antt =====
-- internal/origin/origin.go: `Record` and `Classify` one by one.
use crm_bisync.Prelude.{
  ℕ, ◌+◌, ◌≤◌, ◌≡◌, ◌≢◌, ◌∙◌, refl, Option, none, some, Bytes, str_eq, str_eq_refl, str_eq_iff,
  arith, if◌then◌else◌, is_some, false,
}
use crm_bisync.Prelude.Int.{ℤ}
use crm_bisync.Prelude.Dict.{Dict}
use crm_bisync.Prelude.Result.{Result, ok, err, bind_ok, with_result, continue}
use crm_bisync.Store.Defs.{Store, IsLawful, StoreErr, decode, live}
use crm_bisync.Store.Typed.{
  Document, origin, as_origin, decoded, Ref, origin_tag, put_origin, take_origin, coll_origins,
}
use crm_bisync.Origin.{
  Verdict, foreign, echo, near_miss, Stats, Suppressor, recent_marker, window_of, note_write,
  wrote_recently, classify, classify_taken, count_foreign,
}
use crm_bisync.Origin.Tags.{str_eq-origin_tag}

-- The verdict on what the tag and the marker of a change's record hold.
abbrev pub verdict : Option Document → Option Document → Result StoreErr Verdict
verdict (some (origin _)) recent = ok echo
verdict (some _) recent = err decode
verdict none (some _) = ok near_miss
verdict none none = ok foreign

abbrev pub counted : Result StoreErr Verdict → Stats → Stats
counted (ok echo) st = record st { echoes = st.echoes + 1 }
counted (ok near_miss) st = record st { near_miss = st.near_miss + 1 }
counted (ok foreign) st = record st { foreign = st.foreign + 1 }
counted (err _) st = st

module _ (S : Store Document) (L : IsLawful S) where
  -- What the write log holds of a payload of a record.
  abbrev pub tagged : ℕ → Ref → Bytes → Suppressor S.State → Option Document
  tagged now ref hash o = L.view now coll_origins (origin_tag ref hash) o.store

  abbrev taken : ℕ → Ref → Bytes → S.State → S.State
  taken now ref hash s = (S.take now coll_origins (origin_tag ref hash) s).1

  take_origin_lem :
      (now : ℕ) (ref : Ref) (hash : Bytes) (s : S.State)
      → L.IsOpen s
      → take_origin S now ref hash s ≡ (
        decoded as_origin (L.view now coll_origins (origin_tag ref hash) s),
        taken now ref hash s,
      )
  unfolding take_origin
  take_origin_lem now ref hash s h =
      bind_ok (S.take now coll_origins (origin_tag ref hash)) _ s _
        (L.take_ok now coll_origins (origin_tag ref hash) s h)

  count_foreign_lem :
      (m : Option Document) (o : Suppressor S.State)
      → count_foreign S (is_some m) o
        ≡ (verdict none m, record o { stats = counted (verdict none m) o.stats })
  unfolding count_foreign
  count_foreign_lem none o = refl
  count_foreign_lem (some _) o = refl

  -- What follows where no tag was taken.
  untagged_lem :
      (now : ℕ) (ref : Ref) (o : Suppressor S.State)
      → L.IsOpen o.store
      → let v = verdict none (tagged now ref recent_marker o) in
        classify_taken S now ref none o ≡ (v, record o { stats = counted v o.stats })
  untagged_lem now ref o h =
      unfold classify_taken wrote_recently in
      rw (L.get_lem now coll_origins (origin_tag ref recent_marker) o.store h)
        (count_foreign_lem (tagged now ref recent_marker o) o)

  abbrev pub after_take : ℕ → Ref → Bytes → Suppressor S.State → Suppressor S.State
  after_take now ref hash o = record o { store = taken now ref hash o.store }

  -- Taking one payload's tag leaves the record's other tags.
  pub tagged-take :
      (now : ℕ) (ref : Ref) (hash : Bytes) (o : Suppressor S.State) (later : ℕ) (other : Bytes)
      → L.IsOpen o.store
      → now ≤ later
      → tagged later ref other (after_take now ref hash o)
        ≡ (if str_eq hash other then none else tagged later ref other o)
  tagged-take now ref hash o later other h le =
      rw
        (L.view-take now coll_origins (origin_tag ref hash) o.store later coll_origins
          (origin_tag ref other) h le)
        (rw (str_eq_refl coll_origins, str_eq-origin_tag ref hash other) refl)

  classify_go :
      (now : ℕ) (ref : Ref) (found : Option Document) (o : Suppressor S.State)
      → L.IsOpen o.store
      → let v = verdict found (tagged now ref recent_marker o) in
        continue (classify_taken S now ref) (decoded as_origin found, o)
        ≡ (v, record o { stats = counted v o.stats })
  classify_go now ref none o h = untagged_lem now ref o h
  classify_go now ref (some (origin x)) o h = unfold classify_taken in refl
  classify_go now ref (some _) o h = refl

  -- Classify on an open store, for a payload that is not the marker, gives the verdict of the
  -- tag and the marker, moves that verdict's counter alone, and consumes the tag.
  pub classify_lem :
      (now : ℕ) (ref : Ref) (hash : Bytes) (o : Suppressor S.State)
      → L.IsOpen o.store
      → hash ≢ recent_marker
      → let v = verdict (tagged now ref hash o) (tagged now ref recent_marker o) in
        classify S now ref hash o ≡ (
          v,
          record {
            store = (S.take now coll_origins (origin_tag ref hash) o.store).1;
            stats = counted v o.stats;
          },
        )
  classify_lem now ref hash o h d =
      unfold classify in
      rw (take_origin_lem now ref hash o.store h) (
        classify_go now ref (tagged now ref hash o) (after_take now ref hash o)
          (L.take-IsOpen now coll_origins (origin_tag ref hash) o.store h)
        ∙ rw (marker_stays) refl)
    where
      marker_stays :
          tagged now ref recent_marker (after_take now ref hash o) ≡ tagged now ref recent_marker o
      marker_stays =
          tagged-take now ref hash o now recent_marker h (omega arith)
          ∙ ground (arith, str_eq_iff hash recent_marker)

  -- The two writes of `Record`.
  abbrev payload : ℕ → Ref → Bytes → Document
  payload now ref hash = origin (record { ref = ref; hash = hash; written_at = now })

  abbrev tag_put : ℕ → ℕ → Ref → Bytes → S.State → S.State
  tag_put now expires ref hash s =
      (S.put coll_origins (origin_tag ref hash) (payload now ref hash) expires s).1

  abbrev pub noted : ℕ → ℕ → Ref → Bytes → S.State → S.State
  noted now expires ref hash s =
      tag_put now expires ref recent_marker (tag_put now expires ref hash s)

  tag_put-IsOpen :
      (now expires : ℕ) (ref : Ref) (hash : Bytes) (s : S.State)
      → L.IsOpen s
      → L.IsOpen (tag_put now expires ref hash s)
  tag_put-IsOpen now expires ref hash s h =
      L.put-IsOpen coll_origins (origin_tag ref hash) (payload now ref hash) expires s h

  put_origin_lem :
      (now expires : ℕ) (ref : Ref) (hash : Bytes) (s : S.State)
      → L.IsOpen s
      → put_origin S (record { ref = ref; hash = hash; written_at = now }) expires s
        ≡ (ok tt, tag_put now expires ref hash s)
  put_origin_lem now expires ref hash s h =
      unfold put_origin in
      with_result (S.put coll_origins (origin_tag ref hash) (payload now ref hash) expires s)
        (L.put_ok coll_origins (origin_tag ref hash) (payload now ref hash) expires s h)

  pub note_write_lem :
      (windows : Dict ℤ) (now : ℕ) (ref : Ref) (hash : Bytes) (o : Suppressor S.State)
      → L.IsOpen o.store
      → note_write S windows now ref hash o ≡ (
        ok tt,
        record {
          store = noted now (now + window_of windows ref.connector) ref hash o.store;
          stats = record o.stats { recorded = o.stats.recorded + 1 };
        },
      )
  note_write_lem windows now ref hash o h =
      let expires : ℕ = now + window_of windows ref.connector in
      unfold note_write in
      rw (put_origin_lem now expires ref hash o.store h) (
        rw
          (put_origin_lem now expires ref recent_marker (tag_put now expires ref hash o.store)
            (tag_put-IsOpen now expires ref hash o.store h))
          refl)

  pub noted-IsOpen :
      (now expires : ℕ) (ref : Ref) (hash : Bytes) (s : S.State)
      → L.IsOpen s
      → L.IsOpen (noted now expires ref hash s)
  noted-IsOpen now expires ref hash s h =
      tag_put-IsOpen now expires ref recent_marker (tag_put now expires ref hash s)
        (tag_put-IsOpen now expires ref hash s h)

  -- A record's tags after `Record`.
  pub tagged-noted :
      (now expires : ℕ) (ref : Ref) (hash : Bytes) (s : S.State) (t : ℕ) (other : Bytes)
      → L.IsOpen s
      → L.view t coll_origins (origin_tag ref other) (noted now expires ref hash s) ≡ (
          if str_eq recent_marker other
          then (if live expires t then some (payload now ref recent_marker) else none)
          else if str_eq hash other
          then (if live expires t then some (payload now ref hash) else none)
          else L.view t coll_origins (origin_tag ref other) s)
  tagged-noted now expires ref hash s t other h =
      rw
        (
          L.view-put coll_origins (origin_tag ref recent_marker) (payload now ref recent_marker)
              expires (tag_put now expires ref hash s) t coll_origins (origin_tag ref other)
              (tag_put-IsOpen now expires ref hash s h),
          L.view-put coll_origins (origin_tag ref hash) (payload now ref hash) expires s t
              coll_origins (origin_tag ref other) h,
        )
        (rw
          (
            str_eq_refl coll_origins,
            str_eq-origin_tag ref recent_marker other,
            str_eq-origin_tag ref hash other,
          )
          refl)

  -- What is stored elsewhere stays.
  pub view-noted_other :
      (now expires : ℕ) (ref : Ref) (hash : Bytes) (s : S.State) (t : ℕ) (c k : Bytes)
      → L.IsOpen s
      → str_eq coll_origins c ≡ false
      → L.view t c k (noted now expires ref hash s) ≡ L.view t c k s
  view-noted_other now expires ref hash s t c k h d =
      rw
        (
          L.view-put coll_origins (origin_tag ref recent_marker) (payload now ref recent_marker)
              expires (tag_put now expires ref hash s) t c k
              (tag_put-IsOpen now expires ref hash s h),
          L.view-put coll_origins (origin_tag ref hash) (payload now ref hash) expires s t c k h,
        )
        (rw d refl)
