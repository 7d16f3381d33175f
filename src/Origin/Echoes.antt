-- ===== src/Origin/Echoes.antt =====
-- internal/origin/origin.go: `Record` and `Classify` in sequence.
use crm_bisync.Prelude.{
  ℕ, zero, suc, ◌+◌, ◌≤◌, ◌<◌, ◌≡◌, ◌≢◌, ◌∙◌, refl, ap, false, Option, none, some, Bytes, is_some,
  str_eq, str_eq_refl, str_eq_iff, arith, if◌then◌else◌, ltb,
}
use crm_bisync.Prelude.Int.{ℤ, pos, negsuc}
use crm_bisync.Prelude.Dict.{Dict, lookup}
use crm_bisync.Prelude.Result.{ok}
use crm_bisync.Store.Defs.{Store, IsLawful, live}
use crm_bisync.Store.Typed.{Document, Ref, coll_origins, origin_tag}
use crm_bisync.Origin.{
  foreign, echo, near_miss, Suppressor, recent_marker, window_of, positive_or_default, note_write,
  classify,
}
use crm_bisync.Origin.Verdicts.{
  verdict, counted, tagged, tagged-take, classify_lem, noted, note_write_lem, noted-IsOpen,
  tagged-noted,
}

positive_or_default_pos : (o : Option ℤ) → 0 < positive_or_default o
positive_or_default_pos none = omega arith
positive_or_default_pos (some (pos zero)) = omega arith
positive_or_default_pos (some (pos (suc n))) = omega arith
positive_or_default_pos (some (negsuc n)) = omega arith

-- A window is never empty.
pub window_of_pos : (windows : Dict ℤ) (connector : Bytes) → 0 < window_of windows connector
unfolding window_of
window_of_pos windows connector = positive_or_default_pos (lookup connector windows)

-- An entry with a lifetime that is not empty is visible just until its end.
live_window : (now w t : ℕ) → 0 < w → live (now + w) t ≡ ltb t (now + w)
unfolding live
live_window now w t h = ground arith

module _ (S : Store Document) (L : IsLawful S) where
  -- The suppressor after `Record`.
  abbrev recorded : Dict ℤ → ℕ → Ref → Bytes → Suppressor S.State → Suppressor S.State
  recorded windows t0 ref hash o = record {
    store = noted S L t0 (t0 + window_of windows ref.connector) ref hash o.store;
    stats = record o.stats { recorded = o.stats.recorded + 1 };
  }

  verdict-none :
      (m : Option Document) → verdict none m ≡ ok (if is_some m then near_miss else foreign)
  verdict-none none = refl
  verdict-none (some _) = refl

  -- On an open store a payload that Classify has seen, other than the marker, is no echo at a
  -- later instant: the record's marker alone decides between a near miss and a foreign change.
  pub classify-classify :
      (t later : ℕ) (ref : Ref) (hash : Bytes) (o : Suppressor S.State)
      → L.IsOpen o.store
      → hash ≢ recent_marker
      → t ≤ later
      → (classify S later ref hash (classify S t ref hash o).1).0
        ≡ ok (if is_some (tagged S L later ref recent_marker o) then near_miss else foreign)
  classify-classify t later ref hash o h d le = rw (classify_lem S L t ref hash o h d) (
      ap (λ p. p.0)
        (classify_lem S L later ref hash
          (record {
            store = (S.take t coll_origins (origin_tag ref hash) o.store).1;
            stats =
                counted (verdict (tagged S L t ref hash o) (tagged S L t ref recent_marker o))
                  o.stats;
          })
          (L.take-IsOpen t coll_origins (origin_tag ref hash) o.store h) d)
      ∙ rw
          (
            tagged-take S L t ref hash o later hash h le,
            tagged-take S L t ref hash o later recent_marker h le,
            str_eq_refl hash,
            differs,
          )
          (verdict-none (tagged S L later ref recent_marker o)))
    where
      differs : str_eq hash recent_marker ≡ false
      differs = ground (arith, str_eq_iff hash recent_marker)

  -- On an open store a payload that Record wrote, other than the marker, is classified as an
  -- echo before the end of its connector's window and as foreign from then on.
  pub classify-note_write :
      (windows : Dict ℤ) (t0 t : ℕ) (ref : Ref) (hash : Bytes) (o : Suppressor S.State)
      → L.IsOpen o.store
      → hash ≢ recent_marker
      → (classify S t ref hash (note_write S windows t0 ref hash o).1).0
        ≡ ok (if ltb t (t0 + window_of windows ref.connector) then echo else foreign)
  classify-note_write windows t0 t ref hash o h d =
      let e = t0 + window_of windows ref.connector in
      rw (note_write_lem S L windows t0 ref hash o h) (
        ap (λ p. p.0)
          (classify_lem S L t ref hash (recorded windows t0 ref hash o)
            (noted-IsOpen S L t0 e ref hash o.store h) d)
        ∙ rw
            (
              tagged-noted S L t0 e ref hash o.store t hash h,
              tagged-noted S L t0 e ref hash o.store t recent_marker h,
              str_eq_refl hash,
              str_eq_refl recent_marker,
              differs,
              live_window t0 (window_of windows ref.connector) t
                  (window_of_pos windows ref.connector),
            )
            (ground arith))
    where
      differs : str_eq recent_marker hash ≡ false
      differs = ground (arith, str_eq_iff recent_marker hash, str_eq_iff hash recent_marker)
