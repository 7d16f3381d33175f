-- ===== src/Examples/Stores.antt =====
-- The stores' theorems at the in-memory store.
use crm_bisync.Prelude.Strings.{str_eq}
use crm_bisync.Prelude.{◌≡◌, ◌∙◌, refl, none, some, Bytes, List, [], ◌∷◌, codes, arith}
use crm_bisync.Prelude.Result.{ok}
use crm_bisync.Store.Defs.{live}
use crm_bisync.Store.Mem.{Mem}
use crm_bisync.Store.Overlay.{State, new_overlay, get, put, overlay_store}
use crm_bisync.Store.Overlay.View.{IsPlain}
use crm_bisync.Store.Overlay.DryRun.{
  Op, read, write, consume, answers, Fits, dry_run_agrees, expired_put_shows_base,
}
use crm_bisync.Store.Typed.{Document, nanos, put_link}
use crm_bisync.Store.Typed.Links.{link_of, link_of-put_link}
use crm_bisync.Prelude.Int.{pos}
use crm_bisync.Examples.Values.{
  S, L, empty, empty-IsOpen, crm_seven, desk_nine, crm_eight, seven_nine, eight_not_seven,
  eight_not_nine,
}

abbrev c : Bytes
c = codes "idem"

abbrev k : Bytes
k = codes "k"

abbrev v : Document
v = nanos (pos 5)

abbrev w : Document
w = nanos (pos 6)

plain : IsPlain c
plain = ground arith

abbrev holding : Mem Document
holding = (S.put c k v 0 empty).1

holding-IsOpen : L.IsOpen holding
holding-IsOpen = L.put-IsOpen c k v 0 empty empty-IsOpen

abbrev layered : State S
layered = new_overlay S holding

abbrev run : List (Op Document)
run = read 1 c k ∷ write c k w 0 ∷ consume 2 c k ∷ read 3 c k ∷ []

run-Fits : Fits 0 9 run
run-Fits = (
  omega arith,
  omega arith,
  plain,
  (
    unfold live in refl,
    plain,
    (omega arith, omega arith, plain, (omega arith, omega arith, plain, tt)),
  ),
)

dry_run_agrees_example :
    answers (overlay_store S) run (new_overlay S holding) ≡ answers S run holding
dry_run_agrees_example = dry_run_agrees S L 9 run holding holding-IsOpen run-Fits

found : L.view 9 c k holding ≡ some v
unfolding str_eq
found = L.view-put c k v 0 empty 9 c k empty-IsOpen ∙ (unfold live in refl)

expired_put_shows_base_example :
    ((get S 9 c k (put S c k w 3 (new_overlay S holding)).1).0 ≡ ok (some v))
    × ((S.get 9 c k (S.put c k w 3 holding).1).0 ≡ ok none)
expired_put_shows_base_example =
    expired_put_shows_base S L c k w v 3 9 holding holding-IsOpen plain found (unfold live in refl)

link_of-put_link_example :
    (link_of S L 5 crm_seven (put_link S seven_nine empty).1 ≡ ok (some seven_nine))
    × (link_of S L 5 desk_nine (put_link S seven_nine empty).1 ≡ ok (some seven_nine))
    × (link_of S L 5 crm_eight (put_link S seven_nine empty).1 ≡ link_of S L 5 crm_eight empty)
link_of-put_link_example =
    link_of-put_link S L seven_nine empty 5 crm_eight empty-IsOpen eight_not_seven eight_not_nine
