-- ===== src/Examples/Services.antt =====
-- The theorems on digests, watermarks, idempotency and origin tags, at concrete records and stores.
use crm_bisync.Prelude.Strings.{str_eq}
use crm_bisync.Store.Typed.{get_as, get_idem, watermark}
use crm_bisync.Store.Mem.{get, new_mem}
use crm_bisync.Prelude.{
  ℕ, ◌+◌, ◌≡◌, ◌≢◌, ◌≤◌, ◌⊎◌, refl, true, Option, none, Bytes, List, [], ◌∷◌, codes, arith, ltb,
  is_some, All, Any, if◌then◌else◌,
}
use crm_bisync.Prelude.Strings.{str_lt}
use crm_bisync.Prelude.Sorting.{sort_by}
use crm_bisync.Prelude.Decimal.{frames}
use crm_bisync.Prelude.Dict.{Dict, lookup}
use crm_bisync.Prelude.Result.{ok}
use crm_bisync.Store.Mem.{Mem}
use crm_bisync.Model.{Value, text, flag, chunks}
use crm_bisync.Model.Digest.{SameFields, Collide, snapshot_hash_differs}
use crm_bisync.Store.Typed.{Document, IdemResult, unix_epoch}
use crm_bisync.Watermark.Marks.{Holds, commits, commits_cover, Covered, at_mark, is_timed, Sets}
use crm_bisync.Idem.{begin, proceed, no_result}
use crm_bisync.Idem.Keys.{Write, SameWrite, hashed, write_key_injective}
use crm_bisync.Idem.Protocol.{entry_of}
use crm_bisync.Idem.Once.{Call, begins, commits as commits_call, abandons, proceeds, proceeds_once}
use crm_bisync.Origin.{
  foreign, echo, near_miss, Suppressor, recent_marker, window_of, note_write, classify,
}
use crm_bisync.Origin.Verdicts.{tagged}
use crm_bisync.Origin.Echoes.{classify-note_write, classify-classify}
use crm_bisync.Examples.Values.{
  S, L, empty, empty-IsOpen, formats, contact, crm_seven, desk_nine, differ,
}

-- Digests

abbrev ada : Dict Value
ada = (codes "email", text (codes "a@x")) ∷ (codes "vip", flag true) ∷ []

abbrev email : List Bytes
email = codes "email" ∷ []

snapshot_hash_differs_example :
    SameFields formats ada ada email
    ⊎ Collide formats
        (frames (chunks formats ada (sort_by str_lt email)))
        (frames (chunks formats ada (sort_by str_lt email)))
snapshot_hash_differs_example = snapshot_hash_differs formats ada ada email refl

-- Watermarks

abbrev crm : Bytes
crm = codes "crm"

no_mark : Holds S L crm contact none empty
unfolding watermark get_as get new_mem lookup
no_mark = λ t. refl

abbrev pages : List (ℕ × ℕ)
pages =
    (unix_epoch + 50, unix_epoch + 40)
    ∷ (unix_epoch + 60, unix_epoch + 90)
    ∷ (unix_epoch + 70, 0)
    ∷ []

pages_timed : All (λ p. is_timed p ≡ true) pages
pages_timed = (refl, (refl, (refl, tt)))

commits_cover_example :
    (end : Option ℕ) × Holds S L crm contact end (commits S crm contact pages empty)
    × (0 ≤ at_mark end)
    × Covered pages (at_mark end)
    × ((end ≡ none) ⊎ Any (Sets end) pages)
commits_cover_example =
    commits_cover S L crm contact pages none empty empty-IsOpen no_mark pages_timed

-- Idempotency

abbrev a_write : Write
a_write = record {
  sync = codes "s";
  kind = contact;
  source = crm_seven;
  target = desk_nine;
  payload_hash = codes "h";
}

write_key_injective_example :
    SameWrite a_write a_write ⊎ Collide formats (hashed a_write) (hashed a_write)
write_key_injective_example = write_key_injective formats a_write a_write refl

abbrev k : Bytes
k = codes "k"

abbrev j : Bytes
j = codes "j"

no_entry : entry_of S L 5 k empty ≡ ok none
unfolding get_idem get_as get new_mem lookup
no_entry = refl

k_not_j : k ≢ j
unfolding str_eq
k_not_j = differ k j refl

abbrev created : IdemResult
created = record { remote_id = codes "9"; created = true; in_flight = true; written_at = 0 }

abbrev calls : List Call
calls = begins 6 k ∷ commits_call 7 k created ∷ abandons j ∷ begins 8 k ∷ []

proceeds_once_example :
    ((begin S 10 5 k empty).0 ≡ ok (no_result, proceed))
    × (proceeds S 10 k calls (begin S 10 5 k empty).1 ≡ 0)
proceeds_once_example =
    proceeds_once S L 10 5 k calls empty empty-IsOpen no_entry
      (omega arith, (omega arith, (k_not_j, (omega arith, tt))))

-- Origin tags

abbrev fresh : Suppressor (Mem Document)
fresh = record {
  store = empty;
  stats = record { foreign = 0; echoes = 0; near_miss = 0; recorded = 0; swept = 0; unmatched = 0 };
}

abbrev payload : Bytes
payload = codes "h"

payload_not_marker : payload ≢ recent_marker
unfolding str_eq
payload_not_marker = differ payload recent_marker refl

classify-note_write_example :
    (classify S 9 crm_seven payload (note_write S [] 5 crm_seven payload fresh).1).0
    ≡ ok (if ltb 9 (5 + window_of [] crm) then echo else foreign)
classify-note_write_example =
    classify-note_write S L [] 5 9 crm_seven payload fresh empty-IsOpen payload_not_marker

classify-classify_example :
    (classify S 7 crm_seven payload (classify S 5 crm_seven payload fresh).1).0
    ≡ ok (if is_some (tagged S L 7 crm_seven recent_marker fresh) then near_miss else foreign)
classify-classify_example =
    classify-classify S L 5 7 crm_seven payload fresh empty-IsOpen payload_not_marker (omega arith)
