-- ===== src/Examples/Files.antt =====
-- The file store's theorems, on an operating system that answers one write short.
use crm_bisync.Prelude.{
  ℕ, ◌+◌, ◌≡◌, refl, true, false, ◌-◌, ◌^◌, none, Bytes, [], ◌∷◌, ◌++◌, codes, arith, ◌==◌,
  if◌then◌else◌,
}
use crm_bisync.Prelude.Strings.{Without}
use crm_bisync.Prelude.Int.{pos, negsuc, to_int64}
use crm_bisync.Prelude.Utf8.{is_utf8, utf8_from}
use crm_bisync.Prelude.Result.{ok, err}
use crm_bisync.Store.Mem.{visible}
use crm_bisync.Store.File.{put_op, Os, whole, short, saved, emptied, not_written, nanos_of, newline}
use crm_bisync.Store.File.Calls.{State, append, put}
use crm_bisync.Store.File.Replay.{find}
use crm_bisync.Store.File.Durable.{IsDurable}
use crm_bisync.Store.File.Surviving.{Reopened, with_put, put_survives}
use crm_bisync.Store.File.Torn.{cut_of, short_write_loses}
use crm_bisync.Store.File.Runs.{
  empty_directory, puts, Run, stays, steps, nothing_lost, empty-IsDurable,
}
use crm_bisync.Examples.Codecs.{
  through, pair, number, bytes, list, integer, enc_all, dec_all, json, json-IsFaithful, operation,
}

-- The world counts the writes; the one at number `n` falls short after three bytes.
abbrev failing_at : ℕ → Os
failing_at n = record {
  World = ℕ;
  write = λ w. (if w == n then short 3 else whole, w + 1);
  sync = λ w. (true, w);
  save = λ w. (saved, w);
  empty_log = λ w. (emptied, w);
}

c_text : is_utf8 (codes "c") ≡ true
unfolding utf8_from is_utf8
c_text = refl

k_text : is_utf8 (codes "k") ≡ true
unfolding utf8_from is_utf8
k_text = refl

-- A continuation byte on its own, and a letter of two bytes
no_text : is_utf8 (128 ∷ []) ≡ false
unfolding utf8_from is_utf8
no_text = refl

two_bytes : is_utf8 (195 ∷ 169 ∷ []) ≡ true
unfolding utf8_from is_utf8
two_bytes = refl

-- A number of nanoseconds beyond an int64
wraps : to_int64 (pos (2 ^ 63)) ≡ negsuc (2 ^ 63 - 1)
wraps = refl

abbrev steady : Os
steady = failing_at 9

abbrev faulty : Os
faulty = failing_at 0

abbrev start : (O : Os) → O.World → State json O
start O w = empty_directory json json-IsFaithful O 0 w

abbrev torn : Bytes
torn = 21 ∷ 22 ∷ []

torn_line : Without newline torn
torn_line = ((λ e. omega arith), ((λ e. omega arith), tt))

lands :
    (append json steady (put_op (codes "c") (codes "k") 7 (nanos_of 0)) (start steady 0)).0 ≡ ok tt
unfolding append
lands = refl

put_survives_example :
    IsDurable json json-IsFaithful steady
      (put json steady (codes "c") (codes "k") 7 0 (start steady 0)).1
    × Reopened json json-IsFaithful steady
        (put json steady (codes "c") (codes "k") 7 0 (start steady 0)).1
        torn
        (with_put json json-IsFaithful steady (codes "c") (codes "k") 7 0 (start steady 0))
put_survives_example =
    put_survives json json-IsFaithful steady (codes "c") (codes "k") 7 0 (start steady 0) torn
      c_text k_text (empty-IsDurable json json-IsFaithful steady 0 0) lands torn_line

abbrev after_put : State json steady
after_put = (put json steady (codes "c") (codes "k") 7 0 (start steady 0)).1

one_put : Run json json-IsFaithful steady (start steady 0) after_put
one_put =
    steps (stays (start steady 0))
      (puts (codes "c") (codes "k") 7 0 (start steady 0) c_text k_text lands)

nothing_lost_example :
    Reopened json json-IsFaithful steady after_put torn
      (λ now c k. visible now (find c k after_put.tables))
nothing_lost_example = nothing_lost json json-IsFaithful steady 0 0 after_put torn one_put torn_line

cut_line :
    Without newline
      (cut_of json json-IsFaithful faulty (put_op (codes "c") (codes "k") 7 (nanos_of 0)) 3)
unfolding operation through pair number bytes list integer enc_all dec_all
cut_line = ((λ e. omega arith), ((λ e. omega arith), ((λ e. omega arith), tt)))

lands_after :
    (append json faulty
      (put_op (codes "c") (codes "j") 8 (nanos_of 0))
      (put json faulty (codes "c") (codes "k") 7 0 (start faulty 0)).1).0
    ≡ ok tt
unfolding append put
lands_after = refl

garbled :
    json.decode_op (
      cut_of json json-IsFaithful faulty (put_op (codes "c") (codes "k") 7 (nanos_of 0)) 3
      ++ json.encode_op (put_op (codes "c") (codes "j") 8 (nanos_of 0)))
    ≡ none
unfolding operation through pair number bytes list integer enc_all dec_all
garbled = refl

short_write_loses_example :
    ((put json faulty (codes "c") (codes "k") 7 0 (start faulty 0)).0 ≡ err not_written)
    × ((put json faulty
          (codes "c")
          (codes "j")
          8
          0
          (put json faulty (codes "c") (codes "k") 7 0 (start faulty 0)).1).0
        ≡ ok tt)
    × Reopened json json-IsFaithful faulty
        (put json faulty
          (codes "c")
          (codes "j")
          8
          0
          (put json faulty (codes "c") (codes "k") 7 0 (start faulty 0)).1).1
        []
        (λ now d j. visible now (find d j []))
short_write_loses_example =
    short_write_loses json json-IsFaithful faulty (codes "c") (codes "k") 7 0 3 (codes "c")
      (codes "j") 8 0 (start faulty 0) 1 [] (empty-IsDurable json json-IsFaithful faulty 0 0) refl
      refl cut_line lands_after garbled
