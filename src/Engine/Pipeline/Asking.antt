-- ===== src/Engine/Pipeline/Asking.antt =====
-- internal/engine/pipeline.go: `queueReview`, twice for one question.
use crm_bisync.Prelude.{ℕ, ◌≡◌, ◌∙◌, refl, ap, Option, none, some, Bytes, str_eq_refl, ◌+◌}
use crm_bisync.Prelude.Result.{ok, with_result}
use crm_bisync.Store.Defs.{IsLawful, live}
use crm_bisync.Store.Typed.{
  Document, Ref, QueueItem, queue_item, as_queue_item, get_queue_item, put_queue_item, coll_review,
}
use crm_bisync.Store.Typed.Access.{get_as_lem}
use crm_bisync.Engine.Parts.{◌>>=◌, Setting, State, Sync, Payload, reviewed}
use crm_bisync.Engine.Pipeline.{review_id, review_item, put_review, ask_once, queue_review}

module _ (E : Setting) (L : IsLawful E.store) where
  abbrev pub asked_id : Sync → Bytes → Bytes
  asked_id s subject = review_id E s.name subject

  -- The row of a question, as the store has it
  abbrev pub row_of : ℕ → Sync → Bytes → State E → Option Document
  row_of t s subject e = L.view t coll_review (asked_id s subject) e.store

  -- The state after the question has been written down
  abbrev pub written_down : Sync → Bytes → Ref → Bytes → Bytes → State E → State E
  written_down s subject r reason raw e = record e {
    store =
        (put_queue_item E.store coll_review
          (review_item E s (asked_id s subject) r reason (E.peers.time e.world) raw) e.store).1;
    stats = record e.stats { reviewed = e.stats.reviewed + 1 };
  }

  asks_first :
      (s : Sync) (subject : Bytes) (r : Ref) (reason : Bytes) (payload : Payload) (raw : Bytes)
      (e : State E)
      → L.IsOpen e.store
      → row_of (E.peers.time e.world) s subject e ≡ none
      → E.texts.encode payload ≡ ok raw
      → queue_review E s subject r reason payload e
        ≡ (ok reviewed, written_down s subject r reason raw e)
  unfolding queue_review ask_once put_review put_queue_item get_queue_item ◌>>=◌
  asks_first s subject r reason payload raw e h fresh coded =
      rw
        (
          get_as_lem E.store L as_queue_item (E.peers.time e.world) coll_review (asked_id s subject)
              e.store h,
          fresh,
          coded,
          with_result
              (E.store.put coll_review (asked_id s subject)
                (queue_item
                  (review_item E s (asked_id s subject) r reason (E.peers.time e.world) raw))
                0 e.store)
              (L.put_ok coll_review (asked_id s subject)
                (queue_item
                  (review_item E s (asked_id s subject) r reason (E.peers.time e.world) raw))
                0 e.store h),
        )
        refl

  asks_again :
      (s : Sync) (subject : Bytes) (r : Ref) (reason : Bytes) (payload : Payload) (i : QueueItem)
      (e : State E)
      → L.IsOpen e.store
      → row_of (E.peers.time e.world) s subject e ≡ some (queue_item i)
      → queue_review E s subject r reason payload e ≡ (ok reviewed, e)
  unfolding queue_review ask_once get_queue_item ◌>>=◌
  asks_again s subject r reason payload i e h there =
      rw
        (
          get_as_lem E.store L as_queue_item (E.peers.time e.world) coll_review (asked_id s subject)
              e.store h,
          there,
        )
        refl

  written-IsOpen :
      (s : Sync) (subject : Bytes) (r : Ref) (reason raw : Bytes) (e : State E)
      → L.IsOpen e.store
      → L.IsOpen (written_down s subject r reason raw e).store
  unfolding put_queue_item
  written-IsOpen s subject r reason raw e h =
      L.put-IsOpen coll_review (asked_id s subject) _ 0 e.store h

  row_written :
      (s : Sync) (subject : Bytes) (r : Ref) (reason raw : Bytes) (e : State E) (t : ℕ)
      → L.IsOpen e.store
      → row_of t s subject (written_down s subject r reason raw e)
        ≡ some
            (queue_item (review_item E s (asked_id s subject) r reason (E.peers.time e.world) raw))
  unfolding put_queue_item live
  row_written s subject r reason raw e t h =
      L.view-put coll_review (asked_id s subject) _ 0 e.store t coll_review (asked_id s subject) h
      ∙ rw (str_eq_refl coll_review, str_eq_refl (asked_id s subject)) refl

  -- A question without a row in the review queue, on an open store and with a payload that can
  -- be encoded, is written down under its identifier; asked again on the same store, whatever
  -- its record, reason and payload, it is answered as reviewed and changes nothing.
  pub asked_once :
      (s : Sync) (subject : Bytes) (r r' : Ref) (reason reason' : Bytes)
      (payload payload' : Payload) (raw : Bytes) (e later : State E)
      → L.IsOpen e.store
      → row_of (E.peers.time e.world) s subject e ≡ none
      → E.texts.encode payload ≡ ok raw
      → later.store ≡ (queue_review E s subject r reason payload e).1.store
      → ((queue_review E s subject r reason payload e).0 ≡ ok reviewed)
        × (row_of (E.peers.time later.world) s subject later
            ≡ some (
                queue_item
                  (review_item E s (asked_id s subject) r reason (E.peers.time e.world) raw)))
        × (queue_review E s subject r' reason' payload' later ≡ (ok reviewed, later))
  asked_once s subject r r' reason reason' payload payload' raw e later h fresh coded same =
      let first = asks_first s subject r reason payload raw e h fresh coded in
      let here : later.store ≡ (written_down s subject r reason raw e).store =
        same ∙ ap (λ p. p.1.store) first in
      let there : row_of (E.peers.time later.world) s subject later
          ≡ some (
              queue_item
                (review_item E s (asked_id s subject) r reason (E.peers.time e.world) raw)) =
        rw here (row_written s subject r reason raw e (E.peers.time later.world) h) in
      (
        ap (λ p. p.0) first,
        there,
        asks_again s subject r' reason' payload' _ later
            (rw here (written-IsOpen s subject r reason raw e h)) there,
      )
