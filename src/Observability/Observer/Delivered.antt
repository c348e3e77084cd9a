-- ===== src/Observability/Observer/Delivered.antt =====
-- What a flush delivers, what it answers, and what a transport that fails leaves: for
-- `VoxBenchObserver.flush` of src/voxbench/observability/observer.py.
use voxbench.Base.{
  ℕ, zero, suc, ◌+◌, ◌≡◌, refl, sym, ap, ◌∙◌, inl, inr, String, Bool, true, some, List, [], ◌∷◌,
  subst, length-append, arith, All, All-append, Bool-cases,
}
use voxbench.Observability.Batches.{
  ObservationBatch, item_count, bounded_observation_batches, collected, merge_observation_batches,
}
use voxbench.Observability.Batches.Division.{merge-bounded, Accepted, bounded-Accepted}
use voxbench.Observability.Levels.{Floats}
use voxbench.Observability.Observer.{Observer, pending_count}
use voxbench.Observability.Observer.Flushing.{
  Sent, Flushed, taken_batch, cleared, send_batches, sent_count, finish_flush, flush,
}
use voxbench.Observability.Observer.Observations.{
  Occurrence, observed, flushed, observe, observe_all, run_history,
}

module _ {F : Type 0} where
  send_batches-Accepted :
      (accepts : ℕ → Bool) (index : ℕ) (batches : List (ObservationBatch F))
      → All Accepted batches
      → All Accepted (send_batches accepts index batches).delivered
  unfolding send_batches
  send_batches-Accepted accepts index [] h = tt
  send_batches-Accepted accepts index (batch ∷ batches) h = elim (Bool-cases (accepts index)) [
    | inl y ↦ rw y (h.0, send_batches-Accepted accepts (index + 1) batches h.1)
    | inr n ↦ rw n tt
  ]

  finish-delivered :
      (delivered unsent : List (ObservationBatch F)) (o : Observer F)
      → (finish_flush (record { delivered = delivered; unsent = unsent }) o).delivered ≡ delivered
  unfolding finish_flush
  finish-delivered delivered [] o = refl
  finish-delivered delivered (b ∷ bs) o = refl

  flush-Accepted :
      (accepts : ℕ → Bool) (meanwhile : Observer F → Observer F) (o : Observer F)
      → All Accepted (flush accepts meanwhile o).delivered
  unfolding flush
  flush-Accepted accepts meanwhile o = split (item_count (taken_batch o))
    where
      sent : Sent F
      sent = send_batches accepts 0 (bounded_observation_batches (taken_batch o))

      split :
          (n : ℕ)
          → let done : Flushed F = elim n [
            | zero ↦ record { observer = meanwhile (cleared o); delivered = []; reply = some 0 }
            | suc k ↦ finish_flush sent (meanwhile (cleared o))
          ] in
            All Accepted done.delivered
      split zero = tt
      split (suc n) = rw (finish-delivered sent.delivered sent.unsent (meanwhile (cleared o))) (
          send_batches-Accepted accepts 0 (bounded_observation_batches (taken_batch o))
            (bounded-Accepted (taken_batch o)))

  -- A transport that accepts everything.
  send_batches-all :
      (accepts : ℕ → Bool) (index : ℕ) (batches : List (ObservationBatch F))
      → ((i : ℕ) → accepts i ≡ true)
      → send_batches accepts index batches ≡ record { delivered = batches; unsent = [] }
  unfolding send_batches
  send_batches-all accepts index [] h = refl
  send_batches-all accepts index (batch ∷ batches) h =
      rw (h index, send_batches-all accepts (index + 1) batches h) refl

  sent_count-merge :
      (r : String) (batches : List (ObservationBatch F))
      → sent_count batches ≡ item_count (merge_observation_batches r batches)
  unfolding sent_count item_count merge_observation_batches collected
  sent_count-merge r [] = refl
  sent_count-merge r (b ∷ bs) = omega (
    arith,
    sent_count-merge r bs,
    length-append b.metrics (collected (λ c. c.metrics) bs),
    length-append b.audio_chunks (collected (λ c. c.audio_chunks) bs),
    length-append b.sip_events (collected (λ c. c.sip_events) bs),
    length-append b.rtp_stats (collected (λ c. c.rtp_stats) bs),
    length-append b.timeline_events (collected (λ c. c.timeline_events) bs),
  )

  pub bounded-count :
      (o : Observer F) → sent_count (bounded_observation_batches (taken_batch o)) ≡ pending_count o
  unfolding pending_count item_count taken_batch
  bounded-count o =
      sent_count-merge o.run_id (bounded_observation_batches (taken_batch o))
      ∙ ap item_count (merge-bounded (taken_batch o))

  -- If every call of the transport returns, a flush answers with the number of items that were
  -- pending, and the observer then is what the other threads make of the observer that has no
  -- pending items and is otherwise the same.
  pub flush-succeeds :
      (accepts : ℕ → Bool) (meanwhile : Observer F → Observer F) (o : Observer F)
      → ((i : ℕ) → accepts i ≡ true)
      → ((flush accepts meanwhile o).reply ≡ some (pending_count o))
        × ((flush accepts meanwhile o).observer
            ≡ meanwhile (record o {
              metrics = [];
              audio_chunks = [];
              sip_events = [];
              rtp_stats = [];
              timeline_events = [];
            }))
  unfolding flush cleared
  flush-succeeds accepts meanwhile o h = split (item_count (taken_batch o)) refl
    where
      batches : List (ObservationBatch F)
      batches = bounded_observation_batches (taken_batch o)

      split :
          (n : ℕ)
          → item_count (taken_batch o) ≡ n
          → let done : Flushed F = elim n [
            | zero ↦ record { observer = meanwhile (cleared o); delivered = []; reply = some 0 }
            | suc k ↦ finish_flush (send_batches accepts 0 batches) (meanwhile (cleared o))
          ] in
            (done.reply ≡ some (pending_count o)) × (done.observer ≡ meanwhile (cleared o))
      split zero e = (
        ap (λ (n : ℕ). some n) (unfold pending_count item_count taken_batch in omega arith),
        refl,
      )
      split (suc n) e =
          unfold finish_flush in
          subst
            (λ sent.
              ((finish_flush sent (meanwhile (cleared o))).reply ≡ some (pending_count o))
              × ((finish_flush sent (meanwhile (cleared o))).observer ≡ meanwhile (cleared o)))
            (sym (send_batches-all accepts 0 batches h))
            (ap (λ (n : ℕ). some n) (bounded-count o), refl)

module _ {F : Type 0} (floats : Floats F) where
  -- Every batch that a history of observations and flushes delivers has some item, and at most 500
  -- metrics, 64 audio chunks, 64 SIP events, 64 RTP statistics and 128 timeline events.
  pub run_history-Accepted :
      (history : List (Occurrence F)) (o : Observer F)
      → All Accepted (run_history floats history o).1
  unfolding run_history
  run_history-Accepted [] o = tt
  run_history-Accepted (observed x ∷ history) o = run_history-Accepted history (observe floats x o)
  run_history-Accepted (flushed accepts meanwhile ∷ history) o =
      let d = flush accepts (observe_all floats meanwhile) o in
      All-append Accepted d.delivered (run_history floats history d.observer).1
        (flush-Accepted accepts (observe_all floats meanwhile) o)
        (run_history-Accepted history d.observer)
