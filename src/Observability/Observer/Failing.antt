-- ===== src/Observability/Observer/Failing.antt =====
-- What a flush leaves whose transport fails: for `VoxBenchObserver.flush` of
-- src/voxbench/observability/observer.py.
use voxbench.Base.{
  ℕ, zero, suc, ◌+◌, ◌≡◌, refl, ap, ◌∙◌, Bool, true, false, none, some, List, [], ◌∷◌, ◌++◌, ◌<◌,
  ◌≤◌, subst, take, drop, length, arith, All,
}
use voxbench.Observability.Batches.{
  ObservationBatch, item_count, bounded_observation_batches, collected, merge_observation_batches,
}
use voxbench.Observability.Batches.Division.{Accepted, bounded-Accepted}
use voxbench.Observability.Observer.{Observer, pending_count}
use voxbench.Observability.Observer.Flushing.{
  Flushed, taken_batch, cleared, send_batches, restored, sent_count, finish_flush, flush,
}
use voxbench.Observability.Observer.Delivered.{bounded-count}

drop-nonempty :
    {A : Type 0} (k : ℕ) (xs : List A)
    → k < length xs
    → (y : A) × (ys : List A) × (drop k xs ≡ y ∷ ys)
drop-nonempty k [] l = absurd (omega arith)
drop-nonempty zero (x ∷ xs) l = (x, xs, refl)
drop-nonempty (suc k) (x ∷ xs) l = drop-nonempty k xs (omega arith)

module _ {F : Type 0} where
  send_batches-stops :
      (accepts : ℕ → Bool) (index k : ℕ) (batches : List (ObservationBatch F))
      → k < length batches
      → ((i : ℕ) → i < k → accepts (index + i) ≡ true)
      → accepts (index + k) ≡ false
      → send_batches accepts index batches
        ≡ record { delivered = take k batches; unsent = drop k batches }
  unfolding send_batches
  send_batches-stops accepts index k [] l h f = absurd (omega arith)
  send_batches-stops accepts index zero (b ∷ bs) l h f =
      let here : accepts index ≡ false = subst (λ i. accepts i ≡ false) (omega arith) f in
      rw here refl
  send_batches-stops accepts index (suc k) (b ∷ bs) l h f =
      let here : accepts index ≡ true =
        subst (λ i. accepts i ≡ true) (omega arith) (h 0 (omega arith)) in
      rw
        (
          here,
          send_batches-stops accepts (index + 1) k bs (omega arith)
              (λ i m. subst (λ j. accepts j ≡ true) (omega arith) (h (i + 1) (omega arith)))
              (subst (λ j. accepts j ≡ false) (omega arith) f),
        )
        refl

  counted :
      (batches : List (ObservationBatch F))
      → All Accepted batches
      → 1 ≤ length batches
      → 1 ≤ sent_count batches
  unfolding sent_count
  counted [] h l = absurd (omega arith)
  counted (b ∷ bs) h l = omega (arith, h.0.0)

  finish-fails :
      (delivered unsent : List (ObservationBatch F)) (o : Observer F)
      → (b : ObservationBatch F) × (bs : List (ObservationBatch F)) × (unsent ≡ b ∷ bs)
      → finish_flush (record { delivered = delivered; unsent = unsent }) o ≡ record {
        observer = restored (merge_observation_batches o.run_id unsent) o;
        delivered = delivered;
        reply = none;
      }
  unfolding finish_flush
  finish-fails delivered unsent o (b, bs, e) = rw e refl

  -- If the call for the batch k is the first that does not return, the batches before it are
  -- delivered, the exception is raised again, and in each of the five lists the items of that
  -- batch and all after it stand, in order, in front of what the other threads left in the
  -- observer without pending items.
  pub flush-fails :
      (accepts : ℕ → Bool) (meanwhile : Observer F → Observer F) (o : Observer F) (k : ℕ)
      → k < length (bounded_observation_batches (taken_batch o))
      → ((i : ℕ) → i < k → accepts i ≡ true)
      → accepts k ≡ false
      → let batches = bounded_observation_batches (taken_batch o) in
        let unsent = drop k batches in
        let left = meanwhile (record o {
          metrics = [];
          audio_chunks = [];
          sip_events = [];
          rtp_stats = [];
          timeline_events = [];
        }) in
        flush accepts meanwhile o ≡ record {
          observer = record left {
            metrics = collected (λ b. b.metrics) unsent ++ left.metrics;
            audio_chunks = collected (λ b. b.audio_chunks) unsent ++ left.audio_chunks;
            sip_events = collected (λ b. b.sip_events) unsent ++ left.sip_events;
            rtp_stats = collected (λ b. b.rtp_stats) unsent ++ left.rtp_stats;
            timeline_events = collected (λ b. b.timeline_events) unsent ++ left.timeline_events;
          };
          delivered = take k batches;
          reply = none;
        }
  unfolding flush cleared restored merge_observation_batches
  flush-fails accepts meanwhile o k l h f = split (item_count (taken_batch o)) refl
    where
      batches : List (ObservationBatch F)
      batches = bounded_observation_batches (taken_batch o)

      some_items : 1 ≤ item_count (taken_batch o)
      some_items =
          unfold item_count taken_batch pending_count in
          omega (
            arith,
            bounded-count o,
            counted batches (bounded-Accepted (taken_batch o)) (omega arith),
          )

      stopped : Flushed F
      stopped = record {
        observer =
            restored (merge_observation_batches (meanwhile (cleared o)).run_id (drop k batches))
              (meanwhile (cleared o));
        delivered = take k batches;
        reply = none;
      }

      split :
          (n : ℕ)
          → item_count (taken_batch o) ≡ n
          → elim n [
            | zero ↦ record { observer = meanwhile (cleared o); delivered = []; reply = some 0 }
            | suc k ↦ finish_flush (send_batches accepts 0 batches) (meanwhile (cleared o))
          ]
            ≡ stopped
      split zero e = absurd (omega (arith, some_items))
      split (suc n) e =
          ap (λ sent. finish_flush sent (meanwhile (cleared o)))
            (send_batches-stops accepts 0 k batches l
              (λ i m. subst (λ j. accepts j ≡ true) (omega arith) (h i m))
              (subst (λ j. accepts j ≡ false) (omega arith) f))
          ∙ finish-fails (take k batches) (drop k batches) (meanwhile (cleared o))
              (drop-nonempty k batches l)
