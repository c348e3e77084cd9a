-- ===== src/Observability/Observer/Flushing.antt =====
-- Sending what was observed: `VoxBenchObserver.flush` of src/voxbench/observability/observer.py. The
-- transport is given by which of its calls return. Other threads may observe while batches are sent,
-- since the lock is not held then.
use voxbench.Base.{ℕ, zero, suc, ◌+◌, Bool, Option, none, some, List, [], ◌∷◌, ◌++◌, if◌then◌else◌}
use voxbench.Observability.Batches.{
  ObservationBatch, item_count, bounded_observation_batches, merge_observation_batches,
}
use voxbench.Observability.Observer.{Observer}

-- The batches that were sent, and those from the first that was not.
pub record Sent (F : Type 0) : Type 0 where
  pub delivered : List (ObservationBatch F)
  pub unsent : List (ObservationBatch F)

-- `reply` is `none` if the exception of the transport is raised again.
pub record Flushed (F : Type 0) : Type 0 where
  pub observer : Observer F
  pub delivered : List (ObservationBatch F)
  pub reply : Option ℕ

module _ {F : Type 0} where
  -- Under the lock: the batch, and the observer without it.
  unfoldable pub taken_batch : Observer F → ObservationBatch F
  taken_batch o = record {
    run_id = o.run_id;
    metrics = o.metrics;
    audio_chunks = o.audio_chunks;
    sip_events = o.sip_events;
    rtp_stats = o.rtp_stats;
    timeline_events = o.timeline_events;
  }

  unfoldable pub cleared : Observer F → Observer F
  cleared o = record o {
    metrics = [];
    audio_chunks = [];
    sip_events = [];
    rtp_stats = [];
    timeline_events = [];
  }

  -- `for index, bounded_batch in enumerate(batches)`, where `accepts index` tells whether the
  -- transport returns.
  unfoldable pub send_batches : (ℕ → Bool) → ℕ → List (ObservationBatch F) → Sent F
  send_batches accepts index [] = record { delivered = []; unsent = [] }
  send_batches accepts index (batch ∷ batches) =
      let rest = send_batches accepts (index + 1) batches in
      if accepts index
      then record { delivered = batch ∷ rest.delivered; unsent = rest.unsent }
      else record { delivered = []; unsent = batch ∷ batches }

  -- Under the lock again: what was not sent stands before what came in the meantime.
  unfoldable pub restored : ObservationBatch F → Observer F → Observer F
  restored unsent o = record o {
    metrics = unsent.metrics ++ o.metrics;
    audio_chunks = unsent.audio_chunks ++ o.audio_chunks;
    sip_events = unsent.sip_events ++ o.sip_events;
    rtp_stats = unsent.rtp_stats ++ o.rtp_stats;
    timeline_events = unsent.timeline_events ++ o.timeline_events;
  }

  unfoldable pub sent_count : List (ObservationBatch F) → ℕ
  unfolding item_count
  sent_count [] = 0
  sent_count (batch ∷ batches) = item_count batch + sent_count batches

  unfoldable pub finish_flush : Sent F → Observer F → Flushed F
  unfolding restored sent_count merge_observation_batches
  finish_flush sent o = elim sent.unsent [
    | [] ↦ record {
      observer = o;
      delivered = sent.delivered;
      reply = some (sent_count sent.delivered);
    }
    | batch ∷ batches ↦ record {
      observer = restored (merge_observation_batches o.run_id (batch ∷ batches)) o;
      delivered = sent.delivered;
      reply = none;
    }
  ]

  -- `meanwhile` is what the other threads do between the two locked sections.
  unfoldable pub flush : (ℕ → Bool) → (Observer F → Observer F) → Observer F → Flushed F
  unfolding taken_batch cleared send_batches finish_flush item_count bounded_observation_batches
  flush accepts meanwhile o = elim (item_count (taken_batch o)) [
    | zero ↦ record { observer = meanwhile (cleared o); delivered = []; reply = some 0 }
    | suc n ↦
        finish_flush (send_batches accepts 0 (bounded_observation_batches (taken_batch o)))
          (meanwhile (cleared o))
  ]
