-- ===== src/Observability/Batches.antt =====
-- Batches of observations and their division into batches that the Control Plane accepts:
-- `ObservationBatch`, `_bounded_observation_batches` and `_merge_observation_batches` of
-- src/voxbench/observability/observer.py.

pub mod Slices
pub mod Division
use voxbench.Base.{
  ℕ, zero, suc, ◌+◌, ◌-◌, ◌*◌, ◌/◌, max, String, Bool, true, false, List, [], ◌∷◌, ◌++◌, length,
  take, drop, if◌then◌else◌,
}
use voxbench.Observability.Records.{MetricPoint, AudioChunk, SipEvent, RtpStats, TimelineEvent}

pub record ObservationBatch (F : Type 0) : Type 0 where
  pub run_id : String
  pub metrics : List (MetricPoint F)
  pub audio_chunks : List AudioChunk
  pub sip_events : List SipEvent
  pub rtp_stats : List (RtpStats F)
  pub timeline_events : List (TimelineEvent F)

unfoldable pub item_count : {F : Type 0} → ObservationBatch F → ℕ
item_count b =
    length b.metrics
    + length b.audio_chunks
    + length b.sip_events
    + length b.rtp_stats
    + length b.timeline_events

-- `OBSERVATION_BATCH_LIMITS`
abbrev pub metrics_limit : ℕ
metrics_limit = 500

abbrev pub audio_chunks_limit : ℕ
audio_chunks_limit = 64

abbrev pub sip_events_limit : ℕ
sip_events_limit = 64

abbrev pub rtp_stats_limit : ℕ
rtp_stats_limit = 64

abbrev pub timeline_events_limit : ℕ
timeline_events_limit = 128

module _ {ℓ} {A : Type ℓ} where
  -- `items[start:stop]`
  unfoldable pub slice : ℕ → ℕ → List A → List A
  slice start stop xs = take (stop - start) (drop start xs)

  -- The share of the batch `index`: `items[index * limit : (index + 1) * limit]`.
  unfoldable pub share : ℕ → ℕ → List A → List A
  unfolding slice
  share limit index xs = slice (index * limit) ((index + 1) * limit) xs

-- How many batches `n` items take: `(n + limit - 1) // limit`.
unfoldable pub batches_for : ℕ → ℕ → ℕ
batches_for limit n = (n + limit - 1) / limit

module _ {F : Type 0} where
  unfoldable pub batch_count : ObservationBatch F → ℕ
  unfolding batches_for
  batch_count b = max 1 (
      max (batches_for metrics_limit (length b.metrics)) (
        max (batches_for audio_chunks_limit (length b.audio_chunks)) (
          max (batches_for sip_events_limit (length b.sip_events)) (
            max (batches_for rtp_stats_limit (length b.rtp_stats))
              (batches_for timeline_events_limit (length b.timeline_events))))))

  unfoldable pub candidate : ObservationBatch F → ℕ → ObservationBatch F
  unfolding share
  candidate b index = record {
    run_id = b.run_id;
    metrics = share metrics_limit index b.metrics;
    audio_chunks = share audio_chunks_limit index b.audio_chunks;
    sip_events = share sip_events_limit index b.sip_events;
    rtp_stats = share rtp_stats_limit index b.rtp_stats;
    timeline_events = share timeline_events_limit index b.timeline_events;
  }

  -- `if candidate.item_count: batches.append(candidate)`
  unfoldable pub append_if_any :
      ObservationBatch F → List (ObservationBatch F) → List (ObservationBatch F)
  unfolding item_count
  append_if_any c batches = elim (item_count c) [ zero ↦ batches | suc n ↦ c ∷ batches ]

  -- The candidates from `index` on, `count` of them.
  unfoldable pub candidates : ObservationBatch F → ℕ → ℕ → List (ObservationBatch F)
  unfolding candidate append_if_any
  candidates b index zero = []
  candidates b index (suc count) =
      append_if_any (candidate b index) (candidates b (index + 1) count)

  unfoldable pub bounded_observation_batches : ObservationBatch F → List (ObservationBatch F)
  unfolding batch_count candidates
  bounded_observation_batches b = candidates b 0 (batch_count b)

-- `tuple(item for batch in batches for item in batch.field)`
unfoldable pub collected : {A B : Type 0} → (A → List B) → List A → List B
collected field [] = []
collected field (batch ∷ batches) = field batch ++ collected field batches

unfoldable pub merge_observation_batches :
    {F : Type 0} → String → List (ObservationBatch F) → ObservationBatch F
unfolding collected
merge_observation_batches run_id batches = record {
  run_id = run_id;
  metrics = collected (λ batch. batch.metrics) batches;
  audio_chunks = collected (λ batch. batch.audio_chunks) batches;
  sip_events = collected (λ batch. batch.sip_events) batches;
  rtp_stats = collected (λ batch. batch.rtp_stats) batches;
  timeline_events = collected (λ batch. batch.timeline_events) batches;
}
