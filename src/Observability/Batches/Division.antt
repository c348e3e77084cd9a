-- ===== src/Observability/Batches/Division.antt =====
-- The batches that an observer sends: what they hold, and that nothing is lost in them.
use voxbench.Base.{
  ℕ, zero, suc, ◌+◌, ◌*◌, ◌≤◌, ◌≡◌, refl, ◌∙◌, List, ◌∷◌, ◌++◌, length, take, drop, arith, All,
  take_all, empty-of_length,
}
use voxbench.Observability.Batches.{
  ObservationBatch, item_count, share, batches_for, batch_count, candidate, append_if_any,
  candidates, bounded_observation_batches, collected, merge_observation_batches,
}
use voxbench.Observability.Batches.Slices.{length-share, share-append, batches_for_enough}

module _ {F B : Type 0} (field : ObservationBatch F → List B)
    (few : (c : ObservationBatch F) → item_count c ≡ 0 → length (field c) ≡ 0) where
  collected-append_if_any :
      (c : ObservationBatch F) (batches : List (ObservationBatch F))
      → collected field (append_if_any c batches) ≡ field c ++ collected field batches
  unfolding collected append_if_any
  collected-append_if_any c batches = split (item_count c) refl
    where
      split :
          (n : ℕ)
          → item_count c ≡ n
          → collected field (elim n [ zero ↦ batches | suc m ↦ c ∷ batches ])
            ≡ field c ++ collected field batches
      split zero e = rw (empty-of_length (field c) (few c e)) refl
      split (suc n) e = refl

  module _ (b : ObservationBatch F) (limit : ℕ) (xs : List B)
      (field-candidate : (i : ℕ) → field (candidate b i) ≡ share limit i xs) where
    collected-candidates :
        (i n : ℕ) → collected field (candidates b i n) ≡ take (n * limit) (drop (i * limit) xs)
    unfolding candidates collected
    collected-candidates i zero = let none_left : 0 * limit ≡ 0 = omega arith in rw none_left refl
    collected-candidates i (suc n) =
        collected-append_if_any (candidate b i) (candidates b (i + 1) n)
        ∙ rw (field-candidate i, collected-candidates (i + 1) n) (share-append limit i n xs)

    -- If the batches are enough for the list, they hold it all.
    collected-all :
        length xs ≤ batch_count b * limit → collected field (bounded_observation_batches b) ≡ xs
    unfolding bounded_observation_batches
    collected-all h =
        let start : 0 * limit ≡ 0 = omega arith in
        rw (collected-candidates 0 (batch_count b), start) (take_all (batch_count b * limit) xs h)

module _ {F : Type 0} (b : ObservationBatch F) where
  -- There are enough batches for every field.
  counted :
      (batches_for 500 (length b.metrics) ≤ batch_count b)
      × (batches_for 64 (length b.audio_chunks) ≤ batch_count b)
      × (batches_for 64 (length b.sip_events) ≤ batch_count b)
      × (batches_for 64 (length b.rtp_stats) ≤ batch_count b)
      × (batches_for 128 (length b.timeline_events) ≤ batch_count b)
  unfolding batch_count
  counted = (omega arith, omega arith, omega arith, omega arith, omega arith)

  pub bounded-metrics : collected (λ c. c.metrics) (bounded_observation_batches b) ≡ b.metrics
  unfolding candidate
  bounded-metrics =
      collected-all {F = F} (λ c. c.metrics) (λ c e. unfold item_count in omega arith) b 500
        b.metrics (λ i. refl) (omega (arith, batches_for_enough 499 (length b.metrics), counted.0))

  pub bounded-audio_chunks :
      collected (λ c. c.audio_chunks) (bounded_observation_batches b) ≡ b.audio_chunks
  unfolding candidate
  bounded-audio_chunks =
      collected-all {F = F} (λ c. c.audio_chunks) (λ c e. unfold item_count in omega arith) b 64
        b.audio_chunks (λ i. refl)
        (omega (arith, batches_for_enough 63 (length b.audio_chunks), counted.1))

  pub bounded-sip_events :
      collected (λ c. c.sip_events) (bounded_observation_batches b) ≡ b.sip_events
  unfolding candidate
  bounded-sip_events =
      collected-all {F = F} (λ c. c.sip_events) (λ c e. unfold item_count in omega arith) b 64
        b.sip_events (λ i. refl)
        (omega (arith, batches_for_enough 63 (length b.sip_events), counted.2))

  pub bounded-rtp_stats : collected (λ c. c.rtp_stats) (bounded_observation_batches b) ≡ b.rtp_stats
  unfolding candidate
  bounded-rtp_stats =
      collected-all {F = F} (λ c. c.rtp_stats) (λ c e. unfold item_count in omega arith) b 64
        b.rtp_stats (λ i. refl)
        (omega (arith, batches_for_enough 63 (length b.rtp_stats), counted.3))

  pub bounded-timeline_events :
      collected (λ c. c.timeline_events) (bounded_observation_batches b) ≡ b.timeline_events
  unfolding candidate
  bounded-timeline_events =
      collected-all {F = F} (λ c. c.timeline_events) (λ c e. unfold item_count in omega arith) b 128
        b.timeline_events (λ i. refl)
        (omega (arith, batches_for_enough 127 (length b.timeline_events), counted.4))

  -- A batch that is divided and merged again is the same batch: nothing is lost, doubled or moved.
  pub merge-bounded : merge_observation_batches b.run_id (bounded_observation_batches b) ≡ b
  unfolding merge_observation_batches
  merge-bounded =
      rw
        (
          bounded-metrics, bounded-audio_chunks, bounded-sip_events, bounded-rtp_stats,
          bounded-timeline_events,
        )
        refl

-- What the Control Plane accepts: some items, and no more of a kind than its limit.
abbrev pub Accepted : {F : Type 0} → ObservationBatch F → Type 0
Accepted c =
    (1 ≤ item_count c)
    × (length c.metrics ≤ 500)
    × (length c.audio_chunks ≤ 64)
    × (length c.sip_events ≤ 64)
    × (length c.rtp_stats ≤ 64)
    × (length c.timeline_events ≤ 128)

module _ {F : Type 0} (b : ObservationBatch F) where
  append_if_any-Accepted :
      (i : ℕ) (batches : List (ObservationBatch F))
      → All Accepted batches
      → All Accepted (append_if_any (candidate b i) batches)
  unfolding append_if_any candidate
  append_if_any-Accepted i batches h = split (item_count (candidate b i)) refl
    where
      split :
          (n : ℕ)
          → item_count (candidate b i) ≡ n
          → All Accepted (elim n [ zero ↦ batches | suc m ↦ candidate b i ∷ batches ])
      split zero e = h
      split (suc n) e = (
        (
          omega arith,
          length-share 500 i b.metrics,
          length-share 64 i b.audio_chunks,
          length-share 64 i b.sip_events,
          length-share 64 i b.rtp_stats,
          length-share 128 i b.timeline_events,
        ),
        h,
      )

  candidates-Accepted : (i n : ℕ) → All Accepted (candidates b i n)
  unfolding candidates
  candidates-Accepted i zero = tt
  candidates-Accepted i (suc n) =
      append_if_any-Accepted i (candidates b (i + 1) n) (candidates-Accepted (i + 1) n)

  pub bounded-Accepted : All Accepted (bounded_observation_batches b)
  unfolding bounded_observation_batches
  bounded-Accepted = candidates-Accepted 0 (batch_count b)
