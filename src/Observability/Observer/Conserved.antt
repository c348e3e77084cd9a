-- ===== src/Observability/Observer/Conserved.antt =====
-- Flushes lose, double and move nothing: for `VoxBenchObserver` of
-- src/voxbench/observability/observer.py.
use voxbench.Base.{
  ℕ, zero, suc, ◌+◌, ◌≡◌, refl, sym, ap, ◌∙◌, inl, inr, String, Bool, some, List, [], ◌∷◌, ◌++◌,
  append_assoc, append-nil, empty-of_length, arith, Bool-cases,
}
use voxbench.Observability.Batches.{
  ObservationBatch, item_count, bounded_observation_batches, collected, merge_observation_batches,
}
use voxbench.Observability.Batches.Division.{merge-bounded}
use voxbench.Observability.Levels.{Floats}
use voxbench.Observability.Observer.{Observer}
use voxbench.Observability.Observer.Flushing.{
  Sent, Flushed, taken_batch, cleared, send_batches, restored, finish_flush, flush,
}
use voxbench.Observability.Observer.Observations.{
  Observation, Occurrence, observed, flushed, observe, observe_all, run_history, observations,
}
use voxbench.Observability.Observer.Restoring.{observe_all-restored}

collected-append :
    {A B : Type 0} (field : A → List B) (xs ys : List A)
    → collected field (xs ++ ys) ≡ collected field xs ++ collected field ys
unfolding collected
collected-append field [] ys = refl
collected-append field (x ∷ xs) ys =
    rw (collected-append field xs ys)
      (sym (append_assoc (field x) (collected field xs) (collected field ys)))

module _ {F : Type 0} where
  -- Putting batches back, one by one or at once.
  restored-append :
      (r : String) (xs ys : List (ObservationBatch F)) (o : Observer F)
      → restored (merge_observation_batches r xs) (restored (merge_observation_batches r ys) o)
        ≡ restored (merge_observation_batches r (xs ++ ys)) o
  unfolding restored merge_observation_batches
  restored-append r xs ys o = simp (collected-append, append_assoc) refl

  restored-nil : (r : String) (o : Observer F) → restored (merge_observation_batches r []) o ≡ o
  unfolding restored merge_observation_batches collected
  restored-nil r o = refl

  restored-cleared : (o : Observer F) → restored (taken_batch o) (cleared o) ≡ o
  unfolding restored taken_batch cleared
  restored-cleared o = simp append-nil refl

  restored-empty : (b : ObservationBatch F) (o : Observer F) → item_count b ≡ 0 → restored b o ≡ o
  unfolding restored item_count
  restored-empty b o e =
      simp
        (
          empty-of_length b.metrics (omega arith),
          empty-of_length b.audio_chunks (omega arith),
          empty-of_length b.sip_events (omega arith),
          empty-of_length b.rtp_stats (omega arith),
          empty-of_length b.timeline_events (omega arith),
        )
        refl

  -- The batches that were sent and those that were not are the ones there were.
  pub send_batches-append :
      (accepts : ℕ → Bool) (index : ℕ) (batches : List (ObservationBatch F))
      → (send_batches accepts index batches).delivered
          ++ (send_batches accepts index batches).unsent
        ≡ batches
  unfolding send_batches
  send_batches-append accepts index [] = refl
  send_batches-append accepts index (batch ∷ batches) = elim (Bool-cases (accepts index)) [
    | inl y ↦ rw (y, send_batches-append accepts (index + 1) batches) refl
    | inr n ↦ rw n refl
  ]

  finish-restored :
      (r : String) (delivered unsent : List (ObservationBatch F)) (o : Observer F)
      → let done = finish_flush (record { delivered = delivered; unsent = unsent }) o in
        restored (merge_observation_batches r done.delivered) done.observer
        ≡ restored (merge_observation_batches r (delivered ++ unsent)) o
  unfolding finish_flush
  finish-restored r delivered [] o = rw (append-nil delivered) refl
  finish-restored r delivered (b ∷ bs) o = restored-append r delivered (b ∷ bs) o

  module _ (meanwhile : Observer F → Observer F)
      (commutes : (m : ObservationBatch F) (o : Observer F)
        → meanwhile (restored m o) ≡ restored m (meanwhile o)) where
    taken-restored :
        (o : Observer F) → restored (taken_batch o) (meanwhile (cleared o)) ≡ meanwhile o
    taken-restored o =
        sym (commutes (taken_batch o) (cleared o)) ∙ ap meanwhile (restored-cleared o)

    -- What a flush delivered, put back in front of what it left, is what there would be without it.
    flush-restored :
        (r : String) (accepts : ℕ → Bool) (o : Observer F)
        → restored
            (merge_observation_batches r (flush accepts meanwhile o).delivered)
            (flush accepts meanwhile o).observer
          ≡ meanwhile o
    unfolding flush
    flush-restored r accepts o = split (item_count (taken_batch o)) refl
      where
        batches : List (ObservationBatch F)
        batches = bounded_observation_batches (taken_batch o)

        sent : Sent F
        sent = send_batches accepts 0 batches

        whole : restored (merge_observation_batches r batches) (meanwhile (cleared o)) ≡ meanwhile o
        whole =
            ap (λ b. restored b (meanwhile (cleared o))) (merge-bounded (taken_batch o))
            ∙ taken-restored o

        split :
            (n : ℕ)
            → item_count (taken_batch o) ≡ n
            → let done : Flushed F = elim n [
              | zero ↦ record { observer = meanwhile (cleared o); delivered = []; reply = some 0 }
              | suc k ↦ finish_flush sent (meanwhile (cleared o))
            ] in
              restored (merge_observation_batches r done.delivered) done.observer ≡ meanwhile o
        split zero e =
            sym (restored-empty (taken_batch o) (meanwhile (cleared o)) e) ∙ taken-restored o
        split (suc n) e =
            finish-restored r sent.delivered sent.unsent (meanwhile (cleared o))
            ∙ rw (send_batches-append accepts 0 batches) whole

module _ {F : Type 0} (floats : Floats F) where
  observe_all-append :
      (xs ys : List (Observation F)) (o : Observer F)
      → observe_all floats (xs ++ ys) o ≡ observe_all floats ys (observe_all floats xs o)
  unfolding observe_all
  observe_all-append [] ys o = refl
  observe_all-append (x ∷ xs) ys o = observe_all-append xs ys (observe floats x o)

  -- Over any history of observations and flushes, with other threads observing while a flush sends
  -- and with any calls of the transport failing, what was delivered put in front of what the
  -- observer still holds is, for each kind of item and in order, what an observer would hold that
  -- made the same observations and was never flushed; the rest of the state is the same too.
  pub run_history-conserved :
      (history : List (Occurrence F)) (o : Observer F) (r : String)
      → restored
          (merge_observation_batches r (run_history floats history o).1)
          (run_history floats history o).0
        ≡ observe_all floats (observations history) o
  unfolding run_history observations
  run_history-conserved [] o r = restored-nil r o
  run_history-conserved (observed x ∷ history) o r =
      run_history-conserved history (observe floats x o) r
  run_history-conserved (flushed accepts meanwhile ∷ history) o r =
      let d = flush accepts (observe_all floats meanwhile) o in
      let m = merge_observation_batches r d.delivered in
      sym (
        restored-append r d.delivered (run_history floats history d.observer).1
          (run_history floats history d.observer).0)
      ∙ ap (restored m) (run_history-conserved history d.observer r)
      ∙ sym (observe_all-restored floats m (observations history) d.observer)
      ∙ ap (observe_all floats (observations history)) (
          flush-restored (observe_all floats meanwhile)
            (λ b o'. observe_all-restored floats b meanwhile o') r accepts o)
      ∙ sym (observe_all-append meanwhile (observations history) o)
