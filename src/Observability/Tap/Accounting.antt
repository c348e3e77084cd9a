-- ===== src/Observability/Tap/Accounting.antt =====
-- What the reports of an adapter add up to: for `RtpPacketTapAdapter` of
-- src/voxbench/observability/observer.py.
use voxbench.Base.{
  ℕ, zero, suc, ◌≡◌, ◌<◌, refl, sym, ap, ◌∙◌, subst, Bool, true, false, List, [], ◌∷◌, ◌==◌, All,
  arith, if◌then◌else◌, Bool-cases, inl, inr,
}
use voxbench.Observability.Records.{
  Continuity, verified, compromised, not_independently_verified, returned,
}
use voxbench.Observability.Levels.{Floats}
use voxbench.Observability.Rtp.{expected_continuity, same_continuity, new_snapshot}
use voxbench.Observability.Rtp.Headers.{StreamIsValid, decodes, decode-octets, decode-raises}
use voxbench.Observability.Observer.{Observer}
use voxbench.Observability.Tap.{
  Tap, tap_continuity, tap_snapshot, window_snapshot, observe_decoded, observe_datagram,
  record_capture_drop, report_snapshot, report_health,
}
use voxbench.Observability.Tap.History.{
  TapEvent, datagram_seen, packets_dropped, health_reported, Totals, add_totals, event_totals,
  window_totals, no_totals, OctetsOf, tap_event, tap_history, history_totals,
}

same_totals :
    (a b : Totals)
    → a.packets ≡ b.packets
    → a.drops ≡ b.drops
    → a.errors ≡ b.errors
    → a.reports ≡ b.reports
    → a ≡ b
same_totals a b p d e r = cc

add_totals_assoc : (a b c : Totals) → add_totals (add_totals a b) c ≡ add_totals a (add_totals b c)
add_totals_assoc a b c = same_totals _ _ (omega arith) (omega arith) (omega arith) (omega arith)

same_continuity_refl : (c : Continuity) → same_continuity c c ≡ true
unfolding same_continuity
same_continuity_refl verified = refl
same_continuity_refl compromised = refl
same_continuity_refl not_independently_verified = refl

module _ {F : Type 0} (floats : Floats F) where
  tap_continuity-expected :
      (tap : Tap F)
      → tap_continuity floats tap
        ≡ expected_continuity tap.capture_drop_count tap.decode_error_count
            tap.capture_drop_counter_supported
  unfolding tap_continuity expected_continuity
  tap_continuity-expected tap =
      split tap.capture_drop_count tap.decode_error_count tap.capture_drop_counter_supported
    where
      split :
          (drops errors : ℕ) (supported : Bool)
          → elim drops [
            | suc n ↦ compromised
            | zero ↦ elim errors [
              | suc n ↦ compromised
              | zero ↦ if supported then verified else not_independently_verified
            ]
          ]
            ≡ expected_continuity drops errors supported
      split zero zero true = refl
      split zero zero false = refl
      split zero (suc errors) supported = refl
      split (suc drops) errors supported = refl

  -- The snapshot of an adapter for a valid stream is never refused: it says what was counted.
  pub tap_snapshot-returned :
      (ts : ℕ) (tap : Tap F)
      → StreamIsValid floats tap.stream
      → tap_snapshot floats ts tap ≡ returned (window_snapshot floats ts tap)
  unfolding tap_snapshot new_snapshot window_snapshot
  tap_snapshot-returned ts tap valid =
      let agree = same_continuity_refl (
        expected_continuity tap.capture_drop_count tap.decode_error_count
          tap.capture_drop_counter_supported) in
      rw (valid.0, valid.2, tap_continuity-expected tap, agree, valid.3) refl

  decoded-totals :
      (datagram : List ℕ) (ts : ℕ) (tap : Tap F) (o : Observer F)
      → StreamIsValid floats tap.stream
      → All (λ octet. octet < 256) datagram
      → let tap' = (observe_datagram floats datagram ts tap o).0 in
        (tap'.stream ≡ tap.stream)
        × (add_totals no_totals (window_totals tap')
            ≡ add_totals (window_totals tap) (event_totals (datagram_seen datagram ts)))
  unfolding observe_datagram observe_decoded
  decoded-totals datagram ts tap o valid octets = elim (Bool-cases (decodes datagram)) [
    | inl y ↦
        rw (decode-octets floats tap.stream valid ts datagram octets y, y)
          (refl, same_totals _ _ (omega arith) (omega arith) (omega arith) (omega arith))
    | inr n ↦
        let (error, e) = decode-raises floats tap.stream valid ts datagram n in
        rw (e, n) (refl, same_totals _ _ (omega arith) (omega arith) (omega arith) (omega arith))
  ]

  event-totals :
      (event : TapEvent) (tap : Tap F) (o : Observer F)
      → StreamIsValid floats tap.stream
      → OctetsOf event
      → let done = tap_event floats event tap o in
        (done.0.stream ≡ tap.stream)
        × (add_totals done.2 (window_totals done.0)
            ≡ add_totals (window_totals tap) (event_totals event))
  unfolding tap_event
  event-totals (datagram_seen datagram ts) tap o valid octets =
      decoded-totals datagram ts tap o valid octets
  event-totals (packets_dropped count) tap o valid octets =
      unfold record_capture_drop in
      elim (Bool-cases (count == 0)) [
        | inl y ↦
            rw y (refl, same_totals _ _ (omega arith) (ground arith) (omega arith) (omega arith))
        | inr n ↦
            rw n (refl, same_totals _ _ (omega arith) (omega arith) (omega arith) (omega arith))
      ]
  event-totals (health_reported ts) tap o valid octets =
      unfold report_health report_snapshot in
      rw (tap_snapshot-returned ts tap valid) (
        unfold window_snapshot in
        (refl, same_totals _ _ (omega arith) (omega arith) (omega arith) (omega arith)))

  -- Over any history of octet datagrams, drops and reports of an adapter for a valid stream, every
  -- report is made, and the packets, drops and decoding errors of the reports and of the open
  -- window are those that the window had before and those that happened.
  pub tap_history-totals :
      (events : List TapEvent) (tap : Tap F) (o : Observer F)
      → StreamIsValid floats tap.stream
      → All OctetsOf events
      → let done = tap_history floats events tap o in
        add_totals done.2 (window_totals done.0)
        ≡ add_totals (window_totals tap) (history_totals events)
  unfolding tap_history history_totals
  tap_history-totals [] tap o valid octets =
      same_totals _ _ (omega arith) (omega arith) (omega arith) (omega arith)
  tap_history-totals (event ∷ events) tap o valid octets =
      let step = tap_event floats event tap o in
      let rest = tap_history floats events step.0 step.1 in
      let (same, once) = event-totals event tap o valid octets.0 in
      add_totals_assoc step.2 rest.2 (window_totals rest.0)
      ∙ ap (add_totals step.2) (
          tap_history-totals events step.0 step.1 (subst (StreamIsValid floats) (sym same) valid)
            octets.1)
      ∙ sym (add_totals_assoc step.2 (window_totals step.0) (history_totals events))
      ∙ ap (λ t. add_totals t (history_totals events)) once
      ∙ add_totals_assoc (window_totals tap) (event_totals event) (history_totals events)
