-- ===== src/Tests/Observing.antt =====
-- An observer, a packet capture and a detection, over floating-point numbers that stand in.
use voxbench.Base.{
  ℕ, ◌-◌, ◌/◌, ◌≡◌, refl, true, false, none, some, List, [], ◌∷◌, ◌++◌, leb, arith, drop, length,
  All,
}
use voxbench.Observability.Records.{MetricPoint, SipEvent, inbound, received, returned}
use voxbench.Observability.Batches.{
  bounded_observation_batches, collected, merge_observation_batches,
}
use voxbench.Observability.Batches.Division.{Accepted}
use voxbench.Observability.Levels.{Floats}
use voxbench.Media.Mulaw.{iter_unpack}
use voxbench.Observability.Pcm.{detect_discontinuity}
use voxbench.Observability.Pcm.Strongest.{suspicious_step, detect-Strongest}
use voxbench.Observability.Pcm.Steps.{Strongest}
use voxbench.Observability.Observer.{Observer, pending_count}
use voxbench.Observability.Observer.Flushing.{flush, taken_batch, restored}
use voxbench.Observability.Observer.Observations.{
  metric, sip_event, Occurrence, observed, flushed, run_history, observations, observe_all,
}
use voxbench.Observability.Observer.Conserved.{run_history-conserved}
use voxbench.Observability.Observer.Delivered.{run_history-Accepted, flush-succeeds}
use voxbench.Observability.Observer.Failing.{flush-fails}
use voxbench.Observability.Rtp.{octet_at, Stream, rtp_packet_from_datagram}
use voxbench.Observability.Rtp.Headers.{
  StreamIsValid, Header, written_header, packet_of, decode-written,
}
use voxbench.Observability.Tap.{Tap}
use voxbench.Observability.References.{is_safe_reference}
use voxbench.Observability.Tap.History.{
  TapEvent, datagram_seen, packets_dropped, health_reported, add_totals, window_totals, tap_history,
  history_totals,
}
use voxbench.Observability.Tap.Accounting.{tap_history-totals}

abbrev floats : Floats ℕ
floats = record {
  zero_point = 0;
  floor_dbfs = 0;
  root_mean_square = λ s n. s;
  peak_dbfs = λ n. n;
  percentage = λ a b. a;
  is_positive = λ x. leb 1 x;
  gain_db = λ a b. b - a;
  duration_ms = λ samples channels rate. samples;
  media_time_ms = λ frame rate. frame;
  is_new_incident = λ a b. leb 5 (a - b);
  of_full_scale = λ n. n;
  discontinuity_threshold = 8_192;
  min_signal_level = 656;
  dedup_ms = 5;
  milliseconds = λ n. n / 1_000;
  is_finite_nonnegative = λ x. true;
}

abbrev point : MetricPoint ℕ
point = record { stage = none; name = "asr_ms"; value = 120; ts = 1 }

abbrev invite : SipEvent
invite = record {
  method = "INVITE";
  direction = inbound;
  call_id = none;
  status_code = none;
  summary_alias = none;
  ts = 2;
}

abbrev run : Observer ℕ
run = record {
  run_id = "run-1";
  metrics = point ∷ [];
  audio_chunks = [];
  sip_events = invite ∷ [];
  rtp_stats = [];
  timeline_events = [];
  rtp_packet_ordinal = 0;
  rtp_capture_health_ordinal = 0;
  discontinuity_ordinal = 0;
  stage_pcm_state = [];
}

abbrev history : List (Occurrence ℕ)
history =
    flushed (λ i. false) (metric point ∷ [])
    ∷ observed (sip_event invite)
    ∷ flushed (λ i. true) []
    ∷ []

run_history-conserved_example :
    restored
      (merge_observation_batches "run-1" (run_history floats history run).1)
      (run_history floats history run).0
    ≡ observe_all floats (observations history) run
run_history-conserved_example = run_history-conserved floats history run "run-1"

run_history-Accepted_example : All Accepted (run_history floats history run).1
run_history-Accepted_example = run_history-Accepted floats history run

two_delivered : length (run_history floats history run).1 ≡ 1
unfolding run_history
two_delivered = refl

flush-succeeds_example :
    ((flush (λ i. true) (observe_all floats (metric point ∷ [])) run).reply ≡ some 2)
    × ((flush (λ i. true) (observe_all floats (metric point ∷ [])) run).observer
        ≡ observe_all floats (metric point ∷ []) (record run { metrics = []; sip_events = [] }))
unfolding pending_count
flush-succeeds_example =
    flush-succeeds (λ i. true) (observe_all floats (metric point ∷ [])) run (λ i. refl)

one_batch : length (bounded_observation_batches (taken_batch run)) ≡ 1
unfolding bounded_observation_batches taken_batch
one_batch = refl

-- Another thread observes the point again while the only batch is refused.
flush-fails_example :
    let unsent = drop 0 (bounded_observation_batches (taken_batch run)) in
    let left =
      observe_all floats (metric point ∷ []) (record run { metrics = []; sip_events = [] }) in
    flush (λ i. false) (observe_all floats (metric point ∷ [])) run ≡ record {
      observer = record left {
        metrics = collected (λ b. b.metrics) unsent ++ left.metrics;
        audio_chunks = collected (λ b. b.audio_chunks) unsent ++ left.audio_chunks;
        sip_events = collected (λ b. b.sip_events) unsent ++ left.sip_events;
        rtp_stats = collected (λ b. b.rtp_stats) unsent ++ left.rtp_stats;
        timeline_events = collected (λ b. b.timeline_events) unsent ++ left.timeline_events;
      };
      delivered = [];
      reply = none;
    }
flush-fails_example =
    flush-fails (λ i. false) (observe_all floats (metric point ∷ [])) run 0
      (omega (arith, one_batch)) (λ i l. absurd (omega arith)) refl

-- Two channels: the jump is in the second one, from 100 to 9,000.
abbrev jump : List ℕ
jump = 0 ∷ 0 ∷ 100 ∷ 0 ∷ 0 ∷ 0 ∷ 40 ∷ 35 ∷ []

jump_detected :
    detect_discontinuity jump 2 none
    ≡ returned (some (record { frame_offset = 1; delta = 8_900; channel = 1 }))
unfolding detect_discontinuity
jump_detected = refl

detect-Strongest_example :
    Strongest
      (suspicious_step (iter_unpack jump) none 2)
      2
      (length (iter_unpack jump))
      (some (record { frame_offset = 1; delta = 8_900; channel = 1 }))
detect-Strongest_example =
    detect-Strongest jump 2 none (some (record { frame_offset = 1; delta = 8_900; channel = 1 }))
      jump_detected

abbrev caller : Stream ℕ
caller = record {
  stream_alias = "caller-leg";
  direction = received;
  clock_rate_hz = 8_000;
  clock_domain = "capture_wall";
  alignment_uncertainty_ms = some 2;
}

caller-StreamIsValid : StreamIsValid floats caller
unfolding is_safe_reference
caller-StreamIsValid = (refl, refl, refl, refl)

url_refused : is_safe_reference 128 "HTTP://host" ≡ false
unfolding is_safe_reference
url_refused = refl

spaces_refused : is_safe_reference 128 "caller " ≡ false
unfolding is_safe_reference
spaces_refused = refl

abbrev header : Header
header = record {
  flags = 0;
  marker = true;
  payload_type = 8;
  sequence_number = 65_535;
  rtp_timestamp = 305_419_896;
}

decode-written_example :
    rtp_packet_from_datagram floats caller 7 (written_header header (1 ∷ 2 ∷ 3 ∷ 4 ∷ 9 ∷ []))
    ≡ returned (packet_of caller 7 header)
decode-written_example =
    decode-written floats caller caller-StreamIsValid 7 header (1 ∷ 2 ∷ 3 ∷ 4 ∷ 9 ∷ [])
      (omega arith, omega arith, omega arith, omega arith) (omega arith)

abbrev tap : Tap ℕ
tap = record {
  stream = caller;
  capture_drop_counter_supported = false;
  window_started_at = 0;
  observed_packet_count = 4;
  capture_drop_count = 0;
  decode_error_count = 0;
}

abbrev events : List TapEvent
events =
    datagram_seen (128 ∷ 0 ∷ 0 ∷ 1 ∷ 0 ∷ 0 ∷ 0 ∷ 160 ∷ 0 ∷ 0 ∷ 0 ∷ 1 ∷ []) 10
    ∷ datagram_seen (64 ∷ 0 ∷ 9 ∷ []) 11
    ∷ health_reported 20
    ∷ packets_dropped 3
    ∷ []

tap_history-totals_example :
    let done = tap_history floats events tap run in
    add_totals done.2 (window_totals done.0)
    ≡ record { packets = 5; drops = 3; errors = 1; reports = 1 }
unfolding history_totals octet_at
tap_history-totals_example = tap_history-totals floats events tap run caller-StreamIsValid (
  (
    omega arith,
    (
      omega arith,
      (
        omega arith,
        (
          omega arith,
          (
            omega arith,
            (
              omega arith,
              (
                omega arith,
                (omega arith, (omega arith, (omega arith, (omega arith, (omega arith, tt))))),
              ),
            ),
          ),
        ),
      ),
    ),
  ),
  ((omega arith, (omega arith, (omega arith, tt))), (tt, (tt, tt))),
)
