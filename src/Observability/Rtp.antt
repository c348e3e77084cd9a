-- ===== src/Observability/Rtp.antt =====
-- RTP packets and capture health: `RtpPacket`, `rtp_packet_from_datagram` and
-- `RtpCaptureHealthSnapshot` of src/voxbench/observability/observer.py. A datagram is a list of octets.

pub mod Headers
use voxbench.Base.{
  ℕ, zero, suc, ◌+◌, ◌*◌, ◌/◌, ◌%◌, String, Bool, true, false, ◌&&◌, ◌||◌, Option, none, some, List,
  [], ◌∷◌, leb, ltb, ◌==◌, length, get_elem?, if◌then◌else◌,
}
use voxbench.Observability.Records.{
  RtpDirection, RtpPacket, RtpCaptureHealthSnapshot, Continuity, verified, compromised,
  not_independently_verified, ObserverError, datagram_too_short, version_invalid,
  stream_alias_invalid, sequence_number_invalid, rtp_timestamp_invalid, payload_type_invalid,
  clock_rate_invalid, clock_domain_invalid, alignment_uncertainty_invalid, continuity_mismatch,
  Raising, returned, raised,
}
use voxbench.Observability.References.{is_safe_reference}
use voxbench.Observability.Batches.{slice}
use voxbench.Observability.Levels.{Floats}

-- `if not condition: raise ValueError(…)`, and what follows.
abbrev pub require : {A : Type 0} → Bool → ObserverError → Raising A → Raising A
require condition error next = if condition then next else raised error

abbrev pub uncertainty_is_valid : {F : Type 0} → Floats F → Option F → Bool
uncertainty_is_valid floats none = true
uncertainty_is_valid floats (some x) = floats.is_finite_nonnegative x

-- `RtpPacket.__post_init__`
unfoldable pub new_packet : {F : Type 0} → Floats F → RtpPacket F → Raising (RtpPacket F)
new_packet floats p = require (is_safe_reference 128 p.stream_alias) stream_alias_invalid (
    require (leb p.sequence_number 65_535) sequence_number_invalid (
      require (leb p.rtp_timestamp 4_294_967_295) rtp_timestamp_invalid (
        require (leb p.payload_type 127) payload_type_invalid (
          require (leb 1 p.clock_rate_hz && leb p.clock_rate_hz 384_000) clock_rate_invalid (
            require (is_safe_reference 64 p.clock_domain) clock_domain_invalid (
              require (uncertainty_is_valid floats p.alignment_uncertainty_ms)
                alignment_uncertainty_invalid (returned p)))))))

-- `int.from_bytes(octets, byteorder="big")`, after the octets that were read.
unfoldable pub from_bytes : ℕ → List ℕ → ℕ
from_bytes n [] = n
from_bytes n (octet ∷ octets) = from_bytes (256 * n + octet) octets

-- `datagram[i]`; the length is checked before.
unfoldable pub octet_at : ℕ → List ℕ → ℕ
octet_at i datagram = elim (get_elem? datagram i) [ none ↦ 0 | some octet ↦ octet ]

-- What the fields of a packet have that do not come from its datagram.
pub record Stream (F : Type 0) : Type 0 where
  pub stream_alias : String
  pub direction : RtpDirection
  pub clock_rate_hz : ℕ
  pub clock_domain : String
  pub alignment_uncertainty_ms : Option F

unfoldable pub header_packet : {F : Type 0} → Stream F → ℕ → List ℕ → RtpPacket F
unfolding from_bytes octet_at slice
header_packet stream ts datagram = record {
  stream_alias = stream.stream_alias;
  direction = stream.direction;
  sequence_number = from_bytes 0 (slice 2 4 datagram);
  rtp_timestamp = from_bytes 0 (slice 4 8 datagram);
  payload_type = octet_at 1 datagram % 128;
  clock_rate_hz = stream.clock_rate_hz;
  marker = leb 128 (octet_at 1 datagram);
  clock_domain = stream.clock_domain;
  alignment_uncertainty_ms = stream.alignment_uncertainty_ms;
  ts = ts;
}

unfoldable pub rtp_packet_from_datagram :
    {F : Type 0} → Floats F → Stream F → ℕ → List ℕ → Raising (RtpPacket F)
unfolding new_packet header_packet octet_at
rtp_packet_from_datagram floats stream ts datagram =
    if ltb (length datagram) 12
    then raised datagram_too_short
    else if octet_at 0 datagram / 64 == 2
    then new_packet floats (header_packet stream ts datagram)
    else raised version_invalid

unfoldable pub expected_continuity : ℕ → ℕ → Bool → Continuity
expected_continuity zero zero true = verified
expected_continuity zero zero false = not_independently_verified
expected_continuity zero (suc errors) supported = compromised
expected_continuity (suc drops) errors supported = compromised

unfoldable pub same_continuity : Continuity → Continuity → Bool
same_continuity verified verified = true
same_continuity compromised compromised = true
same_continuity not_independently_verified not_independently_verified = true
same_continuity _ _ = false

-- `RtpCaptureHealthSnapshot.__post_init__`
unfoldable pub new_snapshot :
    {F : Type 0} → Floats F → RtpCaptureHealthSnapshot F → Raising (RtpCaptureHealthSnapshot F)
unfolding expected_continuity same_continuity
new_snapshot floats s = require (is_safe_reference 128 s.stream_alias) stream_alias_invalid (
    require (is_safe_reference 64 s.clock_domain) clock_domain_invalid (
      require
        (same_continuity s.continuity (
          expected_continuity s.capture_drop_count s.decode_error_count
            s.capture_drop_counter_supported))
        continuity_mismatch
        (require (uncertainty_is_valid floats s.alignment_uncertainty_ms)
          alignment_uncertainty_invalid (returned s))))
