-- ===== src/Observability/Records.antt =====
-- The records of src/voxbench/observability/observer.py. The floating-point numbers that a record
-- keeps are of a type `F`; a time is a number of microseconds.
use voxbench.Base.{ℕ, String, Bool, Option, List}

pub record MetricPoint (F : Type 0) : Type 0 where
  pub stage : Option String
  pub name : String
  pub value : F
  pub ts : ℕ

pub record AudioChunk : Type 0 where
  pub stage : String
  pub pcm_s16le : List ℕ
  pub sample_rate_hz : ℕ
  pub channels : ℕ
  pub ts : ℕ

-- `SipDirection` and `RtpDirection`
pub data SipDirection : Type 0 where
  inbound outbound : SipDirection

pub data RtpDirection : Type 0 where
  received sent : RtpDirection

pub record SipEvent : Type 0 where
  pub method : String
  pub direction : SipDirection
  pub call_id : Option String
  pub status_code : Option ℕ
  pub summary_alias : Option String
  pub ts : ℕ

pub record RtpStats (F : Type 0) : Type 0 where
  pub jitter_ms : Option F
  pub loss_pct : Option F
  pub mos : Option F
  pub direction : Option RtpDirection
  pub rtt_ms : Option F
  pub ts : ℕ

pub data TimelineCategory : Type 0 where
  conversation signaling transport buffer pipeline provider runtime session : TimelineCategory

-- A text that is given, or made of a prefix, perhaps a stage, and an ordinal, with colons between.
pub data Label : Type 0 where
  given : (text : String) → Label
  numbered : (prefix : String) (ordinal : ℕ) → Label
  staged : (prefix stage : String) (ordinal : ℕ) → Label

-- The value of an attribute: `str | int | float | bool | None`.
pub data Attribute (F : Type 0) : Type 0 where
  text : (value : String) → Attribute F
  integer : (value : ℕ) → Attribute F
  float : (value : F) → Attribute F
  boolean : (value : Bool) → Attribute F
  null : Attribute F

pub record TimelineEvent (F : Type 0) : Type 0 where
  pub event_id : Label
  pub category : TimelineCategory
  pub name : String
  pub source : String
  pub correlation_alias : Option Label
  pub clock_domain : String
  pub alignment_uncertainty_ms : Option F
  pub direction : Option RtpDirection
  pub stage : Option String
  pub stream_alias : Option String
  pub attributes : List (String × Attribute F)
  pub ts : ℕ

-- The header fields of an RTP packet that are kept.
pub record RtpPacket (F : Type 0) : Type 0 where
  pub stream_alias : String
  pub direction : RtpDirection
  pub sequence_number : ℕ
  pub rtp_timestamp : ℕ
  pub payload_type : ℕ
  pub clock_rate_hz : ℕ
  pub marker : Bool
  pub clock_domain : String
  pub alignment_uncertainty_ms : Option F
  pub ts : ℕ

pub data Continuity : Type 0 where
  verified compromised not_independently_verified : Continuity

pub record RtpCaptureHealthSnapshot (F : Type 0) : Type 0 where
  pub stream_alias : String
  pub direction : RtpDirection
  pub observed_packet_count : ℕ
  pub capture_drop_count : ℕ
  pub decode_error_count : ℕ
  pub capture_drop_counter_supported : Bool
  pub continuity : Continuity
  pub window_duration_us : ℕ
  pub clock_domain : String
  pub alignment_uncertainty_ms : Option F
  pub ts : ℕ

-- The errors that are raised, all of them `ValueError`.
pub data ObserverError : Type 0 where
  sample_rate_invalid channels_invalid frames_incomplete length_odd : ObserverError
  previous_samples_invalid : ObserverError
  datagram_too_short version_invalid : ObserverError
  stream_alias_invalid sequence_number_invalid rtp_timestamp_invalid : ObserverError
  payload_type_invalid clock_rate_invalid clock_domain_invalid : ObserverError
  alignment_uncertainty_invalid continuity_mismatch drop_count_invalid : ObserverError

pub data Raising (A : Type 0) : Type 0 where
  returned : (value : A) → Raising A
  raised : (error : ObserverError) → Raising A
