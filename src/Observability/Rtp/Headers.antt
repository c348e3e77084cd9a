-- ===== src/Observability/Rtp/Headers.antt =====
-- The header of RFC 3550, written and decoded: for `rtp_packet_from_datagram` of
-- src/voxbench/observability/observer.py.
use voxbench.Base.{
  ℕ, ◌+◌, ◌*◌, ◌/◌, ◌%◌, ◌≤◌, ◌<◌, ◌≡◌, refl, sym, ap, ◌∙◌, subst₂, Bool, true, false, ◌&&◌, List,
  [], ◌∷◌, leb, ltb, ◌==◌, le→leb, length, All, arith, if◌then◌else◌, Bool-cases, inl, inr,
}
use voxbench.Observability.Records.{
  RtpPacket, returned, raised, ObserverError, datagram_too_short, version_invalid,
}
use voxbench.Observability.Levels.{Floats}
use voxbench.Observability.Batches.{slice}
use voxbench.Observability.References.{is_safe_reference}
use voxbench.Observability.Rtp.{
  Stream, new_packet, from_bytes, octet_at, header_packet, rtp_packet_from_datagram,
  uncertainty_is_valid,
}

-- An RTP header after RFC 3550: version 2, with the padding, extension and source count in `flags`.
pub record Header : Type 0 where
  pub flags : ℕ
  pub marker : Bool
  pub payload_type : ℕ
  pub sequence_number : ℕ
  pub rtp_timestamp : ℕ

abbrev pub high_bit : Bool → ℕ
high_bit marker = if marker then 128 else 0

abbrev pub written_header : Header → List ℕ → List ℕ
written_header h rest =
    (2 * 64 + h.flags)
    ∷ (high_bit h.marker + h.payload_type)
    ∷ (h.sequence_number / 256)
    ∷ (h.sequence_number % 256)
    ∷ (h.rtp_timestamp / 16_777_216)
    ∷ (h.rtp_timestamp / 65_536 % 256)
    ∷ (h.rtp_timestamp / 256 % 256)
    ∷ (h.rtp_timestamp % 256)
    ∷ rest

abbrev pub FitsHeader : Header → Type 0
FitsHeader h =
    (h.flags < 64)
    × (h.payload_type < 128)
    × (h.sequence_number < 65_536)
    × (h.rtp_timestamp < 4_294_967_296)

-- A stream whose alias, clock rate, clock domain and uncertainty are allowed.
abbrev pub StreamIsValid : {F : Type 0} → Floats F → Stream F → Type 0
StreamIsValid floats stream =
    (is_safe_reference 128 stream.stream_alias ≡ true)
    × ((leb 1 stream.clock_rate_hz && leb stream.clock_rate_hz 384_000) ≡ true)
    × (is_safe_reference 64 stream.clock_domain ≡ true)
    × (uncertainty_is_valid floats stream.alignment_uncertainty_ms ≡ true)

-- The packet of a stream with the fields of a header.
abbrev pub packet_of : {F : Type 0} → Stream F → ℕ → Header → RtpPacket F
packet_of stream ts h = record {
  stream_alias = stream.stream_alias;
  direction = stream.direction;
  sequence_number = h.sequence_number;
  rtp_timestamp = h.rtp_timestamp;
  payload_type = h.payload_type;
  clock_rate_hz = stream.clock_rate_hz;
  marker = h.marker;
  clock_domain = stream.clock_domain;
  alignment_uncertainty_ms = stream.alignment_uncertainty_ms;
  ts = ts;
}

-- Whether a datagram has a header of version 2.
abbrev pub decodes : List ℕ → Bool
decodes datagram = leb 12 (length datagram) && octet_at 0 datagram / 64 == 2

module _ {F : Type 0} (floats : Floats F) (stream : Stream F)
    (valid : StreamIsValid floats stream) where
  -- Fields within their widths are all that remains to check.
  new_packet-fits :
      (p : RtpPacket F)
      → p.stream_alias ≡ stream.stream_alias
      → p.clock_rate_hz ≡ stream.clock_rate_hz
      → p.clock_domain ≡ stream.clock_domain
      → p.alignment_uncertainty_ms ≡ stream.alignment_uncertainty_ms
      → p.sequence_number ≤ 65_535
      → p.rtp_timestamp ≤ 4_294_967_295
      → p.payload_type ≤ 127
      → new_packet floats p ≡ returned p
  unfolding new_packet
  new_packet-fits p a b c d l m n =
      rw
        (
          a,
          valid.0,
          le→leb p.sequence_number 65_535 l,
          le→leb p.rtp_timestamp 4_294_967_295 m,
          le→leb p.payload_type 127 n,
          b,
          valid.1,
          c,
          valid.2,
          d,
          valid.3,
        )
        refl

  with_fields : ℕ → ℕ → ℕ → Bool → ℕ → RtpPacket F
  with_fields sequence_number rtp_timestamp payload_type marker ts = packet_of stream ts (record {
    flags = 0;
    marker = marker;
    payload_type = payload_type;
    sequence_number = sequence_number;
    rtp_timestamp = rtp_timestamp;
  })

  marker-bit : (marker : Bool) (n : ℕ) → n < 128 → leb 128 (high_bit marker + n) ≡ marker
  marker-bit true n l = ground arith
  marker-bit false n l = ground arith

  payload-bits : (marker : Bool) (n : ℕ) → n < 128 → (high_bit marker + n) % 128 ≡ n
  payload-bits true n l = omega arith
  payload-bits false n l = omega arith

  header-fields :
      (ts : ℕ) (h : Header) (rest : List ℕ)
      → FitsHeader h
      → header_packet stream ts (written_header h rest) ≡ packet_of stream ts h
  unfolding header_packet with_fields from_bytes octet_at slice
  header-fields ts h rest fits =
      let s = h.sequence_number in
      let t = h.rtp_timestamp in
      let sequence : 256 * (256 * 0 + s / 256) + s % 256 ≡ s = omega arith in
      let time : 256 * (256 * (256 * (256 * 0 + t / 16_777_216) + t / 65_536 % 256) + t / 256 % 256)
            + t % 256
          ≡ t =
        omega arith in
      subst₂
        (λ a b.
          with_fields (256 * (256 * 0 + s / 256) + s % 256) a b
            (leb 128 (high_bit h.marker + h.payload_type)) ts
          ≡ packet_of stream ts h)
        (sym time) (sym (payload-bits h.marker h.payload_type fits.1))
        (subst₂ (λ a b. with_fields a t h.payload_type b ts ≡ packet_of stream ts h) (sym sequence)
          (sym (marker-bit h.marker h.payload_type fits.1)) refl)

  -- For a valid stream, a datagram that is an RTP header of version 2, whose fields fit their
  -- widths, followed by four octets or more, is decoded to the sequence number, the timestamp, the
  -- payload type and the marker of the header.
  pub decode-written :
      (ts : ℕ) (h : Header) (rest : List ℕ)
      → FitsHeader h
      → 4 ≤ length rest
      → rtp_packet_from_datagram floats stream ts (written_header h rest)
        ≡ returned (packet_of stream ts h)
  unfolding rtp_packet_from_datagram octet_at
  decode-written ts h rest fits l =
      let long : ltb (length (written_header h rest)) 12 ≡ false = ground arith in
      let version : ((2 * 64 + h.flags) / 64 == 2) ≡ true = ground arith in
      rw (long, version)
        (ap (new_packet floats) (header-fields ts h rest fits)
          ∙ new_packet-fits (packet_of stream ts h) refl refl refl refl (omega arith) (omega arith)
              (omega arith))

  -- Whatever the octets are, a datagram of version 2 and of 12 octets or more is decoded.
  pub decode-octets :
      (ts : ℕ) (datagram : List ℕ)
      → All (λ octet. octet < 256) datagram
      → decodes datagram ≡ true
      → rtp_packet_from_datagram floats stream ts datagram
        ≡ returned (header_packet stream ts datagram)
  unfolding rtp_packet_from_datagram header_packet octet_at slice from_bytes
  decode-octets ts (a ∷ b ∷ c ∷ d ∷ e ∷ f ∷ g ∷ h ∷ rest) octets y =
      let long : ltb (length (a ∷ b ∷ c ∷ d ∷ e ∷ f ∷ g ∷ h ∷ rest)) 12 ≡ false = ground arith in
      let version : (a / 64 == 2) ≡ true = ground arith in
      rw (long, version)
        (new_packet-fits (header_packet stream ts (a ∷ b ∷ c ∷ d ∷ e ∷ f ∷ g ∷ h ∷ rest)) refl refl
          refl refl (omega arith) (omega arith) (omega arith))
  decode-octets ts (a ∷ b ∷ c ∷ d ∷ e ∷ f ∷ g ∷ []) octets y = absurd (ground arith)
  decode-octets ts (a ∷ b ∷ c ∷ d ∷ e ∷ f ∷ []) octets y = absurd (ground arith)
  decode-octets ts (a ∷ b ∷ c ∷ d ∷ e ∷ []) octets y = absurd (ground arith)
  decode-octets ts (a ∷ b ∷ c ∷ d ∷ []) octets y = absurd (ground arith)
  decode-octets ts (a ∷ b ∷ c ∷ []) octets y = absurd (ground arith)
  decode-octets ts (a ∷ b ∷ []) octets y = absurd (ground arith)
  decode-octets ts (a ∷ []) octets y = absurd (ground arith)
  decode-octets ts [] octets y = absurd (ground arith)

  -- Any other datagram raises.
  pub decode-raises :
      (ts : ℕ) (datagram : List ℕ)
      → decodes datagram ≡ false
      → (error : ObserverError) × (rtp_packet_from_datagram floats stream ts datagram
          ≡ raised error)
  unfolding rtp_packet_from_datagram
  decode-raises ts datagram n = elim (Bool-cases (ltb (length datagram) 12)) [
    | inl y ↦ (datagram_too_short, rw y refl)
    | inr m ↦
        let other : (octet_at 0 datagram / 64 == 2) ≡ false = ground arith in
        (version_invalid, rw (m, other) refl)
  ]
