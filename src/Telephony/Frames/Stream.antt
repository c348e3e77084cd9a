-- ===== src/Telephony/Frames/Stream.antt =====
-- What is written is read back, frame by frame, and a frame that is cut short raises.
use voxbench.Base.{
  ℕ, suc, zero, ◌+◌, ◌*◌, ◌/◌, ◌%◌, ◌≤◌, ◌<◌, ◌≡◌, ◌⊎◌, inl, inr, refl, sym, ap, subst, ◌∙◌, false,
  List, [], ◌∷◌, ◌++◌, leb, le→leb, length, take, drop, arith, length-append, length-take,
  Bool-cases,
}
use voxbench.Telephony.Frames.{
  AudioSocketFrame, got, incomplete, read_exactly, frame_read, truncated_header, truncated_payload,
  read_payload, read_frame, written, write_frame, all_of, receive,
}

take-append : (xs ys : List ℕ) → take (length xs) (xs ++ ys) ≡ xs
take-append [] ys = refl
take-append (x ∷ xs) ys = ap (λ (t : List ℕ). x ∷ t) (take-append xs ys)

drop-append : (xs ys : List ℕ) → drop (length xs) (xs ++ ys) ≡ ys
drop-append [] ys = refl
drop-append (x ∷ xs) ys = drop-append xs ys

read_exactly-append :
    (n : ℕ) (xs ys : List ℕ) → n ≡ length xs → read_exactly n (xs ++ ys) ≡ got xs ys
unfolding read_exactly
read_exactly-append n xs ys e = rw e (
    rw (le→leb (length xs) (length (xs ++ ys)) (omega (arith, length-append xs ys)))
      (rw (take-append xs ys, drop-append xs ys) refl))

read_exactly-short : (n : ℕ) (xs : List ℕ) → length xs < n → read_exactly n xs ≡ incomplete xs
unfolding read_exactly
read_exactly-short n xs l =
    let no_more : leb n (length xs) ≡ false = ground arith in rw no_more refl

read_frame-octets :
    (kind : ℕ) (payload rest : List ℕ)
    → read_frame (kind ∷ length payload / 256 ∷ length payload % 256 ∷ (payload ++ rest))
      ≡ frame_read (record { frame_type = kind; payload = payload }) rest
unfolding read_frame read_payload
read_frame-octets kind payload rest =
    rw (le→leb 3 (suc (suc (suc (length (payload ++ rest))))) (omega arith), read_frame)
      (rw
        (
          read_exactly-append (length payload / 256 * 256 + length payload % 256) payload rest
              (omega arith),
          read_payload,
        )
        refl)

written-injective : {xs : List ℕ} (ys : List ℕ) → written xs ≡ written ys → ys ≡ xs
written-injective ys h = sym (ap (λ w. elim w [ written o ↦ o | _ ↦ ys ]) h)

-- What was written is the header and the payload.
write_frame-octets :
    (kind : ℕ) (payload octets : List ℕ)
    → write_frame kind payload ≡ written octets
    → octets ≡ kind ∷ length payload / 256 ∷ length payload % 256 ∷ payload
unfolding write_frame
write_frame-octets kind payload octets h = elim (Bool-cases (leb kind 255)) [
  | inr n ↦ absurd (ground arith)
  | inl y ↦ elim (Bool-cases (leb (length payload) 65_535)) [
    | inr n ↦ absurd (ground arith)
    | inl y' ↦
        let e : written (kind ∷ length payload / 256 ∷ length payload % 256 ∷ payload)
            ≡ written octets =
          ground arith in
        written-injective octets e
  ]
]

-- A frame that was written is read from the stream that starts with it, whatever follows.
pub read_frame-write_frame :
    (kind : ℕ) (payload octets rest : List ℕ)
    → write_frame kind payload ≡ written octets
    → read_frame (octets ++ rest)
      ≡ frame_read (record { frame_type = kind; payload = payload }) rest
read_frame-write_frame kind payload octets rest h =
    ap (λ (o : List ℕ). read_frame (o ++ rest)) (write_frame-octets kind payload octets h)
    ∙ read_frame-octets kind payload rest

cut_short :
    (kind high low n : ℕ) (payload : List ℕ)
    → high * 256 + low ≡ length payload
    → 0 < n
    → n < 3 + length payload
    → (read_frame (take n (kind ∷ high ∷ low ∷ payload)) ≡ truncated_header)
      ⊎ (read_frame (take n (kind ∷ high ∷ low ∷ payload)) ≡ truncated_payload)
unfolding read_frame read_payload
cut_short kind high low zero payload e p l = absurd (omega arith)
cut_short kind high low (suc zero) payload e p l = inl refl
cut_short kind high low (suc (suc zero)) payload e p l = inl refl
cut_short kind high low (suc (suc (suc n))) payload e p l = inr (
    rw (le→leb 3 (suc (suc (suc (length (take n payload))))) (omega arith), read_frame)
      (rw
        (
          read_exactly-short (high * 256 + low) (take n payload)
              (omega (arith, length-take n payload)),
          read_payload,
        )
        refl))

-- A written frame of which some octets arrive, but not all, raises a connection error.
pub read_frame-truncated :
    (kind n : ℕ) (payload octets : List ℕ)
    → write_frame kind payload ≡ written octets
    → 0 < n
    → n < length octets
    → (read_frame (take n octets) ≡ truncated_header)
      ⊎ (read_frame (take n octets) ≡ truncated_payload)
read_frame-truncated kind n payload octets h p l =
    let e = write_frame-octets kind payload octets h in
    let short : n < 3 + length payload = omega (arith, ap length e) in
    subst
      (λ (o : List ℕ).
        (read_frame (take n o) ≡ truncated_header) ⊎ (read_frame (take n o) ≡ truncated_payload))
      (sym e)
      (cut_short kind (length payload / 256) (length payload % 256) n payload (omega arith) p short)

-- The frames that were written, one after the other, and the octets of the stream.
pub data Sent : List AudioSocketFrame → List ℕ → Type 0 where
  nothing : Sent [] []
  then_sent :
      (frame : AudioSocketFrame) (octets : List ℕ) (frames : List AudioSocketFrame)
      (stream : List ℕ)
      → write_frame frame.frame_type frame.payload ≡ written octets
      → Sent frames stream
      → Sent (frame ∷ frames) (octets ++ stream)

Sent-length :
    {frames : List AudioSocketFrame} {stream : List ℕ}
    → Sent frames stream
    → length frames ≤ length stream
Sent-length nothing = omega arith
Sent-length (then_sent frame octets frames stream h s) = omega (
  arith,
  length-append octets stream,
  Sent-length s,
  ap length (write_frame-octets frame.frame_type frame.payload octets h),
)

receive-fuel :
    (fuel : ℕ) {frames : List AudioSocketFrame} {stream : List ℕ}
    → Sent frames stream
    → length frames < fuel
    → receive fuel stream ≡ all_of frames
unfolding receive
receive-fuel zero s l = absurd (omega arith)
receive-fuel (suc fuel) nothing l = unfold read_frame in refl
receive-fuel (suc fuel) (then_sent frame octets frames stream h s) l =
    rw (read_frame-write_frame frame.frame_type frame.payload octets stream h, receive)
      (rw (receive-fuel fuel s (omega arith)) refl)

-- Frames that were written to a stream, which is then closed, are received, all and in order.
pub receive-Sent :
    (frames : List AudioSocketFrame) (stream : List ℕ)
    → Sent frames stream
    → receive (suc (length stream)) stream ≡ all_of frames
receive-Sent frames stream s = receive-fuel (suc (length stream)) s (omega (arith, Sent-length s))
