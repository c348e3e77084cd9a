-- ===== src/Observability/Pcm/Strongest.antt =====
-- The detector against a description by sample indices, which has no loops.
use voxbench.Base.{
  ℕ, zero, suc, ◌+◌, ◌-◌, ◌*◌, ◌/◌, ◌%◌, ◌<◌, ◌≡◌, ◌∷◌, [], inl, inr, refl, ap, ◌∙◌, subst, true,
  false, Option, none, some, List, ltb, ◌==◌, length, get_elem?, arith, if◌then◌else◌, Bool-cases,
}
use native.Mathlib.Nat.{div-add-mod', mul-div_cancel}
use voxbench.Observability.Records.{returned, raised}
use voxbench.Base.Int.{ℤ}
use voxbench.Media.Mulaw.{iter_unpack}
use voxbench.Observability.Pcm.{
  is_frame, distance, Discontinuity, is_suspicious, previous_of, judge, consider, scan_channels,
  scan_frames, detect_discontinuity,
}
use voxbench.Observability.Pcm.Steps.{step, Strongest, step-Strongest}

module _ (samples : List ℤ) (previous_samples : Option (List ℤ)) (channels : ℕ) where
  -- The sample of the same channel, one frame before the sample `k`.
  before : ℕ → Option ℤ
  before k =
      if ltb k channels
      then elim previous_samples [ none ↦ none | some previous ↦ get_elem? previous k ]
      else get_elem? samples (k - channels)

  -- The step into the sample `k`, if it is suspicious.
  unfoldable pub suspicious_step : ℕ → Option ℕ
  unfolding before
  suspicious_step k = elim (get_elem? samples k) [
    | none ↦ none
    | some current ↦ elim (before k) [
      | none ↦ none
      | some previous ↦
          if is_suspicious current previous then some (distance current previous) else none
    ]
  ]

  judge-step :
      (frame channel : ℕ) (current previous : ℤ) (strongest : Option Discontinuity)
      → judge samples previous_samples channels frame channel current previous strongest
        ≡ step
            (if is_suspicious current previous then some (distance current previous) else none)
            frame
            channel
            strongest
  unfolding judge step
  judge-step frame channel current previous strongest =
      elim (Bool-cases (is_suspicious current previous)) [ inl y ↦ rw y refl | inr n ↦ rw n refl ]

  previous_of-before :
      (frame channel : ℕ)
      → channel < channels
      → previous_of samples previous_samples channels frame channel
        ≡ before (frame * channels + channel)
  unfolding previous_of before
  previous_of-before zero channel l =
      let k : channel ≡ 0 * channels + channel = omega arith in
      let first : ltb (0 * channels + channel) channels ≡ true = ground arith in
      ap (λ i. elim previous_samples [ none ↦ none | some previous ↦ get_elem? previous i ]) k
      ∙ rw first refl
  previous_of-before (suc frame) channel l =
      let later : ltb (suc frame * channels + channel) channels ≡ false = ground arith in
      let back : suc frame * channels + channel - channels ≡ frame * channels + channel =
        omega arith in
      rw (later, back) refl

  consider-step :
      (frame channel : ℕ) (strongest : Option Discontinuity)
      → channel < channels
      → consider samples previous_samples channels frame channel strongest
        ≡ step (suspicious_step (frame * channels + channel)) frame channel strongest
  unfolding consider suspicious_step
  consider-step frame channel strongest l =
      ap
        (λ q. elim (get_elem? samples (frame * channels + channel)) [
          | none ↦ strongest
          | some current ↦ elim q [
            | none ↦ strongest
            | some previous ↦
                judge samples previous_samples channels frame channel current previous strongest
          ]
        ])
        (previous_of-before frame channel l)
      ∙ (split (get_elem? samples (frame * channels + channel))
          (before (frame * channels + channel)))
    where
      split :
          (o q : Option ℤ)
          → elim o [
            | none ↦ strongest
            | some current ↦ elim q [
              | none ↦ strongest
              | some previous ↦
                  judge samples previous_samples channels frame channel current previous strongest
            ]
          ]
            ≡ step
                (elim o [
                  | none ↦ none
                  | some current ↦ elim q [
                    | none ↦ none
                    | some previous ↦
                        if is_suspicious current previous
                        then some (distance current previous)
                        else none
                  ]
                ])
                frame
                channel
                strongest
      split none q = unfold step in refl
      split (some current) none = unfold step in refl
      split (some current) (some previous) = judge-step frame channel current previous strongest

  scan_channels-Strongest :
      (frame channel count : ℕ) (s : Option Discontinuity)
      → channel + count ≡ channels
      → Strongest suspicious_step channels (frame * channels + channel) s
      → Strongest suspicious_step channels
          ((frame + 1) * channels)
          (scan_channels samples previous_samples channels frame channel count s)
  unfolding scan_channels
  scan_channels-Strongest frame channel zero s e h =
      let all : frame * channels + channel ≡ (frame + 1) * channels = omega arith in
      subst (λ n. Strongest suspicious_step channels n s) all h
  scan_channels-Strongest frame channel (suc count) s e h =
      let next : frame * channels + (channel + 1) ≡ frame * channels + channel + 1 = omega arith in
      scan_channels-Strongest frame (channel + 1) count
        (consider samples previous_samples channels frame channel s) (omega arith)
        (rw (consider-step frame channel s (omega arith), next)
          (step-Strongest suspicious_step channels frame channel s (omega arith) h))

  scan_frames-Strongest :
      (frame count : ℕ) (s : Option Discontinuity)
      → Strongest suspicious_step channels (frame * channels) s
      → Strongest suspicious_step channels
          ((frame + count) * channels)
          (scan_frames samples previous_samples channels frame count s)
  unfolding scan_frames
  scan_frames-Strongest frame zero s h = let same : frame + 0 ≡ frame = omega arith in rw same h
  scan_frames-Strongest frame (suc count) s h =
      let moved : frame + suc count ≡ frame + 1 + count = omega arith in
      let start : frame * channels + 0 ≡ frame * channels = omega arith in
      rw moved (
        scan_frames-Strongest (frame + 1) count
          (scan_channels samples previous_samples channels frame 0 channels s)
          (scan_channels-Strongest frame 0 channels s (omega arith) (rw start h)))

length-iter_unpack : (pcm : List ℕ) → length (iter_unpack pcm) ≡ length pcm / 2
unfolding iter_unpack
length-iter_unpack [] = refl
length-iter_unpack (low ∷ []) = refl
length-iter_unpack (low ∷ high ∷ rest) = omega (arith, length-iter_unpack rest)

-- Complete frames divide into channels without rest.
whole_frames :
    (n channels : ℕ) → 0 < channels → n % (2 * channels) ≡ 0 → n / 2 / channels * channels ≡ n / 2
whole_frames n channels p e =
    let halves : n / 2 ≡ n / (2 * channels) * channels =
      omega (arith, div-add-mod' n (2 * channels)) in
    rw (halves, mul-div_cancel (n / (2 * channels)) p) refl

returned_inj : {A : Type 0} (a b : A) → returned a ≡ returned b → a ≡ b
returned_inj a b h = ap (λ r. elim r [ returned x ↦ x | raised e ↦ a ]) h

scanned-Strongest :
    (samples : List ℤ) (previous_samples : Option (List ℤ)) (channels : ℕ)
    → length samples / channels * channels ≡ length samples
    → Strongest
        (suspicious_step samples previous_samples channels)
        channels
        (length samples)
        (scan_frames samples previous_samples channels 0 (length samples / channels) none)
scanned-Strongest samples previous_samples channels e =
    let all : (0 + length samples / channels) * channels ≡ length samples = omega (arith, e) in
    subst
      (λ n.
        Strongest (suspicious_step samples previous_samples channels) channels n
          (scan_frames samples previous_samples channels 0 (length samples / channels) none))
      all
      (scan_frames-Strongest samples previous_samples channels 0 (length samples / channels) none
        (λ k l. absurd (omega arith)))

-- A detection that does not raise finds the first of the strongest suspicious steps between a
-- sample and the sample of the same channel one frame before it, and finds none only if no step is
-- suspicious.
pub detect-Strongest :
    (pcm : List ℕ) (channels : ℕ) (previous_samples : Option (List ℤ))
    (found : Option Discontinuity)
    → detect_discontinuity pcm channels previous_samples ≡ returned found
    → Strongest
        (suspicious_step (iter_unpack pcm) previous_samples channels)
        channels
        (length (iter_unpack pcm))
        found
unfolding detect_discontinuity
detect-Strongest pcm channels previous_samples found h =
    let samples = iter_unpack pcm in
    elim (Bool-cases (channels == 0)) [
      | inl y ↦ absurd (ground arith)
      | inr n ↦ elim (Bool-cases (length pcm % (2 * channels) == 0)) [
        | inr n' ↦ absurd (ground arith)
        | inl y ↦ elim (Bool-cases (is_frame channels previous_samples)) [
          | inr n' ↦ absurd (ground arith)
          | inl y' ↦
              let here : returned (
                    scan_frames samples previous_samples channels 0 (length samples / channels)
                      none)
                  ≡ returned found =
                ground arith in
              subst
                (Strongest (suspicious_step samples previous_samples channels) channels
                  (length samples))
                (returned_inj _ _ here)
                (scanned-Strongest samples previous_samples channels (
                  rw (length-iter_unpack pcm)
                    (whole_frames (length pcm) channels (ground arith) (ground arith))))
        ]
      ]
    ]
