-- ===== src/Media/Resampler/Streams.antt =====
-- A stream that is resampled in pieces of any even length: `Pcm16MonoStreamResampler` and
-- `resample_pcm16_mono` of src/voxbench/media/pcm.py.
use voxbench.Base.{
  ℕ, ◌*◌, ◌%◌, ◌≤◌, ◌<◌, ◌≡◌, refl, sym, ap, ◌∙◌, inl, inr, true, Option, none, some, List, [], ◌∷◌,
  ◌++◌, append_assoc, append-nil, length, arith, All, Bool-cases, le→leb, ◌==◌, length-append,
  if◌then◌else◌,
}
use voxbench.Media.Mulaw.{iter_unpack}
use voxbench.Media.Resampler.{
  Resampler, new_resampler, finish_produce, produce, process, flush_samples, resample_pcm16_mono,
}
use voxbench.Media.Resampler.Chunks.{produce_pieces}
use voxbench.Media.Resampler.Positions.{remaining_below}

abbrev pub IsWhole : List ℕ → Type 0
IsWhole pcm = length pcm % 2 ≡ 0

-- A resampler between rates that are not zero, the first at most three times the second, that has
-- not run past the second of its samples.
abbrev pub IsReady : Resampler → Type 0
IsReady r =
    (0 < r.input_rate)
    × (0 < r.output_rate)
    × (r.input_rate ≤ 3 * r.output_rate)
    × (r.position_numerator < 2 * r.output_rate)

-- The pieces are processed in turn.
unfoldable pub process_all : List (List ℕ) → Resampler → Option (Resampler × List ℕ)
unfolding process
process_all [] r = some (r, [])
process_all (piece ∷ pieces) r = elim (process piece r) [
  | none ↦ none
  | some done ↦ elim (process_all pieces done.0) [
    | none ↦ none
    | some rest ↦ some (rest.0, done.1 ++ rest.1)
  ]
]

unfoldable pub joined : List (List ℕ) → List ℕ
joined [] = []
joined (piece ∷ pieces) = piece ++ joined pieces

iter_unpack-append :
    (xs ys : List ℕ) → IsWhole xs → iter_unpack (xs ++ ys) ≡ iter_unpack xs ++ iter_unpack ys
unfolding iter_unpack
iter_unpack-append [] ys e = refl
iter_unpack-append (low ∷ []) ys e = absurd (omega (arith, e))
iter_unpack-append (low ∷ high ∷ xs) ys e = rw (iter_unpack-append xs ys (omega (arith, e))) refl

-- What `process` does with whole samples.
abbrev fed : List ℕ → Resampler → Resampler × List ℕ
fed pcm r =
    if r.input_rate == r.output_rate
    then (r, pcm)
    else produce true (record r { samples = r.samples ++ iter_unpack pcm })

process-fed : (pcm : List ℕ) (r : Resampler) → IsWhole pcm → process pcm r ≡ some (fed pcm r)
unfolding process
process-fed pcm r e =
    let even : (length pcm % 2 == 0) ≡ true = ground arith in
    elim (Bool-cases (r.input_rate == r.output_rate)) [
      | inl y ↦ rw (even, y) refl
      | inr n ↦ rw (even, n) refl
    ]

fed-IsReady : (pcm : List ℕ) (r : Resampler) → IsReady r → IsReady (fed pcm r).0
unfolding produce finish_produce
fed-IsReady pcm r ready = elim (Bool-cases (r.input_rate == r.output_rate)) [
  | inl y ↦ rw y ready
  | inr n ↦ rw n (ready.0, ready.1, ready.2, remaining_below r.output_rate ready.1 _)
]

fed-append :
    (xs ys : List ℕ) (r : Resampler)
    → IsReady r
    → IsWhole xs
    → fed (xs ++ ys) r ≡ ((fed ys (fed xs r).0).0, (fed xs r).1 ++ (fed ys (fed xs r).0).1)
fed-append xs ys r ready e = elim (Bool-cases (r.input_rate == r.output_rate)) [
  | inl y ↦ rw (y, y) refl
  | inr n ↦
      let more = r.samples ++ iter_unpack xs in
      let all : r.samples ++ iter_unpack (xs ++ ys) ≡ more ++ iter_unpack ys =
        ap (λ zs. r.samples ++ zs) (iter_unpack-append xs ys e)
        ∙ sym (append_assoc r.samples (iter_unpack xs) (iter_unpack ys)) in
      rw n (
        rw all (
          unfold produce finish_produce in
          rw n (
            produce_pieces r.input_rate r.output_rate ready.0 ready.1 more (iter_unpack ys)
              r.position_numerator ready.2 ready.3)))
]

joined-IsWhole : (pieces : List (List ℕ)) → All IsWhole pieces → IsWhole (joined pieces)
unfolding joined
joined-IsWhole [] h = omega arith
joined-IsWhole (piece ∷ pieces) h =
    omega (arith, h.0, joined-IsWhole pieces h.1, length-append piece (joined pieces))

process_all-step :
    (piece : List ℕ) (pieces : List (List ℕ)) (r : Resampler) (done rest : Resampler × List ℕ)
    → process piece r ≡ some done
    → process_all pieces done.0 ≡ some rest
    → process_all (piece ∷ pieces) r ≡ some (rest.0, done.1 ++ rest.1)
unfolding process_all
process_all-step piece pieces r done rest e f =
    ap
      (λ m. elim m [
        | none ↦ none
        | some d ↦ elim (process_all pieces d.0) [ none ↦ none | some t ↦ some (t.0, d.1 ++ t.1) ]
      ])
      e
    ∙ ap (λ m. elim m [ none ↦ none | some t ↦ some (t.0, done.1 ++ t.1) ]) f

process_all-joined :
    (piece : List ℕ) (pieces : List (List ℕ)) (r : Resampler)
    → IsReady r
    → IsWhole piece
    → All IsWhole pieces
    → process_all (piece ∷ pieces) r ≡ some (fed (piece ++ joined pieces) r)
unfolding joined
process_all-joined piece [] r ready e h =
    process_all-step piece [] r (fed piece r) ((fed piece r).0, []) (process-fed piece r e)
      (unfold process_all in refl)
    ∙ rw (append-nil (fed piece r).1, append-nil piece) refl
process_all-joined piece (next ∷ pieces) r ready e h =
    process_all-step piece (next ∷ pieces) r (fed piece r)
      (fed (next ++ joined pieces) (fed piece r).0) (process-fed piece r e)
      (process_all-joined next pieces (fed piece r).0 (fed-IsReady piece r ready) h.0 h.1)
    ∙ ap (λ (t : Resampler × List ℕ). some t)
        (sym (fed-append piece (next ++ joined pieces) r ready e))

abbrev fresh : ℕ → ℕ → Resampler
fresh input_rate output_rate = record {
  input_rate = input_rate;
  output_rate = output_rate;
  samples = [];
  position_numerator = 0;
}

new-fresh : (i o : ℕ) → 1 ≤ i → 1 ≤ o → new_resampler i o ≡ some (fresh i o)
unfolding new_resampler
new-fresh i o l m = rw (le→leb 1 i l, le→leb 1 o m) refl

-- A stream that is resampled in pieces, and flushed at its end.
unfoldable pub resample_pieces : ℕ → ℕ → List (List ℕ) → Option (List ℕ)
unfolding process_all flush_samples new_resampler
resample_pieces input_rate output_rate pieces = elim (new_resampler input_rate output_rate) [
  | none ↦ none
  | some r ↦ elim (process_all pieces r) [
    | none ↦ none
    | some done ↦ some (done.1 ++ (flush_samples done.0).1)
  ]
]

-- If the input rate is at most three times the output rate, and neither is zero, a stream that is
-- processed in any pieces of even length, one or more, and then flushed, gives the output of
-- resample_pcm16_mono for the whole stream.
pub resample_pieces-joined :
    (input_rate output_rate : ℕ) (piece : List ℕ) (pieces : List (List ℕ))
    → 1 ≤ input_rate
    → 1 ≤ output_rate
    → input_rate ≤ 3 * output_rate
    → IsWhole piece
    → All IsWhole pieces
    → (output : List ℕ) × (resample_pieces input_rate output_rate (piece ∷ pieces) ≡ some output)
      × (resample_pcm16_mono input_rate output_rate (joined (piece ∷ pieces)) ≡ some output)
unfolding resample_pieces resample_pcm16_mono joined
resample_pieces-joined input_rate output_rate piece pieces i o slow e h =
    let r = fresh input_rate output_rate in
    let whole : IsWhole (piece ++ joined pieces) =
      omega (arith, e, joined-IsWhole pieces h, length-append piece (joined pieces)) in
    let done = fed (piece ++ joined pieces) r in
    let finish : Option (Resampler × List ℕ) → Option (List ℕ) =
      λ m. elim m [ none ↦ none | some d ↦ some (d.1 ++ (flush_samples d.0).1) ] in
    (
      done.1 ++ (flush_samples done.0).1,
      ap (λ m. elim m [ none ↦ none | some s ↦ finish (process_all (piece ∷ pieces) s) ])
            (new-fresh input_rate output_rate i o)
          ∙ ap finish (process_all-joined piece pieces r (i, o, slow, omega (arith, o)) e h),
      ap (λ m. elim m [ none ↦ none | some s ↦ finish (process (piece ++ joined pieces) s) ])
            (new-fresh input_rate output_rate i o)
          ∙ ap finish (process-fed (piece ++ joined pieces) r whole),
    )
