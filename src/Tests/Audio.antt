-- ===== src/Tests/Audio.antt =====
-- Samples and codes.
use voxbench.Base.{refl, ℕ, ◌+◌, ◌*◌, ◌≤◌, ◌≡◌, some, List, [], ◌∷◌, length, arith}
use voxbench.Base.Int.{ℤ, negsuc}
use voxbench.Media.Mulaw.{
  magnitude, clamp16, linear16_to_mulaw, mulaw_to_linear16, pcm16le_to_mulaw, mulaw_to_pcm16le,
}
use voxbench.Media.Resampler.{resample_pcm16_mono}
use voxbench.Media.Resampler.Streams.{resample_pieces, joined, resample_pieces-joined}
use voxbench.Media.Mulaw.Accuracy.{distance, mulaw-accuracy}
use voxbench.Media.Mulaw.RoundTrip.{mulaw-round_trip}

mulaw-accuracy_example :
    (t : ℤ) × (mulaw_to_linear16 (linear16_to_mulaw (negsuc 1_233)) ≡ some t)
    × (32 * distance t (clamp16 (negsuc 1_233)) ≤ magnitude (clamp16 (negsuc 1_233)) + 132)
mulaw-accuracy_example = mulaw-accuracy (negsuc 1_233)

mulaw-round_trip_example :
    (octets : List ℕ) × (mulaw_to_pcm16le (0 ∷ 127 ∷ 200 ∷ []) ≡ some octets)
    × (length octets ≡ 6)
    × (pcm16le_to_mulaw octets ≡ some (0 ∷ 255 ∷ 200 ∷ []))
mulaw-round_trip_example =
    mulaw-round_trip (0 ∷ 127 ∷ 200 ∷ []) (omega arith, (omega arith, (omega arith, tt)))

-- From 24 kHz to 8 kHz, in pieces of two samples, one and three.
resample_pieces-joined_example :
    (output : List ℕ) × (resample_pieces 24_000 8_000
        ((0 ∷ 0 ∷ 3 ∷ 0 ∷ []) ∷ (6 ∷ 0 ∷ []) ∷ (9 ∷ 0 ∷ 12 ∷ 0 ∷ 15 ∷ 0 ∷ []) ∷ [])
      ≡ some output)
    × (resample_pcm16_mono 24_000 8_000 (0 ∷ 0 ∷ 3 ∷ 0 ∷ 6 ∷ 0 ∷ 9 ∷ 0 ∷ 12 ∷ 0 ∷ 15 ∷ 0 ∷ [])
        ≡ some output)
unfolding joined
resample_pieces-joined_example =
    resample_pieces-joined 24_000 8_000 (0 ∷ 0 ∷ 3 ∷ 0 ∷ [])
      ((6 ∷ 0 ∷ []) ∷ (9 ∷ 0 ∷ 12 ∷ 0 ∷ 15 ∷ 0 ∷ []) ∷ []) (omega arith) (omega arith) (omega arith)
      (omega arith) (omega arith, (omega arith, tt))

third_kept :
    resample_pcm16_mono 24_000 8_000 (0 ∷ 0 ∷ 3 ∷ 0 ∷ 6 ∷ 0 ∷ 9 ∷ 0 ∷ 12 ∷ 0 ∷ 15 ∷ 0 ∷ [])
    ≡ some (0 ∷ 0 ∷ 9 ∷ 0 ∷ [])
unfolding resample_pcm16_mono
third_kept = refl

up_and_rounded :
    resample_pcm16_mono 8_000 16_000 (1 ∷ 0 ∷ 2 ∷ 0 ∷ [])
    ≡ some (1 ∷ 0 ∷ 2 ∷ 0 ∷ 2 ∷ 0 ∷ 2 ∷ 0 ∷ [])
unfolding resample_pcm16_mono
up_and_rounded = refl

-- At six times the rate, the samples 0 to 7 give 0 and 6 at once, but 0, 3 and 7 in pairs: the loop runs
-- past the buffer, and the position is set back by more samples than are dropped.
sixth_at_once :
    resample_pcm16_mono 48_000 8_000
      (0 ∷ 0 ∷ 1 ∷ 0 ∷ 2 ∷ 0 ∷ 3 ∷ 0 ∷ 4 ∷ 0 ∷ 5 ∷ 0 ∷ 6 ∷ 0 ∷ 7 ∷ 0 ∷ [])
    ≡ some (0 ∷ 0 ∷ 6 ∷ 0 ∷ [])
unfolding resample_pcm16_mono
sixth_at_once = refl

sixth_in_pairs :
    resample_pieces 48_000 8_000 (
      (0 ∷ 0 ∷ 1 ∷ 0 ∷ [])
      ∷ (2 ∷ 0 ∷ 3 ∷ 0 ∷ [])
      ∷ (4 ∷ 0 ∷ 5 ∷ 0 ∷ [])
      ∷ (6 ∷ 0 ∷ 7 ∷ 0 ∷ [])
      ∷ [])
    ≡ some (0 ∷ 0 ∷ 3 ∷ 0 ∷ 7 ∷ 0 ∷ [])
unfolding resample_pieces
sixth_in_pairs = refl
