-- ===== src/Media/Mulaw/Accuracy.antt =====
-- How near a decoded code is to the sample that was encoded.
use voxbench.Base.{
  ℕ, zero, suc, ◌+◌, ◌-◌, ◌*◌, ◌/◌, ◌%◌, ◌^◌, min, ◌≤◌, ◌<◌, ◌≡◌, refl, true, false, some, leb,
  ◌==◌, if◌then◌else◌, arith, le→leb, Bool-cases, inl, inr,
}
use voxbench.Base.Int.{ℤ, pos, negsuc, pos_part, neg_part, sub_ℕ}
use voxbench.Media.Mulaw.{
  magnitude, sign_bit, clamp16, exponent_of, mantissa_of, decoded, linear16_to_mulaw,
  mulaw_to_linear16,
}
use voxbench.Media.Mulaw.BitLength.{pow2, bit_length-eq}

-- The distance of two integers.
abbrev pub distance : ℤ → ℤ → ℕ
distance a b =
    let x = pos_part a + neg_part b in let y = pos_part b + neg_part a in (x - y) + (y - x)

-- The magnitude that the fields of `b` decode to, still biased.
abbrev rebuilt : ℕ → ℕ → ℕ
rebuilt e b = (b / 2 ^ (e + 3) % 16 * 8 + 132) * 2 ^ e

near :
    (e b : ℕ)
    → e ≤ 7
    → 128 * pow2 e ≤ b
    → b < 256 * pow2 e
    → (32 * (rebuilt e b - b) ≤ b)
      × (32 * (b - rebuilt e b) ≤ b)
      × (132 ≤ rebuilt e b)
      × (b ≡ 32_767 → rebuilt e b ≡ 32_256)
near zero b l x y = (omega arith, omega arith, omega arith, λ q. omega arith)
near (suc zero) b l x y = (omega arith, omega arith, omega arith, λ q. omega arith)
near (suc (suc zero)) b l x y = (omega arith, omega arith, omega arith, λ q. omega arith)
near (suc (suc (suc zero))) b l x y = (omega arith, omega arith, omega arith, λ q. omega arith)
near (suc (suc (suc (suc zero)))) b l x y =
    (omega arith, omega arith, omega arith, λ q. omega arith)
near (suc (suc (suc (suc (suc zero))))) b l x y =
    (omega arith, omega arith, omega arith, λ q. omega arith)
near (suc (suc (suc (suc (suc (suc zero)))))) b l x y =
    (omega arith, omega arith, omega arith, λ q. omega arith)
near (suc (suc (suc (suc (suc (suc (suc zero))))))) b l x y =
    (omega arith, omega arith, omega arith, λ q. omega arith)
near (suc (suc (suc (suc (suc (suc (suc (suc e)))))))) b l x y = absurd (omega arith)

-- The segment of a biased magnitude.
locate :
    (n b : ℕ)
    → n ≤ 7
    → 128 ≤ b
    → b < 256 * pow2 n
    → (e : ℕ) × (e ≤ 7) × (128 * pow2 e ≤ b) × (b < 256 * pow2 e)
locate zero b l x y = (0, omega arith, omega arith, omega arith)
locate (suc n) b l x y = elim (Bool-cases (leb (128 * pow2 (suc n)) b)) [
  | inl above ↦ (suc n, l, ground arith, y)
  | inr below ↦ locate n b (omega arith) x (ground arith)
]

exponent_of-eq : (e b : ℕ) → e ≤ 7 → 128 * pow2 e ≤ b → b < 256 * pow2 e → exponent_of b ≡ e
unfolding exponent_of
exponent_of-eq e b l x y =
    let k = suc (suc (suc (suc (suc (suc (suc e)))))) in
    omega (arith, bit_length-eq k b (omega arith) (omega arith))

-- The fields of a code are read back.
fields :
    (s : ℤ) (e m : ℕ)
    → e ≤ 7
    → m ≤ 15
    → decoded (255 - (255 - (sign_bit s + e * 16 + m))) ≡ (
        if sign_bit s == 128
        then sub_ℕ 132 ((m * 8 + 132) * 2 ^ e)
        else sub_ℕ ((m * 8 + 132) * 2 ^ e) 132)
unfolding decoded
fields (pos n) e m l k =
    let whole : 255 - (255 - (0 + e * 16 + m)) ≡ e * 16 + m = omega arith in
    let a : (e * 16 + m) % 16 ≡ m = omega arith in
    let b : (e * 16 + m) / 16 % 8 ≡ e = omega arith in
    let c : ((e * 16 + m) / 128 % 2 == 1) ≡ false = ground arith in rw whole (rw (a, b, c) refl)
fields (negsuc n) e m l k =
    let whole : 255 - (255 - (128 + e * 16 + m)) ≡ 128 + e * 16 + m = omega arith in
    let a : (128 + e * 16 + m) % 16 ≡ m = omega arith in
    let b : (128 + e * 16 + m) / 16 % 8 ≡ e = omega arith in
    let c : ((128 + e * 16 + m) / 128 % 2 == 1) ≡ true = ground arith in
    rw whole (rw (a, b, c) refl)

-- The distance from a sample to what its fields decode to.
field_distance :
    (s : ℤ) (e m r : ℕ)
    → e ≤ 7
    → m ≤ 15
    → (m * 8 + 132) * 2 ^ e ≡ r
    → 132 ≤ r
    → distance (decoded (255 - (255 - (sign_bit s + e * 16 + m)))) s
      ≡ (r - (magnitude s + 132)) + (magnitude s + 132 - r)
field_distance (pos n) e m r l k q h =
    rw (fields (pos n) e m l k) (rw q (rw (le→leb 132 r h) (omega arith)))
field_distance (negsuc n) e m r l k q h = rw (fields (negsuc n) e m l k) (rw q (negative r h))
  where
    negative :
        (r : ℕ)
        → 132 ≤ r
        → distance (sub_ℕ 132 r) (negsuc n) ≡ (r - (0 + suc n + 132)) + (0 + suc n + 132 - r)
    negative r h = ground arith

clamp16-magnitude : (s : ℤ) → magnitude (clamp16 s) ≤ 32_768
unfolding clamp16
clamp16-magnitude (pos n) = omega arith
clamp16-magnitude (negsuc n) = omega arith

apart :
    (m b r : ℕ)
    → m ≤ 32_768
    → b ≡ min m 32_635 + 132
    → 32 * (r - b) ≤ b
    → 32 * (b - r) ≤ b
    → (b ≡ 32_767 → r ≡ 32_256)
    → 32 * ((r - (m + 132)) + (m + 132 - r)) ≤ m + 132
apart m b r l q up down top = elim (Bool-cases (leb m 32_635)) [
  | inl inside ↦ let same : b ≡ m + 132 = ground arith in omega arith
  | inr clipped ↦
      let out : 32_635 < m = ground arith in let exact = top (omega arith) in omega arith
]

module _ (s : ℤ) (e b : ℕ) (small : magnitude s ≤ 32_768) (q : b ≡ min (magnitude s) 32_635 + 132)
    (k : e ≤ 7) (x : 128 * pow2 e ≤ b) (y : b < 256 * pow2 e) where
  rebuilt_near :
      32 * ((rebuilt e b - (magnitude s + 132)) + (magnitude s + 132 - rebuilt e b))
      ≤ magnitude s + 132
  rebuilt_near =
      let (up, down, least, top) = near e b k x y in
      apart (magnitude s) b (rebuilt e b) small q up down top

  -- The distance for a sample in range, whose code the encoder computes.
  encoded_near :
      32
        * distance
            (decoded
              (255 - (255 - (sign_bit s + exponent_of b * 16 + mantissa_of b (exponent_of b)))))
            s
      ≤ magnitude s + 132
  unfolding mantissa_of
  encoded_near =
      let (up, down, least, top) = near e b k x y in
      rw (exponent_of-eq e b k x y) (
        rw (field_distance s e (b / 2 ^ (e + 3) % 16) (rebuilt e b) k (omega arith) refl least)
          rebuilt_near)

-- Every sample is encoded as a code, and that decodes to within 1/32 of the clamped sample's
-- magnitude plus the bias.
pub mulaw-accuracy :
    (s : ℤ)
    → (t : ℤ) × (mulaw_to_linear16 (linear16_to_mulaw s) ≡ some t)
      × (32 * distance t (clamp16 s) ≤ magnitude (clamp16 s) + 132)
unfolding linear16_to_mulaw mulaw_to_linear16
mulaw-accuracy s =
    let v = clamp16 s in
    let b = min (magnitude v) 32_635 + 132 in
    let small = clamp16-magnitude s in
    let (e, k, x, y) = locate 7 b (omega arith) (omega arith) (omega arith) in
    (
      decoded (255 - linear16_to_mulaw s),
      rw (le→leb (linear16_to_mulaw s) 255 (omega arith)) refl,
      encoded_near v e b small refl k x y,
    )
