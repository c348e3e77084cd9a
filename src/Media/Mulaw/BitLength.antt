-- ===== src/Media/Mulaw/BitLength.antt =====
-- The bit length of a number between two powers of two.
use voxbench.Base.{ℕ, zero, suc, ◌*◌, ◌/◌, ◌≤◌, ◌<◌, ◌≡◌, refl, arith}
use voxbench.Media.Mulaw.{halvings, bit_length}

abbrev pub pow2 : ℕ → ℕ
pow2 zero = 1
pow2 (suc k) = 2 * pow2 k

halvings-zero : (fuel : ℕ) → halvings fuel 0 ≡ 0
unfolding halvings
halvings-zero zero = refl
halvings-zero (suc fuel) = refl

-- Fuel above k is enough below 2 ^ (k + 1).
halvings-eq : (fuel k n : ℕ) → k < fuel → pow2 k ≤ n → n < 2 * pow2 k → halvings fuel n ≡ suc k
unfolding halvings
halvings-eq zero k n f a b = absurd (omega arith)
halvings-eq (suc fuel) zero n f a b =
    let one : n ≡ 1 = omega arith in rw one (rw (halvings-zero fuel) refl)
halvings-eq (suc fuel) (suc k) n f a b =
    ground (arith, halvings-eq fuel k (n / 2) (omega arith) (omega arith) (omega arith))

below_pow2 : (k : ℕ) → k < pow2 k
below_pow2 zero = omega arith
below_pow2 (suc k) = omega (arith, below_pow2 k)

-- A number from 2 ^ k, and below 2 ^ (k + 1), has k + 1 bits.
pub bit_length-eq : (k n : ℕ) → pow2 k ≤ n → n < 2 * pow2 k → bit_length n ≡ suc k
unfolding bit_length
bit_length-eq k n a b = halvings-eq n k n (omega (arith, below_pow2 k)) a b
