-- ===== src/Prelude/Bits.antt =====
-- `|` of a shifted field and a field that fits below it, as a sum.
use Prim.Native.Nat.{
  ℕ, zero, suc, ◌+◌, ◌*◌, ◌/◌, ◌%◌, ◌^◌, ◌≤◌, ◌<◌, max, bit_or, digits, bit_or-bitwise,
}
use mathlib.Core.Path.{◌≡◌, refl, ap}
use native.Mathlib.Nat.{pow-suc}
use native.Mathlib.Omega.{arith}

-- `x >> k` and `x & (2 ^ k - 1)`.
abbrev pub shr : ℕ → ℕ → ℕ
shr x k = x / 2 ^ k

abbrev pub low_bits : ℕ → ℕ → ℕ
low_bits x k = x % 2 ^ k

-- `x << k` of a value that stays within `unsigned int`.
abbrev pub shl : ℕ → ℕ → ℕ
shl x k = x * 2 ^ k

abbrev or_digits : ℕ → ℕ → ℕ → ℕ
or_digits fuel a b = digits (λ b. b) max fuel a b

-- Fuel beyond the first number changes nothing.
or_digits_fuel : (m n a b : ℕ) → a ≤ m → a ≤ n → or_digits m a b ≡ or_digits n a b
or_digits_fuel zero zero a b p q = refl
or_digits_fuel zero (suc n) zero b p q = refl
or_digits_fuel zero (suc n) (suc a) b p q = absurd (omega arith)
or_digits_fuel (suc m) zero zero b p q = refl
or_digits_fuel (suc m) zero (suc a) b p q = absurd (omega arith)
or_digits_fuel (suc m) (suc n) zero b p q = refl
or_digits_fuel (suc m) (suc n) (suc a) b p q =
    omega (arith, or_digits_fuel m n (suc a / 2) (b / 2) (omega arith) (omega arith))

-- The lowest digit of a disjunction, split off.
bit_or_step : (a b : ℕ) → bit_or a b ≡ bit_or (a / 2) (b / 2) * 2 + max (a % 2) (b % 2)
bit_or_step zero b = omega (arith, bit_or-bitwise 0 b, bit_or-bitwise 0 (b / 2))
bit_or_step (suc a) b = omega (
  arith,
  bit_or-bitwise (suc a) b,
  bit_or-bitwise (suc a / 2) (b / 2),
  or_digits_fuel a (suc a / 2) (suc a / 2) (b / 2) (omega arith) (omega arith),
)

bit_or-zero : (fuel a : ℕ) → a ≤ fuel → bit_or a 0 ≡ a
bit_or-zero fuel zero h = refl
bit_or-zero zero (suc a) h = absurd (omega arith)
bit_or-zero (suc fuel) (suc a) h =
    omega (arith, bit_or_step (suc a) 0, bit_or-zero fuel (suc a / 2) (omega arith))

-- A field shifted above another that fits `k` bits adds up with it.
pub bit_or-shl : (k hi lo : ℕ) → lo < 2 ^ k → bit_or (shl hi k) lo ≡ hi * 2 ^ k + lo
bit_or-shl zero hi lo h = ground (arith, bit_or-zero hi hi)
bit_or-shl (suc k) hi lo h =
    let double : hi * 2 ^ suc k ≡ 2 * (hi * 2 ^ k) =
      omega (arith, ap (λ (t : ℕ). hi * t) (pow-suc 2 k)) in
    ground (arith, double, pow-suc 2 k, bit_or_step (hi * 2 ^ suc k) lo, bit_or-shl k hi (lo / 2))
