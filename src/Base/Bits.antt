-- ===== src/Base/Bits.antt =====
-- Bit operations on words whose fields do not overlap, as arithmetic.
use Prim.Native.Nat.{
  ℕ, zero, suc, ◌+◌, ◌*◌, ◌/◌, ◌%◌, ◌^◌, ◌≤◌, ◌<◌, min, max, bit_and, bit_or, digits,
  bit_and-bitwise, bit_or-bitwise,
}
use mathlib.Core.Path.{◌≡◌, refl}
use native.Mathlib.Omega.{arith}
use native.Mathlib.Nat.{pow-suc}

-- `digits` with enough fuel does not depend on it.
digits_fuel :
    (g : ℕ → ℕ) (f : ℕ → ℕ → ℕ) (n m a b : ℕ) → a ≤ n → a ≤ m → digits g f n a b ≡ digits g f m a b
digits_fuel g f zero zero a b p q = refl
digits_fuel g f zero (suc m) zero b p q = refl
digits_fuel g f zero (suc m) (suc a) b p q = absurd (omega arith)
digits_fuel g f (suc n) zero zero b p q = refl
digits_fuel g f (suc n) zero (suc a) b p q = absurd (omega arith)
digits_fuel g f (suc n) (suc m) zero b p q = refl
digits_fuel g f (suc n) (suc m) (suc a) b p q =
    omega (arith, digits_fuel g f n m (suc a / 2) (b / 2) (omega arith) (omega arith))

or_step : (a b : ℕ) → bit_or a b ≡ bit_or (a / 2) (b / 2) * 2 + max (a % 2) (b % 2)
or_step zero b = omega (arith, bit_or-bitwise 0 b, bit_or-bitwise 0 (b / 2))
or_step (suc a) b = omega (
  arith,
  bit_or-bitwise (suc a) b,
  bit_or-bitwise (suc a / 2) (b / 2),
  digits_fuel (λ y. y) max a (suc a / 2) (suc a / 2) (b / 2) (omega arith) (omega arith),
)

and_step : (a b : ℕ) → bit_and a b ≡ bit_and (a / 2) (b / 2) * 2 + min (a % 2) (b % 2)
and_step zero b = omega (arith, bit_and-bitwise 0 b, bit_and-bitwise 0 (b / 2))
and_step (suc a) b = omega (
  arith,
  bit_and-bitwise (suc a) b,
  bit_and-bitwise (suc a / 2) (b / 2),
  digits_fuel (λ y. zero) min a (suc a / 2) (suc a / 2) (b / 2) (omega arith) (omega arith),
)

or_zero_bound : (n a : ℕ) → a ≤ n → bit_or a 0 ≡ a
or_zero_bound zero zero h = refl
or_zero_bound zero (suc a) h = absurd (omega arith)
or_zero_bound (suc n) zero h = refl
or_zero_bound (suc n) (suc a) h =
    omega (arith, or_step (suc a) 0, or_zero_bound n (suc a / 2) (omega arith))

and_zero_bound : (n a : ℕ) → a ≤ n → bit_and a 0 ≡ 0
and_zero_bound zero zero h = refl
and_zero_bound zero (suc a) h = absurd (omega arith)
and_zero_bound (suc n) zero h = refl
and_zero_bound (suc n) (suc a) h =
    omega (arith, and_step (suc a) 0, and_zero_bound n (suc a / 2) (omega arith))

-- A field below bit `k` under a word that starts at bit `k`.
pub or_low : (k hi lo : ℕ) → lo < 2 ^ k → bit_or (hi * 2 ^ k) lo ≡ hi * 2 ^ k + lo
or_low zero hi lo h = grind (arith, or_zero_bound hi hi (omega arith))
or_low (suc k) hi lo h =
    let twice : 2 ^ suc k ≡ 2 ^ k * 2 = pow-suc 2 k in
    let double : hi * 2 ^ suc k ≡ hi * 2 ^ k * 2 = rw twice (grind arith) in
    let half : hi * 2 ^ suc k / 2 ≡ hi * 2 ^ k = omega (arith, double) in
    let last : hi * 2 ^ suc k % 2 ≡ 0 = omega (arith, double) in
    ground (
      arith,
      double,
      half,
      last,
      or_step (hi * 2 ^ suc k) lo,
      or_low k hi (lo / 2) (omega (arith, twice)),
    )

and_odd : (a m : ℕ) → bit_and a (2 * m + 1) ≡ bit_and (a / 2) m * 2 + a % 2
and_odd a m = ground (arith, and_step a (2 * m + 1))

and_mask4 : (a : ℕ) → bit_and a 0xf ≡ a % 16
and_mask4 a = omega (
  arith,
  and_odd a 7,
  and_odd (a / 2) 3,
  and_odd (a / 2 / 2) 1,
  and_odd (a / 2 / 2 / 2) 0,
  and_zero_bound (a / 2 / 2 / 2 / 2) (a / 2 / 2 / 2 / 2) (omega arith),
)

-- The mask of the low byte.
pub and_mask8 : (a : ℕ) → bit_and a 0xff ≡ a % 256
and_mask8 a = omega (
  arith,
  and_odd a 0x7f,
  and_odd (a / 2) 0x3f,
  and_odd (a / 2 / 2) 0x1f,
  and_odd (a / 2 / 2 / 2) 0xf,
  and_mask4 (a / 2 / 2 / 2 / 2),
)
