-- ===== src/Prelude/Bits.antt =====
-- `&` with 0xFF and `|` of a low byte with a shifted byte, as arithmetic.
use Prim.Native.Nat.{
  ℕ, zero, suc, ◌+◌, ◌*◌, ◌/◌, ◌%◌, ◌^◌, ◌≤◌, ◌<◌, min, max, bit_and, bit_or, digits,
  bit_and-bitwise, bit_or-bitwise,
}
use mathlib.Core.Path.{◌≡◌, refl, ap}
use native.Mathlib.Nat.{pow-suc}
use native.Mathlib.Omega.{arith}

-- The digit recursion behind the native operations does not depend on its fuel.
module _ (z : ℕ → ℕ) (f : ℕ → ℕ → ℕ) where
  digits_fuel_irrel : (n m a b : ℕ) → a ≤ n → a ≤ m → digits z f n a b ≡ digits z f m a b
  digits_fuel_irrel zero zero a b p q = refl
  digits_fuel_irrel zero (suc m) zero b p q = refl
  digits_fuel_irrel zero (suc m) (suc a) b p q = absurd (omega arith)
  digits_fuel_irrel (suc n) zero zero b p q = refl
  digits_fuel_irrel (suc n) zero (suc a) b p q = absurd (omega arith)
  digits_fuel_irrel (suc n) (suc m) zero b p q = refl
  digits_fuel_irrel (suc n) (suc m) (suc a) b p q =
      omega (arith, digits_fuel_irrel n m (suc a / 2) (b / 2) (omega arith) (omega arith))

and_digit : (a b : ℕ) → bit_and a b ≡ bit_and (a / 2) (b / 2) * 2 + min (a % 2) (b % 2)
and_digit zero b = omega (arith, bit_and-bitwise 0 b, bit_and-bitwise 0 (b / 2))
and_digit (suc a) b = omega (
  arith,
  bit_and-bitwise (suc a) b,
  bit_and-bitwise (suc a / 2) (b / 2),
  digits_fuel_irrel (λ x. 0) min a (suc a / 2) (suc a / 2) (b / 2) (omega arith) (omega arith),
)

or_digit : (a b : ℕ) → bit_or a b ≡ bit_or (a / 2) (b / 2) * 2 + max (a % 2) (b % 2)
or_digit zero b = omega (arith, bit_or-bitwise 0 b, bit_or-bitwise 0 (b / 2))
or_digit (suc a) b = omega (
  arith,
  bit_or-bitwise (suc a) b,
  bit_or-bitwise (suc a / 2) (b / 2),
  digits_fuel_irrel (λ x. x) max a (suc a / 2) (suc a / 2) (b / 2) (omega arith) (omega arith),
)

zero-bit_or : (b : ℕ) → bit_or 0 b ≡ b
zero-bit_or b = bit_or-bitwise 0 b

half_shift : (k l : ℕ) → l * 2 ^ suc k / 2 ≡ l * 2 ^ k
half_shift k l = omega (arith, ap (λ (t : ℕ). l * t) (pow-suc 2 k))

-- `h | l << k`, where h fits k bits.
bit_or_low : (k h l : ℕ) → h < 2 ^ k → bit_or h (l * 2 ^ k) ≡ h + l * 2 ^ k
bit_or_low zero zero l p = omega (arith, zero-bit_or (l * 1))
bit_or_low zero (suc h) l p = absurd (omega arith)
bit_or_low (suc k) h l p = omega (
  arith,
  ap (λ (t : ℕ). l * t) (pow-suc 2 k),
  pow-suc 2 k,
  or_digit h (l * 2 ^ suc k),
  ap (λ (t : ℕ). bit_or (h / 2) t) (half_shift k l),
  bit_or_low k (h / 2) l (omega (arith, pow-suc 2 k)),
)

pub bit_or_bytes : (h l : ℕ) → h < 256 → bit_or h (l * 256) ≡ h + l * 256
bit_or_bytes = bit_or_low 8

zero-bit_or_right : (n a : ℕ) → a ≤ n → bit_or a 0 ≡ a
zero-bit_or_right n zero h = zero-bit_or 0
zero-bit_or_right zero (suc a) h = absurd (omega arith)
zero-bit_or_right (suc n) (suc a) h =
    omega (arith, or_digit (suc a) 0, zero-bit_or_right n (suc a / 2) (omega arith))

-- `l << k | h`, where h fits k bits.
bit_or_high : (k h l : ℕ) → h < 2 ^ k → bit_or (l * 2 ^ k) h ≡ h + l * 2 ^ k
bit_or_high zero zero l p = omega (arith, zero-bit_or_right (l * 1) (l * 1) (omega arith))
bit_or_high zero (suc h) l p = absurd (omega arith)
bit_or_high (suc k) h l p = omega (
  arith,
  ap (λ (t : ℕ). l * t) (pow-suc 2 k),
  pow-suc 2 k,
  or_digit (l * 2 ^ suc k) h,
  ap (λ (t : ℕ). bit_or t (h / 2)) (half_shift k l),
  bit_or_high k (h / 2) l (omega (arith, pow-suc 2 k)),
)

pub bit_or_high_byte : (h l : ℕ) → h < 256 → bit_or (l * 256) h ≡ h + l * 256
bit_or_high_byte = bit_or_high 8

zero_mask : (a : ℕ) → bit_and a 0 ≡ 0
zero_mask a = go a a (omega arith)
  where
    go : (n a : ℕ) → a ≤ n → bit_and a 0 ≡ 0
    go n zero h = bit_and-bitwise 0 0
    go zero (suc a) h = absurd (omega arith)
    go (suc n) (suc a) h = omega (arith, and_digit (suc a) 0, go n (suc a / 2) (omega arith))

-- One step of a mask whose lowest digit is 1.
mask_digit : (a m : ℕ) → bit_and a (m * 2 + 1) ≡ bit_and (a / 2) m * 2 + a % 2
mask_digit a m =
    omega (arith, and_digit a (m * 2 + 1), ap (λ (t : ℕ). bit_and (a / 2) t) (odd-div m))
  where
    odd-div : (m : ℕ) → (m * 2 + 1) / 2 ≡ m
    odd-div m = omega arith

nibble_mask : (a : ℕ) → bit_and a 15 ≡ a % 16
nibble_mask a = omega (
  arith,
  mask_digit a 7,
  mask_digit (a / 2) 3,
  mask_digit (a / 2 / 2) 1,
  mask_digit (a / 2 / 2 / 2) 0,
  zero_mask (a / 2 / 2 / 2 / 2),
)

pub bit_and_byte : (a : ℕ) → bit_and a 255 ≡ a % 256
bit_and_byte a = omega (
  arith,
  mask_digit a 127,
  mask_digit (a / 2) 63,
  mask_digit (a / 2 / 2) 31,
  mask_digit (a / 2 / 2 / 2) 15,
  nibble_mask (a / 2 / 2 / 2 / 2),
)
