-- ===== src/Base/Bits.antt =====
-- The bitwise or of a shifted number and one that fits below the shift is their sum, and the bytes
-- of a number put together again are the number.
use Prim.Native.Nat.{
  ℕ, zero, suc, ◌+◌, ◌*◌, ◌/◌, ◌%◌, ◌^◌, ◌≤◌, ◌<◌, max, bit_or, digits, bit_or-bitwise,
}
use mathlib.Core.Path.{◌≡◌, refl, ap}
use native.Mathlib.Nat.{pow-suc}
use native.Mathlib.Omega.{arith}

abbrev or_digits : ℕ → ℕ → ℕ → ℕ
or_digits n a b = digits (λ b. b) max n a b

or_digits_fuel : (n m a b : ℕ) → a ≤ n → a ≤ m → or_digits n a b ≡ or_digits m a b
or_digits_fuel zero zero a b p q = refl
or_digits_fuel zero (suc m) zero b p q = refl
or_digits_fuel zero (suc m) (suc a) b p q = absurd (omega arith)
or_digits_fuel (suc n) zero zero b p q = refl
or_digits_fuel (suc n) zero (suc a) b p q = absurd (omega arith)
or_digits_fuel (suc n) (suc m) zero b p q = refl
or_digits_fuel (suc n) (suc m) (suc a) b p q =
    omega (arith, or_digits_fuel n m (suc a / 2) (b / 2) (omega arith) (omega arith))

zero-bit_or : (b : ℕ) → bit_or 0 b ≡ b
zero-bit_or b = bit_or-bitwise 0 b

bit_or_step : (a b : ℕ) → bit_or a b ≡ bit_or (a / 2) (b / 2) * 2 + max (a % 2) (b % 2)
bit_or_step zero b = omega (arith, zero-bit_or b, zero-bit_or (b / 2))
bit_or_step (suc a) b = omega (
  arith,
  bit_or-bitwise (suc a) b,
  bit_or-bitwise (suc a / 2) (b / 2),
  or_digits_fuel a (suc a / 2) (suc a / 2) (b / 2) (omega arith) (omega arith),
)

bit_or-zero_fuel : (n a : ℕ) → a ≤ n → bit_or a 0 ≡ a
bit_or-zero_fuel n zero h = refl
bit_or-zero_fuel zero (suc a) h = absurd (omega arith)
bit_or-zero_fuel (suc n) (suc a) h =
    omega (arith, bit_or_step (suc a) 0, bit_or-zero_fuel n (suc a / 2) (omega arith))

shift_doubles : (k q : ℕ) → q * 2 ^ suc k ≡ q * 2 ^ k * 2
shift_doubles k q = omega (arith, ap (λ (t : ℕ). q * t) (pow-suc 2 k))

-- For r below the shift, q << k | r is the sum of the two fields.
pub bit_or_high_low : (k q r : ℕ) → r < 2 ^ k → bit_or (q * 2 ^ k) r ≡ q * 2 ^ k + r
bit_or_high_low zero q r h =
    let e : r ≡ 0 = omega arith in rw e (omega (arith, bit_or-zero_fuel (q * 1) (q * 1)))
bit_or_high_low (suc k) q r h = omega (
  arith,
  shift_doubles k q,
  bit_or_step (q * 2 ^ suc k) r,
  ap (λ (t : ℕ). bit_or t (r / 2)) half,
  bit_or_high_low k q (r / 2) (omega (arith, pow-suc 2 k)),
)
  where
    half : q * 2 ^ suc k / 2 ≡ q * 2 ^ k
    half = omega (arith, shift_doubles k q)

-- The same with the low field first, as r | q << k.
pub bit_or_low_high : (k q r : ℕ) → r < 2 ^ k → bit_or r (q * 2 ^ k) ≡ q * 2 ^ k + r
bit_or_low_high zero q r h =
    let e : r ≡ 0 = omega arith in rw e (omega (arith, zero-bit_or (q * 1)))
bit_or_low_high (suc k) q r h = omega (
  arith,
  shift_doubles k q,
  bit_or_step r (q * 2 ^ suc k),
  ap (bit_or (r / 2)) half,
  bit_or_low_high k q (r / 2) (omega (arith, pow-suc 2 k)),
)
  where
    half : q * 2 ^ suc k / 2 ≡ q * 2 ^ k
    half = omega (arith, shift_doubles k q)

-- b | c << 8, and the four bytes of a number, the high byte first.
pub or_two : (b c : ℕ) → b < 256 → bit_or (c * 2 ^ 8) b ≡ c * 2 ^ 8 + b
or_two b c h = bit_or_high_low 8 c b h

pub or_four :
    (a b c d : ℕ)
    → a < 256
    → b < 256
    → c < 256
    → bit_or (bit_or (bit_or (d * 2 ^ 24) (c * 2 ^ 16)) (b * 2 ^ 8)) a
      ≡ d * 2 ^ 24 + c * 2 ^ 16 + b * 2 ^ 8 + a
or_four a b c d ha hb hc =
    rw
      (
        bit_or_high_low 24 d (c * 2 ^ 16) (omega arith),
        top,
        bit_or_high_low 16 (d * 2 ^ 8 + c) (b * 2 ^ 8) (omega arith),
        mid,
        bit_or_high_low 8 (d * 2 ^ 16 + c * 2 ^ 8 + b) a (omega arith),
      )
      (omega arith)
  where
    top : d * 2 ^ 24 + c * 2 ^ 16 ≡ (d * 2 ^ 8 + c) * 2 ^ 16
    top = omega arith

    mid : (d * 2 ^ 8 + c) * 2 ^ 16 + b * 2 ^ 8 ≡ (d * 2 ^ 16 + c * 2 ^ 8 + b) * 2 ^ 8
    mid = omega arith
