-- ===== src/Wire/Bits.antt =====
-- `v << 8 | b` on unsigned patterns: a byte put under a shifted value is a sum.
use Prim.Native.Nat.{max, bit_or, digits, bit_or-bitwise}
use communication_network.Base.{ℕ, zero, suc, ◌+◌, ◌*◌, ◌/◌, ◌%◌, ◌≤◌, ◌<◌, ◌≡◌, refl, arith}

abbrev or_digits : ℕ → ℕ → ℕ → ℕ
or_digits n a b = digits (λ b. b) max n a b

or_digits_fuel : (n m a b : ℕ) → a ≤ n → a ≤ m → or_digits n a b ≡ or_digits m a b
or_digits_fuel zero zero a b p q = refl
or_digits_fuel zero (suc m) zero b p q = refl
or_digits_fuel zero (suc m) (suc a) b p q = absurd (omega arith)
or_digits_fuel (suc n) zero zero b p q = refl
or_digits_fuel (suc n) zero (suc a) b p q = absurd (omega arith)
or_digits_fuel (suc n) (suc m) zero b p q = refl
or_digits_fuel (suc n) (suc m) (suc a) b p q =
    omega (arith, or_digits_fuel n m (suc a / 2) (b / 2) (omega arith) (omega arith))

zero-bit_or : (b : ℕ) → bit_or 0 b ≡ b
zero-bit_or b = bit_or-bitwise 0 b

bit_or_step : (a b : ℕ) → bit_or a b ≡ bit_or (a / 2) (b / 2) * 2 + max (a % 2) (b % 2)
bit_or_step zero b = omega (arith, zero-bit_or b, zero-bit_or (b / 2))
bit_or_step (suc a) b = omega (
  arith,
  bit_or-bitwise (suc a) b,
  bit_or-bitwise (suc a / 2) (b / 2),
  or_digits_fuel a (suc a / 2) (suc a / 2) (b / 2) (omega arith) (omega arith),
)

bit_or-zero_fuel : (n a : ℕ) → a ≤ n → bit_or a 0 ≡ a
bit_or-zero_fuel n zero h = refl
bit_or-zero_fuel zero (suc a) h = absurd (omega arith)
bit_or-zero_fuel (suc n) (suc a) h =
    omega (arith, bit_or_step (suc a) 0, bit_or-zero_fuel n (suc a / 2) (omega arith))

-- One bit at a time: the lowest of `a * 2 ^ k` is 0, that of `b` comes through.
bit_or_double : (a b : ℕ) → bit_or (a * 2) b ≡ bit_or a (b / 2) * 2 + b % 2
bit_or_double a b = omega (arith, bit_or_step (a * 2) b, bit_or_half)
  where
    bit_or_half : bit_or (a * 2 / 2) (b / 2) ≡ bit_or a (b / 2)
    bit_or_half = rw (half a)
      where
        half : (a : ℕ) → a * 2 / 2 ≡ a
        half a = omega arith

bit_or_quad : (a b : ℕ) → bit_or (a * 4) b ≡ bit_or a (b / 4) * 4 + b % 4
bit_or_quad a b =
    let four : a * 4 ≡ a * 2 * 2 = omega arith in
    let quarter : b / 2 / 2 ≡ b / 4 = omega arith in
    rw (four, bit_or_double (a * 2) b, bit_or_double a (b / 2), quarter) (omega arith)

bit_or_nibble : (a b : ℕ) → bit_or (a * 16) b ≡ bit_or a (b / 16) * 16 + b % 16
bit_or_nibble a b =
    let sixteen : a * 16 ≡ a * 4 * 4 = omega arith in
    let sixteenth : b / 4 / 4 ≡ b / 16 = omega arith in
    rw (sixteen, bit_or_quad (a * 4) b, bit_or_quad a (b / 4), sixteenth) (omega arith)

pub bit_or_byte : (a b : ℕ) → b < 256 → bit_or (a * 256) b ≡ a * 256 + b
bit_or_byte a b h =
    let split : a * 256 ≡ a * 16 * 16 = omega arith in
    let none_left : b / 16 / 16 ≡ 0 = omega arith in
    rw (split, bit_or_nibble (a * 16) b, bit_or_nibble a (b / 16), none_left)
      (omega (arith, bit_or-zero_fuel a a (omega arith)))

pub bit_or_half_byte : (a b : ℕ) → b < 16 → bit_or (a * 16) b ≡ a * 16 + b
bit_or_half_byte a b h =
    let none_left : b / 16 ≡ 0 = omega arith in
    rw (bit_or_nibble a b, none_left) (omega (arith, bit_or-zero_fuel a a (omega arith)))
