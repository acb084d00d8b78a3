-- ===== src/Base/Bits.antt =====
-- Exclusive or on numbers of any width, from the recursion on binary digits that it stands for.
use Prim.Native.Nat.{
  ◌-◌, ℕ, zero, suc, ◌+◌, ◌*◌, ◌/◌, ◌%◌, ◌^◌, ◌≤◌, ◌<◌, bit_xor, digits, differ, bit_xor-bitwise,
}
use mathlib.Core.Path.{◌≡◌, refl, sym, ◌∙◌, ap}
use native.Mathlib.Nat.{pow-suc}
use native.Mathlib.Omega.{arith}

abbrev xor_digits : ℕ → ℕ → ℕ → ℕ
xor_digits n a b = digits (λ y. y) differ n a b

xor_digits_fuel : (n m a b : ℕ) → a ≤ n → a ≤ m → xor_digits n a b ≡ xor_digits m a b
xor_digits_fuel zero zero a b p q = refl
xor_digits_fuel zero (suc m) zero b p q = refl
xor_digits_fuel zero (suc m) (suc a) b p q = absurd (omega arith)
xor_digits_fuel (suc n) zero zero b p q = refl
xor_digits_fuel (suc n) zero (suc a) b p q = absurd (omega arith)
xor_digits_fuel (suc n) (suc m) zero b p q = refl
xor_digits_fuel (suc n) (suc m) (suc a) b p q =
    omega (arith, xor_digits_fuel n m (suc a / 2) (b / 2) (omega arith) (omega arith))

pub zero-bit_xor : (b : ℕ) → bit_xor 0 b ≡ b
zero-bit_xor b = bit_xor-bitwise 0 b

-- the law for the lowest digit
pub bit_xor_step : (a b : ℕ) → bit_xor a b ≡ bit_xor (a / 2) (b / 2) * 2 + differ (a % 2) (b % 2)
bit_xor_step zero b = omega (arith, zero-bit_xor b, zero-bit_xor (b / 2))
bit_xor_step (suc a) b = omega (
  arith,
  bit_xor-bitwise (suc a) b,
  bit_xor-bitwise (suc a / 2) (b / 2),
  xor_digits_fuel a (suc a / 2) (suc a / 2) (b / 2) (omega arith) (omega arith),
)

differ_lem : (a b : ℕ) → differ a b ≡ (a - b) + (b - a)
differ_lem zero b = omega arith
differ_lem (suc a) zero = omega arith
differ_lem (suc a) (suc b) = omega (arith, differ_lem a b)

xor_cancel_fuel : (n a b : ℕ) → a ≤ n → b ≤ n → bit_xor a (bit_xor b a) ≡ b
xor_cancel_fuel zero zero b h k = omega (
  arith,
  zero-bit_xor (bit_xor b 0),
  zero-bit_xor 0,
  ap (λ t. bit_xor t 0) {x = b} {y = 0} (omega arith),
)
xor_cancel_fuel zero (suc a) b h k = absurd (omega arith)
xor_cancel_fuel (suc n) a b h k =
    let w = bit_xor (b / 2) (a / 2) in
    let e = bit_xor_step b a in
    let d = differ_lem (b % 2) (a % 2) in
    let half : bit_xor b a / 2 ≡ w = omega (arith, e, d) in
    omega (
      arith,
      e,
      d,
      bit_xor_step a (bit_xor b a),
      differ_lem (a % 2) (bit_xor b a % 2),
      ap (bit_xor (a / 2)) half,
      xor_cancel_fuel n (a / 2) (b / 2) (omega arith) (omega arith),
    )

-- `x ^ ( y ^ x )` is `y`.
pub xor_cancel : (a b : ℕ) → bit_xor a (bit_xor b a) ≡ b
xor_cancel a b = xor_cancel_fuel (a + b) a b (omega arith) (omega arith)

pub bit_xor-zero : (a : ℕ) → bit_xor a 0 ≡ a
bit_xor-zero a = sym (zero-bit_xor (bit_xor a 0)) ∙ xor_cancel 0 a

-- Exclusive or stays within the bits of its arguments.
pub bit_xor-lt : (k a b : ℕ) → a < 2 ^ k → b < 2 ^ k → bit_xor a b < 2 ^ k
bit_xor-lt zero a b h g =
    let a0 : a ≡ 0 = omega arith in
    let b0 : b ≡ 0 = omega arith in rw (a0, b0) (omega (arith, zero-bit_xor 0))
bit_xor-lt (suc k) a b h g = omega (
  arith,
  pow-suc 2 k,
  bit_xor_step a b,
  differ_lem (a % 2) (b % 2),
  bit_xor-lt k (a / 2) (b / 2) (omega (arith, pow-suc 2 k)) (omega (arith, pow-suc 2 k)),
)
