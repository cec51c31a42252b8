-- ===== src/Prelude/Bits.antt =====
-- `^` of two numbers is zero only if they are equal, and one of them only if the other is zero.
use Prim.Native.Nat.{
  ℕ, zero, suc, ◌+◌, ◌*◌, ◌/◌, ◌%◌, ◌≤◌, differ, digits, bit_xor, bit_xor-bitwise,
}
use mathlib.Core.Path.{◌≡◌, refl}
use native.Mathlib.Omega.{arith}

abbrev xor_digits : ℕ → ℕ → ℕ → ℕ
xor_digits n a b = digits (λ d. d) differ n a b

-- Fuel beyond the first number changes nothing.
xor_digits_fuel : (n m a b : ℕ) → a ≤ n → a ≤ m → xor_digits n a b ≡ xor_digits m a b
xor_digits_fuel zero zero a b p q = refl
xor_digits_fuel zero (suc m) zero b p q = refl
xor_digits_fuel zero (suc m) (suc a) b p q = absurd (omega arith)
xor_digits_fuel (suc n) zero zero b p q = refl
xor_digits_fuel (suc n) zero (suc a) b p q = absurd (omega arith)
xor_digits_fuel (suc n) (suc m) zero b p q = refl
xor_digits_fuel (suc n) (suc m) (suc a) b p q =
    omega (arith, xor_digits_fuel n m (suc a / 2) (b / 2) (omega arith) (omega arith))

bit_xor-suc :
    (a b : ℕ) → bit_xor (suc a) b ≡ bit_xor (suc a / 2) (b / 2) * 2 + differ (suc a % 2) (b % 2)
bit_xor-suc a b = omega (
  arith,
  bit_xor-bitwise (suc a) b,
  bit_xor-bitwise (suc a / 2) (b / 2),
  xor_digits_fuel a (suc a / 2) (suc a / 2) (b / 2) (omega arith) (omega arith),
)

differ-eq-zero : (a b : ℕ) → differ a b ≡ 0 → a ≡ b
differ-eq-zero zero b h = omega arith
differ-eq-zero (suc a) zero h = h
differ-eq-zero (suc a) (suc b) h = omega (arith, differ-eq-zero a b h)

eq_fuel : (n a b : ℕ) → a ≤ n → bit_xor a b ≡ 0 → a ≡ b
eq_fuel n zero b le h = omega (arith, bit_xor-bitwise 0 b)
eq_fuel zero (suc a) b le h = absurd (omega arith)
eq_fuel (suc n) (suc a) b le h = omega (
  arith,
  bit_xor-suc a b,
  eq_fuel n (suc a / 2) (b / 2) (omega arith) (omega (arith, bit_xor-suc a b)),
  differ-eq-zero (suc a % 2) (b % 2) (omega (arith, bit_xor-suc a b)),
)

pub bit_xor-eq-zero : (a b : ℕ) → bit_xor a b ≡ 0 → a ≡ b
bit_xor-eq-zero a b h = eq_fuel a a b (omega arith) h

differ_same : (a b : ℕ) → b ≤ 1 → differ a b ≡ a → b ≡ 0
differ_same zero b le h = h
differ_same (suc a) zero le h = refl
differ_same (suc a) (suc (suc b)) le h = absurd (omega arith)
differ_same (suc zero) (suc zero) le h = absurd (omega arith)
differ_same (suc (suc a)) (suc zero) le h = absurd (omega arith)

differ_digit : (a b : ℕ) → a ≤ 1 → b ≤ 1 → differ a b ≤ 1
differ_digit zero b p q = q
differ_digit (suc a) zero p q = p
differ_digit (suc zero) (suc b) p q = omega arith
differ_digit (suc (suc a)) (suc b) p q = absurd (omega arith)

same_fuel : (n a b : ℕ) → a ≤ n → bit_xor a b ≡ a → b ≡ 0
same_fuel n zero b le h = omega (arith, eq_fuel n 0 b le h)
same_fuel zero (suc a) b le h = absurd (omega arith)
same_fuel (suc n) (suc a) b le h =
    let digit : differ (suc a % 2) (b % 2) ≤ 1 =
      differ_digit (suc a % 2) (b % 2) (omega arith) (omega arith) in
    omega (
      arith,
      same_fuel n (suc a / 2) (b / 2) (omega arith) (omega (arith, bit_xor-suc a b)),
      differ_same (suc a % 2) (b % 2) (omega arith) (omega (arith, bit_xor-suc a b)),
    )

pub bit_xor_same : (a b : ℕ) → bit_xor a b ≡ a → b ≡ 0
bit_xor_same a b h = same_fuel a a b (omega arith) h
