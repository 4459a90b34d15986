-- ===== src/Base/Bits.antt =====
-- Laws of `bit_and` and `bit_or` at variables, by recursion on binary digits.
use Prim.Native.Nat.{
  ℕ, zero, suc, ◌+◌, ◌*◌, ◌/◌, ◌%◌, ◌≤◌, ◌<◌, min, max, bit_and, bit_or, digits, bitwise,
  bit_and-bitwise, bit_or-bitwise,
}
use mathlib.Core.Path.{◌≡◌, refl}
use native.Mathlib.Omega.{arith}

-- Any fuel from the number on gives the same digits.
module _ (tail : ℕ → ℕ) (digit : ℕ → ℕ → ℕ) where
  enough_digits :
      (n m : ℕ) (a b : ℕ) → (a ≤ n) × (a ≤ m) → digits tail digit m a b ≡ digits tail digit n a b
  enough_digits zero zero a b h = refl
  enough_digits zero (suc m) zero b h = refl
  enough_digits (suc n) zero zero b h = refl
  enough_digits (suc n) (suc m) zero b h = refl
  enough_digits zero (suc m) (suc a) b h = absurd (omega arith)
  enough_digits (suc n) zero (suc a) b h = absurd (omega arith)
  enough_digits (suc n) (suc m) (suc a) b h =
      omega (arith, enough_digits n m (suc a / 2) (b / 2) (omega arith))

  lowest_digit :
      (a b : ℕ)
      → bitwise tail digit (suc a) b
        ≡ bitwise tail digit (suc a / 2) (b / 2) * 2 + digit (suc a % 2) (b % 2)
  lowest_digit a b = omega (arith, enough_digits (suc a / 2) a (suc a / 2) (b / 2) (omega arith))

pub bit_and-half : (a b : ℕ) → bit_and a b ≡ bit_and (a / 2) (b / 2) * 2 + min (a % 2) (b % 2)
bit_and-half zero b = simp bit_and-bitwise (omega arith)
bit_and-half (suc a) b = simp bit_and-bitwise (lowest_digit (λ _. 0) min a b)

pub bit_or-half : (a b : ℕ) → bit_or a b ≡ bit_or (a / 2) (b / 2) * 2 + max (a % 2) (b % 2)
bit_or-half zero b = simp bit_or-bitwise (omega arith)
bit_or-half (suc a) b = simp bit_or-bitwise (lowest_digit (λ x. x) max a b)

-- n ones, and 2 ^ n
abbrev pub ones : ℕ → ℕ
ones zero = 0
ones (suc n) = ones n * 2 + 1

abbrev pub two_to : ℕ → ℕ
two_to zero = 1
two_to (suc n) = two_to n * 2

bit_and-zero_fuel : (n a : ℕ) → a ≤ n → bit_and a 0 ≡ 0
bit_and-zero_fuel zero zero h = refl
bit_and-zero_fuel zero (suc a) h = absurd (omega arith)
bit_and-zero_fuel (suc n) a h =
    omega (arith, bit_and-half a 0, bit_and-zero_fuel n (a / 2) (omega arith))

half_ones : (k : ℕ) → (k * 2 + 1) / 2 ≡ k
half_ones k = omega arith

-- A mask of n ones keeps what fits in n bits.
pub bit_and-ones : (n a : ℕ) → a < two_to n → bit_and a (ones n) ≡ a
bit_and-ones zero a h = omega (arith, bit_and-zero_fuel a a (omega arith))
bit_and-ones (suc n) a h =
    let halved = rw (half_ones (ones n)) at (bit_and-half a (ones n * 2 + 1)) in
    omega (arith, halved, bit_and-ones n (a / 2) (omega arith))

le-bit_or_fuel : (n a b : ℕ) → a ≤ n → a ≤ bit_or a b
le-bit_or_fuel zero a b h = omega arith
le-bit_or_fuel (suc n) a b h =
    omega (arith, bit_or-half a b, le-bit_or_fuel n (a / 2) (b / 2) (omega arith))

pub le-bit_or : (a b : ℕ) → a ≤ bit_or a b
le-bit_or a b = le-bit_or_fuel a a b (omega arith)

bit_or-zero_fuel : (n b : ℕ) → b ≤ n → bit_or 0 b ≡ b
bit_or-zero_fuel zero b h = let e : b ≡ 0 = omega arith in rw e refl
bit_or-zero_fuel (suc n) zero h = refl
bit_or-zero_fuel (suc n) (suc b) h =
    omega (arith, bit_or-half 0 (suc b), bit_or-zero_fuel n (suc b / 2) (omega arith))

bit_or-le_fuel : (n a b : ℕ) → a ≤ n → bit_or a b ≤ a + b
bit_or-le_fuel zero a b h =
    let e : a ≡ 0 = omega arith in rw e (omega (arith, bit_or-zero_fuel b b (omega arith)))
bit_or-le_fuel (suc n) a b h =
    omega (arith, bit_or-half a b, bit_or-le_fuel n (a / 2) (b / 2) (omega arith))

pub bit_or-le : (a b : ℕ) → bit_or a b ≤ a + b
bit_or-le a b = bit_or-le_fuel a a b (omega arith)
