-- ===== src/Base/Bits.antt =====
-- The bit operations on fields of a word: cut both words at the same place, and the operation
-- works on the two parts by themselves.
mod Digits
use Digits.{and-digit, or-digit}
use Prim.Native.Nat.{
  ℕ, zero, suc, ◌+◌, ◌-◌, ◌*◌, ◌/◌, ◌%◌, ◌^◌, ◌≤◌, ◌<◌, min, max, bit_and, bit_or,
}
use Prim.Native.Nat.{bit_or-bitwise}
use mathlib.Core.Path.{◌≡◌, refl, ap}
use native.Mathlib.Nat.{pow-suc, one-le-pow}
use native.Mathlib.Omega.{arith}

double : (q k : ℕ) → q * 2 ^ suc k ≡ q * 2 ^ k * 2
double q k = omega (arith, ap (λ (t : ℕ). q * t) (pow-suc 2 k))

module _ (op d : ℕ → ℕ → ℕ)
    (digit : (a b : ℕ) → op a b ≡ op (a / 2) (b / 2) * 2 + d (a % 2) (b % 2)) where
  fields :
      (k q r s t : ℕ)
      → r < 2 ^ k
      → t < 2 ^ k
      → op (q * 2 ^ k + r) (s * 2 ^ k + t) ≡ op q s * 2 ^ k + op r t
  fields zero q r s t hr ht = ground (arith, digit 0 0)
  fields (suc k) q r s t hr ht = ground (
    arith,
    double q k,
    double s k,
    double (op q s) k,
    digit (q * 2 ^ suc k + r) (s * 2 ^ suc k + t),
    digit r t,
    pow-suc 2 k,
    fields k q (r / 2) s (t / 2),
  )

and_fields :
    (k q r s t : ℕ)
    → r < 2 ^ k
    → t < 2 ^ k
    → bit_and (q * 2 ^ k + r) (s * 2 ^ k + t) ≡ bit_and q s * 2 ^ k + bit_and r t
and_fields = fields bit_and min and-digit

or_fields :
    (k q r s t : ℕ)
    → r < 2 ^ k
    → t < 2 ^ k
    → bit_or (q * 2 ^ k + r) (s * 2 ^ k + t) ≡ bit_or q s * 2 ^ k + bit_or r t
or_fields = fields bit_or max or-digit

and_zero_upto : (n a : ℕ) → a ≤ n → bit_and a 0 ≡ 0
and_zero_upto zero zero h = refl
and_zero_upto zero (suc a) h = absurd (omega arith)
and_zero_upto (suc n) a h = omega (arith, and-digit a 0, and_zero_upto n (a / 2))

and_zero : (a : ℕ) → bit_and a 0 ≡ 0
and_zero a = and_zero_upto a a (omega arith)

or_zero_upto : (n a : ℕ) → a ≤ n → bit_or a 0 ≡ a
or_zero_upto zero zero h = refl
or_zero_upto zero (suc a) h = absurd (omega arith)
or_zero_upto (suc n) a h = omega (arith, or-digit a 0, or_zero_upto n (a / 2))

or_zero : (a : ℕ) → bit_or a 0 ≡ a
or_zero a = or_zero_upto a a (omega arith)

zero_or : (a : ℕ) → bit_or 0 a ≡ a
zero_or a = simp bit_or-bitwise

and_one : (a : ℕ) → bit_and a 1 ≡ a % 2
and_one a = omega (arith, and-digit a 1, and_zero (a / 2))

or_one : (a : ℕ) → bit_or a 1 ≡ a / 2 * 2 + 1
or_one a = omega (arith, or-digit a 1, or_zero (a / 2))

-- A mask of ones keeps what it covers.
and_ones : (k r : ℕ) → r < 2 ^ k → bit_and r (2 ^ k - 1) ≡ r
and_ones zero r h = ground (arith, and_zero r)
and_ones (suc k) r h =
    ground (arith, pow-suc 2 k, one-le-pow k 2, and-digit r (2 ^ suc k - 1), and_ones k (r / 2))

-- The laws that the flags of a page need, for bit 15 and the upper half of a 32-bit word.
pub and_bit15 : (f : ℕ) → bit_and f (2 ^ 15) ≡ f / 2 ^ 15 % 2 * 2 ^ 15
and_bit15 f = ground (
  arith,
  and_fields 15 (f / 2 ^ 15) (f % 2 ^ 15) 1 0,
  and_one (f / 2 ^ 15),
  and_zero (f % 2 ^ 15),
)

pub or_bit15 : (f : ℕ) → bit_or f (2 ^ 15) ≡ f / 2 ^ 16 * 2 ^ 16 + 2 ^ 15 + f % 2 ^ 15
or_bit15 f =
    ground
      (arith, or_fields 15 (f / 2 ^ 15) (f % 2 ^ 15) 1 0, or_one (f / 2 ^ 15), or_zero (f % 2 ^ 15))

pub and_low16 : (f : ℕ) → bit_and f 0xffff ≡ f % 2 ^ 16
and_low16 f = ground (
  arith,
  and_fields 16 (f / 2 ^ 16) (f % 2 ^ 16) 0 0xffff,
  and_zero (f / 2 ^ 16),
  and_ones 16 (f % 2 ^ 16),
)

-- ~(1 << 15), as a 32-bit word
pub and_not15 : (f : ℕ) → f < 2 ^ 32 → bit_and f 0xffff7fff ≡ f / 2 ^ 16 * 2 ^ 16 + f % 2 ^ 15
and_not15 f h = ground (
  arith,
  and_fields 16 (f / 2 ^ 16) (f % 2 ^ 16) 0xffff 0x7fff,
  and_ones 16 (f / 2 ^ 16),
  and_fields 15 (f % 2 ^ 16 / 2 ^ 15) (f % 2 ^ 15) 0 0x7fff,
  and_zero (f % 2 ^ 16 / 2 ^ 15),
  and_ones 15 (f % 2 ^ 15),
)

pub or_high16 : (r q : ℕ) → r < 2 ^ 16 → bit_or r (q * 2 ^ 16) ≡ q * 2 ^ 16 + r
or_high16 r q h = ground (arith, or_fields 16 0 r q 0, zero_or q, or_zero r)
