-- ===== src/Base/Bits/Digits.antt =====
-- `bit_and` and `bit_or` on the lowest binary digit.
use Prim.Native.Nat.{
  ℕ, zero, suc, ◌+◌, ◌*◌, ◌/◌, ◌%◌, ◌≤◌, min, max, digits, bit_and, bit_or, bit_and-bitwise,
  bit_or-bitwise,
}
use mathlib.Core.Path.{◌≡◌, refl, ap}
use native.Mathlib.Omega.{arith}

module _ (rest : ℕ → ℕ) (d : ℕ → ℕ → ℕ) where
  -- The result is the same for every count of digits that covers the first number.
  digits-same : (i : ℕ) (a b j : ℕ) → a ≤ i → a ≤ j → digits rest d i a b ≡ digits rest d j a b
  digits-same zero zero b zero p q = refl
  digits-same zero zero b (suc j) p q = refl
  digits-same (suc i) zero b zero p q = refl
  digits-same (suc i) zero b (suc j) p q = refl
  digits-same zero (suc a) b j p q = absurd (omega arith)
  digits-same (suc i) (suc a) b zero p q = absurd (omega arith)
  digits-same (suc i) (suc a) b (suc j) p q =
      ap (λ t. t * 2 + d (suc a % 2) (b % 2))
        (digits-same i (suc a / 2) (b / 2) j (omega arith) (omega arith))

  digits-lowest :
      (a b : ℕ)
      → digits rest d (suc a) (suc a) b
        ≡ digits rest d (suc a / 2) (suc a / 2) (b / 2) * 2 + d (suc a % 2) (b % 2)
  digits-lowest a b =
      ap (λ t. t * 2 + d (suc a % 2) (b % 2))
        (digits-same a (suc a / 2) (b / 2) (suc a / 2) (omega arith) (omega arith))

pub and-digit : (a b : ℕ) → bit_and a b ≡ bit_and (a / 2) (b / 2) * 2 + min (a % 2) (b % 2)
and-digit zero b = simp bit_and-bitwise (omega arith)
and-digit (suc a) b = simp bit_and-bitwise (digits-lowest (λ _. 0) min a b)

pub or-digit : (a b : ℕ) → bit_or a b ≡ bit_or (a / 2) (b / 2) * 2 + max (a % 2) (b % 2)
or-digit zero b = simp bit_or-bitwise (omega arith)
or-digit (suc a) b = simp bit_or-bitwise (digits-lowest (λ n. n) max a b)
