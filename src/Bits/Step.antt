-- ===== src/Bits/Step.antt =====
-- One binary digit of `&`, `|` and `^`: each operation is its value on the halves, doubled, plus
-- its value on the lowest digits.
use Prim.Native.Nat.{digits, bitwise, differ, bit_and-bitwise, bit_or-bitwise, bit_xor-bitwise}
use bbk9588_emulator.Base.{
  ℕ, zero, suc, ◌+◌, ◌*◌, ◌/◌, ◌%◌, ◌≤◌, ◌≡◌, ◌<◌, refl, min, max, bit_and, bit_or, bit_xor, arith,
}

module _ (rest : ℕ → ℕ) (op : ℕ → ℕ → ℕ) where
  -- More digits than the number has make no difference.
  spare_digits : (m n a b : ℕ) → a ≤ m → a ≤ n → digits rest op m a b ≡ digits rest op n a b
  spare_digits zero zero a b p q = refl
  spare_digits zero (suc n) zero b p q = refl
  spare_digits (suc m) zero zero b p q = refl
  spare_digits (suc m) (suc n) zero b p q = refl
  spare_digits zero n (suc a) b p q = absurd (omega arith)
  spare_digits (suc m) zero (suc a) b p q = absurd (omega arith)
  spare_digits (suc m) (suc n) (suc a) b p q =
      omega (arith, spare_digits m n (suc a / 2) (b / 2) (omega arith) (omega arith))

  lowest_digit :
      (a b : ℕ)
      → rest b ≡ rest (b / 2) * 2 + op 0 (b % 2)
      → bitwise rest op a b ≡ bitwise rest op (a / 2) (b / 2) * 2 + op (a % 2) (b % 2)
  lowest_digit zero b h = h
  lowest_digit (suc a) b h =
      omega (arith, spare_digits a (suc a / 2) (suc a / 2) (b / 2) (omega arith) (omega arith))

pub bit_and_digit : (a b : ℕ) → bit_and a b ≡ bit_and (a / 2) (b / 2) * 2 + min (a % 2) (b % 2)
bit_and_digit a b = simp bit_and-bitwise (lowest_digit (λ y. 0) min a b (omega arith))

pub bit_or_digit : (a b : ℕ) → bit_or a b ≡ bit_or (a / 2) (b / 2) * 2 + max (a % 2) (b % 2)
bit_or_digit a b = simp bit_or-bitwise (lowest_digit (λ y. y) max a b (omega arith))

differ_digits : (x y : ℕ) → x < 2 → y < 2 → differ x y ≡ (x + y) % 2
differ_digits zero y p q = omega arith
differ_digits (suc zero) zero p q = omega arith
differ_digits (suc zero) (suc zero) p q = refl
differ_digits (suc zero) (suc (suc y)) p q = absurd (omega arith)
differ_digits (suc (suc x)) y p q = absurd (omega arith)

pub bit_xor_digit : (a b : ℕ) → bit_xor a b ≡ bit_xor (a / 2) (b / 2) * 2 + (a % 2 + b % 2) % 2
bit_xor_digit a b = rw (← differ_digits (a % 2) (b % 2) (omega arith) (omega arith)) (
    simp bit_xor-bitwise
      (lowest_digit (λ y. y) differ a b (omega (arith, differ_digits 0 (b % 2)))))
