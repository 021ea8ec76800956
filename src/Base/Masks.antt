-- ===== src/Base/Masks.antt =====
-- `&` of machine words with the masks of all bits and of none.
use Prim.Native.Nat.{
  ℕ, zero, suc, ◌+◌, ◌*◌, ◌/◌, ◌%◌, ◌≤◌, ◌<◌, min, bit_and, digits, bit_and-bitwise,
}
use mathlib.Core.Path.{◌≡◌, refl, ap, ◌∙◌}
use native.Mathlib.Omega.{arith}

abbrev and_digits : ℕ → ℕ → ℕ → ℕ
and_digits n a b = digits (λ b. zero) min n a b

and_digits_enough : (n m a b : ℕ) → a ≤ n → a ≤ m → and_digits n a b ≡ and_digits m a b
and_digits_enough zero zero a b p q = refl
and_digits_enough zero (suc m) zero b p q = refl
and_digits_enough zero (suc m) (suc a) b p q = absurd (omega arith)
and_digits_enough (suc n) zero zero b p q = refl
and_digits_enough (suc n) zero (suc a) b p q = absurd (omega arith)
and_digits_enough (suc n) (suc m) zero b p q = refl
and_digits_enough (suc n) (suc m) (suc a) b p q =
    omega (arith, and_digits_enough n m (suc a / 2) (b / 2) (omega arith) (omega arith))

zero-bit_and : (b : ℕ) → bit_and 0 b ≡ 0
zero-bit_and b = bit_and-bitwise 0 b

and_lowest : (a b : ℕ) → bit_and a b ≡ bit_and (a / 2) (b / 2) * 2 + min (a % 2) (b % 2)
and_lowest zero b = omega (arith, zero-bit_and b, zero-bit_and (b / 2))
and_lowest (suc a) b = omega (
  arith,
  bit_and-bitwise (suc a) b,
  bit_and-bitwise (suc a / 2) (b / 2),
  and_digits_enough a (suc a / 2) (suc a / 2) (b / 2) (omega arith) (omega arith),
)

none_below : (n a : ℕ) → a ≤ n → bit_and a 0 ≡ 0
none_below n zero h = zero-bit_and 0
none_below zero (suc a) h = absurd (omega arith)
none_below (suc n) (suc a) h =
    omega (arith, and_lowest (suc a) 0, none_below n (suc a / 2) (omega arith))

pub bit_and_zero : (a : ℕ) → bit_and a 0 ≡ 0
bit_and_zero a = none_below a a (omega arith)

-- One more bit of the mask keeps one more bit.
one_more : (a m : ℕ) → bit_and a (2 * m + 1) ≡ bit_and (a / 2) m * 2 + a % 2
one_more a m =
    let half : (2 * m + 1) / 2 ≡ m = omega arith in
    let bit : min (a % 2) ((2 * m + 1) % 2) ≡ a % 2 = omega arith in
    omega (
      arith,
      and_lowest a (2 * m + 1)
          ∙ ap (λ t. bit_and (a / 2) t * 2 + min (a % 2) ((2 * m + 1) % 2)) half,
      bit,
    )

pub bit_and_byte : (a : ℕ) → a < 256 → bit_and a 255 ≡ a
bit_and_byte a h = omega (
  arith,
  one_more a 127,
  one_more (a / 2) 63,
  one_more (a / 2 / 2) 31,
  one_more (a / 2 / 2 / 2) 15,
  one_more (a / 2 / 2 / 2 / 2) 7,
  one_more (a / 2 / 2 / 2 / 2 / 2) 3,
  one_more (a / 2 / 2 / 2 / 2 / 2 / 2) 1,
  one_more (a / 2 / 2 / 2 / 2 / 2 / 2 / 2) 0,
  bit_and_zero (a / 2 / 2 / 2 / 2 / 2 / 2 / 2 / 2),
)
