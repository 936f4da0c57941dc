-- ===== src/Prelude/Words.antt =====
-- Words as native numbers: `|` of disjoint fields and `&` with a low mask as arithmetic.
use Prim.Native.Nat.{
  ℕ, zero, suc, ◌+◌, ◌*◌, ◌/◌, ◌%◌, ◌^◌, ◌-◌, ◌≤◌, ◌<◌, min, max, bit_and, bit_or, digits,
  bit_and-bitwise, bit_or-bitwise,
}
use mathlib.Core.Path.{◌≡◌, refl, ap}
use native.Mathlib.Nat.{pow-suc}
use native.Mathlib.Omega.{arith}
use cpp_oj_vbcoding_teach.Prelude.Tests.{ltb, if◌then◌else◌}

-- x << k on a 32-bit word.
abbrev pub shl32 : ℕ → ℕ → ℕ
shl32 x k = x * 2 ^ k % 2 ^ 32

-- x >> k on an `int` whose bit pattern is x: the sign bit is copied into the vacated places.
abbrev pub sar32 : ℕ → ℕ → ℕ
sar32 x k = if ltb x (2 ^ 31) then x / 2 ^ k else (x + (2 ^ k - 1) * 2 ^ 32) / 2 ^ k

module _ (z : ℕ → ℕ) (f : ℕ → ℕ → ℕ) where
  -- Any fuel that covers the first word gives the same digits.
  digits_enough : (m n a b : ℕ) → a ≤ m → a ≤ n → digits z f m a b ≡ digits z f n a b
  digits_enough zero zero a b hm hn = refl
  digits_enough zero (suc n) zero b hm hn = refl
  digits_enough zero (suc n) (suc a) b hm hn = absurd (omega arith)
  digits_enough (suc m) zero zero b hm hn = refl
  digits_enough (suc m) zero (suc a) b hm hn = absurd (omega arith)
  digits_enough (suc m) (suc n) zero b hm hn = refl
  digits_enough (suc m) (suc n) (suc a) b hm hn =
      rw (digits_enough m n (suc a / 2) (b / 2) (omega arith) (omega arith))

-- The lowest binary digit of `|` and of `&`.
bit_or-halve : (a b : ℕ) → bit_or a b ≡ bit_or (a / 2) (b / 2) * 2 + max (a % 2) (b % 2)
bit_or-halve zero b = omega (arith, bit_or-bitwise 0 b, bit_or-bitwise 0 (b / 2))
bit_or-halve (suc a) b = omega (
  arith,
  bit_or-bitwise (suc a) b,
  bit_or-bitwise (suc a / 2) (b / 2),
  digits_enough (λ y. y) max a (suc a / 2) (suc a / 2) (b / 2) (omega arith) (omega arith),
)

bit_and-halve : (a b : ℕ) → bit_and a b ≡ bit_and (a / 2) (b / 2) * 2 + min (a % 2) (b % 2)
bit_and-halve zero b = omega (arith, bit_and-bitwise 0 b, bit_and-bitwise 0 (b / 2))
bit_and-halve (suc a) b = omega (
  arith,
  bit_and-bitwise (suc a) b,
  bit_and-bitwise (suc a / 2) (b / 2),
  digits_enough (λ y. 0) min a (suc a / 2) (suc a / 2) (b / 2) (omega arith) (omega arith),
)

bit_or-zero_below : (n a : ℕ) → a ≤ n → bit_or a 0 ≡ a
bit_or-zero_below n zero h = refl
bit_or-zero_below zero (suc a) h = absurd (omega arith)
bit_or-zero_below (suc n) (suc a) h =
    omega (arith, bit_or-halve (suc a) 0, bit_or-zero_below n (suc a / 2) (omega arith))

bit_and-zero_below : (n a : ℕ) → a ≤ n → bit_and a 0 ≡ 0
bit_and-zero_below n zero h = refl
bit_and-zero_below zero (suc a) h = absurd (omega arith)
bit_and-zero_below (suc n) (suc a) h =
    omega (arith, bit_and-halve (suc a) 0, bit_and-zero_below n (suc a / 2) (omega arith))

-- `(q << k) | r` is a sum when `r` has at most k bits.
pub bit_or_disjoint : (k q r : ℕ) → r < 2 ^ k → bit_or (q * 2 ^ k) r ≡ q * 2 ^ k + r
bit_or_disjoint zero q r h = ground (arith, bit_or-zero_below q q)
bit_or_disjoint (suc k) q r h = omega (
  arith,
  pow-suc 2 k,
  ap (λ (t : ℕ). q * t) (pow-suc 2 k),
  bit_or-halve (q * 2 ^ suc k) r,
  bit_or_disjoint k q (r / 2) (omega (arith, pow-suc 2 k)),
  ap (λ (t : ℕ). bit_or t (r / 2)) (halved k q),
)
  where
    halved : (k q : ℕ) → q * 2 ^ suc k / 2 ≡ q * 2 ^ k
    halved k q = omega (arith, ap (λ (t : ℕ). q * t) (pow-suc 2 k))

low_1 : (x : ℕ) → bit_and x 0x1 ≡ x % 2
low_1 x = omega (arith, bit_and-zero_below (x / 2) (x / 2), bit_and-halve x 1)

low_3 : (x : ℕ) → bit_and x 0x3 ≡ x % 4
low_3 x = omega (arith, low_1 (x / 2), bit_and-halve x 3)

low_4 : (x : ℕ) → bit_and x 0xf ≡ x % 16
low_4 x = omega (arith, low_3 (x / 2 / 2), bit_and-halve (x / 2) 7, bit_and-halve x 15)

-- The masks of the program are remainders.
pub bit_and_0x3f : (x : ℕ) → bit_and x 0x3f ≡ x % 64
bit_and_0x3f x = omega (arith, low_4 (x / 2 / 2), bit_and-halve (x / 2) 31, bit_and-halve x 63)

pub bit_and_0xff : (x : ℕ) → bit_and x 0xff ≡ x % 256
bit_and_0xff x =
    omega (arith, bit_and_0x3f (x / 2 / 2), bit_and-halve (x / 2) 127, bit_and-halve x 255)
