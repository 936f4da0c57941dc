-- ===== src/Prelude/Parse.antt =====
-- `std::stoi`, and that it reads what `std::to_string` prints.
use Prim.Native.Nat.{ℕ, zero, suc, ◌+◌, ◌-◌, ◌*◌, ◌/◌, ◌%◌, ◌^◌, ◌≤◌, ◌<◌}
use mathlib.Core.Path.{◌≡◌, ap, ◌∙◌}
use mathlib.Core.Logic.{inl, inr}
use mathlib.Core.Bool.{Bool, false, ◌&&◌, ◌||◌}
use mathlib.Core.Option.{Option, none, some}
use mathlib.Core.List.{[], ◌∷◌}
use native.Mathlib.Omega.{arith}
use cpp_oj_vbcoding_teach.Prelude.Int.{ℤ, pos, negsuc, to_string}
use cpp_oj_vbcoding_teach.Prelude.Tests.{ltb, ltb→lt, leb, ◌==◌, if◌then◌else◌, Bool-cases}
use cpp_oj_vbcoding_teach.Prelude.Lists.{All}
use cpp_oj_vbcoding_teach.Prelude.Text.{Bytes, decimal, decimal_digits}

abbrev is_digit : ℕ → Bool
is_digit c = leb b'0' c && leb c b'9'

-- `isspace` in the C locale.
abbrev is_space : ℕ → Bool
is_space c = c == 32 || (leb 9 c && leb c 13)

-- The number that the digits at the front continue.
unfoldable pub read_digits : ℕ → Bytes → ℕ
read_digits n [] = n
read_digits n (c ∷ s) =
    let rest = read_digits (n * 10 + (c - b'0')) s in if is_digit c then rest else n

unfoldable pub starts_digit : Bytes → Bool
starts_digit [] = false
starts_digit (c ∷ s) = is_digit c

-- A value outside of `int` is std::out_of_range, no digit is std::invalid_argument: `none`.
unfoldable pub positive : Bytes → Option ℤ
positive s =
    if starts_digit s && ltb (read_digits 0 s) (2 ^ 31) then some (pos (read_digits 0 s)) else none

abbrev negate : ℕ → ℤ
negate zero = pos zero
negate (suc n) = negsuc n

unfoldable pub negative : Bytes → Option ℤ
negative s =
    if starts_digit s && leb (read_digits 0 s) (2 ^ 31)
    then some (negate (read_digits 0 s))
    else none

unfoldable pub signed : Bytes → Option ℤ
signed [] = none
signed (c ∷ s) =
    if c == b'-' then negative s else if c == b'+' then positive s else positive (c ∷ s)

unfoldable pub stoi : Bytes → Option ℤ
stoi [] = none
stoi (c ∷ s) = let rest = stoi s in if is_space c then rest else signed (c ∷ s)

-- The values of `int`.
abbrev pub IsInt : ℤ → Type 0
IsInt (pos n) = n < 2 ^ 31
IsInt (negsuc n) = n < 2 ^ 31

ltb_false→le : (a b : ℕ) → ltb a b ≡ false → b ≤ a
ltb_false→le a b h = ground arith

read_digits-digit :
    (m d : ℕ) (out : Bytes)
    → d < 10
    → read_digits m ((b'0' + d) ∷ out) ≡ read_digits (m * 10 + d) out
unfolding read_digits
read_digits-digit m d out h = ground (arith, digit_value)
  where
    digit_value : m * 10 + (b'0' + d - b'0') ≡ m * 10 + d
    digit_value = omega arith

read_digits-decimal_digits :
    (fuel n : ℕ) (out : Bytes)
    → n < fuel
    → read_digits 0 (decimal_digits fuel n out) ≡ read_digits n out
unfolding decimal_digits
read_digits-decimal_digits zero n out h = absurd (omega arith)
read_digits-decimal_digits (suc fuel) n out h = elim (Bool-cases (ltb n 10)) [
  | inl e ↦
      let low : n < 10 = ltb→lt n 10 e in
      let whole : 0 * 10 + n ≡ n = omega arith in
      rw (decimal_digits, e) (read_digits-digit 0 n out low ∙ ap (λ m. read_digits m out) whole)
  | inr e ↦
      let high : 10 ≤ n = ltb_false→le n 10 e in
      let rest = read_digits-decimal_digits fuel (n / 10) ((b'0' + n % 10) ∷ out) (omega arith) in
      let whole : n / 10 * 10 + n % 10 ≡ n = omega arith in
      rw (decimal_digits, e)
        (rest
          ∙ read_digits-digit (n / 10) (n % 10) out (omega arith)
          ∙ ap (λ m. read_digits m out) whole)
]

-- A digit stands in front.
abbrev IsNumeral : Bytes → Type 0
IsNumeral [] = ⊥
IsNumeral (c ∷ s) = (b'0' ≤ c) × (c ≤ b'9')

decimal_digits-IsNumeral :
    (fuel n c : ℕ) (out : Bytes) → b'0' ≤ c → c ≤ b'9' → IsNumeral (decimal_digits fuel n (c ∷ out))
unfolding decimal_digits
decimal_digits-IsNumeral zero n c out low high = (low, high)
decimal_digits-IsNumeral (suc fuel) n c out low high = elim (Bool-cases (ltb n 10)) [
  | inl e ↦ let small : n < 10 = ltb→lt n 10 e in rw (decimal_digits, e) (omega arith, omega arith)
  | inr e ↦
      rw (decimal_digits, e)
        (decimal_digits-IsNumeral fuel (n / 10) (b'0' + n % 10) (c ∷ out) (omega arith)
          (omega arith))
]

decimal-IsNumeral : (n : ℕ) → IsNumeral (decimal n)
unfolding decimal decimal_digits
decimal-IsNumeral n = elim (Bool-cases (ltb n 10)) [
  | inl e ↦ let small : n < 10 = ltb→lt n 10 e in rw (decimal_digits, e) (omega arith, omega arith)
  | inr e ↦
      rw (decimal_digits, e)
        (decimal_digits-IsNumeral n (n / 10) (b'0' + n % 10) [] (omega arith) (omega arith))
]

read_digits-decimal : (n : ℕ) → read_digits 0 (decimal n) ≡ n
unfolding decimal read_digits
read_digits-decimal n = read_digits-decimal_digits (suc n) n [] (omega arith)

positive-numeral :
    (s : Bytes) (n : ℕ) → IsNumeral s → read_digits 0 s ≡ n → n < 2 ^ 31 → stoi s ≡ some (pos n)
unfolding stoi signed positive starts_digit
positive-numeral [] n front e h = absurd front
positive-numeral (c ∷ s) n front e h = ground (arith, e)

negative-numeral :
    (s : Bytes) (n : ℕ)
    → IsNumeral s
    → read_digits 0 s ≡ suc n
    → n < 2 ^ 31
    → stoi (b'-' ∷ s) ≡ some (negsuc n)
unfolding stoi signed negative starts_digit
negative-numeral [] n front e h = absurd front
negative-numeral (c ∷ s) n front e h = ground (arith, e)

-- `std::stoi` reads every `int` from its decimal print.
pub stoi-to_string : (i : ℤ) → IsInt i → stoi (to_string i) ≡ some i
unfolding to_string
stoi-to_string (pos n) h =
    positive-numeral (decimal n) n (decimal-IsNumeral n) (read_digits-decimal n) h
stoi-to_string (negsuc n) h =
    negative-numeral (decimal (suc n)) n (decimal-IsNumeral (suc n)) (read_digits-decimal (suc n)) h

decimal_digits-All :
    (fuel n : ℕ) (out : Bytes)
    → All (λ c. (b'-' ≤ c) × (c ≤ b'9')) out
    → All (λ c. (b'-' ≤ c) × (c ≤ b'9')) (decimal_digits fuel n out)
unfolding decimal_digits
decimal_digits-All zero n out h = h
decimal_digits-All (suc fuel) n out h = elim (Bool-cases (ltb n 10)) [
  | inl e ↦
      let small : n < 10 = ltb→lt n 10 e in rw (decimal_digits, e) ((omega arith, omega arith), h)
  | inr e ↦
      rw (decimal_digits, e)
        (decimal_digits-All fuel (n / 10) ((b'0' + n % 10) ∷ out) ((omega arith, omega arith), h))
]

-- A printed number has digits and a minus sign only.
pub to_string-All : (i : ℤ) → All (λ c. (b'-' ≤ c) × (c ≤ b'9')) (to_string i)
unfolding to_string decimal
to_string-All (pos n) = decimal_digits-All (suc n) n [] tt
to_string-All (negsuc n) =
    ((omega arith, omega arith), decimal_digits-All (suc (suc n)) (suc n) [] tt)
