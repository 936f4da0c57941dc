-- ===== src/Prelude/Text.antt =====
-- Text as a list of bytes: literals, equality, and the decimal print of `std::to_string`.
use Prim.Native.Char.{code}
use Prim.Native.Nat.{ℕ, zero, suc, ◌+◌, ◌/◌, ◌%◌}
use Prim.Native.String.{String}
use mathlib.Core.Path.{◌≡◌, refl}
use mathlib.Core.Logic.{◌↔◌}
use mathlib.Core.Bool.{Bool, true, false, ◌&&◌}
use mathlib.Core.List.{List, [], ◌∷◌}
use native.Mathlib.Omega.{arith}
use cpp_oj_vbcoding_teach.Prelude.Tests.{ltb, ◌==◌, if◌then◌else◌}

abbrev pub Bytes : Type 0
Bytes = List ℕ

-- The code points of a literal, which are its bytes where the literal is ASCII.
abbrev pub codes : String → Bytes
codes String.[] = []
codes (String.◌∷◌ c s) = code c ∷ codes s

-- The UTF-8 form of a code point below 2 ^ 16, in front of `out`.
abbrev utf8_code : ℕ → Bytes → Bytes
utf8_code n out =
    if ltb n 128
    then n ∷ out
    else if ltb n 2048
    then (192 + n / 64) ∷ (128 + n % 64) ∷ out
    else (224 + n / 4096) ∷ (128 + n / 64 % 64) ∷ (128 + n % 64) ∷ out

-- The bytes of a literal of a source file, whose characters are below 2 ^ 16.
abbrev pub utf8 : String → Bytes
utf8 String.[] = []
utf8 (String.◌∷◌ c s) = utf8_code (code c) (utf8 s)

unfoldable pub str_eq : Bytes → Bytes → Bool
str_eq [] [] = true
str_eq [] (b ∷ t) = false
str_eq (a ∷ s) [] = false
str_eq (a ∷ s) (b ∷ t) = a == b && str_eq s t

pub str_eq_iff : (s t : Bytes) → (str_eq s t ≡ true) ↔ (s ≡ t)
unfolding str_eq
str_eq_iff [] [] = (λ _. refl, λ _. refl)
str_eq_iff [] (b ∷ t) = (λ h. cc, λ h. cc)
str_eq_iff (a ∷ s) [] = (λ h. cc, λ h. cc)
str_eq_iff (a ∷ s) (b ∷ t) = ground (arith, str_eq_iff s t)

pub str_eq_refl : (s : Bytes) → str_eq s s ≡ true
str_eq_refl s = (str_eq_iff s s).1 refl

-- The digits of `n` in front of `out`; the fuel bounds their number.
unfoldable pub decimal_digits : ℕ → ℕ → Bytes → Bytes
decimal_digits zero n out = out
decimal_digits (suc fuel) n out =
    let more = decimal_digits fuel (n / 10) ((b'0' + n % 10) ∷ out) in
    if ltb n 10 then (b'0' + n) ∷ out else more

-- `n` has at most `n + 1` digits.
unfoldable pub decimal : ℕ → Bytes
unfolding decimal_digits
decimal n = decimal_digits (suc n) n []
