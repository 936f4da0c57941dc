-- ===== src/Bcrypt/Base64/Register.antt =====
-- The shift register of the codec and its table: what pushing bits in and shifting them out does.
use Prim.Native.Nat.{bit_or}
use cpp_oj_vbcoding_teach.Prelude.{
  ℕ, ◌+◌, ◌*◌, ◌/◌, ◌%◌, ◌^◌, ◌<◌, ◌≡◌, refl, true, ◌==◌, ==_iff, arith, holds_below,
  holds_below_sound, ap,
}
use cpp_oj_vbcoding_teach.Prelude.Words.{shl32, sar32, bit_or_disjoint}
use cpp_oj_vbcoding_teach.Bcrypt.Base64.{alphabet_at, decode_base64_char}

abbrev pub IsByte : ℕ → Type 0
IsByte b = b < 256

alphabet_table : holds_below (λ i. decode_base64_char (alphabet_at i) == i) 64 ≡ true
unfolding holds_below decode_base64_char alphabet_at
alphabet_table = refl

-- The two tables of the codec are inverse.
pub decode_base64_char-alphabet_at : (i : ℕ) → i < 64 → decode_base64_char (alphabet_at i) ≡ i
decode_base64_char-alphabet_at i h = (==_iff _ i).0 (holds_below_sound _ 64 i h alphabet_table)

-- Pushing eight or six bits into the register.
pub push8 : (buf b : ℕ) → b < 256 → bit_or (shl32 buf 8) b ≡ buf % 2 ^ 24 * 256 + b
push8 buf b h =
    omega (arith, bit_or_disjoint 8 (buf % 2 ^ 24) b h, ap (λ (t : ℕ). bit_or t b) (shifted buf))
  where
    shifted : (x : ℕ) → x * 2 ^ 8 % 2 ^ 32 ≡ x % 2 ^ 24 * 2 ^ 8
    shifted x = omega arith

pub push6 : (buf v : ℕ) → v < 64 → bit_or (shl32 buf 6) v ≡ buf % 2 ^ 26 * 64 + v
push6 buf v h =
    omega (arith, bit_or_disjoint 6 (buf % 2 ^ 26) v h, ap (λ (t : ℕ). bit_or t v) (shifted buf))
  where
    shifted : (x : ℕ) → x * 2 ^ 6 % 2 ^ 32 ≡ x % 2 ^ 26 * 2 ^ 6
    shifted x = omega arith

-- The register below 2 ^ 32 is shifted as an unsigned number where only low bits are kept.
pub sar_low :
    (w : ℕ)
    → w < 2 ^ 32
    → (sar32 w 0 ≡ w)
      × (sar32 w 2 % 256 ≡ w / 4 % 256)
      × (sar32 w 4 % 256 ≡ w / 16 % 256)
      × (sar32 w 6 % 256 ≡ w / 64 % 256)
sar_low w h = ground arith
