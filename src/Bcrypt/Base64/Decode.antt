-- ===== src/Bcrypt/Base64/Decode.antt =====
-- The rounds of `decodeBase64` on a character of the table, by the number of bits already held.
use Prim.Native.Nat.{bit_or, bit_and}
use cpp_oj_vbcoding_teach.Prelude.{ℕ, ◌+◌, ◌*◌, ◌/◌, ◌%◌, ◌^◌, ◌<◌, ◌≡◌, ◌∷◌, Bytes, arith, ap, ◌∙◌}
use cpp_oj_vbcoding_teach.Prelude.Words.{shl32, sar32, bit_and_0xff}
use cpp_oj_vbcoding_teach.Bcrypt.Base64.{alphabet_at, decode_base64_char, decode_loop}
use cpp_oj_vbcoding_teach.Bcrypt.Base64.Register.{push6, sar_low, decode_base64_char-alphabet_at}

-- The register after the six bits of a character are pushed.
abbrev pub taken : ℕ → ℕ → ℕ
taken buf v = buf % 2 ^ 26 * 64 + v

register :
    (buf v : ℕ) → v < 64 → bit_or (shl32 buf 6) (decode_base64_char (alphabet_at v)) ≡ taken buf v
register buf v h = ap (bit_or (shl32 buf 6)) (decode_base64_char-alphabet_at v h) ∙ push6 buf v h

-- The byte that a round writes.
octet : (w k b : ℕ) → sar32 w k % 256 ≡ b → bit_and (sar32 w k) 0xff ≡ b
octet w k b h = omega (arith, bit_and_0xff (sar32 w k))

module _ (s : Bytes) (buf v : ℕ) (h : v < 64) where
  pub decode_at_0 : decode_loop (alphabet_at v ∷ s) buf 0 ≡ decode_loop s (taken buf v) 6
  unfolding decode_loop
  decode_at_0 = rw (register buf v h)

  pub decode_at_6 :
      decode_loop (alphabet_at v ∷ s) buf 6
      ≡ (buf % 64 * 4 + v / 16) ∷ decode_loop s (taken buf v) 4
  unfolding decode_loop
  decode_at_6 = rw (
    register buf v h,
    octet (taken buf v) 4 (buf % 64 * 4 + v / 16)
        (omega (arith, sar_low (taken buf v) (omega arith))),
  )

  pub decode_at_4 :
      decode_loop (alphabet_at v ∷ s) buf 4
      ≡ (buf % 16 * 16 + v / 4) ∷ decode_loop s (taken buf v) 2
  unfolding decode_loop
  decode_at_4 = rw (
    register buf v h,
    octet (taken buf v) 2 (buf % 16 * 16 + v / 4)
        (omega (arith, sar_low (taken buf v) (omega arith))),
  )

  pub decode_at_2 :
      decode_loop (alphabet_at v ∷ s) buf 2 ≡ (buf % 4 * 64 + v) ∷ decode_loop s (taken buf v) 0
  unfolding decode_loop
  decode_at_2 = rw (
    register buf v h,
    octet (taken buf v) 0 (buf % 4 * 64 + v) (omega (arith, sar_low (taken buf v) (omega arith))),
  )
