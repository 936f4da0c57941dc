-- ===== src/Bcrypt/Base64/Encode.antt =====
-- The rounds of `encodeBase64`, by the number of bits that the last byte left in the register.
use Prim.Native.Nat.{bit_and}
use cpp_oj_vbcoding_teach.Prelude.{
  ℕ, suc, ◌+◌, ◌-◌, ◌*◌, ◌/◌, ◌%◌, ◌^◌, ◌<◌, ◌≡◌, refl, [], ◌∷◌, Bytes, arith,
}
use cpp_oj_vbcoding_teach.Prelude.Words.{sar32, bit_and_0x3f}
use cpp_oj_vbcoding_teach.Bcrypt.Base64.{alphabet_at, refill, encode_loop}
use cpp_oj_vbcoding_teach.Bcrypt.Base64.Register.{push8, sar_low}

-- The low six bits that a round writes.
sextet : (w k i : ℕ) → sar32 w k % 64 ≡ i → bit_and (sar32 w k) 0x3f ≡ i
sextet w k i h = omega (arith, bit_and_0x3f (sar32 w k))

module _ (n : ℕ) (src src' : Bytes) (buf count buf' count' : ℕ) where
  -- A round of the encoder, from what its first `if` leaves.
  encode_round :
      (i : ℕ)
      → refill src buf count ≡ (src', buf', count')
      → bit_and (sar32 buf' (count' - 6)) 0x3f ≡ i
      → encode_loop (suc n) src buf count ≡ alphabet_at i ∷ encode_loop n src' buf' (count' - 6)
  unfolding encode_loop
  encode_round i p q = rw (p, q)

-- The register after a byte is pushed.
abbrev pub pushed : ℕ → ℕ → ℕ
pushed buf b = buf % 2 ^ 24 * 256 + b

module _ (n : ℕ) (src : Bytes) (buf : ℕ) where
  pub encode_reads_0 :
      (b : ℕ)
      → b < 256
      → encode_loop (suc n) (b ∷ src) buf 0
        ≡ alphabet_at (b / 4) ∷ encode_loop n src (pushed buf b) 2
  unfolding refill
  encode_reads_0 b h =
      encode_round n (b ∷ src) src buf 0 (pushed buf b) 8 _ (rw (push8 buf b h))
        (sextet (pushed buf b) 2 _ (omega (arith, sar_low (pushed buf b) (omega arith))))

  pub encode_reads_2 :
      (b : ℕ)
      → b < 256
      → encode_loop (suc n) (b ∷ src) buf 2
        ≡ alphabet_at (buf % 4 * 16 + b / 16) ∷ encode_loop n src (pushed buf b) 4
  unfolding refill
  encode_reads_2 b h =
      encode_round n (b ∷ src) src buf 2 (pushed buf b) 10 _ (rw (push8 buf b h))
        (sextet (pushed buf b) 4 _ (omega (arith, sar_low (pushed buf b) (omega arith))))

  pub encode_reads_4 :
      (b : ℕ)
      → b < 256
      → encode_loop (suc n) (b ∷ src) buf 4
        ≡ alphabet_at (buf % 16 * 4 + b / 64) ∷ encode_loop n src (pushed buf b) 6
  unfolding refill
  encode_reads_4 b h =
      encode_round n (b ∷ src) src buf 4 (pushed buf b) 12 _ (rw (push8 buf b h))
        (sextet (pushed buf b) 6 _ (omega (arith, sar_low (pushed buf b) (omega arith))))

-- Six bits are left: nothing is read.
pub encode_full :
    (n : ℕ) (src : Bytes) (buf : ℕ)
    → buf < 2 ^ 32
    → encode_loop (suc n) src buf 6 ≡ alphabet_at (buf % 64) ∷ encode_loop n src buf 0
unfolding refill
encode_full n [] buf h =
    encode_round n [] [] buf 6 buf 6 _ refl (sextet buf 0 _ (omega (arith, sar_low buf h)))
encode_full n (b ∷ src) buf h =
    encode_round n (b ∷ src) (b ∷ src) buf 6 buf 6 _ refl
      (sextet buf 0 _ (omega (arith, sar_low buf h)))

-- No byte is left: the last bits are padded with zeros.
pub encode_pads_2 :
    (n buf : ℕ)
    → (buf' : ℕ) × (encode_loop (suc n) [] buf 2
        ≡ alphabet_at (buf % 4 * 16) ∷ encode_loop n [] buf' 4)
unfolding refill
encode_pads_2 n buf = (
  _,
  encode_round n [] [] buf 2 (buf * 2 ^ 8 % 2 ^ 32) 10 _ refl
      (sextet _ 4 _ (omega (arith, sar_low (buf * 2 ^ 8 % 2 ^ 32) (omega arith)))),
)

pub encode_pads_4 :
    (n buf : ℕ)
    → (buf' : ℕ) × (encode_loop (suc n) [] buf 4
        ≡ alphabet_at (buf % 16 * 4) ∷ encode_loop n [] buf' 6)
unfolding refill
encode_pads_4 n buf = (
  _,
  encode_round n [] [] buf 4 (buf * 2 ^ 8 % 2 ^ 32) 12 _ refl
      (sextet _ 6 _ (omega (arith, sar_low (buf * 2 ^ 8 % 2 ^ 32) (omega arith)))),
)
