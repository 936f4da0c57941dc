-- ===== src/Bcrypt/Base64/RoundTrip.antt =====
-- Decoding what was encoded, three bytes and four characters at a time.
use cpp_oj_vbcoding_teach.Prelude.{
  ℕ, zero, suc, ◌++◌, sym, take, take-append, ◌+◌, ◌*◌, ◌/◌, ◌%◌, ◌<◌, ◌≡◌, refl, [], ◌∷◌, Bytes,
  arith, length, All, take-all, ap, ◌∙◌, ap₂,
}
use cpp_oj_vbcoding_teach.Bcrypt.Base64.{
  alphabet_at, decode_loop, decode_base64, encode_loop, encode_base64,
}
use cpp_oj_vbcoding_teach.Bcrypt.Base64.Register.{IsByte}
use cpp_oj_vbcoding_teach.Bcrypt.Base64.Encode.{
  encode_reads_0, encode_reads_2, encode_reads_4, encode_full, encode_pads_2, encode_pads_4, pushed,
}
use cpp_oj_vbcoding_teach.Bcrypt.Base64.Decode.{
  decode_at_0, decode_at_2, decode_at_4, decode_at_6, taken,
}

-- Four characters carry three bytes.
decode_quad :
    (s : Bytes) (buf a b c : ℕ)
    → a < 256
    → b < 256
    → c < 256
    → (buf' : ℕ) × (decode_loop
          (alphabet_at (a / 4)
            ∷ alphabet_at (a % 4 * 16 + b / 16)
            ∷ alphabet_at (b % 16 * 4 + c / 64)
            ∷ alphabet_at (c % 64)
            ∷ s)
          buf
          0
        ≡ a ∷ b ∷ c ∷ decode_loop s buf' 0)
decode_quad s buf a b c ha hb hc = (
  _,
  decode_at_0 _ buf (a / 4) (omega arith)
      ∙ decode_at_6 _ r₁ (a % 4 * 16 + b / 16) (omega arith)
      ∙ ap₂ ◌∷◌ {y = a} (omega arith) (
          decode_at_4 _ r₂ (b % 16 * 4 + c / 64) (omega arith)
          ∙ ap₂ ◌∷◌ {y = b} (omega arith) (
              decode_at_2 s r₃ (c % 64) (omega arith)
              ∙ ap (λ (t : ℕ). t ∷ decode_loop s (taken r₃ (c % 64)) 0) {y = c} (omega arith))),
)
  where
    r₁ : ℕ
    r₁ = taken buf (a / 4)

    r₂ : ℕ
    r₂ = taken r₁ (a % 4 * 16 + b / 16)

    r₃ : ℕ
    r₃ = taken r₂ (b % 16 * 4 + c / 64)

encode_triple :
    (n : ℕ) (src : Bytes) (buf a b c : ℕ)
    → a < 256
    → b < 256
    → c < 256
    → (buf' : ℕ) × (encode_loop (suc (suc (suc (suc n)))) (a ∷ b ∷ c ∷ src) buf 0
        ≡ alphabet_at (a / 4)
          ∷ alphabet_at (a % 4 * 16 + b / 16)
          ∷ alphabet_at (b % 16 * 4 + c / 64)
          ∷ alphabet_at (c % 64)
          ∷ encode_loop n src buf' 0)
encode_triple n src buf a b c ha hb hc = (
  pushed (pushed (pushed buf a) b) c,
  ground (
    arith,
    encode_reads_0 (suc (suc (suc n))) (b ∷ c ∷ src) buf a ha,
    encode_reads_2 (suc (suc n)) (c ∷ src) (pushed buf a) b hb,
    encode_reads_4 (suc n) src (pushed (pushed buf a) b) c hc,
    encode_full n src (pushed (pushed (pushed buf a) b) c) (omega arith),
  ),
)

encode_done : (src : Bytes) (buf count : ℕ) → encode_loop 0 src buf count ≡ []
unfolding encode_loop
encode_done src buf count = refl

decode_done : (buf count : ℕ) → decode_loop [] buf count ≡ []
unfolding decode_loop
decode_done buf count = refl

-- What is left at the end: one byte in two characters, or two in three.
decode-encode_rest_1 :
    (ebuf dbuf a : ℕ) → a < 256 → decode_loop (encode_loop 2 (a ∷ []) ebuf 0) dbuf 0 ≡ a ∷ []
decode-encode_rest_1 ebuf dbuf a ha = ground (
  arith,
  encode_reads_0 1 [] ebuf a ha,
  (encode_pads_2 0 (pushed ebuf a)).1,
  encode_done [] (encode_pads_2 0 (pushed ebuf a)).0 4,
  decode_at_0 (alphabet_at (a % 4 * 16) ∷ []) dbuf (a / 4) (omega arith),
  decode_at_6 [] (taken dbuf (a / 4)) (a % 4 * 16) (omega arith),
  decode_done (taken (taken dbuf (a / 4)) (a % 4 * 16)) 4,
)

decode-encode_rest_2 :
    (ebuf dbuf a b : ℕ)
    → a < 256
    → b < 256
    → decode_loop (encode_loop 3 (a ∷ b ∷ []) ebuf 0) dbuf 0 ≡ a ∷ b ∷ []
decode-encode_rest_2 ebuf dbuf a b ha hb = ground (
  arith,
  encode_reads_0 2 (b ∷ []) ebuf a ha,
  encode_reads_2 1 [] (pushed ebuf a) b hb,
  (encode_pads_4 0 (pushed (pushed ebuf a) b)).1,
  encode_done [] (encode_pads_4 0 (pushed (pushed ebuf a) b)).0 6,
  decode_at_0 (alphabet_at (a % 4 * 16 + b / 16) ∷ alphabet_at (b % 16 * 4) ∷ []) dbuf (a / 4)
      (omega arith),
  decode_at_6 (alphabet_at (b % 16 * 4) ∷ []) (taken dbuf (a / 4)) (a % 4 * 16 + b / 16)
      (omega arith),
  decode_at_4 [] (taken (taken dbuf (a / 4)) (a % 4 * 16 + b / 16)) (b % 16 * 4) (omega arith),
  decode_done (taken (taken (taken dbuf (a / 4)) (a % 4 * 16 + b / 16)) (b % 16 * 4)) 2,
)

-- The characters that n bytes take.
abbrev pub chars : ℕ → ℕ
chars n = (n * 8 + 5) / 6

chars_3 : (m : ℕ) → chars (suc (suc (suc m))) ≡ suc (suc (suc (suc (chars m))))
chars_3 m = omega arith

decode-encode_loop :
    (src : Bytes) (ebuf dbuf : ℕ)
    → All IsByte src
    → decode_loop (encode_loop (chars (length src)) src ebuf 0) dbuf 0 ≡ src
decode-encode_loop [] ebuf dbuf h = unfold decode_loop encode_loop in refl
decode-encode_loop (a ∷ []) ebuf dbuf h = decode-encode_rest_1 ebuf dbuf a h.0
decode-encode_loop (a ∷ b ∷ []) ebuf dbuf h = decode-encode_rest_2 ebuf dbuf a b h.0 h.1.0
decode-encode_loop (a ∷ b ∷ c ∷ src) ebuf dbuf (ha, (hb, (hc, h))) =
    let (ebuf', encoded) = encode_triple (chars (length src)) src ebuf a b c ha hb hc in
    let (dbuf', decoded) =
      decode_quad (encode_loop (chars (length src)) src ebuf' 0) dbuf a b c ha hb hc in
    rw (chars_3 (length src), encoded, decoded, decode-encode_loop src ebuf' dbuf' h)

pub length-encode_loop :
    (n : ℕ) (src : Bytes) (buf count : ℕ) → length (encode_loop n src buf count) ≡ n
unfolding encode_loop
length-encode_loop zero src buf count = refl
length-encode_loop (suc n) src buf count = ap suc (length-encode_loop n _ _ _)

-- The encoder writes exactly the characters it promises, for any register of bytes.
pub length-encode_base64 : (src : Bytes) (n : ℕ) → length (encode_base64 src n) ≡ chars n
unfolding encode_base64
length-encode_base64 src n = length-encode_loop (chars n) (take n src) 0 0

-- For every list of bytes, decoding the encoded characters gives the bytes back, whatever text
-- follows the encoded characters.
pub decode_base64-encode_base64 :
    (src rest : Bytes)
    → All IsByte src
    → decode_base64 (encode_base64 src (length src) ++ rest) (chars (length src)) ≡ src
unfolding decode_base64
decode_base64-encode_base64 src rest h =
    rw
      (take-append (encode_base64 src (length src)) rest (chars (length src))
        (sym (length-encode_base64 src (length src))))
      (unfold encode_base64 in rw (take-all src (length src) refl) (decode-encode_loop src 0 0 h))
