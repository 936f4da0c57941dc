-- ===== src/Bcrypt/Base64.antt =====
-- The base-64 codec of src/utils/bcrypt.cpp. The shift register `bitBuf` is an `int`: a number
-- below 2 ^ 32 stands for its bit pattern, and shifts are those of the compiler that builds it.
pub mod Register
pub mod Encode
pub mod Decode
pub mod RoundTrip
use Prim.Native.Nat.{bit_and, bit_or}
use cpp_oj_vbcoding_teach.Prelude.{
  ℕ, zero, suc, ◌+◌, ◌-◌, ◌*◌, ◌/◌, ◌%◌, ◌^◌, Bool, true, false, ◌&&◌, List, [], ◌∷◌, Bytes, codes,
  ltb, leb, ◌==◌, if◌then◌else◌, length, get_or, take,
}
use cpp_oj_vbcoding_teach.Prelude.Words.{shl32, sar32}

abbrev k_alphabet : Bytes
k_alphabet = codes "./ABCDEFGHIJKLMNOPQRSTUVWXYZabcdefghijklmnopqrstuvwxyz0123456789"

-- kAlphabet[idx]; the index is masked to six bits.
pub alphabet_at : ℕ → ℕ
alphabet_at idx = get_or k_alphabet idx 0

-- The bit pattern of the `int` -1.
abbrev minus_one : ℕ
minus_one = 2 ^ 32 - 1

pub decode_base64_char : ℕ → ℕ
decode_base64_char c =
    if c == b'.'
    then 0
    else if c == b'/'
    then 1
    else if leb b'A' c && leb c b'Z'
    then c - b'A' + 2
    else if leb b'a' c && leb c b'z'
    then c - b'a' + 28
    else if leb b'0' c && leb c b'9'
    then c - b'0' + 54
    else minus_one

-- The loop of `decodeBase64`: the bytes that it writes from here on.
pub decode_loop : Bytes → ℕ → ℕ → Bytes
decode_loop [] buf count = []
decode_loop (c ∷ s) buf count =
    let buf' = bit_or (shl32 buf 6) (decode_base64_char c) in
    let count' = count + 6 in
    elim (leb 8 count') [
      | true ↦ bit_and (sar32 buf' (count' - 8)) 0xff ∷ decode_loop s buf' (count' - 8)
      | false ↦ decode_loop s buf' count'
    ]

unfoldable pub decode_base64 : Bytes → ℕ → Bytes
unfolding decode_loop decode_base64_char
decode_base64 src src_len = decode_loop (take src_len src) 0 0

-- The first `if` of a round of `encodeBase64`: the unread bytes, `bitBuf` and `bitCount` behind it.
refill : Bytes → ℕ → ℕ → Bytes × ℕ × ℕ
refill [] buf count = if ltb count 6 then ([], shl32 buf 8, count + 8) else ([], buf, count)
refill (b ∷ src) buf count =
    if ltb count 6 then (src, bit_or (shl32 buf 8) b, count + 8) else (b ∷ src, buf, count)

-- The loop of `encodeBase64`, by the number of characters still to write.
pub encode_loop : ℕ → Bytes → ℕ → ℕ → Bytes
encode_loop zero src buf count = []
encode_loop (suc n) src buf count =
    let (src', buf', count') = refill src buf count in
    alphabet_at (bit_and (sar32 buf' (count' - 6)) 0x3f) ∷ encode_loop n src' buf' (count' - 6)

unfoldable pub encode_base64 : Bytes → ℕ → Bytes
unfolding encode_loop refill alphabet_at
encode_base64 src src_len = encode_loop ((src_len * 8 + 5) / 6) (take src_len src) 0 0
