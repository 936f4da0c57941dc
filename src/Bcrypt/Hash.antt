-- ===== src/Bcrypt/Hash.antt =====
-- `bcryptHash` and `bcryptVerify` of src/utils/bcrypt.cpp. The 16 bytes that `RAND_bytes` leaves in
-- the salt are an argument; `std::string` is a list of bytes.
pub mod Format
pub mod RoundTrip
pub mod Check
use cpp_oj_vbcoding_teach.Prelude.{
  ℕ, ◌+◌, ◌-◌, ◌*◌, Bool, true, false, not, ◌&&◌, ◌||◌, [], ◌∷◌, ◌++◌, Bytes, codes, ltb, ◌==◌,
  if◌then◌else◌, length, get_or, take, drop, str_eq, decimal,
}
use cpp_oj_vbcoding_teach.Bcrypt.Base64.{encode_base64, decode_base64}
use cpp_oj_vbcoding_teach.Bcrypt.Core.{BfEncrypt, bcrypt_core}

-- `if (cost < 4) cost = 4; if (cost > 31) cost = 31;`
pub clamp_cost : ℕ → ℕ
clamp_cost cost =
    let raised = if ltb cost 4 then 4 else cost in if ltb 31 raised then 31 else raised

-- What the stream holds before the salt: the version, and the cost in two digits.
pub hash_prefix : ℕ → Bytes
hash_prefix cost =
    codes "$2b$" ++ ((if ltb cost 10 then codes "0" else []) ++ (decimal cost ++ codes "$"))

-- A digit test of `bcryptVerify`.
pub is_digit : ℕ → Bool
is_digit c = not (ltb c b'0' || ltb b'9' c)

-- The early returns of `bcryptVerify`: true when none of them is taken.
pub well_formed : Bytes → Bool
well_formed hash =
    length hash == 60
    && (get_or hash 0 0 == b'$' && (get_or hash 1 0 == b'2' && get_or hash 3 0 == b'$'))
    && is_digit (get_or hash 4 0)
    && is_digit (get_or hash 5 0)
    && get_or hash 6 0 == b'$'

pub hash_cost : Bytes → ℕ
hash_cost hash = (get_or hash 4 0 - b'0') * 10 + (get_or hash 5 0 - b'0')

module _ (bf_encrypt : BfEncrypt) where
  pub bcrypt_hash : Bytes → Bytes → ℕ → Bytes
  bcrypt_hash salt password cost =
      let cost' = clamp_cost cost in
      let ctext = bcrypt_core bf_encrypt password (length password) salt cost' in
      let salt_b64 = encode_base64 salt 16 in
      let hash_b64 = encode_base64 ctext 23 in hash_prefix cost' ++ (salt_b64 ++ hash_b64)

  pub bcrypt_verify : Bytes → Bytes → Bool
  bcrypt_verify password hash =
      let salt = decode_base64 (drop 7 hash) 22 in
      let ctext = bcrypt_core bf_encrypt password (length password) salt (hash_cost hash) in
      if well_formed hash then str_eq (take 31 (drop 29 hash)) (encode_base64 ctext 23) else false
