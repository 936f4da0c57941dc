-- ===== src/Bcrypt/Hash/Check.antt =====
-- Two passwords that `bcryptVerify` does not tell apart.
use cpp_oj_vbcoding_teach.Prelude.{◌≡◌, ◌≤◌, Bytes, length, take, drop}
use cpp_oj_vbcoding_teach.Bcrypt.Base64.{decode_base64}
use cpp_oj_vbcoding_teach.Bcrypt.Core.{BfEncrypt}
use cpp_oj_vbcoding_teach.Bcrypt.Core.Truncation.{bcrypt_core_truncates}
use cpp_oj_vbcoding_teach.Bcrypt.Hash.{bcrypt_verify, hash_cost}

-- Two passwords of at least 72 bytes that agree on the first 72 are accepted against the same
-- texts.
pub bcrypt_verify_truncates :
    (bf_encrypt : BfEncrypt) (password other hash : Bytes)
    → 72 ≤ length password
    → 72 ≤ length other
    → take 72 password ≡ take 72 other
    → bcrypt_verify bf_encrypt password hash ≡ bcrypt_verify bf_encrypt other hash
unfolding bcrypt_verify
bcrypt_verify_truncates bf_encrypt password other hash long long' same = rw (
    bcrypt_core_truncates bf_encrypt password other (decode_base64 (drop 7 hash) 22)
      (hash_cost hash) long long' same)
