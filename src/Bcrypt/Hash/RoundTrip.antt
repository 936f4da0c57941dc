-- ===== src/Bcrypt/Hash/RoundTrip.antt =====
-- A password is accepted against its own hash.
use cpp_oj_vbcoding_teach.Prelude.{
  ℕ, ◌≡◌, sym, subst, true, ◌++◌, Bytes, length, take, drop, take-all, drop-append, str_eq_refl,
}
use cpp_oj_vbcoding_teach.Bcrypt.Base64.{encode_base64, decode_base64}
use cpp_oj_vbcoding_teach.Bcrypt.Base64.RoundTrip.{
  chars, length-encode_base64, decode_base64-encode_base64,
}
use cpp_oj_vbcoding_teach.Bcrypt.Core.{BfEncrypt, bcrypt_core}
use cpp_oj_vbcoding_teach.Bcrypt.Core.Output.{IsBytes}
use cpp_oj_vbcoding_teach.Bcrypt.Hash.{clamp_cost, bcrypt_hash, bcrypt_verify}
use cpp_oj_vbcoding_teach.Bcrypt.Hash.Format.{bcrypt_hash_lem, bcrypt_hash_format}

module _ (bf_encrypt : BfEncrypt) (salt password : Bytes) (cost : ℕ) (h : IsBytes 16 salt) where
  digest : Bytes
  digest =
      encode_base64 (bcrypt_core bf_encrypt password (length password) salt (clamp_cost cost)) 23

  salt_field : decode_base64 (drop 7 (bcrypt_hash bf_encrypt salt password cost)) 22 ≡ salt
  unfolding digest
  salt_field = rw (bcrypt_hash_lem bf_encrypt salt password cost) (
      subst (λ (n : ℕ). decode_base64 (encode_base64 salt n ++ digest) (chars n) ≡ salt) h.0
        (decode_base64-encode_base64 salt digest h.1))

  digest_field : take 31 (drop 29 (bcrypt_hash bf_encrypt salt password cost)) ≡ digest
  unfolding digest
  digest_field = rw (bcrypt_hash_lem bf_encrypt salt password cost) (
      rw (drop-append (encode_base64 salt 16) digest 22 (sym (length-encode_base64 salt 16)))
        (take-all digest 31 (sym (length-encode_base64 _ 23))))

-- For every cipher, salt of 16 bytes, password and requested cost, `bcryptVerify` accepts the
-- password against the hash that `bcryptHash` makes of it.
pub bcrypt_verify-bcrypt_hash :
    (bf_encrypt : BfEncrypt) (salt password : Bytes) (cost : ℕ)
    → IsBytes 16 salt
    → bcrypt_verify bf_encrypt password (bcrypt_hash bf_encrypt salt password cost) ≡ true
unfolding bcrypt_verify digest
bcrypt_verify-bcrypt_hash bf_encrypt salt password cost h =
    let (len, checks, stated, low, high) = bcrypt_hash_format bf_encrypt salt password cost in
    rw
      (
        checks,
        salt_field bf_encrypt salt password cost h,
        digest_field bf_encrypt salt password cost h,
        stated,
      )
      (str_eq_refl _)
