-- ===== src/Examples/Bcrypt.antt =====
-- src/utils/bcrypt.cpp on concrete inputs, under a cipher that exchanges the words and adds a subkey.
use cpp_oj_vbcoding_teach.Prelude.{
  ◌+◌, ◌%◌, ◌^◌, ◌≡◌, refl, true, ◌++◌, Bytes, codes, arith, get_or,
}
use cpp_oj_vbcoding_teach.Bcrypt.Base64.{encode_base64, decode_base64}
use cpp_oj_vbcoding_teach.Bcrypt.Base64.RoundTrip.{decode_base64-encode_base64}
use cpp_oj_vbcoding_teach.Bcrypt.Core.{BfEncrypt}
use cpp_oj_vbcoding_teach.Bcrypt.Hash.{bcrypt_hash, bcrypt_verify}
use cpp_oj_vbcoding_teach.Bcrypt.Hash.RoundTrip.{bcrypt_verify-bcrypt_hash}
use cpp_oj_vbcoding_teach.Bcrypt.Hash.Check.{bcrypt_verify_truncates}

abbrev pub swap_words : BfEncrypt
swap_words key l r = (r, (l + get_or key.p 0 0) % 2 ^ 32)

abbrev pub salt : Bytes
salt = codes "0123456789abcdef"

abbrev password : Bytes
password = codes "secret"

encode_three : encode_base64 (codes "abc") 3 ≡ codes "WUHh"
unfolding encode_base64
encode_three = refl

decode_three : decode_base64 (codes "WUHh") 4 ≡ codes "abc"
unfolding decode_base64
decode_three = refl

decode_base64-encode_base64_example :
    decode_base64 (encode_base64 salt 16 ++ codes "rest") 22 ≡ salt
decode_base64-encode_base64_example = decode_base64-encode_base64 salt (codes "rest") (omega arith)

bcrypt_verify-bcrypt_hash_example :
    bcrypt_verify swap_words password (bcrypt_hash swap_words salt password 10) ≡ true
bcrypt_verify-bcrypt_hash_example =
    bcrypt_verify-bcrypt_hash swap_words salt password 10 (omega arith)

-- 72 bytes.
abbrev long : Bytes
long = codes "aaaaaaaaaaaaaaaaaaaaaaaaaaaaaaaaaaaabbbbbbbbbbbbbbbbbbbbbbbbbbbbbbbbbbbb"

bcrypt_verify_truncates_example :
    bcrypt_verify swap_words (long ++ codes "x") (codes "$2b$")
    ≡ bcrypt_verify swap_words (long ++ codes "yz") (codes "$2b$")
bcrypt_verify_truncates_example =
    bcrypt_verify_truncates swap_words (long ++ codes "x") (long ++ codes "yz") (codes "$2b$")
      (omega arith) (omega arith) refl
