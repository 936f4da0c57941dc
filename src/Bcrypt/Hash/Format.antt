-- ===== src/Bcrypt/Hash/Format.antt =====
-- The layout of a hash: seven bytes of prefix, 22 of salt, 31 of digest.
use cpp_oj_vbcoding_teach.Prelude.{
  ℕ, ◌+◌, ◌≤◌, ◌<◌, ◌≡◌, refl, true, [], ◌∷◌, ◌++◌, Bytes, arith, length, str_eq, decimal,
  length-append, ◌/◌, ◌%◌, holds_below, holds_below_sound, str_eq_iff,
}
use cpp_oj_vbcoding_teach.Bcrypt.Base64.{encode_base64}
use cpp_oj_vbcoding_teach.Bcrypt.Base64.RoundTrip.{length-encode_base64}
use cpp_oj_vbcoding_teach.Bcrypt.Core.{BfEncrypt, bcrypt_core}
use cpp_oj_vbcoding_teach.Bcrypt.Hash.{
  clamp_cost, hash_prefix, bcrypt_hash, well_formed, hash_cost, is_digit,
}

pub clamp_cost_bounds : (cost : ℕ) → (4 ≤ clamp_cost cost) × (clamp_cost cost ≤ 31)
unfolding clamp_cost
clamp_cost_bounds cost = ground arith

-- The prefix of a two-digit cost, byte by byte.
abbrev pub prefix_of : ℕ → Bytes
prefix_of cost = b'$' ∷ b'2' ∷ b'b' ∷ b'$' ∷ (b'0' + cost / 10) ∷ (b'0' + cost % 10) ∷ b'$' ∷ []

prefix_table : holds_below (λ cost. str_eq (hash_prefix cost) (prefix_of cost)) 32 ≡ true
unfolding holds_below str_eq hash_prefix decimal
prefix_table = refl

pub hash_prefix_lem : (cost : ℕ) → cost < 32 → hash_prefix cost ≡ prefix_of cost
hash_prefix_lem cost h = (str_eq_iff _ _).0 (holds_below_sound _ 32 cost h prefix_table)

-- A text of 53 bytes behind the prefix passes the checks.
prefix_checks :
    (cost : ℕ) (rest : Bytes)
    → cost < 32
    → length rest ≡ 53
    → (length (prefix_of cost ++ rest) ≡ 60)
      × (well_formed (prefix_of cost ++ rest) ≡ true)
      × (hash_cost (prefix_of cost ++ rest) ≡ cost)
unfolding well_formed hash_cost is_digit
prefix_checks cost rest h e = ground arith

module _ (bf_encrypt : BfEncrypt) (salt password : Bytes) (cost : ℕ) where
  -- What follows the prefix: the salt and the digest.
  abbrev pub hash_tail : Bytes
  hash_tail =
      encode_base64 salt 16
      ++ encode_base64 (bcrypt_core bf_encrypt password (length password) salt (clamp_cost cost)) 23

  length-hash_tail : length hash_tail ≡ 53
  length-hash_tail = omega (
    arith,
    length-append (encode_base64 salt 16) (
        encode_base64 (bcrypt_core bf_encrypt password (length password) salt (clamp_cost cost))
          23),
    length-encode_base64 salt 16,
    length-encode_base64 (bcrypt_core bf_encrypt password (length password) salt (clamp_cost cost))
        23,
  )

  pub bcrypt_hash_lem :
      bcrypt_hash bf_encrypt salt password cost ≡ prefix_of (clamp_cost cost) ++ hash_tail
  unfolding bcrypt_hash
  bcrypt_hash_lem = rw (hash_prefix_lem (clamp_cost cost) (omega (arith, clamp_cost_bounds cost)))

  -- Every hash is 60 bytes long, passes the checks of `bcryptVerify`, and states the cost that was
  -- used, which lies between 4 and 31.
  pub bcrypt_hash_format :
      (length (bcrypt_hash bf_encrypt salt password cost) ≡ 60)
      × (well_formed (bcrypt_hash bf_encrypt salt password cost) ≡ true)
      × (hash_cost (bcrypt_hash bf_encrypt salt password cost) ≡ clamp_cost cost)
      × (4 ≤ clamp_cost cost)
      × (clamp_cost cost ≤ 31)
  bcrypt_hash_format =
      let (low, high) = clamp_cost_bounds cost in
      let (len, checks, stated) =
        prefix_checks (clamp_cost cost) hash_tail (omega arith) length-hash_tail in
      rw bcrypt_hash_lem (len, checks, stated, low, high)
