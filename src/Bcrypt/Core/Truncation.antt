-- ===== src/Bcrypt/Core/Truncation.antt =====
-- The key schedule reads no more than 72 bytes of the password.
use cpp_oj_vbcoding_teach.Prelude.{
  ℕ, zero, suc, ◌<◌, ◌≤◌, ◌%◌, ◌+◌, ◌≡◌, refl, ◌∙◌, sym, ap, [], ◌∷◌, List, Bytes, arith, length,
  take, get_or-take, Option, none, some, le→ltb_false, lt→ltb, ◌^◌,
}
use native.Mathlib.Nat.{mod-lt}
use cpp_oj_vbcoding_teach.Bcrypt.Core.{
  BfKey, BfEncrypt, key_word, xor_words, xor_password, expand_key, mix_password, setup_rounds,
  eks_blowfish_setup, bcrypt_core,
}

module _ (password : Bytes) (key_len : ℕ) (pos : 0 < key_len) where
  key_word-take :
      (j : ℕ)
      → j < key_len
      → key_word (take key_len password) key_len j ≡ key_word password key_len j
  unfolding key_word
  key_word-take j h = rw (
    get_or-take password key_len j 0 h,
    get_or-take password key_len ((j + 1) % key_len) 0 (mod-lt _ pos),
    get_or-take password key_len (((j + 1) % key_len + 1) % key_len) 0 (mod-lt _ pos),
    get_or-take password key_len ((((j + 1) % key_len + 1) % key_len + 1) % key_len) 0
        (mod-lt _ pos),
  )

  key_word-lt : (j : ℕ) → (key_word password key_len j).1 < key_len
  unfolding key_word
  key_word-lt j = mod-lt _ pos

  xor_words-take :
      (ws : List ℕ) (j : ℕ)
      → j < key_len
      → (xor_words (take key_len password) key_len ws j ≡ xor_words password key_len ws j)
        × ((xor_words password key_len ws j).1 < key_len)
  unfolding xor_words
  xor_words-take [] j h = (refl, h)
  xor_words-take (w ∷ ws) j h =
      let (same, below) = xor_words-take ws (key_word password key_len j).1 (key_word-lt j) in
      (rw (key_word-take j h, same), below)

-- The whole schedule sees the first 72 bytes of a password that has as many.
module _ (password : Bytes) (long : 72 ≤ length password) where
  xor_password-take :
      (key : BfKey)
      → xor_password key (take 72 password) 72 0 ≡ xor_password key password (length password) 0
  unfolding xor_password
  xor_password-take key =
      let first = xor_words-take password 72 (omega arith) key.p 0 (omega arith) in
      let second =
        xor_words-take password 72 (omega arith) key.s (xor_words password 72 key.p 0).1 first.1 in
      rw (le→ltb_false (length password) 72 long, first.0, second.0)

  mix_password-take :
      (key : BfKey)
      → mix_password key (some (take 72 password)) 72
        ≡ mix_password key (some password) (length password)
  unfolding mix_password
  mix_password-take key = rw (lt→ltb 0 (length password) (omega arith), xor_password-take key)

  expand_key-take :
      (bf_encrypt : BfEncrypt) (key : BfKey) (salt : Option Bytes)
      → expand_key bf_encrypt key salt (some (take 72 password)) 72
        ≡ expand_key bf_encrypt key salt (some password) (length password)
  unfolding expand_key
  expand_key-take bf_encrypt key salt = rw (expand_key, mix_password-take key)

  setup_rounds-take :
      (bf_encrypt : BfEncrypt) (n : ℕ) (salt : Bytes) (key : BfKey)
      → setup_rounds bf_encrypt n salt (take 72 password) 72 key
        ≡ setup_rounds bf_encrypt n salt password (length password) key
  unfolding setup_rounds
  setup_rounds-take bf_encrypt zero salt key = refl
  setup_rounds-take bf_encrypt (suc n) salt key =
      rw (expand_key-take bf_encrypt key none) (setup_rounds-take bf_encrypt n salt _)

  bcrypt_core-take :
      (bf_encrypt : BfEncrypt) (salt : Bytes) (cost : ℕ)
      → bcrypt_core bf_encrypt (take 72 password) 72 salt cost
        ≡ bcrypt_core bf_encrypt password (length password) salt cost
  unfolding bcrypt_core eks_blowfish_setup
  bcrypt_core-take bf_encrypt salt cost = rw (
    expand_key-take bf_encrypt _ (some salt),
    setup_rounds-take bf_encrypt (2 ^ (cost % 64)) salt,
  )

-- Two passwords of at least 72 bytes that agree on the first 72 have the same core output, under
-- every cipher, salt and cost: what follows the first 72 bytes is ignored.
pub bcrypt_core_truncates :
    (bf_encrypt : BfEncrypt) (password other salt : Bytes) (cost : ℕ)
    → 72 ≤ length password
    → 72 ≤ length other
    → take 72 password ≡ take 72 other
    → bcrypt_core bf_encrypt password (length password) salt cost
      ≡ bcrypt_core bf_encrypt other (length other) salt cost
bcrypt_core_truncates bf_encrypt password other salt cost long long' same =
    sym (bcrypt_core-take password long bf_encrypt salt cost)
    ∙ ap (λ (t : Bytes). bcrypt_core bf_encrypt t 72 salt cost) same
    ∙ bcrypt_core-take other long' bf_encrypt salt cost
