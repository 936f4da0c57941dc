-- ===== src/Bcrypt/Core/Output.antt =====
-- The core writes 24 bytes.
use cpp_oj_vbcoding_teach.Prelude.{
  ℕ, zero, suc, ◌%◌, ◌+◌, ◌/◌, ◌^◌, ◌≡◌, refl, [], ◌∷◌, Bytes, arith, length, set, All, codes,
}
use cpp_oj_vbcoding_teach.Bcrypt.Base64.Register.{IsByte}
use cpp_oj_vbcoding_teach.Bcrypt.Core.{
  BfKey, BfEncrypt, store_word, encipher_block, encipher_rounds, bcrypt_core,
}

-- A text of n bytes.
abbrev pub IsBytes : ℕ → Bytes → Type 0
IsBytes n b = (length b ≡ n) × All IsByte b

set-IsBytes : (n : ℕ) (b : Bytes) (i v : ℕ) → IsByte v → IsBytes n b → IsBytes n (set b i v)
set-IsBytes n [] i v hv h = h
set-IsBytes n (x ∷ b) zero v hv h = (h.0, (hv, h.1.1))
set-IsBytes n (x ∷ b) (suc i) v hv h =
    let (e, bytes) = set-IsBytes (length b) b i v hv (refl, h.1.1) in (omega arith, (h.1.0, bytes))

store_word-IsBytes : (n : ℕ) (b : Bytes) (i w : ℕ) → IsBytes n b → IsBytes n (store_word b i w)
unfolding store_word
store_word-IsBytes n b i w h = set-IsBytes n _ (i + 3) (w % 256) (omega arith) (
    set-IsBytes n _ (i + 2) (w / 2 ^ 8 % 256) (omega arith) (
      set-IsBytes n _ (i + 1) (w / 2 ^ 16 % 256) (omega arith)
        (set-IsBytes n b i (w / 2 ^ 24 % 256) (omega arith) h)))

module _ (bf_encrypt : BfEncrypt) (n : ℕ) (key : BfKey) where
  encipher_block-IsBytes :
      (i : ℕ) (b : Bytes) → IsBytes n b → IsBytes n (encipher_block bf_encrypt key i b)
  unfolding encipher_block
  encipher_block-IsBytes i b h = store_word-IsBytes n _ (i + 4) _ (store_word-IsBytes n b i _ h)

  encipher_rounds-IsBytes :
      (k : ℕ) (b : Bytes) → IsBytes n b → IsBytes n (encipher_rounds bf_encrypt k key b)
  unfolding encipher_rounds
  encipher_rounds-IsBytes zero b h = h
  encipher_rounds-IsBytes (suc k) b h =
      encipher_rounds-IsBytes k _
        (encipher_block-IsBytes 16 _ (encipher_block-IsBytes 8 _ (encipher_block-IsBytes 0 b h)))

-- For every cipher, password, salt and cost, the core returns exactly 24 bytes.
pub bcrypt_core-IsBytes :
    (bf_encrypt : BfEncrypt) (password : Bytes) (pass_len : ℕ) (salt : Bytes) (cost : ℕ)
    → IsBytes 24 (bcrypt_core bf_encrypt password pass_len salt cost)
unfolding bcrypt_core
bcrypt_core-IsBytes bf_encrypt password pass_len salt cost =
    encipher_rounds-IsBytes bf_encrypt 24 _ 64 (codes "OrpheanBeholderScryDoubt") (omega arith)
