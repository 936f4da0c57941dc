-- ===== src/Bcrypt/Core.antt =====
-- The key schedule and the core of src/utils/bcrypt.cpp. `BF_encrypt` of OpenSSL encrypts one block
-- of two words under a key and does not change the key: here it is the parameter `bf_encrypt`.
pub mod Truncation
pub mod Output
use Prim.Native.Nat.{bit_or, bit_xor, min}
use cpp_oj_vbcoding_teach.Prelude.{
  ℕ, zero, suc, ◌+◌, ◌*◌, ◌/◌, ◌%◌, ◌^◌, Bool, true, false, not, ◌&&◌, List, [], ◌∷◌, Bytes, codes,
  Option, none, some, ltb, if◌then◌else◌, get_or, set,
}
use cpp_oj_vbcoding_teach.Prelude.Words.{shl32}
use cpp_oj_vbcoding_teach.Bcrypt.Tables.{k_pi_p, k_pi_s}

-- BF_KEY: the subkeys P and the boxes S.
pub record BfKey : Type 0 where
  pub p : List ℕ
  pub s : List ℕ

-- What `BF_encrypt` does to the words l and r.
abbrev pub BfEncrypt : Type 0
BfEncrypt = BfKey → ℕ → ℕ → ℕ × ℕ

abbrev max_key_len : ℕ
max_key_len = 72

-- Four `val |= password[j] << k; j = (j + 1) % keyLen` of one round: `val` and the next j.
pub key_word : Bytes → ℕ → ℕ → ℕ × ℕ
key_word password key_len j =
    let j₁ = (j + 1) % key_len in
    let j₂ = (j₁ + 1) % key_len in
    let j₃ = (j₂ + 1) % key_len in
    let val₀ = bit_or 0 (get_or password j 0) in
    let val₁ = bit_or val₀ (shl32 (get_or password j₁ 0) 8) in
    let val₂ = bit_or val₁ (shl32 (get_or password j₂ 0) 16) in
    let val₃ = bit_or val₂ (shl32 (get_or password j₃ 0) 24) in (val₃, (j₃ + 1) % key_len)

-- The loop `key.P[i] ^= val` (and `key.S[i] ^= val`) over the words ws: the words and the last j.
pub xor_words : Bytes → ℕ → List ℕ → ℕ → List ℕ × ℕ
xor_words password key_len [] j = ([], j)
xor_words password key_len (w ∷ ws) j =
    let (val, j') = key_word password key_len j in
    let (ws', j'') = xor_words password key_len ws j' in (bit_xor w val ∷ ws', j'')

-- The key and the byte index that `xorPassword` leaves; `expandKey` has the same loops inline.
pub xor_password : BfKey → Bytes → ℕ → ℕ → BfKey × ℕ
xor_password key password pass_len j =
    let key_len = if ltb pass_len max_key_len then pass_len else max_key_len in
    let (p', j') = xor_words password key_len key.p j in
    let (s', j'') = xor_words password key_len key.s j' in (record { p = p'; s = s' }, j'')

-- `if (hasPassword)` of `expandKey`; a null pointer is `none`.
pub mix_password : BfKey → Option Bytes → ℕ → BfKey
mix_password key none pass_len = key
mix_password key (some password) pass_len =
    if ltb 0 pass_len then (xor_password key password pass_len 0).0 else key

-- The four bytes at i, the first in the highest place.
pub load_word : Bytes → ℕ → ℕ
load_word b i =
    bit_or
      (bit_or (bit_or (shl32 (get_or b i 0) 24) (shl32 (get_or b (i + 1) 0) 16))
        (shl32 (get_or b (i + 2) 0) 8))
      (get_or b (i + 3) 0)

pub store_word : Bytes → ℕ → ℕ → Bytes
store_word b i w =
    set
      (set (set (set b i (w / 2 ^ 24 % 256)) (i + 1) (w / 2 ^ 16 % 256)) (i + 2) (w / 2 ^ 8 % 256))
      (i + 3) (w % 256)

module _ (bf_encrypt : BfEncrypt) where
  pub crypt_encipher : BfKey → ℕ → ℕ → ℕ × ℕ
  crypt_encipher key l r = bf_encrypt key l r

  -- The loop over P from index i, by the number of rounds left; each round encrypts under the key
  -- that the rounds before it wrote.
  pub fill_p : ℕ → ℕ → BfKey → ℕ → ℕ → BfKey × ℕ × ℕ
  fill_p zero i key l r = (key, l, r)
  fill_p (suc n) i key l r =
      let (l', r') = crypt_encipher key l r in
      fill_p n (i + 2) (record key { p = set (set key.p i l') (i + 1) r' }) l' r'

  pub fill_s : ℕ → ℕ → BfKey → ℕ → ℕ → BfKey × ℕ × ℕ
  fill_s zero i key l r = (key, l, r)
  fill_s (suc n) i key l r =
      let (l', r') = crypt_encipher key l r in
      fill_s n (i + 2) (record key { s = set (set key.s i l') (i + 1) r' }) l' r'

  pub encrypt_through_state : BfKey → ℕ → ℕ → Bool → Bool → BfKey × ℕ × ℕ
  encrypt_through_state key l r update_p update_s =
      let (key', l', r') = if update_p then fill_p 9 0 key l r else (key, l, r) in
      if update_s then fill_s 512 0 key' l' r' else (key', l', r')

  -- `expandKey`: the block starts as the first eight bytes of the salt, or as zero.
  pub expand_key : BfKey → Option Bytes → Option Bytes → ℕ → BfKey
  expand_key key salt password pass_len =
      let l : ℕ = elim salt [ none ↦ 0 | some bytes ↦ load_word bytes 0 ] in
      let r : ℕ = elim salt [ none ↦ 0 | some bytes ↦ load_word bytes 4 ] in
      (encrypt_through_state (mix_password key password pass_len) l r true true).0

  -- The loop of `eksBlowfishSetup`, by the rounds left.
  pub setup_rounds : ℕ → Bytes → Bytes → ℕ → BfKey → BfKey
  setup_rounds zero salt password pass_len key = key
  setup_rounds (suc n) salt password pass_len key =
      setup_rounds n salt password pass_len
        (expand_key (expand_key key none (some password) pass_len) none (some salt) 16)

  -- `1UL << logRounds`: the machine takes the shift count modulo 64.
  pub eks_blowfish_setup : Bytes → Bytes → ℕ → ℕ → BfKey
  eks_blowfish_setup salt password pass_len log_rounds =
      setup_rounds (2 ^ (log_rounds % 64)) salt password pass_len
        (expand_key (record { p = k_pi_p; s = k_pi_s }) (some salt) (some password) pass_len)

  -- One block of the 24 bytes, at offset i.
  pub encipher_block : BfKey → ℕ → Bytes → Bytes
  encipher_block key i ctext =
      let (l, r) = crypt_encipher key (load_word ctext i) (load_word ctext (i + 4)) in
      store_word (store_word ctext i l) (i + 4) r

  pub encipher_rounds : ℕ → BfKey → Bytes → Bytes
  encipher_rounds zero key ctext = ctext
  encipher_rounds (suc n) key ctext =
      encipher_rounds n key
        (encipher_block key 16 (encipher_block key 8 (encipher_block key 0 ctext)))

  pub bcrypt_core : Bytes → ℕ → Bytes → ℕ → Bytes
  bcrypt_core password pass_len salt cost =
      encipher_rounds 64 (eks_blowfish_setup salt password pass_len cost)
        (codes "OrpheanBeholderScryDoubt")
