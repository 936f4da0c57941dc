-- ===== src/Bcrypt/Tables.antt =====
-- The initial Blowfish state of src/utils/bcrypt.cpp: `kPiP`, and `kPiS` as its four boxes of 256.
pub mod Box0
pub mod Box1
pub mod Box2
pub mod Box3
use Box0.{k_pi_s0}
use Box1.{k_pi_s1}
use Box2.{k_pi_s2}
use Box3.{k_pi_s3}
use cpp_oj_vbcoding_teach.Prelude.{ℕ, List, [], ◌∷◌, ◌++◌, ◌≡◌, refl, length}

abbrev pub k_pi_p : List ℕ
k_pi_p =
    0x243f6a88 ∷ 0x85a308d3 ∷ 0x13198a2e ∷ 0x03707344 ∷ 0xa4093822 ∷ 0x299f31d0 ∷ 0x082efa98
    ∷ 0xec4e6c89 ∷ 0x452821e6 ∷ 0x38d01377 ∷ 0xbe5466cf ∷ 0x34e90c6c ∷ 0xc0ac29b7 ∷ 0xc97c50dd
    ∷ 0x3f84d5b5 ∷ 0xb5470917 ∷ 0x9216d5d9 ∷ 0x8979fb1b ∷ []

abbrev pub k_pi_s : List ℕ
k_pi_s = k_pi_s0 ++ (k_pi_s1 ++ (k_pi_s2 ++ k_pi_s3))

length-k_pi_p : length k_pi_p ≡ 18
length-k_pi_p = refl

length-k_pi_s : length k_pi_s ≡ 1024
length-k_pi_s = refl
