-- ===== src/Bcrypt/Tables/Box1.antt =====
-- Box 1 of `kPiS` in src/utils/bcrypt.cpp.
use cpp_oj_vbcoding_teach.Prelude.{ℕ, List, [], ◌∷◌}

abbrev pub k_pi_s1 : List ℕ
k_pi_s1 =
    0x4b7a70e9 ∷ 0xb5b32944 ∷ 0xdb75092e ∷ 0xc4192623 ∷ 0xad6ea6b0 ∷ 0x49a7df7d ∷ 0x9cee60b8
    ∷ 0x8fedb266 ∷ 0xecaa8c71 ∷ 0x699a17ff ∷ 0x5664526c ∷ 0xc2b19ee1 ∷ 0x193602a5 ∷ 0x75094c29
    ∷ 0xa0591340 ∷ 0xe4183a3e ∷ 0x3f54989a ∷ 0x5b429d65 ∷ 0x6b8fe4d6 ∷ 0x99f73fd6 ∷ 0xa1d29c07
    ∷ 0xefe830f5 ∷ 0x4d2d38e6 ∷ 0xf0255dc1 ∷ 0x4cdd2086 ∷ 0x8470eb26 ∷ 0x6382e9c6 ∷ 0x021ecc5e
    ∷ 0x09686b3f ∷ 0x3ebaefc9 ∷ 0x3c971814 ∷ 0x6b6a70a1 ∷ 0x687f3584 ∷ 0x52a0e286 ∷ 0xb79c5305
    ∷ 0xaa500737 ∷ 0x3e07841c ∷ 0x7fdeae5c ∷ 0x8e7d44ec ∷ 0x5716f2b8 ∷ 0xb03ada37 ∷ 0xf0500c0d
    ∷ 0xf01c1f04 ∷ 0x0200b3ff ∷ 0xae0cf51a ∷ 0x3cb574b2 ∷ 0x25837a58 ∷ 0xdc0921bd ∷ 0xd19113f9
    ∷ 0x7ca92ff6 ∷ 0x94324773 ∷ 0x22f54701 ∷ 0x3ae5e581 ∷ 0x37c2dadc ∷ 0xc8b57634 ∷ 0x9af3dda7
    ∷ 0xa9446146 ∷ 0x0fd0030e ∷ 0xecc8c73e ∷ 0xa4751e41 ∷ 0xe238cd99 ∷ 0x3bea0e2f ∷ 0x3280bba1
    ∷ 0x183eb331 ∷ 0x4e548b38 ∷ 0x4f6db908 ∷ 0x6f420d03 ∷ 0xf60a04bf ∷ 0x2cb81290 ∷ 0x24977c79
    ∷ 0x5679b072 ∷ 0xbcaf89af ∷ 0xde9a771f ∷ 0xd9930810 ∷ 0xb38bae12 ∷ 0xdccf3f2e ∷ 0x5512721f
    ∷ 0x2e6b7124 ∷ 0x501adde6 ∷ 0x9f84cd87 ∷ 0x7a584718 ∷ 0x7408da17 ∷ 0xbc9f9abc ∷ 0xe94b7d8c
    ∷ 0xec7aec3a ∷ 0xdb851dfa ∷ 0x63094366 ∷ 0xc464c3d2 ∷ 0xef1c1847 ∷ 0x3215d908 ∷ 0xdd433b37
    ∷ 0x24c2ba16 ∷ 0x12a14d43 ∷ 0x2a65c451 ∷ 0x50940002 ∷ 0x133ae4dd ∷ 0x71dff89e ∷ 0x10314e55
    ∷ 0x81ac77d6 ∷ 0x5f11199b ∷ 0x043556f1 ∷ 0xd7a3c76b ∷ 0x3c11183b ∷ 0x5924a509 ∷ 0xf28fe6ed
    ∷ 0x97f1fbfa ∷ 0x9ebabf2c ∷ 0x1e153c6e ∷ 0x86e34570 ∷ 0xeae96fb1 ∷ 0x860e5e0a ∷ 0x5a3e2ab3
    ∷ 0x771fe71c ∷ 0x4e3d06fa ∷ 0x2965dcb9 ∷ 0x99e71d0f ∷ 0x803e89d6 ∷ 0x5266c825 ∷ 0x2e4cc978
    ∷ 0x9c10b36a ∷ 0xc6150eba ∷ 0x94e2ea78 ∷ 0xa5fc3c53 ∷ 0x1e0a2df4 ∷ 0xf2f74ea7 ∷ 0x361d2b3d
    ∷ 0x1939260f ∷ 0x19c27960 ∷ 0x5223a708 ∷ 0xf71312b6 ∷ 0xebadfe6e ∷ 0xeac31f66 ∷ 0xe3bc4595
    ∷ 0xa67bc883 ∷ 0xb17f37d1 ∷ 0x018cff28 ∷ 0xc332ddef ∷ 0xbe6c5aa5 ∷ 0x65582185 ∷ 0x68ab9802
    ∷ 0xeecea50f ∷ 0xdb2f953b ∷ 0x2aef7dad ∷ 0x5b6e2f84 ∷ 0x1521b628 ∷ 0x29076170 ∷ 0xecdd4775
    ∷ 0x619f1510 ∷ 0x13cca830 ∷ 0xeb61bd96 ∷ 0x0334fe1e ∷ 0xaa0363cf ∷ 0xb5735c90 ∷ 0x4c70a239
    ∷ 0xd59e9e0b ∷ 0xcbaade14 ∷ 0xeecc86bc ∷ 0x60622ca7 ∷ 0x9cab5cab ∷ 0xb2f3846e ∷ 0x648b1eaf
    ∷ 0x19bdf0ca ∷ 0xa02369b9 ∷ 0x655abb50 ∷ 0x40685a32 ∷ 0x3c2ab4b3 ∷ 0x319ee9d5 ∷ 0xc021b8f7
    ∷ 0x9b540b19 ∷ 0x875fa099 ∷ 0x95f7997e ∷ 0x623d7da8 ∷ 0xf837889a ∷ 0x97e32d77 ∷ 0x11ed935f
    ∷ 0x16681281 ∷ 0x0e358829 ∷ 0xc7e61fd6 ∷ 0x96dedfa1 ∷ 0x7858ba99 ∷ 0x57f584a5 ∷ 0x1b227263
    ∷ 0x9b83c3ff ∷ 0x1ac24696 ∷ 0xcdb30aeb ∷ 0x532e3054 ∷ 0x8fd948e4 ∷ 0x6dbc3128 ∷ 0x58ebf2ef
    ∷ 0x34c6ffea ∷ 0xfe28ed61 ∷ 0xee7c3c73 ∷ 0x5d4a14d9 ∷ 0xe864b7e3 ∷ 0x42105d14 ∷ 0x203e13e0
    ∷ 0x45eee2b6 ∷ 0xa3aaabea ∷ 0xdb6c4f15 ∷ 0xfacb4fd0 ∷ 0xc742f442 ∷ 0xef6abbb5 ∷ 0x654f3b1d
    ∷ 0x41cd2105 ∷ 0xd81e799e ∷ 0x86854dc7 ∷ 0xe44b476a ∷ 0x3d816250 ∷ 0xcf62a1f2 ∷ 0x5b8d2646
    ∷ 0xfc8883a0 ∷ 0xc1c7b6a3 ∷ 0x7f1524c3 ∷ 0x69cb7492 ∷ 0x47848a0b ∷ 0x5692b285 ∷ 0x095bbf00
    ∷ 0xad19489d ∷ 0x1462b174 ∷ 0x23820e00 ∷ 0x58428d2a ∷ 0x0c55f5ea ∷ 0x1dadf43e ∷ 0x233f7061
    ∷ 0x3372f092 ∷ 0x8d937e41 ∷ 0xd65fecf1 ∷ 0x6c223bdb ∷ 0x7cde3759 ∷ 0xcbee7460 ∷ 0x4085f2a7
    ∷ 0xce77326e ∷ 0xa6078084 ∷ 0x19f8509e ∷ 0xe8efd855 ∷ 0x61d99735 ∷ 0xa969a7aa ∷ 0xc50c06c2
    ∷ 0x5a04abfc ∷ 0x800bcadc ∷ 0x9e447a2e ∷ 0xc3453484 ∷ 0xfdd56705 ∷ 0x0e1e9ec9 ∷ 0xdb73dbd3
    ∷ 0x105588cd ∷ 0x675fda79 ∷ 0xe3674340 ∷ 0xc5c43465 ∷ 0x713e38d8 ∷ 0x3d28f89e ∷ 0xf16dff20
    ∷ 0x153e21e7 ∷ 0x8fb03d4a ∷ 0xe6e39f2b ∷ 0xdb83adf7 ∷ []
