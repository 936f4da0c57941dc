-- ===== src/Examples/Cookie.antt =====
-- The session cookie and the session ids on concrete texts.
use cpp_oj_vbcoding_teach.Prelude.{
  ℕ, zero, suc, ◌<◌, ◌≡◌, refl, [], ◌∷◌, ◌++◌, some, length, Bytes, codes, ap, arith, str_eq, All,
}
use cpp_oj_vbcoding_teach.Auth.Cookie.{
  strip_front, strip_back, empty, extract_session_id, set_session_cookie, k_session_cookie_name,
  tokens_of, in_front, cut, longer, consider, find_cookie,
}
use cpp_oj_vbcoding_teach.Auth.Cookie.RoundTrip.{IsCookie, header, pair}
use cpp_oj_vbcoding_teach.Auth.Session.{generate_session_id}
use cpp_oj_vbcoding_teach.Auth.Session.Id.{IsRandom, extract_session_id-set_session_cookie}

abbrev pub repeated : ℕ → ℕ → Bytes
repeated zero c = []
repeated (suc n) c = c ∷ repeated n c

length-repeated : (n c : ℕ) → length (repeated n c) ≡ n
length-repeated zero c = refl
length-repeated (suc n) c = ap suc (length-repeated n c)

repeated-All : (n c : ℕ) → c < 256 → All (λ c. c < 256) (repeated n c)
repeated-All zero c h = tt
repeated-All (suc n) c h = (h, repeated-All n c h)

pub repeated-IsRandom : (c : ℕ) → c < 256 → IsRandom (repeated 32 c)
repeated-IsRandom c h = record { count = length-repeated 32 c; bytes = repeated-All 32 c h }

abbrev pub zeros : Bytes
zeros = repeated 32 0

abbrev sevens : Bytes
sevens = repeated 32 7

abbrev theme : Bytes × Bytes
theme = (codes "a", codes "b")

theme-IsCookie : IsCookie theme
unfolding strip_front strip_back empty
theme-IsCookie = record {
  key_plain = ground arith;
  value_plain = ground arith;
  key_stripped = refl;
  value_stripped = refl;
}

read_second : extract_session_id (codes "a=b;  session_id = 7f ;c") ≡ codes "7f"
unfolding extract_session_id empty tokens_of in_front cut longer consider find_cookie strip_front
    strip_back str_eq
read_second = refl

extract_session_id-set_session_cookie_example :
    (extract_session_id
        (header (theme ∷ (k_session_cookie_name, generate_session_id (some zeros)) ∷ []))
      ≡ generate_session_id (some zeros))
    × (rest : Bytes) × (set_session_cookie (generate_session_id (some zeros))
        ≡ pair (k_session_cookie_name, generate_session_id (some zeros)) ++ b';' ∷ rest)
unfolding str_eq
extract_session_id-set_session_cookie_example =
    extract_session_id-set_session_cookie (theme ∷ []) [] zeros (repeated-IsRandom 0 (omega arith))
      (theme-IsCookie, tt) tt (refl, tt)
