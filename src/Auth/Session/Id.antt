-- ===== src/Auth/Session/Id.antt =====
-- The session ids: their form, and that a browser that sends one back is read right.
use cpp_oj_vbcoding_teach.Prelude.{
  ℕ, ◌*◌, ◌/◌, ◌%◌, ◌<◌, ◌≤◌, ◌≡◌, ◌≢◌, ◌⊎◌, ◌↔◌, refl, ap, ap₂, ◌∙◌, List, [], ◌∷◌, ◌++◌, All,
  All-append, Bytes, codes, some, length, decimal, arith, str_eq, str_eq_refl, false,
}
use cpp_oj_vbcoding_teach.Auth.Cookie.{
  strip_front, strip_back, empty, extract_session_id, k_session_cookie_name, k_max_age_sec,
  set_session_cookie,
}
use cpp_oj_vbcoding_teach.Auth.Cookie.RoundTrip.{
  IsCookie, header, pair, session_of, extract_session_id-header,
}
use cpp_oj_vbcoding_teach.Auth.Session.{hex_digit, hex, generate_session_id}

abbrev IsHexDigit : ℕ → Type 0
IsHexDigit c = ((48 ≤ c) × (c ≤ 57)) ⊎ ((97 ≤ c) × (c ≤ 102))

hex_digit-IsHexDigit : (n : ℕ) → n < 16 → IsHexDigit (hex_digit n)
unfolding hex_digit
hex_digit-IsHexDigit n h = ground arith

hex_digit_inj : (m n : ℕ) → m < 16 → n < 16 → hex_digit m ≡ hex_digit n → m ≡ n
unfolding hex_digit
hex_digit_inj m n hm hn h = ground arith

hex-All : (buf : Bytes) → All (λ c. c < 256) buf → All IsHexDigit (hex buf)
unfolding hex
hex-All [] _ = tt
hex-All (c ∷ buf) (h, hs) = (
  hex_digit-IsHexDigit (c / 16) (omega arith),
  (hex_digit-IsHexDigit (c % 16) (omega arith), hex-All buf hs),
)

length-hex : (buf : Bytes) → length (hex buf) ≡ 2 * length buf
unfolding hex
length-hex [] = refl
length-hex (c ∷ buf) = omega (arith, length-hex buf)

hex_inj : (a b : Bytes) → All (λ c. c < 256) a → All (λ c. c < 256) b → hex a ≡ hex b → a ≡ b
unfolding hex
hex_inj [] [] ha hb h = refl
hex_inj [] (d ∷ b) ha hb h = absurd (cc)
hex_inj (c ∷ a) [] ha hb h = absurd (cc)
hex_inj (c ∷ a) (d ∷ b) (hc, ha) (hd, hb) h =
    let low : c % 16 ≡ d % 16 = hex_digit_inj (c % 16) (d % 16) (omega arith) (omega arith) (cc) in
    let high : c / 16 ≡ d / 16 = hex_digit_inj (c / 16) (d / 16) (omega arith) (omega arith) (cc) in
    let same : c ≡ d = omega arith in ap₂ ◌∷◌ same (hex_inj a b ha hb (cc))

strip_front-All : (s : Bytes) → All IsHexDigit s → strip_front s ≡ s
unfolding strip_front
strip_front-All [] _ = refl
strip_front-All (c ∷ s) (h, hs) = ground arith

strip_back-All : (s : Bytes) → All IsHexDigit s → strip_back s ≡ s
unfolding strip_back
strip_back-All [] _ = refl
strip_back-All (c ∷ s) (h, hs) = ground (arith, strip_back-All s hs)

plain-All : (s : Bytes) → All IsHexDigit s → All (λ c. c ≢ b';') s
plain-All [] _ = tt
plain-All (c ∷ s) (h, hs) = (λ e. omega arith, plain-All s hs)

-- The random bytes of an id.
pub record IsRandom (buf : Bytes) : Type 0 where
  pub count : length buf ≡ 32
  pub bytes : All (λ c. c < 256) buf

-- An id has 64 characters, and different random bytes give different ids.
pub generate_session_id_inj :
    (a b : Bytes)
    → IsRandom a
    → IsRandom b
    → (length (generate_session_id (some a)) ≡ 64)
      × ((generate_session_id (some a) ≡ generate_session_id (some b)) ↔ (a ≡ b))
unfolding generate_session_id
generate_session_id_inj a b ha hb =
    (omega (arith, length-hex a, ha.count), (λ h. hex_inj a b ha.bytes hb.bytes h, λ h. ap hex h))

pub session-IsCookie :
    (buf : Bytes) → IsRandom buf → IsCookie (k_session_cookie_name, generate_session_id (some buf))
unfolding generate_session_id strip_front strip_back empty
session-IsCookie buf h =
    let digits = hex-All buf h.bytes in
    record {
      key_plain = ground arith;
      value_plain = plain-All (hex buf) digits;
      key_stripped = refl;
      value_stripped =
          ap strip_back (strip_front-All (hex buf) digits) ∙ strip_back-All (hex buf) digits;
    }

session_of-append :
    (before after : List (Bytes × Bytes)) (session_id : Bytes)
    → All (λ cookie. str_eq cookie.0 k_session_cookie_name ≡ false) before
    → session_of (before ++ (k_session_cookie_name, session_id) ∷ after) ≡ session_id
session_of-append [] after session_id _ = rw (str_eq_refl k_session_cookie_name) refl
session_of-append (cookie ∷ before) after session_id (other, others) =
    rw other (session_of-append before after session_id others)

-- A session id that the server sets is read back from a Cookie header that holds it, among any other
-- cookies, if none before it has its name; and the text that sets it starts with this pair.
pub extract_session_id-set_session_cookie :
    (before after : List (Bytes × Bytes)) (buf : Bytes)
    → IsRandom buf
    → All IsCookie before
    → All IsCookie after
    → All (λ cookie. str_eq cookie.0 k_session_cookie_name ≡ false) before
    → (let session_id = generate_session_id (some buf) in
        (extract_session_id (header (before ++ (k_session_cookie_name, session_id) ∷ after))
          ≡ session_id)
        × (rest : Bytes) × (set_session_cookie session_id
            ≡ pair (k_session_cookie_name, session_id) ++ b';' ∷ rest))
unfolding set_session_cookie
extract_session_id-set_session_cookie before after buf h hb ha others = (
  extract_session_id-header
        (before ++ (k_session_cookie_name, generate_session_id (some buf)) ∷ after)
        (All-append IsCookie before _ hb (session-IsCookie buf h, ha))
      ∙ session_of-append before after (generate_session_id (some buf)) others,
  codes " Path=/"
      ++ (codes "; HttpOnly"
          ++ (codes "; SameSite=Lax" ++ (codes "; Max-Age=" ++ decimal k_max_age_sec))),
  refl,
)
