-- ===== src/Auth/Cookie/RoundTrip.antt =====
-- What a browser sends back is read as it was set.
use cpp_oj_vbcoding_teach.Prelude.{
  ℕ, ◌≡◌, ◌≢◌, refl, ap, ◌∙◌, false, if◌then◌else◌, List, [], ◌∷◌, ◌++◌, append-nil, All,
  All-append, some, Bytes, str_eq, arith,
}
use cpp_oj_vbcoding_teach.Auth.Cookie.{
  k_session_cookie_name, empty, in_front, tokens_of, longer, cut, strip_front, strip, consider,
  find_cookie, extract_session_id,
}

-- A pair that the header can carry: no semicolon in it, no `=` in the name, and no spaces around either.
pub record IsCookie (cookie : Bytes × Bytes) : Type 0 where
  pub key_plain : All (λ c. (c ≢ b';') × (c ≢ b'=')) cookie.0
  pub value_plain : All (λ c. c ≢ b';') cookie.1
  pub key_stripped : strip cookie.0 ≡ cookie.0
  pub value_stripped : strip cookie.1 ≡ cookie.1

abbrev pub pair : Bytes × Bytes → Bytes
pair (key, value) = key ++ b'=' ∷ value

-- The Cookie header that RFC 6265 describes: the pairs with a semicolon and a space between them.
abbrev pub more : List (Bytes × Bytes) → Bytes
more [] = []
more (cookie ∷ cookies) = b';' ∷ b' ' ∷ (pair cookie ++ more cookies)

abbrev pub header : List (Bytes × Bytes) → Bytes
header [] = []
header (cookie ∷ cookies) = pair cookie ++ more cookies

-- The value of the first cookie with the name of the session's.
abbrev pub session_of : List (Bytes × Bytes) → Bytes
session_of [] = []
session_of ((key, value) ∷ cookies) =
    if str_eq key k_session_cookie_name then value else session_of cookies

abbrev spaced : List (Bytes × Bytes) → List Bytes
spaced [] = []
spaced (cookie ∷ cookies) = (b' ' ∷ pair cookie) ∷ spaced cookies

tokens_of-last :
    (c : ℕ) (t : Bytes) → All (λ c. c ≢ b';') (c ∷ t) → tokens_of (c ∷ t) ≡ (c ∷ t) ∷ []
unfolding tokens_of in_front
tokens_of-last c [] (n, h) = ground arith
tokens_of-last c (d ∷ t) (n, h) = ground (arith, tokens_of-last d t h)

tokens_of-next :
    (t raw : Bytes) → All (λ c. c ≢ b';') t → tokens_of (t ++ b';' ∷ raw) ≡ t ∷ tokens_of raw
unfolding tokens_of in_front
tokens_of-next [] raw h = refl
tokens_of-next (c ∷ t) raw (n, h) = ground (arith, tokens_of-next t raw h)

cut-pair :
    (key value : Bytes)
    → All (λ c. (c ≢ b';') × (c ≢ b'=')) key
    → cut (pair (key, value)) ≡ some (key, value)
unfolding cut longer
cut-pair [] value h = refl
cut-pair (c ∷ key) value ((_, n), h) = ground (arith, cut-pair key value h)

equals_plain : ◌≢◌ {A = ℕ} b'=' b';'
equals_plain e = omega (arith, e)

space_plain : ◌≢◌ {A = ℕ} b' ' b';'
space_plain e = omega (arith, e)

key-plain : (key : Bytes) → All (λ c. (c ≢ b';') × (c ≢ b'=')) key → All (λ c. c ≢ b';') key
key-plain [] _ = tt
key-plain (c ∷ key) ((n, _), h) = (n, key-plain key h)

pair-plain : (cookie : Bytes × Bytes) → IsCookie cookie → All (λ c. c ≢ b';') (pair cookie)
pair-plain (key, value) h =
    All-append (λ c. c ≢ b';') key (b'=' ∷ value) (key-plain key h.key_plain)
      (equals_plain, h.value_plain)

tokens_of-more :
    (t : Bytes) (cookies : List (Bytes × Bytes))
    → t ≢ []
    → All (λ c. c ≢ b';') t
    → All IsCookie cookies
    → tokens_of (t ++ more cookies) ≡ t ∷ spaced cookies
tokens_of-more [] cookies n h k = absurd (n refl)
tokens_of-more (c ∷ t) [] n h k = ap tokens_of (append-nil (c ∷ t)) ∙ tokens_of-last c t h
tokens_of-more t (cookie ∷ cookies) n h (k, ks) =
    tokens_of-next t (b' ' ∷ (pair cookie ++ more cookies)) h
    ∙ ap (◌∷◌ t) (
        tokens_of-more (b' ' ∷ pair cookie) cookies (λ e. cc) (space_plain, pair-plain cookie k) ks)

consider-cookie :
    (cookie : Bytes × Bytes) (rest : Bytes)
    → IsCookie cookie
    → consider (some cookie) rest
      ≡ (if str_eq cookie.0 k_session_cookie_name then cookie.1 else rest)
unfolding consider
consider-cookie (key, value) rest h = rw (h.key_stripped, h.value_stripped) refl

consider-spaced :
    (cookie : Bytes × Bytes) (rest : Bytes)
    → IsCookie cookie
    → consider (cut (b' ' ∷ pair cookie)) rest
      ≡ (if str_eq cookie.0 k_session_cookie_name then cookie.1 else rest)
unfolding consider cut longer strip_front
consider-spaced (key, value) rest h =
    ap (λ o. consider (longer b' ' o) rest) (cut-pair key value h.key_plain)
    ∙ consider-cookie (key, value) rest h

find_cookie-spaced :
    (cookies : List (Bytes × Bytes))
    → All IsCookie cookies
    → find_cookie (spaced cookies) ≡ session_of cookies
unfolding find_cookie
find_cookie-spaced [] _ = refl
find_cookie-spaced (cookie ∷ cookies) (k, ks) =
    consider-spaced cookie (find_cookie (spaced cookies)) k
    ∙ ap (λ rest. if str_eq cookie.0 k_session_cookie_name then cookie.1 else rest)
        (find_cookie-spaced cookies ks)

pair-full : (key value t : Bytes) → empty (pair (key, value) ++ t) ≡ false
unfolding empty
pair-full [] value t = refl
pair-full (c ∷ key) value t = refl

pair-not_nil : (key value : Bytes) → pair (key, value) ≢ []
pair-not_nil [] value e = cc
pair-not_nil (c ∷ key) value e = cc

extract-tokens :
    (raw : Bytes) → empty raw ≡ false → extract_session_id raw ≡ find_cookie (tokens_of raw)
unfolding extract_session_id
extract-tokens raw e = simp (extract_session_id, e)

-- From the header that a browser makes of its cookies, the session id that is read is the value of the
-- first cookie with that name, and empty if there is none. The names and values have no semicolon and no
-- spaces around them, and the names no `=`.
pub extract_session_id-header :
    (cookies : List (Bytes × Bytes))
    → All IsCookie cookies
    → extract_session_id (header cookies) ≡ session_of cookies
unfolding extract_session_id find_cookie empty
extract_session_id-header [] _ = refl
extract_session_id-header (cookie ∷ cookies) (k, ks) =
    extract-tokens (pair cookie ++ more cookies) (pair-full cookie.0 cookie.1 (more cookies))
    ∙ ap find_cookie (
        tokens_of-more (pair cookie) cookies (pair-not_nil cookie.0 cookie.1) (pair-plain cookie k)
          ks)
    ∙ ap (λ o. consider o (find_cookie (spaced cookies))) (cut-pair cookie.0 cookie.1 k.key_plain)
    ∙ consider-cookie cookie (find_cookie (spaced cookies)) k
    ∙ ap (λ rest. if str_eq cookie.0 k_session_cookie_name then cookie.1 else rest)
        (find_cookie-spaced cookies ks)
