-- ===== src/Auth/Cookie.antt =====
-- The session cookie: extractSessionId, setSessionCookie and clearSessionCookie of
-- src/handler/auth_handler.cc. The argument of extract_session_id is the value of the Cookie header,
-- empty where the request has none.
pub mod RoundTrip
use cpp_oj_vbcoding_teach.Prelude.{
  ℕ, ◌*◌, Bool, true, false, ◌&&◌, ◌==◌, if◌then◌else◌, List, [], ◌∷◌, ◌++◌, Option, none, some,
  Bytes, codes, str_eq, decimal,
}

abbrev pub k_session_cookie_name : Bytes
k_session_cookie_name = codes "session_id"

abbrev pub k_max_age_sec : ℕ
k_max_age_sec = 24 * 60 * 60

-- `std::string::empty`.
unfoldable pub empty : Bytes → Bool
empty [] = true
empty (c ∷ s) = false

unfoldable pub in_front : ℕ → List Bytes → List Bytes
in_front c [] = (c ∷ []) ∷ []
in_front c (token ∷ tokens) = (c ∷ token) ∷ tokens

-- What the calls of `std::getline(stream, token, ';')` read one after the other: the text behind the
-- last semicolon is a token only if it is not empty.
unfoldable pub tokens_of : Bytes → List Bytes
tokens_of [] = []
tokens_of (c ∷ raw) =
    let tokens = tokens_of raw in if c == b';' then [] ∷ tokens else in_front c tokens

unfoldable pub longer : ℕ → Option (Bytes × Bytes) → Option (Bytes × Bytes)
longer c none = none
longer c (some (key, value)) = some (c ∷ key, value)

-- The token before and behind its first `=`, if it has one.
unfoldable pub cut : Bytes → Option (Bytes × Bytes)
cut [] = none
cut (c ∷ token) = if c == b'=' then some ([], token) else longer c (cut token)

-- `while (!s.empty() && s.front() == ' ') s.erase(0, 1)`.
unfoldable pub strip_front : Bytes → Bytes
strip_front [] = []
strip_front (c ∷ s) = let rest = strip_front s in if c == b' ' then rest else c ∷ s

-- `while (!s.empty() && s.back() == ' ') s.pop_back()`: a space goes if only spaces are behind it.
unfoldable pub strip_back : Bytes → Bytes
strip_back [] = []
strip_back (c ∷ s) = let rest = strip_back s in if c == b' ' && empty rest then [] else c ∷ rest

abbrev pub strip : Bytes → Bytes
strip s = strip_back (strip_front s)

-- One round of the loop, with what the rounds behind it return.
unfoldable pub consider : Option (Bytes × Bytes) → Bytes → Bytes
consider none rest = rest
consider (some (key, value)) rest =
    if str_eq (strip key) k_session_cookie_name then strip value else rest

unfoldable pub find_cookie : List Bytes → Bytes
find_cookie [] = []
find_cookie (token ∷ tokens) = consider (cut token) (find_cookie tokens)

unfoldable pub extract_session_id : Bytes → Bytes
extract_session_id raw = if empty raw then [] else find_cookie (tokens_of raw)

-- The value of the header Set-Cookie.
unfoldable pub set_session_cookie : Bytes → Bytes
set_session_cookie session_id =
    let max_age = codes "; Max-Age=" ++ decimal k_max_age_sec in
    let attributes =
      codes "; Path=/" ++ (codes "; HttpOnly" ++ (codes "; SameSite=Lax" ++ max_age)) in
    k_session_cookie_name ++ (codes "=" ++ (session_id ++ attributes))

unfoldable pub clear_session_cookie : Bytes
clear_session_cookie = k_session_cookie_name ++ codes "=; Path=/; HttpOnly; SameSite=Lax; Max-Age=0"
