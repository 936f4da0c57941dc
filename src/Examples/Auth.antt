-- ===== src/Examples/Auth.antt =====
-- src/handler/auth_handler.cc over a database that is two lists.
use cpp_oj_vbcoding_teach.Prelude.{
  ℕ, suc, ◌≡◌, ◌≢◌, ◌↔◌, ◌⊎◌, refl, Bool, true, false, ◌==◌, ==_iff, ltb, ◌&&◌, if◌then◌else◌, List,
  [], ◌∷◌, some, none, length, Bytes, codes, arith, str_eq, str_eq_refl,
}
use cpp_oj_vbcoding_teach.Prelude.Int.{ℤ, pos, negsuc, is_zero}
use cpp_oj_vbcoding_teach.Model.{User, Session, no_user, no_session}
use cpp_oj_vbcoding_teach.Auth.Types.{Mappers, Json, Reply, refusal, SessionUser}
use cpp_oj_vbcoding_teach.Auth.Cookie.{
  strip_front, strip_back, empty, extract_session_id, tokens_of, in_front, cut, longer, consider,
  find_cookie,
}
use cpp_oj_vbcoding_teach.Auth.Session.{session_user, validate, destroy}
use cpp_oj_vbcoding_teach.Auth.Guard.{authenticate, require_admin, only_admin, passed, denied}
use cpp_oj_vbcoding_teach.Auth.Guard.Sound.{IsLoggedIn, require_admin_iff, require_admin_denies}
use cpp_oj_vbcoding_teach.Auth.Login.{handle_login, handle_register, handle_logout}
use cpp_oj_vbcoding_teach.Auth.Login.Accepts.{Login, handle_login_iff}
use cpp_oj_vbcoding_teach.Auth.Login.Logout.{Forgets, authenticate-handle_logout}
use cpp_oj_vbcoding_teach.Auth.Login.Registers.{Registration, handle_register_iff}
use cpp_oj_vbcoding_teach.Auth.Account.{MapperLaws}
use cpp_oj_vbcoding_teach.Examples.Bcrypt.{swap_words, salt}
use cpp_oj_vbcoding_teach.Examples.Cookie.{zeros}

abbrev same_int : ℤ → ℤ → Bool
same_int (pos m) (pos n) = m == n
same_int (negsuc m) (negsuc n) = m == n
same_int (pos m) (negsuc n) = false
same_int (negsuc m) (pos n) = false

same_int_refl : (i : ℤ) → same_int i i ≡ true
same_int_refl (pos n) = (==_iff n n).1 refl
same_int_refl (negsuc n) = (==_iff n n).1 refl

abbrev Tables : Type 0
Tables = List User × List Session

abbrev by_id : ℤ → List User → User
by_id i [] = no_user
by_id i (u ∷ users) = if same_int u.id i then u else by_id i users

abbrev by_name : Bytes → List User → User
by_name name [] = no_user
by_name name (u ∷ users) = if str_eq u.username name then u else by_name name users

abbrev is_later : Bytes → Bytes → Bool
is_later [] t = false
is_later (c ∷ s) [] = true
is_later (c ∷ s) (x ∷ t) = let rest = is_later s t in if c == x then rest else ltb x c

-- What the clock of the database shows.
abbrev now : Bytes
now = codes "2026-01-01 00:00:00"

abbrev tomorrow : Bytes
tomorrow = codes "2026-01-02 00:00:00"

abbrev by_session : Bytes → List Session → Session
by_session id [] = no_session
by_session id (s ∷ sessions) =
    if str_eq s.id id && is_later s.expires_at now then s else by_session id sessions

abbrev without : Bytes → List Session → List Session
without id [] = []
without id (s ∷ sessions) =
    let rest = without id sessions in if str_eq s.id id then rest else s ∷ rest

-- The newest row stands first, and users are numbered from 1.
abbrev tables : Mappers Tables
tables = record {
  insert_session = λ s d. (true, (d.0, s ∷ d.1));
  find_session = λ id d. (by_session id d.1, d);
  delete_session = λ id d. (true, (d.0, without id d.1));
  delete_expired = λ d. (pos 0, d);
  insert_user =
      λ u d. (pos (suc (length d.0)), (record u { id = pos (suc (length d.0)) } ∷ d.0, d.1));
  find_user = λ i d. (by_id i d.0, d);
  find_username = λ name d. (by_name name d.0, d);
}

suc_not_zero : (n : ℕ) → is_zero (pos (suc n)) ≡ false
suc_not_zero n = ground arith

abbrev tables-MapperLaws : MapperLaws tables
tables-MapperLaws = record {
  is_current = λ expires_at d. is_later expires_at now;
  username_reads = λ name d. refl;
  session_reads = λ id d. refl;
  user_found = λ u d h.
      rw (same_int_refl (pos (suc (length d.0))))
        (record { id_same = refl; name_same = refl; hash_same = refl; role_same = refl });
  username_found = λ u d h.
      rw (str_eq_refl u.username)
        (record { id_same = refl; name_same = refl; hash_same = refl; role_same = refl });
  user_id_from_one = λ u d h. suc_not_zero (length d.0);
  session_found = λ s d h current. rw (str_eq_refl s.id, current) (refl, refl);
  session_keeps_users = λ s i d. refl;
}

abbrev alice : User
alice = record {
  id = pos 1;
  username = codes "alice";
  password = [];
  role = codes "user";
  created_at = [];
}

abbrev alice_seen : SessionUser
alice_seen = record { user_id = pos 1; username = codes "alice"; role = codes "user" }

abbrev one_session : Session
one_session = record { id = codes "7f"; user_id = pos 1; expires_at = tomorrow; created_at = [] }

abbrev with_alice : Tables
with_alice = (alice ∷ [], one_session ∷ [])

require_admin_iff_example :
    (((authenticate tables (codes "session_id=7f") with_alice).0 ≡ passed alice_seen)
      ↔ IsLoggedIn tables (codes "session_id=7f") with_alice alice_seen)
    × (((require_admin tables (codes "session_id=7f") with_alice).0 ≡ passed alice_seen) ↔ (
        IsLoggedIn tables (codes "session_id=7f") with_alice alice_seen
        × (codes "user" ≡ codes "admin")))
require_admin_iff_example = require_admin_iff tables (codes "session_id=7f") with_alice alice_seen

abbrev no_privileges : Reply
no_privileges = refusal 403 (codes "Admin privileges required")

require_admin_denies_example :
    ((no_privileges.status ≡ 401)
      × ((user : SessionUser) → ¬ IsLoggedIn tables (codes "session_id=7f") with_alice user))
    ⊎ ((no_privileges.status ≡ 403)
        × (user : SessionUser) × IsLoggedIn tables (codes "session_id=7f") with_alice user
        × (user.role ≢ codes "admin"))
unfolding authenticate require_admin only_admin extract_session_id empty tokens_of in_front cut
    longer consider find_cookie strip_front strip_back str_eq validate session_user
require_admin_denies_example =
    require_admin_denies tables (codes "session_id=7f") with_alice no_privileges refl

-- Every body names the user alice with this password.
abbrev one_form : Json Bytes
one_form = record {
  parse = λ request. some request;
  text_field = λ body name.
      if str_eq name (codes "username")
      then some (codes "alice")
      else if str_eq name (codes "password")
      then some (codes "wonderland")
      else none;
}

handle_login_iff_example :
    ((handle_login tables swap_words one_form (some zeros) [] (codes "{}") with_alice).0.status
      ≡ 200)
    ↔ ((body : Bytes) × (some (codes "{}") ≡ some body)
        × Login tables swap_words
            (some zeros)
            []
            (one_form.text_field body (codes "username"))
            (one_form.text_field body (codes "password"))
            with_alice)
handle_login_iff_example =
    handle_login_iff tables swap_words one_form (some zeros) [] (codes "{}") with_alice

handle_register_iff_example :
    ((handle_register tables swap_words one_form salt (codes "{}") ([], [])).0.status ≡ 201) ↔ (
      (body : Bytes) × (some (codes "{}") ≡ some body)
      × Registration tables swap_words salt
          (one_form.text_field body (codes "username"))
          (one_form.text_field body (codes "password"))
          (one_form.text_field body (codes "confirm_password"))
          ([], []))
handle_register_iff_example =
    handle_register_iff tables swap_words one_form salt (codes "{}") ([], [])

by_session-without :
    (id : Bytes) (sessions : List Session) → empty (by_session id (without id sessions)).id ≡ true
unfolding empty
by_session-without id [] = refl
by_session-without id (s ∷ sessions) = ground (arith, by_session-without id sessions)

tables-Forgets : Forgets tables
tables-Forgets id d h = by_session-without id d.1

authenticate-handle_logout_example :
    ((handle_logout tables (codes "session_id=7f") with_alice).0.status ≡ 200)
    × ((authenticate tables
          (codes "session_id=7f")
          (handle_logout tables (codes "session_id=7f") with_alice).1).0
        ≡ denied (refusal 401 (codes "Invalid or expired session")))
unfolding destroy empty extract_session_id tokens_of in_front cut longer consider find_cookie
    strip_front strip_back str_eq
authenticate-handle_logout_example =
    authenticate-handle_logout tables (codes "session_id=7f") with_alice tables-Forgets refl
