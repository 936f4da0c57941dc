-- ===== src/Auth/Session.antt =====
-- SessionManager of src/service/session_service.cc. What RAND_bytes gives is the argument `random`, none
-- where it fails; `expires_at` is what nowPlusHours returns for the day ahead.
pub mod Id
use cpp_oj_vbcoding_teach.Prelude.{
  ℕ, ◌+◌, ◌-◌, ◌/◌, ◌%◌, ltb, Bool, false, if◌then◌else◌, List, [], ◌∷◌, Bytes, Option, none, some,
}
use cpp_oj_vbcoding_teach.Prelude.Int.{ℤ, is_zero}
use cpp_oj_vbcoding_teach.Model.{User, Session}
use cpp_oj_vbcoding_teach.Auth.Types.{Mappers, SessionUser, no_session_user}
use cpp_oj_vbcoding_teach.Auth.Cookie.{empty}

-- A digit of `std::hex`.
unfoldable pub hex_digit : ℕ → ℕ
hex_digit n = if ltb n 10 then b'0' + n else b'a' + (n - 10)

-- Every byte in two digits: `std::setw(2)` with the fill `0`.
unfoldable pub hex : Bytes → Bytes
hex [] = []
hex (c ∷ buf) = hex_digit (c / 16) ∷ hex_digit (c % 16) ∷ hex buf

unfoldable pub generate_session_id : Option Bytes → Bytes
generate_session_id none = []
generate_session_id (some buf) = hex buf

module _ {D : Type 0} (mappers : Mappers D) where
  open mappers use {insert_session, find_session, delete_session, delete_expired, find_user}

  unfoldable pub create : Option Bytes → Bytes → ℤ → D → Bytes × D
  create random expires_at user_id d =
      let session_id = generate_session_id random in
      let session : Session = record {
        id = session_id;
        user_id = user_id;
        expires_at = expires_at;
        created_at = [];
      } in
      let (inserted, d') = insert_session session d in
      if empty session_id then ([], d) else if inserted then (session_id, d') else ([], d')

  -- The part of `validate` behind the two look-ups.
  unfoldable pub session_user : Bytes → User → D → SessionUser × D
  session_user session_id user d =
      if is_zero user.id
      then (no_session_user, (delete_session session_id d).1)
      else (record { user_id = user.id; username = user.username; role = user.role }, d)

  unfoldable pub validate : Bytes → D → SessionUser × D
  validate session_id d =
      let (session, d₁) = find_session session_id d in
      let (user, d₂) = find_user session.user_id d₁ in
      if empty session_id
      then (no_session_user, d)
      else if empty session.id
      then (no_session_user, d₁)
      else session_user session_id user d₂

  unfoldable pub destroy : Bytes → D → Bool × D
  destroy session_id d = if empty session_id then (false, d) else delete_session session_id d

  abbrev pub cleanup_expired : D → ℤ × D
  cleanup_expired d = delete_expired d
