-- ===== src/Auth/Login.antt =====
-- handleRegister, handleLogin and handleLogout of src/handler/auth_handler.cc. The cipher of OpenSSL,
-- the salt, the random bytes and the time are arguments.
pub mod Accepts
pub mod Registers
pub mod Logout
use cpp_oj_vbcoding_teach.Prelude.{
  ℕ, ltb, Bool, true, not, ◌||◌, if◌then◌else◌, [], ◌∷◌, Bytes, codes, str_eq, length, Option, none,
  some,
}
use cpp_oj_vbcoding_teach.Prelude.Int.{pos, is_zero, is_negative}
use cpp_oj_vbcoding_teach.Bcrypt.Core.{BfEncrypt}
use cpp_oj_vbcoding_teach.Bcrypt.Hash.{bcrypt_hash, bcrypt_verify}
use cpp_oj_vbcoding_teach.Model.{User}
use cpp_oj_vbcoding_teach.Auth.Types.{Mappers, Json, Reply, refusal, text, number}
use cpp_oj_vbcoding_teach.Auth.Cookie.{
  empty, extract_session_id, set_session_cookie, clear_session_cookie,
}
use cpp_oj_vbcoding_teach.Auth.Session.{create, destroy}

-- `confirm_password`, where it is there and is a string, must be the password.
unfoldable pub confirmed : Option Bytes → Bytes → Bool
confirmed none password = true
confirmed (some confirm) password = str_eq confirm password

-- The checks of `handleRegister` on its fields, the first that fails with its message.
unfoldable pub register_error : Bytes → Bytes → Option Bytes → Option Bytes
register_error username password confirm =
    if empty username
    then some (codes "Username cannot be empty")
    else if ltb (length username) 3 || ltb 64 (length username)
    then some (codes "Username must be between 3 and 64 characters")
    else if empty password
    then some (codes "Password cannot be empty")
    else if ltb (length password) 6
    then some (codes "Password must be at least 6 characters")
    else if not (confirmed confirm password)
    then some (codes "Passwords do not match")
    else none

unfoldable pub login_error : Bytes → Bytes → Option Bytes
login_error username password =
    if empty username
    then some (codes "Username cannot be empty")
    else if empty password
    then some (codes "Password cannot be empty")
    else none

abbrev pub invalid_json : Reply
invalid_json = refusal 400 (codes "Invalid JSON")

-- The default of `bcryptHash`.
abbrev pub default_cost : ℕ
default_cost = 10

module _ {D : Type 0} (mappers : Mappers D) (bf_encrypt : BfEncrypt) where
  open mappers use {find_username, insert_user}

  -- `handleRegister` behind its checks.
  unfoldable pub register_user : Bytes → Bytes → Bytes → D → Reply × D
  register_user salt username password d =
      let (existing, d₁) = find_username username d in
      let new_user : User = record {
        id = pos 0;
        username = username;
        password = bcrypt_hash bf_encrypt salt password default_cost;
        role = codes "user";
        created_at = [];
      } in
      let (user_id, d₂) = insert_user new_user d₁ in
      let fields =
        (codes "id", number user_id)
        ∷ (codes "message", text (codes "User registered successfully"))
        ∷ [] in
      if not (is_zero existing.id)
      then (refusal 409 (codes "Username already taken"), d₁)
      else if is_negative user_id
      then (refusal 500 (codes "Failed to create user"), d₂)
      else (record { status = 201; body = fields; set_cookie = none }, d₂)

  -- `handleLogin` behind its checks.
  unfoldable pub login_user : Option Bytes → Bytes → Bytes → Bytes → D → Reply × D
  login_user random expires_at username password d =
      let (user, d₁) = find_username username d in
      let (session_id, d₂) = create mappers random expires_at user.id d₁ in
      let fields =
        (codes "id", number user.id)
        ∷ (codes "username", text user.username)
        ∷ (codes "role", text user.role)
        ∷ [] in
      if is_zero user.id
      then (refusal 401 (codes "Invalid username or password"), d₁)
      else if not (bcrypt_verify bf_encrypt password user.password)
      then (refusal 401 (codes "Invalid username or password"), d₁)
      else if empty session_id
      then (refusal 500 (codes "Failed to create session"), d₂)
      else (
        record { status = 200; body = fields; set_cookie = some (set_session_cookie session_id) },
        d₂,
      )

  -- The handlers from the fields of the body on.
  unfoldable pub register_fields :
      Bytes → Option Bytes → Option Bytes → Option Bytes → D → Reply × D
  register_fields salt none password confirm d =
      (refusal 400 (codes "Missing or invalid 'username' field"), d)
  register_fields salt (some username) none confirm d =
      (refusal 400 (codes "Missing or invalid 'password' field"), d)
  register_fields salt (some username) (some password) confirm d =
      elim (register_error username password confirm) [
        | some message ↦ (refusal 400 message, d)
        | none ↦ register_user salt username password d
      ]

  unfoldable pub login_fields : Option Bytes → Bytes → Option Bytes → Option Bytes → D → Reply × D
  login_fields random expires_at none password d =
      (refusal 400 (codes "Missing or invalid 'username' field"), d)
  login_fields random expires_at (some username) none d =
      (refusal 400 (codes "Missing or invalid 'password' field"), d)
  login_fields random expires_at (some username) (some password) d =
      elim (login_error username password) [
        | some message ↦ (refusal 400 message, d)
        | none ↦ login_user random expires_at username password d
      ]

  module _ {J : Type 0} (json : Json J) where
    open json use {parse, text_field}

    unfoldable pub handle_register : Bytes → Bytes → D → Reply × D
    handle_register salt request d = elim (parse request) [
      | none ↦ (invalid_json, d)
      | some body ↦
          register_fields salt (text_field body (codes "username"))
            (text_field body (codes "password")) (text_field body (codes "confirm_password")) d
    ]

    unfoldable pub handle_login : Option Bytes → Bytes → Bytes → D → Reply × D
    handle_login random expires_at request d = elim (parse request) [
      | none ↦ (invalid_json, d)
      | some body ↦
          login_fields random expires_at (text_field body (codes "username"))
            (text_field body (codes "password")) d
    ]

-- The argument `raw` is the Cookie header. The reply is the same whether a session was there or not.
unfoldable pub handle_logout : {D : Type 0} → Mappers D → Bytes → D → Reply × D
handle_logout mappers raw d =
    let session_id = extract_session_id raw in
    let (destroyed, d') = destroy mappers session_id d in
    let fields = (codes "message", text (codes "Logged out successfully")) ∷ [] in
    (
      record { status = 200; body = fields; set_cookie = some clear_session_cookie },
      if empty session_id then d else d',
    )
