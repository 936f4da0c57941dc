-- ===== src/Auth/Types.antt =====
-- What the handlers of src/handler/auth_handler.cc use: the mappers of src/model/user.h and
-- src/model/session.h as an interface over the states D of the database, the JSON library over its values J,
-- and the reply, whose JSON object is the list of its fields.
use cpp_oj_vbcoding_teach.Prelude.{ℕ, Bool, List, [], ◌∷◌, Bytes, codes, Option, none}
use cpp_oj_vbcoding_teach.Prelude.Int.{ℤ, pos}
use cpp_oj_vbcoding_teach.Model.{User, Session}

pub record Mappers (D : Type 0) : Type 0 where
  pub insert_session : Session → D → Bool × D
  pub find_session : Bytes → D → Session × D
  pub delete_session : Bytes → D → Bool × D
  pub delete_expired : D → ℤ × D
  pub insert_user : User → D → ℤ × D
  pub find_user : ℤ → D → User × D
  pub find_username : Bytes → D → User × D

-- `text_field body name` is the text of a member that is there and is a string.
pub record Json (J : Type 0) : Type 0 where
  pub parse : Bytes → Option J
  pub text_field : J → Bytes → Option Bytes

pub data Value : Type 0 where
  text : Bytes → Value
  number : ℤ → Value

-- `set_cookie` is the value of the header Set-Cookie, if it is set.
pub record Reply : Type 0 where
  pub status : ℕ
  pub body : List (Bytes × Value)
  pub set_cookie : Option Bytes

abbrev pub refusal : ℕ → Bytes → Reply
refusal status message = record {
  status = status;
  body = (codes "error", text message) ∷ [];
  set_cookie = none;
}

pub record SessionUser : Type 0 where
  pub user_id : ℤ
  pub username : Bytes
  pub role : Bytes

abbrev pub no_session_user : SessionUser
no_session_user = record { user_id = pos 0; username = []; role = [] }
