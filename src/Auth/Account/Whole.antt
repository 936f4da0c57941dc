-- ===== src/Auth/Account/Whole.antt =====
-- From the registration to the first request that is logged in.
use cpp_oj_vbcoding_teach.Prelude.{◌≡◌, ◌⊎◌, false, [], ◌∷◌, Bytes, codes, some}
use cpp_oj_vbcoding_teach.Prelude.Int.{ℤ, is_zero}
use cpp_oj_vbcoding_teach.Bcrypt.Core.{BfEncrypt}
use cpp_oj_vbcoding_teach.Model.{User}
use cpp_oj_vbcoding_teach.Auth.Types.{Mappers}
use cpp_oj_vbcoding_teach.Auth.Cookie.{k_session_cookie_name}
use cpp_oj_vbcoding_teach.Auth.Cookie.RoundTrip.{header}
use cpp_oj_vbcoding_teach.Auth.Session.{generate_session_id}
use cpp_oj_vbcoding_teach.Auth.Guard.{authenticate, passed}
use cpp_oj_vbcoding_teach.Auth.Login.{register_user, login_user}
use cpp_oj_vbcoding_teach.Auth.Login.Registers.{new_user}
use cpp_oj_vbcoding_teach.Auth.Account.{MapperLaws}

-- A login and the first request behind it, from the state e of the database: the session cannot be stored,
-- or the login succeeds and the cookie that it sets passes `authenticate` as this user.
abbrev pub LogsIn :
    {D : Type 0} → Mappers D → BfEncrypt → Bytes → Bytes → Bytes → Bytes → D → Type 0
LogsIn mappers bf_encrypt buf expires_at name secret e =
    let (reply, e') = login_user mappers bf_encrypt (some buf) expires_at name secret e in
    let raw = header ((k_session_cookie_name, generate_session_id (some buf)) ∷ []) in
    (reply.status ≡ 500)
    ⊎ ((reply.status ≡ 200)
        × (id : ℤ) × (is_zero id ≡ false)
        × ((authenticate mappers raw e').0
            ≡ passed (record { user_id = id; username = name; role = codes "user" })))

module _ {D : Type 0} (mappers : Mappers D) (laws : MapperLaws mappers) (bf_encrypt : BfEncrypt)
    (salt name secret : Bytes) (d : D)
    (registered : (register_user mappers bf_encrypt salt name secret d).0.status ≡ 201) where
  abbrev row : User
  row = new_user mappers bf_encrypt salt name secret

  -- The database behind the registration, and the id that it gave.
  abbrev stored_in : D
  stored_in = (mappers.insert_user row (mappers.find_username name d).1).1

  abbrev given : ℤ
  given = (mappers.insert_user row (mappers.find_username name d).1).0
