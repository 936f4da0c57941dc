-- ===== src/Auth/Login/Accepts.antt =====
-- Which requests the handlers of registration and login accept.
use cpp_oj_vbcoding_teach.Prelude.{
  ◌≡◌, ◌<◌, ◌↔◌, inl, inr, refl, sym, ap, ◌∙◌, true, false, Option-cases, [], ◌∷◌, Bytes, codes,
  length, Option, none, some, arith,
}
use cpp_oj_vbcoding_teach.Prelude.Int.{is_zero}
use cpp_oj_vbcoding_teach.Bcrypt.Core.{BfEncrypt}
use cpp_oj_vbcoding_teach.Bcrypt.Hash.{bcrypt_verify}
use cpp_oj_vbcoding_teach.Auth.Types.{Mappers, Json, Reply}
use cpp_oj_vbcoding_teach.Auth.Cookie.{empty}
use cpp_oj_vbcoding_teach.Auth.Session.{create}
use cpp_oj_vbcoding_teach.Auth.Login.{login_error, login_user, login_fields, handle_login}

module _ {D : Type 0} (mappers : Mappers D) (bf_encrypt : BfEncrypt) where
  -- The user exists, the password fits the stored hash, and a session was made.
  pub record Known (random : Option Bytes) (expires_at username password : Bytes) (d : D)
      : Type 0 where
    pub exists : is_zero (mappers.find_username username d).0.id ≡ false
    pub fits :
        bcrypt_verify bf_encrypt password (mappers.find_username username d).0.password ≡ true
    pub made :
        empty
          (create mappers random expires_at
            (mappers.find_username username d).0.id
            (mappers.find_username username d).1).0
        ≡ false

  login_user-Known :
      (random : Option Bytes) (expires_at username password : Bytes) (d : D)
      → (login_user mappers bf_encrypt random expires_at username password d).0.status ≡ 200
      → Known random expires_at username password d
  unfolding login_user
  login_user-Known random expires_at username password d h = record {
    exists = ground arith;
    fits = ground arith;
    made = ground arith;
  }

  pub Known-login_user :
      (random : Option Bytes) (expires_at username password : Bytes) (d : D)
      → Known random expires_at username password d
      → (login_user mappers bf_encrypt random expires_at username password d).0.status ≡ 200
  unfolding login_user
  Known-login_user random expires_at username password d k =
      ground (arith, k.exists, k.fits, k.made)

login_error-none :
    (username password : Bytes)
    → (login_error username password ≡ none) ↔ ((0 < length username) × (0 < length password))
unfolding login_error empty
login_error-none [] password = ground arith
login_error-none (c ∷ username) [] = ground arith
login_error-none (c ∷ username) (e ∷ password) = ground arith

module _ {D : Type 0} (mappers : Mappers D) (bf_encrypt : BfEncrypt) where
  -- The two fields of a login that is let through, with a user who fits.
  pub record Login (random : Option Bytes) (expires_at : Bytes) (username password : Option Bytes)
      (d : D) : Type 0 where
    pub name : Bytes
    pub secret : Bytes
    pub has_name : username ≡ some name
    pub has_secret : password ≡ some secret
    pub name_not_empty : 0 < length name
    pub secret_not_empty : 0 < length secret
    pub known : Known mappers bf_encrypt random expires_at name secret d

  module _ (random : Option Bytes) (expires_at name secret : Bytes) (d : D) where
    login_fields_on :
        login_error name secret ≡ none
        → login_fields mappers bf_encrypt random expires_at (some name) (some secret) d
          ≡ login_user mappers bf_encrypt random expires_at name secret d
    unfolding login_fields
    login_fields_on e = simp (login_fields, e)

    login_fields_off :
        (message : Bytes)
        → login_error name secret ≡ some message
        → (login_fields mappers bf_encrypt random expires_at (some name) (some secret) d).0.status
          ≡ 400
    unfolding login_fields
    login_fields_off message e = simp (login_fields, e)

  login_fields-Login :
      (random : Option Bytes) (expires_at : Bytes) (username password : Option Bytes) (d : D)
      → (login_fields mappers bf_encrypt random expires_at username password d).0.status ≡ 200
      → Login random expires_at username password d
  unfolding login_fields
  login_fields-Login random expires_at none password d h = absurd (omega arith)
  login_fields-Login random expires_at (some name) none d h = absurd (omega arith)
  login_fields-Login random expires_at (some name) (some secret) d h =
      elim (Option-cases (login_error name secret)) [
        | inl e ↦
            let (name_long, secret_long) = (login_error-none name secret).0 e in
            record {
              name = name;
              secret = secret;
              has_name = refl;
              has_secret = refl;
              name_not_empty = name_long;
              secret_not_empty = secret_long;
              known = login_user-Known mappers bf_encrypt random expires_at name secret d (
                  ap (λ (r : Reply × D). r.0.status)
                    (sym (login_fields_on random expires_at name secret d e))
                  ∙ h);
            }
        | inr (message, e) ↦
            let off = login_fields_off random expires_at name secret d message e in
            absurd (omega arith)
      ]

  Login-login_fields :
      (random : Option Bytes) (expires_at : Bytes) (username password : Option Bytes) (d : D)
      → Login random expires_at username password d
      → (login_fields mappers bf_encrypt random expires_at username password d).0.status ≡ 200
  unfolding login_fields
  Login-login_fields random expires_at username password d k =
      rw (k.has_name, k.has_secret)
        (ap (λ (r : Reply × D). r.0.status)
            (login_fields_on random expires_at k.name k.secret d
              ((login_error-none k.name k.secret).1 (k.name_not_empty, k.secret_not_empty)))
          ∙ Known-login_user mappers bf_encrypt random expires_at k.name k.secret d k.known)

  module _ {J : Type 0} (json : Json J) where
    module _ (random : Option Bytes) (expires_at request : Bytes) (d : D) where
      handle_login_off :
          json.parse request ≡ none
          → (handle_login mappers bf_encrypt json random expires_at request d).0.status ≡ 400
      unfolding handle_login
      handle_login_off e = simp (handle_login, e)

      handle_login_on :
          (body : J)
          → json.parse request ≡ some body
          → handle_login mappers bf_encrypt json random expires_at request d
            ≡ login_fields mappers bf_encrypt random expires_at
                (json.text_field body (codes "username"))
                (json.text_field body (codes "password"))
                d
      unfolding handle_login
      handle_login_on body e = simp (handle_login, e)

    -- A login succeeds exactly if the body is JSON with the texts `username` and `password`, neither of
    -- them empty, the user of this name exists, the password fits the stored hash, and the session is
    -- made.
    pub handle_login_iff :
        (random : Option Bytes) (expires_at request : Bytes) (d : D)
        → ((handle_login mappers bf_encrypt json random expires_at request d).0.status ≡ 200) ↔ (
            (body : J) × (json.parse request ≡ some body)
            × Login random expires_at
                (json.text_field body (codes "username"))
                (json.text_field body (codes "password"))
                d)
    handle_login_iff random expires_at request d = (
      λ h. elim (Option-cases (json.parse request)) [
        | inl e ↦ let off = handle_login_off random expires_at request d e in absurd (omega arith)
        | inr (body, e) ↦ (
          body,
          e,
          login_fields-Login random expires_at _ _ d (
              ap (λ (r : Reply × D). r.0.status)
                (sym (handle_login_on random expires_at request d body e))
              ∙ h),
        )
      ],
      λ (body, e, k).
          ap (λ (r : Reply × D). r.0.status) (handle_login_on random expires_at request d body e)
          ∙ Login-login_fields random expires_at _ _ d k,
    )
