-- ===== src/Auth/Login/Registers.antt =====
-- Which registrations are accepted, and what they store.
use cpp_oj_vbcoding_teach.Prelude.{
  ◌≡◌, ◌≤◌, ◌↔◌, inl, inr, refl, sym, ap, ◌∙◌, true, false, Option-cases, [], ◌∷◌, Bytes, codes,
  length, str_eq_iff, Option, none, some, arith,
}
use cpp_oj_vbcoding_teach.Prelude.Int.{pos, is_zero, is_negative}
use cpp_oj_vbcoding_teach.Bcrypt.Core.{BfEncrypt}
use cpp_oj_vbcoding_teach.Bcrypt.Hash.{bcrypt_hash}
use cpp_oj_vbcoding_teach.Model.{User}
use cpp_oj_vbcoding_teach.Auth.Types.{Mappers, Json, Reply}
use cpp_oj_vbcoding_teach.Auth.Cookie.{empty}
use cpp_oj_vbcoding_teach.Auth.Login.{
  confirmed, register_error, default_cost, register_user, register_fields, handle_register,
}

empty-length : (s : Bytes) → (empty s ≡ true) ↔ (length s ≡ 0)
unfolding empty
empty-length [] = ground arith
empty-length (c ∷ s) = ground arith

-- A confirmation is absent, or it is the password.
abbrev pub IsConfirmed : Option Bytes → Bytes → Type 0
IsConfirmed none password = Unit
IsConfirmed (some confirm) password = confirm ≡ password

confirmed_iff :
    (confirm : Option Bytes) (password : Bytes)
    → (confirmed confirm password ≡ true) ↔ IsConfirmed confirm password
unfolding confirmed
confirmed_iff none password = (λ h. tt, λ h. refl)
confirmed_iff (some confirm) password = str_eq_iff confirm password

register_error-none :
    (username password : Bytes) (confirm : Option Bytes)
    → (register_error username password confirm ≡ none) ↔ (
        (3 ≤ length username)
        × (length username ≤ 64)
        × (6 ≤ length password)
        × IsConfirmed confirm password)
unfolding register_error
register_error-none username password confirm =
    ground (arith, empty-length username, empty-length password, confirmed_iff confirm password)

module _ {D : Type 0} (mappers : Mappers D) (bf_encrypt : BfEncrypt) where
  -- The row that a registration inserts.
  abbrev pub new_user : Bytes → Bytes → Bytes → User
  new_user salt username password = record {
    id = pos 0;
    username = username;
    password = bcrypt_hash bf_encrypt salt password default_cost;
    role = codes "user";
    created_at = [];
  }

  -- A name and a password of the right lengths, a confirmation that is absent or the same, a name that is
  -- not taken, and a row that the database takes.
  pub record Registration (salt : Bytes) (username password confirm : Option Bytes) (d : D)
      : Type 0 where
    pub name : Bytes
    pub secret : Bytes
    pub has_name : username ≡ some name
    pub has_secret : password ≡ some secret
    pub name_low : 3 ≤ length name
    pub name_high : length name ≤ 64
    pub secret_low : 6 ≤ length secret
    pub same : IsConfirmed confirm secret
    pub free : is_zero (mappers.find_username name d).0.id ≡ true
    pub stored :
        is_negative
          (mappers.insert_user (new_user salt name secret) (mappers.find_username name d).1).0
        ≡ false

  module _ (salt name secret : Bytes) (confirm : Option Bytes) (d : D) where
    register_fields_on :
        register_error name secret confirm ≡ none
        → register_fields mappers bf_encrypt salt (some name) (some secret) confirm d
          ≡ register_user mappers bf_encrypt salt name secret d
    unfolding register_fields
    register_fields_on e = simp (register_fields, e)

    register_fields_off :
        (message : Bytes)
        → register_error name secret confirm ≡ some message
        → (register_fields mappers bf_encrypt salt (some name) (some secret) confirm d).0.status
          ≡ 400
    unfolding register_fields
    register_fields_off message e = simp (register_fields, e)

    pub register_user_iff :
        ((register_user mappers bf_encrypt salt name secret d).0.status ≡ 201) ↔ (
          (is_zero (mappers.find_username name d).0.id ≡ true)
          × (is_negative
                (mappers.insert_user (new_user salt name secret) (mappers.find_username name d).1).0
              ≡ false))
    unfolding register_user
    register_user_iff = ground arith

  register_fields-Registration :
      (salt : Bytes) (username password confirm : Option Bytes) (d : D)
      → (register_fields mappers bf_encrypt salt username password confirm d).0.status ≡ 201
      → Registration salt username password confirm d
  unfolding register_fields
  register_fields-Registration salt none password confirm d h = absurd (omega arith)
  register_fields-Registration salt (some name) none confirm d h = absurd (omega arith)
  register_fields-Registration salt (some name) (some secret) confirm d h =
      elim (Option-cases (register_error name secret confirm)) [
        | inl e ↦
            let (low, high, long, same) = (register_error-none name secret confirm).0 e in
            let on =
              ap (λ (r : Reply × D). r.0.status)
                (sym (register_fields_on salt name secret confirm d e))
              ∙ h in
            let (free, stored) = (register_user_iff salt name secret confirm d).0 on in
            record {
              name = name;
              secret = secret;
              has_name = refl;
              has_secret = refl;
              name_low = low;
              name_high = high;
              secret_low = long;
              same = same;
              free = free;
              stored = stored;
            }
        | inr (message, e) ↦
            let off = register_fields_off salt name secret confirm d message e in
            absurd (omega arith)
      ]

  Registration-register_fields :
      (salt : Bytes) (username password confirm : Option Bytes) (d : D)
      → Registration salt username password confirm d
      → (register_fields mappers bf_encrypt salt username password confirm d).0.status ≡ 201
  Registration-register_fields salt username password confirm d k =
      rw (k.has_name, k.has_secret)
        (ap (λ (r : Reply × D). r.0.status)
            (register_fields_on salt k.name k.secret confirm d (
              (register_error-none k.name k.secret confirm).1
                (k.name_low, k.name_high, k.secret_low, k.same)))
          ∙ (register_user_iff salt k.name k.secret confirm d).1 (k.free, k.stored))

  module _ {J : Type 0} (json : Json J) where
    module _ (salt request : Bytes) (d : D) where
      handle_register_off :
          json.parse request ≡ none
          → (handle_register mappers bf_encrypt json salt request d).0.status ≡ 400
      unfolding handle_register
      handle_register_off e = simp (handle_register, e)

      handle_register_on :
          (body : J)
          → json.parse request ≡ some body
          → handle_register mappers bf_encrypt json salt request d
            ≡ register_fields mappers bf_encrypt salt
                (json.text_field body (codes "username"))
                (json.text_field body (codes "password"))
                (json.text_field body (codes "confirm_password"))
                d
      unfolding handle_register
      handle_register_on body e = simp (handle_register, e)

    -- A registration succeeds exactly if the body is JSON with the texts `username`, of 3 to 64 bytes, and
    -- `password`, of at least 6, a text `confirm_password` is absent or the same, the name is not taken, and the
    -- database takes the row, which holds the hash of the password and the role `user`.
    pub handle_register_iff :
        (salt request : Bytes) (d : D)
        → ((handle_register mappers bf_encrypt json salt request d).0.status ≡ 201) ↔ (
            (body : J) × (json.parse request ≡ some body)
            × Registration salt
                (json.text_field body (codes "username"))
                (json.text_field body (codes "password"))
                (json.text_field body (codes "confirm_password"))
                d)
    handle_register_iff salt request d = (
      λ h. elim (Option-cases (json.parse request)) [
        | inl e ↦ let off = handle_register_off salt request d e in absurd (omega arith)
        | inr (body, e) ↦ (
          body,
          e,
          register_fields-Registration salt _ _ _ d (
              ap (λ (r : Reply × D). r.0.status) (sym (handle_register_on salt request d body e))
              ∙ h),
        )
      ],
      λ (body, e, k).
          ap (λ (r : Reply × D). r.0.status) (handle_register_on salt request d body e)
          ∙ Registration-register_fields salt _ _ _ d k,
    )
