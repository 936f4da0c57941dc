-- ===== src/Auth/Account.antt =====
-- The handlers together: a user who registers can log in, and the session that login makes is accepted.
pub mod Whole
use cpp_oj_vbcoding_teach.Prelude.{
  ℕ, ◌≡◌, ◌≢◌, ◌⊎◌, inl, inr, refl, sym, ap, subst, ◌∙◌, Bool, true, false, Bool-cases, List, [],
  ◌∷◌, Bytes, codes, length, some, str_eq, arith,
}
use cpp_oj_vbcoding_teach.Prelude.Int.{ℤ, pos, is_zero, is_negative}
use cpp_oj_vbcoding_teach.Bcrypt.Core.{BfEncrypt}
use cpp_oj_vbcoding_teach.Bcrypt.Core.Output.{IsBytes}
use cpp_oj_vbcoding_teach.Bcrypt.Hash.{bcrypt_hash, bcrypt_verify}
use cpp_oj_vbcoding_teach.Bcrypt.Hash.RoundTrip.{bcrypt_verify-bcrypt_hash}
use cpp_oj_vbcoding_teach.Model.{User, Session}
use cpp_oj_vbcoding_teach.Auth.Types.{Mappers, Reply, SessionUser}
use cpp_oj_vbcoding_teach.Auth.Cookie.{empty, extract_session_id, k_session_cookie_name}
use cpp_oj_vbcoding_teach.Auth.Cookie.RoundTrip.{header, extract_session_id-header}
use cpp_oj_vbcoding_teach.Auth.Session.{generate_session_id, create}
use cpp_oj_vbcoding_teach.Auth.Session.Id.{IsRandom, generate_session_id_inj, session-IsCookie}
use cpp_oj_vbcoding_teach.Auth.Guard.{authenticate, passed}
use cpp_oj_vbcoding_teach.Auth.Guard.Sound.{IsLoggedIn, session_at, user_at, require_admin_iff}
use cpp_oj_vbcoding_teach.Auth.Login.{register_user, login_user, default_cost}
use cpp_oj_vbcoding_teach.Auth.Login.Accepts.{Known, Known-login_user}
use cpp_oj_vbcoding_teach.Auth.Login.Registers.{new_user, register_user_iff}

-- The row of a user with a name, a hash and a role, under an id.
pub record IsRow (user : User) (id : ℤ) (inserted : User) : Type 0 where
  pub id_same : user.id ≡ id
  pub name_same : user.username ≡ inserted.username
  pub hash_same : user.password ≡ inserted.password
  pub role_same : user.role ≡ inserted.role

-- What the database does with the statements of the mappers: a look-up changes nothing, a user that was
-- inserted is found under its keys, a session as long as `expires_at > NOW()`, which is what `is_current`
-- says of a time, the ids of users start at 1, and a new session changes no user.
pub record MapperLaws {D : Type 0} (mappers : Mappers D) : Type 0 where
  pub is_current : Bytes → D → Bool
  pub username_reads : (name : Bytes) (d : D) → (mappers.find_username name d).1 ≡ d
  pub session_reads : (id : Bytes) (d : D) → (mappers.find_session id d).1 ≡ d
  pub user_found :
      (u : User) (d : D)
      → is_negative (mappers.insert_user u d).0 ≡ false
      → IsRow
          (mappers.find_user (mappers.insert_user u d).0 (mappers.insert_user u d).1).0
          (mappers.insert_user u d).0
          u
  pub username_found :
      (u : User) (d : D)
      → is_negative (mappers.insert_user u d).0 ≡ false
      → IsRow
          (mappers.find_username u.username (mappers.insert_user u d).1).0
          (mappers.insert_user u d).0
          u
  pub user_id_from_one :
      (u : User) (d : D)
      → is_negative (mappers.insert_user u d).0 ≡ false
      → is_zero (mappers.insert_user u d).0 ≡ false
  pub session_found :
      (s : Session) (d : D)
      → (mappers.insert_session s d).0 ≡ true
      → is_current s.expires_at (mappers.insert_session s d).1 ≡ true
      → ((mappers.find_session s.id (mappers.insert_session s d).1).0.id ≡ s.id)
        × ((mappers.find_session s.id (mappers.insert_session s d).1).0.user_id ≡ s.user_id)
  pub session_keeps_users :
      (s : Session) (i : ℤ) (d : D)
      → (mappers.find_user i (mappers.insert_session s d).1).0 ≡ (mappers.find_user i d).0

-- What the program keeps of a user's row.
abbrev pub seen : User → SessionUser
seen user = record { user_id = user.id; username = user.username; role = user.role }

seen-IsRow :
    (user inserted : User) (id : ℤ)
    → IsRow user id inserted
    → seen user ≡ record { user_id = id; username = inserted.username; role = inserted.role }
seen-IsRow user inserted id row =
    λ i. record { user_id = row.id_same i; username = row.name_same i; role = row.role_same i }

cookie_read :
    (buf : Bytes)
    → IsRandom buf
    → extract_session_id (header ((k_session_cookie_name, generate_session_id (some buf)) ∷ []))
      ≡ generate_session_id (some buf)
unfolding str_eq
cookie_read buf h =
    extract_session_id-header ((k_session_cookie_name, generate_session_id (some buf)) ∷ [])
      (session-IsCookie buf h, tt)

long_not_empty : (s : Bytes) → length s ≡ 64 → empty s ≡ false
unfolding empty
long_not_empty [] h = absurd (omega arith)
long_not_empty (c ∷ s) h = refl

pub id_not_empty : (buf : Bytes) → IsRandom buf → empty (generate_session_id (some buf)) ≡ false
id_not_empty buf h =
    long_not_empty (generate_session_id (some buf)) (generate_session_id_inj buf buf h h).0

module _ {D : Type 0} (mappers : Mappers D) (laws : MapperLaws mappers) where
  -- The session that `create` inserts.
  abbrev pub made : Bytes → Bytes → ℤ → Session
  made buf expires_at user_id = record {
    id = generate_session_id (some buf);
    user_id = user_id;
    expires_at = expires_at;
    created_at = [];
  }

  module _ (buf expires_at : Bytes) (user_id : ℤ) (d : D) (h : IsRandom buf) where
    pub create_made :
        (mappers.insert_session (made buf expires_at user_id) d).0 ≡ true
        → create mappers (some buf) expires_at user_id d ≡ (
          generate_session_id (some buf),
          (mappers.insert_session (made buf expires_at user_id) d).1,
        )
    unfolding create
    create_made e = simp (create, id_not_empty buf h, e)

    pub create_fails :
        (mappers.insert_session (made buf expires_at user_id) d).0 ≡ false
        → (create mappers (some buf) expires_at user_id d).0 ≡ []
    unfolding create
    create_fails e = simp (create, id_not_empty buf h, e)

  module _ (buf expires_at : Bytes) (user_id : ℤ) (d : D) (h : IsRandom buf)
      (stored : (mappers.insert_session (made buf expires_at user_id) d).0 ≡ true)
      (current : laws.is_current expires_at
          (mappers.insert_session (made buf expires_at user_id) d).1
        ≡ true) where
    abbrev pub raw : Bytes
    raw = header ((k_session_cookie_name, generate_session_id (some buf)) ∷ [])

    abbrev pub after : D
    after = (mappers.insert_session (made buf expires_at user_id) d).1

    session_read : (session_at mappers raw after).id ≡ generate_session_id (some buf)
    session_read =
        ap (λ i. (mappers.find_session i after).0.id) (cookie_read buf h)
        ∙ (laws.session_found (made buf expires_at user_id) d stored current).0

    user_read : user_at mappers raw after ≡ (mappers.find_user user_id d).0
    user_read =
        ap
          (λ i.
            (mappers.find_user (mappers.find_session i after).0.user_id
              (mappers.find_session i after).1).0)
          (cookie_read buf h)
        ∙ ap
            (λ i.
              (mappers.find_user i
                (mappers.find_session (generate_session_id (some buf)) after).1).0)
            (laws.session_found (made buf expires_at user_id) d stored current).1
        ∙ ap (λ e. (mappers.find_user user_id e).0)
            (laws.session_reads (generate_session_id (some buf)) after)
        ∙ laws.session_keeps_users (made buf expires_at user_id) user_id d

    -- A session that was created for a user who is there logs the user in.
    pub created_logs_in :
        (inserted : User)
        → IsRow (mappers.find_user user_id d).0 user_id inserted
        → is_zero user_id ≡ false
        → IsLoggedIn mappers raw after
            (record { user_id = user_id; username = inserted.username; role = inserted.role })
    created_logs_in inserted row real = record {
      sent = ap empty (cookie_read buf h) ∙ id_not_empty buf h;
      found = ap empty session_read ∙ id_not_empty buf h;
      exists = ap (λ (u : User). is_zero u.id) user_read ∙ ap is_zero row.id_same ∙ real;
      same =
          sym (ap seen user_read ∙ seen-IsRow (mappers.find_user user_id d).0 inserted user_id row);
    }
