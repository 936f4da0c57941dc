-- ===== src/Auth/Guard/Sound.antt =====
-- Who passes the checks of the protected handlers.
use cpp_oj_vbcoding_teach.Prelude.{
  Bool, true, false, ◌≡◌, ◌≢◌, ◌↔◌, ◌⊎◌, inl, inr, refl, sym, ap, ◌∙◌, if◌then◌else◌, [], Bytes,
  codes, str_eq_iff, arith,
}
use cpp_oj_vbcoding_teach.Prelude.Int.{is_zero}
use cpp_oj_vbcoding_teach.Model.{User, Session}
use cpp_oj_vbcoding_teach.Auth.Types.{Mappers, SessionUser, Reply}
use cpp_oj_vbcoding_teach.Auth.Cookie.{empty, extract_session_id}
use cpp_oj_vbcoding_teach.Auth.Session.{validate, session_user}
use cpp_oj_vbcoding_teach.Auth.Guard.{
  Check, denied, passed, only_admin, authenticate, require_admin,
}

role_of : Check → Bytes
role_of (denied reply) = []
role_of (passed user) = user.role

passed_if :
    (test : Bool) (ok : Check) (reply : Reply) (user : SessionUser)
    → (if test then ok else denied reply) ≡ passed user
    → (test ≡ true) × (ok ≡ passed user)
passed_if true ok reply user h = (refl, h)
passed_if false ok reply user h = absurd (cc)

denied_if :
    (test : Bool) (other : SessionUser) (r reply : Reply)
    → (if test then passed other else denied r) ≡ denied reply
    → r ≡ reply
denied_if true other r reply h = absurd (cc)
denied_if false other r reply h = ground arith

only_admin_passed :
    (check : Check) (user : SessionUser)
    → only_admin check ≡ passed user
    → (check ≡ passed user) × (user.role ≡ codes "admin")
unfolding only_admin role_of
only_admin_passed (denied reply) user h = absurd (cc)
only_admin_passed (passed other) user h =
    let (test, same) = passed_if _ (passed other) _ user h in
    (same, ap role_of (sym same) ∙ (str_eq_iff other.role (codes "admin")).0 test)

only_admin_admin :
    (user : SessionUser) → user.role ≡ codes "admin" → only_admin (passed user) ≡ passed user
unfolding only_admin
only_admin_admin user role = simp ((str_eq_iff user.role (codes "admin")).1 role)

denied_not_passed : (reply : Reply) (user : SessionUser) → denied reply ≡ passed user → ⊥
denied_not_passed reply user h = cc

only_admin_denied :
    (check : Check) (reply : Reply)
    → only_admin check ≡ denied reply
    → (check ≡ denied reply)
      ⊎ ((user : SessionUser) × (check ≡ passed user)
          × (user.role ≢ codes "admin")
          × (reply.status ≡ 403))
unfolding only_admin
only_admin_denied (denied r) reply h = inl h
only_admin_denied (passed user) reply h = inr (
  user,
  refl,
  λ e. denied_not_passed reply user (sym h ∙ only_admin_admin user e),
  sym (ap (λ (r : Reply). r.status) (denied_if _ user _ reply h)),
)

module _ {D : Type 0} (mappers : Mappers D) where
  -- What `findById` gives for the session of the cookie, and for its user, in the state d.
  abbrev pub session_at : Bytes → D → Session
  session_at raw d = (mappers.find_session (extract_session_id raw) d).0

  abbrev pub user_at : Bytes → D → User
  user_at raw d =
      (mappers.find_user (session_at raw d).user_id
        (mappers.find_session (extract_session_id raw) d).1).0

  -- The request comes with the id of a session that is found, and the user of the session exists.
  pub record IsLoggedIn (raw : Bytes) (d : D) (user : SessionUser) : Type 0 where
    pub sent : empty (extract_session_id raw) ≡ false
    pub found : empty (session_at raw d).id ≡ false
    pub exists : is_zero (user_at raw d).id ≡ false
    pub same : user ≡ record {
      user_id = (user_at raw d).id;
      username = (user_at raw d).username;
      role = (user_at raw d).role;
    }

  authenticate_passes :
      (raw : Bytes) (d : D) (user : SessionUser)
      → IsLoggedIn raw d user
      → (authenticate mappers raw d).0 ≡ passed user
  unfolding authenticate validate session_user
  authenticate_passes raw d user h = ground (arith, h.sent, h.found, h.exists, h.same)

  passes_only :
      (raw : Bytes) (d : D) (user : SessionUser)
      → (authenticate mappers raw d).0 ≡ passed user
      → IsLoggedIn raw d user
  unfolding authenticate validate session_user
  passes_only raw d user h = record {
    sent = ground arith;
    found = ground arith;
    exists = ground arith;
    same = ground arith;
  }

  authenticate_status :
      (raw : Bytes) (d : D) (reply : Reply)
      → (authenticate mappers raw d).0 ≡ denied reply
      → reply.status ≡ 401
  unfolding authenticate
  authenticate_status raw d reply h = ground arith

  -- `authenticate` passes a user exactly if the request carries the id of a session that is found and
  -- whose user exists, with that user; `requireAdmin` exactly if moreover the user's role is admin.
  pub require_admin_iff :
      (raw : Bytes) (d : D) (user : SessionUser)
      → (((authenticate mappers raw d).0 ≡ passed user) ↔ IsLoggedIn raw d user)
        × (((require_admin mappers raw d).0 ≡ passed user)
            ↔ (IsLoggedIn raw d user × (user.role ≡ codes "admin")))
  unfolding require_admin
  require_admin_iff raw d user = (
    (passes_only raw d user, authenticate_passes raw d user),
    (
      λ h.
          let (both, role) = only_admin_passed (authenticate mappers raw d).0 user h in
          (passes_only raw d user both, role),
      λ (h, role). ap only_admin (authenticate_passes raw d user h) ∙ only_admin_admin user role,
    ),
  )

  -- `requireAdmin` answers 401 only if no user is logged in with the request, and 403 only if one is
  -- whose role is another; it answers no other status.
  pub require_admin_denies :
      (raw : Bytes) (d : D) (reply : Reply)
      → (require_admin mappers raw d).0 ≡ denied reply
      → ((reply.status ≡ 401) × ((user : SessionUser) → ¬ IsLoggedIn raw d user))
        ⊎ ((reply.status ≡ 403)
            × (user : SessionUser) × IsLoggedIn raw d user
            × (user.role ≢ codes "admin"))
  unfolding require_admin
  require_admin_denies raw d reply h =
      elim (only_admin_denied (authenticate mappers raw d).0 reply h) [
        | inl e ↦ inl (
          authenticate_status raw d reply e,
          λ user k. denied_not_passed reply user (sym e ∙ authenticate_passes raw d user k),
        )
        | inr (user, e, other, status) ↦ inr (status, user, passes_only raw d user e, other)
      ]
