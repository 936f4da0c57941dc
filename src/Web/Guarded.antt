-- ===== src/Web/Guarded.antt =====
-- The handlers that change problems serve administrators only.
use cpp_oj_vbcoding_teach.Prelude.{◌≡◌, ◌≢◌, ◌⊎◌, inl, inr, refl, Bytes, codes}
use cpp_oj_vbcoding_teach.Auth.Types.{Mappers, Reply, SessionUser}
use cpp_oj_vbcoding_teach.Auth.Guard.{Check, denied, passed, authenticate, require_admin}
use cpp_oj_vbcoding_teach.Auth.Guard.Sound.{IsLoggedIn, require_admin_iff, require_admin_denies}
use cpp_oj_vbcoding_teach.Db.Mysql.{Server}
use cpp_oj_vbcoding_teach.Db.Exec.{Db, Result, ok, Exec, pure, then_on, ◌>>=◌}
use cpp_oj_vbcoding_teach.Web.{JsonValues, Answer, refused, attempt}
use cpp_oj_vbcoding_teach.Web.Admin.{
  behind_check, guarded, handle_create, handle_update, handle_delete,
}

Check-cases :
    (check : Check)
    → ((reply : Reply) × (check ≡ denied reply)) ⊎ ((user : SessionUser) × (check ≡ passed user))
Check-cases (denied reply) = inl (reply, refl)
Check-cases (passed user) = inr (user, refl)

-- A refusal with status 401 or 403, and the state behind it.
abbrev pub Refuses : {W : Type 0} → Db W → Result Answer × Db W → Type 0
Refuses s r =
    (reply : Reply) × ((reply.status ≡ 401) ⊎ (reply.status ≡ 403)) × (r ≡ (ok (refused reply), s))

module _ {W : Type 0} (mappers : Mappers (Db W)) where
  guarded_denied :
      (raw : Bytes) (rest : Exec W Answer) (s : Db W) (reply : Reply)
      → (require_admin mappers raw s).0 ≡ denied reply
      → guarded mappers raw rest s ≡ (ok (refused reply), (authenticate mappers raw s).1)
  unfolding guarded attempt behind_check require_admin pure ◌>>=◌ then_on
  guarded_denied raw rest s reply e = rw e refl

  guarded-Refuses :
      (raw : Bytes) (rest : Exec W Answer) (s : Db W)
      → ((user : SessionUser) → IsLoggedIn mappers raw s user → user.role ≢ codes "admin")
      → Refuses (authenticate mappers raw s).1 (guarded mappers raw rest s)
  guarded-Refuses raw rest s other = elim (Check-cases (require_admin mappers raw s).0) [
    | inl (reply, e) ↦
        let same = guarded_denied raw rest s reply e in
        elim (require_admin_denies mappers raw s reply e) [
          | inl (status, _) ↦ (reply, inl status, same)
          | inr (status, _, _, _) ↦ (reply, inr status, same)
        ]
    | inr (user, e) ↦
        let (login, role) = (require_admin_iff mappers raw s user).1.0 e in
        absurd (other user login role)
  ]

module _ {W : Type 0} (server : Server W) (mappers : Mappers (Db W)) where
  -- Where no administrator is logged in with the request, the handlers that create, update and delete a
  -- problem answer 401 or 403, whatever the path and the body are, and do nothing but `authenticate`
  -- the request: the database is left as that leaves it.
  pub admins_only :
      {J : Type 0} (values : JsonValues J) (raw path_id request : Bytes) (s : Db W)
      → ((user : SessionUser) → IsLoggedIn mappers raw s user → user.role ≢ codes "admin")
      → Refuses (authenticate mappers raw s).1 (handle_create values server mappers raw request s)
        × Refuses
            (authenticate mappers raw s).1
            (handle_update values server mappers raw path_id request s)
        × Refuses (authenticate mappers raw s).1 (handle_delete server mappers raw path_id s)
  unfolding handle_create handle_update handle_delete
  admins_only values raw path_id request s other = (
    guarded-Refuses mappers raw _ s other,
    guarded-Refuses mappers raw _ s other,
    guarded-Refuses mappers raw _ s other,
  )
