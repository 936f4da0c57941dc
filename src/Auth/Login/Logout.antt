-- ===== src/Auth/Login/Logout.antt =====
-- Behind a logout the cookie is worth nothing.
use cpp_oj_vbcoding_teach.Prelude.{◌≡◌, refl, inl, inr, true, Bool-cases, Bytes, codes, arith}
use cpp_oj_vbcoding_teach.Auth.Types.{Mappers, refusal}
use cpp_oj_vbcoding_teach.Auth.Cookie.{empty, extract_session_id}
use cpp_oj_vbcoding_teach.Auth.Session.{validate, destroy}
use cpp_oj_vbcoding_teach.Auth.Guard.{authenticate, denied}
use cpp_oj_vbcoding_teach.Auth.Login.{handle_logout}

-- A session that the database deleted is not found.
abbrev pub Forgets : {D : Type 0} → Mappers D → Type 0
Forgets {D} mappers =
    (id : Bytes) (d : D)
    → (mappers.delete_session id d).0 ≡ true
    → empty (mappers.find_session id (mappers.delete_session id d).1).0.id ≡ true

-- If the logout of a request destroyed its session, and the database finds no session that it deleted,
-- then `authenticate` answers the same Cookie header with 401 in the state that the logout leaves; the
-- logout itself is answered with 200.
pub authenticate-handle_logout :
    {D : Type 0} (mappers : Mappers D) (raw : Bytes) (d : D)
    → Forgets mappers
    → (destroy mappers (extract_session_id raw) d).0 ≡ true
    → ((handle_logout mappers raw d).0.status ≡ 200)
      × ((authenticate mappers raw (handle_logout mappers raw d).1).0
          ≡ denied (refusal 401 (codes "Invalid or expired session")))
unfolding handle_logout authenticate destroy validate
authenticate-handle_logout mappers raw d forgets gone =
    elim (Bool-cases (empty (extract_session_id raw))) [
      | inl e ↦ absurd (ground arith)
      | inr e ↦
          let deleted : (mappers.delete_session (extract_session_id raw) d).0 ≡ true =
            ground arith in
          let lost = forgets (extract_session_id raw) d deleted in (refl, ground (arith, e, lost))
    ]
