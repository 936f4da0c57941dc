-- ===== src/Auth/Guard.antt =====
-- authenticate and requireAdmin of src/handler/auth_handler.cc: the check that the protected handlers
-- make first. The argument `raw` is the Cookie header; the user is read only where the check passes.
pub mod Sound
use cpp_oj_vbcoding_teach.Prelude.{if◌then◌else◌, Bytes, codes, str_eq}
use cpp_oj_vbcoding_teach.Prelude.Int.{is_zero}
use cpp_oj_vbcoding_teach.Auth.Types.{Mappers, Reply, refusal, SessionUser}
use cpp_oj_vbcoding_teach.Auth.Cookie.{empty, extract_session_id}
use cpp_oj_vbcoding_teach.Auth.Session.{validate}

-- `denied` with the reply that was written, or `passed` with the user.
pub data Check : Type 0 where
  denied : Reply → Check
  passed : SessionUser → Check

-- The test of the role behind a check that passed.
unfoldable pub only_admin : Check → Check
only_admin (denied reply) = denied reply
only_admin (passed user) =
    if str_eq user.role (codes "admin")
    then passed user
    else denied (refusal 403 (codes "Admin privileges required"))

module _ {D : Type 0} (mappers : Mappers D) where
  unfoldable pub authenticate : Bytes → D → Check × D
  authenticate raw d =
      let session_id = extract_session_id raw in
      let (user, d') = validate mappers session_id d in
      if empty session_id
      then (denied (refusal 401 (codes "Authentication required")), d)
      else if is_zero user.user_id
      then (denied (refusal 401 (codes "Invalid or expired session")), d')
      else (passed user, d')

  unfoldable pub require_admin : Bytes → D → Check × D
  require_admin raw d = let (check, d') = authenticate raw d in (only_admin check, d')
