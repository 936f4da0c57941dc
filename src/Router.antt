-- ===== src/Router.antt =====
-- src/server/router.cc: the routes of the server. The HTTP library is the parameter Library, which says
-- what its operations do to a server that is set up.
use cpp_oj_vbcoding_teach.Prelude.{Bytes, codes}
use cpp_oj_vbcoding_teach.Prelude.Int.{ℤ}
use cpp_oj_vbcoding_teach.Db.Exec.{Db}

-- The handlers that have a route.
pub data Endpoint : Type 0 where
  get_problems : Endpoint
  get_problem_by_id : Endpoint
  submit : Endpoint
  register : Endpoint
  login : Endpoint
  logout : Endpoint
  admin_create_problem : Endpoint
  admin_update_problem : Endpoint
  admin_delete_problem : Endpoint

-- `listen` serves at an address and a port until it returns; what the handlers do with the database
-- is in the result.
pub record Library (S W : Type 0) : Type 0 where
  pub new_server : S
  pub set_mount_point : Bytes → Bytes → S → S
  pub get : Bytes → Endpoint → S → S
  pub post : Bytes → Endpoint → S → S
  pub put : Bytes → Endpoint → S → S
  pub delete : Bytes → Endpoint → S → S
  pub listen : Bytes → ℤ → S → Db W → Db W

module _ {S W : Type 0} (library : Library S W) where
  unfoldable pub register_problem_routes : S → S
  register_problem_routes s =
      let s1 = library.get (codes "/api/problems") get_problems s in
      let s2 = library.get (codes "/api/problems/(\\d+)") get_problem_by_id s1 in
      library.post (codes "/api/submit") submit s2

  unfoldable pub register_auth_routes : S → S
  register_auth_routes s =
      let s1 = library.post (codes "/api/register") register s in
      let s2 = library.post (codes "/api/login") login s1 in
      library.post (codes "/api/logout") logout s2

  unfoldable pub register_admin_routes : S → S
  register_admin_routes s =
      let s1 = library.post (codes "/api/admin/problems") admin_create_problem s in
      let s2 = library.put (codes "/api/admin/problems/(\\d+)") admin_update_problem s1 in
      library.delete (codes "/api/admin/problems/(\\d+)") admin_delete_problem s2

  unfoldable pub register_routes : S → S
  register_routes s = register_admin_routes (register_auth_routes (register_problem_routes s))
