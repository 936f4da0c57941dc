-- ===== src/Examples/Router.antt =====
-- The routes, written down by a library that keeps a list of them.
use cpp_oj_vbcoding_teach.Prelude.{◌≡◌, refl, List, [], ◌∷◌, ◌++◌, Bytes, codes}
use cpp_oj_vbcoding_teach.Router.{
  Library, Endpoint, register_routes, register_problem_routes, register_auth_routes,
  register_admin_routes,
}

abbrev Route : Type 0
Route = Bytes × Bytes × Endpoint

abbrev noted : Bytes → Bytes → Endpoint → List Route → List Route
noted method pattern endpoint routes = routes ++ (method, pattern, endpoint) ∷ []

abbrev notes : Library (List Route) Unit
notes = record {
  new_server = [];
  set_mount_point = λ point directory routes. routes;
  get = noted (codes "GET");
  post = noted (codes "POST");
  put = noted (codes "PUT");
  delete = noted (codes "DELETE");
  listen = λ host port routes db. db;
}

routes_noted :
    register_routes notes []
    ≡ (codes "GET", codes "/api/problems", Endpoint.get_problems)
      ∷ (codes "GET", codes "/api/problems/(\\d+)", Endpoint.get_problem_by_id)
      ∷ (codes "POST", codes "/api/submit", Endpoint.submit)
      ∷ (codes "POST", codes "/api/register", Endpoint.register)
      ∷ (codes "POST", codes "/api/login", Endpoint.login)
      ∷ (codes "POST", codes "/api/logout", Endpoint.logout)
      ∷ (codes "POST", codes "/api/admin/problems", Endpoint.admin_create_problem)
      ∷ (codes "PUT", codes "/api/admin/problems/(\\d+)", Endpoint.admin_update_problem)
      ∷ (codes "DELETE", codes "/api/admin/problems/(\\d+)", Endpoint.admin_delete_problem)
      ∷ []
unfolding register_routes register_problem_routes register_auth_routes register_admin_routes
routes_noted = refl
