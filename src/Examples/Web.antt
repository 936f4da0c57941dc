-- ===== src/Examples/Web.antt =====
-- The handlers of problems with a JSON library whose values are texts and lists of them.
use cpp_oj_vbcoding_teach.Prelude.{
  ℕ, false, ◌≡◌, ◌≢◌, ◌↔◌, [], ◌∷◌, Bytes, codes, str_eq, if◌then◌else◌, some,
}
use cpp_oj_vbcoding_teach.Prelude.Int.{pos}
use cpp_oj_vbcoding_teach.Model.{TestCase, no_user, no_session}
use cpp_oj_vbcoding_teach.Auth.Types.{Mappers, SessionUser}
use cpp_oj_vbcoding_teach.Auth.Guard.{authenticate}
use cpp_oj_vbcoding_teach.Auth.Guard.Sound.{IsLoggedIn}
use cpp_oj_vbcoding_teach.Db.Exec.{Db}
use cpp_oj_vbcoding_teach.Web.{JsonValues}
use cpp_oj_vbcoding_teach.Web.Form.{cases_of}
use cpp_oj_vbcoding_teach.Web.Admin.{handle_create, handle_update, handle_delete}
use cpp_oj_vbcoding_teach.Web.Guarded.{Refuses, admins_only}
use cpp_oj_vbcoding_teach.Web.Cases.{AreCases, read_cases_iff}
use cpp_oj_vbcoding_teach.Examples.Server.{answering, two_idle}

-- Every body has the same title and content, and two test cases.
abbrev form : JsonValues Bytes
form = record {
  json = record {
    parse = λ request. some request;
    text_field = λ body name.
        if str_eq name (codes "title") then some (codes "A+B") else some (codes "Add.");
  };
  text_value = λ body name default. some default;
  int_value = λ body name default. some default;
  array_field = λ body name. some (codes "1 2" ∷ codes "3 4" ∷ []);
}

-- No session is found.
abbrev nobody : Mappers (Db ℕ)
nobody = record {
  insert_session = λ session d. (false, d);
  find_session = λ id d. (no_session, d);
  delete_session = λ id d. (false, d);
  delete_expired = λ d. (pos 0, d);
  insert_user = λ user d. (pos 1, d);
  find_user = λ id d. (no_user, d);
  find_username = λ name d. (no_user, d);
}

-- Every session is that of an administrator.
abbrev somebody : Mappers (Db ℕ)
somebody = record nobody {
  find_session = λ id d. (record { id = id; user_id = pos 1; expires_at = []; created_at = [] }, d);
  find_user = λ id d. (
    record {
      id = id;
      username = codes "root";
      password = [];
      role = codes "admin";
      created_at = [];
    },
    d,
  );
}

abbrev a_case : ℕ → TestCase
a_case position = record {
  id = pos 0;
  problem_id = pos 0;
  input = [];
  expected = [];
  position = pos position;
}

read_cases_iff_example :
    (cases_of form (some (codes "1 2" ∷ codes "3 4" ∷ [])) ≡ some (a_case 0 ∷ a_case 1 ∷ []))
    ↔ AreCases form 0 (codes "1 2" ∷ codes "3 4" ∷ []) (a_case 0 ∷ a_case 1 ∷ [])
read_cases_iff_example =
    read_cases_iff form (codes "1 2" ∷ codes "3 4" ∷ []) (a_case 0 ∷ a_case 1 ∷ [])

not_logged_in :
    (user : SessionUser)
    → IsLoggedIn nobody (codes "session_id=7f") two_idle user
    → user.role ≢ codes "admin"
not_logged_in user login role = let e = login.exists in absurd cc

admins_only_example :
    Refuses
      (authenticate nobody (codes "session_id=7f") two_idle).1
      (handle_create form (answering []) nobody (codes "session_id=7f") (codes "{}") two_idle)
    × Refuses (authenticate nobody (codes "session_id=7f") two_idle).1 (
        handle_update form
          (answering [])
          nobody
          (codes "session_id=7f")
          (codes "7")
          (codes "{}")
          two_idle)
    × Refuses
        (authenticate nobody (codes "session_id=7f") two_idle).1
        (handle_delete (answering []) nobody (codes "session_id=7f") (codes "7") two_idle)
admins_only_example =
    admins_only (answering []) nobody form (codes "session_id=7f") (codes "7") (codes "{}") two_idle
      not_logged_in
