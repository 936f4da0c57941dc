-- ===== src/Web/Problems.antt =====
-- The handlers of src/handler/problem_handler.cc.
use cpp_oj_vbcoding_teach.Prelude.{if◌then◌else◌, [], ◌∷◌, map, Bytes, codes}
use cpp_oj_vbcoding_teach.Prelude.Int.{is_zero}
use cpp_oj_vbcoding_teach.Prelude.Parse.{stoi}
use cpp_oj_vbcoding_teach.Model.{TestCase, Problem}
use cpp_oj_vbcoding_teach.Auth.Types.{text, number}
use cpp_oj_vbcoding_teach.Submit.{Fields}
use cpp_oj_vbcoding_teach.Db.Mysql.{Server}
use cpp_oj_vbcoding_teach.Db.Exec.{Exec, pure, lift, ◌>>=◌}
use cpp_oj_vbcoding_teach.Web.{Answer, listed, shown, refuse}
use cpp_oj_vbcoding_teach.Web.Service.{get_problem_by_id, get_all_problems}

abbrev pub summary_fields : Problem → Fields
summary_fields p =
    (codes "id", number p.id)
    ∷ (codes "title", text p.title)
    ∷ (codes "difficulty", text p.difficulty)
    ∷ []

abbrev pub test_case_fields : TestCase → Fields
test_case_fields tc =
    (codes "id", number tc.id)
    ∷ (codes "input", text tc.input)
    ∷ (codes "expected", text tc.expected)
    ∷ (codes "position", number tc.position)
    ∷ []

abbrev pub problem_fields : Problem → Fields
problem_fields p =
    (codes "id", number p.id)
    ∷ (codes "title", text p.title)
    ∷ (codes "difficulty", text p.difficulty)
    ∷ (codes "content", text p.content)
    ∷ (codes "template", text p.code_template)
    ∷ (codes "solution_content", text p.solution_content)
    ∷ (codes "solution_code", text p.solution_code)
    ∷ (codes "created_at", text p.created_at)
    ∷ []

module _ {W : Type 0} (server : Server W) where
  unfoldable pub handle_get_problems : Exec W Answer
  handle_get_problems =
      get_all_problems server >>= λ problems. pure (listed (map summary_fields problems))

  unfoldable pub show : Problem → Exec W Answer
  show problem =
      if is_zero problem.id
      then refuse 404 (codes "Problem not found")
      else pure (shown (problem_fields problem) (map test_case_fields problem.test_cases))

  unfoldable pub handle_get_problem_by_id : Bytes → Exec W Answer
  handle_get_problem_by_id path_id =
      lift (stoi path_id) >>= λ id. get_problem_by_id server id >>= show
