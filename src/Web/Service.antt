-- ===== src/Web/Service.antt =====
-- ProblemService: src/service/problem_service.cc.
use cpp_oj_vbcoding_teach.Prelude.{Bool, false, not, ◌||◌, if◌then◌else◌, List}
use cpp_oj_vbcoding_teach.Prelude.Int.{ℤ, negsuc, is_positive}
use cpp_oj_vbcoding_teach.Model.{Problem}
use cpp_oj_vbcoding_teach.Auth.Cookie.{empty}
use cpp_oj_vbcoding_teach.Db.Mysql.{Server}
use cpp_oj_vbcoding_teach.Db.Exec.{Exec, pure}
use cpp_oj_vbcoding_teach.Mapper.Problems as Problems

module _ {W : Type 0} (server : Server W) where
  unfoldable pub create_problem : Problem → Exec W ℤ
  create_problem problem =
      if empty problem.title || empty problem.content
      then pure (negsuc 0)
      else Problems.insert server problem

  unfoldable pub update_problem : Problem → Exec W Bool
  update_problem problem =
      if not (is_positive problem.id) || (empty problem.title || empty problem.content)
      then pure false
      else Problems.update server problem

  unfoldable pub get_problem_by_id : ℤ → Exec W Problem
  get_problem_by_id id = Problems.find_by_id server id

  unfoldable pub get_all_problems : Exec W (List Problem)
  get_all_problems = Problems.find_all server

  unfoldable pub delete_problem_by_id : ℤ → Exec W Bool
  delete_problem_by_id id = Problems.delete_by_id server id
