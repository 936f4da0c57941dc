-- ===== src/Mapper/Problems.antt =====
-- ProblemMapper: src/model/problem.cc. The functions of TestCaseMapper that it calls acquire a connection
-- of their own, while the caller holds one.
use cpp_oj_vbcoding_teach.Prelude.{
  Bool, not, ◌||◌, true, false, if◌then◌else◌, List, [], ◌∷◌, codes, Option, none, some,
}
use cpp_oj_vbcoding_teach.Prelude.Int.{ℤ, negsuc, is_positive, is_zero}
use cpp_oj_vbcoding_teach.Model.{TestCase, Problem, no_problem}
use cpp_oj_vbcoding_teach.Pool.Mysql.{Conn}
use cpp_oj_vbcoding_teach.Db.Mysql.{Server, Row, to_int, column, int_column}
use cpp_oj_vbcoding_teach.Db.Exec.{Exec, pure, gets, ◌>>=◌, ◌>>◌, with_connection}
use cpp_oj_vbcoding_teach.Db.Sql.{Piece, sql, quoted, int, query}
use cpp_oj_vbcoding_teach.Mapper.Select.{select_first, select_all}
use cpp_oj_vbcoding_teach.Mapper.TestCases as TestCases

abbrev pub insert_sql : Problem → List Piece
insert_sql problem =
    sql (
      codes
        "INSERT INTO problems (title, difficulty, content, `template`, solution_content, solution_code) VALUES (")
    ∷ quoted problem.title
    ∷ sql (codes ", ")
    ∷ quoted problem.difficulty
    ∷ sql (codes ", ")
    ∷ quoted problem.content
    ∷ sql (codes ", ")
    ∷ quoted problem.code_template
    ∷ sql (codes ", ")
    ∷ quoted problem.solution_content
    ∷ sql (codes ", ")
    ∷ quoted problem.solution_code
    ∷ sql (codes ")")
    ∷ []

abbrev pub update_sql : Problem → List Piece
update_sql problem =
    sql (codes "UPDATE problems SET ")
    ∷ sql (codes "title = ")
    ∷ quoted problem.title
    ∷ sql (codes ", difficulty = ")
    ∷ quoted problem.difficulty
    ∷ sql (codes ", content = ")
    ∷ quoted problem.content
    ∷ sql (codes ", `template` = ")
    ∷ quoted problem.code_template
    ∷ sql (codes ", solution_content = ")
    ∷ quoted problem.solution_content
    ∷ sql (codes ", solution_code = ")
    ∷ quoted problem.solution_code
    ∷ sql (codes " WHERE id = ")
    ∷ int problem.id
    ∷ []

abbrev pub find_by_id_sql : ℤ → List Piece
find_by_id_sql id =
    sql (
      codes
        "SELECT id, title, difficulty, content, `template`, solution_content, solution_code, created_at ")
    ∷ sql (codes "FROM problems WHERE id = ")
    ∷ int id
    ∷ []

abbrev pub find_all_sql : List Piece
find_all_sql = sql (codes "SELECT id, title, difficulty FROM problems ORDER BY id") ∷ []

abbrev pub delete_by_id_sql : ℤ → List Piece
delete_by_id_sql id = sql (codes "DELETE FROM problems WHERE id = ") ∷ int id ∷ []

unfoldable pub read_problem : Row → Option Problem
read_problem row = elim (int_column row 0) [
  | none ↦ none
  | some id ↦ some (record {
    id = id;
    title = column row 1;
    difficulty = column row 2;
    content = column row 3;
    code_template = column row 4;
    solution_content = column row 5;
    solution_code = column row 6;
    created_at = column row 7;
    test_cases = [];
  })
]

-- A problem of the list of all problems has no more than these columns.
unfoldable pub read_summary : Row → Option Problem
read_summary row = elim (int_column row 0) [
  | none ↦ none
  | some id ↦ some (record no_problem { id = id; title = column row 1; difficulty = column row 2 })
]

module _ {W : Type 0} (server : Server W) where
  -- A case that cannot be stored is logged, and the loop goes on.
  unfoldable pub insert_cases : ℤ → List TestCase → Exec W Unit
  insert_cases id [] = pure tt
  insert_cases id (tc ∷ rest) =
      TestCases.insert server (record tc { problem_id = id }) >> insert_cases id rest

  unfoldable pub insert_on : Problem → Option Conn → Exec W ℤ
  insert_on problem none = pure (negsuc 0)
  insert_on problem (some conn) = do
    done ← query server conn (insert_sql problem)
    id ← gets (λ w. to_int (server.mysql_insert_id conn w))
    if done then insert_cases id problem.test_cases >> pure id else pure (negsuc 0)

  unfoldable pub insert : Problem → Exec W ℤ
  insert problem = with_connection server.client (insert_on problem)

  -- The cases are replaced only where there are new ones.
  unfoldable pub replace_cases : Conn → ℤ → List TestCase → Exec W Unit
  replace_cases conn id [] = pure tt
  replace_cases conn id (tc ∷ rest) =
      query server conn (TestCases.delete_sql id) >> insert_cases id (tc ∷ rest)

  unfoldable pub update_on : Problem → Option Conn → Exec W Bool
  update_on problem none = pure false
  update_on problem (some conn) = do
    done ← query server conn (update_sql problem)
    affected ← gets (λ w. to_int (server.mysql_affected_rows conn w))
    if not done || is_zero affected
        then pure false
        else replace_cases conn problem.id problem.test_cases >> pure true

  unfoldable pub update : Problem → Exec W Bool
  update problem = with_connection server.client (update_on problem)

  -- The end of `findById`.
  unfoldable pub with_cases : Problem → Exec W Problem
  with_cases problem =
      if is_positive problem.id
      then TestCases.find_by_problem_id server problem.id
        >>= (λ cases. pure (record problem { test_cases = cases }))
      else pure problem

  -- A search that finds nothing leaves the id 0, and the end asks for no cases.
  unfoldable pub find_on : ℤ → Option Conn → Exec W Problem
  find_on id none = pure no_problem
  find_on id (some conn) =
      select_first read_problem server conn (find_by_id_sql id) no_problem >>= with_cases

  unfoldable pub find_by_id : ℤ → Exec W Problem
  find_by_id id = with_connection server.client (find_on id)

  unfoldable pub find_all_on : Option Conn → Exec W (List Problem)
  find_all_on none = pure []
  find_all_on (some conn) = select_all read_summary server conn find_all_sql

  unfoldable pub find_all : Exec W (List Problem)
  find_all = with_connection server.client find_all_on

  unfoldable pub delete_on : ℤ → Option Conn → Exec W Bool
  delete_on id none = pure false
  delete_on id (some conn) = do
    done ← query server conn (delete_by_id_sql id)
    if done
        then gets (λ w. is_positive (to_int (server.mysql_affected_rows conn w)))
        else pure false

  unfoldable pub delete_by_id : ℤ → Exec W Bool
  delete_by_id id = with_connection server.client (delete_on id)
