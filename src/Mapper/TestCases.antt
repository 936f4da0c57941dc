-- ===== src/Mapper/TestCases.antt =====
-- TestCaseMapper: src/model/test_case.cc.
use cpp_oj_vbcoding_teach.Prelude.{
  Bool, false, if◌then◌else◌, List, [], ◌∷◌, codes, Option, none, some,
}
use cpp_oj_vbcoding_teach.Prelude.Int.{ℤ, negsuc, is_positive}
use cpp_oj_vbcoding_teach.Model.{TestCase}
use cpp_oj_vbcoding_teach.Pool.Mysql.{Conn}
use cpp_oj_vbcoding_teach.Db.Mysql.{Server, Row, to_int, column, int_column}
use cpp_oj_vbcoding_teach.Db.Exec.{Exec, pure, gets, ◌>>=◌, with_connection}
use cpp_oj_vbcoding_teach.Db.Sql.{Piece, sql, quoted, int, query}
use cpp_oj_vbcoding_teach.Mapper.Select.{select_all}

abbrev pub insert_sql : TestCase → List Piece
insert_sql tc =
    sql (codes "INSERT INTO test_cases (problem_id, input, expected, position) VALUES (")
    ∷ int tc.problem_id
    ∷ sql (codes ", ")
    ∷ quoted tc.input
    ∷ sql (codes ", ")
    ∷ quoted tc.expected
    ∷ sql (codes ", ")
    ∷ int tc.position
    ∷ sql (codes ")")
    ∷ []

abbrev pub find_sql : ℤ → List Piece
find_sql problem_id =
    sql (codes "SELECT id, problem_id, input, expected, position ")
    ∷ sql (codes "FROM test_cases WHERE problem_id = ")
    ∷ int problem_id
    ∷ sql (codes " ORDER BY position, id")
    ∷ []

abbrev pub delete_sql : ℤ → List Piece
delete_sql problem_id =
    sql (codes "DELETE FROM test_cases WHERE problem_id = ") ∷ int problem_id ∷ []

-- The numbers are read in the order of the columns.
unfoldable pub read_test_case : Row → Option TestCase
read_test_case row = elim (int_column row 0) [
  | none ↦ none
  | some id ↦ elim (int_column row 1) [
    | none ↦ none
    | some problem_id ↦ elim (int_column row 4) [
      | none ↦ none
      | some position ↦ some (record {
        id = id;
        problem_id = problem_id;
        input = column row 2;
        expected = column row 3;
        position = position;
      })
    ]
  ]
]

module _ {W : Type 0} (server : Server W) where
  unfoldable pub insert_on : TestCase → Option Conn → Exec W ℤ
  insert_on tc none = pure (negsuc 0)
  insert_on tc (some conn) = do
    done ← query server conn (insert_sql tc)
    if done then gets (λ w. to_int (server.mysql_insert_id conn w)) else pure (negsuc 0)

  unfoldable pub insert : TestCase → Exec W ℤ
  insert tc = with_connection server.client (insert_on tc)

  unfoldable pub find_on : ℤ → Option Conn → Exec W (List TestCase)
  find_on problem_id none = pure []
  find_on problem_id (some conn) = select_all read_test_case server conn (find_sql problem_id)

  unfoldable pub find_by_problem_id : ℤ → Exec W (List TestCase)
  find_by_problem_id problem_id = with_connection server.client (find_on problem_id)

  unfoldable pub delete_on : ℤ → Option Conn → Exec W Bool
  delete_on problem_id none = pure false
  delete_on problem_id (some conn) = do
    done ← query server conn (delete_sql problem_id)
    if done
        then gets (λ w. is_positive (to_int (server.mysql_affected_rows conn w)))
        else pure false

  unfoldable pub delete_by_problem_id : ℤ → Exec W Bool
  delete_by_problem_id problem_id = with_connection server.client (delete_on problem_id)
