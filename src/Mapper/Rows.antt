-- ===== src/Mapper/Rows.antt =====
-- The rows of the tables as the server prints them, and how the mappers read them.
use cpp_oj_vbcoding_teach.Prelude.{[], ◌∷◌, some}
use cpp_oj_vbcoding_teach.Prelude.Int.{to_string}
use cpp_oj_vbcoding_teach.Prelude.Parse.{IsInt}
use cpp_oj_vbcoding_teach.Model.{User, Session, TestCase, Problem}
use cpp_oj_vbcoding_teach.Db.Mysql.{Row}

abbrev pub user_row : User → Row
user_row user =
    some (to_string user.id)
    ∷ some user.username
    ∷ some user.password
    ∷ some user.role
    ∷ some user.created_at
    ∷ []

abbrev pub session_row : Session → Row
session_row session =
    some session.id
    ∷ some (to_string session.user_id)
    ∷ some session.expires_at
    ∷ some session.created_at
    ∷ []

abbrev pub test_case_row : TestCase → Row
test_case_row tc =
    some (to_string tc.id)
    ∷ some (to_string tc.problem_id)
    ∷ some tc.input
    ∷ some tc.expected
    ∷ some (to_string tc.position)
    ∷ []

abbrev pub problem_row : Problem → Row
problem_row problem =
    some (to_string problem.id)
    ∷ some problem.title
    ∷ some problem.difficulty
    ∷ some problem.content
    ∷ some problem.code_template
    ∷ some problem.solution_content
    ∷ some problem.solution_code
    ∷ some problem.created_at
    ∷ []

-- The numbers of a test case are values of `int`.
abbrev pub IsIntCase : TestCase → Type 0
IsIntCase tc = IsInt tc.id × IsInt tc.problem_id × IsInt tc.position
