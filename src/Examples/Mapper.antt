-- ===== src/Examples/Mapper.antt =====
-- The mappers over the server that answers each statement with the same row.
use cpp_oj_vbcoding_teach.Prelude.{refl, [], ◌∷◌, Bytes, codes, arith}
use cpp_oj_vbcoding_teach.Prelude.Int.{ℤ, pos}
use cpp_oj_vbcoding_teach.Model.{User, Session, TestCase, Problem, no_problem}
use cpp_oj_vbcoding_teach.Db.Mysql.{Row}
use cpp_oj_vbcoding_teach.Db.Sql.{c_str, sql_text}
use cpp_oj_vbcoding_teach.Db.Sql.Reader.{Reads}
use cpp_oj_vbcoding_teach.Db.Sql.Safe.{fixed_text}
use cpp_oj_vbcoding_teach.Db.Store.{Agrees}
use cpp_oj_vbcoding_teach.Mapper.Texts as Texts
use cpp_oj_vbcoding_teach.Mapper.Texts.{pieces, statements_read}
use cpp_oj_vbcoding_teach.Mapper.Rows.{problem_row}
use cpp_oj_vbcoding_teach.Mapper.Spec as Spec
use cpp_oj_vbcoding_teach.Mapper.Users as Users
use cpp_oj_vbcoding_teach.Mapper.Sessions as Sessions
use cpp_oj_vbcoding_teach.Mapper.TestCases as TestCases
use cpp_oj_vbcoding_teach.Mapper.Problems as Problems
use cpp_oj_vbcoding_teach.Db.Uses.{Completes}
use cpp_oj_vbcoding_teach.Mapper.Connections.{two_connections}
use cpp_oj_vbcoding_teach.Mapper.Refinement.{mappers_refine, problems_refine}
use cpp_oj_vbcoding_teach.Examples.Server.{
  answering, counting, answering-EscapeLaws, answering-ServerLaws, two_idle,
}

abbrev sum_case : TestCase
sum_case = record {
  id = pos 4;
  problem_id = pos 7;
  input = codes "1 2";
  expected = codes "3";
  position = pos 0;
}

abbrev sum_problem : Problem
sum_problem = record no_problem {
  id = pos 7;
  title = codes "A+B";
  content = codes "It's a sum";
  test_cases = sum_case ∷ [];
}

abbrev alice : User
alice = record {
  id = pos 1;
  username = codes "alice";
  password = [];
  role = codes "user";
  created_at = [];
}

abbrev alice_session : Session
alice_session = record { id = codes "7f"; user_id = pos 1; expires_at = []; created_at = [] }

abbrev row : Row
row = problem_row sum_problem

mappers_refine_example :
    ((user : User)
      → Agrees
          (answering-ServerLaws row)
          2
          two_idle
          0
          (Users.insert (answering row) user)
          (Spec.insert_user (counting row) user))
    × ((id : ℤ)
        → Agrees
            (answering-ServerLaws row)
            2
            two_idle
            0
            (Users.find_by_id (answering row) id)
            (Spec.find_user (counting row) id))
    × ((username : Bytes)
        → Agrees
            (answering-ServerLaws row)
            2
            two_idle
            0
            (Users.find_by_username (answering row) username)
            (Spec.find_username (counting row) username))
    × ((session : Session)
        → Agrees
            (answering-ServerLaws row)
            2
            two_idle
            0
            (Sessions.insert (answering row) session)
            (Spec.insert_session (counting row) session))
    × ((id : Bytes)
        → Agrees
            (answering-ServerLaws row)
            2
            two_idle
            0
            (Sessions.find_by_id (answering row) id)
            (Spec.find_session (counting row) id))
    × ((id : Bytes)
        → Agrees
            (answering-ServerLaws row)
            2
            two_idle
            0
            (Sessions.delete_by_id (answering row) id)
            (Spec.delete_session (counting row) id))
    × Agrees
        (answering-ServerLaws row)
        2
        two_idle
        0
        (Sessions.delete_expired (answering row))
        (Spec.delete_expired (counting row))
    × ((tc : TestCase)
        → Agrees
            (answering-ServerLaws row)
            2
            two_idle
            0
            (TestCases.insert (answering row) tc)
            (Spec.insert_test_case (counting row) tc))
    × ((problem_id : ℤ)
        → Agrees
            (answering-ServerLaws row)
            2
            two_idle
            0
            (TestCases.find_by_problem_id (answering row) problem_id)
            (Spec.find_test_cases (counting row) problem_id))
    × ((problem_id : ℤ)
        → Agrees
            (answering-ServerLaws row)
            2
            two_idle
            0
            (TestCases.delete_by_problem_id (answering row) problem_id)
            (Spec.delete_test_cases (counting row) problem_id))
    × Agrees
        (answering-ServerLaws row)
        2
        two_idle
        0
        (Problems.find_all (answering row))
        (Spec.find_problems (counting row))
    × ((id : ℤ)
        → Agrees
            (answering-ServerLaws row)
            2
            two_idle
            0
            (Problems.delete_by_id (answering row) id)
            (Spec.delete_problem (counting row) id))
mappers_refine_example =
    mappers_refine (answering-ServerLaws row) 2 two_idle 0 (omega arith) (refl, refl) refl

problems_refine_example :
    ((problem : Problem)
      → Agrees
          (answering-ServerLaws row)
          2
          two_idle
          0
          (Problems.insert (answering row) problem)
          (Spec.insert_problem (counting row) problem))
    × ((problem : Problem)
        → Agrees
            (answering-ServerLaws row)
            2
            two_idle
            0
            (Problems.update (answering row) problem)
            (Spec.update_problem (counting row) problem))
    × ((id : ℤ)
        → Agrees
            (answering-ServerLaws row)
            2
            two_idle
            0
            (Problems.find_by_id (answering row) id)
            (Spec.find_problem (counting row) id))
problems_refine_example =
    problems_refine (answering-ServerLaws row) 2 two_idle 0 (omega arith) (refl, refl) refl

statements_read_example :
    Reads
      (answering-EscapeLaws row).read_literal
      (c_str (sql_text (answering row) 3 0 (pieces (Texts.find_username (codes "' OR ''='")))))
      (fixed_text (pieces (Texts.find_username (codes "' OR ''='"))))
      (codes "' OR ''='" ∷ [])
statements_read_example =
    statements_read (answering row) (answering-EscapeLaws row) 3 0
      (Texts.find_username (codes "' OR ''='"))

two_connections_example :
    ((problem : Problem) → Completes 2 two_idle (Problems.insert (answering row) problem))
    × ((problem : Problem) → Completes 2 two_idle (Problems.update (answering row) problem))
    × ((id : ℤ) → Completes 2 two_idle (Problems.find_by_id (answering row) id))
two_connections_example =
    two_connections (answering row) 2 two_idle (λ c w. refl) (omega arith) (refl, refl)
