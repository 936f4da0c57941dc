-- ===== src/Mapper/Spec.antt =====
-- What the functions of the mappers promise, on a store that executes statements.
use cpp_oj_vbcoding_teach.Prelude.{
  Bool, not, ◌||◌, true, false, if◌then◌else◌, List, [], ◌∷◌, Bytes, ltb, Option, some,
}
use cpp_oj_vbcoding_teach.Prelude.Int.{ℤ, negsuc, is_positive, is_zero}
use cpp_oj_vbcoding_teach.Model.{User, no_user, Session, no_session, TestCase, Problem, no_problem}
use cpp_oj_vbcoding_teach.Db.Mysql.{Row, to_int}
use cpp_oj_vbcoding_teach.Db.Store.{Answer, Store, Spec, give, and_then, ask}
use cpp_oj_vbcoding_teach.Mapper.Select.{first_row, all_rows}
use cpp_oj_vbcoding_teach.Mapper.Users.{read_user}
use cpp_oj_vbcoding_teach.Mapper.Sessions.{read_session}
use cpp_oj_vbcoding_teach.Mapper.TestCases.{read_test_case}
use cpp_oj_vbcoding_teach.Mapper.Problems.{read_problem, read_summary}
use cpp_oj_vbcoding_teach.Mapper.Texts as Texts
use cpp_oj_vbcoding_teach.Mapper.Texts.{Statement, pieces}

module _ {D : Type 0} (store : Store D) where
  module _ {A : Type 0} where
    unfoldable pub first : (Row → Option A) → A → Statement → Spec D A
    first read missing statement =
        ask store (pieces statement) (λ answer d.
          (if answer.done then first_row read missing answer.rows else some missing, d))

    unfoldable pub all : (Row → Option A) → Statement → Spec D (List A)
    all read statement =
        ask store (pieces statement)
          (λ answer d. (if answer.done then all_rows read answer.rows else some [], d))

    unfoldable pub told : (Answer → A) → A → Statement → Spec D A
    told f failed statement =
        ask store (pieces statement) (λ answer. give (if answer.done then f answer else failed))

  abbrev inserted : Statement → Spec D ℤ
  inserted = told (λ answer. to_int answer.id) (negsuc 0)

  abbrev pub insert_user : User → Spec D ℤ
  insert_user user = inserted (Texts.insert_user user)

  abbrev pub find_user : ℤ → Spec D User
  find_user id = first read_user no_user (Texts.find_user id)

  abbrev pub find_username : Bytes → Spec D User
  find_username username = first read_user no_user (Texts.find_username username)

  abbrev pub insert_session : Session → Spec D Bool
  insert_session session = told (λ answer. true) false (Texts.insert_session session)

  abbrev pub find_session : Bytes → Spec D Session
  find_session id = first read_session no_session (Texts.find_session id)

  abbrev pub delete_session : Bytes → Spec D Bool
  delete_session id = told (λ answer. ltb 0 answer.affected) false (Texts.delete_session id)

  abbrev pub delete_expired : Spec D ℤ
  delete_expired = told (λ answer. to_int answer.affected) (negsuc 0) Texts.delete_expired

  abbrev pub insert_test_case : TestCase → Spec D ℤ
  insert_test_case tc = inserted (Texts.insert_test_case tc)

  abbrev pub find_test_cases : ℤ → Spec D (List TestCase)
  find_test_cases problem_id = all read_test_case (Texts.find_test_cases problem_id)

  abbrev pub delete_test_cases : ℤ → Spec D Bool
  delete_test_cases problem_id =
      told (λ answer. is_positive (to_int answer.affected)) false
        (Texts.delete_test_cases problem_id)

  -- The cases one after the other, each under the id of its problem.
  unfoldable pub insert_cases : ℤ → List TestCase → Spec D Unit
  insert_cases id [] = give tt
  insert_cases id (tc ∷ rest) =
      and_then (insert_test_case (record tc { problem_id = id })) (λ _. insert_cases id rest)

  unfoldable pub replace_cases : ℤ → List TestCase → Spec D Unit
  replace_cases id [] = give tt
  replace_cases id (tc ∷ rest) =
      ask store (pieces (Texts.delete_test_cases id)) (λ _. insert_cases id (tc ∷ rest))

  unfoldable pub insert_problem : Problem → Spec D ℤ
  insert_problem problem = ask store (pieces (Texts.insert_problem problem)) (λ answer.
      let id = to_int answer.id in
      if answer.done
      then and_then (insert_cases id problem.test_cases) (λ _. give id)
      else give (negsuc 0))

  unfoldable pub update_problem : Problem → Spec D Bool
  update_problem problem = ask store (pieces (Texts.update_problem problem)) (λ answer.
      if not answer.done || is_zero (to_int answer.affected)
      then give false
      else and_then (replace_cases problem.id problem.test_cases) (λ _. give true))

  unfoldable pub with_cases : Problem → Spec D Problem
  with_cases problem =
      if is_positive problem.id
      then and_then (find_test_cases problem.id)
          (λ cases. give (record problem { test_cases = cases }))
      else give problem

  unfoldable pub find_problem : ℤ → Spec D Problem
  find_problem id = and_then (first read_problem no_problem (Texts.find_problem id)) with_cases

  abbrev pub find_problems : Spec D (List Problem)
  find_problems = all read_summary Texts.find_problems

  abbrev pub delete_problem : ℤ → Spec D Bool
  delete_problem id =
      told (λ answer. is_positive (to_int answer.affected)) false (Texts.delete_problem id)
