-- ===== src/Mapper/Refinement/Single.antt =====
-- The functions of the mappers that hold one connection at a time.
use cpp_oj_vbcoding_teach.Prelude.{ℕ, suc, ap, false, Bytes, ltb}
use cpp_oj_vbcoding_teach.Prelude.Int.{ℤ, negsuc, is_positive}
use cpp_oj_vbcoding_teach.Model.{User, no_user, Session, no_session, TestCase}
use cpp_oj_vbcoding_teach.Db.Mysql.{Server, to_int}
use cpp_oj_vbcoding_teach.Db.Store.{Store, ServerLaws}
use cpp_oj_vbcoding_teach.Db.Refines.{Implements, Implements-with_connection}
use cpp_oj_vbcoding_teach.Mapper.Texts as Texts
use cpp_oj_vbcoding_teach.Mapper.Spec as Spec
use cpp_oj_vbcoding_teach.Mapper.Users as Users
use cpp_oj_vbcoding_teach.Mapper.Sessions as Sessions
use cpp_oj_vbcoding_teach.Mapper.TestCases as TestCases
use cpp_oj_vbcoding_teach.Mapper.Problems as Problems
use cpp_oj_vbcoding_teach.Mapper.Refinement.Answers.{
  select_first-Implements, select_all-Implements, told-Implements, query-Implements,
}

module _ {W D : Type 0} {server : Server W} {store : Store D} (laws : ServerLaws server store)
    {k : ℕ} where
  pub user_insert-Implements :
      (user : User)
      → Implements laws (suc k) (Users.insert server user) (Spec.insert_user store user)
  unfolding Users.insert Users.insert_on
  user_insert-Implements user = Implements-with_connection laws _ _ (λ c.
      told-Implements laws (λ w. to_int (server.mysql_insert_id c w)) (λ answer. to_int answer.id)
        (negsuc 0) c (Texts.insert_user user) (λ w answer reports. ap (λ n. to_int n) reports.id))

  pub user_find_by_id-Implements :
      (id : ℤ) → Implements laws (suc k) (Users.find_by_id server id) (Spec.find_user store id)
  unfolding Users.find_by_id Users.find_on
  user_find_by_id-Implements id =
      Implements-with_connection laws _ _
        (λ c. select_first-Implements laws Users.read_user no_user c (Texts.find_user id))

  pub user_find_by_username-Implements :
      (username : Bytes)
      → Implements laws
          (suc k)
          (Users.find_by_username server username)
          (Spec.find_username store username)
  unfolding Users.find_by_username Users.find_on
  user_find_by_username-Implements username =
      Implements-with_connection laws _ _
        (λ c. select_first-Implements laws Users.read_user no_user c (Texts.find_username username))

  pub session_insert-Implements :
      (session : Session)
      → Implements laws (suc k) (Sessions.insert server session) (Spec.insert_session store session)
  unfolding Sessions.insert Sessions.insert_on
  session_insert-Implements session =
      Implements-with_connection laws _ _
        (λ c. query-Implements laws c (Texts.insert_session session))

  pub session_find_by_id-Implements :
      (id : Bytes)
      → Implements laws (suc k) (Sessions.find_by_id server id) (Spec.find_session store id)
  unfolding Sessions.find_by_id Sessions.find_on
  session_find_by_id-Implements id =
      Implements-with_connection laws _ _ (λ c.
        select_first-Implements laws Sessions.read_session no_session c (Texts.find_session id))

  pub session_delete_by_id-Implements :
      (id : Bytes)
      → Implements laws (suc k) (Sessions.delete_by_id server id) (Spec.delete_session store id)
  unfolding Sessions.delete_by_id Sessions.delete_on
  session_delete_by_id-Implements id = Implements-with_connection laws _ _ (λ c.
      told-Implements laws (λ w. ltb 0 (server.mysql_affected_rows c w))
        (λ answer. ltb 0 answer.affected) false c (Texts.delete_session id)
        (λ w answer reports. ap (λ n. ltb 0 n) reports.affected))

  pub session_delete_expired-Implements :
      Implements laws (suc k) (Sessions.delete_expired server) (Spec.delete_expired store)
  unfolding Sessions.delete_expired Sessions.delete_expired_on
  session_delete_expired-Implements = Implements-with_connection laws _ _ (λ c.
      told-Implements laws (λ w. to_int (server.mysql_affected_rows c w))
        (λ answer. to_int answer.affected) (negsuc 0) c Texts.delete_expired
        (λ w answer reports. ap (λ n. to_int n) reports.affected))

  pub test_case_insert-Implements :
      (tc : TestCase)
      → Implements laws (suc k) (TestCases.insert server tc) (Spec.insert_test_case store tc)
  unfolding TestCases.insert TestCases.insert_on
  test_case_insert-Implements tc = Implements-with_connection laws _ _ (λ c.
      told-Implements laws (λ w. to_int (server.mysql_insert_id c w)) (λ answer. to_int answer.id)
        (negsuc 0) c (Texts.insert_test_case tc)
        (λ w answer reports. ap (λ n. to_int n) reports.id))

  pub test_case_find_by_problem_id-Implements :
      (problem_id : ℤ)
      → Implements laws
          (suc k)
          (TestCases.find_by_problem_id server problem_id)
          (Spec.find_test_cases store problem_id)
  unfolding TestCases.find_by_problem_id TestCases.find_on
  test_case_find_by_problem_id-Implements problem_id = Implements-with_connection laws _ _ (λ c.
      select_all-Implements laws TestCases.read_test_case c (Texts.find_test_cases problem_id))

  pub test_case_delete_by_problem_id-Implements :
      (problem_id : ℤ)
      → Implements laws
          (suc k)
          (TestCases.delete_by_problem_id server problem_id)
          (Spec.delete_test_cases store problem_id)
  unfolding TestCases.delete_by_problem_id TestCases.delete_on
  test_case_delete_by_problem_id-Implements problem_id = Implements-with_connection laws _ _ (λ c.
      told-Implements laws (λ w. is_positive (to_int (server.mysql_affected_rows c w)))
        (λ answer. is_positive (to_int answer.affected)) false c
        (Texts.delete_test_cases problem_id)
        (λ w answer reports. ap (λ n. is_positive (to_int n)) reports.affected))

  pub problem_find_all-Implements :
      Implements laws (suc k) (Problems.find_all server) (Spec.find_problems store)
  unfolding Problems.find_all Problems.find_all_on
  problem_find_all-Implements =
      Implements-with_connection laws _ _
        (λ c. select_all-Implements laws Problems.read_summary c Texts.find_problems)

  pub problem_delete_by_id-Implements :
      (id : ℤ)
      → Implements laws (suc k) (Problems.delete_by_id server id) (Spec.delete_problem store id)
  unfolding Problems.delete_by_id Problems.delete_on
  problem_delete_by_id-Implements id = Implements-with_connection laws _ _ (λ c.
      told-Implements laws (λ w. is_positive (to_int (server.mysql_affected_rows c w)))
        (λ answer. is_positive (to_int answer.affected)) false c (Texts.delete_problem id)
        (λ w answer reports. ap (λ n. is_positive (to_int n)) reports.affected))
