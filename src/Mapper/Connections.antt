-- ===== src/Mapper/Connections.antt =====
-- The mappers give back every connection they take, and how many they hold at once.
pub mod Blocks
pub mod Nested
use cpp_oj_vbcoding_teach.Prelude.{
  ℕ, ◌≤◌, zero, suc, Bool, not, ◌||◌, if◌then◌else◌, List, [], ◌∷◌, Bytes, Option, none, some,
}
use cpp_oj_vbcoding_teach.Prelude.Int.{ℤ, negsuc, is_positive, is_zero}
use cpp_oj_vbcoding_teach.Model.{User, Session, TestCase, Problem}
use cpp_oj_vbcoding_teach.Pool.Mysql.{Conn}
use cpp_oj_vbcoding_teach.Db.Mysql.{Server}
use cpp_oj_vbcoding_teach.Db.Exec.{Db}
use cpp_oj_vbcoding_teach.Db.Uses.{
  Uses, AllAlive, Idle, Completes, Uses-bind, Uses-with_connection, uses_rules,
}
use cpp_oj_vbcoding_teach.Mapper.Connections.Blocks.{block_rules, statement_rules}
use cpp_oj_vbcoding_teach.Mapper.Users as Users
use cpp_oj_vbcoding_teach.Mapper.Sessions as Sessions
use cpp_oj_vbcoding_teach.Mapper.TestCases as TestCases
use cpp_oj_vbcoding_teach.Mapper.Problems as Problems

module _ {W : Type 0} (server : Server W) (all_alive : AllAlive server.client) {k : ℕ} where
  pub user_insert-Uses : (user : User) → Uses (suc k) (Users.insert server user)
  unfolding Users.insert
  user_insert-Uses user =
      Uses-with_connection server.client all_alive _ (λ conn. search block_rules)

  user_find_by_id-Uses : (id : ℤ) → Uses (suc k) (Users.find_by_id server id)
  unfolding Users.find_by_id
  user_find_by_id-Uses id =
      Uses-with_connection server.client all_alive _ (λ conn. search block_rules)

  pub user_find_by_username-Uses :
      (username : Bytes) → Uses (suc k) (Users.find_by_username server username)
  unfolding Users.find_by_username
  user_find_by_username-Uses username =
      Uses-with_connection server.client all_alive _ (λ conn. search block_rules)

  session_insert-Uses : (session : Session) → Uses (suc k) (Sessions.insert server session)
  unfolding Sessions.insert
  session_insert-Uses session =
      Uses-with_connection server.client all_alive _ (λ conn. search block_rules)

  session_find_by_id-Uses : (id : Bytes) → Uses (suc k) (Sessions.find_by_id server id)
  unfolding Sessions.find_by_id
  session_find_by_id-Uses id =
      Uses-with_connection server.client all_alive _ (λ conn. search block_rules)

  session_delete_by_id-Uses : (id : Bytes) → Uses (suc k) (Sessions.delete_by_id server id)
  unfolding Sessions.delete_by_id
  session_delete_by_id-Uses id =
      Uses-with_connection server.client all_alive _ (λ conn. search block_rules)

  session_delete_expired-Uses : Uses (suc k) (Sessions.delete_expired server)
  unfolding Sessions.delete_expired
  session_delete_expired-Uses =
      Uses-with_connection server.client all_alive _ (λ conn. search block_rules)

  test_case_insert-Uses : (tc : TestCase) → Uses (suc k) (TestCases.insert server tc)
  unfolding TestCases.insert
  test_case_insert-Uses tc =
      Uses-with_connection server.client all_alive _ (λ conn. search block_rules)

  test_case_find_by_problem_id-Uses :
      (problem_id : ℤ) → Uses (suc k) (TestCases.find_by_problem_id server problem_id)
  unfolding TestCases.find_by_problem_id
  test_case_find_by_problem_id-Uses problem_id =
      Uses-with_connection server.client all_alive _ (λ conn. search block_rules)

  test_case_delete_by_problem_id-Uses :
      (problem_id : ℤ) → Uses (suc k) (TestCases.delete_by_problem_id server problem_id)
  unfolding TestCases.delete_by_problem_id
  test_case_delete_by_problem_id-Uses problem_id =
      Uses-with_connection server.client all_alive _ (λ conn. search block_rules)

  problem_find_all-Uses : Uses (suc k) (Problems.find_all server)
  unfolding Problems.find_all
  problem_find_all-Uses =
      Uses-with_connection server.client all_alive _ (λ conn. search block_rules)

  problem_delete_by_id-Uses : (id : ℤ) → Uses (suc k) (Problems.delete_by_id server id)
  unfolding Problems.delete_by_id
  problem_delete_by_id-Uses id =
      Uses-with_connection server.client all_alive _ (λ conn. search block_rules)

  insert_cases-Uses :
      (id : ℤ) (cases : List TestCase) → Uses (suc k) (Problems.insert_cases server id cases)
  unfolding Problems.insert_cases
  insert_cases-Uses id [] = search uses_rules
  insert_cases-Uses id (tc ∷ rest) =
      Uses-bind (TestCases.insert server (record tc { problem_id = id })) _
        (test_case_insert-Uses _) (λ _. insert_cases-Uses id rest)

  problem_insert_on-Uses :
      (problem : Problem) (conn : Option Conn)
      → Uses (suc k) (Problems.insert_on server problem conn)
  unfolding Problems.insert_on
  problem_insert_on-Uses problem none = search uses_rules
  problem_insert_on-Uses problem (some conn) = search (statement_rules, insert_cases-Uses)

  replace_cases-Uses :
      (conn : Conn) (id : ℤ) (cases : List TestCase)
      → Uses (suc k) (Problems.replace_cases server conn id cases)
  unfolding Problems.replace_cases
  replace_cases-Uses conn id [] = search uses_rules
  replace_cases-Uses conn id (tc ∷ rest) = search (statement_rules, insert_cases-Uses)

  problem_update_on-Uses :
      (problem : Problem) (conn : Option Conn)
      → Uses (suc k) (Problems.update_on server problem conn)
  unfolding Problems.update_on
  problem_update_on-Uses problem none = search uses_rules
  problem_update_on-Uses problem (some conn) = search (statement_rules, replace_cases-Uses)

  with_cases-Uses : (problem : Problem) → Uses (suc k) (Problems.with_cases server problem)
  unfolding Problems.with_cases
  with_cases-Uses problem = search (uses_rules, test_case_find_by_problem_id-Uses)

  problem_find_on-Uses :
      (id : ℤ) (conn : Option Conn) → Uses (suc k) (Problems.find_on server id conn)
  unfolding Problems.find_on
  problem_find_on-Uses id none = search uses_rules
  problem_find_on-Uses id (some conn) = search (statement_rules, with_cases-Uses)

module _ {W : Type 0} (server : Server W) where
  -- Where every connection answers its ping and the pool runs with one idle connection at least, each
  -- function of the mappers of users, sessions and test cases, and those of ProblemMapper that find all
  -- problems or delete one, come to an end, by a return or an exception, and give back what they took: the
  -- pool runs and has as many idle connections as before.
  pub one_connection :
      (n : ℕ) (s : Db W)
      → AllAlive server.client
      → 1 ≤ n
      → Idle n s
      → ((user : User) → Completes n s (Users.insert server user))
        × ((id : ℤ) → Completes n s (Users.find_by_id server id))
        × ((username : Bytes) → Completes n s (Users.find_by_username server username))
        × ((session : Session) → Completes n s (Sessions.insert server session))
        × ((id : Bytes) → Completes n s (Sessions.find_by_id server id))
        × ((id : Bytes) → Completes n s (Sessions.delete_by_id server id))
        × Completes n s (Sessions.delete_expired server)
        × ((tc : TestCase) → Completes n s (TestCases.insert server tc))
        × ((problem_id : ℤ) → Completes n s (TestCases.find_by_problem_id server problem_id))
        × ((problem_id : ℤ) → Completes n s (TestCases.delete_by_problem_id server problem_id))
        × Completes n s (Problems.find_all server)
        × ((id : ℤ) → Completes n s (Problems.delete_by_id server id))
  one_connection n s all_alive h i = (
    λ a. (user_insert-Uses server all_alive a).at n s h i,
    λ a. (user_find_by_id-Uses server all_alive a).at n s h i,
    λ a. (user_find_by_username-Uses server all_alive a).at n s h i,
    λ a. (session_insert-Uses server all_alive a).at n s h i,
    λ a. (session_find_by_id-Uses server all_alive a).at n s h i,
    λ a. (session_delete_by_id-Uses server all_alive a).at n s h i,
    (session_delete_expired-Uses server all_alive).at n s h i,
    λ a. (test_case_insert-Uses server all_alive a).at n s h i,
    λ a. (test_case_find_by_problem_id-Uses server all_alive a).at n s h i,
    λ a. (test_case_delete_by_problem_id-Uses server all_alive a).at n s h i,
    (problem_find_all-Uses server all_alive).at n s h i,
    λ a. (problem_delete_by_id-Uses server all_alive a).at n s h i,
  )

  -- Where every connection answers its ping and the pool runs with two idle connections at least, the
  -- functions of ProblemMapper that call TestCaseMapper under their own connection come to an end, by a
  -- return or an exception, and the pool runs with as many idle connections as before.
  pub two_connections :
      (n : ℕ) (s : Db W)
      → AllAlive server.client
      → 2 ≤ n
      → Idle n s
      → ((problem : Problem) → Completes n s (Problems.insert server problem))
        × ((problem : Problem) → Completes n s (Problems.update server problem))
        × ((id : ℤ) → Completes n s (Problems.find_by_id server id))
  unfolding Problems.insert Problems.update Problems.find_by_id
  two_connections n s all_alive h i = (
    λ problem.
        (Uses-with_connection server.client all_alive _
            (problem_insert_on-Uses server all_alive problem)).at
          n s h i,
    λ problem.
        (Uses-with_connection server.client all_alive _
            (problem_update_on-Uses server all_alive problem)).at
          n s h i,
    λ id.
        (Uses-with_connection server.client all_alive _
            (problem_find_on-Uses server all_alive id)).at
          n s h i,
  )
