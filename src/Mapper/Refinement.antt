-- ===== src/Mapper/Refinement.antt =====
-- The mappers over a server do what their specification says of the store behind it.
pub mod Answers
pub mod Single
use cpp_oj_vbcoding_teach.Prelude.{
  ℕ, zero, suc, ◌≤◌, ap, Bool, not, ◌||◌, true, false, if◌then◌else◌, List, [], ◌∷◌, Bytes, Option,
  none, some, ltb,
}
use cpp_oj_vbcoding_teach.Prelude.Int.{ℤ, negsuc, is_positive, is_zero}
use cpp_oj_vbcoding_teach.Model.{User, no_user, Session, no_session, TestCase, Problem, no_problem}
use cpp_oj_vbcoding_teach.Pool.Mysql.{Conn}
use cpp_oj_vbcoding_teach.Db.Mysql.{Server, to_int}
use cpp_oj_vbcoding_teach.Db.Exec.{Db, Exec, pure, gets, then_on, ◌>>=◌, ◌>>◌, with_connection}
use cpp_oj_vbcoding_teach.Db.Sql.{query}
use cpp_oj_vbcoding_teach.Db.Uses.{Idle}
use cpp_oj_vbcoding_teach.Db.Store.{Store, ServerLaws, Agrees, give, and_then}
use cpp_oj_vbcoding_teach.Db.Refines.{
  Implements, Implements-pure, Implements-bind, Implements-if, Implements-query,
  Implements-with_connection,
}
use cpp_oj_vbcoding_teach.Mapper.Texts as Texts
use cpp_oj_vbcoding_teach.Mapper.Texts.{statement_plain}
use cpp_oj_vbcoding_teach.Mapper.Spec as Spec
use cpp_oj_vbcoding_teach.Mapper.Users as Users
use cpp_oj_vbcoding_teach.Mapper.Sessions as Sessions
use cpp_oj_vbcoding_teach.Mapper.TestCases as TestCases
use cpp_oj_vbcoding_teach.Mapper.Problems as Problems
use cpp_oj_vbcoding_teach.Mapper.Refinement.Answers.{
  select_first-Implements, select_all-Implements, told-Implements, query-Implements,
}
use cpp_oj_vbcoding_teach.Mapper.Refinement.Single.{
  user_insert-Implements, user_find_by_id-Implements, user_find_by_username-Implements,
  session_insert-Implements, session_find_by_id-Implements, session_delete_by_id-Implements,
  session_delete_expired-Implements, test_case_insert-Implements,
  test_case_find_by_problem_id-Implements, test_case_delete_by_problem_id-Implements,
  problem_find_all-Implements, problem_delete_by_id-Implements,
}

module _ {W D : Type 0} {server : Server W} {store : Store D} (laws : ServerLaws server store)
    {k : ℕ} where
  insert_cases-Implements :
      (id : ℤ) (cases : List TestCase)
      → Implements laws
          (suc k)
          (Problems.insert_cases server id cases)
          (Spec.insert_cases store id cases)
  unfolding Problems.insert_cases Spec.insert_cases
  insert_cases-Implements id [] = Implements-pure laws tt
  insert_cases-Implements id (tc ∷ rest) =
      Implements-bind laws _ _ _ _
        (test_case_insert-Implements laws (record tc { problem_id = id }))
        (λ _. insert_cases-Implements id rest)

  replace_cases-Implements :
      (c : Conn) (id : ℤ) (cases : List TestCase)
      → Implements laws
          (suc k)
          (Problems.replace_cases server c id cases)
          (Spec.replace_cases store id cases)
  unfolding Problems.replace_cases Spec.replace_cases
  replace_cases-Implements c id [] = Implements-pure laws tt
  replace_cases-Implements c id (tc ∷ rest) =
      Implements-query laws c (TestCases.delete_sql id) _ _
        (statement_plain (Texts.delete_test_cases id))
        (λ answer n s d h i held reports.
          (insert_cases-Implements id (tc ∷ rest)).at n s d h i held)

  with_cases-Implements :
      (problem : Problem)
      → Implements laws (suc k) (Problems.with_cases server problem) (Spec.with_cases store problem)
  unfolding Problems.with_cases Spec.with_cases
  with_cases-Implements problem =
      Implements-if laws (is_positive problem.id) _ _ _ _
        (Implements-bind laws _ _ _ _ (test_case_find_by_problem_id-Implements laws problem.id)
          (λ cases. Implements-pure laws (record problem { test_cases = cases })))
        (Implements-pure laws problem)

  stored-Implements :
      (id : ℤ) (cases : List TestCase) (b : Bool)
      → Implements laws
          (suc k)
          (if b then Problems.insert_cases server id cases >> pure id else pure (negsuc 0))
          (if b
            then and_then (Spec.insert_cases store id cases) (λ _. give id)
            else give (negsuc 0))
  stored-Implements id cases b =
      Implements-if laws b _ _ _ _
        (Implements-bind laws _ _ _ _ (insert_cases-Implements id cases)
          (λ _. Implements-pure laws id))
        (Implements-pure laws (negsuc 0))

  updated-Implements :
      (c : Conn) (problem : Problem) (b : Bool)
      → Implements laws
          (suc k)
          (if b
            then pure false
            else Problems.replace_cases server c problem.id problem.test_cases >> pure true)
          (if b
            then give false
            else and_then (Spec.replace_cases store problem.id problem.test_cases) (λ _. give true))
  updated-Implements c problem b = Implements-if laws b _ _ _ _ (Implements-pure laws false) (
      Implements-bind laws _ _ _ _ (replace_cases-Implements c problem.id problem.test_cases)
        (λ _. Implements-pure laws true))

  problem_insert-Implements :
      (problem : Problem)
      → Implements laws
          (suc (suc k))
          (Problems.insert server problem)
          (Spec.insert_problem store problem)
  unfolding Problems.insert Problems.insert_on Spec.insert_problem gets ◌>>=◌ then_on
  problem_insert-Implements problem = Implements-with_connection laws _ _ (λ c.
      Implements-query laws c (Problems.insert_sql problem) _ _
        (statement_plain (Texts.insert_problem problem))
        (λ answer n s d h i held reports. rw reports.id (
          (stored-Implements (to_int answer.id) problem.test_cases answer.done).at n s d h i held)))

  problem_update-Implements :
      (problem : Problem)
      → Implements laws
          (suc (suc k))
          (Problems.update server problem)
          (Spec.update_problem store problem)
  unfolding Problems.update Problems.update_on Spec.update_problem gets ◌>>=◌ then_on
  problem_update-Implements problem = Implements-with_connection laws _ _ (λ c.
      Implements-query laws c (Problems.update_sql problem) _ _
        (statement_plain (Texts.update_problem problem))
        (λ answer n s d h i held reports. rw reports.affected (
          (updated-Implements c problem (not answer.done || is_zero (to_int answer.affected))).at n
            s d h i held)))

  problem_find_by_id-Implements :
      (id : ℤ)
      → Implements laws (suc (suc k)) (Problems.find_by_id server id) (Spec.find_problem store id)
  unfolding Problems.find_by_id Problems.find_on Spec.find_problem
  problem_find_by_id-Implements id = Implements-with_connection laws _ _ (λ c.
      Implements-bind laws _ _ _ _
        (select_first-Implements laws Problems.read_problem no_problem c (Texts.find_problem id))
        with_cases-Implements)

module _ {W D : Type 0} {server : Server W} {store : Store D} (laws : ServerLaws server store) where
  -- Over a server that has a store behind it, with a pool that runs and has n idle connections, one at least,
  -- the functions of the mappers of users, sessions and test cases, and those of ProblemMapper that find all
  -- problems or delete one, return or throw as their specification says of the store, leave the store that
  -- it says, and leave n idle connections.
  pub mappers_refine :
      (n : ℕ) (s : Db W) (d : D)
      → 1 ≤ n
      → Idle n s
      → laws.holds d s.world
      → ((user : User) → Agrees laws n s d (Users.insert server user) (Spec.insert_user store user))
        × ((id : ℤ) → Agrees laws n s d (Users.find_by_id server id) (Spec.find_user store id))
        × ((username : Bytes)
            → Agrees laws n s d
                (Users.find_by_username server username)
                (Spec.find_username store username))
        × ((session : Session)
            → Agrees laws n s d
                (Sessions.insert server session)
                (Spec.insert_session store session))
        × ((id : Bytes)
            → Agrees laws n s d (Sessions.find_by_id server id) (Spec.find_session store id))
        × ((id : Bytes)
            → Agrees laws n s d (Sessions.delete_by_id server id) (Spec.delete_session store id))
        × Agrees laws n s d (Sessions.delete_expired server) (Spec.delete_expired store)
        × ((tc : TestCase)
            → Agrees laws n s d (TestCases.insert server tc) (Spec.insert_test_case store tc))
        × ((problem_id : ℤ)
            → Agrees laws n s d
                (TestCases.find_by_problem_id server problem_id)
                (Spec.find_test_cases store problem_id))
        × ((problem_id : ℤ)
            → Agrees laws n s d
                (TestCases.delete_by_problem_id server problem_id)
                (Spec.delete_test_cases store problem_id))
        × Agrees laws n s d (Problems.find_all server) (Spec.find_problems store)
        × ((id : ℤ)
            → Agrees laws n s d (Problems.delete_by_id server id) (Spec.delete_problem store id))
  mappers_refine n s d h i held = (
    λ user. (user_insert-Implements laws user).at n s d h i held,
    λ id. (user_find_by_id-Implements laws id).at n s d h i held,
    λ username. (user_find_by_username-Implements laws username).at n s d h i held,
    λ session. (session_insert-Implements laws session).at n s d h i held,
    λ id. (session_find_by_id-Implements laws id).at n s d h i held,
    λ id. (session_delete_by_id-Implements laws id).at n s d h i held,
    (session_delete_expired-Implements laws).at n s d h i held,
    λ tc. (test_case_insert-Implements laws tc).at n s d h i held,
    λ problem_id. (test_case_find_by_problem_id-Implements laws problem_id).at n s d h i held,
    λ problem_id. (test_case_delete_by_problem_id-Implements laws problem_id).at n s d h i held,
    (problem_find_all-Implements laws).at n s d h i held,
    λ id. (problem_delete_by_id-Implements laws id).at n s d h i held,
  )

  -- Over a server that has a store behind it, with a pool that runs and has n idle connections, two at least,
  -- the functions of ProblemMapper that insert, update and find a problem with its test cases return or throw
  -- as their specification says of the store, leave the store that it says, and leave n idle connections.
  pub problems_refine :
      (n : ℕ) (s : Db W) (d : D)
      → 2 ≤ n
      → Idle n s
      → laws.holds d s.world
      → ((problem : Problem)
          → Agrees laws n s d (Problems.insert server problem) (Spec.insert_problem store problem))
        × ((problem : Problem)
            → Agrees laws n s d
                (Problems.update server problem)
                (Spec.update_problem store problem))
        × ((id : ℤ)
            → Agrees laws n s d (Problems.find_by_id server id) (Spec.find_problem store id))
  problems_refine n s d h i held = (
    λ problem. (problem_insert-Implements laws problem).at n s d h i held,
    λ problem. (problem_update-Implements laws problem).at n s d h i held,
    λ id. (problem_find_by_id-Implements laws id).at n s d h i held,
  )
