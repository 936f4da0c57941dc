-- ===== src/Mapper/Connections/Blocks.antt =====
-- The blocks of the mappers that stand behind one acquisition.
use cpp_oj_vbcoding_teach.Prelude.{ℕ, List, Bytes, Option, none, some}
use cpp_oj_vbcoding_teach.Prelude.Int.{ℤ}
use cpp_oj_vbcoding_teach.Model.{User, Session, TestCase}
use cpp_oj_vbcoding_teach.Pool.Mysql.{Conn}
use cpp_oj_vbcoding_teach.Db.Mysql.{Server, Row}
use cpp_oj_vbcoding_teach.Db.Sql.{Piece, query}
use cpp_oj_vbcoding_teach.Db.Uses.{Uses, AllAlive, uses_rules}
use cpp_oj_vbcoding_teach.Mapper.Select.{select_first, select_all}
use cpp_oj_vbcoding_teach.Mapper.Users as Users
use cpp_oj_vbcoding_teach.Mapper.Sessions as Sessions
use cpp_oj_vbcoding_teach.Mapper.TestCases as TestCases
use cpp_oj_vbcoding_teach.Mapper.Problems as Problems

module _ {W : Type 0} (server : Server W) {k : ℕ} where
  pub query-Uses : (conn : Conn) (pieces : List Piece) → Uses k (query server conn pieces)
  unfolding query
  query-Uses conn pieces = search uses_rules

  pub select_first-Uses :
      {A : Type 0} (read : Row → Option A) (conn : Conn) (pieces : List Piece) (missing : A)
      → Uses k (select_first read server conn pieces missing)
  unfolding select_first
  select_first-Uses read conn pieces missing = search (uses_rules, query-Uses)

  pub select_all-Uses :
      {A : Type 0} (read : Row → Option A) (conn : Conn) (pieces : List Piece)
      → Uses k (select_all read server conn pieces)
  unfolding select_all
  select_all-Uses read conn pieces = search (uses_rules, query-Uses)

pub ruleset statement_rules = (uses_rules, query-Uses, select_first-Uses, select_all-Uses)

module _ {W : Type 0} (server : Server W) {k : ℕ} where
  pub user_insert_on-Uses :
      (user : User) (conn : Option Conn) → Uses k (Users.insert_on server user conn)
  unfolding Users.insert_on
  user_insert_on-Uses user none = search statement_rules
  user_insert_on-Uses user (some conn) = search statement_rules

  pub user_find_on-Uses :
      (pieces : List Piece) (conn : Option Conn) → Uses k (Users.find_on server pieces conn)
  unfolding Users.find_on
  user_find_on-Uses pieces none = search statement_rules
  user_find_on-Uses pieces (some conn) = search statement_rules

  pub session_insert_on-Uses :
      (session : Session) (conn : Option Conn) → Uses k (Sessions.insert_on server session conn)
  unfolding Sessions.insert_on
  session_insert_on-Uses session none = search statement_rules
  session_insert_on-Uses session (some conn) = search statement_rules

  pub session_find_on-Uses :
      (id : Bytes) (conn : Option Conn) → Uses k (Sessions.find_on server id conn)
  unfolding Sessions.find_on
  session_find_on-Uses id none = search statement_rules
  session_find_on-Uses id (some conn) = search statement_rules

  pub session_delete_on-Uses :
      (id : Bytes) (conn : Option Conn) → Uses k (Sessions.delete_on server id conn)
  unfolding Sessions.delete_on
  session_delete_on-Uses id none = search statement_rules
  session_delete_on-Uses id (some conn) = search statement_rules

  pub session_delete_expired_on-Uses :
      (conn : Option Conn) → Uses k (Sessions.delete_expired_on server conn)
  unfolding Sessions.delete_expired_on
  session_delete_expired_on-Uses none = search statement_rules
  session_delete_expired_on-Uses (some conn) = search statement_rules

  pub test_case_insert_on-Uses :
      (tc : TestCase) (conn : Option Conn) → Uses k (TestCases.insert_on server tc conn)
  unfolding TestCases.insert_on
  test_case_insert_on-Uses tc none = search statement_rules
  test_case_insert_on-Uses tc (some conn) = search statement_rules

  pub test_case_find_on-Uses :
      (problem_id : ℤ) (conn : Option Conn) → Uses k (TestCases.find_on server problem_id conn)
  unfolding TestCases.find_on
  test_case_find_on-Uses problem_id none = search statement_rules
  test_case_find_on-Uses problem_id (some conn) = search statement_rules

  pub test_case_delete_on-Uses :
      (problem_id : ℤ) (conn : Option Conn) → Uses k (TestCases.delete_on server problem_id conn)
  unfolding TestCases.delete_on
  test_case_delete_on-Uses problem_id none = search statement_rules
  test_case_delete_on-Uses problem_id (some conn) = search statement_rules

  pub problem_find_all_on-Uses : (conn : Option Conn) → Uses k (Problems.find_all_on server conn)
  unfolding Problems.find_all_on
  problem_find_all_on-Uses none = search statement_rules
  problem_find_all_on-Uses (some conn) = search statement_rules

  pub problem_delete_on-Uses :
      (id : ℤ) (conn : Option Conn) → Uses k (Problems.delete_on server id conn)
  unfolding Problems.delete_on
  problem_delete_on-Uses id none = search statement_rules
  problem_delete_on-Uses id (some conn) = search statement_rules

pub ruleset block_rules = (
  user_insert_on-Uses, user_find_on-Uses, session_insert_on-Uses, session_find_on-Uses,
  session_delete_on-Uses, session_delete_expired_on-Uses, test_case_insert_on-Uses,
  test_case_find_on-Uses, test_case_delete_on-Uses, problem_find_all_on-Uses,
  problem_delete_on-Uses,
)
