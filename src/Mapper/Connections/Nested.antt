-- ===== src/Mapper/Connections/Nested.antt =====
-- A function that acquires a second connection under its first one, where the pool has one only.
use cpp_oj_vbcoding_teach.Prelude.{◌≡◌, refl, ap, ◌∙◌, Bool, true, List, [], ◌∷◌, Option, some}
use cpp_oj_vbcoding_teach.Prelude.Int.{ℤ}
use cpp_oj_vbcoding_teach.Model.{TestCase, Problem}
use cpp_oj_vbcoding_teach.Pool.Mysql.{Client, Conn}
use cpp_oj_vbcoding_teach.Pool.{wait}
use cpp_oj_vbcoding_teach.Pool.Acquire.{acquire_lem}
use cpp_oj_vbcoding_teach.Db.Mysql.{Server, to_int}
use cpp_oj_vbcoding_teach.Db.Exec.{
  Db, Result, ok, threw, asleep, Exec, gets, call, then_on, ◌>>=◌, give_back, behind_acquire,
  with_connection,
}
use cpp_oj_vbcoding_teach.Db.Sql.{c_str, sql_text, query}
use cpp_oj_vbcoding_teach.Db.Uses.{AllAlive, acquire_first}
use cpp_oj_vbcoding_teach.Mapper.TestCases as TestCases
use cpp_oj_vbcoding_teach.Mapper.Problems as Problems

-- The pool runs, and the thread holds its last connection.
abbrev pub held_last : {W : Type 0} → Client W → Conn → Db W → Db W
held_last client c s = record {
  pool = record s.pool { idle = [] };
  world = (client.mysql_ping c s.world).1;
}

module _ {W A : Type 0} (client : Client W) where
  empty_sleeps :
      (body : Option Conn → Exec W A) (s : Db W)
      → s.pool.initialized ≡ true
      → s.pool.idle ≡ []
      → with_connection client body s ≡ (asleep, record s { pool = wait s.pool })
  unfolding with_connection behind_acquire
  empty_sleeps body s on e =
      ap (λ a. behind_acquire a body s) ((acquire_lem client s.pool s.world).0.1 (on, e))

  give_back_same : (c : Conn) (r : Result A × Db W) → (give_back (some c) r).0 ≡ r.0
  unfolding give_back
  give_back_same c (ok a, s) = refl
  give_back_same c (threw, s) = refl
  give_back_same c (asleep, s) = refl

  pub last_connection :
      (body : Option Conn → Exec W A) (s : Db W) (c : Conn)
      → AllAlive client
      → s.pool.initialized ≡ true
      → s.pool.idle ≡ c ∷ []
      → (with_connection client body s).0 ≡ (body (some c) (held_last client c s)).0
  unfolding with_connection behind_acquire
  last_connection body s c all_alive on e =
      rw (acquire_first client all_alive s.pool s.world c [] on e)
        (give_back_same c (body (some c) (held_last client c s)))

ok_true : (b : Bool) → ok b ≡ ok true → b ≡ true
ok_true b h = cc

module _ {W : Type 0} (server : Server W) where
  insert_cases_sleep :
      (id : ℤ) (tc : TestCase) (rest : List TestCase) (s : Db W)
      → s.pool.initialized ≡ true
      → s.pool.idle ≡ []
      → (Problems.insert_cases server id (tc ∷ rest) s).0 ≡ asleep
  unfolding Problems.insert_cases TestCases.insert ◌>>=◌ then_on
  insert_cases_sleep id tc rest s on e =
      ap (λ r. (then_on r.0 (λ _. Problems.insert_cases server id rest) r.1).0)
        (empty_sleeps server.client (TestCases.insert_on server (record tc { problem_id = id })) s
          on e)

  insert_on_sleeps :
      (problem : Problem) (tc : TestCase) (rest : List TestCase) (s : Db W) (c : Conn)
      → s.pool.initialized ≡ true
      → s.pool.idle ≡ []
      → problem.test_cases ≡ tc ∷ rest
      → (server.mysql_query c
          (c_str (sql_text server c s.world (Problems.insert_sql problem)))
          s.world).0
        ≡ true
      → (Problems.insert_on server problem (some c) s).0 ≡ asleep
  unfolding Problems.insert_on query call gets ◌>>=◌ then_on
  insert_on_sleeps problem tc rest s c on e cases taken =
      rw (taken, cases)
        (let w =
            (server.mysql_query c (c_str (sql_text server c s.world (Problems.insert_sql problem)))
              s.world).1 in
          rw
            (insert_cases_sleep (to_int (server.mysql_insert_id c w)) tc rest
              (record s { world = w }) on e)
            refl)

  -- ProblemMapper::insert of a problem that has a test case does not come to an end where the pool has one
  -- idle connection, every connection answers its ping, and the server takes the row: it sleeps for good.
  pub insert_sleeps :
      (problem : Problem) (tc : TestCase) (rest : List TestCase) (s : Db W) (c : Conn)
      → AllAlive server.client
      → s.pool.initialized ≡ true
      → s.pool.idle ≡ c ∷ []
      → problem.test_cases ≡ tc ∷ rest
      → (query server c (Problems.insert_sql problem) (held_last server.client c s)).0 ≡ ok true
      → (Problems.insert server problem s).0 ≡ asleep
  unfolding Problems.insert query call
  insert_sleeps problem tc rest s c all_alive on e cases taken =
      last_connection server.client (Problems.insert_on server problem) s c all_alive on e
      ∙ insert_on_sleeps problem tc rest (held_last server.client c s) c on refl cases
          (ok_true _ taken)
