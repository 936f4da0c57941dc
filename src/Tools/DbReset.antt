-- ===== src/Tools/DbReset.antt =====
-- tools/db_reset.cc.
use cpp_oj_vbcoding_teach.Prelude.{
  ℕ, Bool, true, false, if◌then◌else◌, List, [], ◌∷◌, Bytes, codes, utf8, Option, none, some,
}
use cpp_oj_vbcoding_teach.Prelude.Int.{ℤ, pos, is_zero, is_negative}
use cpp_oj_vbcoding_teach.Model.{User, TestCase, Problem}
use cpp_oj_vbcoding_teach.Bcrypt.Core.{BfEncrypt}
use cpp_oj_vbcoding_teach.Pool.Mysql.{Conn, ConnectParams}
use cpp_oj_vbcoding_teach.Db.Mysql.{Server}
use cpp_oj_vbcoding_teach.Db.Exec.{Exec, pure, throw, ◌>>=◌, ◌>>◌, with_connection}
use cpp_oj_vbcoding_teach.Db.Sql.{Piece, sql, quoted, query}
use cpp_oj_vbcoding_teach.Mapper.Users as Users
use cpp_oj_vbcoding_teach.Mapper.Problems as Problems
use cpp_oj_vbcoding_teach.Tools.{Exit, admin, run}

abbrev pub clean_sessions_sql : List Piece
clean_sessions_sql = sql (codes "DELETE FROM sessions") ∷ []

abbrev pub clean_users_sql : Bytes → List Piece
clean_users_sql admin_username =
    sql (codes "DELETE FROM users WHERE username != ") ∷ quoted admin_username ∷ []

abbrev pub clean_problems_sql : List Piece
clean_problems_sql = sql (codes "DELETE FROM problems") ∷ []

abbrev pub delete_admin_sql : List Piece
delete_admin_sql = sql (codes "DELETE FROM users WHERE username = ") ∷ quoted (codes "admin") ∷ []

abbrev a_case : Bytes → Bytes → ℕ → TestCase
a_case input expected position = record {
  id = pos 0;
  problem_id = pos 0;
  input = input;
  expected = expected;
  position = pos position;
}

abbrev pub a_plus_b : Problem
a_plus_b = record {
  id = pos 0;
  title = codes "A+B Problem";
  difficulty = codes "Easy";
  content = utf8 "# A+B Problem\n\n计算两个整数的和。\n\n## 输入\n\n一行两个整数 a, b。\n\n## 输出\n\na + b 的结果。";
  code_template =
      utf8
        "#include <iostream>\n\nint main() {\n    int a, b;\n    std::cin >> a >> b;\n    // 在此编写代码\n    return 0;\n}";
  solution_content = utf8 "## 题解\n\n直接计算 a + b 即可。";
  solution_code =
      utf8
        "#include <iostream>\n\nint main() {\n    int a, b;\n    std::cin >> a >> b;\n    std::cout << a + b << std::endl;\n    return 0;\n}";
  created_at = [];
  test_cases =
      a_case (codes "1 2") (codes "3") 0
      ∷ a_case (codes "10 20") (codes "30") 1
      ∷ a_case (codes "-5 5") (codes "0") 2
      ∷ a_case (codes "0 0") (codes "0") 3
      ∷ a_case (codes "100 200") (codes "300") 4
      ∷ [];
}

module _ {W : Type 0} (server : Server W) where
  -- No function calls `executeSQL`.
  unfoldable pub execute_sql_on : Bytes → Option Conn → Exec W Unit
  execute_sql_on text none = throw
  execute_sql_on text (some conn) =
      query server conn (sql text ∷ []) >>= λ done. if done then pure tt else throw

  unfoldable pub execute_sql : Bytes → Exec W Unit
  execute_sql text = with_connection server.client (execute_sql_on text)

  -- A failure is a warning only.
  unfoldable pub clean_on : List Piece → Option Conn → Exec W Unit
  clean_on pieces none = pure tt
  clean_on pieces (some conn) = query server conn pieces >> pure tt

  unfoldable pub clean_sessions : Exec W Unit
  clean_sessions = with_connection server.client (clean_on clean_sessions_sql)

  unfoldable pub clean_non_admin_users : Bytes → Exec W Unit
  clean_non_admin_users admin_username =
      with_connection server.client (clean_on (clean_users_sql admin_username))

  unfoldable pub clean_problems : Exec W Unit
  clean_problems = with_connection server.client (clean_on clean_problems_sql)

  -- The block of an administrator that is there; without a connection the function returns.
  unfoldable pub delete_admin_on : Option Conn → Exec W Bool
  delete_admin_on none = pure false
  delete_admin_on (some conn) = query server conn delete_admin_sql >> pure true

  unfoldable pub delete_admin : User → Exec W Bool
  delete_admin existing =
      if is_zero existing.id then pure true else with_connection server.client delete_admin_on

  -- An id below 0 is an exception.
  unfoldable pub inserted : ℤ → Exec W Unit
  inserted id = if is_negative id then throw else pure tt

  unfoldable pub insert_standard_problems : Exec W Unit
  insert_standard_problems = Problems.insert server a_plus_b >>= inserted

  module _ (bf_encrypt : BfEncrypt) (salt : Bytes) where
    unfoldable pub insert_admin : Bool → Exec W Unit
    insert_admin go_on =
        if go_on then Users.insert server (admin bf_encrypt salt) >>= inserted else pure tt

    unfoldable pub ensure_admin_user : Exec W Unit
    ensure_admin_user =
        Users.find_by_username server (codes "admin") >>= delete_admin >>= insert_admin

    -- The second `try` block of `main`, with the exit code.
    unfoldable pub reset : Exec W ℕ
    reset =
        clean_sessions
        >> clean_non_admin_users (codes "admin")
        >> clean_problems
        >> ensure_admin_user
        >> insert_standard_problems
        >> pure 0

    unfoldable pub main : Option ConnectParams → W → Exit × W
    main = run server.client reset
