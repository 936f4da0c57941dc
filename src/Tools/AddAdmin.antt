-- ===== src/Tools/AddAdmin.antt =====
-- tools/add_admin.cc.
use cpp_oj_vbcoding_teach.Prelude.{
  ℕ, if◌then◌else◌, List, [], ◌∷◌, Bytes, codes, Option, none, some,
}
use cpp_oj_vbcoding_teach.Prelude.Int.{is_zero, is_negative}
use cpp_oj_vbcoding_teach.Model.{User}
use cpp_oj_vbcoding_teach.Bcrypt.Core.{BfEncrypt}
use cpp_oj_vbcoding_teach.Pool.Mysql.{Conn, ConnectParams}
use cpp_oj_vbcoding_teach.Db.Mysql.{Server}
use cpp_oj_vbcoding_teach.Db.Exec.{Exec, pure, throw, ◌>>=◌, ◌>>◌, with_connection}
use cpp_oj_vbcoding_teach.Db.Sql.{Piece, sql, quoted, query}
use cpp_oj_vbcoding_teach.Mapper.Users as Users
use cpp_oj_vbcoding_teach.Tools.{Exit, admin, run}

abbrev pub delete_sql : Bytes → List Piece
delete_sql username = sql (codes "DELETE FROM users WHERE username = ") ∷ quoted username ∷ []

module _ {W : Type 0} (server : Server W) where
  unfoldable pub delete_user_on : Bytes → Option Conn → Exec W Unit
  delete_user_on username none = throw
  delete_user_on username (some conn) =
      query server conn (delete_sql username) >>= λ done. if done then pure tt else throw

  unfoldable pub delete_user_by_username : Bytes → Exec W Unit
  delete_user_by_username username = with_connection server.client (delete_user_on username)

  unfoldable pub delete_existing : User → Exec W Unit
  delete_existing existing =
      if is_zero existing.id then pure tt else delete_user_by_username (codes "admin")

  module _ (bf_encrypt : BfEncrypt) (salt : Bytes) where
    -- The second `try` block of `main`, with the exit code.
    unfoldable pub add_admin : Exec W ℕ
    add_admin =
        Users.find_by_username server (codes "admin")
        >>= delete_existing
        >> Users.insert server (admin bf_encrypt salt)
        >>= λ id. pure (if is_negative id then 1 else 0)

    unfoldable pub main : Option ConnectParams → W → Exit × W
    main = run server.client add_admin
