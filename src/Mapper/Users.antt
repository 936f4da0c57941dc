-- ===== src/Mapper/Users.antt =====
-- UserMapper: src/model/user.cc. A null connection is `none`.
use cpp_oj_vbcoding_teach.Prelude.{if◌then◌else◌, List, [], ◌∷◌, Bytes, codes, Option, none, some}
use cpp_oj_vbcoding_teach.Prelude.Int.{ℤ, negsuc}
use cpp_oj_vbcoding_teach.Model.{User, no_user}
use cpp_oj_vbcoding_teach.Pool.Mysql.{Conn}
use cpp_oj_vbcoding_teach.Auth.Cookie.{empty}
use cpp_oj_vbcoding_teach.Db.Mysql.{Server, Row, to_int, column, int_column}
use cpp_oj_vbcoding_teach.Db.Exec.{Exec, pure, gets, ◌>>=◌, with_connection}
use cpp_oj_vbcoding_teach.Db.Sql.{Piece, sql, quoted, int, query}
use cpp_oj_vbcoding_teach.Mapper.Select.{select_first}

abbrev pub insert_sql : User → List Piece
insert_sql user =
    sql (codes "INSERT INTO users (username, password, role) VALUES (")
    ∷ quoted user.username
    ∷ sql (codes ", ")
    ∷ quoted user.password
    ∷ sql (codes ", ")
    ∷ quoted (if empty user.role then codes "user" else user.role)
    ∷ sql (codes ")")
    ∷ []

abbrev pub find_by_id_sql : ℤ → List Piece
find_by_id_sql id =
    sql (codes "SELECT id, username, password, role, created_at ")
    ∷ sql (codes "FROM users WHERE id = ")
    ∷ int id
    ∷ []

abbrev pub find_by_username_sql : Bytes → List Piece
find_by_username_sql username =
    sql (codes "SELECT id, username, password, role, created_at ")
    ∷ sql (codes "FROM users WHERE username = ")
    ∷ quoted username
    ∷ []

unfoldable pub read_user : Row → Option User
read_user row = elim (int_column row 0) [
  | none ↦ none
  | some id ↦ some (record {
    id = id;
    username = column row 1;
    password = column row 2;
    role = column row 3;
    created_at = column row 4;
  })
]

module _ {W : Type 0} (server : Server W) where
  unfoldable pub insert_on : User → Option Conn → Exec W ℤ
  insert_on user none = pure (negsuc 0)
  insert_on user (some conn) = do
    done ← query server conn (insert_sql user)
    if done then gets (λ w. to_int (server.mysql_insert_id conn w)) else pure (negsuc 0)

  unfoldable pub insert : User → Exec W ℤ
  insert user = with_connection server.client (insert_on user)

  unfoldable pub find_on : List Piece → Option Conn → Exec W User
  find_on pieces none = pure no_user
  find_on pieces (some conn) = select_first read_user server conn pieces no_user

  unfoldable pub find_by_id : ℤ → Exec W User
  find_by_id id = with_connection server.client (find_on (find_by_id_sql id))

  unfoldable pub find_by_username : Bytes → Exec W User
  find_by_username username =
      with_connection server.client (find_on (find_by_username_sql username))
