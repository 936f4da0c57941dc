-- ===== src/Mapper/Sessions.antt =====
-- SessionMapper: src/model/session.cc.
use cpp_oj_vbcoding_teach.Prelude.{
  Bool, false, if◌then◌else◌, List, [], ◌∷◌, Bytes, codes, ltb, Option, none, some,
}
use cpp_oj_vbcoding_teach.Prelude.Int.{ℤ, negsuc}
use cpp_oj_vbcoding_teach.Model.{Session, no_session}
use cpp_oj_vbcoding_teach.Pool.Mysql.{Conn}
use cpp_oj_vbcoding_teach.Db.Mysql.{Server, Row, to_int, column, int_column_or_zero}
use cpp_oj_vbcoding_teach.Db.Exec.{Exec, pure, gets, ◌>>=◌, with_connection}
use cpp_oj_vbcoding_teach.Db.Sql.{Piece, sql, quoted, int, query}
use cpp_oj_vbcoding_teach.Mapper.Select.{select_first}

abbrev pub insert_sql : Session → List Piece
insert_sql session =
    sql (codes "INSERT INTO sessions (id, user_id, expires_at) VALUES (")
    ∷ quoted session.id
    ∷ sql (codes ", ")
    ∷ int session.user_id
    ∷ sql (codes ", ")
    ∷ quoted session.expires_at
    ∷ sql (codes ")")
    ∷ []

abbrev pub find_by_id_sql : Bytes → List Piece
find_by_id_sql id =
    sql (codes "SELECT id, user_id, expires_at, created_at ")
    ∷ sql (codes "FROM sessions WHERE id = ")
    ∷ quoted id
    ∷ sql (codes " AND expires_at > NOW()")
    ∷ []

abbrev pub delete_by_id_sql : Bytes → List Piece
delete_by_id_sql id = sql (codes "DELETE FROM sessions WHERE id = ") ∷ quoted id ∷ []

abbrev pub delete_expired_sql : List Piece
delete_expired_sql = sql (codes "DELETE FROM sessions WHERE expires_at < NOW()") ∷ []

unfoldable pub read_session : Row → Option Session
read_session row = elim (int_column_or_zero row 1) [
  | none ↦ none
  | some user_id ↦ some (record {
    id = column row 0;
    user_id = user_id;
    expires_at = column row 2;
    created_at = column row 3;
  })
]

module _ {W : Type 0} (server : Server W) where
  unfoldable pub insert_on : Session → Option Conn → Exec W Bool
  insert_on session none = pure false
  insert_on session (some conn) = query server conn (insert_sql session)

  unfoldable pub insert : Session → Exec W Bool
  insert session = with_connection server.client (insert_on session)

  unfoldable pub find_on : Bytes → Option Conn → Exec W Session
  find_on id none = pure no_session
  find_on id (some conn) = select_first read_session server conn (find_by_id_sql id) no_session

  unfoldable pub find_by_id : Bytes → Exec W Session
  find_by_id id = with_connection server.client (find_on id)

  -- The row count is compared as a my_ulonglong.
  unfoldable pub delete_on : Bytes → Option Conn → Exec W Bool
  delete_on id none = pure false
  delete_on id (some conn) = do
    done ← query server conn (delete_by_id_sql id)
    if done then gets (λ w. ltb 0 (server.mysql_affected_rows conn w)) else pure false

  unfoldable pub delete_by_id : Bytes → Exec W Bool
  delete_by_id id = with_connection server.client (delete_on id)

  unfoldable pub delete_expired_on : Option Conn → Exec W ℤ
  delete_expired_on none = pure (negsuc 0)
  delete_expired_on (some conn) = do
    done ← query server conn delete_expired_sql
    if done then gets (λ w. to_int (server.mysql_affected_rows conn w)) else pure (negsuc 0)

  unfoldable pub delete_expired : Exec W ℤ
  delete_expired = with_connection server.client delete_expired_on
