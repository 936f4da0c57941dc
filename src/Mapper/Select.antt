-- ===== src/Mapper/Select.antt =====
-- How the mappers read the rows of a SELECT.
use cpp_oj_vbcoding_teach.Prelude.{if◌then◌else◌, List, [], ◌∷◌, ◌++◌, Option, none, some}
use cpp_oj_vbcoding_teach.Pool.Mysql.{Conn}
use cpp_oj_vbcoding_teach.Db.Mysql.{Server, Row}
use cpp_oj_vbcoding_teach.Db.Exec.{Exec, pure, lift, gets, ◌>>=◌}
use cpp_oj_vbcoding_teach.Db.Sql.{Piece, query}

module _ {A : Type 0} (read : Row → Option A) where
  -- The first row, or the value that stands where there is none.
  unfoldable pub first_row : A → Option (List Row) → Option A
  first_row missing none = some missing
  first_row missing (some []) = some missing
  first_row missing (some (row ∷ rows)) = read row

  -- `while ((row = mysql_fetch_row(result)))`, with the values that were read so far.
  unfoldable pub read_rows : List A → List Row → Option (List A)
  read_rows found [] = some found
  read_rows found (row ∷ rows) = elim (read row) [
    | none ↦ none
    | some a ↦ read_rows (found ++ a ∷ []) rows
  ]

  unfoldable pub all_rows : Option (List Row) → Option (List A)
  all_rows none = some []
  all_rows (some rows) = read_rows [] rows

  module _ {W : Type 0} (server : Server W) (conn : Conn) (pieces : List Piece) where
    unfoldable pub select_first : A → Exec W A
    select_first missing = do
      done ← query server conn pieces
      result ← gets (server.mysql_store_result conn)
      if done then lift (first_row missing result) else pure missing

    unfoldable pub select_all : Exec W (List A)
    select_all = do
      done ← query server conn pieces
      result ← gets (server.mysql_store_result conn)
      if done then lift (all_rows result) else pure []
