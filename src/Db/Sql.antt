-- ===== src/Db/Sql.antt =====
-- The SQL texts: `escape`, which the files of src/model and src/tools each define, and what an
-- std::ostringstream makes of the parts of a statement.
pub mod Reader
pub mod Safe
use cpp_oj_vbcoding_teach.Prelude.{
  ℕ, zero, suc, ◌+◌, ◌*◌, ◌==◌, if◌then◌else◌, Bool, List, [], ◌∷◌, ◌++◌, Bytes, codes, length,
}
use cpp_oj_vbcoding_teach.Prelude.Int.{ℤ, to_string}
use cpp_oj_vbcoding_teach.Pool.Mysql.{Conn}
use cpp_oj_vbcoding_teach.Db.Mysql.{Server}
use cpp_oj_vbcoding_teach.Db.Exec.{Exec, call}

-- `std::string(n, '\0')`.
abbrev pub zeros : ℕ → Bytes
zeros zero = []
zeros (suc n) = 0 ∷ zeros n

-- The buffer with a text written over its front; what does not fit is lost.
unfoldable pub write_over : Bytes → Bytes → Bytes
write_over buf [] = buf
write_over [] (c ∷ out) = []
write_over (b ∷ buf) (c ∷ out) = c ∷ write_over buf out

-- A text as C reads it: up to its first zero byte.
unfoldable pub c_str : Bytes → Bytes
c_str [] = []
c_str (c ∷ s) = let rest = c_str s in if c == 0 then [] else c ∷ rest

-- A part of a statement: fixed text, a value in quotes, or a number.
pub data Piece : Type 0 where
  sql : Bytes → Piece
  quoted : Bytes → Piece
  int : ℤ → Piece

module _ {W : Type 0} (server : Server W) where
  unfoldable pub escape : Conn → Bytes → W → Bytes
  escape conn [] w = []
  escape conn (c ∷ s) w =
      c_str (write_over (zeros (length (c ∷ s) * 2 + 1)) (server.escaped conn (c ∷ s) w ++ 0 ∷ []))

  unfoldable pub piece_text : Conn → W → Piece → Bytes
  piece_text conn w (sql s) = s
  piece_text conn w (quoted s) = codes "'" ++ (escape conn s w ++ codes "'")
  piece_text conn w (int i) = to_string i

  unfoldable pub sql_text : Conn → W → List Piece → Bytes
  sql_text conn w [] = []
  sql_text conn w (piece ∷ pieces) = piece_text conn w piece ++ sql_text conn w pieces

  -- `mysql_query(conn, sql.str().c_str()) == 0`.
  unfoldable pub query : Conn → List Piece → Exec W Bool
  query conn pieces = call (λ w. server.mysql_query conn (c_str (sql_text conn w pieces)) w)
