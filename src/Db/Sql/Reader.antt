-- ===== src/Db/Sql/Reader.antt =====
-- A reader of statements, apart from how they are written: it takes a text to its fixed part, with two
-- quotes in the place of a literal, and the values of its literals.
use cpp_oj_vbcoding_teach.Prelude.{
  ℕ, ◌*◌, ◌≡◌, ◌≢◌, ◌≤◌, List, [], ◌∷◌, ◌++◌, Bytes, Option, some, All, length,
}
use cpp_oj_vbcoding_teach.Pool.Mysql.{Conn}
use cpp_oj_vbcoding_teach.Db.Mysql.{Server}

-- What the documentation of the library says of mysql_real_escape_string: the buffer of twice the length
-- and one is enough, the text has no zero byte, and the server, which reads a literal behind its opening
-- quote as `read_literal` says, reads the text up to the quote behind it as the string that it was made of.
pub record EscapeLaws {W : Type 0} (server : Server W) : Type 0 where
  pub fits : (conn : Conn) (s : Bytes) (w : W) → length (server.escaped conn s w) ≤ length s * 2
  pub no_zero : (conn : Conn) (s : Bytes) (w : W) → All (λ c. c ≢ 0) (server.escaped conn s w)
  pub read_literal : Bytes → Option (Bytes × Bytes)
  pub reads :
      (conn : Conn) (s rest : Bytes) (w : W)
      → read_literal (server.escaped conn s w ++ b'\'' ∷ rest) ≡ some (s, rest)

pub data Reads (read_literal : Bytes → Option (Bytes × Bytes))
    : Bytes → Bytes → List Bytes → Type 0 where
  done : Reads read_literal [] [] []
  plain :
      (c : ℕ) {text fixed : Bytes} {values : List Bytes}
      → c ≢ b'\''
      → Reads read_literal text fixed values
      → Reads read_literal (c ∷ text) (c ∷ fixed) values
  literal :
      (s : Bytes) {text rest fixed : Bytes} {values : List Bytes}
      → read_literal text ≡ some (s, rest)
      → Reads read_literal rest fixed values
      → Reads read_literal (b'\'' ∷ text) (b'\'' ∷ b'\'' ∷ fixed) (s ∷ values)
