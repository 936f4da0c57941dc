-- ===== src/Mapper/Texts.antt =====
-- The statements of the mappers.
use cpp_oj_vbcoding_teach.Prelude.{
  ℕ, ◌≡◌, ◌≢◌, ◌==◌, ◌&&◌, Bool, true, false, not, refl, List, Bytes, All, ◌∷◌, [], arith,
}
use cpp_oj_vbcoding_teach.Prelude.Int.{ℤ}
use cpp_oj_vbcoding_teach.Model.{User, Session, TestCase, Problem}
use cpp_oj_vbcoding_teach.Pool.Mysql.{Conn}
use cpp_oj_vbcoding_teach.Db.Mysql.{Server}
use cpp_oj_vbcoding_teach.Db.Sql.Reader.{EscapeLaws, Reads}
use cpp_oj_vbcoding_teach.Db.Sql.{Piece, sql, quoted, int, c_str, sql_text}
use cpp_oj_vbcoding_teach.Db.Sql.Safe.{IsPlainPiece, IsPlain, fixed_text, values, query-Reads}
use cpp_oj_vbcoding_teach.Mapper.Users as Users
use cpp_oj_vbcoding_teach.Mapper.Sessions as Sessions
use cpp_oj_vbcoding_teach.Mapper.TestCases as TestCases
use cpp_oj_vbcoding_teach.Mapper.Problems as Problems

pub data Statement : Type 0 where
  insert_user : User → Statement
  find_user : ℤ → Statement
  find_username : Bytes → Statement
  insert_session : Session → Statement
  find_session : Bytes → Statement
  delete_session : Bytes → Statement
  delete_expired : Statement
  insert_test_case : TestCase → Statement
  find_test_cases : ℤ → Statement
  delete_test_cases : ℤ → Statement
  insert_problem : Problem → Statement
  update_problem : Problem → Statement
  find_problem : ℤ → Statement
  find_problems : Statement
  delete_problem : ℤ → Statement

abbrev pub pieces : Statement → List Piece
pieces (insert_user user) = Users.insert_sql user
pieces (find_user id) = Users.find_by_id_sql id
pieces (find_username username) = Users.find_by_username_sql username
pieces (insert_session session) = Sessions.insert_sql session
pieces (find_session id) = Sessions.find_by_id_sql id
pieces (delete_session id) = Sessions.delete_by_id_sql id
pieces delete_expired = Sessions.delete_expired_sql
pieces (insert_test_case tc) = TestCases.insert_sql tc
pieces (find_test_cases problem_id) = TestCases.find_sql problem_id
pieces (delete_test_cases problem_id) = TestCases.delete_sql problem_id
pieces (insert_problem problem) = Problems.insert_sql problem
pieces (update_problem problem) = Problems.update_sql problem
pieces (find_problem id) = Problems.find_by_id_sql id
pieces find_problems = Problems.find_all_sql
pieces (delete_problem id) = Problems.delete_by_id_sql id

-- The test of the fixed parts of a statement.
abbrev plain_text : Bytes → Bool
plain_text [] = true
plain_text (c ∷ s) = (not (c == 0) && not (c == b'\'')) && plain_text s

abbrev plain_pieces : List Piece → Bool
plain_pieces [] = true
plain_pieces (sql s ∷ rest) = plain_text s && plain_pieces rest
plain_pieces (quoted s ∷ rest) = plain_pieces rest
plain_pieces (int i ∷ rest) = plain_pieces rest

and_true : (a b : Bool) → (a && b) ≡ true → (a ≡ true) × (b ≡ true)
and_true true true h = (refl, refl)
and_true true false h = absurd cc
and_true false b h = absurd cc

other : (c d : ℕ) → not (c == d) ≡ true → c ≢ d
other c d h e = ground arith

plain_text-IsPlain : (s : Bytes) → plain_text s ≡ true → IsPlain s
plain_text-IsPlain [] h = tt
plain_text-IsPlain (c ∷ s) h =
    let (here, rest) = and_true _ (plain_text s) h in
    let (no_zero, no_quote) = and_true (not (c == 0)) (not (c == b'\'')) here in
    ((other c 0 no_zero, other c b'\'' no_quote), plain_text-IsPlain s rest)

plain_pieces-IsPlainPiece : (l : List Piece) → plain_pieces l ≡ true → All IsPlainPiece l
plain_pieces-IsPlainPiece [] h = tt
plain_pieces-IsPlainPiece (sql s ∷ l) h =
    let (here, rest) = and_true (plain_text s) (plain_pieces l) h in
    (plain_text-IsPlain s here, plain_pieces-IsPlainPiece l rest)
plain_pieces-IsPlainPiece (quoted s ∷ l) h = (tt, plain_pieces-IsPlainPiece l h)
plain_pieces-IsPlainPiece (int i ∷ l) h = (tt, plain_pieces-IsPlainPiece l h)

pieces-plain : (statement : Statement) → plain_pieces (pieces statement) ≡ true
pieces-plain (insert_user user) = refl
pieces-plain (find_user id) = refl
pieces-plain (find_username username) = refl
pieces-plain (insert_session session) = refl
pieces-plain (find_session id) = refl
pieces-plain (delete_session id) = refl
pieces-plain delete_expired = refl
pieces-plain (insert_test_case tc) = refl
pieces-plain (find_test_cases problem_id) = refl
pieces-plain (delete_test_cases problem_id) = refl
pieces-plain (insert_problem problem) = refl
pieces-plain (update_problem problem) = refl
pieces-plain (find_problem id) = refl
pieces-plain find_problems = refl
pieces-plain (delete_problem id) = refl

pub statement_plain : (statement : Statement) → All IsPlainPiece (pieces statement)
statement_plain statement = plain_pieces-IsPlainPiece (pieces statement) (pieces-plain statement)

-- Under what the documentation says of mysql_real_escape_string, the server reads the text that is sent for
-- each statement of the mappers, whatever bytes the strings in it have, as the fixed text of the statement
-- with a literal at each of its values, and reads these literals as the strings themselves.
pub statements_read :
    {W : Type 0} (server : Server W) (laws : EscapeLaws server) (conn : Conn) (w : W)
    (statement : Statement)
    → Reads laws.read_literal
        (c_str (sql_text server conn w (pieces statement)))
        (fixed_text (pieces statement))
        (values (pieces statement))
statements_read server laws conn w statement =
    query-Reads server laws conn w (pieces statement) (statement_plain statement)
