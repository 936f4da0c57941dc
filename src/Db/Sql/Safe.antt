-- ===== src/Db/Sql/Safe.antt =====
-- A value in a statement stays a value.
use cpp_oj_vbcoding_teach.Prelude.{
  ℕ, zero, suc, ◌+◌, ◌*◌, ◌≡◌, ◌≢◌, ◌≤◌, ◌<◌, refl, sym, ap, subst, ◌∙◌, List, [], ◌∷◌, ◌++◌,
  append_assoc, Bytes, All, All-append, length, arith,
}
use cpp_oj_vbcoding_teach.Prelude.Int.{ℤ, to_string}
use cpp_oj_vbcoding_teach.Prelude.Parse.{to_string-All}
use cpp_oj_vbcoding_teach.Pool.Mysql.{Conn}
use cpp_oj_vbcoding_teach.Db.Mysql.{Server}
use cpp_oj_vbcoding_teach.Db.Sql.{
  zeros, write_over, c_str, escape, Piece, sql, quoted, int, piece_text, sql_text,
}
use cpp_oj_vbcoding_teach.Db.Sql.Reader.{EscapeLaws, Reads, done, plain, literal}

abbrev pub NoZero : Bytes → Type 0
NoZero s = All (λ c. c ≢ 0) s

-- Neither a zero byte nor a quote.
abbrev pub IsPlain : Bytes → Type 0
IsPlain s = All (λ c. (c ≢ 0) × (c ≢ b'\'')) s

abbrev pub IsPlainPiece : Piece → Type 0
IsPlainPiece (sql s) = IsPlain s
IsPlainPiece (quoted s) = Unit
IsPlainPiece (int i) = Unit

-- The statement with nothing between its quotes, and what stood there.
abbrev pub fixed_text : List Piece → Bytes
fixed_text [] = []
fixed_text (sql s ∷ pieces) = s ++ fixed_text pieces
fixed_text (quoted s ∷ pieces) = b'\'' ∷ b'\'' ∷ fixed_text pieces
fixed_text (int i ∷ pieces) = to_string i ++ fixed_text pieces

abbrev pub values : List Piece → List Bytes
values [] = []
values (sql s ∷ pieces) = values pieces
values (quoted s ∷ pieces) = s ∷ values pieces
values (int i ∷ pieces) = values pieces

c_str-NoZero : (s : Bytes) → NoZero s → c_str s ≡ s
unfolding c_str
c_str-NoZero [] _ = refl
c_str-NoZero (c ∷ s) (n, h) = ground (arith, c_str-NoZero s h)

c_str-write_over :
    (m : ℕ) (out : Bytes)
    → NoZero out
    → length out < m
    → c_str (write_over (zeros m) (out ++ 0 ∷ [])) ≡ out
unfolding c_str write_over
c_str-write_over zero out h fits = absurd (omega arith)
c_str-write_over (suc m) [] h fits = refl
c_str-write_over (suc m) (c ∷ out) (n, h) fits = ground (arith, c_str-write_over m out h)

number-IsPlain : (s : Bytes) → All (λ c. (b'-' ≤ c) × (c ≤ b'9')) s → IsPlain s
number-IsPlain [] _ = tt
number-IsPlain (c ∷ s) ((low, high), h) = ((λ e. omega arith, λ e. omega arith), number-IsPlain s h)

to_string-IsPlain : (i : ℤ) → IsPlain (to_string i)
to_string-IsPlain i = number-IsPlain (to_string i) (to_string-All i)

quote_not_zero : ◌≢◌ {A = ℕ} b'\'' 0
quote_not_zero e = omega (arith, e)

length_zero : (s : Bytes) → length s ≤ 0 → [] ≡ s
length_zero [] h = refl
length_zero (c ∷ s) h = absurd (omega arith)

IsPlain-NoZero : (s : Bytes) → IsPlain s → NoZero s
IsPlain-NoZero [] _ = tt
IsPlain-NoZero (c ∷ s) ((n, _), h) = (n, IsPlain-NoZero s h)

module _ {W : Type 0} (server : Server W) (laws : EscapeLaws server) where
  -- The buffer of `escape` is large enough, and nothing of the text is lost behind a zero byte.
  escape-escaped :
      (conn : Conn) (s : Bytes) (w : W) → escape server conn s w ≡ server.escaped conn s w
  unfolding escape
  escape-escaped conn [] w = length_zero (server.escaped conn [] w) (laws.fits conn [] w)
  escape-escaped conn (c ∷ s) w =
      let fits = laws.fits conn (c ∷ s) w in
      c_str-write_over (length (c ∷ s) * 2 + 1) (server.escaped conn (c ∷ s) w)
        (laws.no_zero conn (c ∷ s) w) (omega arith)

  Reads-plain :
      (t : Bytes) {text fixed : Bytes} {vs : List Bytes}
      → IsPlain t
      → Reads laws.read_literal text fixed vs
      → Reads laws.read_literal (t ++ text) (t ++ fixed) vs
  Reads-plain [] _ r = r
  Reads-plain (c ∷ t) ((_, n), h) r = plain c n (Reads-plain t h r)

  Reads-sql_text :
      (conn : Conn) (w : W) (pieces : List Piece)
      → All IsPlainPiece pieces
      → Reads laws.read_literal (sql_text server conn w pieces) (fixed_text pieces) (values pieces)
  unfolding sql_text piece_text
  Reads-sql_text conn w [] _ = done
  Reads-sql_text conn w (sql s ∷ pieces) (h, hs) = Reads-plain s h (Reads-sql_text conn w pieces hs)
  Reads-sql_text conn w (quoted s ∷ pieces) (h, hs) =
      let rest = sql_text server conn w pieces in
      literal s
        (ap laws.read_literal (
            append_assoc (escape server conn s w) (b'\'' ∷ []) rest
            ∙ ap (λ e. e ++ b'\'' ∷ rest) (escape-escaped conn s w))
          ∙ laws.reads conn s rest w)
        (Reads-sql_text conn w pieces hs)
  Reads-sql_text conn w (int i ∷ pieces) (h, hs) =
      Reads-plain (to_string i) (to_string-IsPlain i) (Reads-sql_text conn w pieces hs)

  sql_text-NoZero :
      (conn : Conn) (w : W) (pieces : List Piece)
      → All IsPlainPiece pieces
      → NoZero (sql_text server conn w pieces)
  unfolding sql_text piece_text
  sql_text-NoZero conn w [] _ = tt
  sql_text-NoZero conn w (sql s ∷ pieces) (h, hs) =
      All-append (λ c. c ≢ 0) s (sql_text server conn w pieces) (IsPlain-NoZero s h)
        (sql_text-NoZero conn w pieces hs)
  sql_text-NoZero conn w (quoted s ∷ pieces) (h, hs) = (
    quote_not_zero,
    All-append (λ c. c ≢ 0) (escape server conn s w ++ b'\'' ∷ []) (sql_text server conn w pieces)
        (All-append (λ c. c ≢ 0) (escape server conn s w) (b'\'' ∷ [])
          (subst NoZero (sym (escape-escaped conn s w)) (laws.no_zero conn s w))
          (quote_not_zero, tt))
        (sql_text-NoZero conn w pieces hs),
  )
  sql_text-NoZero conn w (int i ∷ pieces) (h, hs) =
      All-append (λ c. c ≢ 0) (to_string i) (sql_text server conn w pieces)
        (IsPlain-NoZero (to_string i) (to_string-IsPlain i)) (sql_text-NoZero conn w pieces hs)

  -- The server reads a statement whose fixed parts have no quote and no zero byte as it was meant: its
  -- fixed part does not depend on the values, and the values are read as they are.
  pub query-Reads :
      (conn : Conn) (w : W) (pieces : List Piece)
      → All IsPlainPiece pieces
      → Reads laws.read_literal
          (c_str (sql_text server conn w pieces))
          (fixed_text pieces)
          (values pieces)
  query-Reads conn w pieces h =
      subst (λ t. Reads laws.read_literal t (fixed_text pieces) (values pieces))
        (sym (c_str-NoZero (sql_text server conn w pieces) (sql_text-NoZero conn w pieces h)))
        (Reads-sql_text conn w pieces h)
