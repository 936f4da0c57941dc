-- ===== src/Db/Mysql.antt =====
-- The calls of the MySQL client library on a connection, as the mappers of src/model use them.
use cpp_oj_vbcoding_teach.Prelude.{
  ℕ, ◌-◌, ◌%◌, ◌^◌, ltb, if◌then◌else◌, Bool, List, [], Bytes, Option, none, some, get_or,
}
use cpp_oj_vbcoding_teach.Prelude.Int.{ℤ, pos, negsuc}
use cpp_oj_vbcoding_teach.Prelude.Parse.{stoi}
use cpp_oj_vbcoding_teach.Pool.Mysql.{Client, Conn}

-- MYSQL_ROW: a column that is NULL is `none`.
abbrev pub Row : Type 0
Row = List (Option Bytes)

-- `escaped c s w` is the text that mysql_real_escape_string writes for s, without the zero byte that ends
-- it. `mysql_query` is true where the C function returns 0. `rows` is what mysql_store_result gives, as the
-- rows that mysql_fetch_row gives one after the other; what it frees is left out.
pub record Server (W : Type 0) : Type 0 where
  pub client : Client W
  pub escaped : Conn → Bytes → W → Bytes
  pub mysql_query : Conn → Bytes → W → Bool × W
  pub mysql_insert_id : Conn → W → ℕ
  pub mysql_affected_rows : Conn → W → ℕ
  pub mysql_store_result : Conn → W → Option (List Row)

-- `static_cast<int>` of a my_ulonglong.
abbrev pub to_int : ℕ → ℤ
to_int n = if ltb (n % 2 ^ 32) (2 ^ 31) then pos (n % 2 ^ 32) else negsuc (2 ^ 32 - 1 - n % 2 ^ 32)

-- `row[i] ? row[i] : ""`.
unfoldable pub column : Row → ℕ → Bytes
column row i = elim (get_or row i none) [ none ↦ [] | some s ↦ s ]

-- `std::stoi(row[i])`: a null pointer is an exception as well.
unfoldable pub int_column : Row → ℕ → Option ℤ
int_column row i = elim (get_or row i none) [ none ↦ none | some s ↦ stoi s ]

-- `row[i] ? std::stoi(row[i]) : 0`.
unfoldable pub int_column_or_zero : Row → ℕ → Option ℤ
int_column_or_zero row i = elim (get_or row i none) [ none ↦ some (pos 0) | some s ↦ stoi s ]
