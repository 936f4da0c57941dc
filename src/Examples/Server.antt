-- ===== src/Examples/Server.antt =====
-- A client library with a server: it escapes with backslashes, numbers the statements it was sent, and
-- answers each with the same row.
use cpp_oj_vbcoding_teach.Prelude.{
  ℕ, suc, ◌≡◌, ◌≢◌, ◌≤◌, ◌*◌, ◌==◌, refl, ap, Bool, true, false, if◌then◌else◌, [], ◌∷◌, ◌++◌,
  Bytes, codes, Option, none, some, All, length, arith,
}
use cpp_oj_vbcoding_teach.Pool.Mysql.{Client}
use cpp_oj_vbcoding_teach.Db.Mysql.{Server, Row}
use cpp_oj_vbcoding_teach.Prelude.Int.{pos}
use cpp_oj_vbcoding_teach.Db.Exec.{Db}
use cpp_oj_vbcoding_teach.Db.Sql.Reader.{EscapeLaws}
use cpp_oj_vbcoding_teach.Db.Store.{Store, ServerLaws}

abbrev escape_byte : ℕ → Bytes → Bytes
escape_byte c out =
    if c == 0
    then b'\\' ∷ b'0' ∷ out
    else if c == b'\''
    then b'\\' ∷ b'\'' ∷ out
    else if c == b'\\'
    then b'\\' ∷ b'\\' ∷ out
    else c ∷ out

abbrev escape_bytes : Bytes → Bytes
escape_bytes [] = []
escape_bytes (c ∷ s) = escape_byte c (escape_bytes s)

abbrev put : ℕ → Option (Bytes × Bytes) → Option (Bytes × Bytes)
put c none = none
put c (some (s, rest)) = some (c ∷ s, rest)

-- The flag says that a backslash stands before.
abbrev read_from : Bool → Bytes → Option (Bytes × Bytes)
read_from escaped [] = none
read_from true (c ∷ text) = put (if c == b'0' then 0 else c) (read_from false text)
read_from false (c ∷ text) =
    let more = read_from true text in
    let plain = read_from false text in
    if c == b'\'' then some ([], text) else if c == b'\\' then more else put c plain

escape_fits : (s : Bytes) → length (escape_bytes s) ≤ length s * 2
escape_fits [] = omega arith
escape_fits (c ∷ s) = ground (arith, escape_fits s)

escape_no_zero : (s : Bytes) → All (λ c. c ≢ 0) (escape_bytes s)
escape_no_zero [] = tt
escape_no_zero (c ∷ s) = ground (arith, escape_no_zero s)

escape_reads : (s rest : Bytes) → read_from false (escape_bytes s ++ b'\'' ∷ rest) ≡ some (s, rest)
escape_reads [] rest = refl
escape_reads (c ∷ s) rest = ground (arith, escape_reads s rest)

abbrev pub client : Client ℕ
client = record {
  mysql_init = λ w. (some 9, w);
  mysql_real_connect = λ params c w. (true, w);
  mysql_ping = λ c w. (true, w);
  mysql_close = λ c w. w;
}

abbrev pub answering : Row → Server ℕ
answering row = record {
  client = client;
  escaped = λ c s w. escape_bytes s;
  mysql_query = λ c text w. (true, suc w);
  mysql_insert_id = λ c w. 7;
  mysql_affected_rows = λ c w. 1;
  mysql_store_result = λ c w. some (row ∷ []);
}

-- Every statement is carried out and counted.
abbrev pub counting : Row → Store ℕ
counting row fixed values d =
    (record { done = true; id = 7; affected = 1; rows = some (row ∷ []) }, suc d)

pub answering-EscapeLaws : (row : Row) → EscapeLaws (answering row)
answering-EscapeLaws row = record {
  fits = λ c s w. escape_fits s;
  no_zero = λ c s w. escape_no_zero s;
  read_literal = read_from false;
  reads = λ c s rest w. escape_reads s rest;
}

abbrev pub answering-ServerLaws : (row : Row) → ServerLaws (answering row) (counting row)
answering-ServerLaws row = record {
  escaping = answering-EscapeLaws row;
  all_alive = λ c w. refl;
  holds = λ d w. d ≡ w;
  ping_holds = λ d c w h. h;
  query_holds = λ d c w text fixed vs reads h. (refl, refl, refl, refl, ap (λ n. suc n) h);
}

abbrev pub two_idle : Db ℕ
two_idle = record {
  pool = record {
    idle = 3 ∷ 5 ∷ [];
    params = record {
      host = codes "db";
      port = pos 3306;
      user = codes "oj";
      password = [];
      dbname = codes "oj";
    };
    pool_size = pos 2;
    initialized = true;
    waiting = 0;
  };
  world = 0;
}

abbrev pub one_idle : Db ℕ
one_idle = record two_idle { pool = record (two_idle.pool) { idle = 3 ∷ [] } }
