-- ===== src/Examples/Tools.antt =====
-- The programs of tools over the server that answers each statement with the same row.
use cpp_oj_vbcoding_teach.Prelude.{refl, [], codes, some}
use cpp_oj_vbcoding_teach.Prelude.Int.{pos}
use cpp_oj_vbcoding_teach.Pool.Mysql.{ConnectParams}
use cpp_oj_vbcoding_teach.Tools.DbReset as DbReset
use cpp_oj_vbcoding_teach.Tools.Stuck.{GivesUp, db_reset_fails}
use cpp_oj_vbcoding_teach.Examples.Bcrypt.{swap_words, salt}
use cpp_oj_vbcoding_teach.Examples.Server.{answering}

abbrev oj : ConnectParams
oj = record {
  host = codes "db";
  port = pos 3306;
  user = codes "oj";
  password = [];
  dbname = codes "oj";
}

db_reset_fails_example : GivesUp (DbReset.main (answering []) swap_words salt (some oj) 0).0
db_reset_fails_example = db_reset_fails (answering []) swap_words salt (some oj) 0 (λ c w. refl)
