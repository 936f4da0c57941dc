-- ===== src/Pool/Mysql.antt =====
-- The part of the MySQL client library that src/db/connection_pool.cc calls, and what its documentation
-- says of handles: a handle that `mysql_init` returns is not in use, and stays in use until it is closed,
-- which ends the use of this handle only.
use cpp_oj_vbcoding_teach.Prelude.{ℕ, Bool, Bytes, Option, some, ◌≡◌, ◌≢◌}
use cpp_oj_vbcoding_teach.Prelude.Int.{ℤ}

-- MYSQL *, other than null.
abbrev pub Conn : Type 0
Conn = ℕ

pub record ConnectParams : Type 0 where
  pub host : Bytes
  pub port : ℤ
  pub user : Bytes
  pub password : Bytes
  pub dbname : Bytes

-- `mysql_ping` is true for a live connection, where the C function returns 0; the options that are set
-- between `mysql_init` and `mysql_real_connect` belong to the latter.
pub record Client (W : Type 0) : Type 0 where
  pub mysql_init : W → Option Conn × W
  pub mysql_real_connect : ConnectParams → Conn → W → Bool × W
  pub mysql_ping : Conn → W → Bool × W
  pub mysql_close : Conn → W → W

-- `InUse w c`: the handle c is open in the state w.
pub record HandleLaws {W : Type 0} (client : Client W) : Type 1 where
  pub InUse : W → Conn → Type 0
  pub init_fresh : (w : W) (c : Conn) → (client.mysql_init w).0 ≡ some c → InUse w c → ⊥
  pub init_used :
      (w : W) (c : Conn) → (client.mysql_init w).0 ≡ some c → InUse (client.mysql_init w).1 c
  pub init_keeps : (w : W) (d : Conn) → InUse w d → InUse (client.mysql_init w).1 d
  pub connect_keeps :
      (params : ConnectParams) (c d : Conn) (w : W)
      → InUse w d
      → InUse (client.mysql_real_connect params c w).1 d
  pub ping_keeps : (c d : Conn) (w : W) → InUse w d → InUse (client.mysql_ping c w).1 d
  pub close_keeps : (c d : Conn) (w : W) → c ≢ d → InUse w d → InUse (client.mysql_close c w) d
  pub close_only : (c d : Conn) (w : W) → InUse (client.mysql_close c w) d → (d ≢ c) × InUse w d
