-- ===== src/Tools.antt =====
-- The programs of tools: what the two mains share. Both open a pool of one connection.
pub mod AddAdmin
pub mod DbReset
pub mod Ends
pub mod Stuck
use cpp_oj_vbcoding_teach.Prelude.{ℕ, List, [], ◌∷◌, Bytes, codes, Option, none, some}
use cpp_oj_vbcoding_teach.Prelude.Int.{ℤ, pos}
use cpp_oj_vbcoding_teach.Model.{User}
use cpp_oj_vbcoding_teach.Bcrypt.Core.{BfEncrypt}
use cpp_oj_vbcoding_teach.Bcrypt.Hash.{bcrypt_hash}
use cpp_oj_vbcoding_teach.Auth.Login.{default_cost}
use cpp_oj_vbcoding_teach.Pool.Mysql.{Client, ConnectParams}
use cpp_oj_vbcoding_teach.Pool.{init, shutdown, new_pool}
use cpp_oj_vbcoding_teach.Db.Exec.{Db, Result, ok, threw, asleep, Exec}

-- How a run of a program ends: with an exit code, or not at all.
pub data Exit : Type 0 where
  exits : ℕ → Exit
  never : Exit

-- The user that both programs insert; `salt` is what RAND_bytes leaves.
abbrev pub admin : BfEncrypt → Bytes → User
admin bf_encrypt salt = record {
  id = pos 0;
  username = codes "admin";
  password = bcrypt_hash bf_encrypt salt (codes "admin123") default_cost;
  role = codes "admin";
  created_at = [];
}

module _ {W : Type 0} (client : Client W) where
  abbrev pub shut : Db W → W
  shut s = (shutdown client s.pool s.world).1

  -- Behind the `try` block, which gives the exit code: an exception makes it 1, and the pool is closed.
  unfoldable pub finish : Result ℕ × Db W → Exit × W
  finish (ok code, s) = (exits code, shut s)
  finish (threw, s) = (exits 1, shut s)
  finish (asleep, s) = (never, s.world)

  -- `main`, with the database section of the configuration, or `none` where it cannot be loaded.
  unfoldable pub run : Exec W ℕ → Option ConnectParams → W → Exit × W
  run body none w = (exits 1, w)
  run body (some params) w =
      let (pool, w') = init client params (pos 1) new_pool w in
      finish (body (record { pool = pool; world = w' }))
