-- ===== src/Tools/Ends.antt =====
-- How the two programs of tools end. Every function of them but the last step of db_reset holds one
-- connection at a time.
use cpp_oj_vbcoding_teach.Prelude.{
  ℕ, suc, ◌≡◌, refl, Bool, true, false, List, [], ◌∷◌, Bytes, codes, Option, none, some, arith,
  Option-cases, inl, inr,
}
use cpp_oj_vbcoding_teach.Prelude.Int.{ℤ, pos, is_zero}
use cpp_oj_vbcoding_teach.Model.{User}
use cpp_oj_vbcoding_teach.Bcrypt.Core.{BfEncrypt}
use cpp_oj_vbcoding_teach.Pool.Mysql.{Client, Conn, ConnectParams}
use cpp_oj_vbcoding_teach.Pool.{
  Pool, init, new_pool, restart, fill, create_connection, push_made, push, pool_empty, acquire,
  pop_front, release,
}
use cpp_oj_vbcoding_teach.Db.Mysql.{Server}
use cpp_oj_vbcoding_teach.Db.Exec.{
  Db, Result, ok, threw, asleep, pure, then_on, ◌>>=◌, ◌>>◌, give_back, behind_acquire,
  with_connection,
}
use cpp_oj_vbcoding_teach.Db.Sql.{Piece}
use cpp_oj_vbcoding_teach.Db.Uses.{
  Uses, AllAlive, Awake, Uses-with_connection, Uses-bind, Uses-if, Uses-pure, uses_rules,
}
use cpp_oj_vbcoding_teach.Mapper.Users as Users
use cpp_oj_vbcoding_teach.Mapper.Connections.Blocks.{statement_rules}
use cpp_oj_vbcoding_teach.Mapper.Connections.{user_insert-Uses, user_find_by_username-Uses}
use cpp_oj_vbcoding_teach.Tools.{Exit, exits, never, admin, run, finish}
use cpp_oj_vbcoding_teach.Tools.AddAdmin as AddAdmin
use cpp_oj_vbcoding_teach.Tools.DbReset as DbReset

-- The pool that `init` opens for one connection that could be made.
abbrev pub one_pool : ConnectParams → Conn → Pool
one_pool params c = record {
  idle = c ∷ [];
  params = params;
  pool_size = pos 1;
  initialized = true;
  waiting = 0;
}

abbrev pub no_pool : ConnectParams → Pool
no_pool params = record {
  idle = [];
  params = params;
  pool_size = pos 1;
  initialized = false;
  waiting = 0;
}

module _ {W : Type 0} (client : Client W) (params : ConnectParams) (w : W) where
  pub init_one :
      (c : Conn)
      → (create_connection client params w).0 ≡ some c
      → init client params (pos 1) new_pool w
        ≡ (one_pool params c, (create_connection client params w).1)
  unfolding init restart fill push_made push pool_empty
  init_one c e = simp (init, fill, push_made, push, e)

  pub init_no :
      (create_connection client params w).0 ≡ none
      → init client params (pos 1) new_pool w
        ≡ (no_pool params, (create_connection client params w).1)
  unfolding init restart fill push_made push pool_empty
  init_no e = simp (init, fill, push_made, push, e)

module _ {W : Type 0} (server : Server W) {k : ℕ} where
  inserted-Uses : (id : ℤ) → Uses k (DbReset.inserted server id)
  unfolding DbReset.inserted
  inserted-Uses id = search uses_rules

module _ {W : Type 0} (server : Server W) (all_alive : AllAlive server.client) {k : ℕ} where
  delete_user_on-Uses :
      (username : Bytes) (conn : Option Conn)
      → Uses k (AddAdmin.delete_user_on server username conn)
  unfolding AddAdmin.delete_user_on
  delete_user_on-Uses username none = search uses_rules
  delete_user_on-Uses username (some conn) = search statement_rules

  delete_existing-Uses : (existing : User) → Uses (suc k) (AddAdmin.delete_existing server existing)
  unfolding AddAdmin.delete_existing AddAdmin.delete_user_by_username
  delete_existing-Uses existing =
      Uses-if (is_zero existing.id) _ _ (Uses-pure tt)
        (Uses-with_connection server.client all_alive _ (delete_user_on-Uses (codes "admin")))

  add_admin-Uses :
      (bf_encrypt : BfEncrypt) (salt : Bytes)
      → Uses (suc k) (AddAdmin.add_admin server bf_encrypt salt)
  unfolding AddAdmin.add_admin
  add_admin-Uses bf_encrypt salt =
      search (uses_rules, user_find_by_username-Uses, delete_existing-Uses, user_insert-Uses)

  clean_on-Uses :
      (pieces : List Piece) (conn : Option Conn) → Uses k (DbReset.clean_on server pieces conn)
  unfolding DbReset.clean_on
  clean_on-Uses pieces none = search uses_rules
  clean_on-Uses pieces (some conn) = search statement_rules

  delete_admin_on-Uses : (conn : Option Conn) → Uses k (DbReset.delete_admin_on server conn)
  unfolding DbReset.delete_admin_on
  delete_admin_on-Uses none = search uses_rules
  delete_admin_on-Uses (some conn) = search statement_rules

  delete_admin-Uses : (existing : User) → Uses (suc k) (DbReset.delete_admin server existing)
  unfolding DbReset.delete_admin
  delete_admin-Uses existing =
      Uses-if (is_zero existing.id) _ _ (Uses-pure true)
        (Uses-with_connection server.client all_alive _ delete_admin_on-Uses)

  insert_admin-Uses :
      (bf_encrypt : BfEncrypt) (salt : Bytes) (go_on : Bool)
      → Uses (suc k) (DbReset.insert_admin server bf_encrypt salt go_on)
  unfolding DbReset.insert_admin
  insert_admin-Uses bf_encrypt salt go_on =
      Uses-if go_on _ _
        (Uses-bind _ (DbReset.inserted server)
          (user_insert-Uses server all_alive (admin bf_encrypt salt)) (inserted-Uses server))
        (Uses-pure tt)

  clean-Uses :
      (pieces : List Piece)
      → Uses (suc k) (with_connection server.client (DbReset.clean_on server pieces))
  clean-Uses pieces = Uses-with_connection server.client all_alive _ (clean_on-Uses pieces)

  -- The first four steps of db_reset.
  pub four_steps-Uses :
      (bf_encrypt : BfEncrypt) (salt : Bytes)
      → Uses (suc k) (
          DbReset.clean_sessions server
          >> DbReset.clean_non_admin_users server (codes "admin")
          >> DbReset.clean_problems server
          >> DbReset.ensure_admin_user server bf_encrypt salt)
  unfolding DbReset.clean_sessions DbReset.clean_non_admin_users DbReset.clean_problems
      DbReset.ensure_admin_user
  four_steps-Uses bf_encrypt salt =
      search
        (uses_rules, clean-Uses, user_find_by_username-Uses, delete_admin-Uses, insert_admin-Uses)

-- A run that ends.
abbrev pub Ends : Exit → Type 0
Ends (exits code) = Unit
Ends never = ⊥

module _ {W : Type 0} (server : Server W) where
  finish-Ends : (r : Result ℕ) (s : Db W) → Awake r → Ends (finish server.client (r, s)).0
  unfolding finish
  finish-Ends (ok code) s h = tt
  finish-Ends threw s h = tt
  finish-Ends asleep s h = absurd h

  -- Without a connection the program fails at once.
  add_admin_alone :
      (bf_encrypt : BfEncrypt) (salt : Bytes) (params : ConnectParams) (w : W)
      → AddAdmin.add_admin server bf_encrypt salt (record { pool = no_pool params; world = w })
        ≡ (ok 1, record { pool = no_pool params; world = w })
  unfolding AddAdmin.add_admin AddAdmin.delete_existing Users.find_by_username Users.find_on
      Users.insert Users.insert_on with_connection behind_acquire give_back acquire pop_front
      release pure ◌>>=◌ then_on
  add_admin_alone bf_encrypt salt params w = refl

  -- add_admin ends, with an exit code, whatever the server answers to its statements, where every
  -- connection that could be made answers its ping.
  pub add_admin-Ends :
      (bf_encrypt : BfEncrypt) (salt : Bytes) (config : Option ConnectParams) (w : W)
      → AllAlive server.client
      → Ends (AddAdmin.main server bf_encrypt salt config w).0
  unfolding AddAdmin.main run
  add_admin-Ends bf_encrypt salt none w all_alive = tt
  add_admin-Ends bf_encrypt salt (some params) w all_alive =
      elim (Option-cases (create_connection server.client params w).0) [
        | inl e ↦ rw (init_no server.client params w e, add_admin_alone) (finish-Ends (ok 1) _ tt)
        | inr (c, e) ↦ rw (init_one server.client params w c e) (
            let uses : Uses 1 (AddAdmin.add_admin server bf_encrypt salt) =
              add_admin-Uses server all_alive bf_encrypt salt in
            finish-Ends _ _
              (uses.at 1
                (record {
                  pool = one_pool params c;
                  world = (create_connection server.client params w).1;
                })
                (omega arith) (refl, refl)).0)
      ]
