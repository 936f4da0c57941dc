-- ===== src/Tools/Stuck.antt =====
-- The last step of tools/db_reset.cc needs two connections, and its pool has one.
use cpp_oj_vbcoding_teach.Prelude.{
  ℕ, ◌≡◌, ◌⊎◌, refl, sym, subst, ap, ◌∙◌, Bool, true, false, inl, inr, List, [], ◌∷◌, Bytes, codes,
  Option, none, some, Option-cases, length, arith,
}
use cpp_oj_vbcoding_teach.Prelude.Int.{ℤ, negsuc}
use cpp_oj_vbcoding_teach.Model.{Problem}
use cpp_oj_vbcoding_teach.Bcrypt.Core.{BfEncrypt}
use cpp_oj_vbcoding_teach.Pool.Mysql.{Conn, ConnectParams}
use cpp_oj_vbcoding_teach.Pool.{create_connection, acquire, pop_front, release}
use cpp_oj_vbcoding_teach.Db.Mysql.{Server}
use cpp_oj_vbcoding_teach.Db.Exec.{
  Db, Result, ok, threw, asleep, Exec, pure, throw, gets, call, then_on, ◌>>=◌, ◌>>◌, give_back,
  behind_acquire, with_connection,
}
use cpp_oj_vbcoding_teach.Db.Sql.{query}
use cpp_oj_vbcoding_teach.Db.Uses.{Uses, AllAlive, Idle}
use cpp_oj_vbcoding_teach.Mapper.Users as Users
use cpp_oj_vbcoding_teach.Mapper.Problems as Problems
use cpp_oj_vbcoding_teach.Mapper.Connections.Nested.{held_last, last_connection, insert_sleeps}
use cpp_oj_vbcoding_teach.Tools.{Exit, exits, never, run, finish}
use cpp_oj_vbcoding_teach.Tools.Ends.{one_pool, no_pool, init_one, init_no, four_steps-Uses}
use cpp_oj_vbcoding_teach.Tools.DbReset as DbReset

-- The exit code is 1, or the run does not end.
abbrev pub GivesUp : Exit → Type 0
GivesUp e = (e ≡ exits 1) ⊎ (e ≡ never)

-- A result that is not a return.
abbrev pub Fails : {A : Type 0} → Result A → Type 0
Fails (ok a) = ⊥
Fails threw = Unit
Fails asleep = Unit

module _ {W A B : Type 0} where
  then_on-Fails :
      (r : Result A) (f : A → Exec W B) (s : Db W)
      → ((a : A) → r ≡ ok a → Fails (f a s).0)
      → Fails (then_on r f s).0
  unfolding then_on
  then_on-Fails (ok a) f s h = h a refl
  then_on-Fails threw f s h = tt
  then_on-Fails asleep f s h = tt

  bind-Fails :
      (m : Exec W A) (f : A → Exec W B) (s : Db W)
      → ((a : A) → (m s).0 ≡ ok a → Fails (f a (m s).1).0)
      → Fails ((m >>= f) s).0
  unfolding ◌>>=◌
  bind-Fails m f s h = then_on-Fails (m s).0 f (m s).1 h

module _ {W : Type 0} (server : Server W) (all_alive : AllAlive server.client) where
  -- Where the server does not take the row, ProblemMapper::insert gives -1.
  insert_on_refused :
      (problem : Problem) (c : Conn) (s : Db W)
      → (query server c (Problems.insert_sql problem) s).0 ≡ ok false
      → (Problems.insert_on server problem (some c) s).0 ≡ ok (negsuc 0)
  unfolding Problems.insert_on ◌>>=◌ then_on gets pure
  insert_on_refused problem c s e = rw e refl

  insert_refused :
      (problem : Problem) (c : Conn) (s : Db W)
      → s.pool.initialized ≡ true
      → s.pool.idle ≡ c ∷ []
      → (query server c (Problems.insert_sql problem) (held_last server.client c s)).0 ≡ ok false
      → (Problems.insert server problem s).0 ≡ ok (negsuc 0)
  unfolding Problems.insert
  insert_refused problem c s on e q =
      last_connection server.client (Problems.insert_on server problem) s c all_alive on e
      ∙ insert_on_refused problem c (held_last server.client c s) q

  inserted-Fails :
      (c : Conn) (s : Db W)
      → s.pool.initialized ≡ true
      → s.pool.idle ≡ c ∷ []
      → (b : Bool)
      → (query server c (Problems.insert_sql DbReset.a_plus_b) (held_last server.client c s)).0
        ≡ ok b
      → (id : ℤ) → (Problems.insert server DbReset.a_plus_b s).0 ≡ ok id
      → (t : Db W) → Fails (DbReset.inserted server id t).0
  unfolding DbReset.inserted throw
  inserted-Fails c s on e true q id h t =
      let asleep_here : ◌≡◌ {A = Result ℤ} (Problems.insert server DbReset.a_plus_b s).0 asleep =
        insert_sleeps server DbReset.a_plus_b _ _ s c all_alive on e refl q in
      absurd cc
  inserted-Fails c s on e false q id h t =
      let refused : ◌≡◌ {A = Result ℤ} (ok id) (ok (negsuc 0)) =
        sym h ∙ insert_refused DbReset.a_plus_b c s on e q in
      let same : ◌≡◌ {A = ℤ} id (negsuc 0) = cc in rw same tt

  standard-Fails :
      (s : Db W) (conns : List Conn)
      → Idle 1 s
      → s.pool.idle ≡ conns
      → Fails (DbReset.insert_standard_problems server s).0
  unfolding DbReset.insert_standard_problems query call
  standard-Fails s [] (on, l) e = absurd (omega (arith, sym l ∙ ap length e))
  standard-Fails s (c ∷ []) (on, l) e =
      bind-Fails (Problems.insert server DbReset.a_plus_b) (DbReset.inserted server) s
        (λ id h. inserted-Fails c s on e _ refl id h _)
  standard-Fails s (c ∷ d ∷ conns) (on, l) e = absurd (omega (arith, sym l ∙ ap length e))

  module _ (bf_encrypt : BfEncrypt) (salt : Bytes) where
    reset-Fails : (s : Db W) → Idle 1 s → Fails (DbReset.reset server bf_encrypt salt s).0
    unfolding DbReset.reset
    reset-Fails s i =
        let steps : Exec W Unit =
          DbReset.clean_sessions server
          >> DbReset.clean_non_admin_users server (codes "admin")
          >> DbReset.clean_problems server
          >> DbReset.ensure_admin_user server bf_encrypt salt in
        let uses : Uses 1 steps = four_steps-Uses server all_alive bf_encrypt salt in
        let i' = (uses.at 1 s (omega arith) i).1 in
        let inserts =
          bind-Fails steps (λ _. DbReset.insert_standard_problems server) s
            (λ _ _. standard-Fails (steps s).1 (steps s).1.pool.idle i' refl) in
        bind-Fails (steps >> DbReset.insert_standard_problems server) (λ _. pure 0) s
          (λ a h. absurd (subst Fails h inserts))

    reset_alone :
        (params : ConnectParams) (w : W)
        → (DbReset.reset server bf_encrypt salt (record { pool = no_pool params; world = w })).0
          ≡ threw
    unfolding DbReset.reset DbReset.clean_sessions DbReset.clean_non_admin_users
        DbReset.clean_problems DbReset.clean_on DbReset.ensure_admin_user DbReset.delete_admin
        DbReset.insert_admin DbReset.inserted Users.find_by_username Users.find_on Users.insert
        Users.insert_on with_connection behind_acquire give_back acquire pop_front release pure
        throw ◌>>=◌ then_on
    reset_alone params w = refl

    finish-Fails : (r : Result ℕ) (s : Db W) → Fails r → GivesUp (finish server.client (r, s)).0
    unfolding finish
    finish-Fails (ok code) s h = absurd h
    finish-Fails threw s h = inl refl
    finish-Fails asleep s h = inr refl

module _ {W : Type 0} (server : Server W) where
  -- Where every connection answers its ping, db_reset ends with exit code 1, or it sleeps for good, whatever
  -- the configuration is and the server answers to its statements: it never ends with exit code 0.
  pub db_reset_fails :
      (bf_encrypt : BfEncrypt) (salt : Bytes) (config : Option ConnectParams) (w : W)
      → AllAlive server.client
      → GivesUp (DbReset.main server bf_encrypt salt config w).0
  unfolding DbReset.main run
  db_reset_fails bf_encrypt salt none w all_alive = inl refl
  db_reset_fails bf_encrypt salt (some params) w all_alive =
      elim (Option-cases (create_connection server.client params w).0) [
        | inl e ↦
            let s : Db W = record {
              pool = no_pool params;
              world = (create_connection server.client params w).1;
            } in
            let alone = reset_alone server all_alive bf_encrypt salt params s.world in
            rw (init_no server.client params w e)
              (finish-Fails server all_alive bf_encrypt salt _ _ (subst Fails (sym alone) tt))
        | inr (c, e) ↦ rw (init_one server.client params w c e) (
            finish-Fails server all_alive bf_encrypt salt _ _ (
              reset-Fails server all_alive bf_encrypt salt
                (record {
                  pool = one_pool params c;
                  world = (create_connection server.client params w).1;
                })
                (refl, refl)))
      ]
