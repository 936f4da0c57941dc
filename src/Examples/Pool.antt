-- ===== src/Examples/Pool.antt =====
-- src/db/connection_pool.cc with a client library that numbers the handles it gives out.
use cpp_oj_vbcoding_teach.Prelude.{
  ℕ, zero, suc, ◌≡◌, ◌<◌, ◌+◌, ◌≤◌, ◌↔◌, inr, refl, Bool, true, false, ◌==◌, if◌then◌else◌, [], ◌∷◌,
  ◌++◌, Option, some, none, length, codes, arith,
}
use cpp_oj_vbcoding_teach.Prelude.Int.{pos}
use cpp_oj_vbcoding_teach.Pool.Mysql.{Client, HandleLaws, Conn, ConnectParams}
use cpp_oj_vbcoding_teach.Pool.{
  Pool, sleeps, returns, init, restart, fill, push, push_made, pool_empty, create_connection,
  acquire, pop_front, revive, release,
}
use cpp_oj_vbcoding_teach.Pool.Acquire.{Outcome, acquire_lem}
use cpp_oj_vbcoding_teach.Pool.Step.{
  System, start, after_init, after_shutdown, acquires, releases, Uses, unused, used, fresh, opens,
  uses,
}
use cpp_oj_vbcoding_teach.Pool.Ownership.{Owned}
use cpp_oj_vbcoding_teach.Pool.Ownership.History.{Reach-Owned}
use cpp_oj_vbcoding_teach.Pool.Count.{pool_bound}
use cpp_oj_vbcoding_teach.Pool.{Acquired, wait}
use cpp_oj_vbcoding_teach.Pool.Wakes.{
  Sleepers, sleeps_in, gives_back, at_rest, then_wakes, roused, Served, none_lost,
}
use cpp_oj_vbcoding_teach.Pool.Sleep.{shutdown_wakes, loses_last, sleeps_iff_all_held}

-- The next handle, and which handles are open.
abbrev Handles : Type 0
Handles = ℕ × (Conn → Bool)

abbrev no_handles : Handles
no_handles = (zero, λ c. false)

-- A server that is up answers every connect and every ping.
abbrev server : Bool → Client Handles
server up = record {
  mysql_init = λ w. (some w.0, (suc w.0, λ c. if c == w.0 then true else w.1 c));
  mysql_real_connect = λ params c w. (up, w);
  mysql_ping = λ c w. (up, w);
  mysql_close = λ c w. (w.0, λ d. if d == c then false else w.1 d);
}

server-HandleLaws : (up : Bool) → HandleLaws (server up)
server-HandleLaws up = record {
  InUse = λ w c. (c < w.0) × (w.1 c ≡ true);
  init_fresh = λ w c e u. ground arith;
  init_used = λ w c e. ground arith;
  init_keeps = λ w d u. ground arith;
  connect_keeps = λ params c d w u. u;
  ping_keeps = λ c d w u. u;
  close_keeps = λ c d w other u. ground arith;
  close_only = λ c d w u. ground arith;
}

abbrev oj : ConnectParams
oj = record {
  host = codes "db";
  port = pos 3306;
  user = codes "oj";
  password = [];
  dbname = codes "oj";
}

abbrev new_system : System Handles
new_system = start no_handles

-- A pool of two.
abbrev opened : System Handles
opened = after_init (server true) oj (pos 2) new_system

-- A thread has taken the first connection, and has given it back.
abbrev one_idle : Pool
one_idle = record { idle = 1 ∷ []; params = oj; pool_size = pos 2; initialized = true; waiting = 0 }

abbrev first_held : System Handles
first_held = record { pool = one_idle; held = 0 ∷ []; world = opened.world }

abbrev given_back : System Handles
given_back = record { pool = release (some 0) one_idle; held = []; world = opened.world }

opened_idle : opened.pool.idle ≡ 0 ∷ 1 ∷ []
unfolding init restart fill push push_made create_connection pool_empty
opened_idle = refl

takes_first :
    acquire (server true) opened.pool opened.world ≡ returns (some 0) one_idle opened.world
unfolding init restart fill push push_made create_connection pool_empty acquire pop_front revive
takes_first = refl

takes_and_returns : Uses (server true) opened given_back
takes_and_returns =
    used (used unused (acquires (some 0) one_idle opened.world takes_first)) (releases 0 [] [] refl)

Reach-Owned_example :
    Owned
      (server true)
      (server-HandleLaws true)
      given_back.world
      (given_back.pool.idle ++ given_back.held)
Reach-Owned_example = Reach-Owned (server true) (server-HandleLaws true) no_handles given_back (
    uses (uses (opens oj (pos 2) fresh) (acquires (some 0) one_idle opened.world takes_first))
      (releases 0 [] [] refl))

acquire_lem_example :
    ((acquire (server true) opened.pool opened.world ≡ sleeps)
      ↔ ((opened.pool.initialized ≡ true) × (opened.pool.idle ≡ [])))
    × ((made : Option Conn) (q : Pool) (v : Handles)
        → (acquire (server true) opened.pool opened.world ≡ returns made q v)
          ↔ Outcome (server true) opened.pool opened.world made q v)
acquire_lem_example = acquire_lem (server true) opened.pool opened.world

pool_bound_example : length given_back.pool.idle + length given_back.held ≤ 2
pool_bound_example =
    pool_bound (server true) oj (pos 2) new_system given_back (inr refl) takes_and_returns

-- Both connections are held, and nobody waits.
abbrev all_held : Sleepers Handles
all_held = record { pool = record one_idle { idle = [] }; world = no_handles; woken = 0 }

-- A thread has gone to sleep, and a connection was given back behind it.
abbrev one_back : Sleepers Handles
one_back = record { pool = release (some 0) (wait (all_held.pool)); world = no_handles; woken = 1 }

all_held_sleeps :
    ◌≡◌ {A = Acquired Handles} (acquire (server true) (all_held.pool) no_handles) sleeps
unfolding acquire pop_front
all_held_sleeps = refl

none_lost_example : Served (server true) one_back
unfolding roused release
none_lost_example =
    none_lost (server true) all_held one_back refl refl
      (then_wakes (then_wakes at_rest (sleeps_in all_held_sleeps)) (gives_back 0))

-- Both connections are held, and two threads wait for one.
abbrev crowded : System Handles
crowded = record {
  pool = record one_idle { idle = []; waiting = 2 };
  held = 0 ∷ 1 ∷ [];
  world = no_handles;
}

shutdown_wakes_example :
    ((after_shutdown (server true) crowded).pool.waiting ≡ 0)
    × (acquire
          (server true)
          (after_shutdown (server true) crowded).pool
          (after_shutdown (server true) crowded).world
        ≡ returns none
            (after_shutdown (server true) crowded).pool
            (after_shutdown (server true) crowded).world)
shutdown_wakes_example =
    shutdown_wakes (server true) crowded (after_shutdown (server true) crowded) unused

sleeps_iff_all_held_example :
    (acquire (server true) given_back.pool given_back.world ≡ sleeps)
    ↔ (length given_back.held ≡ length opened.pool.idle + length opened.held)
unfolding init restart fill push push_made create_connection pool_empty
sleeps_iff_all_held_example =
    sleeps_iff_all_held (server true) opened given_back (λ c w. refl) refl takes_and_returns

-- The server went down while the connection was idle.
abbrev lonely : System Handles
lonely = record { pool = one_idle; held = []; world = no_handles }

loses_last_example :
    (q : Pool) × (v : Handles) × (acquire (server false) lonely.pool lonely.world
      ≡ returns none q v)
    × ((t : System Handles)
        → Uses (server false) (record { pool = q; held = []; world = v }) t
        → acquire (server false) t.pool t.world ≡ sleeps)
unfolding create_connection
loses_last_example = loses_last (server false) lonely 1 refl refl refl refl refl
