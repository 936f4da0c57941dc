-- ===== src/Pool/Step.antt =====
-- The threads' calls of the connection pool as steps: the pool, the connections that threads hold in a
-- `ScopedConnection`, and the state of the client library.
use cpp_oj_vbcoding_teach.Prelude.{ℕ, suc, ◌≡◌, List, [], ◌∷◌, ◌++◌, Option, none, some}
use cpp_oj_vbcoding_teach.Prelude.Int.{ℤ}
use cpp_oj_vbcoding_teach.Pool.Mysql.{Client, Conn, ConnectParams}
use cpp_oj_vbcoding_teach.Pool.{
  Pool, sleeps, returns, new_pool, init, shutdown, wait, acquire, release,
}

pub record System (W : Type 0) : Type 0 where
  pub pool : Pool
  pub held : List Conn
  pub world : W

-- What a thread holds behind the constructor of `ScopedConnection`.
abbrev pub hold : Option Conn → List Conn → List Conn
hold none held = held
hold (some c) held = c ∷ held

abbrev pub start : {W : Type 0} → W → System W
start w = record { pool = new_pool; held = []; world = w }

module _ {W : Type 0} (client : Client W) where
  abbrev pub after_init : ConnectParams → ℤ → System W → System W
  after_init params n s =
      let (p, w) = init client params n s.pool s.world in
      record { pool = p; held = s.held; world = w }

  abbrev pub after_shutdown : System W → System W
  after_shutdown s =
      let (p, w) = shutdown client s.pool s.world in record { pool = p; held = s.held; world = w }

  -- A step of the threads that serve requests. A thread that is woken, by a notification or without one,
  -- acquires or waits again.
  pub data Use (s : System W) : System W → Type 0 where
    acquires :
        (made : Option Conn) (p : Pool) (w : W)
        → acquire client s.pool s.world ≡ returns made p w
        → Use s (record { pool = p; held = hold made s.held; world = w })
    waits :
        acquire client s.pool s.world ≡ sleeps
        → Use s (record { pool = wait s.pool; held = s.held; world = s.world })
    stirs :
        (n : ℕ)
        → s.pool.waiting ≡ suc n
        → Use s (record { pool = record s.pool { waiting = n }; held = s.held; world = s.world })
    releases :
        (c : Conn) (front back : List Conn)
        → s.held ≡ front ++ c ∷ back
        → Use s (record { pool = release (some c) s.pool; held = front ++ back; world = s.world })

  pub data Uses (s : System W) : System W → Type 0 where
    unused : Uses s s
    used : {t u : System W} → Uses s t → Use t u → Uses s u

  -- The states of the program, with the pool started and shut down at any time.
  pub data Reach (w : W) : System W → Type 0 where
    fresh : Reach w (start w)
    opens :
        {s : System W} (params : ConnectParams) (n : ℤ)
        → Reach w s
        → Reach w (after_init params n s)
    uses : {s t : System W} → Reach w s → Use s t → Reach w t
    closes : {s : System W} → Reach w s → Reach w (after_shutdown s)
