-- ===== src/Pool.antt =====
-- The connection pool: src/db/connection_pool.cc and src/db/connection_pool.h. Every operation holds the
-- mutex from its first to its last access of the state, so the threads' calls are a sequence of the
-- functions below. The MySQL client is the parameter `Client` over a type W of its states.
pub mod Mysql
pub mod Acquire
pub mod Step
pub mod Ownership
pub mod Count
pub mod Sleep
pub mod Wakes
pub mod Closed
use cpp_oj_vbcoding_teach.Prelude.{
  ℕ, zero, suc, Bool, true, false, not, List, [], ◌∷◌, ◌++◌, Bytes, Option, none, some,
  if◌then◌else◌,
}
use cpp_oj_vbcoding_teach.Prelude.Int.{ℤ, pos, negsuc}
use cpp_oj_vbcoding_teach.Pool.Mysql.{Client, Conn, ConnectParams}

-- `waiting` is the state of the condition variable: how many threads wait on it.
pub record Pool : Type 0 where
  pub idle : List Conn
  pub params : ConnectParams
  pub pool_size : ℤ
  pub initialized : Bool
  pub waiting : ℕ

-- The singleton before `init`, with the defaults of the class.
abbrev pub new_pool : Pool
new_pool = record {
  idle = [];
  params = record { host = []; port = pos 3306; user = []; password = []; dbname = [] };
  pool_size = pos 4;
  initialized = false;
  waiting = 0;
}

abbrev one_less : ℕ → ℕ
one_less zero = zero
one_less (suc n) = n

-- `cv_.wait`, `cv_.notify_one` and `cv_.notify_all`.
abbrev pub wait : Pool → Pool
wait p = record p { waiting = suc p.waiting }

abbrev pub notify_one : Pool → Pool
notify_one p = record p { waiting = one_less p.waiting }

abbrev pub notify_all : Pool → Pool
notify_all p = record p { waiting = 0 }

-- `pool_.push(conn)`: the front of the queue is the head of the list.
unfoldable pub push : List Conn → Conn → List Conn
push conns c = conns ++ c ∷ []

-- `if (conn) pool_.push(conn)`.
unfoldable pub push_made : Option Conn → List Conn → List Conn
push_made none conns = conns
push_made (some c) conns = push conns c

-- The rounds of `for (int i = 0; i < n; ++i)`.
abbrev pub rounds : ℤ → ℕ
rounds (pos n) = n
rounds (negsuc n) = zero

-- What a call of `acquire` comes to: it sleeps on the condition variable, or returns.
pub data Acquired (W : Type 0) : Type 0 where
  sleeps : Acquired W
  returns : Option Conn → Pool → W → Acquired W

module _ {W : Type 0} (client : Client W) where
  open client use {mysql_init, mysql_real_connect, mysql_ping, mysql_close}

  unfoldable pub create_connection : ConnectParams → W → Option Conn × W
  create_connection params w =
      let (handle, w₁) = mysql_init w in
      elim handle [
        | none ↦ (none, w₁)
        | some c ↦
            let (connected, w₂) = mysql_real_connect params c w₁ in
            if connected then (some c, w₂) else (none, mysql_close c w₂)
      ]

  -- `while (!pool_.empty())`: the idle connections are closed from the front.
  unfoldable pub close_all : List Conn → W → W
  close_all [] w = w
  close_all (c ∷ conns) w = close_all conns (mysql_close c w)

  -- The loop of `init`, by the rounds left.
  unfoldable pub fill : ℕ → ConnectParams → List Conn → W → List Conn × W
  fill zero params conns w = (conns, w)
  fill (suc n) params conns w =
      let (made, w') = create_connection params w in fill n params (push_made made conns) w'

  unfoldable pub pool_empty : List Conn → Bool
  pool_empty [] = true
  pool_empty (c ∷ conns) = false

  -- What `init` starts from: a pool that runs is emptied first.
  unfoldable pub restart : Pool → W → List Conn × W
  restart p w = if p.initialized then ([], close_all p.idle w) else (p.idle, w)

  unfoldable pub init : ConnectParams → ℤ → Pool → W → Pool × W
  init params pool_size p w =
      let start = restart p w in
      let (conns, w') = fill (rounds pool_size) params start.0 start.1 in
      (
        record {
          idle = conns;
          params = params;
          pool_size = pool_size;
          initialized = not (pool_empty conns);
          waiting = p.waiting;
        },
        w',
      )

  unfoldable pub shutdown : Pool → W → Pool × W
  shutdown p w = (notify_all (record p { idle = []; initialized = false }), close_all p.idle w)

  -- The part of `acquire` behind the wait, with the connection that was taken.
  unfoldable pub revive : Conn → Pool → W → Acquired W
  revive c p w =
      let (alive, w₁) = mysql_ping c w in
      let (made, w₂) = create_connection p.params (mysql_close c w₁) in
      if alive then returns (some c) p w₁ else returns made p w₂

  unfoldable pub pop_front : List Conn → Pool → W → Acquired W
  pop_front [] p w = if not p.initialized then returns none p w else sleeps
  pop_front (c ∷ conns) p w =
      if not p.initialized then returns none p w else revive c (record p { idle = conns }) w

  unfoldable pub acquire : Pool → W → Acquired W
  acquire p w = pop_front p.idle p w

-- `release`; a null pointer is `none`.
unfoldable pub release : Option Conn → Pool → Pool
release none p = p
release (some c) p = notify_one (record p { idle = push p.idle c })
