-- ===== src/Db/Exec.antt =====
-- A function that uses the database, as one thread runs it: it returns, it throws, or it sleeps, in
-- `ConnectionPool::acquire`, from where only another thread can wake it, or in another call that blocks.
use cpp_oj_vbcoding_teach.Prelude.{Option, none, some}
use cpp_oj_vbcoding_teach.Pool.Mysql.{Client, Conn}
use cpp_oj_vbcoding_teach.Pool.{Pool, Acquired, sleeps, returns, wait, acquire, release}

-- The connection pool of the process, and the client library with the server behind it.
pub record Db (W : Type 0) : Type 0 where
  pub pool : Pool
  pub world : W

pub data Result (A : Type 0) : Type 0 where
  ok : A → Result A
  threw : Result A
  asleep : Result A

-- What was written before an exception stays written.
abbrev pub Exec : Type 0 → Type 0 → Type 0
Exec W A = Db W → Result A × Db W

module _ {W : Type 0} where
  unfoldable pub pure : {A : Type 0} → A → Exec W A
  pure a s = (ok a, s)

  unfoldable pub throw : {A : Type 0} → Exec W A
  throw s = (threw, s)

  -- A value that may be an exception.
  unfoldable pub lift : {A : Type 0} → Option A → Exec W A
  lift none s = (threw, s)
  lift (some a) s = (ok a, s)

  unfoldable pub gets : {A : Type 0} → (W → A) → Exec W A
  gets f s = (ok (f s.world), s)

  unfoldable pub call : {A : Type 0} → (W → A × W) → Exec W A
  call f s = let (a, w) = f s.world in (ok a, record s { world = w })

  -- The rest of a function behind a result.
  unfoldable pub then_on : {A B : Type 0} → Result A → (A → Exec W B) → Exec W B
  then_on (ok a) f s = f a s
  then_on threw f s = (threw, s)
  then_on asleep f s = (asleep, s)

  infixl 5 ◌>>=◌ ◌>>◌
  unfoldable pub ◌>>=◌ : {A B : Type 0} → Exec W A → (A → Exec W B) → Exec W B
  ◌>>=◌ m f s = let (r, s') = m s in then_on r f s'

  abbrev pub ◌>>◌ : {A B : Type 0} → Exec W A → Exec W B → Exec W B
  m >> k = m >>= λ _. k

  -- The destructor of ScopedConnection, when the function is left by a return or an exception; a thread
  -- that sleeps goes on holding its connection.
  unfoldable pub give_back : {A : Type 0} → Option Conn → Result A × Db W → Result A × Db W
  give_back conn (ok a, s) = (ok a, record s { pool = release conn s.pool })
  give_back conn (threw, s) = (threw, record s { pool = release conn s.pool })
  give_back conn (asleep, s) = (asleep, s)

  unfoldable pub behind_acquire : {A : Type 0} → Acquired W → (Option Conn → Exec W A) → Exec W A
  behind_acquire sleeps body s = (asleep, record s { pool = wait s.pool })
  behind_acquire (returns conn p w) body s =
      give_back conn (body conn (record { pool = p; world = w }))

  -- `ScopedConnection db;` with the rest of its block.
  unfoldable pub with_connection : {A : Type 0} → Client W → (Option Conn → Exec W A) → Exec W A
  with_connection client body s = behind_acquire (acquire client s.pool s.world) body s
