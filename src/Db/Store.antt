-- ===== src/Db/Store.antt =====
-- The database as its clients mean it: a store that executes a statement by its fixed text and the values
-- of its literals, with no connection, no escaping and no pool; and what a server has to do to be one.
use cpp_oj_vbcoding_teach.Prelude.{ℕ, ◌≡◌, Bool, List, Bytes, Option, none, some}
use cpp_oj_vbcoding_teach.Pool.Mysql.{Conn}
use cpp_oj_vbcoding_teach.Db.Mysql.{Server, Row}
use cpp_oj_vbcoding_teach.Db.Exec.{Db, Result, ok, threw, Exec}
use cpp_oj_vbcoding_teach.Db.Sql.{Piece}
use cpp_oj_vbcoding_teach.Db.Sql.Reader.{EscapeLaws, Reads}
use cpp_oj_vbcoding_teach.Db.Sql.Safe.{fixed_text, values}
use cpp_oj_vbcoding_teach.Db.Uses.{AllAlive, Idle}

-- What a client can ask for after a statement.
pub record Answer : Type 0 where
  pub done : Bool
  pub id : ℕ
  pub affected : ℕ
  pub rows : Option (List Row)

-- `execute fixed values`.
abbrev pub Store : Type 0 → Type 0
Store D = Bytes → List Bytes → D → Answer × D

-- A function on the store; an exception is `none`, and what was written before it stays written.
abbrev pub Spec : Type 0 → Type 0 → Type 0
Spec D A = D → Option A × D

module _ {D : Type 0} where
  unfoldable pub give : {A : Type 0} → A → Spec D A
  give a d = (some a, d)

  unfoldable pub continue : {A B : Type 0} → Option A → (A → Spec D B) → Spec D B
  continue none f d = (none, d)
  continue (some a) f d = f a d

  unfoldable pub and_then : {A B : Type 0} → Spec D A → (A → Spec D B) → Spec D B
  and_then m f d = let (o, d') = m d in continue o f d'

  unfoldable pub ask : {A : Type 0} → Store D → List Piece → (Answer → Spec D A) → Spec D A
  ask store pieces f d =
      let (answer, d') = store (fixed_text pieces) (values pieces) d in f answer d'

-- `holds d w`: the world w has the store d behind its server. A query whose text is read as a fixed text
-- and values does what the store does on them, and the library reports it on the connection of the query.
pub record ServerLaws {W D : Type 0} (server : Server W) (store : Store D) : Type 1 where
  pub escaping : EscapeLaws server
  pub all_alive : AllAlive server.client
  pub holds : D → W → Type 0
  pub ping_holds : (d : D) (c : Conn) (w : W) → holds d w → holds d (server.client.mysql_ping c w).1
  pub query_holds :
      (d : D) (c : Conn) (w : W) (text fixed : Bytes) (vs : List Bytes)
      → Reads escaping.read_literal text fixed vs
      → holds d w
      → ((server.mysql_query c text w).0 ≡ (store fixed vs d).0.done)
        × (server.mysql_insert_id c (server.mysql_query c text w).1 ≡ (store fixed vs d).0.id)
        × (server.mysql_affected_rows c (server.mysql_query c text w).1
            ≡ (store fixed vs d).0.affected)
        × (server.mysql_store_result c (server.mysql_query c text w).1 ≡ (store fixed vs d).0.rows)
        × holds (store fixed vs d).1 (server.mysql_query c text w).1

abbrev pub as_result : {A : Type 0} → Option A → Result A
as_result none = threw
as_result (some a) = ok a

-- The function m, run in the state s, returns or throws as `a` says for the store d, leaves the store that
-- `a` says, and n idle connections.
abbrev pub Agrees :
    {W D A : Type 0} {server : Server W} {store : Store D}
    → ServerLaws server store
    → ℕ
    → Db W
    → D
    → Exec W A
    → Spec D A
    → Type 0
Agrees laws n s d m a =
    ((m s).0 ≡ as_result (a d).0) × laws.holds (a d).1 (m s).1.world × Idle n (m s).1
