-- ===== src/Db/Refines.antt =====
-- The rules by which a function of the program does what a function on the store does.
use cpp_oj_vbcoding_teach.Prelude.{
  ℕ, zero, suc, ◌≡◌, ◌≤◌, refl, sym, ap, subst, ◌∙◌, Bool, true, false, if◌then◌else◌, List, [],
  ◌∷◌, Option, none, some, All, length, arith,
}
use cpp_oj_vbcoding_teach.Pool.Mysql.{Conn}
use cpp_oj_vbcoding_teach.Pool.{acquire, release}
use cpp_oj_vbcoding_teach.Db.Mysql.{Server}
use cpp_oj_vbcoding_teach.Db.Exec.{
  Db, Result, ok, threw, asleep, Exec, pure, call, then_on, ◌>>=◌, give_back, behind_acquire,
  with_connection,
}
use cpp_oj_vbcoding_teach.Db.Sql.{Piece, c_str, sql_text, query}
use cpp_oj_vbcoding_teach.Db.Sql.Safe.{IsPlainPiece, fixed_text, values, query-Reads}
use cpp_oj_vbcoding_teach.Db.Uses.{Idle, acquire_first, length-push}
use cpp_oj_vbcoding_teach.Db.Store.{
  Answer, Store, Spec, give, continue, and_then, ask, ServerLaws, as_result, Agrees,
}

module _ {W D : Type 0} {server : Server W} {store : Store D} (laws : ServerLaws server store) where
  pub record Implements {A : Type 0} (k : ℕ) (m : Exec W A) (a : Spec D A) : Type 0 where
    pub at :
        (n : ℕ) (s : Db W) (d : D) → k ≤ n → Idle n s → laws.holds d s.world → Agrees laws n s d m a

  -- What the library reports on a connection after a query.
  pub record Reports (c : Conn) (w : W) (answer : Answer) : Type 0 where
    pub id : server.mysql_insert_id c w ≡ answer.id
    pub affected : server.mysql_affected_rows c w ≡ answer.affected
    pub rows : server.mysql_store_result c w ≡ answer.rows

  module _ {k : ℕ} {A : Type 0} where
    pub Implements-pure : (x : A) → Implements k (pure x) (give x)
    unfolding pure give
    Implements-pure x = record { at = λ n s d h i r. (refl, r, i) }

    pub Implements-if :
        (b : Bool) (m m' : Exec W A) (a a' : Spec D A)
        → Implements k m a
        → Implements k m' a'
        → Implements k (if b then m else m') (if b then a else a')
    Implements-if true m m' a a' x y = x
    Implements-if false m m' a a' x y = y

    module _ {B : Type 0} where
      then_on-Agrees :
          (r : Result A) (o : Option A) (f : A → Exec W B) (g : A → Spec D B) (n : ℕ) (s : Db W)
          (d : D)
          → ((x : A) → Implements k (f x) (g x))
          → k ≤ n
          → r ≡ as_result o
          → Idle n s
          → laws.holds d s.world
          → Agrees laws n s d (then_on r f) (continue o g)
      unfolding then_on continue
      then_on-Agrees r none f g n s d fg h e i held = rw e (refl, held, i)
      then_on-Agrees r (some x) f g n s d fg h e i held = rw e ((fg x).at n s d h i held)

      pub Implements-bind :
          (m : Exec W A) (a : Spec D A) (f : A → Exec W B) (g : A → Spec D B)
          → Implements k m a
          → ((x : A) → Implements k (f x) (g x))
          → Implements k (m >>= f) (and_then a g)
      unfolding ◌>>=◌ and_then
      Implements-bind m a f g ma fg = record {
        at = λ n s d h i held.
            let (e, held', i') = ma.at n s d h i held in
            then_on-Agrees (m s).0 (a d).0 f g n (m s).1 (a d).1 fg h e i' held';
      }

    pub Implements-query :
        (c : Conn) (pieces : List Piece) (f : Bool → Exec W A) (g : Answer → Spec D A)
        → All IsPlainPiece pieces
        → ((answer : Answer) (n : ℕ) (s : Db W) (d : D)
            → k ≤ n
            → Idle n s
            → laws.holds d s.world
            → Reports c s.world answer
            → Agrees laws n s d (f answer.done) (g answer))
        → Implements k (query server c pieces >>= f) (ask store pieces g)
    unfolding ◌>>=◌ then_on query call ask
    Implements-query c pieces f g plain rest = record {
      at = λ n s d h i held.
          let text = c_str (sql_text server c s.world pieces) in
          let w = (server.mysql_query c text s.world).1 in
          let answered = store (fixed_text pieces) (values pieces) d in
          let (done, id, affected, rows, held') =
            laws.query_holds d c s.world text (fixed_text pieces) (values pieces)
              (query-Reads server laws.escaping c s.world pieces plain) held in
          rw done (
            rest answered.0 n (record s { world = w }) answered.1 h i held'
              (record { id = id; affected = affected; rows = rows }));
    }

  give_back-Agrees :
      {A : Type 0} (r : Result A) (s : Db W) (c : Conn) (o : Option A) (n : ℕ)
      → r ≡ as_result o
      → Idle n s
      → ((give_back (some c) (r, s)).0 ≡ as_result o)
        × ((give_back (some c) (r, s)).1.world ≡ s.world)
        × Idle (suc n) (give_back (some c) (r, s)).1
  unfolding give_back release
  give_back-Agrees (ok a) s c o n e (on, l) =
      (e, refl, (on, length-push s.pool.idle c ∙ ap (λ m. suc m) l))
  give_back-Agrees threw s c o n e (on, l) =
      (e, refl, (on, length-push s.pool.idle c ∙ ap (λ m. suc m) l))
  give_back-Agrees asleep s c none n e i = absurd cc
  give_back-Agrees asleep s c (some a) n e i = absurd cc

  module _ {k : ℕ} {A : Type 0} where
    block-Agrees :
        (body : Option Conn → Exec W A) (a : Spec D A) (n : ℕ) (s : Db W) (d : D)
        (conns : List Conn)
        → ((c : Conn) → Implements k (body (some c)) a)
        → suc k ≤ n
        → Idle n s
        → laws.holds d s.world
        → s.pool.idle ≡ conns
        → Agrees laws n s d (behind_acquire (acquire server.client s.pool s.world) body) a
    unfolding behind_acquire
    block-Agrees body a n s d [] ba h (on, l) held e =
        absurd (omega (arith, h, sym l ∙ ap length e))
    block-Agrees body a zero s d (c ∷ rest) ba h i held e = absurd (omega arith)
    block-Agrees body a (suc n) s d (c ∷ rest) ba h (on, l) held e =
        let s' : Db W = record {
          pool = record s.pool { idle = rest };
          world = (server.client.mysql_ping c s.world).1;
        } in
        let l' : length rest ≡ n = omega (arith, sym l ∙ ap length e) in
        let (e', held', i) =
          (ba c).at n s' d (omega arith) (on, l') (laws.ping_holds d c s.world held) in
        let (same, world, i') =
          give_back-Agrees (body (some c) s').0 (body (some c) s').1 c (a d).0 n e' i in
        rw (acquire_first server.client laws.all_alive s.pool s.world c rest on e)
          (same, subst (laws.holds (a d).1) (sym world) held', i')

    pub Implements-with_connection :
        (body : Option Conn → Exec W A) (a : Spec D A)
        → ((c : Conn) → Implements k (body (some c)) a)
        → Implements (suc k) (with_connection server.client body) a
    unfolding with_connection
    Implements-with_connection body a ba = record {
      at = λ n s d h i held. block-Agrees body a n s d s.pool.idle ba h i held refl;
    }
