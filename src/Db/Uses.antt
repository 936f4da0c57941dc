-- ===== src/Db/Uses.antt =====
-- How many connections a function needs at once, and that it gives them back.
use cpp_oj_vbcoding_teach.Prelude.{
  ℕ, zero, suc, ◌≡◌, ◌≤◌, refl, sym, ap, ◌∙◌, Bool, true, false, if◌then◌else◌, List, [], ◌∷◌,
  Option, none, some, length, arith,
}
use cpp_oj_vbcoding_teach.Pool.Mysql.{Client, Conn}
use cpp_oj_vbcoding_teach.Pool.{Pool, returns, acquire, release, push}
use cpp_oj_vbcoding_teach.Pool.Acquire.{alive, acquire_lem}
use cpp_oj_vbcoding_teach.Db.Exec.{
  Db, Result, ok, threw, asleep, Exec, pure, throw, lift, gets, call, then_on, ◌>>=◌, give_back,
  behind_acquire, with_connection,
}

-- Every connection answers its ping.
abbrev pub AllAlive : {W : Type 0} → Client W → Type 0
AllAlive {W} client = (c : Conn) (w : W) → (client.mysql_ping c w).0 ≡ true

-- The pool runs and has n idle connections.
abbrev pub Idle : {W : Type 0} → ℕ → Db W → Type 0
Idle n s = (s.pool.initialized ≡ true) × (length s.pool.idle ≡ n)

abbrev pub Awake : {A : Type 0} → Result A → Type 0
Awake (ok a) = Unit
Awake threw = Unit
Awake asleep = ⊥

-- `m` comes to its end, by a return or an exception, and leaves the pool with n idle connections.
abbrev pub Completes : {W A : Type 0} → ℕ → Db W → Exec W A → Type 0
Completes n s m = Awake (m s).0 × Idle n (m s).1

-- `Uses k m`: where the pool runs and k connections are idle, `m` comes to its end, by a return or an
-- exception, and as many connections are idle again.
pub record Uses {W A : Type 0} (k : ℕ) (m : Exec W A) : Type 0 where
  pub at : (n : ℕ) (s : Db W) → k ≤ n → Idle n s → Completes n s m

module _ {W A : Type 0} {k : ℕ} where
  pub Uses-pure : (a : A) → Uses {W = W} k (pure a)
  unfolding pure
  Uses-pure a = record { at = λ n s h i. (tt, i) }

  pub Uses-throw : Uses {W = W} {A = A} k throw
  unfolding throw
  Uses-throw = record { at = λ n s h i. (tt, i) }

  pub Uses-lift : (a : Option A) → Uses {W = W} k (lift a)
  unfolding lift
  Uses-lift none = record { at = λ n s h i. (tt, i) }
  Uses-lift (some a) = record { at = λ n s h i. (tt, i) }

  pub Uses-gets : (f : W → A) → Uses {W = W} k (gets f)
  unfolding gets
  Uses-gets f = record { at = λ n s h i. (tt, i) }

  pub Uses-call : (f : W → A × W) → Uses {W = W} k (call f)
  unfolding call
  Uses-call f = record { at = λ n s h i. (tt, i) }

  pub Uses-if : (b : Bool) (m n : Exec W A) → Uses k m → Uses k n → Uses k (if b then m else n)
  Uses-if true m n um un = um
  Uses-if false m n um un = un

module _ {W A B : Type 0} {k : ℕ} where
  then_on-Uses :
      (r : Result A) (f : A → Exec W B) (n : ℕ) (s : Db W)
      → ((a : A) → Uses k (f a))
      → k ≤ n
      → Awake r
      → Idle n s
      → Awake (then_on r f s).0 × Idle n (then_on r f s).1
  unfolding then_on
  then_on-Uses (ok a) f n s uf h awake i = (uf a).at n s h i
  then_on-Uses threw f n s uf h awake i = (tt, i)
  then_on-Uses asleep f n s uf h awake i = absurd awake

  pub Uses-bind :
      (m : Exec W A) (f : A → Exec W B) → Uses k m → ((a : A) → Uses k (f a)) → Uses k (m >>= f)
  unfolding ◌>>=◌
  Uses-bind m f um uf = record {
    at = λ n s h i.
        let (awake, i') = um.at n s h i in then_on-Uses (m s).0 f n (m s).1 uf h awake i';
  }

pub length-push : (conns : List Conn) (c : Conn) → length (push conns c) ≡ suc (length conns)
unfolding push
length-push [] c = refl
length-push (d ∷ conns) c = ap (λ n. suc n) (length-push conns c)

module _ {W : Type 0} (client : Client W) (all_alive : AllAlive client) where
  pub acquire_first :
      (p : Pool) (w : W) (c : Conn) (rest : List Conn)
      → p.initialized ≡ true
      → p.idle ≡ c ∷ rest
      → acquire client p w ≡ returns (some c) (record p { idle = rest }) (client.mysql_ping c w).1
  acquire_first p w c rest on e =
      ((acquire_lem client p w).1 (some c) (record p { idle = rest }) (client.mysql_ping c w).1).1
        (alive c rest on e (all_alive c w))

module _ {W A : Type 0} where
  give_back-Uses :
      (r : Result A) (s : Db W) (c : Conn) (n : ℕ)
      → Awake r
      → Idle n s
      → Awake (give_back (some c) (r, s)).0 × Idle (suc n) (give_back (some c) (r, s)).1
  unfolding give_back release
  give_back-Uses (ok a) s c n awake (on, e) =
      (tt, (on, length-push s.pool.idle c ∙ ap (λ m. suc m) e))
  give_back-Uses threw s c n awake (on, e) =
      (tt, (on, length-push s.pool.idle c ∙ ap (λ m. suc m) e))
  give_back-Uses asleep s c n awake i = absurd awake

  module _ (client : Client W) (all_alive : AllAlive client) {k : ℕ} where
    block-Uses :
        (body : Option Conn → Exec W A) (n : ℕ) (s : Db W) (conns : List Conn)
        → ((conn : Option Conn) → Uses k (body conn))
        → suc k ≤ n
        → Idle n s
        → s.pool.idle ≡ conns
        → Awake (behind_acquire (acquire client s.pool s.world) body s).0
          × Idle n (behind_acquire (acquire client s.pool s.world) body s).1
    unfolding behind_acquire
    block-Uses body n s [] ub h (on, l) e = absurd (omega (arith, h, sym l ∙ ap length e))
    block-Uses body zero s (c ∷ rest) ub h i e = absurd (omega arith)
    block-Uses body (suc n) s (c ∷ rest) ub h (on, l) e =
        let s' : Db W = record {
          pool = record s.pool { idle = rest };
          world = (client.mysql_ping c s.world).1;
        } in
        let l' : length rest ≡ n = omega (arith, sym l ∙ ap length e) in
        let (awake, i) = (ub (some c)).at n s' (omega arith) (on, l') in
        rw (acquire_first client all_alive s.pool s.world c rest on e)
          (give_back-Uses (body (some c) s').0 (body (some c) s').1 c n awake i)

    -- One connection more than the rest of the block needs.
    pub Uses-with_connection :
        (body : Option Conn → Exec W A)
        → ((conn : Option Conn) → Uses k (body conn))
        → Uses (suc k) (with_connection client body)
    unfolding with_connection
    Uses-with_connection body ub = record {
      at = λ n s h i. block-Uses body n s s.pool.idle ub h i refl;
    }

pub ruleset uses_rules = (
  Uses-pure, Uses-throw, Uses-lift, Uses-gets, Uses-call, Uses-if, Uses-bind, Uses-with_connection,
)
