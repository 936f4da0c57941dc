-- ===== src/Pool/Wakes.antt =====
-- No wake-up of src/db/connection_pool.cc is lost: the threads that sleep in `acquire`, and those that were
-- woken and have not looked at the pool again.
use cpp_oj_vbcoding_teach.Prelude.{
  ℕ, zero, suc, ◌≡◌, ◌+◌, ◌≤◌, ◌⊎◌, inl, inr, refl, sym, ap, ◌∙◌, true, List, Option, some, length,
  arith,
}
use cpp_oj_vbcoding_teach.Pool.Mysql.{Client, Conn}
use cpp_oj_vbcoding_teach.Pool.{Pool, sleeps, returns, wait, acquire, release}
use cpp_oj_vbcoding_teach.Pool.Acquire.{Outcome, refused, alive, replaced, returned, acquire_lem}
use cpp_oj_vbcoding_teach.Db.Uses.{length-push}

-- The pool, with the number of threads that are on their way out of `cv_.wait`.
pub record Sleepers (W : Type 0) : Type 0 where
  pub pool : Pool
  pub world : W
  pub woken : ℕ

-- How many threads an operation has taken off the condition variable, by the numbers of those that wait
-- before and after it.
unfoldable pub roused : ℕ → ℕ → ℕ
roused zero after = zero
roused (suc n) zero = suc n
roused (suc n) (suc after) = roused n after

roused-suc : (n : ℕ) → roused (suc n) n ≡ 1
unfolding roused
roused-suc zero = refl
roused-suc (suc n) = roused-suc n

module _ {W : Type 0} (client : Client W) where
  -- A thread calls `acquire`, or one that was woken looks at the pool again; either returns or waits. A
  -- thread gives back a connection, or one that waits wakes up without a notification.
  pub data Wake (s : Sleepers W) : Sleepers W → Type 0 where
    enters :
        (made : Option Conn) (p : Pool) (w : W)
        → acquire client s.pool s.world ≡ returns made p w
        → Wake s (record { pool = p; world = w; woken = s.woken })
    sleeps_in :
        acquire client s.pool s.world ≡ sleeps
        → Wake s (record { pool = wait s.pool; world = s.world; woken = s.woken })
    goes_on :
        (n : ℕ) (made : Option Conn) (p : Pool) (w : W)
        → s.woken ≡ suc n
        → acquire client s.pool s.world ≡ returns made p w
        → Wake s (record { pool = p; world = w; woken = n })
    sleeps_again :
        (n : ℕ)
        → s.woken ≡ suc n
        → acquire client s.pool s.world ≡ sleeps
        → Wake s (record { pool = wait s.pool; world = s.world; woken = n })
    gives_back :
        (c : Conn)
        → Wake s (record {
          pool = release (some c) s.pool;
          world = s.world;
          woken = s.woken + roused s.pool.waiting (release (some c) s.pool).waiting;
        })
    stirs_up :
        (n : ℕ)
        → s.pool.waiting ≡ suc n
        → Wake s
            (record { pool = record s.pool { waiting = n }; world = s.world; woken = suc s.woken })

  pub data Wakes (s : Sleepers W) : Sleepers W → Type 0 where
    at_rest : Wakes s s
    then_wakes : {t u : Sleepers W} → Wakes s t → Wake t u → Wakes s u

  -- The pool runs, and if a thread waits, a woken thread is on its way for each idle connection.
  pub record Served (s : Sleepers W) : Type 0 where
    pub on : s.pool.initialized ≡ true
    pub served : (s.pool.waiting ≡ 0) ⊎ (length s.pool.idle ≤ s.woken)

  -- An acquisition that returns from a pool that runs takes one connection out of the queue.
  takes :
      (p q : Pool) (w v : W) (made : Option Conn)
      → p.initialized ≡ true
      → Outcome client p w made q v
      → (q.initialized ≡ true) × (q.waiting ≡ p.waiting) × (suc (length q.idle) ≡ length p.idle)
  takes p q w v made on (refused off) = absurd cc
  takes p q w v made on (alive c rest on' idle e) = (on', refl, sym (ap length idle))
  takes p q w v made on (replaced c rest on' idle e) = (on', refl, sym (ap length idle))

  asleep_empty : (p : Pool) (w : W) → acquire client p w ≡ sleeps → length p.idle ≡ 0
  asleep_empty p w h = ap length ((acquire_lem client p w).0.0 h).1

  back-served :
      (idle : List Conn) (c : Conn) (waiting woken : ℕ) (p : Pool)
      → p.idle ≡ idle
      → p.waiting ≡ waiting
      → (waiting ≡ 0) ⊎ (length idle ≤ woken)
      → ((release (some c) p).waiting ≡ 0)
        ⊎ (length (release (some c) p).idle ≤ woken + roused waiting (release (some c) p).waiting)
  unfolding release
  back-served idle c zero woken p i w served = inl (rw w refl)
  back-served idle c (suc n) woken p i w (inl none_waits) = absurd (omega (arith, none_waits))
  back-served idle c (suc n) woken p i w (inr enough) =
      rw w (inr (omega (arith, enough, length-push p.idle c, ap length i, roused-suc n)))

  Wake-Served : (s t : Sleepers W) → Served s → Wake s t → Served t
  unfolding release
  Wake-Served s _ k (enters made p w h) =
      let (on, same, fewer) = takes s.pool p s.world w made k.on (returned client h) in
      record {
        on = on;
        served = elim k.served [
          | inl none_waits ↦ inl (same ∙ none_waits)
          | inr enough ↦ inr (omega (arith, enough, fewer))
        ];
      }
  Wake-Served s _ k (sleeps_in h) = record {
    on = k.on;
    served = inr (omega (arith, asleep_empty s.pool s.world h));
  }
  Wake-Served s _ k (goes_on n made p w more h) =
      let (on, same, fewer) = takes s.pool p s.world w made k.on (returned client h) in
      record {
        on = on;
        served = elim k.served [
          | inl none_waits ↦ inl (same ∙ none_waits)
          | inr enough ↦ inr (omega (arith, enough, fewer, more))
        ];
      }
  Wake-Served s _ k (sleeps_again n more h) = record {
    on = k.on;
    served = inr (omega (arith, asleep_empty s.pool s.world h));
  }
  Wake-Served s _ k (gives_back c) = record {
    on = k.on;
    served = back-served s.pool.idle c s.pool.waiting s.woken s.pool refl refl k.served;
  }
  Wake-Served s _ k (stirs_up n more) = record {
    on = k.on;
    served = elim k.served [
      | inl none_waits ↦ absurd (omega (arith, none_waits, more))
      | inr enough ↦ inr (omega (arith, enough))
    ];
  }

  -- No wake-up is lost: from a pool that runs and in which no thread waits, whatever order the threads'
  -- acquisitions, releases and wake-ups come in, the pool runs, and if a thread waits, at least as many
  -- threads have been woken and not yet looked at the pool again as connections are idle.
  pub none_lost :
      (s t : Sleepers W) → s.pool.initialized ≡ true → s.pool.waiting ≡ 0 → Wakes s t → Served t
  none_lost s _ on none_waits at_rest = record { on = on; served = inl none_waits }
  none_lost s _ on none_waits (then_wakes {t} {u} r x) =
      Wake-Served t u (none_lost s t on none_waits r) x
