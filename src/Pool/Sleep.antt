-- ===== src/Pool/Sleep.antt =====
-- When an acquisition sleeps, and when it is certain not to.
use cpp_oj_vbcoding_teach.Prelude.{
  ◌≡◌, ◌+◌, refl, subst, sym, ap, ◌∙◌, List, [], ◌∷◌, Option, none, true, false, ◌↔◌, length,
  length-append, arith,
}
use cpp_oj_vbcoding_teach.Pool.Mysql.{Client, Conn}
use cpp_oj_vbcoding_teach.Pool.{
  Pool, sleeps, returns, release, shutdown, create_connection, acquire,
}
use cpp_oj_vbcoding_teach.Pool.Acquire.{Outcome, refused, alive, replaced, returned, acquire_lem}
use cpp_oj_vbcoding_teach.Pool.Step.{
  System, Use, acquires, releases, waits, stirs, Uses, unused, used, hold, after_shutdown,
}
use cpp_oj_vbcoding_teach.Pool.Count.{total, release-total}

module _ {W : Type 0} (client : Client W) where
  Outcome-initialized :
      (p q : Pool) (w v : W) (made : Option Conn)
      → Outcome client p w made q v
      → q.initialized ≡ p.initialized
  Outcome-initialized p q w v made (refused e) = refl
  Outcome-initialized p q w v made (alive c rest on h e) = refl
  Outcome-initialized p q w v made (replaced c rest on h e) = refl

  Outcome-waiting :
      (p q : Pool) (w v : W) (made : Option Conn)
      → Outcome client p w made q v
      → q.waiting ≡ p.waiting
  Outcome-waiting p q w v made (refused e) = refl
  Outcome-waiting p q w v made (alive c rest on h e) = refl
  Outcome-waiting p q w v made (replaced c rest on h e) = refl

  Use-initialized : (s t : System W) → Use client s t → t.pool.initialized ≡ s.pool.initialized
  unfolding release
  Use-initialized s _ (acquires made q v h) =
      Outcome-initialized s.pool q s.world v made (returned client h)
  Use-initialized s _ (waits h) = refl
  Use-initialized s _ (stirs n h) = refl
  Use-initialized s _ (releases c front back h) = refl

  Uses-initialized : (s t : System W) → Uses client s t → t.pool.initialized ≡ s.pool.initialized
  Uses-initialized s _ unused = refl
  Uses-initialized s _ (used {t} {u} r x) = Use-initialized t u x ∙ Uses-initialized s t r

  -- Nobody waits, and the pool is shut down.
  abbrev IsDown : System W → Type 0
  IsDown s = (s.pool.initialized ≡ false) × (s.pool.waiting ≡ 0)

  IsDown-Use : (s t : System W) → IsDown s → Use client s t → IsDown t
  unfolding release
  IsDown-Use s _ (off, none_waits) (acquires made q v h) =
      let outcome = returned client h in
      (
        Outcome-initialized s.pool q s.world v made outcome ∙ off,
        Outcome-waiting s.pool q s.world v made outcome ∙ none_waits,
      )
  IsDown-Use s _ (off, none_waits) (waits h) =
      let on = ((acquire_lem client s.pool s.world).0.0 h).0 in absurd cc
  IsDown-Use s _ (off, none_waits) (stirs n h) = absurd cc
  IsDown-Use s _ (off, none_waits) (releases c front back h) = (off, rw none_waits refl)

  IsDown-Uses : (s t : System W) → IsDown s → Uses client s t → IsDown t
  IsDown-Uses s _ down unused = down
  IsDown-Uses s _ down (used {t} {u} r x) = IsDown-Use t u (IsDown-Uses s t down r) x

  -- A shutdown wakes every thread that waits, and behind it none waits again: whatever the threads acquire
  -- and release, no thread waits, and an acquisition returns null at once and changes nothing, until the
  -- pool is started again.
  pub shutdown_wakes :
      (s t : System W)
      → Uses client (after_shutdown client s) t
      → (t.pool.waiting ≡ 0) × (acquire client t.pool t.world ≡ returns none t.pool t.world)
  unfolding shutdown
  shutdown_wakes s t r =
      let (off, none_waits) = IsDown-Uses (after_shutdown client s) t (refl, refl) r in
      (none_waits, ((acquire_lem client t.pool t.world).1 none t.pool t.world).1 (refused off))

  -- No connection is left, and the pool does not know it.
  pub record IsStuck (s : System W) : Type 0 where
    pub on : s.pool.initialized ≡ true
    pub none_idle : s.pool.idle ≡ []
    pub none_held : s.held ≡ []

  IsStuck-sleeps : (s : System W) → IsStuck s → acquire client s.pool s.world ≡ sleeps
  IsStuck-sleeps s k = (acquire_lem client s.pool s.world).0.1 (k.on, k.none_idle)

  IsStuck-Use : (s t : System W) → IsStuck s → Use client s t → IsStuck t
  IsStuck-Use s _ k (acquires made q v h) =
      let asleep : acquire client s.pool s.world ≡ sleeps = IsStuck-sleeps s k in absurd cc
  IsStuck-Use s _ k (waits h) = record {
    on = k.on;
    none_idle = k.none_idle;
    none_held = k.none_held;
  }
  IsStuck-Use s _ k (stirs n h) = record {
    on = k.on;
    none_idle = k.none_idle;
    none_held = k.none_held;
  }
  IsStuck-Use s _ k (releases c front back h) =
      let l = length-append front (c ∷ back) in
      absurd (omega (arith, ap length (sym k.none_held ∙ h)))

  IsStuck-Uses : (s t : System W) → Uses client s t → IsStuck s → IsStuck t
  IsStuck-Uses s _ unused k = k
  IsStuck-Uses s _ (used {t} {u} r x) k = IsStuck-Use t u (IsStuck-Uses s t r k) x

  -- If the only connection of a pool is dead and the reconnection fails, the acquisition returns null,
  -- and from then on every acquisition sleeps, whatever the threads do: the pool still counts as started.
  pub loses_last :
      (s : System W) (c : Conn)
      → s.pool.initialized ≡ true
      → s.pool.idle ≡ c ∷ []
      → s.held ≡ []
      → (client.mysql_ping c s.world).0 ≡ false
      → (create_connection client s.pool.params
          (client.mysql_close c (client.mysql_ping c s.world).1)).0
        ≡ none
      → (q : Pool) × (v : W) × (acquire client s.pool s.world ≡ returns none q v)
        × ((t : System W)
            → Uses client (record { pool = q; held = s.held; world = v }) t
            → acquire client t.pool t.world ≡ sleeps)
  loses_last s c on one empty dead lost =
      let q : Pool = record (s.pool) { idle = [] } in
      let made =
        create_connection client s.pool.params
          (client.mysql_close c (client.mysql_ping c s.world).1) in
      (
        q,
        made.1,
        subst (λ o. acquire client s.pool s.world ≡ returns o q made.1) lost
            (((acquire_lem client s.pool s.world).1 made.0 q made.1).1 (replaced c [] on one dead)),
        λ t r.
            IsStuck-sleeps t
              (IsStuck-Uses _ t r (record { on = on; none_idle = refl; none_held = empty })),
      )

  module _ (answers : (c : Conn) (w : W) → (client.mysql_ping c w).0 ≡ true) where
    acquire-total_eq :
        (p q : Pool) (w v : W) (made : Option Conn) (held : List Conn)
        → Outcome client p w made q v
        → length q.idle + length (hold made held) ≡ length p.idle + length held
    acquire-total_eq p q w v made held (refused e) = refl
    acquire-total_eq p q w v made held (alive c rest on h e) = omega (arith, ap length h)
    acquire-total_eq p q w v made held (replaced c rest on h e) =
        let up : (client.mysql_ping c w).0 ≡ true = answers c w in absurd (cc)

    Use-total_eq : (s t : System W) → Use client s t → total t ≡ total s
    Use-total_eq s _ (acquires made q v h) =
        acquire-total_eq s.pool q s.world v made s.held (returned client h)
    Use-total_eq s _ (waits h) = refl
    Use-total_eq s _ (stirs n h) = refl
    Use-total_eq s _ (releases c front back h) = release-total client c s.pool s.held front back h

    Uses-total_eq : (s t : System W) → Uses client s t → total t ≡ total s
    Uses-total_eq s _ unused = refl
    Uses-total_eq s _ (used {t} {u} r x) = Use-total_eq t u x ∙ Uses-total_eq s t r

  -- While every connection answers its ping, a started pool loses none: an acquisition sleeps exactly when
  -- the threads hold all the connections there were.
  pub sleeps_iff_all_held :
      (s t : System W)
      → ((c : Conn) (w : W) → (client.mysql_ping c w).0 ≡ true)
      → s.pool.initialized ≡ true
      → Uses client s t
      → (acquire client t.pool t.world ≡ sleeps)
        ↔ (length t.held ≡ length s.pool.idle + length s.held)
  sleeps_iff_all_held s t answers on r =
      let same : total t ≡ total s = Uses-total_eq answers s t r in
      (
        λ h. omega (arith, ap length ((acquire_lem client t.pool t.world).0.0 h).1),
        λ h.
            (acquire_lem client t.pool t.world).0.1
              (Uses-initialized s t r ∙ on, empty_of t.pool.idle (omega arith)),
      )
    where
      empty_of : (l : List Conn) → length l ≡ 0 → l ≡ []
      empty_of [] h = refl
      empty_of (c ∷ l) h = absurd (omega arith)
