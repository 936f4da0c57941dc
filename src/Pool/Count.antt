-- ===== src/Pool/Count.antt =====
-- How many connections the pool and the threads have between them.
use cpp_oj_vbcoding_teach.Prelude.{
  ℕ, zero, suc, ◌≡◌, ◌+◌, ◌≤◌, ◌⊎◌, inl, inr, ap, List, [], ◌∷◌, ◌++◌, Option, none, some, true,
  length, length-append, arith, Bool-cases,
}
use cpp_oj_vbcoding_teach.Prelude.Int.{ℤ}
use cpp_oj_vbcoding_teach.Pool.Mysql.{Client, Conn, ConnectParams}
use cpp_oj_vbcoding_teach.Pool.{
  Pool, init, rounds, release, push, fill, restart, push_made, create_connection,
}
use cpp_oj_vbcoding_teach.Pool.Acquire.{Outcome, refused, alive, replaced, returned}
use cpp_oj_vbcoding_teach.Pool.Step.{
  System, Use, acquires, waits, stirs, releases, Uses, unused, used, hold, after_init,
}

abbrev pub total : {W : Type 0} → System W → ℕ
total s = length s.pool.idle + length s.held

length-hold : (made : Option Conn) (held : List Conn) → length (hold made held) ≤ suc (length held)
length-hold none held = omega arith
length-hold (some c) held = omega arith

length-push_made :
    (made : Option Conn) (conns : List Conn) → length (push_made made conns) ≤ suc (length conns)
unfolding push_made push
length-push_made none conns = omega arith
length-push_made (some c) conns = omega (arith, length-append conns (c ∷ []))

module _ {W : Type 0} (client : Client W) where
  length-fill :
      (n : ℕ) (params : ConnectParams) (conns : List Conn) (w : W)
      → length (fill client n params conns w).0 ≤ n + length conns
  unfolding fill
  length-fill zero params conns w = omega arith
  length-fill (suc n) params conns w =
      let made = create_connection client params w in
      omega
        (arith, length-fill n params (push_made made.0 conns) made.1, length-push_made made.0 conns)

  acquire-total :
      (p q : Pool) (w v : W) (made : Option Conn) (held : List Conn)
      → Outcome client p w made q v
      → length q.idle + length (hold made held) ≤ length p.idle + length held
  acquire-total p q w v made held (refused e) = omega arith
  acquire-total p q w v made held (alive c rest on h e) = omega (arith, ap length h)
  acquire-total p q w v made held (replaced c rest on h e) =
      omega (arith, ap length h, length-hold made held)

  pub release-total :
      (c : Conn) (p : Pool) (held front back : List Conn)
      → held ≡ front ++ c ∷ back
      → length (release (some c) p).idle + length (front ++ back) ≡ length p.idle + length held
  unfolding release push
  release-total c p held front back h = omega (
    arith,
    ap length h,
    length-append front back,
    length-append front (c ∷ back),
    length-append p.idle (c ∷ []),
  )

  Use-total : (s t : System W) → Use client s t → total t ≤ total s
  Use-total s _ (acquires made q v h) =
      acquire-total s.pool q s.world v made s.held (returned client h)
  Use-total s _ (waits h) = omega arith
  Use-total s _ (stirs n h) = omega arith
  Use-total s _ (releases c front back h) =
      omega (arith, release-total c s.pool s.held front back h)

  Uses-total : (s t : System W) → Uses client s t → total t ≤ total s
  Uses-total s _ unused = omega arith
  Uses-total s _ (used {t} {u} r x) = omega (arith, Uses-total s t r, Use-total t u x)

  restart_empty :
      (p : Pool) (w : W) → (p.initialized ≡ true) ⊎ (p.idle ≡ []) → (restart client p w).0 ≡ []
  unfolding restart
  restart_empty p w (inl on) = simp (restart, on)
  restart_empty p w (inr none_idle) = elim (Bool-cases p.initialized) [
    | inl e ↦ simp (restart, e)
    | inr e ↦ simp (restart, e, none_idle)
  ]

  init-total :
      (params : ConnectParams) (n : ℤ) (s : System W)
      → (s.pool.initialized ≡ true) ⊎ (s.pool.idle ≡ [])
      → total (after_init client params n s) ≤ rounds n + length s.held
  unfolding init
  init-total params n s h = omega (
    arith,
    length-fill (rounds n) params (restart client s.pool s.world).0
        (restart client s.pool s.world).1,
    ap length (restart_empty s.pool s.world h),
  )

  -- Once `init` has started the pool, from an empty one or from one that runs, the requests have never
  -- more connections between them than the size that was asked for, besides those that were held before.
  pub pool_bound :
      (params : ConnectParams) (n : ℤ) (s t : System W)
      → (s.pool.initialized ≡ true) ⊎ (s.pool.idle ≡ [])
      → Uses client (after_init client params n s) t
      → length t.pool.idle + length t.held ≤ rounds n + length s.held
  pool_bound params n s t h r =
      omega (arith, Uses-total (after_init client params n s) t r, init-total params n s h)
