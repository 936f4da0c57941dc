-- ===== src/Pool/Ownership.antt =====
-- Who owns a connection: no handle is idle twice, held twice, or idle and held, and each of them is open: each operation of the pool keeps it so.
pub mod History
use cpp_oj_vbcoding_teach.Prelude.{
  ℕ, zero, suc, ◌≡◌, ◌≢◌, refl, sym, ap, subst, inl, inr, List, [], ◌∷◌, ◌++◌, append_assoc, Option,
  none, some, true, false, Bool-cases, Option-cases,
}
use cpp_oj_vbcoding_teach.Prelude.Int.{ℤ}
use mathlib.Core.Logic.{∥∥₁_elim}
use mathlib.Core.List.{
  Mem, Mem-prop, mem-cons_self, mem-cons_of_mem, eq-or-mem_of_mem-cons, Nodup, Nodup-cons, Perm,
  perm_middle,
}
use mathlib.Core.List.Perm
use native.Mathlib.Decide.{ℕ_discrete}
use cpp_oj_vbcoding_teach.Pool.Mysql.{Client, HandleLaws, Conn, ConnectParams}
use cpp_oj_vbcoding_teach.Pool.{
  Pool, Acquired, sleeps, returns, new_pool, push, push_made, create_connection, close_all, fill,
  restart, init, shutdown, acquire, pop_front, revive, release, rounds,
}
use cpp_oj_vbcoding_teach.Pool.Acquire.{Outcome, refused, alive, replaced}
use cpp_oj_vbcoding_teach.Pool.Step.{System, Reach, Use, start, hold, after_init, after_shutdown}

mem-tail : {c d : Conn} {l : List Conn} → c ≢ d → Mem c (d ∷ l) → Mem c l
mem-tail {c} {d} {l} other m =
    ∥∥₁_elim (eq-or-mem_of_mem-cons m) Mem-prop
      (λ k. elim k [ inl e ↦ absurd (other e) | inr t ↦ t ])

module _ {W : Type 0} (client : Client W) (laws : HandleLaws client) where
  -- The handles of a list are distinct, and each is open.
  pub record Owned (w : W) (conns : List Conn) : Type 0 where
    pub distinct : Nodup conns
    pub in_use : (c : Conn) → Mem c conns → laws.InUse w c

  Owned-Perm : {w : W} {l m : List Conn} → Perm l m → Owned w l → Owned w m
  Owned-Perm {w} {l} {m} p o = record {
    distinct = Perm.nodup p o.distinct;
    in_use = λ c k. o.in_use c ((Perm.mem_iff p).1 k);
  }

  Owned-close :
      (c : Conn) (w : W) (l : List Conn) → Owned w (c ∷ l) → Owned (client.mysql_close c w) l
  Owned-close c w l o =
      let (new, rest) = Nodup-cons.0 o.distinct in
      record {
        distinct = rest;
        in_use = λ d k.
            laws.close_keeps c d w (λ e. new (subst (λ x. Mem x l) (sym e) k))
              (o.in_use d (mem-cons_of_mem c k));
      }

  Owned-keeps :
      {v w : W} {l : List Conn}
      → ((d : Conn) → laws.InUse v d → laws.InUse w d)
      → Owned v l
      → Owned w l
  Owned-keeps keeps o = record { distinct = o.distinct; in_use = λ c m. keeps c (o.in_use c m) }

  Owned-opened :
      (c : Conn) (w : W) (l : List Conn)
      → (client.mysql_init w).0 ≡ some c
      → Owned w l
      → Owned (client.mysql_init w).1 (c ∷ l)
  Owned-opened c w l e o = record {
    distinct = Nodup-cons.1 (λ m. laws.init_fresh w c e (o.in_use c m), o.distinct);
    in_use = λ d m. elim (ℕ_discrete d c) [
      | yes same ↦ subst (laws.InUse (client.mysql_init w).1) (sym same) (laws.init_used w c e)
      | no other ↦ laws.init_keeps w d (o.in_use d (mem-tail other m))
    ];
  }

  Owned-create :
      (params : ConnectParams) (w : W) (l : List Conn)
      → Owned w l
      → Owned (create_connection client params w).1 (hold (create_connection client params w).0 l)
  unfolding create_connection
  Owned-create params w l o = elim (Option-cases (client.mysql_init w).0) [
    | inl e ↦ rw (create_connection, e) (Owned-keeps (laws.init_keeps w) o)
    | inr (c, e) ↦
        let w₁ = (client.mysql_init w).1 in
        let w₂ = (client.mysql_real_connect params c w₁).1 in
        let open_c : Owned w₂ (c ∷ l) =
          Owned-keeps (λ d u. laws.connect_keeps params c d w₁ u) (Owned-opened c w l e o) in
        elim (Bool-cases (client.mysql_real_connect params c w₁).0) [
          | inl t ↦ rw (create_connection, e, t) open_c
          | inr f ↦ rw (create_connection, e, f) (Owned-close c w₂ l open_c)
        ]
  ]

  Owned-close_all :
      (conns : List Conn) (w : W) (l : List Conn)
      → Owned w (conns ++ l)
      → Owned (close_all client conns w) l
  unfolding close_all
  Owned-close_all [] w l o = o
  Owned-close_all (c ∷ conns) w l o =
      Owned-close_all conns (client.mysql_close c w) l (Owned-close c w (conns ++ l) o)

  Owned-push :
      (c : Conn) (conns l : List Conn) {w : W}
      → Owned w (c ∷ (conns ++ l))
      → Owned w (push conns c ++ l)
  unfolding push
  Owned-push c conns l {w} o =
      subst (Owned w) (sym (append_assoc conns (c ∷ []) l))
        (Owned-Perm (Perm.symm (perm_middle conns l)) o)

  Owned-push_made :
      (made : Option Conn) (conns l : List Conn) {w : W}
      → Owned w (hold made (conns ++ l))
      → Owned w (push_made made conns ++ l)
  unfolding push_made
  Owned-push_made none conns l o = o
  Owned-push_made (some c) conns l o = Owned-push c conns l o

  Owned-fill :
      (n : ℕ) (params : ConnectParams) (conns : List Conn) (w : W) (l : List Conn)
      → Owned w (conns ++ l)
      → Owned (fill client n params conns w).1 ((fill client n params conns w).0 ++ l)
  unfolding fill
  Owned-fill zero params conns w l o = o
  Owned-fill (suc n) params conns w l o =
      Owned-fill n params (push_made (create_connection client params w).0 conns)
        (create_connection client params w).1 l
        (Owned-push_made (create_connection client params w).0 conns l
          (Owned-create params w (conns ++ l) o))

  -- `init` closes the idle connections of a pool that runs, and leaves those alone that are held.
  Owned-restart :
      (p : Pool) (w : W) (held : List Conn)
      → Owned w (p.idle ++ held)
      → Owned (restart client p w).1 ((restart client p w).0 ++ held)
  unfolding restart
  Owned-restart p w held o = elim (Bool-cases p.initialized) [
    | inl e ↦ simp (restart, e) (Owned-close_all p.idle w held o)
    | inr e ↦ simp (restart, e) o
  ]

  pub Owned-init :
      (params : ConnectParams) (n : ℤ) (p : Pool) (w : W) (held : List Conn)
      → Owned w (p.idle ++ held)
      → Owned (init client params n p w).1 ((init client params n p w).0.idle ++ held)
  unfolding init
  Owned-init params n p w held o =
      Owned-fill (rounds n) params (restart client p w).0 (restart client p w).1 held
        (Owned-restart p w held o)

  pub Owned-shutdown :
      (p : Pool) (w : W) (held : List Conn)
      → Owned w (p.idle ++ held)
      → Owned (shutdown client p w).1 ((shutdown client p w).0.idle ++ held)
  unfolding shutdown
  Owned-shutdown p w held o = Owned-close_all p.idle w held o

  -- What is held may as well stand behind the idle connections.
  Owned-hold :
      (made : Option Conn) (l held : List Conn) {w : W}
      → Owned w (hold made (l ++ held))
      → Owned w (l ++ hold made held)
  Owned-hold none l held o = o
  Owned-hold (some c) l held o = Owned-Perm (Perm.symm (perm_middle l held)) o

  pub Owned-acquire :
      (p q : Pool) (w v : W) (made : Option Conn) (held : List Conn)
      → Outcome client p w made q v
      → Owned w (p.idle ++ held)
      → Owned v (q.idle ++ hold made held)
  Owned-acquire p q w v made held (refused e) o = o
  Owned-acquire p q w v made held (alive c rest on h e) o =
      Owned-keeps (λ d u. laws.ping_keeps c d w u)
        (Owned-Perm (Perm.symm (perm_middle rest held)) (subst (λ l. Owned w (l ++ held)) h o))
  Owned-acquire p q w v made held (replaced c rest on h e) o = Owned-hold _ rest held (
      Owned-create p.params _ (rest ++ held) (
        Owned-close c (client.mysql_ping c w).1 (rest ++ held)
          (Owned-keeps (λ d u. laws.ping_keeps c d w u) (subst (λ l. Owned w (l ++ held)) h o))))

  pub Owned-release :
      (c : Conn) (p : Pool) (w : W) (front back : List Conn)
      → Owned w (p.idle ++ (front ++ c ∷ back))
      → Owned w ((release (some c) p).idle ++ (front ++ back))
  unfolding release
  Owned-release c p w front back o = Owned-push c p.idle (front ++ back) (
      Owned-Perm
        (Perm.trans (Perm.append_left p.idle (perm_middle front back))
          (perm_middle p.idle (front ++ back)))
        o)
