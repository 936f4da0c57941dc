-- ===== src/Pool/Closed.antt =====
-- The pool closes what it forgets.
use cpp_oj_vbcoding_teach.Prelude.{◌≡◌, ◌⊎◌, inl, inr, subst, List, [], ◌∷◌, true}
use mathlib.Core.Logic.{∥∥₁_elim}
use mathlib.Core.HLevel.{⊥_prop}
use mathlib.Core.List.{Mem, not-mem-nil, eq-or-mem_of_mem-cons}
use cpp_oj_vbcoding_teach.Pool.Mysql.{Client, HandleLaws, Conn}
use cpp_oj_vbcoding_teach.Pool.{Pool, close_all, restart, shutdown}

module _ {W : Type 0} (client : Client W) (laws : HandleLaws client) where
  close_all_only :
      (conns : List Conn) (w : W) (d : Conn)
      → laws.InUse (close_all client conns w) d
      → laws.InUse w d
  unfolding close_all
  close_all_only [] w d u = u
  close_all_only (c ∷ conns) w d u =
      (laws.close_only c d w (close_all_only conns (client.mysql_close c w) d u)).1

  close_all_ends :
      (conns : List Conn) (w : W) (d : Conn)
      → Mem d conns
      → laws.InUse (close_all client conns w) d
      → ⊥
  unfolding close_all
  close_all_ends [] w d m u = not-mem-nil m
  close_all_ends (c ∷ conns) w d m u = ∥∥₁_elim (eq-or-mem_of_mem-cons m) ⊥_prop (λ k. elim k [
    | inl e ↦ (laws.close_only c d w (close_all_only conns (client.mysql_close c w) d u)).0 e
    | inr t ↦ close_all_ends conns (client.mysql_close c w) d t u
  ])

  restart_closes_all :
      (p : Pool) (w : W) → p.initialized ≡ true → (restart client p w).1 ≡ close_all client p.idle w
  unfolding restart
  restart_closes_all p w on = simp (restart, on)

  -- Shutting down, or starting a pool that runs, forgets the idle connections and closes every one of
  -- them: what is open afterwards was open before and was not idle.
  pub restart_closes :
      (p : Pool) (w : W) (d : Conn)
      → laws.InUse (shutdown client p w).1 d
        ⊎ ((p.initialized ≡ true) × laws.InUse (restart client p w).1 d)
      → laws.InUse w d × (Mem d p.idle → ⊥)
  unfolding shutdown
  restart_closes p w d open_after =
      (close_all_only p.idle w d left, λ m. close_all_ends p.idle w d m left)
    where
      left : laws.InUse (close_all client p.idle w) d
      left = elim open_after [
        | inl u ↦ u
        | inr (on, u) ↦ subst (λ v. laws.InUse v d) (restart_closes_all p w on) u
      ]
