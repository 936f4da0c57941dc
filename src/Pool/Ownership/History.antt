-- ===== src/Pool/Ownership/History.antt =====
-- The ownership of connections over a history of the pool.
use cpp_oj_vbcoding_teach.Prelude.{subst, ◌++◌}
use mathlib.Core.List.{Nodup-nil, not-mem-nil}
use cpp_oj_vbcoding_teach.Pool.Mysql.{Client, HandleLaws}
use cpp_oj_vbcoding_teach.Pool.Acquire.{returned}
use cpp_oj_vbcoding_teach.Pool.Step.{
  System, Reach, fresh, opens, uses, closes, Use, acquires, waits, stirs, releases,
}
use cpp_oj_vbcoding_teach.Pool.Ownership.{
  Owned, Owned-init, Owned-shutdown, Owned-acquire, Owned-release,
}

module _ {W : Type 0} (client : Client W) (laws : HandleLaws client) where
  Owned-Use :
      (s t : System W)
      → Use client s t
      → Owned client laws s.world (s.pool.idle ++ s.held)
      → Owned client laws t.world (t.pool.idle ++ t.held)
  Owned-Use s _ (acquires made q v h) o =
      Owned-acquire client laws s.pool q s.world v made s.held (returned client h) o
  Owned-Use s _ (waits h) o = o
  Owned-Use s _ (stirs n h) o = o
  Owned-Use s _ (releases c front back h) o =
      Owned-release client laws c s.pool s.world front back
        (subst (λ l. Owned client laws s.world (s.pool.idle ++ l)) h o)

  -- Whatever order the threads' calls come in, with the pool started and shut down at any time, the
  -- connections that are idle or held are distinct, and each of them is open: no two threads hold one
  -- connection, none that is held is idle as well, and none is used after it was closed.
  pub Reach-Owned :
      (w : W) (s : System W) → Reach client w s → Owned client laws s.world (s.pool.idle ++ s.held)
  Reach-Owned w _ fresh = record { distinct = Nodup-nil; in_use = λ c m. absurd (not-mem-nil m) }
  Reach-Owned w _ (opens {s} params n r) =
      Owned-init client laws params n s.pool s.world s.held (Reach-Owned w s r)
  Reach-Owned w _ (uses {s} {t} r u) = Owned-Use s t u (Reach-Owned w s r)
  Reach-Owned w _ (closes {s} r) =
      Owned-shutdown client laws s.pool s.world s.held (Reach-Owned w s r)
