-- ===== src/Mapper/Refinement/Answers.antt =====
-- The three ways in which the mappers use the answer of a query.
use cpp_oj_vbcoding_teach.Prelude.{
  ℕ, ◌≡◌, refl, ap, Bool, true, false, if◌then◌else◌, [], Option, none, some,
}
use cpp_oj_vbcoding_teach.Pool.Mysql.{Conn}
use cpp_oj_vbcoding_teach.Db.Mysql.{Server, Row}
use cpp_oj_vbcoding_teach.Db.Exec.{Db, ok, pure, lift, gets, call, then_on, ◌>>=◌}
use cpp_oj_vbcoding_teach.Db.Sql.{query}
use cpp_oj_vbcoding_teach.Db.Uses.{Idle}
use cpp_oj_vbcoding_teach.Db.Store.{Answer, Store, give, ServerLaws, Agrees}
use cpp_oj_vbcoding_teach.Db.Refines.{Implements, Reports, Implements-query}
use cpp_oj_vbcoding_teach.Mapper.Select.{first_row, all_rows, select_first, select_all}
use cpp_oj_vbcoding_teach.Mapper.Texts.{Statement, pieces, statement_plain}
use cpp_oj_vbcoding_teach.Mapper.Spec as Spec

module _ {W D : Type 0} {server : Server W} {store : Store D} (laws : ServerLaws server store) where
  -- A value that is read only where the query was done.
  read-Agrees :
      {A : Type 0} (b : Bool) (o : Option A) (missing : A) (n : ℕ) (s : Db W) (d : D)
      → Idle n s
      → laws.holds d s.world
      → Agrees laws n s d
          (if b then lift o else pure missing)
          (λ d'. (if b then o else some missing, d'))
  unfolding lift pure
  read-Agrees true none missing n s d i held = (refl, held, i)
  read-Agrees true (some a) missing n s d i held = (refl, held, i)
  read-Agrees false o missing n s d i held = (refl, held, i)

  pub select_first-Implements :
      {k : ℕ} {A : Type 0} (read : Row → Option A) (missing : A) (c : Conn) (statement : Statement)
      → Implements laws k
          (select_first read server c (pieces statement) missing)
          (Spec.first store read missing statement)
  unfolding select_first Spec.first gets ◌>>=◌ then_on
  select_first-Implements read missing c statement =
      Implements-query laws c (pieces statement) _ _ (statement_plain statement)
        (λ answer n s d h i held reports.
          rw reports.rows
            (read-Agrees answer.done (first_row read missing answer.rows) missing n s d i held))

  pub select_all-Implements :
      {k : ℕ} {A : Type 0} (read : Row → Option A) (c : Conn) (statement : Statement)
      → Implements laws k
          (select_all read server c (pieces statement))
          (Spec.all store read statement)
  unfolding select_all Spec.all gets ◌>>=◌ then_on
  select_all-Implements read c statement =
      Implements-query laws c (pieces statement) _ _ (statement_plain statement)
        (λ answer n s d h i held reports.
          rw reports.rows (read-Agrees answer.done (all_rows read answer.rows) [] n s d i held))

  -- What the library tells where the query was done.
  told-Agrees :
      {A : Type 0} (b : Bool) (f : W → A) (a failed : A) (n : ℕ) (s : Db W) (d : D)
      → Idle n s
      → laws.holds d s.world
      → f s.world ≡ a
      → Agrees laws n s d (if b then gets f else pure failed) (give (if b then a else failed))
  unfolding gets pure give
  told-Agrees true f a failed n s d i held e = (ap (λ x. ok x) e, held, i)
  told-Agrees false f a failed n s d i held e = (refl, held, i)

  pub told-Implements :
      {k : ℕ} {A : Type 0} (f : W → A) (g : Answer → A) (failed : A) (c : Conn)
      (statement : Statement)
      → ((w : W) (answer : Answer) → Reports laws c w answer → f w ≡ g answer)
      → Implements laws k
          (query server c (pieces statement) >>= λ done. if done then gets f else pure failed)
          (Spec.told store g failed statement)
  unfolding Spec.told
  told-Implements f g failed c statement same =
      Implements-query laws c (pieces statement) _ _ (statement_plain statement)
        (λ answer n s d h i held reports.
          told-Agrees answer.done f (g answer) failed n s d i held (same s.world answer reports))

  done-Agrees :
      (b : Bool) (n : ℕ) (s : Db W) (d : D)
      → Idle n s
      → laws.holds d s.world
      → Agrees laws n s d (pure b) (give (if b then true else false))
  unfolding pure give
  done-Agrees true n s d i held = (refl, held, i)
  done-Agrees false n s d i held = (refl, held, i)

  pub query-Implements :
      {k : ℕ} (c : Conn) (statement : Statement)
      → Implements laws k
          (query server c (pieces statement))
          (Spec.told store (λ answer. true) false statement)
  unfolding Spec.told query call ◌>>=◌ then_on pure
  query-Implements c statement =
      Implements-query laws c (pieces statement) (λ done. pure done) _ (statement_plain statement)
        (λ answer n s d h i held reports. done-Agrees answer.done n s d i held)
