-- ===== src/Executor/Descriptors.antt =====
-- The pipe ends that `compile` and `runTestCase` of src/service/executor_service.cc open and close in the
-- process of the server, and the limits that the child process sets.
use cpp_oj_vbcoding_teach.Prelude.{
  ℕ, ◌≡◌, ◌≢◌, refl, sym, ap, ◌∙◌, ◌==◌, Bool, true, false, if◌then◌else◌, List, [], ◌∷◌, Option,
  none, some, All, arith,
}
use cpp_oj_vbcoding_teach.Executor.Run.{Waited, wait_error, finished, timed_out}

-- `close(fd)`.
unfoldable pub close : ℕ → List ℕ → List ℕ
close fd [] = []
close fd (d ∷ fds) = let rest = close fd fds in if d == fd then rest else d ∷ rest

-- A pipe that was made: its end for reading and its end for writing.
pub record Pipe : Type 0 where
  pub read_end : ℕ
  pub write_end : ℕ

abbrev opened : Pipe → List ℕ → List ℕ
opened p fds = p.read_end ∷ p.write_end ∷ fds

abbrev close_both : Pipe → List ℕ → List ℕ
close_both p fds = close p.write_end (close p.read_end fds)

-- `compile`, by its pipe and whether the fork succeeded.
unfoldable pub compile_fds : Option Pipe → Bool → List ℕ → List ℕ
compile_fds none forked fds = fds
compile_fds (some p) forked fds =
    if forked
    then close p.read_end (close p.write_end (opened p fds))
    else close_both p (opened p fds)

-- Behind the fork: the ends of the child are closed, the input is written, and the output is read and
-- closed, whichever way the loop is left.
unfoldable pub wait_fds : Pipe → Pipe → Waited → List ℕ → List ℕ
wait_fds stdin_pipe stdout_pipe wait_error fds = close stdout_pipe.read_end fds
wait_fds stdin_pipe stdout_pipe timed_out fds = close stdout_pipe.read_end fds
wait_fds stdin_pipe stdout_pipe (finished status) fds = close stdout_pipe.read_end fds

-- `runTestCase`, by its pipes, whether the fork succeeded, and how the loop was left. The second pipe is
-- asked for only where the first one was made.
unfoldable pub run_fds : Option Pipe → Option Pipe → Bool → Waited → List ℕ → List ℕ
run_fds none stdout_pipe forked waited fds = fds
run_fds (some p) none forked waited fds = opened p fds
run_fds (some p) (some q) forked waited fds =
    if forked
    then wait_fds p q waited
        (close p.write_end (close q.write_end (close p.read_end (opened q (opened p fds)))))
    else close_both q (close_both p (opened q (opened p fds)))

-- What `pipe` promises: two ends that are not open and not one.
abbrev pub IsNew : ℕ → List ℕ → Type 0
IsNew fd fds = All (λ d. d ≢ fd) fds

pub record IsFreshPipe (p : Pipe) (fds : List ℕ) : Type 0 where
  pub two : p.read_end ≢ p.write_end
  pub read_new : IsNew p.read_end fds
  pub write_new : IsNew p.write_end fds

close-new : (fd : ℕ) (fds : List ℕ) → IsNew fd fds → close fd fds ≡ fds
unfolding close
close-new fd [] _ = refl
close-new fd (d ∷ fds) (n, h) = ground (arith, close-new fd fds h)

close_first : (fd : ℕ) (fds : List ℕ) → IsNew fd fds → close fd (fd ∷ fds) ≡ fds
unfolding close
close_first fd fds h = ground (arith, close-new fd fds h)

close_behind :
    (fd d : ℕ) (fds fds' : List ℕ) → d ≢ fd → close fd fds ≡ fds' → close fd (d ∷ fds) ≡ d ∷ fds'
unfolding close
close_behind fd d fds fds' n e = ground (arith, e)

compile_fds_kept :
    (p : Pipe) (fds : List ℕ) (forked : Bool)
    → IsFreshPipe p fds
    → compile_fds (some p) forked fds ≡ fds
unfolding compile_fds
compile_fds_kept p fds true h =
    ap (close p.read_end)
      (close_behind p.write_end p.read_end _ fds h.two (close_first p.write_end fds h.write_new))
    ∙ close_first p.read_end fds h.read_new
compile_fds_kept p fds false h =
    ap (close p.write_end)
      (close_first p.read_end (p.write_end ∷ fds) (λ e. h.two (sym e), h.read_new))
    ∙ close_first p.write_end fds h.write_new

wait_fds_closes :
    (p q : Pipe) (waited : Waited) (fds : List ℕ) → wait_fds p q waited fds ≡ close q.read_end fds
unfolding wait_fds
wait_fds_closes p q wait_error fds = refl
wait_fds_closes p q timed_out fds = refl
wait_fds_closes p q (finished status) fds = refl

-- The four ends, taken off one after the other.
module _ (p q : Pipe) (fds : List ℕ) (h : IsFreshPipe p fds)
    (k : IsFreshPipe q (opened p fds)) where
  closes_p_read :
      close p.read_end (opened q (opened p fds)) ≡ q.read_end ∷ q.write_end ∷ p.write_end ∷ fds
  closes_p_read =
      let (pr_qr, _) = k.read_new in
      let (pr_qw, _) = k.write_new in
      close_behind p.read_end q.read_end _ _ (λ e. pr_qr (sym e))
        (close_behind p.read_end q.write_end _ (p.write_end ∷ fds) (λ e. pr_qw (sym e))
          (close_first p.read_end (p.write_end ∷ fds) (λ e. h.two (sym e), h.read_new)))

  closes_q_write :
      close q.write_end (q.read_end ∷ q.write_end ∷ p.write_end ∷ fds)
      ≡ q.read_end ∷ p.write_end ∷ fds
  closes_q_write =
      close_behind q.write_end q.read_end _ _ k.two
        (close_first q.write_end (p.write_end ∷ fds) k.write_new.1)

  closes_p_write : close p.write_end (q.read_end ∷ p.write_end ∷ fds) ≡ q.read_end ∷ fds
  closes_p_write =
      let (_, (pw_qr, _)) = k.read_new in
      close_behind p.write_end q.read_end _ _ (λ e. pw_qr (sym e))
        (close_first p.write_end fds h.write_new)

  closes_q_read : close q.read_end (q.read_end ∷ fds) ≡ fds
  closes_q_read = close_first q.read_end fds k.read_new.1.1

  run_fds_forked : (waited : Waited) → run_fds (some p) (some q) true waited fds ≡ fds
  unfolding run_fds
  run_fds_forked waited =
      wait_fds_closes p q waited _
      ∙ ap (λ l. close q.read_end (close p.write_end (close q.write_end l))) closes_p_read
      ∙ ap (λ l. close q.read_end (close p.write_end l)) closes_q_write
      ∙ ap (close q.read_end) closes_p_write
      ∙ closes_q_read

  run_fds_failed : (waited : Waited) → run_fds (some p) (some q) false waited fds ≡ fds
  unfolding run_fds
  run_fds_failed waited =
      let (_, (pw_qr, _)) = k.read_new in
      let (_, (pw_qw, _)) = k.write_new in
      ap (λ l. close q.write_end (close q.read_end (close p.write_end l))) closes_p_read
      ∙ ap (λ l. close q.write_end (close q.read_end l))
          (close_behind p.write_end q.read_end _ _ (λ e. pw_qr (sym e))
            (close_behind p.write_end q.write_end _ fds (λ e. pw_qw (sym e))
              (close_first p.write_end fds h.write_new)))
      ∙ ap (close q.write_end)
          (close_first q.read_end (q.write_end ∷ fds) (λ e. k.two (sym e), k.read_new.1.1))
      ∙ close_first q.write_end fds k.write_new.1.1

run_fds_made :
    (p q : Pipe) (fds : List ℕ) (forked : Bool) (waited : Waited)
    → IsFreshPipe p fds
    → IsFreshPipe q (opened p fds)
    → run_fds (some p) (some q) forked waited fds ≡ fds
run_fds_made p q fds true waited h k = run_fds_forked p q fds h k waited
run_fds_made p q fds false waited h k = run_fds_failed p q fds h k waited

-- `compile`, and `runTestCase` where both of its pipes are made or the first is not, close every pipe end
-- that they opened, whether the fork succeeds and however the waiting ends. Where the second pipe of
-- `runTestCase` cannot be made, both ends of the first stay open.
pub descriptors_kept :
    (p q : Pipe) (fds : List ℕ) (forked : Bool) (waited : Waited)
    → IsFreshPipe p fds
    → IsFreshPipe q (opened p fds)
    → (compile_fds (some p) forked fds ≡ fds)
      × (run_fds (some p) (some q) forked waited fds ≡ fds)
      × (run_fds none (some q) forked waited fds ≡ fds)
      × (run_fds (some p) none forked waited fds ≡ p.read_end ∷ p.write_end ∷ fds)
unfolding run_fds
descriptors_kept p q fds forked waited h k =
    (compile_fds_kept p fds forked h, run_fds_made p q fds forked waited h k, refl, refl)
