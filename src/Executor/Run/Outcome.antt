-- ===== src/Executor/Run/Outcome.antt =====
-- The result of one run on every path.
use cpp_oj_vbcoding_teach.Prelude.{
  ℕ, ◌≡◌, ◌≢◌, refl, sym, ◌∙◌, ◌⊎◌, inl, inr, ◌↔◌, List, true, false, Bytes, [], codes, none, some,
  arith, Option-cases, Bool-cases, ap, subst,
}
use cpp_oj_vbcoding_teach.Prelude.Int.{ℤ}
use cpp_oj_vbcoding_teach.Executor.Types.{
  ac, wa, tle, re, TestCaseResult, ExitStatus, exited, signaled, stopped,
}
use cpp_oj_vbcoding_teach.Executor.Output.{read_all, end_line, same_output}
use cpp_oj_vbcoding_teach.Executor.Output.Trim.{
  AgreeUpToBlanks, same_output_iff, same_output-end_line,
}
use cpp_oj_vbcoding_teach.Executor.Run.{
  Child, Waited, wait_error, finished, timed_out, poll_loop, poll_rounds, judge_output, judge_exit,
  judge_wait, behind_loop, new_result, run_test_case,
}
use cpp_oj_vbcoding_teach.Executor.Run.Polling.{IsPaced, poll_loop_ends}

-- A verdict that a run can have, with an error text exactly when the run failed.
abbrev pub IsVerdict : TestCaseResult → Type 0
IsVerdict r =
    (((r.status ≡ ac) ⊎ (r.status ≡ wa)) × (r.error ≡ []))
    ⊎ (((r.status ≡ re) ⊎ (r.status ≡ tle)) × (r.error ≢ []))

judge_output-IsVerdict : (r : TestCaseResult) → r.error ≡ [] → IsVerdict (judge_output r)
unfolding judge_output
judge_output-IsVerdict r h = ground arith

judge_exit-IsVerdict :
    (r : TestCaseResult) (e : ExitStatus) → r.error ≡ [] → IsVerdict (judge_exit r e)
unfolding judge_exit
judge_exit-IsVerdict r (exited code) h = ground (arith)
judge_exit-IsVerdict r (signaled sig) h = ground arith
judge_exit-IsVerdict r stopped h = judge_output-IsVerdict r h

judge_wait-IsVerdict :
    (input expected : Bytes) (position : ℤ) (timeout_sec : ℕ) (chunks : List Bytes) (w : Waited)
    → IsVerdict (judge_wait (new_result input expected position) timeout_sec chunks w)
unfolding judge_wait new_result
judge_wait-IsVerdict input expected position timeout_sec chunks wait_error = inr (inl refl, λ e. cc)
judge_wait-IsVerdict input expected position timeout_sec chunks timed_out = inr (inr refl, λ e. cc)
judge_wait-IsVerdict input expected position timeout_sec chunks (finished e) =
    judge_exit-IsVerdict _ e refl

-- The fields that say which case was run.
abbrev pub IsFor : Bytes → Bytes → ℤ → TestCaseResult → Type 0
IsFor input expected position r =
    (r.input ≡ input) × (r.expected ≡ expected) × (r.position ≡ position)

judge_exit-IsFor :
    (r : TestCaseResult) (e : ExitStatus) → IsFor r.input r.expected r.position (judge_exit r e)
unfolding judge_exit
judge_exit-IsFor r (exited code) = ground arith
judge_exit-IsFor r (signaled sig) = ground arith
judge_exit-IsFor r stopped = ground arith

judge_wait-IsFor :
    (input expected : Bytes) (position : ℤ) (timeout_sec : ℕ) (chunks : List Bytes) (w : Waited)
    → IsFor input expected position
        (judge_wait (new_result input expected position) timeout_sec chunks w)
unfolding judge_wait new_result
judge_wait-IsFor input expected position timeout_sec chunks wait_error = (refl, refl, refl)
judge_wait-IsFor input expected position timeout_sec chunks timed_out = (refl, refl, refl)
judge_wait-IsFor input expected position timeout_sec chunks (finished e) = judge_exit-IsFor _ e

-- What `runTestCase` waits for comes: the pipe takes the whole input, the clock shows ten milliseconds for
-- every poll, and the output comes to its end.
pub record Responds (child : Child) (input : Bytes) : Type 0 where
  pub writes : child.write_returns input ≡ true
  pub paced : IsPaced child.poll
  pub reads : child.reads_return ≡ true

behind_loop_ends :
    (child : Child) (result : TestCaseResult) (timeout_sec : ℕ) (w : Waited)
    → child.reads_return ≡ true
    → behind_loop child result timeout_sec w ≡ some (judge_wait result timeout_sec child.chunks w)
unfolding behind_loop
behind_loop_ends child result timeout_sec wait_error reads = refl
behind_loop_ends child result timeout_sec timed_out reads = refl
behind_loop_ends child result timeout_sec (finished status) reads = rw reads refl

behind_loop_only :
    (child : Child) (result r : TestCaseResult) (timeout_sec : ℕ) (w : Waited)
    → behind_loop child result timeout_sec w ≡ some r
    → r ≡ judge_wait result timeout_sec child.chunks w
unfolding behind_loop
behind_loop_only child result r timeout_sec wait_error h = cc
behind_loop_only child result r timeout_sec timed_out h = cc
behind_loop_only child result r timeout_sec (finished status) h = ground arith

pub run_test_case_returns :
    (child : Child) (input expected : Bytes) (position : ℤ) (timeout_sec : ℕ)
    → Responds child input
    → (r : TestCaseResult) × (run_test_case child input expected position timeout_sec ≡ some r)
      × IsVerdict r
      × IsFor input expected position r
unfolding run_test_case new_result
run_test_case_returns child input expected position timeout_sec h =
    elim (Bool-cases child.pipes_made) [
      | inr e ↦ (
        record (new_result input expected position) {
          status = re;
          error = codes "Failed to create pipes";
        },
        rw e,
        inr (inl refl, λ k. cc),
        (refl, refl, refl),
      )
      | inl made ↦ elim (Bool-cases child.forked) [
        | inr e ↦ (
          record (new_result input expected position) { status = re; error = codes "Fork failed" },
          rw (made, e),
          inr (inl refl, λ k. cc),
          (refl, refl, refl),
        )
        | inl forked ↦
            let (w, e) = poll_loop_ends timeout_sec child.poll h.paced in
            (
              judge_wait (new_result input expected position) timeout_sec child.chunks w,
              rw (made, forked, h.writes, e)
                  (behind_loop_ends child (new_result input expected position) timeout_sec w
                    h.reads),
              judge_wait-IsVerdict input expected position timeout_sec child.chunks w,
              judge_wait-IsFor input expected position timeout_sec child.chunks w,
            )
      ]
    ]

-- If the write of the input to the pipe returns, the clock shows ten milliseconds for every poll and the
-- reads of the output come to its end, then `runTestCase` returns: the result is for the case that was
-- asked for, and its status is AC or WA with no error text, or RE or TLE with one. If the pipes and the
-- process are made and the write of the input does not return, `runTestCase` does not either.
pub run_test_case_total :
    (child : Child) (input expected : Bytes) (position : ℤ) (timeout_sec : ℕ)
    → (Responds child input
        → (r : TestCaseResult) × (run_test_case child input expected position timeout_sec ≡ some r)
          × IsVerdict r
          × IsFor input expected position r)
      × (child.pipes_made ≡ true
          → child.forked ≡ true
          → child.write_returns input ≡ false
          → run_test_case child input expected position timeout_sec ≡ none)
unfolding run_test_case
run_test_case_total child input expected position timeout_sec = (
  run_test_case_returns child input expected position timeout_sec,
  λ made forked blocked. rw (made, forked, blocked) refl,
)

-- The process ended by itself with success (or was reported as neither ended nor killed).
abbrev pub Succeeds : ExitStatus → Type 0
Succeeds (exited code) = code ≡ 0
Succeeds (signaled sig) = ⊥
Succeeds stopped = Unit

judge_output_ac :
    (r : TestCaseResult) → ((judge_output r).status ≡ ac) ↔ (same_output r.actual r.expected ≡ true)
unfolding judge_output
judge_output_ac r = ground arith

judge_exit_ac :
    (r : TestCaseResult) (e : ExitStatus)
    → ((judge_exit r e).status ≡ ac) ↔ (Succeeds e × (same_output r.actual r.expected ≡ true))
unfolding judge_exit
judge_exit_ac r (exited code) = ground arith
judge_exit_ac r (signaled sig) = ground arith
judge_exit_ac r stopped = ground arith

-- A wait that ended in success, with an output as expected up to blanks at the end.
abbrev pub WaitsWell : Waited → Bytes → Bytes → Type 0
WaitsWell wait_error actual expected = ⊥
WaitsWell timed_out actual expected = ⊥
WaitsWell (finished e) actual expected = Succeeds e × AgreeUpToBlanks actual expected

judge_wait_ac :
    (input expected : Bytes) (position : ℤ) (timeout_sec : ℕ) (chunks : List Bytes) (w : Waited)
    → ((judge_wait (new_result input expected position) timeout_sec chunks w).status ≡ ac)
      ↔ WaitsWell w (read_all chunks) expected
unfolding judge_wait new_result
judge_wait_ac input expected position timeout_sec chunks wait_error =
    (λ h. absurd (cc), λ h. absurd h)
judge_wait_ac input expected position timeout_sec chunks timed_out =
    (λ h. absurd (cc), λ h. absurd h)
judge_wait_ac input expected position timeout_sec chunks (finished e) =
    let exit =
      judge_exit_ac
        (record (new_result input expected position) { actual = end_line (read_all chunks) }) e in
    let agree = same_output_iff (read_all chunks) expected in
    let line = same_output-end_line (read_all chunks) expected in
    (
      λ h. let (good, same) = exit.0 h in (good, agree.0 (sym line ∙ same)),
      λ h. exit.1 (h.0, line ∙ agree.1 h.1),
    )

-- How an accepted run went.
abbrev pub RunsWell : Child → Bytes → ℕ → Type 0
RunsWell child expected timeout_sec =
    (child.pipes_made ≡ true)
    × (child.forked ≡ true)
    × (w : Waited) × (poll_loop (poll_rounds timeout_sec) timeout_sec child.poll 0 ≡ some w)
    × WaitsWell w (read_all child.chunks) expected

module _ (child : Child) (input expected : Bytes) (position : ℤ) (timeout_sec : ℕ)
    (r : TestCaseResult)
    (h : run_test_case child input expected position timeout_sec ≡ some r) where
  not_started : (child.pipes_made ≡ false) ⊎ (child.forked ≡ false) → r.status ≡ re
  unfolding run_test_case
  not_started (inl e) = ground arith
  not_started (inr e) = ground arith

  started :
      child.pipes_made ≡ true
      → child.forked ≡ true
      → (w : Waited) × (poll_loop (poll_rounds timeout_sec) timeout_sec child.poll 0 ≡ some w)
        × (r ≡ judge_wait (new_result input expected position) timeout_sec child.chunks w)
  unfolding run_test_case
  started made forked =
      elim (Option-cases (poll_loop (poll_rounds timeout_sec) timeout_sec child.poll 0)) [
        | inl e ↦ absurd (ground arith)
        | inr (w, e) ↦ (w, e, behind_loop_only child _ r timeout_sec w (returned w e))
      ]
    where
      returned :
          (w : Waited)
          → poll_loop (poll_rounds timeout_sec) timeout_sec child.poll 0 ≡ some w
          → behind_loop child (new_result input expected position) timeout_sec w ≡ some r
      returned w e = ground arith

-- A result is AC exactly when the pipes and the process were made, the polling loop ended with a
-- process that exited with code 0 (or was reported as neither exited nor killed), and what was read
-- of its output agrees with the expected text up to blanks at the end.
pub run_test_case_ac :
    (child : Child) (input expected : Bytes) (position : ℤ) (timeout_sec : ℕ) (r : TestCaseResult)
    → run_test_case child input expected position timeout_sec ≡ some r
    → (r.status ≡ ac) ↔ RunsWell child expected timeout_sec
run_test_case_ac child input expected position timeout_sec r h = (to, from)
  where
    waits :
        (w : Waited)
        → ((judge_wait (new_result input expected position) timeout_sec child.chunks w).status ≡ ac)
          ↔ WaitsWell w (read_all child.chunks) expected
    waits = judge_wait_ac input expected position timeout_sec child.chunks

    to : r.status ≡ ac → RunsWell child expected timeout_sec
    to good = elim (Bool-cases child.pipes_made) [
      | inr e ↦ absurd (cc (not_started child input expected position timeout_sec r h (inl e)))
      | inl made ↦ elim (Bool-cases child.forked) [
        | inr e ↦ absurd (cc (not_started child input expected position timeout_sec r h (inr e)))
        | inl forked ↦
            let (w, e, result) =
              started child input expected position timeout_sec r h made forked in
            (
              made,
              forked,
              w,
              e,
              (waits w).0 (sym (ap (λ (t : TestCaseResult). t.status) result) ∙ good),
            )
      ]
    ]

    from : RunsWell child expected timeout_sec → r.status ≡ ac
    from (made, forked, w, e, well) =
        let (w', e', result) = started child input expected position timeout_sec r h made forked in
        let same : w ≡ w' = cc in
        ap (λ (t : TestCaseResult). t.status) result
        ∙ (waits w').1
            (subst (λ (v : Waited). WaitsWell v (read_all child.chunks) expected) same well)
