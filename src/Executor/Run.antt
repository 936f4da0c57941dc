-- ===== src/Executor/Run.antt =====
-- `runTestCase` of src/service/executor_service.cc: one run of the compiled program.
pub mod Polling
pub mod Outcome
use cpp_oj_vbcoding_teach.Prelude.{
  ℕ, zero, suc, ◌+◌, ◌*◌, Bool, true, false, ◌&&◌, ◌||◌, not, List, [], ◌∷◌, ◌++◌, Bytes, codes,
  Option, none, some, leb, ◌==◌, if◌then◌else◌, decimal,
}
use cpp_oj_vbcoding_teach.Prelude.Int.{ℤ}
use cpp_oj_vbcoding_teach.Executor.Types.{
  Status, unset, ac, wa, tle, re, TestCaseResult, ExitStatus, exited, signaled, stopped,
}
use cpp_oj_vbcoding_teach.Executor.Output.{read_all, end_line, same_output}

-- What `waitpid(pid, &status, WNOHANG)` answers: an error, a status, or "still running", in which
-- case the clock shows this many milliseconds since the start.
pub data Poll : Type 0 where
  failed : Poll
  ended : ExitStatus → Poll
  running : ℕ → Poll

-- What the system answers during one run: both pipes were made, the fork succeeded, whether the blocking
-- write of an input to the pipe returns (a process that does not read lets it wait for ever where the
-- input is larger than the pipe), the polls in order, what the reads of the output pipe deliver after the
-- process has ended, and whether they come to the end of the output (a process that it left behind can
-- keep the pipe open).
pub record Child : Type 0 where
  pub pipes_made : Bool
  pub forked : Bool
  pub poll : ℕ → Poll
  pub chunks : List Bytes
  pub write_returns : Bytes → Bool
  pub reads_return : Bool

-- How the `while (true)` loop is left.
pub data Waited : Type 0 where
  wait_error : Waited
  finished : ExitStatus → Waited
  timed_out : Waited

-- What one round of the loop does with a poll: leave the loop, or sleep and go on (`none`).
unfoldable pub settle : ℕ → Poll → Option Waited
settle timeout_sec failed = some wait_error
settle timeout_sec (ended status) = some (finished status)
settle timeout_sec (running elapsed) =
    if leb (timeout_sec * 1000) elapsed then some timed_out else none

-- The loop from poll i on; `none` means that the fuel ran out while the process was running.
unfoldable pub poll_loop : ℕ → ℕ → (ℕ → Poll) → ℕ → Option Waited
poll_loop zero timeout_sec poll i = none
poll_loop (suc fuel) timeout_sec poll i =
    let again = poll_loop fuel timeout_sec poll (i + 1) in
    elim (settle timeout_sec (poll i)) [ some w ↦ some w | none ↦ again ]

-- SIGXCPU, SIGALRM and SIGSEGV on Linux.
abbrev sigxcpu : ℕ
sigxcpu = 24

abbrev sigalrm : ℕ
sigalrm = 14

abbrev sigsegv : ℕ
sigsegv = 11

module _ (result : TestCaseResult) where
  -- The last step of `runTestCase`: the comparison.
  unfoldable pub judge_output : TestCaseResult
  judge_output =
      if same_output result.actual result.expected
      then record result { status = ac }
      else record result { status = wa }

  -- What `runTestCase` makes of the wait status, the output being known.
  unfoldable pub judge_exit : ExitStatus → TestCaseResult
  unfolding judge_output
  judge_exit (exited code) =
      if not (code == 0)
      then record result {
        status = re;
        error = codes "Runtime Error (exit code " ++ (decimal code ++ codes ")");
      }
      else judge_output
  judge_exit (signaled sig) =
      if sig == sigxcpu || sig == sigalrm
      then record result { status = tle; error = codes "Time Limit Exceeded" }
      else if sig == sigsegv
      then record result { status = re; error = codes "Segmentation Fault" }
      else record result { status = re; error = codes "Killed by signal " ++ decimal sig }
  judge_exit stopped = judge_output

-- `finished` is true wherever the loop ends by `break`, so its test behind the loop is not taken.
unfoldable pub judge_wait : TestCaseResult → ℕ → List Bytes → Waited → TestCaseResult
judge_wait result timeout_sec chunks wait_error = record result {
  status = re;
  error = codes "waitpid error";
}
judge_wait result timeout_sec chunks timed_out = record result {
  status = tle;
  error = codes "Time Limit Exceeded (" ++ (decimal timeout_sec ++ codes "s)");
}
judge_wait result timeout_sec chunks (finished status) =
    judge_exit (record result { actual = end_line (read_all chunks) }) status

unfoldable pub new_result : Bytes → Bytes → ℤ → TestCaseResult
new_result input expected position = record {
  position = position;
  status = unset;
  input = input;
  expected = expected;
  actual = [];
  error = [];
}

-- `readAll` is called only behind a process that has ended; `none` where a read blocks for ever.
unfoldable pub behind_loop : Child → TestCaseResult → ℕ → Waited → Option TestCaseResult
behind_loop child result timeout_sec wait_error =
    some (judge_wait result timeout_sec child.chunks wait_error)
behind_loop child result timeout_sec timed_out =
    some (judge_wait result timeout_sec child.chunks timed_out)
behind_loop child result timeout_sec (finished status) =
    if child.reads_return
    then some (judge_wait result timeout_sec child.chunks (finished status))
    else none

-- The polls that the time limit allows: a round sleeps for 10 milliseconds.
abbrev pub poll_rounds : ℕ → ℕ
poll_rounds timeout_sec = timeout_sec * 100 + 1

-- `none` where the call never returns.
unfoldable pub run_test_case : Child → Bytes → Bytes → ℤ → ℕ → Option TestCaseResult
run_test_case child input expected position timeout_sec =
    let result = new_result input expected position in
    let waited = poll_loop (poll_rounds timeout_sec) timeout_sec child.poll 0 in
    if not child.pipes_made
    then some (record result { status = re; error = codes "Failed to create pipes" })
    else if not child.forked
    then some (record result { status = re; error = codes "Fork failed" })
    else if not (child.write_returns input)
    then none
    else elim waited [ none ↦ none | some w ↦ behind_loop child result timeout_sec w ]
