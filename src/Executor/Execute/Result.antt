-- ===== src/Executor/Execute/Result.antt =====
-- What `execute` returns.
use cpp_oj_vbcoding_teach.Prelude.{
  ℕ, ◌≡◌, refl, subst, ◌⊎◌, inl, inr, Bool, true, false, not, ◌&&◌, List, [], Bytes, codes, Option,
  some, length, All, Bool-cases,
}
use native.Mathlib.Nat.{zero-add}
use cpp_oj_vbcoding_teach.Prelude.Int.{ℤ, is_zero}
use cpp_oj_vbcoding_teach.Model.{TestCase, Problem}
use cpp_oj_vbcoding_teach.Db.Mysql.{Server}
use cpp_oj_vbcoding_teach.Db.Exec.{Db, Result, ok, threw, asleep, pure, then_on, ◌>>=◌}
use cpp_oj_vbcoding_teach.Mapper.Problems as Problems
use cpp_oj_vbcoding_teach.Executor.Types.{ac, TestCaseResult, ExecutionResult}
use cpp_oj_vbcoding_teach.Executor.Output.{is_empty}
use cpp_oj_vbcoding_teach.Executor.Verdict.{accepted, final_status, final_status_lem, IsAc, Fails}
use cpp_oj_vbcoding_teach.Executor.Files.{
  FileSystem, remove, rmdir, make_temp_dir, write_file, compile,
}
use cpp_oj_vbcoding_teach.Executor.Files.Success.{
  compiles, is_complete, names_dir, compile-compiles, write_file-is_complete,
  make_temp_dir-names_dir,
}
use cpp_oj_vbcoding_teach.Executor.Execute.{
  System, compile_failure, judged, no_cases, src_path, bin_path, clean_up, judge, judge_in,
  compile_blocks, block, execute_found, execute,
}
use cpp_oj_vbcoding_teach.Executor.Execute.Cases.{
  Answers, length-Answers, Answers-IsCaseStatus, AllRespond, run_cases_total, NotRun, Judged,
}

-- The compiler and the runs of the cases come to their ends.
abbrev pub Ends : System → Bytes → List TestCase → Type 0
Ends system code tests =
    (compile_blocks (system.compiler code) ≡ false) × AllRespond (system.child code) 0 tests

module _ (system : System) (code : Bytes) where
  -- What a stage returns: every case is run if the stages from it on succeed, and none otherwise.
  abbrev Returns : Bool → List TestCase → Option (ExecutionResult × FileSystem) → Type 0
  Returns ready tests out =
      (r : ExecutionResult) × (fs' : FileSystem) × (out ≡ some (r, fs'))
      × (((ready ≡ true) × Judged tests r) ⊎ ((ready ≡ false) × NotRun r))

  judged-Judged :
      (tests : List TestCase) (rs : List TestCaseResult)
      → Answers tests rs
      → Judged tests (judged rs (accepted rs) (length tests))
  unfolding judged
  judged-Judged tests rs answers = (
    answers,
    refl,
    refl,
    subst
        (λ (n : ℕ).
          (All IsAc rs × (final_status rs (accepted rs) n ≡ ac))
          ⊎ Fails rs (final_status rs (accepted rs) n))
        (length-Answers tests rs answers)
        (final_status_lem rs (Answers-IsCaseStatus tests rs answers)),
  )

  compile_failure-NotRun : (text : Bytes) → NotRun (compile_failure text)
  unfolding compile_failure
  compile_failure-NotRun text = (refl, refl, refl, refl)

  judge-Returns :
      (tests : List TestCase) (temp_dir : Bytes) (fs : FileSystem)
      → Ends system code tests
      → Returns (compiles (system.compiler code)) tests (judge system code tests temp_dir fs)
  unfolding judge
  judge-Returns tests temp_dir fs (ends, respond) =
      let called = compile (system.compiler code) (bin_path system code temp_dir) fs in
      let ok = compile-compiles (system.compiler code) (bin_path system code temp_dir) fs in
      elim (Bool-cases (compiles (system.compiler code))) [
        | inr e ↦ (
          compile_failure called.1,
          clean_up system code temp_dir called.2,
          rw (judge, ends, ok, e),
          inr (e, compile_failure-NotRun called.1),
        )
        | inl e ↦
            let (rs, ran, answers) = run_cases_total (system.child code) 0 tests [] 0 respond in
            (
              judged rs (accepted rs) (length tests),
              clean_up system code temp_dir called.2,
              rw (judge, ends, ok, e, ran, zero-add),
              inl (e, judged-Judged tests rs answers),
            )
      ]

  judge_in-Returns :
      (tests : List TestCase) (temp_dir : Bytes) (fs : FileSystem)
      → Ends system code tests
      → Returns
          (not (is_empty temp_dir) && (is_complete system.write && compiles (system.compiler code)))
          tests
          (judge_in system code tests temp_dir fs)
  unfolding judge_in
  judge_in-Returns tests temp_dir fs respond =
      let written = write_file system.write (src_path system code temp_dir) fs in
      let ok = write_file-is_complete system.write (src_path system code temp_dir) fs in
      elim (Bool-cases (is_empty temp_dir)) [
        | inl e ↦ (
          compile_failure (codes "Failed to create temp directory"),
          fs,
          rw e,
          inr (rw e, compile_failure-NotRun _),
        )
        | inr named ↦ elim (Bool-cases (is_complete system.write)) [
          | inr e ↦ (
            compile_failure (codes "Failed to write source file"),
            rmdir temp_dir (remove (src_path system code temp_dir) written.1),
            rw (judge_in, named, ok, e),
            inr (rw (named, e), compile_failure-NotRun _),
          )
          | inl e ↦ rw (judge_in, named, ok, e) (judge-Returns tests temp_dir written.1 respond)
        ]
      ]

-- Every stage before the runs succeeds: the problem exists and has cases, the directory and the source
-- file are made, and the compiler exits with code 0.
abbrev pub ready : System → Bytes → Problem → Bool
ready system code problem =
    not (is_zero problem.id)
    && (not (no_cases problem.test_cases)
        && (names_dir system.temp_name
            && (is_complete system.write && compiles (system.compiler code))))

-- What `execute` makes of a problem: all its cases are run, or none.
abbrev pub Executed : System → Bytes → Problem → ExecutionResult → Type 0
Executed system code problem r =
    ((ready system code problem ≡ true) × Judged problem.test_cases r)
    ⊎ ((ready system code problem ≡ false) × NotRun r)

execute_found_total :
    (system : System) (code : Bytes) (problem : Problem) (fs : FileSystem)
    → Ends system code problem.test_cases
    → (r : ExecutionResult) × (fs' : FileSystem) × (execute_found system code fs problem
        ≡ some (r, fs'))
      × Executed system code problem r
unfolding execute_found
execute_found_total system code problem fs respond =
    let made = make_temp_dir system.temp_name fs in
    elim (Bool-cases (is_zero problem.id)) [
      | inl e ↦ (
        compile_failure (codes "Problem not found"),
        fs,
        rw e,
        inr (rw e, compile_failure-NotRun system code (codes "Problem not found")),
      )
      | inr known ↦ elim (Bool-cases (no_cases problem.test_cases)) [
        | inl e ↦ (
          compile_failure (codes "No test cases for this problem"),
          fs,
          rw (known, e),
          inr (
            rw (known, e),
            compile_failure-NotRun system code (codes "No test cases for this problem"),
          ),
        )
        | inr some_cases ↦
            rw (known, some_cases, ← make_temp_dir-names_dir system.temp_name fs)
              (judge_in-Returns system code problem.test_cases made.0 made.1 respond)
      ]
    ]

-- What `execute` comes to: what findById throws, it throws; where findById sleeps for good, it does too;
-- and where findById returns a problem, `execute` returns a result for it.
abbrev pub Comes :
    {W : Type 0}
    → System
    → Bytes
    → Result Problem × Db W
    → Result (ExecutionResult × FileSystem) × Db W
    → Type 0
Comes system code (ok problem, s) out =
    (r : ExecutionResult) × (fs' : FileSystem) × (out ≡ (ok (r, fs'), s))
    × Executed system code problem r
Comes system code (threw, s) out = out ≡ (threw, s)
Comes system code (asleep, s) out = out ≡ (asleep, s)

-- The compiler and the runs for the problem that was found come to their ends.
abbrev pub FoundRespond : {W : Type 0} → System → Bytes → Result Problem × Db W → Type 0
FoundRespond system code (ok problem, s) = Ends system code problem.test_cases
FoundRespond system code (threw, s) = Unit
FoundRespond system code (asleep, s) = Unit

execute_behind :
    {W : Type 0} (system : System) (code : Bytes) (fs : FileSystem) (found : Result Problem × Db W)
    → FoundRespond system code found
    → Comes system code found
        (then_on found.0 (λ problem. block (execute_found system code fs problem)) found.1)
unfolding then_on block pure
execute_behind system code fs (ok problem, s) respond =
    let (r, fs', e, executed) = execute_found_total system code problem fs respond in
    (r, fs', rw e refl, executed)
execute_behind system code fs (threw, s) respond = refl
execute_behind system code fs (asleep, s) respond = refl

-- If the compiler ends and the runs for the problem that is found come to their ends (the writes of the
-- inputs return, the clocks show ten milliseconds for every poll, and the outputs end), `execute` throws exactly where
-- ProblemMapper::findById throws and sleeps exactly where that sleeps; and where it returns a problem,
-- `execute` returns. If the problem exists and has cases, the directory and the source file are made and the
-- compiler exits with code 0, every case has its result, in order; `passed` counts the accepted ones and
-- `total` all; and the status is AC if all are, else the first RE or TLE, else WA. In every other case the
-- status is CE and no case has a result.
pub execute_total :
    {W : Type 0} (server : Server W) (system : System) (code : Bytes) (problem_id : ℤ)
    (fs : FileSystem) (s : Db W)
    → FoundRespond system code (Problems.find_by_id server problem_id s)
    → Comes system code
        (Problems.find_by_id server problem_id s)
        (execute system code server problem_id fs s)
unfolding execute ◌>>=◌
execute_total server system code problem_id fs s respond =
    execute_behind system code fs (Problems.find_by_id server problem_id s) respond
