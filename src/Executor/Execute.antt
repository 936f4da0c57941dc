-- ===== src/Executor/Execute.antt =====
-- `ExecutorService::execute` of src/service/executor_service.cc. The answers of the
-- operating system are an argument.
pub mod Cases
pub mod Result
pub mod Clean
use cpp_oj_vbcoding_teach.Prelude.{
  ℕ, ◌+◌, Bool, true, false, not, ◌&&◌, List, [], ◌∷◌, ◌++◌, Bytes, codes, Option, none, some,
  if◌then◌else◌, length,
}
use cpp_oj_vbcoding_teach.Prelude.Int.{ℤ, is_zero}
use cpp_oj_vbcoding_teach.Model.{TestCase, Problem}
use cpp_oj_vbcoding_teach.Executor.Types.{
  Status, ce, TestCaseResult, ExecutionResult, new_execution,
}
use cpp_oj_vbcoding_teach.Db.Mysql.{Server}
use cpp_oj_vbcoding_teach.Db.Exec.{Exec, asleep, pure, ◌>>=◌}
use cpp_oj_vbcoding_teach.Mapper.Problems as Problems
use cpp_oj_vbcoding_teach.Executor.Output.{is_empty}
use cpp_oj_vbcoding_teach.Executor.Run.{Child, run_test_case}
use cpp_oj_vbcoding_teach.Executor.Verdict.{count_pass, final_status}
use cpp_oj_vbcoding_teach.Executor.Files.{
  FileSystem, remove, rmdir, make_temp_dir, Write, write_file, Compiler, compile,
}

abbrev pub k_default_timeout_sec : ℕ
k_default_timeout_sec = 5

-- What the operating system answers during one call; what the compiler and the runs of the program
-- do depends on the source text.
pub record System : Type 0 where
  pub temp_name : Option Bytes
  pub write : Write
  pub compiler : Bytes → Compiler
  pub child : Bytes → ℕ → Child

-- The loop over the cases, from case i on: the results and `passed`.
unfoldable pub run_cases :
    (ℕ → Child) → ℕ → List TestCase → List TestCaseResult → ℕ → Option (List TestCaseResult × ℕ)
run_cases child i [] results passed = some (results, passed)
run_cases child i (tc ∷ tcs) results passed =
    elim (run_test_case (child i) tc.input tc.expected tc.position k_default_timeout_sec) [
      | none ↦ none
      | some r ↦ run_cases child (i + 1) tcs (results ++ r ∷ []) (count_pass passed r)
    ]

unfoldable pub compile_failure : Bytes → ExecutionResult
compile_failure text = record new_execution { status = ce; compile_error = text }

-- The result when the cases were run.
unfoldable pub judged : List TestCaseResult → ℕ → ℕ → ExecutionResult
judged results passed total = record new_execution {
  status = final_status results passed total;
  results = results;
  passed = passed;
  total = total;
}

unfoldable pub no_cases : List TestCase → Bool
no_cases [] = true
no_cases (tc ∷ tcs) = false

-- The reads of the compiler's output and the wait for it block for ever where it does not end.
abbrev pub compile_blocks : Compiler → Bool
compile_blocks compiler = compiler.pipe_made && (compiler.forked && not compiler.ends)

-- A call that returns, or else blocks for ever.
unfoldable pub block : {W A : Type 0} → Option A → Exec W A
block none s = (asleep, s)
block (some a) s = pure a s

module _ (system : System) (code : Bytes) where
  abbrev pub src_path : Bytes → Bytes
  src_path temp_dir = temp_dir ++ codes "/solution.cpp"

  abbrev pub bin_path : Bytes → Bytes
  bin_path temp_dir = temp_dir ++ codes "/solution"

  -- The three calls at the end of `execute`.
  unfoldable pub clean_up : Bytes → FileSystem → FileSystem
  clean_up temp_dir fs = rmdir temp_dir (remove (bin_path temp_dir) (remove (src_path temp_dir) fs))

  -- From the compilation on.
  unfoldable pub judge : List TestCase → Bytes → FileSystem → Option (ExecutionResult × FileSystem)
  judge tests temp_dir fs =
      let (ok, compile_error, fs') = compile (system.compiler code) (bin_path temp_dir) fs in
      let ran = run_cases (system.child code) 0 tests [] 0 in
      if compile_blocks (system.compiler code)
      then none
      else if not ok
      then some (compile_failure compile_error, clean_up temp_dir fs')
      else elim ran [
        | none ↦ none
        | some (results, passed) ↦
            some (judged results passed (length tests), clean_up temp_dir fs')
      ]

  -- From the temporary directory on.
  unfoldable pub judge_in :
      List TestCase → Bytes → FileSystem → Option (ExecutionResult × FileSystem)
  judge_in tests temp_dir fs =
      let (written, fs') = write_file system.write (src_path temp_dir) fs in
      if is_empty temp_dir
      then some (compile_failure (codes "Failed to create temp directory"), fs)
      else if not written
      then some (
        compile_failure (codes "Failed to write source file"),
        rmdir temp_dir (remove (src_path temp_dir) fs'),
      )
      else judge tests temp_dir fs'

  -- From the problem on; `none` where a call blocks for ever.
  unfoldable pub execute_found : FileSystem → Problem → Option (ExecutionResult × FileSystem)
  execute_found fs problem =
      let (temp_dir, fs') = make_temp_dir system.temp_name fs in
      if is_zero problem.id
      then some (compile_failure (codes "Problem not found"), fs)
      else if no_cases problem.test_cases
      then some (compile_failure (codes "No test cases for this problem"), fs)
      else judge_in problem.test_cases temp_dir fs'

  module _ {W : Type 0} (server : Server W) where
    unfoldable pub execute : ℤ → FileSystem → Exec W (ExecutionResult × FileSystem)
    execute problem_id fs =
        Problems.find_by_id server problem_id >>= λ problem. block (execute_found fs problem)
