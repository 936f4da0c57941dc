-- ===== src/Executor/Execute/Clean.antt =====
-- `execute` leaves no file behind.
use cpp_oj_vbcoding_teach.Prelude.{
  ◌≡◌, refl, ap, ◌∙◌, inl, inr, Bool, false, List, [], Bytes, codes, Option, none, some, arith,
  Bool-cases, Option-cases, str_eq, subst,
}
use cpp_oj_vbcoding_teach.Prelude.Int.{ℤ, is_zero}
use cpp_oj_vbcoding_teach.Model.{TestCase, Problem}
use cpp_oj_vbcoding_teach.Db.Mysql.{Server}
use cpp_oj_vbcoding_teach.Db.Exec.{Db, Result, ok, threw, asleep, pure, then_on, ◌>>=◌}
use cpp_oj_vbcoding_teach.Mapper.Problems as Problems
use cpp_oj_vbcoding_teach.Executor.Types.{ExecutionResult}
use cpp_oj_vbcoding_teach.Executor.Output.{is_empty}
use cpp_oj_vbcoding_teach.Executor.Files.{
  FileSystem, holds_file, create_file, remove, rmdir, make_temp_dir, write_file, compile,
}
use cpp_oj_vbcoding_teach.Executor.Files.Success.{
  compile-files, write_file-files, write_file_complete,
}
use cpp_oj_vbcoding_teach.Executor.Files.Cleanup.{
  made, rmdir-made, remove-created, remove-absent, remove-two,
}
use cpp_oj_vbcoding_teach.Executor.Execute.{
  System, run_cases, no_cases, src_path, bin_path, clean_up, judge, judge_in, compile_blocks, block,
  execute_found, execute,
}

-- The name that `mkdtemp` makes up is not empty, and no file lies under it.
abbrev pub IsFresh : Option Bytes → FileSystem → Type 0
IsFresh none fs = Unit
IsFresh (some name) fs = (is_empty name ≡ false) × (holds_file name fs.files ≡ false)

module _ (system : System) (code : Bytes) (dir : Bytes) (fs : FileSystem)
    (empty : holds_file dir fs.files ≡ false) where
  abbrev src : FileSystem
  src = create_file (src_path system code dir) (made dir fs)

  clean_up-src : clean_up system code dir src ≡ fs
  unfolding clean_up
  clean_up-src = rw (
    remove-created dir fs empty (codes "solution.cpp"),
    remove-absent dir fs empty (codes "solution"),
    rmdir-made dir fs,
  )

  clean_up-bin : clean_up system code dir (create_file (bin_path system code dir) src) ≡ fs
  unfolding clean_up str_eq
  clean_up-bin = rw (
    remove-two dir fs empty (codes "solution.cpp") (codes "solution") refl refl,
    rmdir-made dir fs,
  )

  judge_clean :
      (tests : List TestCase) (r : ExecutionResult) (fs' : FileSystem)
      → judge system code tests dir src ≡ some (r, fs')
      → fs' ≡ fs
  unfolding judge
  judge_clean tests r fs' h = files ∙ cleaned
    where
      called : Bool × Bytes × FileSystem
      called = compile (system.compiler code) (bin_path system code dir) src

      files : fs' ≡ clean_up system code dir called.2
      files = elim (Bool-cases (compile_blocks (system.compiler code))) [
        | inl blocked ↦ absurd (ground arith)
        | inr ends ↦ elim (Bool-cases called.0) [
          | inr e ↦ ground arith
          | inl e ↦ elim (Option-cases (run_cases (system.child code) 0 tests [] 0)) [
            | inl e' ↦ ground arith
            | inr ((results, passed), e') ↦ ground arith
          ]
        ]
      ]

      cleaned : clean_up system code dir called.2 ≡ fs
      cleaned = elim (compile-files (system.compiler code) (bin_path system code dir) src) [
        | inl e ↦ rw e clean_up-src
        | inr e ↦ rw e clean_up-bin
      ]

  clean-src : rmdir dir (remove (src_path system code dir) src) ≡ fs
  clean-src = rw (remove-created dir fs empty (codes "solution.cpp"), rmdir-made dir fs empty)

  clean-none : rmdir dir (remove (src_path system code dir) (made dir fs)) ≡ fs
  clean-none = rw (remove-absent dir fs empty (codes "solution.cpp"), rmdir-made dir fs empty)

  judge_in_clean :
      (tests : List TestCase) (r : ExecutionResult) (fs' : FileSystem)
      → is_empty dir ≡ false
      → judge_in system code tests dir (made dir fs) ≡ some (r, fs')
      → fs' ≡ fs
  unfolding judge_in
  judge_in_clean tests r fs' named h = elim (Bool-cases written.0) [
    | inl e ↦ judge_clean tests r fs' (
        subst (λ (g : FileSystem). judge system code tests dir g ≡ some (r, fs'))
          (write_file_complete system.write (src_path system code dir) (made dir fs) e)
          (ground arith))
    | inr e ↦ elim (write_file-files system.write (src_path system code dir) (made dir fs)) [
      | inl same ↦ removed e ∙ ap removing same ∙ clean-none
      | inr created ↦ removed e ∙ ap removing created ∙ clean-src
    ]
  ]
    where
      removing : FileSystem → FileSystem
      removing g = rmdir dir (remove (src_path system code dir) g)

      written : Bool × FileSystem
      written = write_file system.write (src_path system code dir) (made dir fs)

      removed : written.0 ≡ false → fs' ≡ removing written.1
      removed e = ground arith

execute_found_clean :
    (system : System) (code : Bytes) (problem : Problem) (fs fs' : FileSystem) (r : ExecutionResult)
    → IsFresh system.temp_name fs
    → execute_found system code fs problem ≡ some (r, fs')
    → fs' ≡ fs
unfolding execute_found judge_in make_temp_dir is_empty
execute_found_clean system code problem fs fs' r fresh h = elim (Bool-cases (is_zero problem.id)) [
  | inl e ↦ ground arith
  | inr known ↦ elim (Bool-cases (no_cases problem.test_cases)) [
    | inl e ↦ ground arith
    | inr some_cases ↦ go system.temp_name fresh (ground arith)
  ]
]
  where
    go :
        (name : Option Bytes)
        → IsFresh name fs
        → judge_in system code problem.test_cases
            (make_temp_dir name fs).0
            (make_temp_dir name fs).1
          ≡ some (r, fs')
        → fs' ≡ fs
    go none fresh' k = ground arith
    go (some name) (named, empty) k =
        judge_in_clean system code name fs empty problem.test_cases r fs' named k

block_returns :
    {W A : Type 0} (call : Option A) (a : A) (s s' : Db W)
    → block call s ≡ (ok a, s')
    → call ≡ some a
unfolding block pure
block_returns none a s s' h = absurd cc
block_returns (some b) a s s' h = cc

execute_behind_clean :
    {W : Type 0} (system : System) (code : Bytes) (fs fs' : FileSystem) (r : ExecutionResult)
    (found : Result Problem × Db W) (s' : Db W)
    → IsFresh system.temp_name fs
    → then_on found.0 (λ problem. block (execute_found system code fs problem)) found.1
      ≡ (ok (r, fs'), s')
    → fs' ≡ fs
unfolding then_on
execute_behind_clean system code fs fs' r (ok problem, s) s' fresh h =
    execute_found_clean system code problem fs fs' r fresh
      (block_returns (execute_found system code fs problem) (r, fs') s s' h)
execute_behind_clean system code fs fs' r (threw, s) s' fresh h = absurd cc
execute_behind_clean system code fs fs' r (asleep, s) s' fresh h = absurd cc

-- If the name of the temporary directory is fresh, `execute` gives the file system back as it was, on
-- every path on which it returns: whatever it made it has removed.
pub execute_clean :
    {W : Type 0} (server : Server W) (system : System) (code : Bytes) (problem_id : ℤ)
    (fs fs' : FileSystem) (r : ExecutionResult) (s s' : Db W)
    → IsFresh system.temp_name fs
    → execute system code server problem_id fs s ≡ (ok (r, fs'), s')
    → fs' ≡ fs
unfolding execute ◌>>=◌
execute_clean server system code problem_id fs fs' r s s' fresh h =
    execute_behind_clean system code fs fs' r (Problems.find_by_id server problem_id s) s' fresh h
