-- ===== src/Examples/Executor.antt =====
-- src/service/executor_service.cc on concrete inputs.
use cpp_oj_vbcoding_teach.Prelude.{
  ℕ, none, false, ◌≢◌, ◌==◌, zero, suc, ◌+◌, ◌*◌, ◌≡◌, ◌≤◌, ◌↔◌, refl, true, false, List, [], ◌∷◌,
  ◌++◌, Bytes, codes, some, arith, str_eq, length, leb,
}
use cpp_oj_vbcoding_teach.Prelude.Int.{pos}
use cpp_oj_vbcoding_teach.Model.{Problem, TestCase, no_problem}
use cpp_oj_vbcoding_teach.Db.Mysql.{Row, column, int_column}
use cpp_oj_vbcoding_teach.Prelude.Parse.{stoi, signed, positive, starts_digit, read_digits}
use cpp_oj_vbcoding_teach.Db.Sql.{query}
use cpp_oj_vbcoding_teach.Pool.{acquire, pop_front, revive, release, push}
use cpp_oj_vbcoding_teach.Mapper.Select.{first_row, select_first, select_all, all_rows, read_rows}
use cpp_oj_vbcoding_teach.Mapper.TestCases as TestCases
use cpp_oj_vbcoding_teach.Db.Exec.{
  Db, Result, ok, threw, asleep, pure, call, gets, lift, then_on, ◌>>=◌, give_back, behind_acquire,
  with_connection,
}
use cpp_oj_vbcoding_teach.Mapper.Problems as Problems
use cpp_oj_vbcoding_teach.Examples.Server.{answering, two_idle}
use cpp_oj_vbcoding_teach.Executor.Types.{ac, wa, tle, TestCaseResult, ExecutionResult, exited}
use cpp_oj_vbcoding_teach.Executor.Output.{
  same_output, read_all, read_all_loop, end_line, back, pop_back, is_empty, trim_trailing,
  trim_loop, is_trailing,
}
use cpp_oj_vbcoding_teach.Executor.Output.ReadAll.{concat, read_all_prefix}
use cpp_oj_vbcoding_teach.Executor.Output.Trim.{AgreeUpToBlanks, same_output_iff}
use cpp_oj_vbcoding_teach.Executor.Run.{
  Child, Poll, running, ended, finished, timed_out, settle, poll_loop, judge_output, judge_exit,
  judge_wait, behind_loop, run_test_case, new_result,
}
use cpp_oj_vbcoding_teach.Executor.Descriptors.{Pipe, compile_fds, run_fds, descriptors_kept}
use cpp_oj_vbcoding_teach.Executor.Run.Polling.{IsPaced}
use cpp_oj_vbcoding_teach.Executor.Run.Outcome.{
  IsVerdict, IsFor, Responds, RunsWell, run_test_case_total, run_test_case_ac,
}
use cpp_oj_vbcoding_teach.Executor.Verdict.{final_status, verdict_loop, count_pass}
use cpp_oj_vbcoding_teach.Executor.Files.{
  FileSystem, complete, erase, contains, starts_with, holds_file, create_file, remove, rmdir,
  make_temp_dir, write_file, exited_well, compile,
}
use cpp_oj_vbcoding_teach.Executor.Execute.{
  System, block, execute_found, execute, no_cases, judge_in, judge, judged, clean_up, run_cases,
}
use cpp_oj_vbcoding_teach.Executor.Execute.Cases.{AllRespond}
use cpp_oj_vbcoding_teach.Executor.Execute.Result.{FoundRespond, Comes, execute_total}
use cpp_oj_vbcoding_teach.Executor.Execute.Clean.{execute_clean}

-- A program that ends at the third poll and prints "42".
abbrev pub answers : ℕ → Poll
answers zero = running 0
answers (suc zero) = running 10
answers (suc (suc n)) = ended (exited 0)

abbrev good_child : Child
good_child = record {
  pipes_made = true;
  forked = true;
  poll = answers;
  chunks = codes "42" ∷ [];
  write_returns = λ input. true;
  reads_return = true;
}

-- A program that never ends.
abbrev endless : ℕ → Poll
endless i = running (10 * i)

abbrev answered : TestCaseResult
answered = record {
  position = pos 1;
  status = ac;
  input = codes "6 7";
  expected = codes "42 ";
  actual = 52 ∷ 50 ∷ 10 ∷ [];
  error = [];
}

good_run : run_test_case good_child (codes "6 7") (codes "42 ") (pos 1) 5 ≡ some answered
unfolding run_test_case new_result judge_wait judge_exit judge_output poll_loop settle read_all
    read_all_loop end_line back pop_back is_empty same_output trim_trailing trim_loop is_trailing
    str_eq behind_loop
good_run = refl

same_output_iff_example :
    (same_output (codes "42 ") (codes "42") ≡ true) ↔ AgreeUpToBlanks (codes "42 ") (codes "42")
same_output_iff_example = same_output_iff (codes "42 ") (codes "42")

read_all_prefix_example :
    ((rest : Bytes) × (concat (codes "ab" ∷ codes "c" ∷ [])
        ≡ read_all (codes "ab" ∷ codes "c" ∷ []) ++ rest))
    × (length (read_all (codes "ab" ∷ codes "c" ∷ [])) ≤ 65536 + 4096)
    × (length (concat (codes "ab" ∷ codes "c" ∷ [])) ≤ 65536
        → read_all (codes "ab" ∷ codes "c" ∷ []) ≡ concat (codes "ab" ∷ codes "c" ∷ []))
read_all_prefix_example = read_all_prefix (codes "ab" ∷ codes "c" ∷ []) (omega arith)

pub answers-IsPaced : IsPaced answers
answers-IsPaced zero elapsed h = omega arith
answers-IsPaced (suc zero) elapsed h = ground arith
answers-IsPaced (suc (suc n)) elapsed h = absurd (cc)

endless-IsPaced : IsPaced endless
endless-IsPaced i elapsed h = ground arith

poll_loop_three : poll_loop 501 5 answers 0 ≡ some (finished (exited 0))
unfolding poll_loop settle
poll_loop_three = refl

abbrev slow_child : Child
slow_child = record {
  pipes_made = true;
  forked = true;
  poll = endless;
  chunks = [];
  write_returns = λ input. leb (length input) 65536;
  reads_return = true;
}

run_test_case_total_example :
    (Responds slow_child (codes "6 7")
      → (r : TestCaseResult) × (run_test_case slow_child (codes "6 7") (codes "42") (pos 1) 5
          ≡ some r)
        × IsVerdict r
        × IsFor (codes "6 7") (codes "42") (pos 1) r)
    × (true ≡ true
        → true ≡ true
        → true ≡ false
        → run_test_case slow_child (codes "6 7") (codes "42") (pos 1) 5 ≡ none)
run_test_case_total_example = run_test_case_total slow_child (codes "6 7") (codes "42") (pos 1) 5

slow_child-Responds : Responds slow_child (codes "6 7")
slow_child-Responds = record { writes = refl; paced = endless-IsPaced; reads = refl }

run_test_case_ac_example : (answered.status ≡ ac) ↔ RunsWell good_child (codes "42 ") 5
run_test_case_ac_example =
    run_test_case_ac good_child (codes "6 7") (codes "42 ") (pos 1) 5 answered good_run

abbrev wrong_answer : TestCaseResult
wrong_answer = record answered { status = wa }

abbrev timed : TestCaseResult
timed = record answered { status = tle }

final_status_tle : final_status (answered ∷ wrong_answer ∷ timed ∷ []) 1 3 ≡ tle
unfolding final_status verdict_loop
final_status_tle = refl

abbrev mixed : List TestCaseResult
mixed = answered ∷ wrong_answer ∷ timed ∷ []

abbrev pub host : System
host = record {
  temp_name = some (codes "/tmp/oj_Ab12Cd");
  write = complete;
  compiler = λ code. record {
    pipe_made = true;
    forked = true;
    chunks = [];
    exit = exited 0;
    produced = true;
    ends = true;
  };
  child = λ code i. good_child;
}

abbrev pub before : FileSystem
before = record { dirs = codes "/tmp" ∷ []; files = codes "/tmp/other" ∷ [] }

-- What the run leaves.
abbrev after : FileSystem
after = record { dirs = codes "/tmp" ∷ []; files = codes "/tmp/other" ∷ [] }

abbrev accepted_execution : ExecutionResult
accepted_execution = record {
  status = ac;
  compile_error = [];
  results = answered ∷ [];
  passed = 1;
  total = 1;
}

good_child-Responds : (input : Bytes) → Responds good_child input
good_child-Responds input = record { writes = refl; paced = answers-IsPaced; reads = refl }

all_good : (i : ℕ) (tests : List TestCase) → AllRespond (λ k. good_child) i tests
all_good i [] = tt
all_good i (tc ∷ tests) = (good_child-Responds tc.input, all_good (i + 1) tests)

pub host-FoundRespond :
    (source : Bytes) (found : Result Problem × Db ℕ) → FoundRespond host source found
host-FoundRespond source (ok problem, s) = (refl, all_good 0 problem.test_cases)
host-FoundRespond source (threw, s) = tt
host-FoundRespond source (asleep, s) = tt

-- A row that is a problem with id 7, and a test case of it as well.
abbrev pub row_seven : Row
row_seven =
    some (codes "7")
    ∷ some (codes "7")
    ∷ some (codes "6 7")
    ∷ some (codes "42 ")
    ∷ some (codes "1")
    ∷ none
    ∷ none
    ∷ none
    ∷ []

-- The database behind the two statements, each on the connection at the front.
abbrev two_used : Db ℕ
two_used = record two_idle { pool = record (two_idle.pool) { idle = 5 ∷ 3 ∷ [] }; world = 2 }

-- The problem that the rows say.
abbrev doubling : Problem
doubling = record no_problem {
  id = pos 7;
  title = codes "7";
  difficulty = codes "6 7";
  content = codes "42 ";
  code_template = codes "1";
  test_cases =
      record {
        id = pos 7;
        problem_id = pos 7;
        input = codes "6 7";
        expected = codes "42 ";
        position = pos 1;
      }
      ∷ [];
}

found_seven : Problems.find_by_id (answering row_seven) (pos 7) two_idle ≡ (ok doubling, two_used)
unfolding ◌>>=◌ then_on Problems.find_by_id with_connection behind_acquire acquire pop_front revive
    give_back release push Problems.find_on select_first query call gets lift first_row pure
    Problems.read_problem column int_column Problems.with_cases TestCases.find_by_problem_id
    TestCases.find_on select_all all_rows read_rows TestCases.read_test_case stoi signed positive
    starts_digit read_digits
found_seven = refl

accepted_found :
    execute_found host (codes "int main() {}") before doubling ≡ some (accepted_execution, after)
unfolding execute_found judge_in judge judged clean_up run_cases no_cases make_temp_dir write_file
    compile exited_well create_file contains remove rmdir erase starts_with holds_file count_pass
    final_status run_test_case behind_loop new_result judge_wait judge_exit judge_output poll_loop
    settle read_all read_all_loop end_line back pop_back is_empty same_output trim_trailing
    trim_loop is_trailing str_eq
accepted_found = refl

-- The whole path of one submission.
accepted_run :
    execute host (codes "int main() {}") (answering row_seven) (pos 7) before two_idle
    ≡ (ok (accepted_execution, after), two_used)
unfolding execute ◌>>=◌ then_on block pure
accepted_run = rw (execute, found_seven, then_on, accepted_found) refl

execute_clean_example : ◌≡◌ {A = FileSystem} after before
unfolding is_empty holds_file starts_with
execute_clean_example =
    execute_clean (answering row_seven) host (codes "int main() {}") (pos 7) before before
      accepted_execution two_idle two_used (refl, refl) accepted_run

execute_total_example :
    Comes host
      (codes "int main() {}")
      (Problems.find_by_id (answering row_seven) (pos 7) two_idle)
      (execute host (codes "int main() {}") (answering row_seven) (pos 7) before two_idle)
execute_total_example =
    execute_total (answering row_seven) host (codes "int main() {}") (pos 7) before two_idle (
      host-FoundRespond (codes "int main() {}")
        (Problems.find_by_id (answering row_seven) (pos 7) two_idle))

abbrev stdin_pipe : Pipe
stdin_pipe = record { read_end = 3; write_end = 4 }

abbrev stdout_pipe : Pipe
stdout_pipe = record { read_end = 5; write_end = 6 }

differs : (a b : ℕ) → (a == b) ≡ false → a ≢ b
differs a b h e = ground arith

descriptors_kept_example :
    (compile_fds (some stdin_pipe) true (0 ∷ 1 ∷ []) ≡ 0 ∷ 1 ∷ [])
    × (run_fds (some stdin_pipe) (some stdout_pipe) true timed_out (0 ∷ 1 ∷ []) ≡ 0 ∷ 1 ∷ [])
    × (run_fds none (some stdout_pipe) true timed_out (0 ∷ 1 ∷ []) ≡ 0 ∷ 1 ∷ [])
    × (run_fds (some stdin_pipe) none true timed_out (0 ∷ 1 ∷ []) ≡ 3 ∷ 4 ∷ 0 ∷ 1 ∷ [])
descriptors_kept_example =
    descriptors_kept stdin_pipe stdout_pipe (0 ∷ 1 ∷ []) true timed_out
      (record {
        two = differs 3 4 refl;
        read_new = (differs 0 3 refl, (differs 1 3 refl, tt));
        write_new = (differs 0 4 refl, (differs 1 4 refl, tt));
      })
      (record {
        two = differs 5 6 refl;
        read_new =
            (differs 3 5 refl, (differs 4 5 refl, (differs 0 5 refl, (differs 1 5 refl, tt))));
        write_new =
            (differs 3 6 refl, (differs 4 6 refl, (differs 0 6 refl, (differs 1 6 refl, tt))));
      })
