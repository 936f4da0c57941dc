-- ===== src/Executor/Execute/Cases.antt =====
-- The loop of `execute` over the test cases.
use cpp_oj_vbcoding_teach.Prelude.{
  ℕ, suc, ◌+◌, ◌≡◌, refl, ap, ◌⊎◌, inl, inr, List, [], ◌∷◌, ◌++◌, append_assoc, append-nil, some,
  length, arith, All,
}
use cpp_oj_vbcoding_teach.Model.{TestCase}
use cpp_oj_vbcoding_teach.Executor.Types.{ac, ce, TestCaseResult, ExecutionResult}
use cpp_oj_vbcoding_teach.Executor.Run.{Child}
use cpp_oj_vbcoding_teach.Executor.Run.Outcome.{IsVerdict, IsFor, Responds, run_test_case_returns}
use cpp_oj_vbcoding_teach.Executor.Verdict.{
  count_pass, count_pass-accepted, accepted-nil, accepted, IsAc, IsCaseStatus, Fails,
}
use cpp_oj_vbcoding_teach.Executor.Execute.{run_cases, k_default_timeout_sec}

-- A result for each case, in order.
abbrev pub Answers : List TestCase → List TestCaseResult → Type 0
Answers [] [] = Unit
Answers [] (r ∷ rs) = ⊥
Answers (tc ∷ tcs) [] = ⊥
Answers (tc ∷ tcs) (r ∷ rs) =
    IsFor tc.input tc.expected tc.position r × IsVerdict r × Answers tcs rs

pub length-Answers :
    (tcs : List TestCase) (rs : List TestCaseResult) → Answers tcs rs → length rs ≡ length tcs
length-Answers [] [] h = refl
length-Answers [] (r ∷ rs) h = absurd h
length-Answers (tc ∷ tcs) [] h = absurd h
length-Answers (tc ∷ tcs) (r ∷ rs) h = ap suc (length-Answers tcs rs h.2)

verdict_status : (r : TestCaseResult) → IsVerdict r → IsCaseStatus r
verdict_status r (inl (inl e, _)) = inl e
verdict_status r (inl (inr e, _)) = inr (inl e)
verdict_status r (inr (inl e, _)) = inr (inr (inr e))
verdict_status r (inr (inr e, _)) = inr (inr (inl e))

pub Answers-IsCaseStatus :
    (tcs : List TestCase) (rs : List TestCaseResult) → Answers tcs rs → All IsCaseStatus rs
Answers-IsCaseStatus [] [] h = tt
Answers-IsCaseStatus [] (r ∷ rs) h = absurd h
Answers-IsCaseStatus (tc ∷ tcs) [] h = absurd h
Answers-IsCaseStatus (tc ∷ tcs) (r ∷ rs) h = (verdict_status r h.1, Answers-IsCaseStatus tcs rs h.2)

-- The runs of the cases, from case i on, come to their ends.
abbrev pub AllRespond : (ℕ → Child) → ℕ → List TestCase → Type 0
AllRespond child i [] = Unit
AllRespond child i (tc ∷ tcs) = Responds (child i) tc.input × AllRespond child (i + 1) tcs

pub run_cases_total :
    (child : ℕ → Child) (i : ℕ) (tcs : List TestCase) (results : List TestCaseResult) (passed : ℕ)
    → AllRespond child i tcs
    → (rs : List TestCaseResult) × (run_cases child i tcs results passed
        ≡ some (results ++ rs, passed + accepted rs))
      × Answers tcs rs
unfolding run_cases
run_cases_total child i [] results passed respond =
    ([], rw (append-nil results, accepted-nil) (ground arith), tt)
run_cases_total child i (tc ∷ tcs) results passed (responds, respond) =
    let (r, e, verdict, isfor) =
      run_test_case_returns (child i) tc.input tc.expected tc.position k_default_timeout_sec
        responds in
    let (rs, e', answers) =
      run_cases_total child (i + 1) tcs (results ++ r ∷ []) (count_pass passed r) respond in
    (
      r ∷ rs,
      rw (run_cases, e)
          (ground (arith, e', append_assoc results (r ∷ []) rs, count_pass-accepted passed r rs)),
      (isfor, verdict, answers),
    )

-- No case was run.
abbrev pub NotRun : ExecutionResult → Type 0
NotRun r = (r.status ≡ ce) × (r.results ≡ []) × (r.passed ≡ 0) × (r.total ≡ 0)

-- Every case was run.
abbrev pub Judged : List TestCase → ExecutionResult → Type 0
Judged tests r =
    Answers tests r.results
    × (r.passed ≡ accepted r.results)
    × (r.total ≡ length tests)
    × ((All IsAc r.results × (r.status ≡ ac)) ⊎ Fails r.results r.status)
