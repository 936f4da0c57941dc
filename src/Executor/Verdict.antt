-- ===== src/Executor/Verdict.antt =====
-- The overall status that `ExecutorService::execute` of src/service/executor_service.cc computes from
-- the results of the cases.
use cpp_oj_vbcoding_teach.Prelude.{
  ap, Bool-cases, ==_iff, ℕ, suc, ◌+◌, ◌≤◌, ◌≡◌, refl, ◌⊎◌, inl, inr, List, [], ◌∷◌, ◌++◌, arith,
  length, All, ◌==◌, if◌then◌else◌, false,
}
use cpp_oj_vbcoding_teach.Executor.Types.{
  Status, unset, ac, wa, tle, re, ce, is_ac, is_wa, is_tle, is_re, is_ce, TestCaseResult,
}

-- `if (tcResult.status == "AC") execResult.passed++;`
unfoldable pub count_pass : ℕ → TestCaseResult → ℕ
count_pass passed r = if is_ac r.status then passed + 1 else passed

-- The loop over the results; `st` is `execResult.status`.
unfoldable pub verdict_loop : List TestCaseResult → Status → Status
verdict_loop [] st = st
verdict_loop (r ∷ rs) st =
    let rest = verdict_loop rs (if is_wa r.status then wa else st) in
    if is_ce r.status
    then ce
    else if is_re r.status
    then re
    else if is_tle r.status
    then tle
    else rest

unfoldable pub final_status : List TestCaseResult → ℕ → ℕ → Status
final_status results passed total = if passed == total then ac else verdict_loop results unset

-- The number of accepted cases.
unfoldable pub accepted : List TestCaseResult → ℕ
accepted [] = 0
accepted (r ∷ rs) = if is_ac r.status then suc (accepted rs) else accepted rs

-- A status that a case can have.
abbrev pub IsCaseStatus : TestCaseResult → Type 0
IsCaseStatus r = (r.status ≡ ac) ⊎ (r.status ≡ wa) ⊎ (r.status ≡ tle) ⊎ (r.status ≡ re)

abbrev pub IsAc : TestCaseResult → Type 0
IsAc r = r.status ≡ ac

-- Neither TLE nor RE.
abbrev pub IsSoft : TestCaseResult → Type 0
IsSoft r = (r.status ≡ ac) ⊎ (r.status ≡ wa)

-- The first RE or TLE in the order of the cases decides; with none, one WA does.
pub data Fails (rs : List TestCaseResult) (st : Status) : Type 0 where
  hard :
      (before : List TestCaseResult) (r : TestCaseResult) (after : List TestCaseResult)
      → rs ≡ before ++ (r ∷ after)
      → All IsSoft before
      → r.status ≡ st
      → (st ≡ tle) ⊎ (st ≡ re)
      → Fails rs st
  wrong :
      (before : List TestCaseResult) (r : TestCaseResult) (after : List TestCaseResult)
      → rs ≡ before ++ (r ∷ after)
      → All IsSoft rs
      → r.status ≡ wa
      → st ≡ wa
      → Fails rs st

Fails-cons :
    (r : TestCaseResult) (rs : List TestCaseResult) (st : Status)
    → IsSoft r
    → Fails rs st
    → Fails (r ∷ rs) st
Fails-cons r rs st soft (hard before x after e h k b) =
    hard (r ∷ before) x after (ap (◌∷◌ r) e) (soft, h) k b
Fails-cons r rs st soft (wrong before x after e h k b) =
    wrong (r ∷ before) x after (ap (◌∷◌ r) e) (soft, h) k b

All-IsAc-IsSoft : (rs : List TestCaseResult) → All IsAc rs → All IsSoft rs
All-IsAc-IsSoft [] h = tt
All-IsAc-IsSoft (r ∷ rs) (e, h) = (inl e, All-IsAc-IsSoft rs h)

accepted-le-length : (rs : List TestCaseResult) → accepted rs ≤ length rs
unfolding accepted
accepted-le-length [] = omega arith
accepted-le-length (r ∷ rs) = ground (arith, accepted-le-length rs)

-- As many accepted cases as cases means that all are.
accepted-All : (rs : List TestCaseResult) → accepted rs ≡ length rs → All IsAc rs
unfolding accepted
accepted-All [] h = tt
accepted-All (r ∷ rs) h = ground (arith, accepted-All rs, accepted-le-length rs)

All-accepted : (rs : List TestCaseResult) → All IsAc rs → accepted rs ≡ length rs
unfolding accepted
All-accepted [] h = refl
All-accepted (r ∷ rs) (e, h) = ground (arith, All-accepted rs h)

module _ (r : TestCaseResult) (rs : List TestCaseResult) (st : Status) where
  verdict_loop_ac : r.status ≡ ac → verdict_loop (r ∷ rs) st ≡ verdict_loop rs st
  unfolding verdict_loop
  verdict_loop_ac e = ground arith

  verdict_loop_wa : r.status ≡ wa → verdict_loop (r ∷ rs) st ≡ verdict_loop rs wa
  unfolding verdict_loop
  verdict_loop_wa e = ground arith

  verdict_loop_hard :
      (s : Status) → r.status ≡ s → (s ≡ tle) ⊎ (s ≡ re) → verdict_loop (r ∷ rs) st ≡ s
  unfolding verdict_loop
  verdict_loop_hard s e (inl k) = ground arith
  verdict_loop_hard s e (inr k) = ground arith

abbrev Outcome : List TestCaseResult → Status → Status → Type 0
Outcome rs st out = (All IsAc rs × (out ≡ st)) ⊎ Fails rs out

-- Either every case is accepted and the loop leaves the status alone, or the result is decided.
verdict_loop-Outcome :
    (rs : List TestCaseResult) (st : Status)
    → All IsCaseStatus rs
    → Outcome rs st (verdict_loop rs st)
verdict_loop-Outcome [] st h = inl (tt, unfold verdict_loop in refl)
verdict_loop-Outcome (r ∷ rs) st (inl e, h) =
    rw (verdict_loop_ac r rs st e) (go (verdict_loop-Outcome rs st h))
  where
    go : Outcome rs st (verdict_loop rs st) → Outcome (r ∷ rs) st (verdict_loop rs st)
    go (inl (all, same)) = inl ((e, all), same)
    go (inr fails) = inr (Fails-cons r rs _ (inl e) fails)
verdict_loop-Outcome (r ∷ rs) st (inr (inl e), h) =
    rw (verdict_loop_wa r rs st e) (go (verdict_loop-Outcome rs wa h))
  where
    go : Outcome rs wa (verdict_loop rs wa) → Outcome (r ∷ rs) st (verdict_loop rs wa)
    go (inl (all, same)) = inr (wrong [] r rs refl (inr e, All-IsAc-IsSoft rs all) e same)
    go (inr fails) = inr (Fails-cons r rs _ (inr e) fails)
verdict_loop-Outcome (r ∷ rs) st (inr (inr (inl e)), h) =
    rw (verdict_loop_hard r rs st tle e (inl refl)) (inr (hard [] r rs refl tt e (inl refl)))
verdict_loop-Outcome (r ∷ rs) st (inr (inr (inr e)), h) =
    rw (verdict_loop_hard r rs st re e (inr refl)) (inr (hard [] r rs refl tt e (inr refl)))

-- For results that are each AC, WA, TLE or RE the overall status is AC if all are AC; otherwise it is
-- the first RE or TLE in the order of the cases, or WA if there is none of these.
pub final_status_lem :
    (rs : List TestCaseResult)
    → All IsCaseStatus rs
    → (All IsAc rs × (final_status rs (accepted rs) (length rs) ≡ ac))
      ⊎ Fails rs (final_status rs (accepted rs) (length rs))
unfolding final_status
final_status_lem rs h = elim (Bool-cases (accepted rs == length rs)) [
  | inl e ↦ inl (accepted-All rs ((==_iff _ _).0 e), rw e)
  | inr e ↦ rw e (go e (verdict_loop-Outcome rs unset h))
]
  where
    go :
        (accepted rs == length rs) ≡ false
        → Outcome rs unset (verdict_loop rs unset)
        → (All IsAc rs × (verdict_loop rs unset ≡ ac)) ⊎ Fails rs (verdict_loop rs unset)
    go e (inl (all, same)) = absurd (ground (arith, All-accepted rs all))
    go e (inr fails) = inr fails

pub count_pass-accepted :
    (passed : ℕ) (r : TestCaseResult) (rs : List TestCaseResult)
    → count_pass passed r + accepted rs ≡ passed + accepted (r ∷ rs)
unfolding count_pass accepted
count_pass-accepted passed r rs = ground arith

pub accepted-nil : accepted [] ≡ 0
unfolding accepted
accepted-nil = refl
