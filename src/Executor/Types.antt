-- ===== src/Executor/Types.antt =====
-- The results of the judge, and what the operating system tells it about a process.
use cpp_oj_vbcoding_teach.Prelude.{ℕ, Bool, List, [], Bytes, codes}
use cpp_oj_vbcoding_teach.Prelude.Int.{ℤ}

-- The values that `status` takes: the strings "", "AC", "WA", "TLE", "RE" and "CE".
pub data Status : Type 0 where
  unset ac wa tle re ce : Status

pub status_text : Status → Bytes
status_text unset = []
status_text ac = codes "AC"
status_text wa = codes "WA"
status_text tle = codes "TLE"
status_text re = codes "RE"
status_text ce = codes "CE"

-- `r.status == "AC"` and so on.
abbrev pub is_ac : Status → Bool
is_ac ac = Bool.true
is_ac _ = Bool.false

abbrev pub is_wa : Status → Bool
is_wa wa = Bool.true
is_wa _ = Bool.false

abbrev pub is_tle : Status → Bool
is_tle tle = Bool.true
is_tle _ = Bool.false

abbrev pub is_re : Status → Bool
is_re re = Bool.true
is_re _ = Bool.false

abbrev pub is_ce : Status → Bool
is_ce ce = Bool.true
is_ce _ = Bool.false

pub record TestCaseResult : Type 0 where
  pub position : ℤ
  pub status : Status
  pub input : Bytes
  pub expected : Bytes
  pub actual : Bytes
  pub error : Bytes

pub record ExecutionResult : Type 0 where
  pub status : Status
  pub compile_error : Bytes
  pub results : List TestCaseResult
  pub passed : ℕ
  pub total : ℕ

abbrev pub new_execution : ExecutionResult
new_execution = record { status = unset; compile_error = []; results = []; passed = 0; total = 0 }

-- A wait status: WIFEXITED with its code, WIFSIGNALED with its signal, or neither.
pub data ExitStatus : Type 0 where
  exited : ℕ → ExitStatus
  signaled : ℕ → ExitStatus
  stopped : ExitStatus
