-- ===== src/Submit/Answers.antt =====
-- What every submission comes to.
use cpp_oj_vbcoding_teach.Prelude.{◌≡◌, ◌⊎◌, true, false, Bytes, Option, some}
use cpp_oj_vbcoding_teach.Prelude.Int.{ℤ}
use cpp_oj_vbcoding_teach.Model.{Problem}
use cpp_oj_vbcoding_teach.Db.Mysql.{Server}
use cpp_oj_vbcoding_teach.Db.Exec.{Db, Result, ok, threw, asleep}
use cpp_oj_vbcoding_teach.Mapper.Problems as Problems
use cpp_oj_vbcoding_teach.Auth.Cookie.{empty}
use cpp_oj_vbcoding_teach.Executor.Types.{ExecutionResult}
use cpp_oj_vbcoding_teach.Executor.Files.{FileSystem}
use cpp_oj_vbcoding_teach.Executor.Execute.{System, execute}
use cpp_oj_vbcoding_teach.Executor.Execute.Result.{Executed, FoundRespond}
use cpp_oj_vbcoding_teach.Submit.{Json, Reply, answer, result_dumps}

-- The fields are not both there, or the code is empty: the reply is 400, nothing is run, and the database
-- is not used.
abbrev pub IsRefused :
    {W : Type 0} → FileSystem → Db W → Result (Reply × FileSystem) × Db W → Type 0
IsRefused fs s out = (reply : Reply) × (reply.status ≡ some 400) × (out ≡ (ok (reply, fs), s))

module _ {W J : Type 0} (server : Server W) (system : System) (json : Json J) where
  -- What a judged submission comes to, by what findById and `execute` came to.
  abbrev pub Answered :
      Bytes
      → Result Problem × Db W
      → Result (ExecutionResult × FileSystem) × Db W
      → Result (Reply × FileSystem) × Db W
      → Type 0
  Answered code (ok problem, s) executed out =
      (result : ExecutionResult) × (fs' : FileSystem) × (executed ≡ (ok (result, fs'), s))
      × Executed system code problem result
      × (((result_dumps json.dumps result ≡ true) × (out ≡ (ok (answer result, fs'), s)))
          ⊎ ((result_dumps json.dumps result ≡ false) × (out ≡ (threw, s))))
  Answered code (threw, s) executed out = out ≡ (threw, s)
  Answered code (asleep, s) executed out = out ≡ (asleep, s)

  -- The fields are there and the code is not empty.
  pub record IsJudged (problem_id : Option ℤ) (code : Option Bytes) (fs : FileSystem) (s : Db W)
      (out : Result (Reply × FileSystem) × Db W) : Type 0 where
    pub id : ℤ
    pub source : Bytes
    pub has_id : problem_id ≡ some id
    pub has_source : code ≡ some source
    pub not_empty : empty source ≡ false
    pub answered :
        Answered source (Problems.find_by_id server id s) (execute system source server id fs s) out

  -- Whatever problem a submission asks for, its compiler and its runs come to their ends.
  abbrev pub AllEnd : Db W → Type 0
  AllEnd s =
      (source : Bytes) (id : ℤ) → FoundRespond system source (Problems.find_by_id server id s)
