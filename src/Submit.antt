-- ===== src/Submit.antt =====
-- handleSubmit of src/handler/submit_handler.cc: a submission is judged and the result is written as JSON.
-- The JSON library is a parameter over its values J; objects are the lists of their fields.
pub mod Answers
use cpp_oj_vbcoding_teach.Prelude.{
  ℕ, Bool, true, ◌&&◌, if◌then◌else◌, List, [], ◌∷◌, ◌++◌, map, Bytes, codes, Option, none, some,
}
use cpp_oj_vbcoding_teach.Prelude.Int.{ℤ, pos}
use cpp_oj_vbcoding_teach.Db.Mysql.{Server}
use cpp_oj_vbcoding_teach.Db.Exec.{Exec, pure, throw, ◌>>=◌}
use cpp_oj_vbcoding_teach.Auth.Types.{Value, text, number}
use cpp_oj_vbcoding_teach.Auth.Cookie.{empty}
use cpp_oj_vbcoding_teach.Executor.Types.{TestCaseResult, ExecutionResult, status_text, is_ce}
use cpp_oj_vbcoding_teach.Executor.Files.{FileSystem}
use cpp_oj_vbcoding_teach.Executor.Execute.{System, execute}

-- `int_field` and `text_field` give a member that is there and is an integer, or a string. `dumps` says of a
-- string whether `dump` can write it: it throws on one that is not UTF-8.
pub record Json (J : Type 0) : Type 0 where
  pub parse : Bytes → Option J
  pub int_field : J → Bytes → Option ℤ
  pub text_field : J → Bytes → Option Bytes
  pub dumps : Bytes → Bool

abbrev pub Fields : Type 0
Fields = List (Bytes × Value)

-- A status that is not set is left to the HTTP library.
pub record Reply : Type 0 where
  pub status : Option ℕ
  pub body : Fields
  pub results : List Fields

abbrev pub bad_request : Bytes → Reply
bad_request message = record {
  status = some 400;
  body = (codes "error", text message) ∷ [];
  results = [];
}

unfoldable pub error_field : Bytes → Fields
error_field [] = []
error_field (c ∷ message) = (codes "error", text (c ∷ message)) ∷ []

abbrev pub case_fields : TestCaseResult → Fields
case_fields r =
    (codes "position", number r.position)
    ∷ (codes "status", text (status_text r.status))
    ∷ (codes "input", text r.input)
    ∷ (codes "expected", text r.expected)
    ∷ (codes "actual", text r.actual)
    ∷ error_field r.error

abbrev pub compile_field : ExecutionResult → Fields
compile_field result =
    if is_ce result.status then (codes "compile_error", text result.compile_error) ∷ [] else []

abbrev pub answer : ExecutionResult → Reply
answer result = record {
  status = none;
  body =
      (codes "status", text (status_text result.status))
      ∷ (codes "passed", number (pos result.passed))
      ∷ (codes "total", number (pos result.total))
      ∷ compile_field result;
  results = map case_fields result.results;
}

-- `resp.dump()` of a result: each string in it can be written.
unfoldable pub case_dumps : (Bytes → Bool) → TestCaseResult → Bool
case_dumps dumps r =
    dumps r.input
    && (dumps r.expected && (dumps r.actual && (if empty r.error then true else dumps r.error)))

unfoldable pub cases_dump : (Bytes → Bool) → List TestCaseResult → Bool
cases_dump dumps [] = true
cases_dump dumps (r ∷ rs) = case_dumps dumps r && cases_dump dumps rs

unfoldable pub result_dumps : (Bytes → Bool) → ExecutionResult → Bool
result_dumps dumps result =
    (if is_ce result.status then dumps result.compile_error else true)
    && cases_dump dumps result.results

module _ {W J : Type 0} (server : Server W) (system : System) (json : Json J) where
  unfoldable pub send : ExecutionResult × FileSystem → Exec W (Reply × FileSystem)
  send (result, fs) = if result_dumps json.dumps result then pure (answer result, fs) else throw

  unfoldable pub submit_code : ℤ → Bytes → FileSystem → Exec W (Reply × FileSystem)
  submit_code problem_id code fs = execute system code server problem_id fs >>= send

  unfoldable pub submit_fields : Option ℤ → Option Bytes → FileSystem → Exec W (Reply × FileSystem)
  submit_fields none code fs = pure (bad_request (codes "Missing or invalid 'problem_id'"), fs)
  submit_fields (some problem_id) none fs =
      pure (bad_request (codes "Missing or invalid 'code'"), fs)
  submit_fields (some problem_id) (some code) fs =
      if empty code
      then pure (bad_request (codes "Code cannot be empty"), fs)
      else submit_code problem_id code fs

  unfoldable pub handle_submit : Bytes → FileSystem → Exec W (Reply × FileSystem)
  handle_submit request fs = elim (json.parse request) [
    | none ↦ pure (bad_request (codes "Invalid JSON"), fs)
    | some body ↦
        submit_fields (json.int_field body (codes "problem_id"))
          (json.text_field body (codes "code")) fs
  ]
