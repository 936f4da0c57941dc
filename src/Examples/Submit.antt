-- ===== src/Examples/Submit.antt =====
-- src/handler/submit_handler.cc on a concrete request.
use cpp_oj_vbcoding_teach.Prelude.{true, ◌≡◌, [], Bytes, codes, some, none, refl}
use cpp_oj_vbcoding_teach.Prelude.Int.{pos}
use cpp_oj_vbcoding_teach.Submit.{Json, handle_submit, submit_fields, bad_request}
use cpp_oj_vbcoding_teach.Examples.Executor.{host, before, row_seven}
use cpp_oj_vbcoding_teach.Examples.Server.{answering, two_idle}
use cpp_oj_vbcoding_teach.Db.Exec.{ok, pure}
use cpp_oj_vbcoding_teach.Mapper.Problems as Problems

-- Every request is for problem 7, and its text is the code.
abbrev for_seven : Json Bytes
for_seven = record {
  parse = λ request. some request;
  int_field = λ body name. some (pos 7);
  text_field = λ body name. some body;
  dumps = λ s. true;
}

abbrev no_code : Json Bytes
no_code = record {
  parse = λ request. some request;
  int_field = λ body name. some (pos 7);
  text_field = λ body name. none;
  dumps = λ s. true;
}

refused :
    handle_submit (answering row_seven) host no_code [] before two_idle
    ≡ (ok (bad_request (codes "Missing or invalid 'code'"), before), two_idle)
unfolding handle_submit submit_fields pure
refused = refl
