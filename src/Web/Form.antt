-- ===== src/Web/Form.antt =====
-- How handleAdminCreateProblem and handleAdminUpdateProblem of src/handler/admin_handler.cc read the body.
use cpp_oj_vbcoding_teach.Prelude.{List, [], ◌∷◌, ◌++◌, Bytes, codes, Option, none, some, length}
use cpp_oj_vbcoding_teach.Prelude.Int.{ℤ, pos}
use cpp_oj_vbcoding_teach.Model.{TestCase, Problem}
use cpp_oj_vbcoding_teach.Web.{JsonValues}

infixl 5 ◌>>=◌
unfoldable pub ◌>>=◌ : {A B : Type 0} → Option A → (A → Option B) → Option B
none >>= f = none
some a >>= f = f a

module _ {J : Type 0} (values : JsonValues J) where
  -- The case that stands behind `found` in the array.
  unfoldable pub read_case : List TestCase → J → Option TestCase
  read_case found j = do
    input ← values.text_value j (codes "input") []
    expected ← values.text_value j (codes "expected") []
    position ← values.int_value j (codes "position") (pos (length found))
    some (record {
      id = pos 0;
      problem_id = pos 0;
      input = input;
      expected = expected;
      position = position;
    })

  -- The loop over the array, with the cases that were read so far.
  unfoldable pub read_cases : List TestCase → List J → Option (List TestCase)
  read_cases found [] = some found
  read_cases found (j ∷ rest) = read_case found j >>= λ tc. read_cases (found ++ tc ∷ []) rest

  unfoldable pub cases_of : Option (List J) → Option (List TestCase)
  cases_of none = some []
  cases_of (some elements) = read_cases [] elements

  -- The problem of a body, whose title and content were found.
  unfoldable pub read_problem : ℤ → Bytes → Bytes → J → Option Problem
  read_problem id title content body = do
    difficulty ← values.text_value body (codes "difficulty") (codes "Easy")
    code_template ← values.text_value body (codes "template") []
    solution_content ← values.text_value body (codes "solution_content") []
    solution_code ← values.text_value body (codes "solution_code") []
    test_cases ← cases_of (values.array_field body (codes "test_cases"))
    some (record {
      id = id;
      title = title;
      difficulty = difficulty;
      content = content;
      code_template = code_template;
      solution_content = solution_content;
      solution_code = solution_code;
      created_at = [];
      test_cases = test_cases;
    })
