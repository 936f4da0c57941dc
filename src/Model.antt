-- ===== src/Model.antt =====
-- The structs of src/model: rows of the database as the program holds them.
use cpp_oj_vbcoding_teach.Prelude.{List, [], Bytes}
use cpp_oj_vbcoding_teach.Prelude.Int.{ℤ, pos}

pub record TestCase : Type 0 where
  pub id : ℤ
  pub problem_id : ℤ
  pub input : Bytes
  pub expected : Bytes
  pub position : ℤ

pub record Problem : Type 0 where
  pub id : ℤ
  pub title : Bytes
  pub difficulty : Bytes
  pub content : Bytes
  pub code_template : Bytes
  pub solution_content : Bytes
  pub solution_code : Bytes
  pub created_at : Bytes
  pub test_cases : List TestCase

-- `Problem problem;`, which a search that finds nothing returns.
abbrev pub no_problem : Problem
no_problem = record {
  id = pos 0;
  title = [];
  difficulty = [];
  content = [];
  code_template = [];
  solution_content = [];
  solution_code = [];
  created_at = [];
  test_cases = [];
}

pub record User : Type 0 where
  pub id : ℤ
  pub username : Bytes
  pub password : Bytes
  pub role : Bytes
  pub created_at : Bytes

abbrev pub no_user : User
no_user = record { id = pos 0; username = []; password = []; role = []; created_at = [] }

pub record Session : Type 0 where
  pub id : Bytes
  pub user_id : ℤ
  pub expires_at : Bytes
  pub created_at : Bytes

abbrev pub no_session : Session
no_session = record { id = []; user_id = pos 0; expires_at = []; created_at = [] }
