-- ===== src/Web/Creates.antt =====
-- When handleAdminCreateProblem answers 201.
use cpp_oj_vbcoding_teach.Prelude.{◌≡◌, false, [], ◌∷◌, Bytes, codes, some}
use cpp_oj_vbcoding_teach.Prelude.Int.{ℤ, pos, is_negative}
use cpp_oj_vbcoding_teach.Model.{Problem}
use cpp_oj_vbcoding_teach.Auth.Types.{text, number}
use cpp_oj_vbcoding_teach.Auth.Cookie.{empty}
use cpp_oj_vbcoding_teach.Db.Mysql.{Server}
use cpp_oj_vbcoding_teach.Db.Exec.{Db, ok, Exec}
use cpp_oj_vbcoding_teach.Mapper.Problems as Problems
use cpp_oj_vbcoding_teach.Web.{JsonValues, Answer, written}
use cpp_oj_vbcoding_teach.Web.Form.{read_problem}

-- The answer to a problem that was created.
abbrev pub created : ℤ → Answer
created id =
    written (some 201) (
      (codes "id", number id) ∷ (codes "message", text (codes "Problem created successfully")) ∷ [])

abbrev id_of : Answer → ℤ
id_of (written status ((name, number i) ∷ fields)) = i
id_of answer = pos 0

-- The body has a title and a content, and the server takes the problem.
module _ {W : Type 0} {J : Type 0} (values : JsonValues J) (server : Server W) where
  open values use {json}

  pub record IsStored (request : Bytes) (s : Db W) (id : ℤ) : Type 0 where
    pub body : J
    pub title : Bytes
    pub content : Bytes
    pub problem : Problem
    pub parsed : json.parse request ≡ some body
    pub title_there : json.text_field body (codes "title") ≡ some title
    pub content_there : json.text_field body (codes "content") ≡ some content
    pub read : read_problem values (pos 0) title content body ≡ some problem
    pub title_long : empty problem.title ≡ false
    pub content_long : empty problem.content ≡ false
    pub inserted : (Problems.insert server problem s).0 ≡ ok id
    pub accepted : is_negative id ≡ false
