-- ===== src/Web/Admin.antt =====
-- The handlers of src/handler/admin_handler.cc. `raw` is the Cookie header, `path_id` the digits that the
-- route matched, and `request` the body.
use cpp_oj_vbcoding_teach.Prelude.{if◌then◌else◌, [], ◌∷◌, Bytes, codes, Option, none, some}
use cpp_oj_vbcoding_teach.Prelude.Int.{ℤ, pos, is_negative}
use cpp_oj_vbcoding_teach.Prelude.Parse.{stoi}
use cpp_oj_vbcoding_teach.Model.{Problem}
use cpp_oj_vbcoding_teach.Auth.Types.{Mappers, text, number}
use cpp_oj_vbcoding_teach.Auth.Guard.{Check, denied, passed, require_admin}
use cpp_oj_vbcoding_teach.Db.Mysql.{Server}
use cpp_oj_vbcoding_teach.Db.Exec.{Db, Exec, pure, lift, ◌>>=◌}
use cpp_oj_vbcoding_teach.Web.{JsonValues, Answer, refused, written, refuse, attempt}
use cpp_oj_vbcoding_teach.Web.Form.{read_problem}
use cpp_oj_vbcoding_teach.Web.Service.{create_problem, update_problem, delete_problem_by_id}

-- The rest of a handler behind the check.
unfoldable pub behind_check : {W : Type 0} → Exec W Answer → Check → Exec W Answer
behind_check rest (denied reply) = pure (refused reply)
behind_check rest (passed user) = rest

module _ {W : Type 0} (mappers : Mappers (Db W)) where
  unfoldable pub guarded : Bytes → Exec W Answer → Exec W Answer
  guarded raw rest = attempt (require_admin mappers raw) >>= behind_check rest

module _ {W : Type 0} (server : Server W) where
  unfoldable pub store : Problem → Exec W Answer
  store problem = do
    id ← create_problem server problem
    if is_negative id
        then refuse 500 (codes "Failed to create problem")
        else pure (
            written (some 201) (
              (codes "id", number id)
              ∷ (codes "message", text (codes "Problem created successfully"))
              ∷ []))

  unfoldable pub replace : Problem → Exec W Answer
  replace problem = do
    updated ← update_problem server problem
    if updated
        then pure
            (written none ((codes "message", text (codes "Problem updated successfully")) ∷ []))
        else refuse 404 (codes "Problem not found")

  unfoldable pub remove_problem : ℤ → Exec W Answer
  remove_problem id = do
    deleted ← delete_problem_by_id server id
    if deleted
        then pure
            (written none ((codes "message", text (codes "Problem deleted successfully")) ∷ []))
        else refuse 404 (codes "Problem not found")

module _ {W : Type 0} {J : Type 0} (values : JsonValues J) where
  open values use {json}

  -- The tests of the body that both handlers make, and what they do with its problem.
  unfoldable pub with_fields :
      ℤ → J → (Problem → Exec W Answer) → Option Bytes → Option Bytes → Exec W Answer
  with_fields id body f none content = refuse 400 (codes "Missing or invalid 'title' field")
  with_fields id body f (some title) none = refuse 400 (codes "Missing or invalid 'content' field")
  with_fields id body f (some title) (some content) =
      lift (read_problem values id title content body) >>= f

  unfoldable pub with_body : ℤ → (Problem → Exec W Answer) → Option J → Exec W Answer
  with_body id f none = refuse 400 (codes "Invalid JSON")
  with_body id f (some body) =
      with_fields id body f (json.text_field body (codes "title"))
        (json.text_field body (codes "content"))

  module _ (server : Server W) (mappers : Mappers (Db W)) where
    unfoldable pub handle_create : Bytes → Bytes → Exec W Answer
    handle_create raw request =
        guarded mappers raw (with_body (pos 0) (store server) (json.parse request))

    unfoldable pub handle_update : Bytes → Bytes → Bytes → Exec W Answer
    handle_update raw path_id request =
        guarded mappers raw
          (lift (stoi path_id) >>= λ id. with_body id (replace server) (json.parse request))

module _ {W : Type 0} (server : Server W) (mappers : Mappers (Db W)) where
  unfoldable pub handle_delete : Bytes → Bytes → Exec W Answer
  handle_delete raw path_id = guarded mappers raw (lift (stoi path_id) >>= remove_problem server)
