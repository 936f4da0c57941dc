-- ===== src/Web.antt =====
-- The service and the handlers of problems. The JSON library is a parameter over its values J, an object
-- of an answer is the list of its fields, and an exception that leaves a handler goes to the HTTP library.
pub mod Service
pub mod Form
pub mod Admin
pub mod Problems
pub mod Guarded
pub mod Inversion
pub mod Creates
pub mod Cases
use cpp_oj_vbcoding_teach.Prelude.{ℕ, List, [], ◌∷◌, Bytes, codes, Option, none, some}
use cpp_oj_vbcoding_teach.Prelude.Int.{ℤ}
use cpp_oj_vbcoding_teach.Auth.Types.{Json, Reply, refusal, Value}
use cpp_oj_vbcoding_teach.Submit.{Fields}
use cpp_oj_vbcoding_teach.Db.Exec.{Db, Exec, ok, pure}

-- `value j key default` is `none` where j is no object or the member has another type, which is an
-- exception. `array_field` gives the elements of a member that is there and is an array.
pub record JsonValues (J : Type 0) : Type 0 where
  pub json : Json J
  pub text_value : J → Bytes → Bytes → Option Bytes
  pub int_value : J → Bytes → ℤ → Option ℤ
  pub array_field : J → Bytes → Option (List J)

-- An answer is a refusal, an object with the status that was set, an array, or an object with an array
-- under "test_cases". A status that is not set is left to the HTTP library.
pub data Answer : Type 0 where
  refused : Reply → Answer
  written : Option ℕ → Fields → Answer
  listed : List Fields → Answer
  shown : Fields → List Fields → Answer

abbrev pub refuse : {W : Type 0} → ℕ → Bytes → Exec W Answer
refuse status message = pure (refused (refusal status message))

-- A function that neither throws nor sleeps.
unfoldable pub attempt : {W A : Type 0} → (Db W → A × Db W) → Exec W A
attempt f s = let (a, s') = f s in (ok a, s')
