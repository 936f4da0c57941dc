-- ===== src/Web/Inversion.antt =====
-- What a chain of results says of its parts.
use cpp_oj_vbcoding_teach.Prelude.{◌≡◌, refl, Option, none, some}
use cpp_oj_vbcoding_teach.Db.Exec.{Db, Result, ok, threw, asleep, Exec, lift, then_on}
use cpp_oj_vbcoding_teach.Db.Exec as Exec
use cpp_oj_vbcoding_teach.Web.Form.{◌>>=◌}

pub some_inj : {A : Type 0} (a b : A) → some a ≡ some b → a ≡ b
some_inj a b h = cc

pub bind_some :
    {A B : Type 0} (o : Option A) (f : A → Option B) (b : B)
    → (o >>= f) ≡ some b
    → (a : A) × (o ≡ some a) × (f a ≡ some b)
unfolding ◌>>=◌
bind_some none f b h = absurd cc
bind_some (some a) f b h = (a, refl, h)

module _ {W A B : Type 0} where
  then_on_ok :
      (r : Result A) (f : A → Exec W B) (s : Db W) (b : B)
      → (then_on r f s).0 ≡ ok b
      → (a : A) × (r ≡ ok a) × ((f a s).0 ≡ ok b)
  unfolding then_on
  then_on_ok (ok a) f s b h = (a, refl, h)
  then_on_ok threw f s b h = absurd cc
  then_on_ok asleep f s b h = absurd cc

  pub bind_ok :
      (m : Exec W A) (f : A → Exec W B) (s : Db W) (b : B)
      → (Exec.◌>>=◌ m f s).0 ≡ ok b
      → (a : A) × ((m s).0 ≡ ok a) × ((f a (m s).1).0 ≡ ok b)
  unfolding Exec.◌>>=◌
  bind_ok m f s b h = then_on_ok (m s).0 f (m s).1 b h

  pub bind_lift :
      (o : Option A) (f : A → Exec W B) (s : Db W) (b : B)
      → (Exec.◌>>=◌ (lift o) f s).0 ≡ ok b
      → (a : A) × (o ≡ some a) × ((f a s).0 ≡ ok b)
  unfolding Exec.◌>>=◌ lift then_on
  bind_lift none f s b h = absurd cc
  bind_lift (some a) f s b h = (a, refl, h)
