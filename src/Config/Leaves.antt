-- ===== src/Config/Leaves.antt =====
-- The rules by which a part of `load` that does not throw leaves a configuration.
use cpp_oj_vbcoding_teach.Prelude.{
  ◌≡◌, refl, sym, ap, ◌∙◌, Bool, true, false, List, [], ◌∷◌, Option, none, some,
}
use cpp_oj_vbcoding_teach.Config.{Load, steps, after, store_value, if_there}

-- The node under a key, where there is one.
abbrev pub there : {N : Type 0} → Option (Option N) → Option N
there none = none
there (some node) = node

abbrev pub or_old : {A : Type 0} → A → Option A → A
or_old old none = old
or_old old (some a) = a

abbrev pub value_of : {N A : Type 0} → (N → Option A) → Option N → Option A
value_of cast none = none
value_of cast (some node) = cast node

-- Where the part does not throw, it leaves `f c`.
pub record Leaves {C : Type 0} (step : Load C) (f : C → C) : Type 0 where
  pub at : (c : C) → (step c).0 ≡ true → step c ≡ (true, f c)

module _ {C : Type 0} where
  pub Leaves-none : Leaves {C = C} (steps []) (λ c. c)
  unfolding steps
  Leaves-none = record { at = λ c h. refl }

  after-true :
      (r : Bool × C) (rest : Load C) (g : C → C)
      → Leaves rest g
      → (after r rest).0 ≡ true
      → (r.0 ≡ true) × (after r rest ≡ (true, g r.1))
  unfolding after
  after-true (true, c) rest g l h = (refl, l.at c h)
  after-true (false, c) rest g l h = absurd cc

  pub Leaves-step :
      (step : Load C) (rest : List (Load C)) (f g : C → C)
      → Leaves step f
      → Leaves (steps rest) g
      → Leaves (steps (step ∷ rest)) (λ c. g (f c))
  unfolding steps
  Leaves-step step rest f g s l = record {
    at = λ c h.
        let (going, same) = after-true (step c) (steps rest) g l h in
        same ∙ ap (λ r. (true, g r.1)) (s.at c going);
  }

  store_true :
      {A : Type 0} (set : A → C → C) (old : A) (v : Option A) (c : C)
      → (store_value set v c).0 ≡ true
      → store_value set v c ≡ (true, set (or_old old v) c)
  unfolding store_value
  store_true set old none c h = absurd cc
  store_true set old (some a) c h = refl

  pub if_there-true :
      {N A : Type 0} (cast : N → Option A) (set : A → C → C) (get : C → A)
      → ((c : C) → set (get c) c ≡ c)
      → (o : Option (Option N)) (c : C)
      → (if_there (λ node. store_value set (cast node)) o c).0 ≡ true
      → if_there (λ node. store_value set (cast node)) o c
        ≡ (true, set (or_old (get c) (value_of cast (there o))) c)
  unfolding if_there
  if_there-true cast set get same none c h = absurd cc
  if_there-true cast set get same (some none) c h = λ i. (true, sym (same c) i)
  if_there-true cast set get same (some (some node)) c h = store_true set (get c) (cast node) c h

  -- What a section leaves.
  abbrev pub in_section : {N : Type 0} → (N → C → C) → Option N → C → C
  in_section f none c = c
  in_section f (some n) c = f n c

  pub section_true :
      {N : Type 0} (inside : N → Load C) (f : N → C → C)
      → ((n : N) → Leaves (inside n) (f n))
      → (o : Option (Option N)) (c : C) → (if_there inside o c).0 ≡ true
      → if_there inside o c ≡ (true, in_section f (there o) c)
  unfolding if_there
  section_true inside f l none c h = absurd cc
  section_true inside f l (some none) c h = refl
  section_true inside f l (some (some n)) c h = (l n).at c h
