-- ===== src/Web/Cases.antt =====
-- The test cases that the handlers read from a body.
use cpp_oj_vbcoding_teach.Prelude.{
  ℕ, suc, ◌≡◌, ◌↔◌, sym, ap, subst, ◌∙◌, List, [], ◌∷◌, ◌++◌, append_assoc, append-nil, codes, some,
  length, length-append, arith,
}
use cpp_oj_vbcoding_teach.Prelude.Int.{pos}
use cpp_oj_vbcoding_teach.Model.{TestCase}
use cpp_oj_vbcoding_teach.Web.{JsonValues}
use cpp_oj_vbcoding_teach.Web.Inversion.{some_inj, bind_some}
use cpp_oj_vbcoding_teach.Web.Form.{◌>>=◌, read_case, read_cases, cases_of}

module _ {J : Type 0} (values : JsonValues J) where
  -- The case at index i: its members are of their types where they are there, and a position that is not
  -- there is the index.
  pub record IsCase (i : ℕ) (j : J) (tc : TestCase) : Type 0 where
    pub input : values.text_value j (codes "input") [] ≡ some tc.input
    pub expected : values.text_value j (codes "expected") [] ≡ some tc.expected
    pub position : values.int_value j (codes "position") (pos i) ≡ some tc.position
    pub id : tc.id ≡ pos 0
    pub problem_id : tc.problem_id ≡ pos 0

  abbrev pub AreCases : ℕ → List J → List TestCase → Type 0
  AreCases i [] [] = Unit
  AreCases i [] (tc ∷ cases) = ⊥
  AreCases i (j ∷ elements) [] = ⊥
  AreCases i (j ∷ elements) (tc ∷ cases) = IsCase i j tc × AreCases (suc i) elements cases

  read_case_only :
      (found : List TestCase) (j : J) (tc : TestCase)
      → read_case values found j ≡ some tc
      → IsCase (length found) j tc
  unfolding read_case ◌>>=◌
  read_case_only found j tc h =
      let (input, i, h₁) = bind_some (values.text_value j (codes "input") []) _ tc h in
      let (expected, e, h₂) = bind_some (values.text_value j (codes "expected") []) _ tc h₁ in
      let (position, p, h₃) =
        bind_some (values.int_value j (codes "position") (pos (length found))) _ tc h₂ in
      let same = some_inj _ tc h₃ in
      record {
        input = i ∙ ap (λ t. some (t.input)) same;
        expected = e ∙ ap (λ t. some (t.expected)) same;
        position = p ∙ ap (λ t. some (t.position)) same;
        id = sym (ap (λ t. t.id) same);
        problem_id = sym (ap (λ t. t.problem_id) same);
      }

  read_case_reads :
      (found : List TestCase) (j : J) (tc : TestCase)
      → IsCase (length found) j tc
      → read_case values found j ≡ some tc
  unfolding read_case ◌>>=◌
  read_case_reads found j tc h =
      simp (read_case, ◌>>=◌, h.input, h.expected, h.position)
        (λ i. some (record tc { id = sym h.id i; problem_id = sym h.problem_id i }))

  length-snoc :
      (found : List TestCase) (tc : TestCase) → length (found ++ tc ∷ []) ≡ suc (length found)
  length-snoc found tc = omega (arith, length-append found (tc ∷ []))

  read_cases_only :
      (found : List TestCase) (elements : List J) (cases : List TestCase)
      → read_cases values found elements ≡ some cases
      → (read : List TestCase) × (cases ≡ found ++ read) × AreCases (length found) elements read
  unfolding read_cases
  read_cases_only found [] cases h = ([], sym (some_inj found cases h) ∙ sym (append-nil found), tt)
  read_cases_only found (j ∷ elements) cases h =
      let (tc, e, rest) = bind_some (read_case values found j) _ cases h in
      let (read, same, are) = read_cases_only (found ++ tc ∷ []) elements cases rest in
      (
        tc ∷ read,
        same ∙ append_assoc found (tc ∷ []) read,
        (
          read_case_only found j tc e,
          subst (λ n. AreCases n elements read) (length-snoc found tc) are,
        ),
      )

  read_cases_reads :
      (found : List TestCase) (elements : List J) (cases : List TestCase)
      → AreCases (length found) elements cases
      → read_cases values found elements ≡ some (found ++ cases)
  unfolding read_cases ◌>>=◌
  read_cases_reads found [] [] _ = ap (λ l. some l) (sym (append-nil found))
  read_cases_reads found [] (tc ∷ cases) h = absurd h
  read_cases_reads found (j ∷ elements) [] h = absurd h
  read_cases_reads found (j ∷ elements) (tc ∷ cases) (here, rest) =
      simp (read_cases, read_case_reads found j tc here, ◌>>=◌)
        (read_cases_reads (found ++ tc ∷ []) elements cases
            (subst (λ n. AreCases n elements cases) (sym (length-snoc found tc)) rest)
          ∙ ap (λ l. some l) (append_assoc found (tc ∷ []) cases))

  -- The array of a body is read as a list of test cases exactly if it has one element for each case in the
  -- same order, whose members "input", "expected" and "position" are of their types where they are there;
  -- a missing text is empty, a missing position is the index of the element, and no case has an id yet.
  pub read_cases_iff :
      (elements : List J) (cases : List TestCase)
      → (cases_of values (some elements) ≡ some cases) ↔ AreCases 0 elements cases
  unfolding cases_of
  read_cases_iff elements cases = (
    λ h.
        let (read, same, are) = read_cases_only [] elements cases h in
        subst (AreCases 0 elements) (sym same) are,
    read_cases_reads [] elements cases,
  )
