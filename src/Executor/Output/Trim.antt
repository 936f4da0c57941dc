-- ===== src/Executor/Output/Trim.antt =====
-- Outputs are compared up to blanks at the end.
use cpp_oj_vbcoding_teach.Prelude.{
  ℕ, zero, suc, ◌≡◌, refl, sym, ap, ◌∙◌, ◌↔◌, ◌⊎◌, inl, inr, true, false, not, ◌&&◌, [], ◌∷◌, ◌++◌,
  append_assoc, append-nil, Bytes, arith, Bool-cases, ◌==◌, length, length-append, All, All-append,
  str_eq_iff,
}
use cpp_oj_vbcoding_teach.Executor.Output.{
  back, pop_back, is_empty, is_trailing, trim_loop, trim_trailing, same_output, end_line,
}

abbrev pub IsBlank : ℕ → Type 0
IsBlank c = (c ≡ b'\n') ⊎ ((c ≡ b'\r') ⊎ (c ≡ b' '))

is_trailing_iff : (c : ℕ) → (is_trailing c ≡ true) ↔ IsBlank c
unfolding is_trailing
is_trailing_iff c = ground arith

back-snoc : (s : Bytes) (c : ℕ) → back (s ++ c ∷ []) ≡ c
unfolding back
back-snoc [] c = refl
back-snoc (x ∷ []) c = refl
back-snoc (x ∷ y ∷ s) c = back-snoc (y ∷ s) c

pop_back-snoc : (s : Bytes) (c : ℕ) → pop_back (s ++ c ∷ []) ≡ s
unfolding pop_back
pop_back-snoc [] c = refl
pop_back-snoc (x ∷ []) c = refl
pop_back-snoc (x ∷ y ∷ s) c = ap (◌∷◌ x) (pop_back-snoc (y ∷ s) c)

is_empty-snoc : (s : Bytes) (c : ℕ) → is_empty (s ++ c ∷ []) ≡ false
unfolding is_empty
is_empty-snoc [] c = refl
is_empty-snoc (x ∷ s) c = refl

-- A nonempty text is what `pop_back` leaves and its last byte.
snoc-pop_back : (s : Bytes) → is_empty s ≡ false → s ≡ pop_back s ++ back s ∷ []
unfolding is_empty pop_back back
snoc-pop_back [] h = cc
snoc-pop_back (x ∷ []) h = refl
snoc-pop_back (x ∷ y ∷ s) h = ap (◌∷◌ x) (snoc-pop_back (y ∷ s) refl)

length-pop_back : (s : Bytes) (n : ℕ) → length s ≡ suc n → length (pop_back s) ≡ n
unfolding pop_back
length-pop_back [] n h = absurd (omega arith)
length-pop_back (x ∷ []) n h = omega arith
length-pop_back (x ∷ y ∷ s) zero h = absurd (omega arith)
length-pop_back (x ∷ y ∷ s) (suc n) h = ap suc (length-pop_back (y ∷ s) n (omega arith))

length-snoc : (s : Bytes) (c : ℕ) → length (s ++ c ∷ []) ≡ suc (length s)
length-snoc s c = omega (arith, length-append s (c ∷ []))

-- A blank at the end is trimmed.
trim_trailing-blank :
    (s : Bytes) (c : ℕ) → IsBlank c → trim_trailing (s ++ c ∷ []) ≡ trim_trailing s
unfolding trim_trailing trim_loop
trim_trailing-blank s c h =
    rw (
      length-snoc s c,
      is_empty-snoc s c,
      back-snoc s c,
      (is_trailing_iff c).1 h,
      pop_back-snoc s c,
    )

trim_trailing-append : (s w : Bytes) → All IsBlank w → trim_trailing (s ++ w) ≡ trim_trailing s
trim_trailing-append s [] h = ap trim_trailing (append-nil s)
trim_trailing-append s (c ∷ w) (hc, h) =
    ap trim_trailing (sym (append_assoc s (c ∷ []) w))
    ∙ trim_trailing-append (s ++ c ∷ []) w h
    ∙ trim_trailing-blank s c hc

-- What `trim_loop` takes off are blanks, and with a round for each byte nothing is left to trim.
trim_loop_split :
    (n : ℕ) (s : Bytes)
    → length s ≡ n
    → (w : Bytes) × (s ≡ trim_loop n s ++ w)
      × All IsBlank w
      × ((trim_loop n s ≡ []) ⊎ (is_trailing (back (trim_loop n s)) ≡ false))
unfolding trim_loop is_trailing is_empty
trim_loop_split zero [] h = ([], refl, tt, inl refl)
trim_loop_split zero (c ∷ s) h = absurd (omega arith)
trim_loop_split (suc n) s h = elim (Bool-cases (not (is_empty s) && is_trailing (back s))) [
  | inl blank ↦
      let (w, e, blanks, last) = trim_loop_split n (pop_back s) (length-pop_back s n h) in
      (
        w ++ back s ∷ [],
        rw blank (
            snoc-pop_back s (ground arith)
            ∙ ap (λ (t : Bytes). t ++ back s ∷ []) e
            ∙ append_assoc (trim_loop n (pop_back s)) w (back s ∷ [])),
        All-append IsBlank w (back s ∷ []) blanks ((is_trailing_iff (back s)).0 (ground arith), tt),
        rw blank last,
      )
  | inr kept ↦ ([], rw kept (sym (append-nil s)), tt, rw kept (ends s kept))
]
  where
    ends :
        (t : Bytes)
        → not (is_empty t) && is_trailing (back t) ≡ false
        → (t ≡ []) ⊎ (is_trailing (back t) ≡ false)
    ends [] k = inl refl
    ends (c ∷ t) k = inr k

-- One text, with blanks (newline, carriage return, space) behind it on either side.
abbrev pub AgreeUpToBlanks : Bytes → Bytes → Type 0
AgreeUpToBlanks actual expected =
    (text : Bytes) × (w w' : Bytes) × (actual ≡ text ++ w)
    × (expected ≡ text ++ w')
    × All IsBlank w
    × All IsBlank w'

same_output-AgreeUpToBlanks :
    (actual expected : Bytes) → same_output actual expected ≡ true → AgreeUpToBlanks actual expected
unfolding same_output trim_trailing
same_output-AgreeUpToBlanks actual expected h =
    let (w, e, blanks, _) = trim_loop_split (length actual) actual refl in
    let (w', e', blanks', _) = trim_loop_split (length expected) expected refl in
    let same : trim_trailing actual ≡ trim_trailing expected = (str_eq_iff _ _).0 h in
    (trim_trailing actual, w, w', e, rw same e', blanks, blanks')

AgreeUpToBlanks-same_output :
    (actual expected : Bytes) → AgreeUpToBlanks actual expected → same_output actual expected ≡ true
unfolding same_output
AgreeUpToBlanks-same_output actual expected (text, w, w', e, e', blanks, blanks') =
    (str_eq_iff _ _).1 (
      ap trim_trailing e
      ∙ trim_trailing-append text w blanks
      ∙ sym (trim_trailing-append text w' blanks')
      ∙ sym (ap trim_trailing e'))

-- The comparison accepts exactly the pairs of outputs that are one text with blanks (newline,
-- carriage return, space) behind it on either side.
pub same_output_iff :
    (actual expected : Bytes)
    → (same_output actual expected ≡ true) ↔ AgreeUpToBlanks actual expected
same_output_iff actual expected =
    (same_output-AgreeUpToBlanks actual expected, AgreeUpToBlanks-same_output actual expected)

-- The newline that is put behind an output without one does not change the comparison.
pub same_output-end_line :
    (actual expected : Bytes) → same_output (end_line actual) expected ≡ same_output actual expected
unfolding same_output end_line is_trailing
same_output-end_line actual expected =
    elim (Bool-cases (not (is_empty actual) && not (back actual == 10))) [
      | inl added ↦ rw (added, trim_trailing-blank actual 10 (inl refl))
      | inr kept ↦ rw kept
    ]
