-- ===== src/Executor/Output.antt =====
-- `readAll` and the comparison of outputs.
pub mod ReadAll
pub mod Trim
use cpp_oj_vbcoding_teach.Prelude.{
  ℕ, zero, suc, Bool, true, false, ◌&&◌, ◌||◌, not, List, [], ◌∷◌, ◌++◌, Bytes, ltb, ◌==◌,
  if◌then◌else◌, length, str_eq,
}

abbrev pub k_max_output_bytes : ℕ
k_max_output_bytes = 65536

-- The loop of `readAll`: `chunks` is what each call of `read` puts into the buffer. An empty chunk,
-- or the end of the list, stands for a result of 0 or less.
unfoldable pub read_all_loop : List Bytes → Bytes → Bytes
read_all_loop [] result = result
read_all_loop (chunk ∷ chunks) result =
    let longer = result ++ chunk in
    let more = read_all_loop chunks longer in
    if ltb 0 (length chunk)
    then (if ltb k_max_output_bytes (length longer) then longer else more)
    else result

unfoldable pub read_all : List Bytes → Bytes
read_all chunks = read_all_loop chunks []

-- `s.back()` and `s.pop_back()`; neither is called on an empty string.
unfoldable pub back : Bytes → ℕ
back [] = 0
back (c ∷ []) = c
back (c ∷ d ∷ s) = back (d ∷ s)

unfoldable pub pop_back : Bytes → Bytes
pop_back [] = []
pop_back (c ∷ []) = []
pop_back (c ∷ d ∷ s) = c ∷ pop_back (d ∷ s)

unfoldable pub is_empty : Bytes → Bool
is_empty [] = true
is_empty (c ∷ s) = false

-- '\n', '\r' and ' '.
unfoldable pub is_trailing : ℕ → Bool
is_trailing c = c == 10 || c == 13 || c == 32

-- The loop of `trimTrailing` takes one byte from the end in each round.
unfoldable pub trim_loop : ℕ → Bytes → Bytes
trim_loop zero s = s
trim_loop (suc fuel) s =
    let rest = trim_loop fuel (pop_back s) in
    if not (is_empty s) && is_trailing (back s) then rest else s

unfoldable pub trim_trailing : Bytes → Bytes
trim_trailing s = trim_loop (length s) s

-- `if (!result.actual.empty() && result.actual.back() != '\n') result.actual += '\n';`
unfoldable pub end_line : Bytes → Bytes
end_line s = if not (is_empty s) && not (back s == 10) then s ++ 10 ∷ [] else s

-- `normActual == normExpected`
unfoldable pub same_output : Bytes → Bytes → Bool
same_output actual expected = str_eq (trim_trailing actual) (trim_trailing expected)
