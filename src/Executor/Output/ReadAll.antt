-- ===== src/Executor/Output/ReadAll.antt =====
-- What `readAll` keeps of a stream.
use cpp_oj_vbcoding_teach.Prelude.{
  Bool-cases, inl, inr, lt→ltb, ◌≤◌, ◌<◌, ◌+◌, ◌≡◌, refl, sym, ◌∙◌, List, [], ◌∷◌, ◌++◌,
  append_assoc, append-nil, Bytes, arith, length, length-append, All, ltb,
}
use cpp_oj_vbcoding_teach.Executor.Output.{k_max_output_bytes, read_all, read_all_loop}

-- Everything that the reads deliver.
abbrev pub concat : List Bytes → Bytes
concat [] = []
concat (c ∷ cs) = c ++ concat cs

abbrev pub IsChunk : Bytes → Type 0
IsChunk c = (0 < length c) × (length c ≤ 4096)

read_all_loop_bound :
    (chunks : List Bytes) (result : Bytes)
    → All IsChunk chunks
    → length result ≤ k_max_output_bytes
    → length (read_all_loop chunks result) ≤ k_max_output_bytes + 4096
unfolding read_all_loop
read_all_loop_bound [] result h fits = omega arith
read_all_loop_bound (c ∷ cs) result (hc, h) fits =
    ground (arith, length-append result c, read_all_loop_bound cs (result ++ c) h)

read_all_loop_complete :
    (chunks : List Bytes) (result : Bytes)
    → All IsChunk chunks
    → length (result ++ concat chunks) ≤ k_max_output_bytes
    → read_all_loop chunks result ≡ result ++ concat chunks
unfolding read_all_loop
read_all_loop_complete [] result h fits = sym (append-nil result)
read_all_loop_complete (c ∷ cs) result (hc, h) fits = ground (
  arith,
  length-append result (c ++ concat cs),
  length-append c (concat cs),
  length-append result c,
  append_assoc result c (concat cs),
  read_all_loop_complete cs (result ++ c) h,
)

read_all_loop_prefix :
    (chunks : List Bytes) (result : Bytes)
    → All IsChunk chunks
    → (rest : Bytes) × (result ++ concat chunks ≡ read_all_loop chunks result ++ rest)
unfolding read_all_loop
read_all_loop_prefix [] result h = ([], refl)
read_all_loop_prefix (c ∷ cs) result (hc, h) =
    elim (Bool-cases (ltb k_max_output_bytes (length (result ++ c)))) [
      | inl stop ↦
          (concat cs, rw (lt→ltb 0 (length c) hc.0, stop) (sym (append_assoc result c (concat cs))))
      | inr more ↦
          let (rest, e) = read_all_loop_prefix cs (result ++ c) h in
          (rest, rw (lt→ltb 0 (length c) hc.0, more) (sym (append_assoc result c (concat cs)) ∙ e))
    ]

-- If every read fills at most the buffer of 4096 bytes, `readAll` returns a prefix of the stream, of
-- at most 65536 + 4096 bytes, and the whole stream if that has at most 65536 bytes.
pub read_all_prefix :
    (chunks : List Bytes)
    → All IsChunk chunks
    → ((rest : Bytes) × (concat chunks ≡ read_all chunks ++ rest))
      × (length (read_all chunks) ≤ 65536 + 4096)
      × (length (concat chunks) ≤ 65536 → read_all chunks ≡ concat chunks)
unfolding read_all
read_all_prefix chunks h = (
  read_all_loop_prefix chunks [] h,
  read_all_loop_bound chunks [] h (omega arith),
  read_all_loop_complete chunks [] h,
)
