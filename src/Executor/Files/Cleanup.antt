-- ===== src/Executor/Files/Cleanup.antt =====
-- Removing what was made gives the file system back.
use cpp_oj_vbcoding_teach.Prelude.{
  true, false, List, [], ◌∷◌, ◌++◌, Bytes, codes, str_eq, str_eq_refl, str_eq_iff, ◌≡◌, refl, ◌∙◌,
  arith, append_assoc,
}
use cpp_oj_vbcoding_teach.Executor.Files.{
  FileSystem, erase, contains, starts_with, holds_file, create_file, remove, rmdir,
}

pub starts_with-append : (p s : Bytes) → starts_with p (p ++ s) ≡ true
unfolding starts_with
starts_with-append [] s = refl
starts_with-append (c ∷ p) s = ground (arith, starts_with-append p s)

str_eq-append : (p s t : Bytes) → str_eq (p ++ s) (p ++ t) ≡ str_eq s t
unfolding str_eq
str_eq-append [] s t = refl
str_eq-append (c ∷ p) s t = ground (arith, str_eq-append p s t)

erase-head : (path : Bytes) (ps : List Bytes) → erase path (path ∷ ps) ≡ ps
unfolding erase
erase-head path ps = rw (str_eq_refl path)

erase-absent : (path : Bytes) (ps : List Bytes) → contains path ps ≡ false → erase path ps ≡ ps
unfolding erase contains
erase-absent path [] h = refl
erase-absent path (p ∷ ps) h = ground (arith, erase-absent path ps)

erase-skip :
    (path p : Bytes) (ps : List Bytes)
    → str_eq p path ≡ false
    → erase path (p ∷ ps) ≡ p ∷ erase path ps
unfolding erase
erase-skip path p ps h = rw h

-- A directory without files holds no path below it.
absent :
    (dir : Bytes) (path : Bytes) (ps : List Bytes)
    → starts_with (dir ++ codes "/") path ≡ true
    → holds_file dir ps ≡ false
    → contains path ps ≡ false
unfolding contains holds_file
absent dir path [] below h = refl
absent dir path (p ∷ ps) below h = ground (arith, str_eq_iff p path, absent dir path ps)

-- The file system with the directory made, and a path in it.
abbrev pub made : Bytes → FileSystem → FileSystem
made dir fs = record fs { dirs = dir ∷ fs.dirs }

abbrev pub in_dir : Bytes → Bytes → Bytes
in_dir dir name = dir ++ (b'/' ∷ name)

module _ (dir : Bytes) (fs : FileSystem) (empty : holds_file dir fs.files ≡ false) where
  in_dir-absent : (name : Bytes) → contains (in_dir dir name) fs.files ≡ false
  in_dir-absent name =
      absent dir (in_dir dir name) fs.files
        (rw (← append_assoc dir (codes "/") name) (starts_with-append (dir ++ codes "/") name))
        empty

  create_file-made :
      (name : Bytes)
      → create_file (in_dir dir name) (made dir fs)
        ≡ record (made dir fs) { files = in_dir dir name ∷ fs.files }
  unfolding create_file
  create_file-made name = rw (in_dir-absent name)

  pub rmdir-made : rmdir dir (made dir fs) ≡ fs
  unfolding rmdir
  rmdir-made = rw (empty, erase-head dir fs.dirs)

  pub remove-created :
      (name : Bytes)
      → remove (in_dir dir name) (create_file (in_dir dir name) (made dir fs)) ≡ (made dir fs)
  unfolding remove
  remove-created name = rw (create_file-made name, erase-head (in_dir dir name) fs.files)

  pub remove-absent : (name : Bytes) → remove (in_dir dir name) (made dir fs) ≡ (made dir fs)
  unfolding remove
  remove-absent name = rw (erase-absent (in_dir dir name) fs.files (in_dir-absent name))

  in_dir-apart : (a b : Bytes) → str_eq a b ≡ false → str_eq (in_dir dir a) (in_dir dir b) ≡ false
  in_dir-apart a b h = str_eq-append dir (b'/' ∷ a) (b'/' ∷ b) ∙ unfold str_eq in h

  -- Two files of different names.
  pub remove-two :
      (a b : Bytes)
      → str_eq a b ≡ false
      → str_eq b a ≡ false
      → remove (in_dir dir b) (
          remove
            (in_dir dir a)
            (create_file (in_dir dir b) (create_file (in_dir dir a) (made dir fs))))
        ≡ (made dir fs)
  unfolding remove create_file contains
  remove-two a b differ differ' = rw (
    in_dir-absent a,
    in_dir-apart a b differ,
    in_dir-absent b,
    erase-skip (in_dir dir a) (in_dir dir b) (in_dir dir a ∷ fs.files) (in_dir-apart b a differ'),
    erase-head (in_dir dir a) fs.files,
    erase-head (in_dir dir b) fs.files,
  )
