-- ===== src/Executor/Files/Success.antt =====
-- When the stages before the cases succeed.
use cpp_oj_vbcoding_teach.Prelude.{
  Bool, true, false, not, ◌&&◌, Bytes, Option, none, some, ◌≡◌, refl, arith, ◌⊎◌, inl, inr,
}
use cpp_oj_vbcoding_teach.Executor.Output.{is_empty}
use cpp_oj_vbcoding_teach.Executor.Files.{
  create_file, FileSystem, Compiler, exited_well, compile, Write, not_opened, broken, complete,
  write_file, make_temp_dir,
}

abbrev pub compiles : Compiler → Bool
compiles c = c.pipe_made && c.forked && exited_well c.exit

abbrev pub is_complete : Write → Bool
is_complete complete = true
is_complete _ = false

abbrev pub names_dir : Option Bytes → Bool
names_dir none = false
names_dir (some name) = not (is_empty name)

pub compile-compiles :
    (c : Compiler) (path : Bytes) (fs : FileSystem) → (compile c path fs).0 ≡ compiles c
unfolding compile
compile-compiles c path fs = ground arith

pub write_file-is_complete :
    (w : Write) (path : Bytes) (fs : FileSystem) → (write_file w path fs).0 ≡ is_complete w
unfolding write_file
write_file-is_complete not_opened path fs = refl
write_file-is_complete broken path fs = refl
write_file-is_complete complete path fs = refl

pub make_temp_dir-names_dir :
    (name : Option Bytes) (fs : FileSystem)
    → not (is_empty (make_temp_dir name fs).0) ≡ names_dir name
unfolding make_temp_dir is_empty
make_temp_dir-names_dir none fs = refl
make_temp_dir-names_dir (some name) fs = refl

-- What these stages do to the files.
pub compile-files :
    (c : Compiler) (path : Bytes) (fs : FileSystem)
    → ((compile c path fs).2 ≡ fs) ⊎ ((compile c path fs).2 ≡ create_file path fs)
unfolding compile
compile-files c path fs = ground arith

pub write_file-files :
    (w : Write) (path : Bytes) (fs : FileSystem)
    → ((write_file w path fs).1 ≡ fs) ⊎ ((write_file w path fs).1 ≡ create_file path fs)
unfolding write_file
write_file-files not_opened path fs = inl refl
write_file-files broken path fs = inr refl
write_file-files complete path fs = inr refl

pub write_file_complete :
    (w : Write) (path : Bytes) (fs : FileSystem)
    → (write_file w path fs).0 ≡ true
    → (write_file w path fs).1 ≡ create_file path fs
unfolding write_file
write_file_complete not_opened path fs h = cc
write_file_complete broken path fs h = cc
write_file_complete complete path fs h = refl
