-- ===== src/Executor/Files.antt =====
-- The directories and files that the judge makes and removes: `makeTempDir`, `writeFile`, `compile` of
-- src/service/executor_service.cc, `std::remove` and `rmdir`. A path is a list of bytes.
pub mod Success
pub mod Cleanup
use cpp_oj_vbcoding_teach.Prelude.{
  ℕ, Bool, true, false, not, ◌&&◌, ◌||◌, List, [], ◌∷◌, ◌++◌, Bytes, codes, Option, none, some,
  ◌==◌, if◌then◌else◌, str_eq,
}
use cpp_oj_vbcoding_teach.Executor.Types.{ExitStatus, exited, signaled, stopped}
use cpp_oj_vbcoding_teach.Executor.Output.{read_all}

-- The paths that exist.
pub record FileSystem : Type 0 where
  pub dirs : List Bytes
  pub files : List Bytes

unfoldable pub erase : Bytes → List Bytes → List Bytes
erase path [] = []
erase path (p ∷ ps) = if str_eq p path then ps else p ∷ erase path ps

unfoldable pub contains : Bytes → List Bytes → Bool
contains path [] = false
contains path (p ∷ ps) = str_eq p path || contains path ps

unfoldable pub starts_with : Bytes → Bytes → Bool
starts_with [] s = true
starts_with (c ∷ p) [] = false
starts_with (c ∷ p) (d ∷ s) = c == d && starts_with p s

-- A file lies in the directory.
unfoldable pub holds_file : Bytes → List Bytes → Bool
holds_file dir [] = false
holds_file dir (p ∷ ps) = starts_with (dir ++ codes "/") p || holds_file dir ps

unfoldable pub create_file : Bytes → FileSystem → FileSystem
create_file path fs = if contains path fs.files then fs else record fs { files = path ∷ fs.files }

-- `std::remove(path)`; a path that does not exist is left alone.
unfoldable pub remove : Bytes → FileSystem → FileSystem
remove path fs = record fs { files = erase path fs.files }

-- `rmdir(dir)` fails on a directory that is not empty.
unfoldable pub rmdir : Bytes → FileSystem → FileSystem
rmdir dir fs = if holds_file dir fs.files then fs else record fs { dirs = erase dir fs.dirs }

-- `makeTempDir`; `answer` is the name that `mkdtemp` made up, if it succeeded.
unfoldable pub make_temp_dir : Option Bytes → FileSystem → Bytes × FileSystem
make_temp_dir none fs = ([], fs)
make_temp_dir (some name) fs = (name, record fs { dirs = name ∷ fs.dirs })

-- How the output stream fares: it is not opened, it is opened and fails later, or all is written.
pub data Write : Type 0 where
  not_opened broken complete : Write

unfoldable pub write_file : Write → Bytes → FileSystem → Bool × FileSystem
write_file not_opened path fs = (false, fs)
write_file broken path fs = (false, create_file path fs)
write_file complete path fs = (true, create_file path fs)

-- What the system answers during one call of the compiler; `produced` says that g++ left a binary.
pub record Compiler : Type 0 where
  pub pipe_made : Bool
  pub forked : Bool
  pub chunks : List Bytes
  pub exit : ExitStatus
  pub produced : Bool
  pub ends : Bool

-- `WIFEXITED(status) && WEXITSTATUS(status) == 0`
unfoldable pub exited_well : ExitStatus → Bool
exited_well (exited code) = code == 0
exited_well (signaled sig) = false
exited_well stopped = false

-- `compile`: whether it succeeded, the error text, and the files behind it.
unfoldable pub compile : Compiler → Bytes → FileSystem → Bool × Bytes × FileSystem
compile c bin_path fs =
    if not c.pipe_made
    then (false, codes "Failed to create pipe for compilation", fs)
    else if not c.forked
    then (false, codes "Fork failed", fs)
    else (
      exited_well c.exit,
      read_all c.chunks,
      (if c.produced then create_file bin_path fs else fs),
    )
