-- ===== src/Logger.antt =====
-- The logger: src/utils/logger.cc and src/utils/logger.h. Every operation holds the mutex, so the calls are
-- a sequence. What is written is kept as lists of lines in order; the clock's text and whether a
-- file can be opened are arguments.
pub mod Routes
use cpp_oj_vbcoding_teach.Prelude.{
  ℕ, Bool, true, false, leb, ltb, if◌then◌else◌, List, [], ◌∷◌, ◌++◌, Bytes, codes, str_eq, Option,
  none, some,
}

pub data LogLevel : Type 0 where
  debug : LogLevel
  info : LogLevel
  warning : LogLevel
  error : LogLevel

-- The number of an enumerator, by which `<` and `>=` compare.
abbrev pub rank : LogLevel → ℕ
rank debug = 0
rank info = 1
rank warning = 2
rank error = 3

pub record Logger : Type 0 where
  pub level : LogLevel
  pub file : Option Bytes

abbrev pub new_logger : Logger
new_logger = record { level = info; file = none }

-- What reached std::cout, std::cerr and the files, each with its path.
pub record Written : Type 0 where
  pub out : List Bytes
  pub err : List Bytes
  pub files : List (Bytes × Bytes)

unfoldable pub open_file : Bool → Bytes → Logger → Written → Logger × Written
open_file true path logger w = (record logger { file = some path }, w)
open_file false path logger w =
    let line = codes "[LOGGER] Failed to open log file: " ++ (path ++ codes "\n") in
    (record logger { file = none }, record w { err = w.err ++ line ∷ [] })

unfoldable pub init : Bool → LogLevel → Bytes → Logger → Written → Logger × Written
init opens level [] logger w = (record logger { level = level }, w)
init opens level (c ∷ path) logger w =
    open_file opens (c ∷ path) (record logger { level = level }) w

abbrev pub set_level : LogLevel → Logger → Logger
set_level level logger = record logger { level = level }

abbrev pub shutdown : Logger → Logger
shutdown logger = new_logger

unfoldable pub level_from_string : Bytes → LogLevel
level_from_string s =
    if str_eq s (codes "DEBUG")
    then debug
    else if str_eq s (codes "INFO")
    then info
    else if str_eq s (codes "WARNING")
    then warning
    else if str_eq s (codes "ERROR")
    then error
    else info

unfoldable pub level_to_string : LogLevel → Bytes
level_to_string debug = codes "DEBUG"
level_to_string info = codes "INFO"
level_to_string warning = codes "WARN"
level_to_string error = codes "ERROR"

unfoldable pub line_of : Bytes → LogLevel → Bytes → Bytes
line_of time level msg =
    codes "["
    ++ (time ++ (codes "] [" ++ (level_to_string level ++ (codes "] " ++ (msg ++ codes "\n")))))

unfoldable pub to_console : LogLevel → Bytes → Written → Written
to_console level line w =
    if leb 2 (rank level)
    then record w { err = w.err ++ line ∷ [] }
    else record w { out = w.out ++ line ∷ [] }

unfoldable pub to_file : Option Bytes → Bytes → Written → Written
to_file none line w = w
to_file (some path) line w = record w { files = w.files ++ (path, line) ∷ [] }

unfoldable pub log : Bytes → LogLevel → Bytes → Logger → Written → Written
log time level msg logger w =
    let line = line_of time level msg in
    if ltb (rank level) (rank logger.level)
    then w
    else to_file logger.file line (to_console level line w)
