-- ===== src/Logger/Routes.antt =====
-- Where the messages go.
use cpp_oj_vbcoding_teach.Prelude.{
  ◌≡◌, ◌≢◌, ◌↔◌, refl, sym, ap, ◌∙◌, Bool, true, false, not, ◌&&◌, leb, if◌then◌else◌, List, [],
  ◌∷◌, ◌++◌, append_assoc, append-nil, map, Bytes, str_eq, Option, none, some, arith,
}
use cpp_oj_vbcoding_teach.Logger.{
  LogLevel, debug, info, warning, error, rank, Logger, Written, line_of, to_console, to_file, log,
  level_from_string, level_to_string,
}

-- A call of the logger: the time, the level and the message.
abbrev pub Message : Type 0
Message = Bytes × LogLevel × Bytes

unfoldable pub log_all : List Message → Logger → Written → Written
log_all [] logger w = w
log_all ((time, level, msg) ∷ messages) logger w =
    log_all messages logger (log time level msg logger w)

-- The lines of the messages of which a test on the level holds.
abbrev pub lines : (LogLevel → Bool) → List Message → List Bytes
lines test [] = []
lines test ((time, level, msg) ∷ messages) =
    let rest = lines test messages in if test level then line_of time level msg ∷ rest else rest

abbrev pub is_on : Logger → LogLevel → Bool
is_on logger level = leb (rank logger.level) (rank level)

abbrev pub is_severe : LogLevel → Bool
is_severe level = leb 2 (rank level)

abbrev pub in_file : Option Bytes → List Bytes → List (Bytes × Bytes)
in_file none ls = []
in_file (some path) ls = map (λ l. (path, l)) ls

lines-cons :
    (test : LogLevel → Bool) (m : Message) (messages : List Message)
    → lines test (m ∷ messages) ≡ lines test (m ∷ []) ++ lines test messages
lines-cons test (time, level, msg) messages = go (test level)
  where
    go :
        (b : Bool)
        → (if b then line_of time level msg ∷ lines test messages else lines test messages)
          ≡ (if b then line_of time level msg ∷ [] else []) ++ lines test messages
    go true = refl
    go false = refl

in_file-append :
    (file : Option Bytes) (a b : List Bytes)
    → in_file file (a ++ b) ≡ in_file file a ++ in_file file b
in_file-append none a b = refl
in_file-append (some path) [] b = refl
in_file-append (some path) (l ∷ a) b = ap (◌∷◌ (path, l)) (in_file-append (some path) a b)

module _ (time : Bytes) (level : LogLevel) (msg : Bytes) (logger : Logger) (w : Written) where
  log-out :
      (log time level msg logger w).out
      ≡ w.out ++ lines (λ l. is_on logger l && not (is_severe l)) ((time, level, msg) ∷ [])
  unfolding log to_console to_file
  log-out = ground (arith, append-nil w.out)

  log-err :
      (log time level msg logger w).err
      ≡ w.err ++ lines (λ l. is_on logger l && is_severe l) ((time, level, msg) ∷ [])
  unfolding log to_console to_file
  log-err = ground (arith, append-nil w.err)

  log-files :
      (log time level msg logger w).files
      ≡ w.files ++ in_file logger.file (lines (is_on logger) ((time, level, msg) ∷ []))
  unfolding log to_console to_file
  log-files = ground (arith, append-nil w.files)

joins {ℓ} :
    {A : Type ℓ} (a one rest : List A) {b all : List A}
    → b ≡ a ++ one
    → all ≡ one ++ rest
    → b ++ rest ≡ a ++ all
joins a one rest h k = ap (λ l. l ++ rest) h ∙ append_assoc a one rest ∙ ap (λ l. a ++ l) (sym k)

in_file-nil : (file : Option Bytes) → in_file file [] ≡ []
in_file-nil none = refl
in_file-nil (some path) = refl

-- Whatever is logged in a row, std::cerr gets the lines of the messages that are on and at least warnings,
-- std::cout those that are on and below, and the file, if one is open, all that are on, each in the
-- order of the calls; a message is on if its level is at least the logger's.
pub log_all_routes :
    (messages : List Message) (logger : Logger) (w : Written)
    → ((log_all messages logger w).out
        ≡ w.out ++ lines (λ l. is_on logger l && not (is_severe l)) messages)
      × ((log_all messages logger w).err
          ≡ w.err ++ lines (λ l. is_on logger l && is_severe l) messages)
      × ((log_all messages logger w).files
          ≡ w.files ++ in_file logger.file (lines (is_on logger) messages))
unfolding log_all
log_all_routes [] logger w = (
  sym (append-nil w.out),
  sym (append-nil w.err),
  sym (append-nil w.files) ∙ ap (λ l. w.files ++ l) (sym (in_file-nil logger.file)),
)
log_all_routes ((time, level, msg) ∷ messages) logger w =
    let m : Message = (time, level, msg) in
    let (out, err, files) = log_all_routes messages logger (log time level msg logger w) in
    (
      out
          ∙ joins _ _ _ (log-out time level msg logger w)
              (lines-cons (λ l. is_on logger l && not (is_severe l)) m messages),
      err
          ∙ joins _ _ _ (log-err time level msg logger w)
              (lines-cons (λ l. is_on logger l && is_severe l) m messages),
      files
          ∙ joins _ _ _ (log-files time level msg logger w) (
              ap (in_file logger.file) (lines-cons (is_on logger) m messages)
              ∙ in_file-append logger.file (lines (is_on logger) (m ∷ []))
                  (lines (is_on logger) messages)),
    )

-- The name that a level is logged with is read back as the level, except for warnings: they are logged
-- as WARN, which the configuration does not know.
pub level_from_string-level_to_string :
    (level : LogLevel) → (level_from_string (level_to_string level) ≡ level) ↔ (level ≢ warning)
unfolding level_from_string level_to_string str_eq
level_from_string-level_to_string debug = (λ e n. cc, λ n. refl)
level_from_string-level_to_string info = (λ e n. cc, λ n. refl)
level_from_string-level_to_string warning = (λ e n. cc, λ n. absurd (n refl))
level_from_string-level_to_string error = (λ e n. cc, λ n. refl)
