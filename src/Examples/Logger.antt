-- ===== src/Examples/Logger.antt =====
-- src/utils/logger.cc on concrete calls.
use cpp_oj_vbcoding_teach.Prelude.{◌≡◌, ◌≢◌, ◌↔◌, refl, true, not, ◌&&◌, List, [], ◌∷◌, codes, some}
use cpp_oj_vbcoding_teach.Logger.{
  debug, info, warning, Logger, Written, init, open_file, new_logger, level_from_string,
  level_to_string,
}
use cpp_oj_vbcoding_teach.Logger.Routes.{
  Message, log_all, lines, is_on, is_severe, in_file, log_all_routes,
  level_from_string-level_to_string,
}

abbrev nothing_written : Written
nothing_written = record { out = []; err = []; files = [] }

abbrev to_disk : Logger
to_disk = record { level = info; file = some (codes "oj.log") }

opened : (init true info (codes "oj.log") new_logger nothing_written).0 ≡ to_disk
unfolding init open_file
opened = refl

abbrev three_calls : List Message
three_calls =
    (codes "1", debug, codes "a")
    ∷ (codes "2", info, codes "b")
    ∷ (codes "3", warning, codes "c")
    ∷ []

log_all_routes_example :
    ((log_all three_calls to_disk nothing_written).out
      ≡ lines (λ l. is_on to_disk l && not (is_severe l)) three_calls)
    × ((log_all three_calls to_disk nothing_written).err
        ≡ lines (λ l. is_on to_disk l && is_severe l) three_calls)
    × ((log_all three_calls to_disk nothing_written).files
        ≡ in_file to_disk.file (lines (is_on to_disk) three_calls))
log_all_routes_example = log_all_routes three_calls to_disk nothing_written

level_from_string-level_to_string_example :
    (level_from_string (level_to_string warning) ≡ warning) ↔ (warning ≢ warning)
level_from_string-level_to_string_example = level_from_string-level_to_string warning
