-- ===== src/Auth/Cleanup.antt =====
-- The background clean-up of AuthService, src/service/auth_service.cc: starting and stopping the thread, and
-- its loop, one step for each test that it makes. The clock, in seconds, is read at every step.
pub mod Cadence
use cpp_oj_vbcoding_teach.Prelude.{
  ℕ, zero, suc, ◌+◌, Bool, true, false, not, ◌&&◌, ltb, if◌then◌else◌, List, [], ◌∷◌, Option, none,
  some,
}
use cpp_oj_vbcoding_teach.Prelude.Int.{ℤ, pos, negsuc}

-- Where the thread stands in `cleanupLoop`: at the outer test, at the inner test with the time
-- `waitUntil`, at the test behind the wait, in `cleanupExpired`, or behind the loop.
pub data Point : Type 0 where
  outer : Point
  waiting : ℕ → Point
  woken : Point
  cleaning : Point
  ended : Point

-- `cleaned` counts the calls of `cleanupExpired` that are done.
pub record Loop : Type 0 where
  pub point : Point
  pub cleaned : ℕ

-- `seconds(intervalSeconds)`: a wait of a negative number of seconds is over at once.
abbrev pub seconds : ℤ → ℕ
seconds (pos n) = n
seconds (negsuc n) = zero

unfoldable pub next_point : Bool → ℕ → ℕ → Point → Point
next_point running interval now outer = if running then waiting (now + interval) else ended
next_point running interval now (waiting until) =
    if running && ltb now until then waiting until else woken
next_point running interval now woken = if running then cleaning else ended
next_point running interval now cleaning = outer
next_point running interval now ended = ended

unfoldable pub done_at : Point → ℕ → ℕ
done_at cleaning cleaned = suc cleaned
done_at outer cleaned = cleaned
done_at (waiting until) cleaned = cleaned
done_at woken cleaned = cleaned
done_at ended cleaned = cleaned

abbrev pub loop_step : Bool → ℕ → ℕ → Loop → Loop
loop_step running interval now l = record {
  point = next_point running interval now l.point;
  cleaned = done_at l.point l.cleaned;
}

abbrev pub new_loop : Loop
new_loop = record { point = outer; cleaned = zero }

-- cleanupRunning_ and cleanupThread_; `none` is a thread that cannot be joined.
pub record Service : Type 0 where
  pub running : Bool
  pub interval : ℕ
  pub thread : Option Loop

abbrev pub new_service : Service
new_service = record { running = false; interval = zero; thread = none }

-- Assigning to a std::thread that can be joined ends the program: the result `none`.
unfoldable pub replace_thread : ℕ → Option Loop → Option Service
replace_thread interval none =
    some (record { running = true; interval = interval; thread = some new_loop })
replace_thread interval (some l) = none

unfoldable pub start_background_cleanup : ℤ → Service → Option Service
start_background_cleanup interval s =
    if s.running then some s else replace_thread (seconds interval) s.thread

-- The thread is joined: it has ended when `stopBackgroundCleanup` returns.
unfoldable pub stop_background_cleanup : Service → Service
stop_background_cleanup s = if not s.running then s else record s { running = false; thread = none }

pub data Call : Type 0 where
  starts : ℤ → Call
  stops : Call

-- The calls of one thread of the program, one after the other.
unfoldable pub calls : List Call → Service → Option Service
calls [] s = some s
calls (starts interval ∷ rest) s = elim (start_background_cleanup interval s) [
  | none ↦ none
  | some t ↦ calls rest t
]
calls (stops ∷ rest) s = calls rest (stop_background_cleanup s)
