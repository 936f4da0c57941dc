-- ===== src/Auth/Cleanup/Cadence.antt =====
-- How often the sessions are cleaned up, and that stopping the thread ends it.
use cpp_oj_vbcoding_teach.Prelude.{
  ℕ, suc, ◌+◌, ◌*◌, ◌≤◌, ◌≡◌, ◌≢◌, ◌⊎◌, inl, inr, refl, true, false, List, [], ◌∷◌, none, some,
  arith,
}
use cpp_oj_vbcoding_teach.Prelude.Int.{ℤ}
use cpp_oj_vbcoding_teach.Auth.Cleanup.{
  Point, outer, waiting, woken, cleaning, ended, Loop, next_point, done_at, loop_step, new_loop,
  Service, new_service, start_background_cleanup, stop_background_cleanup, replace_thread, seconds,
  Call, starts, stops, calls,
}

-- The clock at the steps of the thread, none earlier than the one before, and its last value.
abbrev pub IsClock : ℕ → List ℕ → Type 0
IsClock from [] = Unit
IsClock from (now ∷ times) = (from ≤ now) × IsClock now times

abbrev pub last : ℕ → List ℕ → ℕ
last from [] = from
last from (now ∷ times) = last now times

-- The thread while `cleanupRunning_` is set.
abbrev pub run_loop : ℕ → List ℕ → Loop → Loop
run_loop interval [] l = l
run_loop interval (now ∷ times) l = run_loop interval times (loop_step true interval now l)

-- The clean-ups that are done have taken their time, and the one that is due takes its own.
abbrev Spent : ℕ → ℕ → ℕ → ℕ → Point → Type 0
Spent from interval taken now outer = from + taken ≤ now
Spent from interval taken now (waiting until) =
    (from + taken + interval ≤ until) × (from + taken ≤ now)
Spent from interval taken now woken = from + taken + interval ≤ now
Spent from interval taken now cleaning = from + taken + interval ≤ now
Spent from interval taken now ended = from + taken ≤ now

suc_times : (c n : ℕ) → suc c * n ≡ c * n + n
suc_times c n = omega arith

step-Spent :
    (from interval cleaned before now : ℕ) (p : Point)
    → before ≤ now
    → Spent from interval (cleaned * interval) before p
    → Spent from interval (done_at p cleaned * interval) now (next_point true interval now p)
unfolding done_at next_point
step-Spent from interval cleaned before now outer h k = omega arith
step-Spent from interval cleaned before now (waiting until) h k = ground arith
step-Spent from interval cleaned before now woken h k = omega arith
step-Spent from interval cleaned before now cleaning h k = omega (arith, suc_times cleaned interval)
step-Spent from interval cleaned before now ended h k = omega arith

Spent-taken :
    (from interval taken now : ℕ) (p : Point) → Spent from interval taken now p → from + taken ≤ now
Spent-taken from interval taken now outer k = k
Spent-taken from interval taken now (waiting until) k = k.1
Spent-taken from interval taken now woken k = omega arith
Spent-taken from interval taken now cleaning k = omega arith
Spent-taken from interval taken now ended k = k

run_loop-Spent :
    (from interval before : ℕ) (times : List ℕ) (l : Loop)
    → IsClock before times
    → Spent from interval (l.cleaned * interval) before l.point
    → from + (run_loop interval times l).cleaned * interval ≤ last before times
run_loop-Spent from interval before [] l clock k =
    Spent-taken from interval (l.cleaned * interval) before l.point k
run_loop-Spent from interval before (now ∷ times) l (h, clock) k =
    run_loop-Spent from interval now times (loop_step true interval now l) clock
      (step-Spent from interval l.cleaned before now l.point h k)

-- While the thread runs, it cleans up at most once in an interval: at the last reading of a clock that
-- does not go back, an interval for each clean-up that is done has passed since the start.
pub run_loop_paced :
    (interval from : ℕ) (times : List ℕ)
    → IsClock from times
    → from + (run_loop interval times new_loop).cleaned * interval ≤ last from times
run_loop_paced interval from times clock =
    run_loop-Spent from interval from times new_loop clock (omega arith)

-- When `cleanupRunning_` is cleared, the thread ends at its second test at the latest, wherever it stands
-- and whatever the clock shows, and it cleans up only if it was about to.
pub loop_step_ends :
    (interval now later : ℕ) (l : Loop)
    → ((loop_step false interval later (loop_step false interval now l)).point ≡ ended)
      × (((loop_step false interval later (loop_step false interval now l)).cleaned ≡ l.cleaned)
          ⊎ ((l.point ≡ cleaning)
              × ((loop_step false interval later (loop_step false interval now l)).cleaned
                  ≡ suc l.cleaned)))
unfolding next_point done_at
loop_step_ends interval now later l = go l.point
  where
    go :
        (p : Point)
        → (next_point false interval later (next_point false interval now p) ≡ ended)
          × ((done_at (next_point false interval now p) (done_at p l.cleaned) ≡ l.cleaned)
              ⊎ ((p ≡ cleaning)
                  × (done_at (next_point false interval now p) (done_at p l.cleaned)
                      ≡ suc l.cleaned)))
    go outer = (refl, inl refl)
    go (waiting until) = (refl, inl refl)
    go woken = (refl, inl refl)
    go cleaning = (refl, inr (refl, refl))
    go ended = (refl, inl refl)

-- The flag says whether there is a thread to join.
abbrev pub IsInStep : Service → Type 0
IsInStep s = ((s.running ≡ true) × (s.thread ≢ none)) ⊎ ((s.running ≡ false) × (s.thread ≡ none))

start-IsInStep :
    (interval : ℤ) (s : Service)
    → IsInStep s
    → (t : Service) × (start_background_cleanup interval s ≡ some t) × IsInStep t
unfolding start_background_cleanup replace_thread
start-IsInStep interval s (inl (on, h)) = (s, simp (start_background_cleanup, on), inl (on, h))
start-IsInStep interval s (inr (off, h)) =
    let t : Service = record {
      running = true;
      interval = seconds interval;
      thread = some new_loop;
    } in
    (t, simp (start_background_cleanup, off, h), inl (refl, λ e. cc))

stop-IsInStep : (s : Service) → IsInStep s → IsInStep (stop_background_cleanup s)
unfolding stop_background_cleanup
stop-IsInStep s h = ground arith

calls-IsInStep :
    (cs : List Call) (s : Service) → IsInStep s → (t : Service) × (calls cs s ≡ some t) × IsInStep t
unfolding calls
calls-IsInStep [] s h = (s, refl, h)
calls-IsInStep (starts interval ∷ cs) s h =
    let (t, e, k) = start-IsInStep interval s h in rw (calls, e) (calls-IsInStep cs t k)
calls-IsInStep (stops ∷ cs) s h = calls-IsInStep cs (stop_background_cleanup s) (stop-IsInStep s h)

-- However often the clean-up is started and stopped, in calls that follow one another, no thread that can
-- still be joined is ever replaced, and afterwards there is a thread exactly if the flag is set.
pub calls_safe : (cs : List Call) → (t : Service) × (calls cs new_service ≡ some t) × IsInStep t
calls_safe cs = calls-IsInStep cs new_service (inr (refl, refl))
