-- ===== src/Examples/Cleanup.antt =====
-- The background clean-up of src/service/auth_service.cc on concrete calls.
use cpp_oj_vbcoding_teach.Prelude.{◌≡◌, ◌+◌, ◌*◌, ◌≤◌, refl, List, [], ◌∷◌, some, arith, ℕ}
use cpp_oj_vbcoding_teach.Prelude.Int.{pos}
use cpp_oj_vbcoding_teach.Auth.Cleanup.{
  Loop, cleaning, new_loop, next_point, done_at, Service, new_service, Call, starts, stops, calls,
}
use cpp_oj_vbcoding_teach.Auth.Cleanup.Cadence.{run_loop, IsInStep, run_loop_paced, calls_safe}

-- An interval of 10 seconds, and a clock that starts at 100.
abbrev times : List ℕ
times = 100 ∷ 105 ∷ 110 ∷ 110 ∷ 111 ∷ []

one_cleanup : (run_loop 10 times new_loop).cleaned ≡ 1
unfolding next_point done_at
one_cleanup = refl

run_loop_paced_example : 100 + (run_loop 10 times new_loop).cleaned * 10 ≤ 111
run_loop_paced_example =
    run_loop_paced 10 100 times
      (omega arith, (omega arith, (omega arith, (omega arith, (omega arith, tt)))))

abbrev busy : Loop
busy = record { point = cleaning; cleaned = 3 }

abbrev twice : List Call
twice = starts (pos 1800) ∷ starts (pos 60) ∷ stops ∷ starts (pos 60) ∷ []

calls_safe_example : (t : Service) × (calls twice new_service ≡ some t) × IsInStep t
calls_safe_example = calls_safe twice
