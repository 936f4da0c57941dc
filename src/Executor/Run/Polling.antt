-- ===== src/Executor/Run/Polling.antt =====
-- The polling loop ends, and how.
use cpp_oj_vbcoding_teach.Prelude.{
  ℕ, zero, suc, ◌+◌, ◌*◌, ◌≤◌, ◌<◌, ◌≡◌, refl, inl, inr, sym, ◌∙◌, Option-cases, none, some, arith,
}
use native.Mathlib.Decide.{ℕ_discrete}
use cpp_oj_vbcoding_teach.Executor.Run.{
  Poll, failed, ended, running, Waited, wait_error, finished, timed_out, settle, poll_loop,
  poll_rounds,
}

-- A poll that keeps the loop going.
abbrev pub IsWithin : ℕ → Poll → Type 0
IsWithin timeout_sec failed = ⊥
IsWithin timeout_sec (ended status) = ⊥
IsWithin timeout_sec (running elapsed) = elapsed < timeout_sec * 1000

-- The poll that ends the loop, and what the loop returns at it.
abbrev pub Ends : ℕ → Poll → Waited → Type 0
Ends timeout_sec failed w = w ≡ wait_error
Ends timeout_sec (ended status) w = w ≡ finished status
Ends timeout_sec (running elapsed) w = (timeout_sec * 1000 ≤ elapsed) × (w ≡ timed_out)

-- Every round sleeps for ten milliseconds, so the clock shows at least that many per round.
abbrev pub IsPaced : (ℕ → Poll) → Type 0
IsPaced poll = (i elapsed : ℕ) → poll i ≡ running elapsed → 10 * i ≤ elapsed

settle-Ends :
    (timeout_sec : ℕ) (p : Poll) (w : Waited) → settle timeout_sec p ≡ some w → Ends timeout_sec p w
unfolding settle
settle-Ends timeout_sec failed w h = ground arith
settle-Ends timeout_sec (ended status) w h = ground arith
settle-Ends timeout_sec (running elapsed) w h = ground arith

settle-IsWithin :
    (timeout_sec : ℕ) (p : Poll)
    → settle timeout_sec p ≡ none
    → (elapsed : ℕ) × (p ≡ running elapsed) × (elapsed < timeout_sec * 1000)
unfolding settle
settle-IsWithin timeout_sec failed h = absurd (cc)
settle-IsWithin timeout_sec (ended status) h = absurd (cc)
settle-IsWithin timeout_sec (running elapsed) h = (elapsed, refl, ground arith)

module _ (fuel timeout_sec : ℕ) (poll : ℕ → Poll) (i : ℕ) where
  poll_loop_leaves :
      (w : Waited)
      → settle timeout_sec (poll i) ≡ some w
      → poll_loop (suc fuel) timeout_sec poll i ≡ some w
  unfolding poll_loop
  poll_loop_leaves w e = rw (poll_loop, e)

  poll_loop_again :
      settle timeout_sec (poll i) ≡ none
      → poll_loop (suc fuel) timeout_sec poll i ≡ poll_loop fuel timeout_sec poll (i + 1)
  unfolding poll_loop
  poll_loop_again e = rw (poll_loop, e)

module _ (timeout_sec : ℕ) (poll : ℕ → Poll) where
  poll_loop_total :
      (fuel i : ℕ)
      → IsPaced poll
      → i ≤ timeout_sec * 100
      → timeout_sec * 100 < fuel + i
      → (w : Waited) × (poll_loop fuel timeout_sec poll i ≡ some w)
  poll_loop_total zero i paced low enough = absurd (omega arith)
  poll_loop_total (suc fuel) i paced low enough =
      elim (Option-cases (settle timeout_sec (poll i))) [
        | inl on ↦
            let (elapsed, e, early) = settle-IsWithin timeout_sec (poll i) on in
            let slow : 10 * i ≤ elapsed = paced i elapsed e in
            rw (poll_loop_again fuel timeout_sec poll i on)
              (poll_loop_total fuel (i + 1) paced (omega arith) (omega arith))
        | inr (w, e) ↦ (w, poll_loop_leaves fuel timeout_sec poll i w e)
      ]

-- A clock that shows ten milliseconds for every round stops the loop within the rounds that
-- `run_test_case` gives it.
pub poll_loop_ends :
    (timeout_sec : ℕ) (poll : ℕ → Poll)
    → IsPaced poll
    → (w : Waited) × (poll_loop (poll_rounds timeout_sec) timeout_sec poll 0 ≡ some w)
poll_loop_ends timeout_sec poll paced =
    poll_loop_total timeout_sec poll (poll_rounds timeout_sec) 0 paced (omega arith) (omega arith)

-- A result of the loop comes from one poll: every poll before it, from the first on, found the process
-- running within the time limit, and it is the first that did not. It gives the result: an error, the
-- status of the process, or a time limit that is reached.
pub poll_loop_sound :
    (fuel timeout_sec : ℕ) (poll : ℕ → Poll) (i : ℕ) (w : Waited)
    → poll_loop fuel timeout_sec poll i ≡ some w
    → (j : ℕ) × Ends timeout_sec (poll j) w
      × ((k : ℕ) → i ≤ k → k < j → IsWithin timeout_sec (poll k))
unfolding poll_loop
poll_loop_sound zero timeout_sec poll i w h = absurd (cc)
poll_loop_sound (suc fuel) timeout_sec poll i w h =
    elim (Option-cases (settle timeout_sec (poll i))) [
      | inl on ↦ later (settle-IsWithin timeout_sec (poll i) on) (
          poll_loop_sound fuel timeout_sec poll (i + 1) w
            (sym (poll_loop_again fuel timeout_sec poll i on) ∙ h))
      | inr (v, e) ↦ (
        i,
        settle-Ends timeout_sec (poll i) w
            (e ∙ sym (poll_loop_leaves fuel timeout_sec poll i v e) ∙ h),
        λ k low high. absurd (omega arith),
      )
    ]
  where
    Found : ℕ → Type 0
    Found from =
        (j : ℕ) × Ends timeout_sec (poll j) w
        × ((k : ℕ) → from ≤ k → k < j → IsWithin timeout_sec (poll k))

    later :
        ((elapsed : ℕ) × (poll i ≡ running elapsed) × (elapsed < timeout_sec * 1000))
        → Found (i + 1)
        → Found i
    later (elapsed, e, early) (j, ends, within) = (
      j,
      ends,
      λ k low high. elim (ℕ_discrete k i) [
        | yes same ↦ rw (same, e) early
        | no other ↦ within k (omega arith) high
      ],
    )
