-- ===== src/Detectors/Registry/Deadline.antt =====
-- When a run with a deadline completes.
use session_scope.Common.{
  ℕ, zero, suc, ◌+◌, ◌≤◌, ◌≡◌, ◌↔◌, some, [], ◌∷◌, arith, length, Option-cases, inl, inr,
}
use session_scope.Detectors.Traits.{DetectorInput, DetectionOutput, empty_output}
use session_scope.Detectors.Registry.{
  DetectorRegistry, Clock, append_output, run_onto, run, RunOutcome, run_until, run_with_deadline,
}

-- Every reading of the clock for a number of detectors, from the `n`-th on, is within the budget.
abbrev pub InTime : Clock → ℕ → ℕ → ℕ → Type 0
InTime elapsed budget n zero = Unit
InTime elapsed budget n (suc k) =
    (elapsed n ≤ budget) × (elapsed (n + 1) ≤ budget) × InTime elapsed budget (n + 2) k

run_until_iff :
    (ds : DetectorRegistry) (input : DetectorInput) (elapsed : Clock) (budget n : ℕ)
    (output result : DetectionOutput)
    → (run_until ds input elapsed budget n output ≡ RunOutcome.completed result)
      ↔ ((run_onto ds input output ≡ some result) × InTime elapsed budget n (length ds))
unfolding run_until run_onto
run_until_iff [] input elapsed budget n output result = ground arith
run_until_iff (d ∷ ds) input elapsed budget n output result = elim (Option-cases (d.detect input)) [
  | inl nothing ↦ ground arith
  | inr (next, found) ↦
      let rest = run_until_iff ds input elapsed budget (n + 2) (append_output output next) result in
      ground (arith, rest, found)
]

-- A run with a deadline completes with an output exactly when the run without a deadline has the
-- output, no detector panicking, and every reading of the clock, before and after each detector,
-- is within the budget.
pub run_with_deadline_iff :
    (registry : DetectorRegistry) (input : DetectorInput) (elapsed : Clock) (budget : ℕ)
    (result : DetectionOutput)
    → (run_with_deadline registry input elapsed budget ≡ RunOutcome.completed result)
      ↔ ((run registry input ≡ some result) × InTime elapsed budget 0 (length registry))
unfolding run_with_deadline run
run_with_deadline_iff registry input elapsed budget result =
    run_until_iff registry input elapsed budget 0 empty_output result
