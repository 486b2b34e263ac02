-- ===== src/Detectors/Registry.antt =====
-- crates/sessionscope-detectors/src/registry.rs: the detectors in a row, with a deadline. The `n`-th
-- call of `started_at.elapsed()` reads the clock at `n`.
pub mod Deadline
use session_scope.Common.{
  ℕ, zero, ◌+◌, Bool, true, false, Option, none, some, List, [], ◌∷◌, ◌++◌, ltb, if◌then◌else◌,
}
use session_scope.Detectors.Traits.{DetectorInput, DetectionOutput, empty_output, Detector}

abbrev pub DetectorRegistry : Type 0
DetectorRegistry = List Detector

abbrev pub Clock : Type 0
Clock = ℕ → ℕ

unfoldable pub with_detector : DetectorRegistry → Detector → DetectorRegistry
with_detector registry detector = registry ++ detector ∷ []

-- The three calls of `append`.
abbrev pub append_output : DetectionOutput → DetectionOutput → DetectionOutput
append_output output next = record {
  artifacts = output.artifacts ++ next.artifacts;
  evidence = output.evidence ++ next.evidence;
  diagnostics = output.diagnostics ++ next.diagnostics;
}

unfoldable pub run_onto :
    DetectorRegistry → DetectorInput → DetectionOutput → Option DetectionOutput
run_onto [] input output = some output
run_onto (d ∷ ds) input output = elim (d.detect input) [
  | none ↦ none
  | some next ↦ run_onto ds input (append_output output next)
]

unfoldable pub run : DetectorRegistry → DetectorInput → Option DetectionOutput
unfolding run_onto
run registry input = run_onto registry input empty_output

-- `panicked` is the panic of a detector, which unwinds through the registry.
pub data RunOutcome : Type 0 where
  completed : DetectionOutput → RunOutcome
  timed_out panicked : RunOutcome

unfoldable pub run_until :
    DetectorRegistry → DetectorInput → Clock → ℕ → ℕ → DetectionOutput → RunOutcome
run_until [] input elapsed budget n output = RunOutcome.completed output
run_until (d ∷ ds) input elapsed budget n output =
    if ltb budget (elapsed n) then RunOutcome.timed_out else elim (d.detect input) [
      | none ↦ RunOutcome.panicked
      | some next ↦
          if ltb budget (elapsed (n + 1))
          then RunOutcome.timed_out
          else run_until ds input elapsed budget (n + 2) (append_output output next)
    ]

unfoldable pub run_with_deadline : DetectorRegistry → DetectorInput → Clock → ℕ → RunOutcome
unfolding run_until
run_with_deadline registry input elapsed budget =
    run_until registry input elapsed budget zero empty_output
