-- ===== src/Core/Pipeline/File.antt =====
-- `scan_file` of pipeline.rs. What it calls of other parts stands in the record Surroundings.
use Prim.Native.String.{len}
use session_scope.Common.{
  ℕ, ◌/◌, String, Bool, Option, none, some, ltb, ◌==◌, if◌then◌else◌, length, ◌⊎◌, inl, inr,
}
use session_scope.Common.Text.{lines}
use session_scope.Model.Report.{
  Language, language_eq, FileScanResult, SkippedReason, scanned, skipped,
}
use session_scope.Detectors.Registry.{DetectorRegistry, Clock, RunOutcome, run_with_deadline}
use session_scope.Core.Redaction.Values.{Regexes}
use session_scope.Core.Redaction.Sanitize.{sanitize_detection_output}
use session_scope.Core.Pipeline.Config.{ScanConfig, classify_language, display_path}

-- What a scan meets: the reading of a file under the root (`read_source_under_root`), and, for each
-- file, the readings of the clock since its scan began.
pub record Surroundings : Type 0 where
  pub read_source : String → ℕ → String → SkippedReason ⊎ String
  pub elapsed : String → Clock

unfoldable pub looks_minified : String → Bool
unfolding lines
looks_minified source = ltb (length (lines source)) (len source / 200)

unfoldable pub budget_for : ScanConfig → String → ℕ
unfolding looks_minified
budget_for config source =
    if looks_minified source then config.per_file_budget / 2 else config.per_file_budget

module _ (rx : Regexes) (world : Surroundings) (config : ScanConfig)
    (registry : DetectorRegistry) where
  unfoldable pub result_of : String → RunOutcome → Option FileScanResult
  unfolding sanitize_detection_output scanned skipped display_path classify_language
  result_of path (RunOutcome.completed output) =
      let detection = sanitize_detection_output rx output in
      some (record (scanned (display_path config path) (classify_language path)) {
        artifacts = detection.artifacts;
        evidence = detection.evidence;
        diagnostics = detection.diagnostics;
      })
  result_of path RunOutcome.timed_out =
      some (skipped (display_path config path) (classify_language path) SkippedReason.timeout)
  result_of path RunOutcome.panicked = none

  unfoldable pub scan_source : String → SkippedReason ⊎ String → Option FileScanResult
  unfolding run_with_deadline budget_for result_of skipped display_path classify_language
  scan_source path (inl reason) =
      some (skipped (display_path config path) (classify_language path) reason)
  scan_source path (inr source) = result_of path (
      run_with_deadline registry
        (record {
          path = display_path config path;
          language = classify_language path;
          source = source;
        })
        (world.elapsed path) (budget_for config source))

  -- `none` is a panic of a detector.
  unfoldable pub scan_file : String → Option FileScanResult
  unfolding scan_source skipped display_path classify_language
  scan_file path =
      if classify_language path == Language.unknown
      then some
          (skipped (display_path config path) (classify_language path) SkippedReason.unsupported)
      else scan_source path
          (world.read_source path config.max_file_size_bytes config.canonical_root)
