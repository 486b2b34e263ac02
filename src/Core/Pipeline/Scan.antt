-- ===== src/Core/Pipeline/Scan.antt =====
-- `scan_path` of pipeline.rs: the report of a scan. Discovery is what the walk of the tree found.
use Prim.Native.String.{compare as compare_text}
use session_scope.Common.{ℕ, ◌+◌, ◌-◌, Ordering, String, Bool, Option, List, [], ◌++◌, length}
use session_scope.Common.Lists.{keep, flat_map}
use session_scope.Common.Sorting.{sort_by}
use session_scope.Common.Result.{Result, ok, err}
use session_scope.Model.Report.{FileScanResult, ScanReport}
use session_scope.Model.Schema.{schema_version}
use session_scope.Core.Capability.Filter.{count_reasons, is_scanned}
use session_scope.Core.Pipeline.Config.{ScanConfig}
use session_scope.Core.Pipeline.Workers.{scan_files}

pub record DiscoveryResult : Type 0 where
  pub files : List String
  pub skipped : List FileScanResult

abbrev pub compare_path : FileScanResult → FileScanResult → Ordering
compare_path l r = compare_text l.path r.path

unfoldable pub report_of : ℕ → List FileScanResult → ℕ → ScanReport
unfolding count_reasons
report_of files_discovered results worker_panic_count =
    let files_scanned = length (keep is_scanned results) in
    record {
      schema_version = schema_version;
      summary = record {
        files_discovered = files_discovered;
        files_scanned = files_scanned;
        files_skipped = length results - files_scanned;
        diagnostics = [];
        worker_panic_count = worker_panic_count;
        skipped_by_reason = count_reasons [] results;
      };
      files = results;
      artifacts = flat_map (λ (f : FileScanResult). f.artifacts) results;
      evidence = flat_map (λ (f : FileScanResult). f.evidence) results;
      lifecycle_paths = [];
      findings = [];
    }

module _ (config : ScanConfig) (scan : String → Option FileScanResult) where
  -- A discovery that fails is the error of the scan.
  unfoldable pub scan_path : Result DiscoveryResult → Option ℕ → (ℕ → Bool) → Result ScanReport
  unfolding scan_files sort_by report_of
  scan_path (err message) parallelism survives = err message
  scan_path (ok discovery) parallelism survives =
      let outcome = scan_files config scan parallelism survives discovery.files in
      ok (
        report_of (length discovery.files + length discovery.skipped)
          (sort_by compare_path (outcome.results ++ discovery.skipped)) outcome.worker_panic_count)
