-- ===== src/Core/Pipeline/Tests.antt =====
-- The scan of two files, one of which makes a detector panic.
use session_scope.Common.{
  String, ◌≡◌, refl, ◌↔◌, inr, true, false, Option, none, some, [], ◌∷◌, map, length, min,
  string_dec, ◌==◌, string_eq, if◌then◌else◌,
}
use session_scope.Common.Result.{ok}
use session_scope.Model.Report.{Language, Language-discrete, FileScanResult, ScanReport}
use session_scope.Model.Samples
use session_scope.Detectors.Traits.{DetectorInput, DetectionOutput, Detector}
use session_scope.Detectors.Registry.{RunOutcome, run, run_with_deadline}
use session_scope.Detectors.Registry.Deadline.{InTime, run_with_deadline_iff}
use session_scope.Core.Redaction.Values.{Regexes}
use session_scope.Core.Pipeline.Config.{ScanConfig}
use session_scope.Core.Pipeline.File.{Surroundings, scan_file}
use session_scope.Core.Pipeline.Workers.{scan_files, u32_max}
use session_scope.Core.Pipeline.Chunks.{result_for, panics_in, scan_files-map}
use session_scope.Core.Pipeline.Scan.{DiscoveryResult, scan_path}
use session_scope.Core.Pipeline.Totals.{Accounts, scan_path-Accounts}

abbrev config : ScanConfig
config = record {
  root = "/app";
  canonical_root = "/app";
  max_file_size_bytes = 512000;
  include_patterns = [];
  exclude_patterns = [];
  exclude_dirs = [];
  sensitive_patterns = [];
  custom_include_patterns = false;
  per_file_budget = 100;
}

-- Patterns that match nothing.
abbrev no_match : Regexes
no_match = record { replace_all = λ pattern replacement text. text }

abbrev found : DetectionOutput
found = record { artifacts = []; evidence = Samples.login ∷ []; diagnostics = [] }

-- A detector that panics at an empty source.
abbrev fragile : Detector
fragile = record {
  id = "fragile";
  detect = λ input. if input.source == "" then none else some found;
}

-- Every file but one is empty, and the clock stands still.
abbrev world : Surroundings
world = record {
  read_source = λ path limit root. if path == "/app/a.js" then inr "login()" else inr "";
  elapsed = λ path n. 7;
}

abbrev scan : String → Option FileScanResult
scan = scan_file no_match world config (fragile ∷ [])

abbrev input : DetectorInput
input = record { path = "a.js"; language = Language.java_script; source = "login()" }

abbrev discovery : DiscoveryResult
discovery = record { files = "/app/b.py" ∷ "/app/a.js" ∷ []; skipped = Samples.binary_file ∷ [] }

run_with_deadline_iff_example :
    (run_with_deadline (fragile ∷ []) input (λ n. 7) 100 ≡ RunOutcome.completed found)
    ↔ ((run (fragile ∷ []) input ≡ some found) × InTime (λ n. 7) 100 0 (length (fragile ∷ [])))
run_with_deadline_iff_example = run_with_deadline_iff (fragile ∷ []) input (λ n. 7) 100 found

scan_files-map_example :
    ((scan_files config scan (some 2) (λ n. true) discovery.files).results
      ≡ map (result_for config scan) discovery.files)
    × ((scan_files config scan (some 2) (λ n. true) discovery.files).worker_panic_count
        ≡ min (panics_in config scan discovery.files) u32_max)
scan_files-map_example = scan_files-map config scan (some 2) (λ n. true) discovery.files (λ k. refl)

scan_path-Accounts_example :
    (report : ScanReport) × (scan_path config scan (ok discovery) (some 2) (λ n. true) ≡ ok report)
    × Accounts config scan discovery report
scan_path-Accounts_example =
    scan_path-Accounts config scan discovery (some 2) (λ n. true) (λ k. refl)

-- The empty file panics and is reported as skipped.
test_panics : panics_in config scan discovery.files ≡ 1
unfolding scan_file string_dec Language-discrete
test_panics = refl

test_paths :
    map (λ (f : FileScanResult). f.path) (map (result_for config scan) discovery.files)
    ≡ "b.py" ∷ "a.js" ∷ []
unfolding scan_file string_dec Language-discrete
test_paths = refl
