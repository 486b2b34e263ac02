-- ===== src/Core/Tests.antt =====
-- A scan of a tree with one source and one link.
use session_scope.Common.{
  ◌≡◌, refl, true, false, Option, none, some, [], ◌∷◌, inr, inl, string_eq, string_dec, nat_dec,
  contains,
}
use session_scope.Common.Lists.{IsIn, head?}
use session_scope.Common.Result.{Result, ok, err}
use session_scope.Model.Samples
use session_scope.Model.Report.{FileScanResult, ScanReport, Language-discrete}
use session_scope.Core.Redaction.Values.{Regexes}
use session_scope.Core.Source.{FileType, OpenFile, FileSystem, read_source_under_root}
use session_scope.Core.Discovery.Paths.{Tree}
use session_scope.Core.Discovery.Files.{discover_files}
use session_scope.Core.Pipeline.Config.{ScanConfig}
use session_scope.Core.Pipeline.Defaults.{new, set_include_patterns}
use session_scope.Core.Pipeline.File.{scan_file}
use session_scope.Core.Pipeline.Scan.{scan_path}
use session_scope.Core.Pipeline.Inside.{scan_on_disk, WasRead, scan_path-WasRead}

abbrev tree : Tree
tree = record {
  glob_error = λ pattern. none;
  build_error = λ builder. none;
  is_match = λ globs path. contains globs path;
  symlink_metadata = λ path. some FileType.regular;
  canonicalize = λ path. some path;
  walk = λ filter.
      ok (record { path = "/app/link.js"; path_is_symlink = true; file_type = none })
      ∷ ok (record {
        path = "/app/a.js";
        path_is_symlink = false;
        file_type = some FileType.regular;
      })
      ∷ [];
}

abbrev empty_file : OpenFile
empty_file = record {
  size = inr 0;
  prefix = inr [];
  rewind = inr tt;
  body = λ limit. inr [];
  overflow = inr 0;
}

abbrev disk : FileSystem
disk = record {
  symlink_metadata = λ moment path. inr FileType.regular;
  canonicalize = λ moment path. inr path;
  open_file = λ path. inr empty_file;
  from_utf8 = λ bytes. some "";
}

abbrev config : ScanConfig
unfolding set_include_patterns new
config = set_include_patterns ("a.js" ∷ []) (new (λ path. none) "/app")

abbrev no_match : Regexes
no_match = record { replace_all = λ pattern replacement text. text }

abbrev scan : Result ScanReport
scan =
    scan_path config (scan_on_disk tree disk (λ path n. 7) no_match config [])
      (discover_files tree config) (some 2) (λ k. true)

abbrev or_sample : Result ScanReport → ScanReport
or_sample (ok report) = report
or_sample (err message) = Samples.report

abbrev report : ScanReport
report = or_sample scan

abbrev or_file : Option FileScanResult → FileScanResult
or_file none = Samples.binary_file
or_file (some f) = f

abbrev a_file : FileScanResult
a_file = or_file (head? report.files)

scan_ok : scan ≡ ok report
unfolding config scan_path discover_files scan_file string_dec nat_dec Language-discrete
    read_source_under_root
scan_ok = refl

a_file_unskipped : a_file.skipped_reason ≡ none
unfolding config scan_path discover_files scan_file string_dec nat_dec Language-discrete
    read_source_under_root
a_file_unskipped = refl

a_file_reported : IsIn a_file report.files
unfolding config scan_path discover_files scan_file string_dec nat_dec Language-discrete
    read_source_under_root
a_file_reported = inl refl

scan_path-WasRead_example : WasRead tree disk (λ path n. 7) no_match config [] a_file
scan_path-WasRead_example =
    scan_path-WasRead tree disk (λ path n. 7) no_match config [] (some 2) (λ k. true) report a_file
      (λ k. refl) scan_ok a_file_reported a_file_unskipped
