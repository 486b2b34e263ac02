-- ===== src/Core/Pipeline/Inside.antt =====
-- A scan from the walk of the tree to its report: which files were read, and how.
use session_scope.Common.{
  ℕ, String, ◌≡◌, refl, sym, ap, subst, inl, inr, true, Bool, Option, none, some, ◌++◌, arith,
  IsIn-append,
}
use session_scope.Common.Lists.{IsIn-map, IsIn, All-IsIn}
use session_scope.Common.Sorting.{IsIn-sort_by}
use session_scope.Common.Result.{Result, ok, err, ok-injective}
use session_scope.Model.Report.{FileScanResult, ScanReport, skipped}
use session_scope.Detectors.Registry.{DetectorRegistry, Clock}
use session_scope.Core.Redaction.Values.{Regexes}
use session_scope.Core.Source.{Moment, OpenFile, FileSystem, read_source_under_root}
use session_scope.Core.Source.Contained.{IsContained, IsReadAs, read_source_under_root_iff}
use session_scope.Core.Discovery.Paths.{DirEntry, Tree}
use session_scope.Core.Discovery.Files.{GlobSets, filter_entry, discover_files}
use session_scope.Core.Discovery.Accepted.{IsListed}
use session_scope.Core.Discovery.Listed.{IsCompiled, discover_files-IsListed}
use session_scope.Core.Discovery.Skipped.{IsSkipped, discover_files-IsSkipped}
use session_scope.Core.Pipeline.Config.{ScanConfig, display_path}
use session_scope.Core.Pipeline.File.{Surroundings, scan_file}
use session_scope.Core.Pipeline.Labels.{IsReadable, scan_file-IsReadable}
use session_scope.Core.Pipeline.Workers.{scan_files, caught}
use session_scope.Core.Pipeline.Chunks.{result_for, scan_files-map}
use session_scope.Core.Pipeline.Scan.{DiscoveryResult, compare_path, scan_path, report_of}

module _ (tree : Tree) (fs : FileSystem) (elapsed : String → Clock) (rx : Regexes)
    (config : ScanConfig) (registry : DetectorRegistry) where
  -- The surroundings of a scan that reads its sources by `read_source_under_root`.
  abbrev pub on_disk : Surroundings
  on_disk = record {
    read_source = λ path limit root. read_source_under_root fs path limit root;
    elapsed = elapsed;
  }

  abbrev pub scan_on_disk : String → Option FileScanResult
  scan_on_disk = scan_file rx on_disk config registry

  -- The result is that of an entry that discovery lists, read inside the root.
  pub record WasRead (result : FileScanResult) : Type 0 where
    pub globs : GlobSets
    pub entry : DirEntry
    pub file : OpenFile
    pub source : String
    pub compiled : IsCompiled tree config globs
    pub walked : IsIn (ok entry) (tree.walk (filter_entry tree config))
    pub listed : IsListed tree config globs entry
    pub shown : result.path ≡ display_path config entry.path
    pub before : IsContained fs entry.path config.canonical_root Moment.before_open
    pub after : IsContained fs entry.path config.canonical_root Moment.after_open
    pub opened : fs.open_file entry.path ≡ inr file
    pub is_read : IsReadAs fs entry.path config.max_file_size_bytes file source

  caught-some :
      (path : String) (o : Option FileScanResult) (f : FileScanResult)
      → f ≡ caught config scan_on_disk path o
      → f.skipped_reason ≡ none
      → o ≡ some f
  unfolding skipped
  caught-some path none f e h = absurd (cc (ap (λ (r : FileScanResult). r.skipped_reason) e, h))
  caught-some path (some r) f e h = ap some (sym e)

  read-WasRead :
      (found : DiscoveryResult) (path : String) (f : FileScanResult)
      → discover_files tree config ≡ ok found
      → IsIn path found.files
      → scan_on_disk path ≡ some f
      → f.skipped_reason ≡ none
      → WasRead f
  read-WasRead found path f discovered m done h =
      let (globs, compiled, lists, counts) = discover_files-IsListed tree config found discovered in
      let (entry, walked, listed, same) = (lists path).0 m in
      let done' : scan_on_disk entry.path ≡ some f = rw same done in
      let (shown, language, budget, readable) =
        scan_file-IsReadable rx on_disk config registry entry.path f done' in
      let (known, (source, reads)) =
        subst (IsReadable rx on_disk config registry entry.path) h readable in
      let (before, after, (file, opened, is_read)) =
        (read_source_under_root_iff fs entry.path config.max_file_size_bytes config.canonical_root
            source).0
          reads in
      record {
        globs = globs;
        entry = entry;
        file = file;
        source = source;
        compiled = compiled;
        walked = walked;
        listed = listed;
        shown = shown;
        before = before;
        after = after;
        opened = opened;
        is_read = is_read;
      }

  found-WasRead :
      (found : DiscoveryResult) (parallelism : Option ℕ) (survives : ℕ → Bool) (report : ScanReport)
      (f : FileScanResult)
      → discover_files tree config ≡ ok found
      → ((k : ℕ) → survives k ≡ true)
      → scan_path config scan_on_disk (ok found) parallelism survives ≡ ok report
      → IsIn f report.files
      → f.skipped_reason ≡ none
      → WasRead f
  unfolding scan_path report_of
  found-WasRead found parallelism survives report f discovered alive h m unskipped =
      let outcome = scan_files config scan_on_disk parallelism survives found.files in
      let results = (scan_files-map config scan_on_disk parallelism survives found.files alive).0 in
      let files = ap (λ (r : ScanReport). r.files) (ok-injective _ report h) in
      let listed =
        (IsIn-sort_by compare_path f (outcome.results ++ found.skipped)).0
          (subst (IsIn f) (sym files) m) in
      elim ((IsIn-append f outcome.results found.skipped).0 listed) [
        | inl here ↦
            let (path, found_path, same) =
              IsIn-map (result_for config scan_on_disk) f found.files
                (subst (IsIn f) results here) in
            read-WasRead found path f discovered found_path
              (caught-some path (scan_on_disk path) f same unskipped) unskipped
        | inr there ↦ absurd (
            All-IsIn IsSkipped f found.skipped
              (discover_files-IsSkipped tree config found discovered) there unskipped)
      ]

  -- When no worker dies outside the catching of panics and `scan_path`, run on what
  -- `discover_files` yields and reading its sources by `read_source_under_root`, returns a
  -- report, each file of the report that is not skipped was read as it should be: it is that of
  -- an entry of the walk that discovery lists, by the globs that the configuration compiles to,
  -- it is shown by its displayed path, and the file was contained in the canonical root both
  -- before and after it was opened, and read within the limits.
  pub scan_path-WasRead :
      (parallelism : Option ℕ) (survives : ℕ → Bool) (report : ScanReport) (f : FileScanResult)
      → ((k : ℕ) → survives k ≡ true)
      → scan_path config scan_on_disk (discover_files tree config) parallelism survives ≡ ok report
      → IsIn f report.files
      → f.skipped_reason ≡ none
      → WasRead f
  unfolding scan_path
  scan_path-WasRead parallelism survives report f alive h m unskipped =
      discovered (discover_files tree config) refl h
    where
      discovered :
          (d : Result DiscoveryResult)
          → discover_files tree config ≡ d
          → scan_path config scan_on_disk d parallelism survives ≡ ok report
          → WasRead f
      discovered (err message) e h = ground arith
      discovered (ok found) e h =
          found-WasRead found parallelism survives report f e alive h m unskipped
