-- ===== src/Core/Pipeline/Totals.antt =====
-- The report of `scan_path` against the files that discovery found.
use mathlib.Core.List.{Perm}
use session_scope.Common.{
  ℕ, ◌+◌, String, ◌≡◌, refl, subst, ap, Bool, true, Option, List, [], ◌++◌, map, arith, length,
  length-append, length-map,
}
use session_scope.Common.Sorting.{sort_by, IsSorted, sort_by-IsSorted, sort_by-perm, length-sort_by}
use session_scope.Common.Order.{IsOrder-IsPreorder, compare_text-IsOrder, by_key-IsOrder}
use session_scope.Common.Result.{ok}
use session_scope.Model.Report.{FileScanResult, ScanReport}
use session_scope.Core.Capability.Counts.{IsBalanced, scanned_or_skipped, sum_counts-count_reasons}
use session_scope.Core.Pipeline.Config.{ScanConfig}
use session_scope.Core.Pipeline.Workers.{scan_files}
use session_scope.Core.Pipeline.Chunks.{result_for, scan_files-map}
use session_scope.Core.Pipeline.Scan.{DiscoveryResult, compare_path, report_of, scan_path}

module _ (config : ScanConfig) (scan : String → Option FileScanResult) where
  -- One result for each file that was found, whether it was read or skipped.
  abbrev pub all_results : DiscoveryResult → List FileScanResult
  all_results discovery = map (result_for config scan) discovery.files ++ discovery.skipped

  abbrev pub Accounts : DiscoveryResult → ScanReport → Type 0
  Accounts discovery report =
      IsBalanced report.summary
      × (report.summary.files_discovered ≡ length (all_results discovery))
      × IsSorted compare_path report.files
      × Perm report.files (all_results discovery)

  report_of-Accounts :
      (discovery : DiscoveryResult) (results : List FileScanResult) (panics : ℕ)
      → results ≡ all_results discovery
      → Accounts discovery (
          report_of
            (length discovery.files + length discovery.skipped)
            (sort_by compare_path results)
            panics)
  unfolding report_of
  report_of-Accounts discovery results panics e =
      let sorted = sort_by compare_path results in
      let parts = scanned_or_skipped sorted in
      let counted = sum_counts-count_reasons [] sorted in
      let total = length-sort_by compare_path results in
      let joined = ap length e in
      let found = length-append (map (result_for config scan) discovery.files) discovery.skipped in
      let each = length-map (result_for config scan) discovery.files in
      (
        (omega (arith, parts, total, joined, found, each), omega (arith, parts, counted)),
        omega (arith, found, each),
        sort_by-IsSorted compare_path
            (IsOrder-IsPreorder compare_path
              (by_key-IsOrder _ (λ (f : FileScanResult). f.path) compare_text-IsOrder))
            results,
        subst (λ l. Perm sorted l) e (sort_by-perm compare_path results),
      )

  -- When discovery succeeds and no worker dies outside the catching of panics, `scan_path`
  -- returns a report: the files scanned and those skipped add up to the files discovered, the
  -- counts by reason add up to those skipped, the discovered files are as many as the results of
  -- the files found and those skipped by discovery, and the files of the report are a permutation
  -- of these results in the order of their paths.
  pub scan_path-Accounts :
      (discovery : DiscoveryResult) (parallelism : Option ℕ) (survives : ℕ → Bool)
      → ((k : ℕ) → survives k ≡ true)
      → (report : ScanReport) × (scan_path config scan (ok discovery) parallelism survives
          ≡ ok report)
        × Accounts discovery report
  unfolding scan_path
  scan_path-Accounts discovery parallelism survives s =
      let outcome = scan_files config scan parallelism survives discovery.files in
      let same = (scan_files-map config scan parallelism survives discovery.files s).0 in
      (
        _,
        refl,
        report_of-Accounts discovery (outcome.results ++ discovery.skipped)
            outcome.worker_panic_count (ap (λ l. l ++ discovery.skipped) same),
      )
