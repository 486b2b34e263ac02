-- ===== src/Core/Discovery/Skipped.antt =====
-- Each result that discovery skips has a reason.
use session_scope.Common.{
  String, ◌≡◌, ◌≢◌, ◌⊎◌, inl, inr, Bool, true, false, Option, none, some, List, [], ◌∷◌, arith,
  Option-cases, if◌then◌else◌, not, subst,
}
use session_scope.Common.Lists.{All, All-append}
use session_scope.Common.Sorting.{All-sort_by}
use session_scope.Common.Result.{Result, ok, err, ok-injective}
use session_scope.Model.Report.{FileScanResult, skipped}
use session_scope.Core.Pipeline.Config.{ScanConfig}
use session_scope.Core.Pipeline.Scan.{DiscoveryResult, compare_path}
use session_scope.Core.Discovery.Paths.{DirEntry, Tree}
use session_scope.Core.Discovery.Files.{
  GlobSets, decide, visit, push, visit_all, skip_reason, sort_result, discover_files,
}
use session_scope.Core.Discovery.Listed.{discover_files-ok}

abbrev pub IsSkipped : FileScanResult → Type 0
IsSkipped r = r.skipped_reason ≢ none

abbrev Leaves : FileScanResult ⊎ String → Type 0
Leaves (inl r) = IsSkipped r
Leaves (inr path) = Unit

abbrev Visited : Option (FileScanResult ⊎ String) → Type 0
Visited none = Unit
Visited (some v) = Leaves v

module _ (tree : Tree) (config : ScanConfig) (globs : GlobSets) where
  decide-Leaves :
      (path : String) (below : Option String) → Leaves (decide tree config globs path below)
  unfolding decide skipped
  decide-Leaves path none = λ h. cc h
  decide-Leaves path (some relative) =
      elim (Option-cases (skip_reason tree config globs relative)) [
        | inl h ↦ rw (h, decide) tt
        | inr (reason, h) ↦ rw (h, decide) (λ k. cc k)
      ]

  gated-Visited :
      (link file inside : Bool) (a b : FileScanResult) (c : FileScanResult ⊎ String)
      → IsSkipped a
      → IsSkipped b
      → Leaves c
      → Visited (
          if link
          then some (inl a)
          else if not file
          then none
          else if not inside
          then some (inl b)
          else some c)
  gated-Visited true file inside a b c ha hb hc = ha
  gated-Visited false false inside a b c ha hb hc = tt
  gated-Visited false true false a b c ha hb hc = hb
  gated-Visited false true true a b c ha hb hc = hc

  visit-Visited : (entry : DirEntry) → Visited (visit tree config globs entry)
  unfolding visit skipped
  visit-Visited entry =
      gated-Visited _ _ _ _ _ _ (λ h. cc h) (λ h. cc h) (decide-Leaves entry.path _)

  push-IsSkipped :
      (v : Option (FileScanResult ⊎ String)) (d : DiscoveryResult)
      → Visited v
      → All IsSkipped d.skipped
      → All IsSkipped (push tree config globs v d).skipped
  unfolding push
  push-IsSkipped none d v h = h
  push-IsSkipped (some (inl r)) d v h = All-append IsSkipped d.skipped (r ∷ []) h (v, tt)
  push-IsSkipped (some (inr path)) d v h = h

  pub visit_all-IsSkipped :
      (entries : List (Result DirEntry)) (d e : DiscoveryResult)
      → visit_all tree config globs entries d ≡ ok e
      → All IsSkipped d.skipped
      → All IsSkipped e.skipped
  unfolding visit_all
  visit_all-IsSkipped [] d e h s =
      subst (λ (x : DiscoveryResult). All IsSkipped x.skipped) (ok-injective d e h) s
  visit_all-IsSkipped (err message ∷ entries) d e h s = ground arith
  visit_all-IsSkipped (ok entry ∷ entries) d e h s =
      visit_all-IsSkipped entries _ e h
        (push-IsSkipped (visit tree config globs entry) d (visit-Visited entry) s)

module _ (tree : Tree) (config : ScanConfig) where
  pub discover_files-IsSkipped :
      (found : DiscoveryResult)
      → discover_files tree config ≡ ok found
      → All IsSkipped found.skipped
  unfolding sort_result
  discover_files-IsSkipped found h =
      let (globs, compiled, visited, visits, sorted) = discover_files-ok tree config found h in
      subst (λ (d : DiscoveryResult). All IsSkipped d.skipped) sorted
        (All-sort_by IsSkipped compare_path visited.skipped
          (visit_all-IsSkipped tree config globs _ _ visited visits tt))
