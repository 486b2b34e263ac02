-- ===== src/Core/Capability/Counts.antt =====
-- The summary of a filtered report against its files.
use session_scope.Common.{
  ℕ, suc, ◌+◌, String, ◌≡◌, refl, true, not, ◌||◌, List, [], ◌∷◌, map, arith, Option-cases,
  Bool-cases, inl, inr,
}
use session_scope.Common.Lists.{keep, length, is_empty, flat_map, All}
use session_scope.Common.Sets.{bump}
use session_scope.Model.Report.{
  FileScanResult, SkippedReasonKind, skipped_reason_kind_eq, kind, ScanSummary, ScanReport,
  sum_counts,
}
use session_scope.Core.Capability.Matching.{CapabilityArea}
use session_scope.Core.Capability.Filter.{
  filter_file, count_reasons, is_scanned, summarize_files, has_content, kept_ids, filter_report,
}

sum_counts-bump :
    (k : SkippedReasonKind) (m : List (SkippedReasonKind × ℕ))
    → sum_counts (bump k m) ≡ suc (sum_counts m)
unfolding bump
sum_counts-bump k [] = omega arith
sum_counts-bump k ((j, n) ∷ m) = ground (arith, sum_counts-bump k m)

pub sum_counts-count_reasons :
    (m : List (SkippedReasonKind × ℕ)) (fs : List FileScanResult)
    → sum_counts (count_reasons m fs) ≡ sum_counts m + length (keep (λ f. not (is_scanned f)) fs)
unfolding count_reasons
sum_counts-count_reasons m [] = omega arith
sum_counts-count_reasons m (f ∷ fs) = elim (Option-cases f.skipped_reason) [
  | inl nothing ↦ rw nothing (sum_counts-count_reasons m fs)
  | inr (reason, found) ↦
      let rest = sum_counts-count_reasons (bump (kind reason) m) fs in
      let one = sum_counts-bump (kind reason) m in rw found (omega (arith, rest, one))
]

pub scanned_or_skipped :
    (fs : List FileScanResult)
    → length (keep is_scanned fs) + length (keep (λ f. not (is_scanned f)) fs) ≡ length fs
scanned_or_skipped [] = omega arith
scanned_or_skipped (f ∷ fs) = ground (arith, scanned_or_skipped fs)

-- What a summary says of files: each is scanned or skipped, and each skipped one has one reason counted.
abbrev pub IsBalanced : ScanSummary → Type 0
IsBalanced s =
    (s.files_scanned + s.files_skipped ≡ s.files_discovered)
    × (sum_counts s.skipped_by_reason ≡ s.files_skipped)

pub summarize_files-IsBalanced : (fs : List FileScanResult) → IsBalanced (summarize_files fs)
unfolding summarize_files
summarize_files-IsBalanced fs =
    (scanned_or_skipped fs, omega (arith, sum_counts-count_reasons [] fs))

no_diagnostics :
    (as' es : List String) (fs : List FileScanResult)
    → flat_map
        (λ (f : FileScanResult). f.diagnostics)
        (keep has_content (map (filter_file as' es) fs))
      ≡ []
unfolding filter_file
no_diagnostics as' es [] = refl
no_diagnostics as' es (f ∷ fs) = ground (arith, no_diagnostics as' es fs)

-- A file of the filtered report has an artifact or evidence, and no diagnostics.
abbrev pub IsRelevant : FileScanResult → Type 0
IsRelevant f =
    ((not (is_empty f.artifacts) || not (is_empty f.evidence)) ≡ true) × (f.diagnostics ≡ [])

files-IsRelevant :
    (as' es : List String) (fs : List FileScanResult)
    → All IsRelevant (keep has_content (map (filter_file as' es) fs))
unfolding filter_file
files-IsRelevant as' es [] = tt
files-IsRelevant as' es (f ∷ fs) = elim (Bool-cases (has_content (filter_file as' es f))) [
  | inl here ↦ rw here ((ground arith, refl), files-IsRelevant as' es fs)
  | inr gone ↦ rw gone (files-IsRelevant as' es fs)
]

-- In the summary of a filtered report the files discovered are those scanned and those skipped,
-- and the counts by reason add up to those skipped; the summary has no diagnostics, and each file
-- that is kept has an artifact or evidence, and no diagnostics.
pub filter_report-summary :
    (report : ScanReport) (area : CapabilityArea)
    → IsBalanced (filter_report report area).summary
      × ((filter_report report area).summary.diagnostics ≡ [])
      × All IsRelevant (filter_report report area).files
unfolding filter_report summarize_files
filter_report-summary report area =
    let k = kept_ids area report in
    (
      summarize_files-IsBalanced _,
      no_diagnostics k.artifact_ids k.evidence_ids report.files,
      files-IsRelevant k.artifact_ids k.evidence_ids report.files,
    )
