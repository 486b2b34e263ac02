-- ===== src/Core/Baseline/Whole.antt =====
-- `diff_baseline` as a whole: what its changes and its counts have from the two sides.
use mathlib.Core.List.{Perm}
use mathlib.Core.List.Perm
use session_scope.Common.{String, ◌≡◌, refl, ◌∙◌, map, arith, length, length-map}
use session_scope.Common.Distinct.{DistinctBy, DistinctBy-map, DistinctBy-sort_by, length-perm}
use session_scope.Common.Sorting.{sort_by, sort_by-perm, length-sort_by, All-sort_by}
use session_scope.Model.Finding.{Finding}
use session_scope.Model.Report.{ScanReport}
use session_scope.Model.Baseline.{Baseline, BaselineFinding, DiffFindingChange}
use session_scope.Core.Redaction.Values.{Regexes}
use session_scope.Core.Redaction.Sanitize.{sanitize_report, sanitize_finding}
use session_scope.Core.Baseline.Fingerprint.{
  create_baseline, baseline_finding, sort_baseline_findings, sort_fields, compare_baseline_finding,
  evidence_by_id,
}
use session_scope.Core.Baseline.Diff.{
  diff_findings, diff_baseline, compare_change, sanitized_baseline, summarize, no_changes,
}
use session_scope.Core.Baseline.Partition.{Distinct, baselines, currents}
use session_scope.Core.Baseline.Passes.{diff_findings-perm}
use session_scope.Core.Baseline.Summary.{
  old_count, current_count, summarize_onto-counts, IsShaped, diff_findings-IsShaped,
}

-- Findings of a report whose ids all differ.
abbrev pub HasDistinctIds : ScanReport → Type 0
HasDistinctIds report = DistinctBy (λ (f : Finding). f.id) report.findings

pub create_baseline-Distinct :
    (rx : Regexes) (report : ScanReport) (by : String)
    → HasDistinctIds report
    → Distinct (create_baseline rx report by).findings
unfolding create_baseline sanitize_report sanitize_finding baseline_finding sort_baseline_findings
create_baseline-Distinct rx report by d =
    let by_id = evidence_by_id (sanitize_report rx report) in
    let clean = DistinctBy-map _ (λ (f : Finding). f.id) _ (λ f. refl) report.findings d in
    let built =
      DistinctBy-map (λ (f : Finding). f.id) (λ (f : BaselineFinding). f.id)
        (λ f. baseline_finding f by_id) (λ f. refl) (map (sanitize_finding rx) report.findings)
        clean in
    DistinctBy-sort_by _ compare_baseline_finding (map sort_fields _)
      (DistinctBy-map _ (λ (f : BaselineFinding). f.id) sort_fields (λ f. refl) _ built)

pub create_baseline-length :
    (rx : Regexes) (report : ScanReport) (by : String)
    → length (create_baseline rx report by).findings ≡ length report.findings
unfolding create_baseline sanitize_report sort_baseline_findings
create_baseline-length rx report by =
    length-sort_by compare_baseline_finding _
    ∙ (length-map sort_fields _
        ∙ (length-map
              (λ (f : Finding). baseline_finding f (evidence_by_id (sanitize_report rx report))) _
            ∙ length-map (sanitize_finding rx) report.findings))

sanitized_baseline-Distinct :
    (rx : Regexes) (baseline : Baseline)
    → Distinct baseline.findings
    → Distinct (sanitized_baseline rx baseline).findings
unfolding sanitized_baseline
sanitized_baseline-Distinct rx baseline d = DistinctBy-map _ _ _ (λ f. refl) baseline.findings d

-- Where the findings of the baseline have different ids, and those of the report too, the
-- baseline sides of the changes of `diff_baseline` are a permutation of the sanitized baseline's
-- findings, and their current sides are a permutation of the findings of the baseline that is
-- created of the report: each finding of either side stands in exactly one change.
pub diff_baseline-perm :
    (rx : Regexes) (baseline : Baseline) (report : ScanReport)
    → Distinct baseline.findings
    → HasDistinctIds report
    → Perm
        (baselines (diff_baseline rx baseline report).changes)
        (sanitized_baseline rx baseline).findings
      × Perm
          (currents (diff_baseline rx baseline report).changes)
          (create_baseline rx report baseline.created_by).findings
unfolding diff_baseline
diff_baseline-perm rx baseline report db dr =
    let bs = (sanitized_baseline rx baseline).findings in
    let cs = (create_baseline rx report baseline.created_by).findings in
    let (old, cur) =
      diff_findings-perm bs cs (sanitized_baseline-Distinct rx baseline db)
        (create_baseline-Distinct rx report baseline.created_by dr) in
    let sorted = sort_by-perm compare_change (diff_findings bs cs) in
    (
      Perm.trans (Perm.filter_map (λ (c : DiffFindingChange). c.baseline) sorted) old,
      Perm.trans (Perm.filter_map (λ (c : DiffFindingChange). c.current) sorted) cur,
    )

-- Where the findings of the baseline have different ids, and those of the report too, the counts
-- of unchanged, changed, moved and resolved in the summary of a diff add up to the number of
-- findings of the baseline, and those of new, unchanged, changed and moved to the number of
-- findings of the report.
pub diff_baseline-counts :
    (rx : Regexes) (baseline : Baseline) (report : ScanReport)
    → Distinct baseline.findings
    → HasDistinctIds report
    → (old_count (diff_baseline rx baseline report).summary ≡ length baseline.findings)
      × (current_count (diff_baseline rx baseline report).summary ≡ length report.findings)
unfolding diff_baseline summarize
diff_baseline-counts rx baseline report db dr =
    let bs = (sanitized_baseline rx baseline).findings in
    let cs = (create_baseline rx report baseline.created_by).findings in
    let changes = diff_findings bs cs in
    let (old, cur) = diff_baseline-perm rx baseline report db dr in
    let (n, m) =
      summarize_onto-counts no_changes (sort_by compare_change changes)
        (All-sort_by IsShaped compare_change changes (diff_findings-IsShaped bs cs)) in
    let old_length = length-perm _ bs old ∙ length-map _ baseline.findings in
    let cur_length = length-perm _ cs cur ∙ create_baseline-length rx report baseline.created_by in
    (omega (arith, n, old_length), omega (arith, m, cur_length))
