-- ===== src/Classifier/Order.antt =====
-- `sort_findings` of crates/sessionscope-classifier/src/lib.rs: the order of a report's findings.
use Prim.Native.String.{compare as compare_text}
use session_scope.Common.{ℕ, ◌≤◌, Ordering, compare, List, [], ◌∷◌}
use session_scope.Common.Lists.{All}
use session_scope.Common.Sorting.{sort_by, then_with}
use session_scope.Common.Order.{compare_list}
use session_scope.Model.Finding.{Finding, Severity, category_rank}
use session_scope.Model.Report.{ScanReport}

unfoldable pub severity_rank : Severity → ℕ
severity_rank Severity.info = 0
severity_rank Severity.low = 1
severity_rank Severity.medium = 2
severity_rank Severity.high = 3

unfoldable pub compare_finding : Finding → Finding → Ordering
unfolding severity_rank category_rank compare_list
compare_finding l r = then_with (compare (severity_rank r.severity) (severity_rank l.severity)) (
    then_with (compare (category_rank l.category) (category_rank r.category)) (
      then_with (compare_list compare_text l.artifact_ids r.artifact_ids) (
        then_with (compare_list compare_text l.evidence_ids r.evidence_ids)
          (compare_text l.id r.id))))

unfoldable pub sort_findings : ScanReport → ScanReport
unfolding sort_by compare_finding
sort_findings report = record report { findings = sort_by compare_finding report.findings }

-- No finding has a higher severity than one before it.
abbrev pub IsDescending : List Finding → Type 0
IsDescending [] = Unit
IsDescending (f ∷ fs) =
    All (λ (g : Finding). severity_rank g.severity ≤ severity_rank f.severity) fs × IsDescending fs
