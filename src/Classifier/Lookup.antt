-- ===== src/Classifier/Lookup.antt =====
-- The map of a report's evidence by its id, which every classifier builds first.
use session_scope.Common.{List, [], map, string_eq}
use session_scope.Common.Sets.{collect_map}
use session_scope.Model.Evidence.{Evidence, EvidenceId}
use session_scope.Model.Report.{ScanReport}

abbrev pub EvidenceMap : Type 0
EvidenceMap = List (EvidenceId × Evidence)

unfoldable pub evidence_by_id : ScanReport → EvidenceMap
unfolding collect_map
evidence_by_id report = collect_map [] (map (λ e. (e.id, e)) report.evidence)
