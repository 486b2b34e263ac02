-- ===== src/Classifier/SessionFixation/Reported.antt =====
-- The transitions that `classify` of session_fixation.rs reports.
use session_scope.Common.{Bool, not, List, string_eq}
use session_scope.Model.Report.{ScanReport}
use session_scope.Classifier.SessionFixation.Records.{FixationRecord, fixation_records}
use session_scope.Classifier.SessionFixation.Regeneration.{has_nearby_regeneration}
use session_scope.Classifier.SessionFixation.Classify.{place_eq, transitions_of, regenerations_of}

module _ (records transitions regenerations : List FixationRecord) where
  abbrev is_rotated : FixationRecord → Bool
  is_rotated t = has_nearby_regeneration t regenerations transitions

  abbrev is_unrotated : FixationRecord → Bool
  is_unrotated t = not (is_rotated t)

-- The transitions of a report, and whether one has a regeneration near it.
abbrev pub transitions_in : ScanReport → List FixationRecord
transitions_in report = transitions_of (fixation_records report)

abbrev pub is_rotated_in : ScanReport → FixationRecord → Bool
is_rotated_in report t =
    has_nearby_regeneration t (regenerations_of (fixation_records report)) (transitions_in report)
