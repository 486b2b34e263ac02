-- ===== src/Classifier/SessionFixation/Records.antt =====
-- `fixation_records`, the kinds of evidence among them, and their scopes.
use text.Mathlib.Text.{starts_with}
use session_scope.Common.{
  ℕ, ◌+◌, ◌-◌, String, Bool, true, false, ◌&&◌, ◌||◌, Option, none, some, List, [], ◌∷◌, ◌++◌, ◌==◌,
  string_eq, leb, if◌then◌else◌,
}
use session_scope.Common.Sets.{get}
use session_scope.Common.Text.{strip_prefix}
use session_scope.Model.Lifecycle.{LifecycleStage, lifecycle_stage_eq}
use session_scope.Model.Evidence.{Evidence, EvidenceId}
use session_scope.Model.Artifact.{Artifact}
use session_scope.Model.Report.{ScanReport}
use session_scope.Classifier.Lookup.{EvidenceMap, evidence_by_id}

abbrev pub link_distance : ℕ
link_distance = 80

pub record FixationRecord : Type 0 where
  pub artifact : Artifact
  pub evidence : Evidence

-- An id brings a record when the report has its evidence, of a `session.` detector.
abbrev record_of : Artifact → Option Evidence → List FixationRecord
record_of artifact none = []
record_of artifact (some e) =
    if starts_with e.detector_id "session."
    then record { artifact = artifact; evidence = e } ∷ []
    else []

unfoldable pub records_of : EvidenceMap → Artifact → List EvidenceId → List FixationRecord
unfolding get
records_of by_id artifact [] = []
records_of by_id artifact (id ∷ ids) =
    record_of artifact (get by_id id) ++ records_of by_id artifact ids

unfoldable pub records_of_all : EvidenceMap → List Artifact → List FixationRecord
unfolding records_of
records_of_all by_id [] = []
records_of_all by_id (a ∷ as') =
    records_of by_id a
      (a.lifecycle_evidence.issue ++ a.lifecycle_evidence.store ++ a.lifecycle_evidence.refresh)
    ++ records_of_all by_id as'

unfoldable pub fixation_records : ScanReport → List FixationRecord
unfolding records_of_all evidence_by_id
fixation_records report = records_of_all (evidence_by_id report) report.artifacts

unfoldable pub is_transition_evidence : Evidence → Bool
is_transition_evidence e =
    e.lifecycle_stage == LifecycleStage.issue
    && (e.detector_id == "session.auth_transition"
        || e.detector_id == "session.privilege_transition")

unfoldable pub is_regeneration_evidence : Evidence → Bool
is_regeneration_evidence e =
    e.lifecycle_stage == LifecycleStage.refresh
    && (e.detector_id == "session.regenerate"
        || e.detector_id == "session.reissue"
        || e.detector_id == "session.framework_default_regenerate")

unfoldable pub first_scope : List String → Option String
unfolding strip_prefix
first_scope [] = none
first_scope (hint ∷ hints) = elim (strip_prefix "scope:" hint) [
  | some scope ↦ some scope
  | none ↦ first_scope hints
]

unfoldable pub scope_hint : Artifact → Option String
unfolding first_scope
scope_hint artifact = first_scope artifact.framework_hints

abbrev pub same_hint : Option String → Option String → Bool
same_hint (some l) (some r) = l == r
same_hint (some l) none = false
same_hint none (some r) = false
same_hint none none = true

unfoldable pub same_scope : FixationRecord → FixationRecord → Bool
unfolding scope_hint
same_scope l r = same_hint (scope_hint l.artifact) (scope_hint r.artifact)

-- `usize::abs_diff`.
abbrev pub abs_diff : ℕ → ℕ → ℕ
abs_diff m n = (m - n) + (n - m)

abbrev within : Option ℕ → Option ℕ → Bool
within none r = false
within (some l) none = false
within (some l) (some r) = leb (abs_diff l r) link_distance

unfoldable pub nearby : Evidence → Evidence → Bool
nearby l r =
    if l.location.path == r.location.path then within l.location.line r.location.line else false
