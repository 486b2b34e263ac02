-- ===== src/Classifier/Lifecycle/Paths.antt =====
-- What lifecycle.rs looks up of a path: its artifact, its evidence and its stages.
use Prim.Native.String.{compare as compare_text}
use session_scope.Common.{
  ℕ, ◌-◌, String, Bool, false, ◌&&◌, not, Option, none, some, List, [], map, ◌==◌, string_eq, leb,
  ltb, if◌then◌else◌,
}
use session_scope.Common.Lists.{collect, any, find, head?, flat_map}
use session_scope.Common.Sorting.{sort_by, dedup}
use session_scope.Common.Sets.{get, collect_map}
use session_scope.Model.Lifecycle.{LifecycleStage, lifecycle_stage_eq}
use session_scope.Model.Evidence.{Evidence, EvidenceId, SourceLocation}
use session_scope.Model.Finding.{ArtifactId}
use session_scope.Model.Artifact.{Artifact}
use session_scope.Model.Report.{LifecyclePath, LifecyclePathStep, ScanReport}
use session_scope.Classifier.Lookup.{EvidenceMap}
use session_scope.Classifier.Lifecycle.Artifacts.{artifact_has_only_revoke_evidence}

abbrev pub refresh_link_max_line_distance : ℕ
refresh_link_max_line_distance = 80

abbrev pub ArtifactMap : Type 0
ArtifactMap = List (ArtifactId × Artifact)

unfoldable pub artifact_by_id : ScanReport → ArtifactMap
unfolding collect_map
artifact_by_id report = collect_map [] (map (λ a. (a.id, a)) report.artifacts)

-- The first artifact of the path that has more than revoke evidence, or else its first artifact.
unfoldable pub artifact_for_path_with_lookup : ArtifactMap → LifecyclePath → Option Artifact
unfolding get artifact_has_only_revoke_evidence
artifact_for_path_with_lookup artifacts path =
    elim (find (λ a. not (artifact_has_only_revoke_evidence a))
      (collect (get artifacts) path.artifact_ids)) [
        | some artifact ↦ some artifact
        | none ↦ elim (head? path.artifact_ids) [ none ↦ none | some id ↦ get artifacts id ]
      ]

unfoldable pub has_stage : LifecyclePath → LifecycleStage → Bool
has_stage path stage = any (λ (s : LifecyclePathStep). s.stage == stage) path.stages

unfoldable pub evidence_ids_for_stage : LifecyclePath → LifecycleStage → List EvidenceId
evidence_ids_for_stage path stage =
    elim (find (λ (s : LifecyclePathStep). s.stage == stage) path.stages) [
      | none ↦ []
      | some step ↦ step.evidence_ids
    ]

-- `sort` and `dedup` of ids.
unfoldable pub sort_ids : List String → List String
unfolding sort_by dedup
sort_ids ids = dedup (sort_by compare_text ids)

unfoldable pub fallback_path_ids : LifecyclePath → List EvidenceId
unfolding sort_ids
fallback_path_ids path = sort_ids (flat_map (λ (s : LifecyclePathStep). s.evidence_ids) path.stages)

unfoldable pub path_evidence_locations : EvidenceMap → LifecyclePath → List SourceLocation
unfolding get
path_evidence_locations evidence path =
    map (λ (e : Evidence). e.location)
      (collect (get evidence) (flat_map (λ (s : LifecyclePathStep). s.evidence_ids) path.stages))

abbrev abs_diff : ℕ → ℕ → ℕ
abs_diff a b = if ltb a b then b - a else a - b

abbrev within : Option ℕ → Option ℕ → Bool
within (some left) (some right) = leb (abs_diff left right) refresh_link_max_line_distance
within (some left) none = false
within none right = false

unfoldable pub locations_are_linkable : SourceLocation → SourceLocation → Bool
locations_are_linkable left right = left.path == right.path && within left.line right.line
