-- ===== src/Classifier/Lifecycle/Links.antt =====
-- Which paths lifecycle.rs links, and how it merges one into another.
use session_scope.Common.{
  Bool, true, false, ◌&&◌, ◌||◌, not, Option, none, some, List, [], ◌∷◌, ◌++◌, ◌==◌, string_eq,
  nat_eq, if◌then◌else◌,
}
use session_scope.Common.Lists.{collect, any, length}
use session_scope.Common.Sets.{get}
use session_scope.Model.Lifecycle.{LifecycleStage, lifecycle_stage_eq}
use session_scope.Model.Evidence.{Evidence}
use session_scope.Model.Artifact.{Artifact}
use session_scope.Model.Report.{LifecyclePath, LifecyclePathStep}
use session_scope.Classifier.Lookup.{EvidenceMap}
use session_scope.Classifier.Lifecycle.Artifacts.{
  is_refresh_artifact, session_cookie_alias_matches, compatible_revoke_artifacts,
}
use session_scope.Classifier.Lifecycle.Paths.{
  ArtifactMap, has_stage, evidence_ids_for_stage, path_evidence_locations, locations_are_linkable,
}

-- A step of the source joins the first step of its stage, or becomes a step of its own.
unfoldable pub merge_step : LifecyclePathStep → List LifecyclePathStep → List LifecyclePathStep
merge_step source [] = source ∷ []
merge_step source (target ∷ rest) =
    if target.stage == source.stage
    then record target { evidence_ids = target.evidence_ids ++ source.evidence_ids } ∷ rest
    else target ∷ merge_step source rest

unfoldable pub merge_steps :
    List LifecyclePathStep → List LifecyclePathStep → List LifecyclePathStep
unfolding merge_step
merge_steps [] target = target
merge_steps (source ∷ rest) target = merge_steps rest (merge_step source target)

unfoldable pub merge_path : LifecyclePath → LifecyclePath → LifecyclePath
unfolding merge_steps
merge_path source target = record target {
  artifact_ids = target.artifact_ids ++ source.artifact_ids;
  stages = merge_steps source.stages target.stages;
}

unfoldable pub is_revoke_only_path : LifecyclePath → Bool
unfolding has_stage
is_revoke_only_path path = length path.stages == 1 && has_stage path LifecycleStage.revoke

abbrev is_query_read : Option Evidence → Bool
is_query_read none = false
is_query_read (some e) =
    e.detector_id == "query_param.read" || e.detector_id == "query_param.read.dynamic"

unfoldable pub is_query_param_transmit_path : EvidenceMap → LifecyclePath → Bool
unfolding has_stage evidence_ids_for_stage get
is_query_param_transmit_path evidence path =
    length path.stages == 1
    && has_stage path LifecycleStage.transmit
    && any (λ id. is_query_read (get evidence id))
        (evidence_ids_for_stage path LifecycleStage.transmit)

unfoldable pub is_refresh_path : ArtifactMap → LifecyclePath → Bool
unfolding get is_refresh_artifact has_stage
is_refresh_path artifacts path =
    any is_refresh_artifact (collect (get artifacts) path.artifact_ids)
    || has_stage path LifecycleStage.refresh

unfoldable pub paths_have_linkable_source_context :
    EvidenceMap → LifecyclePath → LifecyclePath → Bool
unfolding path_evidence_locations locations_are_linkable
paths_have_linkable_source_context evidence source target =
    any (λ s. any (λ t. locations_are_linkable s t) (path_evidence_locations evidence target))
      (path_evidence_locations evidence source)

unfoldable pub revoke_paths_are_linkable :
    EvidenceMap → Artifact → Artifact → LifecyclePath → LifecyclePath → Bool
unfolding compatible_revoke_artifacts is_refresh_artifact session_cookie_alias_matches
    paths_have_linkable_source_context
revoke_paths_are_linkable evidence source_artifact target_artifact source target =
    if not (compatible_revoke_artifacts source_artifact target_artifact)
    then false
    else if is_refresh_artifact source_artifact && is_refresh_artifact target_artifact
        || session_cookie_alias_matches source_artifact target_artifact
    then paths_have_linkable_source_context evidence source target
    else true
