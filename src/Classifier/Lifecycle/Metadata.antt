-- ===== src/Classifier/Lifecycle/Metadata.antt =====
-- The lifecycle path of one artifact in lifecycle.rs, and how a path is brought up to date.
use session_scope.Common.{
  ℕ, Ordering, compare, String, ◌<>◌, Bool, false, ◌||◌, Option, none, some, List, [], ◌∷◌, ◌++◌,
  map, string_eq, leb, if◌then◌else◌,
}
use session_scope.Common.Lists.{collect, is_empty}
use session_scope.Common.Sorting.{sort_by}
use session_scope.Common.Sets.{get}
use session_scope.Common.Text.{replace_char, decimal}
use session_scope.Model.Lifecycle.{LifecycleStage, ordered, stage_rank, lifecycle_stage_eq}
use session_scope.Model.Evidence.{Confidence, EvidenceId, SourceLocation}
use session_scope.Model.Artifact.{Artifact, ArtifactType}
use session_scope.Model.Report.{LifecyclePath, LifecyclePathStep}
use session_scope.Model.Schema.{stable_lifecycle_path_id}
use session_scope.Classifier.Lookup.{EvidenceMap}
use session_scope.Classifier.Lifecycle.Artifacts.{or_text, lifecycle_ids_for_stage}
use session_scope.Classifier.Lifecycle.Paths.{ArtifactMap, artifact_for_path_with_lookup, sort_ids}

unfoldable pub confidence_rank : Confidence → ℕ
confidence_rank Confidence.low = 0
confidence_rank Confidence.medium = 1
confidence_rank Confidence.high = 2

unfoldable pub min_confidence : Confidence → Confidence → Confidence
unfolding confidence_rank
min_confidence left right =
    if leb (confidence_rank left) (confidence_rank right) then left else right

abbrev or_zero : Option ℕ → ℕ
or_zero none = 0
or_zero (some n) = n

unfoldable pub location_part : SourceLocation → String
unfolding replace_char decimal
location_part location =
    replace_char 92 "/" location.path
    <> (":" <> (decimal (or_zero location.line) <> (":" <> decimal (or_zero location.column))))

unfoldable pub format_stage : LifecycleStage → String
format_stage LifecycleStage.issue = "issue"
format_stage LifecycleStage.store = "store"
format_stage LifecycleStage.transmit = "transmit"
format_stage LifecycleStage.validate = "validate"
format_stage LifecycleStage.refresh = "refresh"
format_stage LifecycleStage.revoke = "revoke"
format_stage LifecycleStage.expire = "expire"
format_stage LifecycleStage.introspect = "introspect"

unfoldable pub artifact_type_part : ArtifactType → String
artifact_type_part ArtifactType.session_cookie = "session_cookie"
artifact_type_part ArtifactType.signed_cookie = "signed_cookie"
artifact_type_part ArtifactType.access_jwt = "access_jwt"
artifact_type_part ArtifactType.refresh_jwt = "refresh_jwt"
artifact_type_part ArtifactType.opaque_bearer_token = "opaque_bearer_token"
artifact_type_part ArtifactType.api_key = "api_key"
artifact_type_part ArtifactType.service_token = "service_token"
artifact_type_part ArtifactType.unknown_token = "unknown_token"
artifact_type_part ArtifactType.password_reset_token = "password_reset_token"
artifact_type_part ArtifactType.email_verification_token = "email_verification_token"
artifact_type_part ArtifactType.session_record = "session_record"
artifact_type_part ArtifactType.oauth_auth_code_flow = "oauth_auth_code_flow"
artifact_type_part ArtifactType.unknown = "unknown"

unfoldable pub reviewer_question_for_path : Bool → Bool → Artifact → Option String
reviewer_question_for_path dynamic framework_default artifact =
    let name = or_text artifact.display_name "this artifact" in
    if dynamic
    then some (
        "Which production code path determines the effective lifecycle behavior for `"
        <> (name <> "`?"))
    else if framework_default
    then some (
        "Which framework version and deployment settings determine lifecycle behavior for `"
        <> (name <> "`?"))
    else none

-- What the loops over the evidence of a path gather.
pub record Gathered : Type 0 where
  pub confidence : Confidence
  pub dynamic : Bool
  pub framework_default : Bool
  pub evidence_locations : List String
  pub all_evidence_ids : List EvidenceId

module _ (evidence : EvidenceMap) where
  unfoldable pub gather_id : Gathered → EvidenceId → Gathered
  unfolding get min_confidence location_part
  gather_id g id =
      let g' = record g { all_evidence_ids = g.all_evidence_ids ++ id ∷ [] } in
      elim (get evidence id) [
        | none ↦ g'
        | some e ↦ record g' {
          confidence = min_confidence g.confidence e.confidence;
          dynamic = g.dynamic || e.dynamic;
          framework_default = g.framework_default || e.framework_default;
          evidence_locations = g.evidence_locations ++ location_part e.location ∷ [];
        }
      ]

  unfoldable pub gather : Gathered → List EvidenceId → Gathered
  unfolding gather_id
  gather g [] = g
  gather g (id ∷ ids) = gather (gather_id g id) ids

  unfoldable pub gather_steps : Gathered → List LifecyclePathStep → Gathered
  unfolding gather
  gather_steps g [] = g
  gather_steps g (step ∷ steps) = gather_steps (gather g step.evidence_ids) steps

abbrev nothing_gathered : Confidence → Gathered
nothing_gathered confidence = record {
  confidence = confidence;
  dynamic = false;
  framework_default = false;
  evidence_locations = [];
  all_evidence_ids = [];
}

unfoldable pub sort_step : LifecyclePathStep → LifecyclePathStep
unfolding sort_ids
sort_step step = record step { evidence_ids = sort_ids step.evidence_ids }

unfoldable pub compare_stage : LifecyclePathStep → LifecyclePathStep → Ordering
unfolding stage_rank
compare_stage left right = compare (stage_rank left.stage) (stage_rank right.stage)

-- The ids and the stages of a path in order, each once.
unfoldable pub sort_path : LifecyclePath → LifecyclePath
unfolding sort_ids sort_step sort_by compare_stage
sort_path path = record path {
  artifact_ids = sort_ids path.artifact_ids;
  stages = sort_by compare_stage (map sort_step path.stages);
}

unfoldable pub lowest_confidence : Confidence → List Artifact → Confidence
unfolding min_confidence
lowest_confidence c [] = c
lowest_confidence c (a ∷ as') = lowest_confidence (min_confidence c a.confidence) as'

module _ (artifacts : ArtifactMap) (evidence : EvidenceMap) where
  -- The metadata of a path whose ids and stages are in order.
  unfoldable pub set_metadata : LifecyclePath → Artifact → LifecyclePath
  unfolding get gather_steps lowest_confidence sort_ids format_stage stable_lifecycle_path_id
      reviewer_question_for_path
  set_metadata path primary =
      let named = collect (get artifacts) path.artifact_ids in
      let g =
        gather_steps evidence (nothing_gathered (lowest_confidence primary.confidence named))
          path.stages in
      record path {
        id = stable_lifecycle_path_id (
            ("lifecycle_path" ∷ path.artifact_ids)
            ++ (map (λ (s : LifecyclePathStep). format_stage s.stage) path.stages
                ++ (sort_ids g.all_evidence_ids ++ sort_ids g.evidence_locations)));
        confidence = g.confidence;
        dynamic = g.dynamic;
        reviewer_question = reviewer_question_for_path g.dynamic g.framework_default primary;
      }

  unfoldable pub refresh_path_metadata : LifecyclePath → LifecyclePath
  unfolding sort_path artifact_for_path_with_lookup set_metadata
  refresh_path_metadata path =
      let sorted = sort_path path in
      elim (artifact_for_path_with_lookup artifacts sorted) [
        | none ↦ sorted
        | some primary ↦ set_metadata sorted primary
      ]

-- The steps of an artifact: one for each stage that has evidence.
unfoldable pub step_for_stage : Artifact → LifecycleStage → Option LifecyclePathStep
unfolding lifecycle_ids_for_stage sort_ids
step_for_stage artifact stage =
    let ids = sort_ids (lifecycle_ids_for_stage artifact.lifecycle_evidence stage) in
    if is_empty ids then none else some (record { stage = stage; evidence_ids = ids })

unfoldable pub steps_of : Artifact → List LifecyclePathStep
unfolding step_for_stage
steps_of artifact = collect (step_for_stage artifact) ordered

-- The path as `path_for_artifact` builds it, before its metadata are set anew.
unfoldable pub new_path : EvidenceMap → Artifact → LifecyclePath
unfolding steps_of gather_steps sort_ids format_stage artifact_type_part stable_lifecycle_path_id
    reviewer_question_for_path
new_path evidence artifact =
    let stages = steps_of artifact in
    let g = gather_steps evidence (nothing_gathered artifact.confidence) stages in
    record {
      id = stable_lifecycle_path_id (
          ("lifecycle_path" ∷ artifact.id ∷ artifact_type_part artifact.artifact_type ∷ [])
          ++ (map (λ (s : LifecyclePathStep). format_stage s.stage) stages
              ++ (sort_ids g.all_evidence_ids ++ sort_ids g.evidence_locations)));
      artifact_ids = artifact.id ∷ [];
      stages = stages;
      confidence = g.confidence;
      dynamic = g.dynamic;
      reviewer_question = reviewer_question_for_path g.dynamic g.framework_default artifact;
    }

unfoldable pub path_for_artifact : EvidenceMap → Artifact → Option LifecyclePath
unfolding steps_of new_path refresh_path_metadata
path_for_artifact evidence artifact =
    if is_empty (steps_of artifact)
    then none
    else some
        (refresh_path_metadata ((artifact.id, artifact) ∷ []) evidence (new_path evidence artifact))
