-- ===== src/Core/Capability/Matching.antt =====
-- Which artifacts, evidence, paths and findings an area is about: the tests of capability.rs.
use text.Mathlib.Text.{starts_with}
use session_scope.Common.{
  String, Bool, true, false, not, ◌&&◌, ◌||◌, Option, none, some, List, [], ◌∷◌, ◌++◌, ◌==◌,
  string_eq, contains, if◌then◌else◌,
}
use session_scope.Common.Lists.{any, is_empty, flat_map}
use session_scope.Common.Sets.{extend}
use session_scope.Common.Text.{contains_text, to_ascii_lowercase}
use session_scope.Model.Lifecycle.{LifecycleStage, lifecycle_stage_eq}
use session_scope.Model.Evidence.{Evidence, EvidenceId}
use session_scope.Model.Finding.{ArtifactId, Finding}
use session_scope.Model.Artifact.{
  Artifact, ArtifactType, artifact_type_eq, LifecycleEvidence, JwtAttributeObservation,
  JwtAttributeState, jwt_attribute_state_eq, JwtIdentityClaims, JwtAttributes, CookieAttributes,
}
use session_scope.Model.Report.{LifecyclePath, LifecyclePathStep}

pub data CapabilityArea : Type 0 where
  cookies claims logout refresh : CapabilityArea

abbrev is_some : {A : Type 0} → Option A → Bool
is_some none = false
is_some (some a) = true

abbrev is_some_and : {A : Type 0} → (A → Bool) → Option A → Bool
is_some_and p none = false
is_some_and p (some a) = p a

abbrev identity_claims_of : Option JwtAttributes → Option JwtIdentityClaims
identity_claims_of none = none
identity_claims_of (some attributes) = attributes.identity_claims

-- The twelve claims, in the order in which the source lists them.
abbrev all_claims : JwtIdentityClaims → List JwtAttributeObservation
all_claims c =
    c.subject ∷ c.user_id ∷ c.tenant_id ∷ c.org_id ∷ c.workspace_id ∷ c.roles ∷ c.scopes ∷ c.groups
    ∷ c.email ∷ c.email_verified ∷ c.auth_method ∷ c.auth_class ∷ []

abbrev has_known_claim : JwtIdentityClaims → Bool
has_known_claim c =
    any (λ (claim : JwtAttributeObservation). not (claim.state == JwtAttributeState.unknown))
      (all_claims c)

abbrev is_revocation_id : EvidenceId → Bool
is_revocation_id id =
    contains_text id "logout" || contains_text id "revoke" || contains_text id "clear"

unfoldable pub artifact_matches : CapabilityArea → Artifact → Bool
unfolding to_ascii_lowercase
artifact_matches CapabilityArea.cookies artifact =
    (artifact.artifact_type == ArtifactType.session_cookie
      || artifact.artifact_type == ArtifactType.signed_cookie)
    || is_some artifact.cookie_attributes
artifact_matches CapabilityArea.claims artifact =
    is_some_and has_known_claim (identity_claims_of artifact.jwt_attributes)
artifact_matches CapabilityArea.logout artifact =
    any is_revocation_id artifact.lifecycle_evidence.revoke
artifact_matches CapabilityArea.refresh artifact =
    artifact.artifact_type == ArtifactType.refresh_jwt
    || is_some_and (λ name. contains_text (to_ascii_lowercase name) "refresh") artifact.display_name
    || not (is_empty artifact.lifecycle_evidence.refresh)

abbrev identity_claim_detectors : List String
identity_claim_detectors =
    "jwt.attribute.subject" ∷ "jwt.attribute.user_id" ∷ "jwt.attribute.tenant_id"
    ∷ "jwt.attribute.org_id" ∷ "jwt.attribute.workspace_id" ∷ "jwt.attribute.roles"
    ∷ "jwt.attribute.scopes" ∷ "jwt.attribute.groups" ∷ "jwt.attribute.email"
    ∷ "jwt.attribute.email_verified" ∷ "jwt.attribute.auth_method" ∷ "jwt.attribute.auth_class" ∷ []

unfoldable pub is_identity_claim_detector : String → Bool
is_identity_claim_detector detector_id = contains identity_claim_detectors detector_id

unfoldable pub evidence_matches : CapabilityArea → Evidence → Bool
unfolding is_identity_claim_detector
evidence_matches CapabilityArea.cookies evidence = starts_with evidence.detector_id "cookie."
evidence_matches CapabilityArea.claims evidence = is_identity_claim_detector evidence.detector_id
evidence_matches CapabilityArea.logout evidence =
    starts_with evidence.detector_id "logout."
    || contains_text evidence.detector_id "provider_revoke"
evidence_matches CapabilityArea.refresh evidence =
    evidence.lifecycle_stage == LifecycleStage.refresh
    || starts_with evidence.detector_id "refresh."
    || contains_text evidence.detector_id "refresh"

unfoldable pub lifecycle_stage_matches : CapabilityArea → LifecycleStage → Bool
lifecycle_stage_matches CapabilityArea.cookies stage = true
lifecycle_stage_matches CapabilityArea.claims stage = false
lifecycle_stage_matches CapabilityArea.logout stage = stage == LifecycleStage.revoke
lifecycle_stage_matches CapabilityArea.refresh stage = stage == LifecycleStage.refresh

-- The evidence of an artifact's life, in the order of the stages.
abbrev pub lifecycle_evidence_ids : LifecycleEvidence → List EvidenceId
lifecycle_evidence_ids l =
    l.issue ++ l.store ++ l.transmit ++ l.validate ++ l.refresh ++ l.revoke ++ l.expire
    ++ l.introspect

abbrev cookie_evidence_ids : Option CookieAttributes → List EvidenceId
cookie_evidence_ids none = []
cookie_evidence_ids (some a) =
    a.http_only.evidence_ids ++ a.secure.evidence_ids ++ a.same_site.evidence_ids
    ++ a.max_age.evidence_ids ++ a.expires.evidence_ids ++ a.path.evidence_ids
    ++ a.domain.evidence_ids

abbrev claim_evidence_ids : Option JwtIdentityClaims → List EvidenceId
claim_evidence_ids none = []
claim_evidence_ids (some c) =
    flat_map (λ (claim : JwtAttributeObservation). claim.evidence_ids) (all_claims c)

-- What `collect_artifact_evidence` adds to the set.
unfoldable pub artifact_evidence_ids : CapabilityArea → Artifact → List EvidenceId
artifact_evidence_ids CapabilityArea.claims artifact =
    claim_evidence_ids (identity_claims_of artifact.jwt_attributes)
artifact_evidence_ids CapabilityArea.cookies artifact =
    lifecycle_evidence_ids artifact.lifecycle_evidence
    ++ cookie_evidence_ids artifact.cookie_attributes
artifact_evidence_ids CapabilityArea.logout artifact = artifact.lifecycle_evidence.revoke
artifact_evidence_ids CapabilityArea.refresh artifact = artifact.lifecycle_evidence.refresh

unfoldable pub collect_artifact_evidence :
    Artifact → List EvidenceId → CapabilityArea → List EvidenceId
unfolding extend artifact_evidence_ids
collect_artifact_evidence artifact evidence_ids area =
    extend evidence_ids (artifact_evidence_ids area artifact)

unfoldable pub artifact_has_evidence : Artifact → List EvidenceId → Bool
artifact_has_evidence artifact evidence_ids =
    any (contains evidence_ids) (lifecycle_evidence_ids artifact.lifecycle_evidence)

unfoldable pub path_matches : LifecyclePath → List ArtifactId → List EvidenceId → Bool
path_matches path artifact_ids evidence_ids =
    any (contains artifact_ids) path.artifact_ids
    || any (contains evidence_ids)
        (flat_map (λ (step : LifecyclePathStep). step.evidence_ids) path.stages)

-- The tests of a finding's title, after its evidence has not decided.
abbrev title_matches : CapabilityArea → String → Bool → Bool
title_matches CapabilityArea.cookies title has_artifact =
    has_artifact
    && (contains_text title "cookie"
        || contains_text title "samesite"
        || contains_text title "secure"
        || contains_text title "httponly")
title_matches CapabilityArea.claims title has_artifact =
    contains_text title "claim"
    || contains_text title "subject"
    || contains_text title "tenant"
    || contains_text title "role"
    || contains_text title "scope"
    || contains_text title "group"
    || contains_text title "email"
title_matches CapabilityArea.logout title has_artifact =
    contains_text title "logout" || contains_text title "revoke" || contains_text title "revocation"
title_matches CapabilityArea.refresh title has_artifact =
    contains_text title "refresh" && has_artifact

unfoldable pub finding_matches : CapabilityArea → Finding → List ArtifactId → List EvidenceId → Bool
unfolding to_ascii_lowercase
finding_matches area finding artifact_ids evidence_ids =
    if any (contains evidence_ids) finding.evidence_ids
    then true
    else title_matches area (to_ascii_lowercase finding.title)
        (any (contains artifact_ids) finding.artifact_ids)
