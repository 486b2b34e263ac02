-- ===== src/Classifier/Lifecycle/Artifacts.antt =====
-- Which artifacts lifecycle.rs takes for one another: their names and types.
use Prim.Native.Char.{Char, code}
use session_scope.Common.{
  String, Bool, true, false, ◌&&◌, ◌||◌, not, Option, none, some, List, ◌==◌, string_eq, leb,
  if◌then◌else◌,
}
use session_scope.Common.Lists.{keep, is_empty}
use session_scope.Common.Text.{is_nil, lower_char, split, join}
use session_scope.Model.Evidence.{EvidenceId}
use session_scope.Model.Lifecycle.{LifecycleStage}
use session_scope.Model.Artifact.{Artifact, ArtifactType, LifecycleEvidence, artifact_type_eq}

abbrev pub or_text : Option String → String → String
or_text none s = s
or_text (some t) s = t

-- `char::is_ascii_alphanumeric`
abbrev pub is_ascii_alphanumeric : Char → Bool
is_ascii_alphanumeric c =
    let n = code c in leb 48 n && leb n 57 || leb 65 n && leb n 90 || leb 97 n && leb n 122

unfoldable pub normalize_chars : String → String
unfolding lower_char
normalize_chars String.[] = String.[]
normalize_chars (String.◌∷◌ c s) =
    String.◌∷◌ (if is_ascii_alphanumeric c then lower_char c else "_") (normalize_chars s)

unfoldable pub normalized_artifact_name : Artifact → String
unfolding normalize_chars split join
normalized_artifact_name artifact = join "_" (
    keep (λ part. not (is_nil part))
      (split 95 (normalize_chars (or_text artifact.display_name "artifact"))))

abbrev pub is_session_cookie_alias : String → Bool
is_session_cookie_alias value =
    value == "session"
    || value == "sessionid"
    || value == "sid"
    || value == "connect_sid"
    || value == "connectsid"

unfoldable pub session_cookie_alias_matches : Artifact → Artifact → Bool
unfolding normalized_artifact_name
session_cookie_alias_matches source target =
    is_session_cookie_alias (normalized_artifact_name source)
    && is_session_cookie_alias (normalized_artifact_name target)

unfoldable pub normalized_refresh_name : Artifact → Option String
unfolding normalized_artifact_name
normalized_refresh_name artifact =
    let name = normalized_artifact_name artifact in
    if name == "refresh" || name == "refresh_token"
    then some "refresh_token"
    else if name == "refresh_jwt"
    then some "refresh_jwt"
    else none

-- `matches!(name, Some("refresh_token" | "refresh_jwt"))`
abbrev is_refresh_name : Option String → Bool
is_refresh_name none = false
is_refresh_name (some name) = name == "refresh_token" || name == "refresh_jwt"

unfoldable pub is_refresh_artifact : Artifact → Bool
unfolding normalized_refresh_name
is_refresh_artifact artifact =
    artifact.artifact_type == ArtifactType.refresh_jwt
    || is_refresh_name (normalized_refresh_name artifact)

abbrev is_session_type : ArtifactType → Bool
is_session_type ArtifactType.session_cookie = true
is_session_type ArtifactType.signed_cookie = true
is_session_type ArtifactType.session_record = true
is_session_type _ = false

unfoldable pub compatible_cookie_session_types : ArtifactType → ArtifactType → Bool
compatible_cookie_session_types left right = is_session_type left && is_session_type right

abbrev is_token_type : ArtifactType → Bool
is_token_type ArtifactType.refresh_jwt = true
is_token_type ArtifactType.access_jwt = true
is_token_type ArtifactType.opaque_bearer_token = true
is_token_type ArtifactType.api_key = true
is_token_type ArtifactType.service_token = true
is_token_type ArtifactType.unknown_token = true
is_token_type _ = false

unfoldable pub compatible_token_types : ArtifactType → ArtifactType → Bool
compatible_token_types left right = is_token_type left && is_token_type right

unfoldable pub compatible_revoke_artifacts : Artifact → Artifact → Bool
unfolding normalized_artifact_name session_cookie_alias_matches compatible_cookie_session_types
    compatible_token_types
compatible_revoke_artifacts source target =
    let names_match = normalized_artifact_name source == normalized_artifact_name target in
    let session_alias_match =
      compatible_cookie_session_types source.artifact_type target.artifact_type
      && session_cookie_alias_matches source target in
    if not names_match && not session_alias_match
    then false
    else source.artifact_type == target.artifact_type
      || source.artifact_type == ArtifactType.unknown
      || target.artifact_type == ArtifactType.unknown
      || compatible_cookie_session_types source.artifact_type target.artifact_type
      || compatible_token_types source.artifact_type target.artifact_type

unfoldable pub compatible_refresh_artifacts : Artifact → Artifact → Bool
unfolding is_refresh_artifact compatible_token_types
compatible_refresh_artifacts source target =
    is_refresh_artifact source
    && is_refresh_artifact target
    && (source.artifact_type == target.artifact_type
        || source.artifact_type == ArtifactType.unknown
        || target.artifact_type == ArtifactType.unknown
        || compatible_token_types source.artifact_type target.artifact_type)

unfoldable pub compatible_query_param_artifacts : Artifact → Artifact → Bool
unfolding normalized_artifact_name
compatible_query_param_artifacts source target =
    let names_match = normalized_artifact_name source == normalized_artifact_name target in
    let exact_type_match = source.artifact_type == target.artifact_type in
    let jwt_alias_match =
      (source.artifact_type == ArtifactType.access_jwt
          && target.artifact_type == ArtifactType.opaque_bearer_token
        || source.artifact_type == ArtifactType.opaque_bearer_token
          && target.artifact_type == ArtifactType.access_jwt)
      && names_match in
    (exact_type_match || jwt_alias_match)
    && names_match
    && not (
        source.artifact_type == ArtifactType.unknown_token
        || source.artifact_type == ArtifactType.unknown)

unfoldable pub lifecycle_ids_for_stage : LifecycleEvidence → LifecycleStage → List EvidenceId
lifecycle_ids_for_stage l LifecycleStage.issue = l.issue
lifecycle_ids_for_stage l LifecycleStage.store = l.store
lifecycle_ids_for_stage l LifecycleStage.transmit = l.transmit
lifecycle_ids_for_stage l LifecycleStage.validate = l.validate
lifecycle_ids_for_stage l LifecycleStage.refresh = l.refresh
lifecycle_ids_for_stage l LifecycleStage.revoke = l.revoke
lifecycle_ids_for_stage l LifecycleStage.expire = l.expire
lifecycle_ids_for_stage l LifecycleStage.introspect = l.introspect

unfoldable pub artifact_has_only_revoke_evidence : Artifact → Bool
artifact_has_only_revoke_evidence artifact =
    let l = artifact.lifecycle_evidence in
    not (is_empty l.revoke)
    && is_empty l.issue
    && is_empty l.store
    && is_empty l.transmit
    && is_empty l.validate
    && is_empty l.refresh
    && is_empty l.expire
    && is_empty l.introspect
