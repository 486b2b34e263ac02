-- ===== src/Classifier/Lifecycle/CookieRules.antt =====
-- The rules of lifecycle.rs on cookies that a logout clears.
use session_scope.Common.{
  String, ◌<>◌, ◌||◌, not, Option, none, some, List, [], ◌∷◌, ◌++◌, ◌==◌, string_eq, if◌then◌else◌,
}
use session_scope.Common.Lists.{collect, is_empty}
use session_scope.Common.Sets.{get}
use session_scope.Common.Text.{join}
use session_scope.Model.Evidence.{Evidence, EvidenceId}
use session_scope.Model.Finding.{Finding, FindingCategory, Severity}
use session_scope.Model.Artifact.{
  Artifact, ArtifactType, CookieAttributes, CookieAttributeObservation, artifact_type_eq,
}
use session_scope.Model.Report.{LifecyclePath}
use session_scope.Classifier.Lookup.{EvidenceMap}
use session_scope.Classifier.Lifecycle.Artifacts.{or_text}
use session_scope.Classifier.Lifecycle.Paths.{sort_ids}
use session_scope.Classifier.Lifecycle.Signals.{
  has_client_cookie_clear, client_cookie_clear_ids, has_server_revoke,
}
use session_scope.Classifier.Lifecycle.Cookies.{attribute_missing_or_mismatched}
use session_scope.Classifier.Lifecycle.PathRules.{finding, is_session_artifact}

unfoldable pub classify_clear_cookie_only_logout :
    EvidenceMap → Artifact → LifecyclePath → Option Finding
unfolding has_client_cookie_clear has_server_revoke is_session_artifact client_cookie_clear_ids
    finding
classify_clear_cookie_only_logout evidence artifact path =
    if not (has_client_cookie_clear evidence path)
      || has_server_revoke evidence path
      || not (is_session_artifact artifact.artifact_type)
    then none
    else some (
        finding artifact path (record {
          rule_id = "lifecycle_clear_cookie_only_logout";
          category = FindingCategory.lifecycle_gap;
          severity = Severity.low;
          evidence_ids = client_cookie_clear_ids evidence path;
          title =
              "Cookie `"
              <> (or_text artifact.display_name "session"
                  <> "` is cleared on logout without linked server-side revocation");
          description =
              "Logout evidence clears a client-side cookie, but no linked server-side session, token, or provider revocation evidence was found for the same lifecycle path.";
          suggested_fix =
              "Invalidate the server-side session or refresh token in addition to deleting the browser cookie.";
          reviewer_question =
              "Where is the server-side session or token behind `"
              <> (or_text artifact.display_name "session" <> "` revoked during logout?");
        }))

abbrev texts_of : List Evidence → List String
texts_of [] = []
texts_of (e ∷ es) = elim e.excerpt [
  | none ↦ texts_of es
  | some excerpt ↦ excerpt.inner ∷ texts_of es
]

-- The excerpts of the evidence that clears the cookie.
unfoldable pub clear_excerpts : EvidenceMap → LifecyclePath → List String
unfolding client_cookie_clear_ids get
clear_excerpts evidence path =
    texts_of (collect (get evidence) (client_cookie_clear_ids evidence path))

unfoldable pub mismatches : EvidenceMap → LifecyclePath → CookieAttributes → List String
unfolding clear_excerpts attribute_missing_or_mismatched
mismatches evidence path attributes =
    let excerpts = clear_excerpts evidence path in
    (if attribute_missing_or_mismatched attributes.path "path" excerpts then "path" ∷ [] else [])
    ++ (if attribute_missing_or_mismatched attributes.domain "domain" excerpts
        then "domain" ∷ []
        else [])

unfoldable pub mismatched_ids : CookieAttributeObservation → String → List String → List EvidenceId
unfolding attribute_missing_or_mismatched
mismatched_ids observation attribute excerpts =
    if attribute_missing_or_mismatched observation attribute excerpts
    then observation.evidence_ids
    else []

unfoldable pub mismatch_ids : EvidenceMap → LifecyclePath → CookieAttributes → List EvidenceId
unfolding clear_excerpts mismatched_ids client_cookie_clear_ids sort_ids
mismatch_ids evidence path attributes =
    let excerpts = clear_excerpts evidence path in
    sort_ids (
      client_cookie_clear_ids evidence path
      ++ (mismatched_ids attributes.path "path" excerpts
          ++ mismatched_ids attributes.domain "domain" excerpts))

unfoldable pub mismatch_finding :
    EvidenceMap → Artifact → LifecyclePath → CookieAttributes → Option Finding
unfolding mismatches mismatch_ids join finding
mismatch_finding evidence artifact path attributes =
    let names = mismatches evidence path attributes in
    if is_empty names
    then none
    else some (
        finding artifact path (record {
          rule_id = "lifecycle_cookie_clear_attribute_mismatch";
          category = FindingCategory.dynamic_review_required;
          severity = Severity.low;
          evidence_ids = mismatch_ids evidence path attributes;
          title =
              "Cookie `"
              <> (or_text artifact.display_name "cookie"
                  <> "` is cleared without matching deletion attributes");
          description =
              "The cookie is set with a static "
              <> (join "/" names
                  <> " attribute, but the linked clear-cookie evidence does not show matching deletion options.");
          suggested_fix =
              "Delete the cookie with the same path and domain attributes used when setting it.";
          reviewer_question =
              "Does every logout path clear `"
              <> (or_text artifact.display_name "cookie"
                  <> ("` using the same " <> (join "/" names <> " options used when setting it?")));
        }))

unfoldable pub classify_cookie_clear_attribute_mismatch :
    EvidenceMap → Artifact → LifecyclePath → Option Finding
unfolding has_client_cookie_clear mismatch_finding
classify_cookie_clear_attribute_mismatch evidence artifact path =
    if not (has_client_cookie_clear evidence path)
      || not (
          artifact.artifact_type == ArtifactType.session_cookie
          || artifact.artifact_type == ArtifactType.signed_cookie)
    then none
    else elim artifact.cookie_attributes [
      | none ↦ none
      | some attributes ↦ mismatch_finding evidence artifact path attributes
    ]
