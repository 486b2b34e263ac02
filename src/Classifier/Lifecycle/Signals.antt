-- ===== src/Classifier/Lifecycle/Signals.antt =====
-- What the rules of lifecycle.rs read from evidence and from its excerpts.
use Prim.Native.Char.{code}
use text.Mathlib.Text.{starts_with}
use session_scope.Common.{
  String, Bool, false, ◌&&◌, ◌||◌, not, Option, none, some, List, [], ◌∷◌, map, ◌==◌, string_eq,
  eqb, if◌then◌else◌,
}
use session_scope.Common.Lists.{any, keep, is_empty}
use session_scope.Common.Sets.{get}
use session_scope.Common.Text.{contains_text, to_ascii_lowercase}
use session_scope.Model.Lifecycle.{LifecycleStage, lifecycle_stage_eq}
use session_scope.Model.Evidence.{Evidence, EvidenceId, SanitizedExcerpt}
use session_scope.Model.Report.{LifecyclePath, ScanReport}
use session_scope.Classifier.Lookup.{EvidenceMap}
use session_scope.Classifier.Lifecycle.Artifacts.{is_ascii_alphanumeric}
use session_scope.Classifier.Lifecycle.Paths.{
  evidence_ids_for_stage, fallback_path_ids, path_evidence_locations, locations_are_linkable,
}

-- `chars().filter(..).collect()`
unfoldable pub kept : String → String
kept String.[] = String.[]
kept (String.◌∷◌ c s) =
    if is_ascii_alphanumeric c || eqb (code c) 95 then String.◌∷◌ c (kept s) else kept s

-- The text without what is neither an ASCII letter or digit nor `_`, in lower case.
unfoldable pub normalized : String → String
unfolding to_ascii_lowercase kept
normalized value = to_ascii_lowercase (kept value)

-- One of the words occurs in the text.
abbrev has_any : String → List String → Bool
has_any text words = any (contains_text text) words

unfoldable pub contains_sliding_expiry_text : String → Bool
unfolding normalized
contains_sliding_expiry_text value =
    let text = normalized value in
    has_any text (
      "rolling" ∷ "sliding" ∷ "idle" ∷ "touch" ∷ "refreshsessionttl" ∷ "extend_session"
      ∷ "extendsession" ∷ [])
    && has_any text ("maxage" ∷ "ttl" ∷ "expires" ∷ "expiresat" ∷ "expire" ∷ [])

unfoldable pub contains_refresh_family_revoke_text : String → Bool
unfolding normalized
contains_refresh_family_revoke_text value =
    let text = normalized value in
    contains_text text "refresh"
    && has_any text (
        "family" ∷ "userid" ∷ "user_id" ∷ "usersessions" ∷ "allsessions" ∷ "allrefresh"
        ∷ "tokenfamily" ∷ "token_family" ∷ "familyid" ∷ "family_id" ∷ [])
    && has_any text
        ("revoke" ∷ "delete" ∷ "del" ∷ "invalidate" ∷ "destroy" ∷ "blacklist" ∷ "denylist" ∷ [])

unfoldable pub contains_jwt_denylist_text : String → Bool
unfolding normalized
contains_jwt_denylist_text value =
    let text = normalized value in
    let has_revoke_action = has_any text (
      "denylist" ∷ "blocklist" ∷ "blacklist" ∷ "revokedtokens" ∷ "revokedtoken" ∷ "revoketoken"
      ∷ "addtoblocklist" ∷ "revoke" ∷ []) in
    let has_access_token_context =
      has_any text ("jwt" ∷ "jti" ∷ "access" ∷ [])
      || contains_text text "token" && not (contains_text text "refresh") in
    has_revoke_action && has_access_token_context

-- The excerpt's text passes the test.
abbrev excerpt_has : (String → Bool) → Option SanitizedExcerpt → Bool
excerpt_has test none = false
excerpt_has test (some excerpt) = test excerpt.inner

abbrev detected_by : Evidence → List String → Bool
detected_by e detectors = any (λ d. e.detector_id == d) detectors

unfoldable pub is_server_revoke_evidence : Evidence → Bool
is_server_revoke_evidence e =
    detected_by e (
      "logout.session_destroy" ∷ "logout.token_revoke" ∷ "logout.provider_revoke" ∷ "refresh.rotate"
      ∷ "refresh.revoke" ∷ "refresh.provider" ∷ [])
    || e.detector_id == "refresh.reuse_detection" && e.lifecycle_stage == LifecycleStage.revoke

unfoldable pub is_refresh_family_revoke_evidence : Evidence → Bool
unfolding contains_refresh_family_revoke_text
is_refresh_family_revoke_evidence e =
    e.detector_id == "refresh.reuse_detection" && e.lifecycle_stage == LifecycleStage.revoke
    || detected_by e (
        "refresh.revoke" ∷ "refresh.rotate" ∷ "logout.token_revoke" ∷ "logout.provider_revoke" ∷ [])
      && excerpt_has contains_refresh_family_revoke_text e.excerpt

unfoldable pub is_sliding_expiry_evidence : Evidence → Bool
unfolding contains_sliding_expiry_text
is_sliding_expiry_evidence e =
    detected_by e ("session.middleware" ∷ "refresh.expire" ∷ "refresh.store" ∷ [])
    && excerpt_has contains_sliding_expiry_text e.excerpt

unfoldable pub is_rotation_evidence : Evidence → Bool
is_rotation_evidence e = detected_by e (
    "session.regenerate" ∷ "session.reissue" ∷ "session.framework_default_regenerate"
    ∷ "refresh.rotate" ∷ [])

unfoldable pub is_password_change_global_revoke_evidence : Evidence → Bool
unfolding is_refresh_family_revoke_evidence
is_password_change_global_revoke_evidence e =
    e.detector_id == "password_change.global_revoke" || is_refresh_family_revoke_evidence e

unfoldable pub is_jwt_denylist_or_revoke_evidence : Evidence → Bool
unfolding contains_jwt_denylist_text
is_jwt_denylist_or_revoke_evidence e = excerpt_has contains_jwt_denylist_text e.excerpt

-- `get(id).is_some_and(test)`
abbrev pub passes : (Evidence → Bool) → Option Evidence → Bool
passes test none = false
passes test (some e) = test e

module _ (evidence : EvidenceMap) where
  unfoldable pub some_passes : (Evidence → Bool) → List EvidenceId → Bool
  unfolding get
  some_passes test ids = any (λ id. passes test (get evidence id)) ids

  unfoldable pub keep_passing : (Evidence → Bool) → List EvidenceId → List EvidenceId
  unfolding get
  keep_passing test ids = keep (λ id. passes test (get evidence id)) ids

  unfoldable pub has_refresh_detector_evidence : LifecyclePath → Bool
  unfolding some_passes evidence_ids_for_stage
  has_refresh_detector_evidence path =
      some_passes (λ e. starts_with e.detector_id "refresh.")
        (evidence_ids_for_stage path LifecycleStage.refresh)

  unfoldable pub has_client_cookie_clear : LifecyclePath → Bool
  unfolding some_passes evidence_ids_for_stage
  has_client_cookie_clear path =
      some_passes (λ e. e.detector_id == "logout.cookie_clear")
        (evidence_ids_for_stage path LifecycleStage.revoke)

  unfoldable pub client_cookie_clear_ids : LifecyclePath → List EvidenceId
  unfolding keep_passing evidence_ids_for_stage
  client_cookie_clear_ids path =
      keep_passing (λ e. e.detector_id == "logout.cookie_clear")
        (evidence_ids_for_stage path LifecycleStage.revoke)

  unfoldable pub has_server_revoke : LifecyclePath → Bool
  unfolding some_passes evidence_ids_for_stage is_server_revoke_evidence
  has_server_revoke path =
      some_passes is_server_revoke_evidence (evidence_ids_for_stage path LifecycleStage.revoke)

  unfoldable pub has_dynamic_or_provider_refresh : LifecyclePath → Bool
  unfolding some_passes evidence_ids_for_stage
  has_dynamic_or_provider_refresh path =
      some_passes (λ e. e.dynamic || e.detector_id == "refresh.provider")
        (evidence_ids_for_stage path LifecycleStage.refresh)

  unfoldable pub sliding_expiry_ids : LifecyclePath → List EvidenceId
  unfolding keep_passing fallback_path_ids is_sliding_expiry_evidence
  sliding_expiry_ids path = keep_passing is_sliding_expiry_evidence (fallback_path_ids path)

  unfoldable pub has_sliding_expiry_evidence : LifecyclePath → Bool
  unfolding sliding_expiry_ids
  has_sliding_expiry_evidence path = not (is_empty (sliding_expiry_ids path))

  unfoldable pub password_change_handler_ids : LifecyclePath → List EvidenceId
  unfolding keep_passing fallback_path_ids
  password_change_handler_ids path =
      keep_passing (λ e. e.detector_id == "password_change.handler") (fallback_path_ids path)

  unfoldable pub evidence_linked_to_path_context : Evidence → LifecyclePath → Bool
  unfolding path_evidence_locations locations_are_linkable
  evidence_linked_to_path_context e path =
      any (λ location. locations_are_linkable e.location location)
        (path_evidence_locations evidence path)

  -- Evidence of the report that passes the test stands near evidence of the path.
  unfoldable pub some_linked : (Evidence → Bool) → ScanReport → LifecyclePath → Bool
  unfolding evidence_linked_to_path_context
  some_linked test report path =
      any (λ e. test e && evidence_linked_to_path_context e path) report.evidence

  unfoldable pub linked_logout_handler_ids : LifecyclePath → ScanReport → List EvidenceId
  unfolding keep_passing evidence_ids_for_stage evidence_linked_to_path_context
  linked_logout_handler_ids path report =
      let is_handler = λ (e : Evidence). e.detector_id == "logout.handler" in
      let direct_ids =
        keep_passing is_handler (evidence_ids_for_stage path LifecycleStage.revoke) in
      if not (is_empty direct_ids)
      then direct_ids
      else map (λ (e : Evidence). e.id)
          (keep (λ e. evidence_linked_to_path_context e path) (keep is_handler report.evidence))

  unfoldable pub has_linked_jwt_denylist_or_revoke : LifecyclePath → ScanReport → Bool
  unfolding some_passes evidence_ids_for_stage is_jwt_denylist_or_revoke_evidence some_linked
  has_linked_jwt_denylist_or_revoke path report =
      some_passes is_jwt_denylist_or_revoke_evidence
        (evidence_ids_for_stage path LifecycleStage.revoke)
      || some_linked is_jwt_denylist_or_revoke_evidence report path

  unfoldable pub has_linked_refresh_family_revoke : LifecyclePath → ScanReport → Bool
  unfolding some_passes evidence_ids_for_stage is_refresh_family_revoke_evidence some_linked
  has_linked_refresh_family_revoke path report =
      some_passes is_refresh_family_revoke_evidence
        (evidence_ids_for_stage path LifecycleStage.revoke)
      || some_linked is_refresh_family_revoke_evidence report path

  unfoldable pub has_linked_rotation_evidence : LifecyclePath → ScanReport → Bool
  unfolding some_passes evidence_ids_for_stage is_rotation_evidence some_linked
  has_linked_rotation_evidence path report =
      some_passes is_rotation_evidence (evidence_ids_for_stage path LifecycleStage.refresh)
      || some_linked is_rotation_evidence report path

  unfoldable pub has_linked_password_change_global_revoke : LifecyclePath → ScanReport → Bool
  unfolding some_passes fallback_path_ids is_password_change_global_revoke_evidence some_linked
  has_linked_password_change_global_revoke path report =
      some_passes is_password_change_global_revoke_evidence (fallback_path_ids path)
      || some_linked is_password_change_global_revoke_evidence report path
