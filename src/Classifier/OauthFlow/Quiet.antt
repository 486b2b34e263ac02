-- ===== src/Classifier/OauthFlow/Quiet.antt =====
-- When the flows of a report give no finding, against the evidence that they have.
use session_scope.Common.{
  ◌≡◌, refl, sym, ◌↔◌, Bool, true, false, ◌&&◌, ◌||◌, not, none, some, List, [], ◌∷◌, ◌++◌, ◌==◌,
  string_eq, arith, if◌then◌else◌,
}
use session_scope.Common.Lists.{All, flat_map}
use session_scope.Model.Finding.{Finding}
use session_scope.Model.Artifact.{Artifact, ArtifactType, artifact_type_eq}
use session_scope.Model.Report.{ScanReport}
use session_scope.Classifier.OauthFlow.Rules.{
  classify_pkce, classify_redirect_uri, classify_nonce, state_missing, state_static,
  state_unverified,
}
use session_scope.Classifier.OauthFlow.Classify.{
  artifact_evidence, from_option, classify_state, flow_findings, classify_artifact, dedupe_from,
  dedupe_findings, classify,
}
use session_scope.Classifier.OauthFlow.Seen.{
  Seen, has, has_iff, any_or, detector_ids-seen, no_iff, implies_iff,
}

-- A flow that nothing is said against.
pub record IsQuiet (report : ScanReport) (a : Artifact) : Type 0 where
  pub has_pkce : Seen report a "oauth.pkce.present"
  pub has_state : Seen report a "oauth.state.present"
  pub has_no_static_state : ¬ Seen report a "oauth.state.static"
  pub verifies_state :
      Seen report a "oauth.state.callback_read" → Seen report a "oauth.state.verified"
  pub sends_nonce : Seen report a "oauth.oidc.openid_scope" → Seen report a "oauth.nonce.present"
  pub verifies_nonce :
      Seen report a "oauth.oidc.openid_scope" → Seen report a "oauth.nonce.verified"
  pub has_no_broad_redirect : ¬ Seen report a "oauth.redirect_uri.broad"

quiet_gates :
    (pkce state static callback verified openid nonce checked broad : Bool)
    (a b c d e f g : Finding)
    → ((from_option (if pkce then none else some a)
          ++ ((from_option (if not state then some b else none)
                ++ (from_option (if static then some c else none)
                    ++ from_option (if callback && not verified then some d else none)))
              ++ ((if not openid
                    then []
                    else if not nonce
                    then e ∷ []
                    else if not checked
                    then f ∷ []
                    else [])
                  ++ from_option (if not broad then none else some g))))
        ≡ [])
      ↔ ((pkce ≡ true)
          × (state ≡ true)
          × (static ≡ false)
          × ((callback ≡ true) → verified ≡ true)
          × ((openid ≡ true) → nonce ≡ true)
          × ((openid ≡ true) → checked ≡ true)
          × (broad ≡ false))
quiet_gates pkce state static callback verified openid nonce checked broad a b c d e f g =
    ground arith

flow_gates :
    (is_flow flow : Bool) (fs : List Finding)
    → ((if not is_flow then [] else if flow then fs else []) ≡ [])
      ↔ ((is_flow ≡ true) → (flow ≡ true) → fs ≡ [])
flow_gates is_flow flow fs = ground arith

module _ (report : ScanReport) (a : Artifact) where
  flow_findings_iff : (flow_findings report a (artifact_evidence report a) ≡ []) ↔ (
      (has report a "oauth.pkce.present" ≡ true)
      × ((has report a "oauth.state.present" || has report a "oauth.state.static") ≡ true)
      × (has report a "oauth.state.static" ≡ false)
      × ((has report a "oauth.state.callback_read" ≡ true)
          → has report a "oauth.state.verified" ≡ true)
      × ((has report a "oauth.oidc.openid_scope" ≡ true)
          → has report a "oauth.nonce.present" ≡ true)
      × ((has report a "oauth.oidc.openid_scope" ≡ true)
          → has report a "oauth.nonce.verified" ≡ true)
      × (has report a "oauth.redirect_uri.broad" ≡ false))
  unfolding flow_findings classify_pkce classify_state classify_nonce classify_redirect_uri
      state_missing state_static state_unverified
  flow_findings_iff =
      let ev = artifact_evidence report a in
      rw
        (
          sym (
              any_or (λ e. e.detector_id == "oauth.state.present")
                (λ e. e.detector_id == "oauth.state.static") ev),
          sym (detector_ids-seen ev "oauth.nonce.present"),
        )
        (quiet_gates _ _ _ _ _ _ _ _ _ _ _ _ _ _ _ _)

  flow_findings-IsQuiet :
      (flow_findings report a (artifact_evidence report a) ≡ []) ↔ IsQuiet report a
  flow_findings-IsQuiet = (
    λ h.
        let (pkce, state, static, verified, nonce, checked, broad) = flow_findings_iff.0 h in
        record {
          has_pkce = (has_iff report a _).0 pkce;
          has_state = (has_iff report a _).0 (ground arith);
          has_no_static_state = (no_iff report a _).0 static;
          verifies_state = (implies_iff report a _ _).0 verified;
          sends_nonce = (implies_iff report a _ _).0 nonce;
          verifies_nonce = (implies_iff report a _ _).0 checked;
          has_no_broad_redirect = (no_iff report a _).0 broad;
        },
    λ q.
        let state = (has_iff report a _).1 q.has_state in
        flow_findings_iff.1 (
          (has_iff report a _).1 q.has_pkce,
          ground arith,
          (no_iff report a _).1 q.has_no_static_state,
          (implies_iff report a _ _).1 q.verifies_state,
          (implies_iff report a _ _).1 q.sends_nonce,
          (implies_iff report a _ _).1 q.verifies_nonce,
          (no_iff report a _).1 q.has_no_broad_redirect,
        ),
  )

  -- An artifact of an authorization-code flow with the evidence of one.
  abbrev pub IsFlow : Type 0
  IsFlow =
      (a.artifact_type ≡ ArtifactType.oauth_auth_code_flow) × Seen report a "oauth.flow.auth_code"

  classify_artifact-IsQuiet : (classify_artifact report a ≡ []) ↔ (IsFlow → IsQuiet report a)
  unfolding classify_artifact
  classify_artifact-IsQuiet =
      let gates =
        flow_gates (a.artifact_type == ArtifactType.oauth_auth_code_flow)
          (has report a "oauth.flow.auth_code") _ in
      (
        λ h (type, flow).
            flow_findings-IsQuiet.0 (gates.0 h (ground arith) ((has_iff report a _).1 flow)),
        λ q.
            gates.1 (λ type flow.
              flow_findings-IsQuiet.1 (q (ground arith, (has_iff report a _).0 flow))),
      )

append-empty_iff : {A : Type 0} (xs ys : List A) → (xs ++ ys ≡ []) ↔ ((xs ≡ []) × (ys ≡ []))
append-empty_iff [] ys = ground arith
append-empty_iff (x ∷ xs) ys = ground arith

flat_map-empty_iff :
    {A B : Type 0} (f : A → List B) (xs : List A) → (flat_map f xs ≡ []) ↔ All (λ x. f x ≡ []) xs
flat_map-empty_iff f [] = (λ h. tt, λ h. refl)
flat_map-empty_iff f (x ∷ xs) =
    let both = append-empty_iff (f x) (flat_map f xs) in
    let rest = flat_map-empty_iff f xs in
    (λ h. ((both.0 h).0, rest.0 (both.0 h).1), λ h. both.1 (h.0, rest.1 h.1))

dedupe-empty_iff : (fs : List Finding) → (dedupe_findings fs ≡ []) ↔ (fs ≡ [])
unfolding dedupe_findings dedupe_from
dedupe-empty_iff [] = ground arith
dedupe-empty_iff (f ∷ fs) = ground arith

All-map_iff :
    {A : Type 0} (P Q : A → Type 0) (xs : List A) → ((x : A) → P x ↔ Q x) → All P xs ↔ All Q xs
All-map_iff P Q [] h = (λ p. tt, λ q. tt)
All-map_iff P Q (x ∷ xs) h =
    let rest = All-map_iff P Q xs h in
    (λ p. ((h x).0 p.0, rest.0 p.1), λ q. ((h x).1 q.0, rest.1 q.1))

-- `classify` has no finding about a report exactly when each artifact of an authorization-code
-- flow that names evidence of such a flow also names evidence of PKCE and of a state that is not
-- static, of the verification of a state that a callback reads, of a nonce and its verification
-- where the scope is `openid`, and of no broad redirect URI.
pub classify-IsQuiet :
    (report : ScanReport)
    → (classify report ≡ []) ↔ All (λ a. IsFlow report a → IsQuiet report a) report.artifacts
unfolding classify
classify-IsQuiet report =
    let deduped = dedupe-empty_iff (flat_map (classify_artifact report) report.artifacts) in
    let each = flat_map-empty_iff (classify_artifact report) report.artifacts in
    let quiet =
      All-map_iff (λ a. classify_artifact report a ≡ []) (λ a. IsFlow report a → IsQuiet report a)
        report.artifacts (classify_artifact-IsQuiet report) in
    (λ h. quiet.0 (each.0 (deduped.0 h)), λ q. deduped.1 (each.1 (quiet.1 q)))
