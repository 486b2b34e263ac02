-- ===== src/Model/Artifact.antt =====
-- crates/sessionscope-model/src/artifact.rs
use session_scope.Common.{String, Bool, true, false, ◌&&◌, Option, none, some, List, []}
use session_scope.Common.{Eq, ◌==◌, option_eq, string_eq}
use session_scope.Common.Lists.{is_empty}
use session_scope.Model.Evidence.{EvidenceId, Confidence, SourceLocation, confidence_eq}
use session_scope.Model.Finding.{ArtifactId}

pub data ArtifactType : Type 0 where
  session_cookie signed_cookie access_jwt refresh_jwt opaque_bearer_token : ArtifactType
  api_key service_token unknown_token password_reset_token : ArtifactType
  email_verification_token oauth_auth_code_flow session_record unknown : ArtifactType

unfoldable pub ArtifactType-discrete : Discrete ArtifactType
ArtifactType-discrete = hlevel

instance abbrev pub artifact_type_eq : Eq ArtifactType
artifact_type_eq = record { dec = ArtifactType-discrete }

pub record LifecycleEvidence : Type 0 where
  pub issue : List EvidenceId
  pub store : List EvidenceId
  pub transmit : List EvidenceId
  pub validate : List EvidenceId
  pub refresh : List EvidenceId
  pub revoke : List EvidenceId
  pub expire : List EvidenceId
  pub introspect : List EvidenceId

abbrev pub no_evidence : LifecycleEvidence
no_evidence = record {
  issue = [];
  store = [];
  transmit = [];
  validate = [];
  refresh = [];
  revoke = [];
  expire = [];
  introspect = [];
}

pub data CookieAttributeState : Type 0 where
  present missing dynamic framework_default unknown : CookieAttributeState

unfoldable pub CookieAttributeState-discrete : Discrete CookieAttributeState
CookieAttributeState-discrete = hlevel

instance abbrev pub cookie_attribute_state_eq : Eq CookieAttributeState
cookie_attribute_state_eq = record { dec = CookieAttributeState-discrete }

pub record CookieAttributeObservation : Type 0 where
  pub state : CookieAttributeState
  pub value : Option String
  pub evidence_ids : List EvidenceId
  pub confidence : Confidence

pub record CookieAttributes : Type 0 where
  pub http_only : CookieAttributeObservation
  pub secure : CookieAttributeObservation
  pub same_site : CookieAttributeObservation
  pub max_age : CookieAttributeObservation
  pub expires : CookieAttributeObservation
  pub path : CookieAttributeObservation
  pub domain : CookieAttributeObservation

pub data JwtAttributeState : Type 0 where
  present missing dynamic framework_default unknown : JwtAttributeState

unfoldable pub JwtAttributeState-discrete : Discrete JwtAttributeState
JwtAttributeState-discrete = hlevel

instance abbrev pub jwt_attribute_state_eq : Eq JwtAttributeState
jwt_attribute_state_eq = record { dec = JwtAttributeState-discrete }

pub record JwtAttributeObservation : Type 0 where
  pub state : JwtAttributeState
  pub value : Option String
  pub evidence_ids : List EvidenceId
  pub confidence : Confidence

abbrev pub jwt_observation_default : JwtAttributeObservation
jwt_observation_default = record {
  state = JwtAttributeState.unknown;
  value = none;
  evidence_ids = [];
  confidence = Confidence.low;
}

pub record JwtIdentityClaims : Type 0 where
  pub subject : JwtAttributeObservation
  pub user_id : JwtAttributeObservation
  pub tenant_id : JwtAttributeObservation
  pub org_id : JwtAttributeObservation
  pub workspace_id : JwtAttributeObservation
  pub roles : JwtAttributeObservation
  pub scopes : JwtAttributeObservation
  pub groups : JwtAttributeObservation
  pub email : JwtAttributeObservation
  pub email_verified : JwtAttributeObservation
  pub auth_method : JwtAttributeObservation
  pub auth_class : JwtAttributeObservation

pub record JwtAttributes : Type 0 where
  pub operation : JwtAttributeObservation
  pub algorithm : JwtAttributeObservation
  pub key_reference : JwtAttributeObservation
  pub issuer : JwtAttributeObservation
  pub audience : JwtAttributeObservation
  pub expiration : JwtAttributeObservation
  pub signature_verification : JwtAttributeObservation
  pub expiry_enforcement : JwtAttributeObservation
  pub identity_claims : Option JwtIdentityClaims

pub data TokenBoundaryAttributeState : Type 0 where
  present missing dynamic framework_default unknown : TokenBoundaryAttributeState

unfoldable pub TokenBoundaryAttributeState-discrete : Discrete TokenBoundaryAttributeState
TokenBoundaryAttributeState-discrete = hlevel

instance abbrev pub token_boundary_state_eq : Eq TokenBoundaryAttributeState
token_boundary_state_eq = record { dec = TokenBoundaryAttributeState-discrete }

pub record TokenBoundaryObservation : Type 0 where
  pub state : TokenBoundaryAttributeState
  pub value : Option String
  pub evidence_ids : List EvidenceId
  pub confidence : Confidence

abbrev pub boundary_observation_default : TokenBoundaryObservation
boundary_observation_default = record {
  state = TokenBoundaryAttributeState.unknown;
  value = none;
  evidence_ids = [];
  confidence = Confidence.low;
}

abbrev is_none : Option String → Bool
is_none none = true
is_none (some s) = false

unfoldable pub is_unknown : TokenBoundaryObservation → Bool
is_unknown o =
    o.state == TokenBoundaryAttributeState.unknown
    && is_none o.value
    && is_empty o.evidence_ids
    && o.confidence == Confidence.low

pub record TokenBoundaryAttributes : Type 0 where
  pub issuer : TokenBoundaryObservation
  pub audience : TokenBoundaryObservation
  pub service : TokenBoundaryObservation
  pub environment : TokenBoundaryObservation
  pub tenant : TokenBoundaryObservation
  pub provider : TokenBoundaryObservation
  pub scope : TokenBoundaryObservation
  pub trust_boundary : TokenBoundaryObservation

unfoldable pub is_all_unknown : TokenBoundaryAttributes → Bool
unfolding is_unknown
is_all_unknown a =
    is_unknown a.issuer
    && is_unknown a.audience
    && is_unknown a.service
    && is_unknown a.environment
    && is_unknown a.tenant
    && is_unknown a.provider
    && is_unknown a.scope
    && is_unknown a.trust_boundary

pub record Artifact : Type 0 where
  pub id : ArtifactId
  pub artifact_type : ArtifactType
  pub display_name : Option String
  pub locations : List SourceLocation
  pub lifecycle_evidence : LifecycleEvidence
  pub confidence : Confidence
  pub framework_hints : List String
  pub cookie_attributes : Option CookieAttributes
  pub jwt_attributes : Option JwtAttributes
  pub token_boundary_attributes : Option TokenBoundaryAttributes
