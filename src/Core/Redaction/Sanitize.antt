-- ===== src/Core/Redaction/Sanitize.antt =====
-- Every free text of a report goes through redaction.rs once more before it is stored or shown.
use Prim.Native.String.{count}
use session_scope.Common.{
  String, Option, none, some, List, map, ◌==◌, string_eq, leb, if◌then◌else◌,
}
use session_scope.Model.Evidence.{Evidence, SanitizedExcerpt, replace_with_sanitized}
use session_scope.Model.Finding.{Finding}
use session_scope.Model.Artifact.{
  Artifact, CookieAttributes, CookieAttributeObservation, JwtAttributes, JwtAttributeObservation,
  JwtIdentityClaims, TokenBoundaryAttributes, TokenBoundaryObservation,
}
use session_scope.Model.Report.{ScanReport, FileScanResult, LifecyclePath, SkippedReason}
use session_scope.Detectors.Traits.{DetectionOutput}
use session_scope.Core.Redaction.Values.{Regexes, redact_sensitive_values}
use session_scope.Core.Redaction.Excerpt.{truncate_chars, default_max_excerpt_chars}

-- What the detectors hand over for a file: crates/sessionscope-detectors/src/traits.rs

module _ (rx : Regexes) where
  abbrev redact : String → String
  redact = redact_sensitive_values rx

  abbrev redact_option : Option String → Option String
  redact_option none = none
  redact_option (some value) = some (redact value)

  unfoldable pub sanitize_strings : List String → List String
  sanitize_strings = map redact

  abbrev sanitize_cookie : CookieAttributeObservation → CookieAttributeObservation
  sanitize_cookie o = record o { value = redact_option o.value }

  abbrev sanitize_jwt : JwtAttributeObservation → JwtAttributeObservation
  sanitize_jwt o = record o { value = redact_option o.value }

  abbrev sanitize_boundary : TokenBoundaryObservation → TokenBoundaryObservation
  sanitize_boundary o = record o { value = redact_option o.value }

  sanitize_cookie_attributes : Option CookieAttributes → Option CookieAttributes
  sanitize_cookie_attributes none = none
  sanitize_cookie_attributes (some a) = some (record {
    http_only = sanitize_cookie a.http_only;
    secure = sanitize_cookie a.secure;
    same_site = sanitize_cookie a.same_site;
    max_age = sanitize_cookie a.max_age;
    expires = sanitize_cookie a.expires;
    path = sanitize_cookie a.path;
    domain = sanitize_cookie a.domain;
  })

  sanitize_claims : Option JwtIdentityClaims → Option JwtIdentityClaims
  sanitize_claims none = none
  sanitize_claims (some c) = some (record {
    subject = sanitize_jwt c.subject;
    user_id = sanitize_jwt c.user_id;
    tenant_id = sanitize_jwt c.tenant_id;
    org_id = sanitize_jwt c.org_id;
    workspace_id = sanitize_jwt c.workspace_id;
    roles = sanitize_jwt c.roles;
    scopes = sanitize_jwt c.scopes;
    groups = sanitize_jwt c.groups;
    email = sanitize_jwt c.email;
    email_verified = sanitize_jwt c.email_verified;
    auth_method = sanitize_jwt c.auth_method;
    auth_class = sanitize_jwt c.auth_class;
  })

  sanitize_jwt_attributes : Option JwtAttributes → Option JwtAttributes
  unfolding sanitize_claims
  sanitize_jwt_attributes none = none
  sanitize_jwt_attributes (some a) = some (record {
    operation = sanitize_jwt a.operation;
    algorithm = sanitize_jwt a.algorithm;
    key_reference = sanitize_jwt a.key_reference;
    issuer = sanitize_jwt a.issuer;
    audience = sanitize_jwt a.audience;
    expiration = sanitize_jwt a.expiration;
    signature_verification = sanitize_jwt a.signature_verification;
    expiry_enforcement = sanitize_jwt a.expiry_enforcement;
    identity_claims = sanitize_claims a.identity_claims;
  })

  sanitize_boundary_attributes : Option TokenBoundaryAttributes → Option TokenBoundaryAttributes
  sanitize_boundary_attributes none = none
  sanitize_boundary_attributes (some a) = some (record {
    issuer = sanitize_boundary a.issuer;
    audience = sanitize_boundary a.audience;
    service = sanitize_boundary a.service;
    environment = sanitize_boundary a.environment;
    tenant = sanitize_boundary a.tenant;
    provider = sanitize_boundary a.provider;
    scope = sanitize_boundary a.scope;
    trust_boundary = sanitize_boundary a.trust_boundary;
  })

  unfoldable pub sanitize_artifact : Artifact → Artifact
  unfolding sanitize_strings sanitize_cookie_attributes sanitize_jwt_attributes
      sanitize_boundary_attributes
  sanitize_artifact artifact = record artifact {
    display_name = redact_option artifact.display_name;
    framework_hints = sanitize_strings artifact.framework_hints;
    cookie_attributes = sanitize_cookie_attributes artifact.cookie_attributes;
    jwt_attributes = sanitize_jwt_attributes artifact.jwt_attributes;
    token_boundary_attributes = sanitize_boundary_attributes artifact.token_boundary_attributes;
  }

  -- An excerpt within the budget that redaction leaves alone is not written again.
  unfoldable pub sanitize_excerpt_field : SanitizedExcerpt → SanitizedExcerpt
  unfolding replace_with_sanitized
  sanitize_excerpt_field excerpt =
      let current = excerpt.inner in
      let redacted = redact current in
      if leb (count current) default_max_excerpt_chars
      then if redacted == current
        then excerpt
        else replace_with_sanitized excerpt (truncate_chars redacted default_max_excerpt_chars)
      else replace_with_sanitized excerpt (truncate_chars redacted default_max_excerpt_chars)

  abbrev pub sanitize_excerpt_option : Option SanitizedExcerpt → Option SanitizedExcerpt
  sanitize_excerpt_option none = none
  sanitize_excerpt_option (some excerpt) = some (sanitize_excerpt_field excerpt)

  unfoldable pub sanitize_evidence : Evidence → Evidence
  unfolding sanitize_excerpt_field
  sanitize_evidence evidence = record evidence {
    excerpt = sanitize_excerpt_option evidence.excerpt;
  }

  unfoldable pub sanitize_finding : Finding → Finding
  sanitize_finding finding = record finding {
    title = redact finding.title;
    description = redact finding.description;
    suggested_fix = redact_option finding.suggested_fix;
    reviewer_question = redact_option finding.reviewer_question;
  }

  unfoldable pub sanitize_lifecycle_path : LifecyclePath → LifecyclePath
  sanitize_lifecycle_path path = record path {
    reviewer_question = redact_option path.reviewer_question;
  }

  abbrev sanitize_reason : Option SkippedReason → Option SkippedReason
  sanitize_reason (some (SkippedReason.read_error error)) =
      some (SkippedReason.read_error (redact error))
  sanitize_reason reason = reason

  unfoldable pub sanitize_file_scan_result : FileScanResult → FileScanResult
  unfolding sanitize_strings sanitize_artifact sanitize_evidence
  sanitize_file_scan_result result = record result {
    diagnostics = sanitize_strings result.diagnostics;
    skipped_reason = sanitize_reason result.skipped_reason;
    artifacts = map sanitize_artifact result.artifacts;
    evidence = map sanitize_evidence result.evidence;
  }

  unfoldable pub sanitize_report : ScanReport → ScanReport
  unfolding sanitize_strings sanitize_file_scan_result sanitize_artifact sanitize_evidence
      sanitize_finding sanitize_lifecycle_path
  sanitize_report report = record report {
    summary = record report.summary { diagnostics = sanitize_strings report.summary.diagnostics };
    files = map sanitize_file_scan_result report.files;
    artifacts = map sanitize_artifact report.artifacts;
    evidence = map sanitize_evidence report.evidence;
    findings = map sanitize_finding report.findings;
    lifecycle_paths = map sanitize_lifecycle_path report.lifecycle_paths;
  }

  unfoldable pub sanitize_detection_output : DetectionOutput → DetectionOutput
  unfolding sanitize_strings sanitize_artifact sanitize_evidence
  sanitize_detection_output output = record output {
    artifacts = map sanitize_artifact output.artifacts;
    evidence = map sanitize_evidence output.evidence;
    diagnostics = sanitize_strings output.diagnostics;
  }
