-- ===== src/Core/Redaction/Values.antt =====
-- The chain of patterns of redaction.rs, over an abstract pattern engine.
use Prim.Native.String.{len, slice}
use session_scope.Common.{
  ℕ, ◌+◌, String, ◌<>◌, ◌&&◌, Option, none, some, ◌==◌, string_eq, leb, if◌then◌else◌,
}
use session_scope.Common.Text.{to_ascii_lowercase, contains_text}
use session_scope.Core.Redaction.Cookies.{redaction, redact_cookie_headers}
use session_scope.Core.Redaction.Entropy.{looks_high_entropy}

-- The program's static patterns, by their names.
pub data Pattern : Type 0 where
  private_key bearer api_key_header url_param cookie_call browser_storage_call : Pattern
  cookie_value_key jwt_api_call quoted_literal sensitive_quoted_assignment : Pattern
  sensitive_unquoted_assignment sensitive_claim sensitive_claim_collection jwt email : Pattern
  placeholder_secret long_token long_literal : Pattern

-- The groups of a match: `captures.get(n)`.
abbrev pub Captures : Type 0
Captures = ℕ → Option String

-- The `regex` crate: every match of a pattern is replaced by what a function makes of it.
pub record Regexes : Type 0 where
  pub replace_all : Pattern → (Captures → String) → String → String

-- A group's text, empty where the group did not take part: `${n}`, `map_or("", …)`.
abbrev pub group : Captures → ℕ → String
group captures n = elim (captures n) [ none ↦ "" | some s ↦ s ]

abbrev literal_redaction_min_len : ℕ
literal_redaction_min_len = 16

abbrev in_quotes : String → String
in_quotes value = slice value 0 1 <> (redaction <> slice value 0 1)

-- An unquoted assignment is redacted, but `authorization: bearer` keeps its scheme.
abbrev redact_unquoted : Captures → String
redact_unquoted captures =
    if contains_text (to_ascii_lowercase (group captures 1)) "authorization"
      && to_ascii_lowercase (group captures 2) == "bearer"
    then group captures 0
    else group captures 1 <> redaction

abbrev redact_long_token : Captures → String
redact_long_token captures =
    if looks_high_entropy (group captures 0) then redaction else group captures 0

-- `${1}[REDACTED]`
abbrev keep_prefix : Captures → String
keep_prefix captures = group captures 1 <> redaction

-- `${1}${2}[REDACTED]${4}`
abbrev keep_quotes : Captures → String
keep_quotes captures = group captures 1 <> (group captures 2 <> (redaction <> group captures 4))

-- `${1}[REDACTED]${3}`
abbrev keep_ends : Captures → String
keep_ends captures = group captures 1 <> (redaction <> group captures 3)

abbrev whole : Captures → String
whole captures = redaction

module _ (rx : Regexes) where
  unfoldable pub redact_jwt_api_calls : String → String
  redact_jwt_api_calls = rx.replace_all Pattern.jwt_api_call λ captures.
      rx.replace_all Pattern.quoted_literal (λ literal. in_quotes (group literal 0))
        (group captures 0)

  unfoldable pub strip_long_string_literals : String → String
  strip_long_string_literals = rx.replace_all Pattern.long_literal λ captures.
      let value = group captures 0 in
      if leb (literal_redaction_min_len + 2) (len value) then in_quotes value else value

  unfoldable pub redact_sensitive_values : String → String
  unfolding redact_jwt_api_calls redact_cookie_headers looks_high_entropy to_ascii_lowercase
  redact_sensitive_values input =
      let output = rx.replace_all Pattern.private_key whole input in
      let output = redact_cookie_headers output in
      let output = redact_jwt_api_calls output in
      let output = rx.replace_all Pattern.bearer keep_prefix output in
      let output = rx.replace_all Pattern.api_key_header keep_quotes output in
      let output = rx.replace_all Pattern.url_param keep_prefix output in
      let output = rx.replace_all Pattern.cookie_call keep_quotes output in
      let output = rx.replace_all Pattern.browser_storage_call keep_quotes output in
      let output = rx.replace_all Pattern.cookie_value_key keep_quotes output in
      let output = rx.replace_all Pattern.sensitive_quoted_assignment keep_quotes output in
      let output = rx.replace_all Pattern.sensitive_unquoted_assignment redact_unquoted output in
      let output = rx.replace_all Pattern.sensitive_claim keep_ends output in
      let output = rx.replace_all Pattern.sensitive_claim_collection keep_prefix output in
      let output = rx.replace_all Pattern.email whole output in
      let output = rx.replace_all Pattern.jwt whole output in
      let output = rx.replace_all Pattern.placeholder_secret whole output in
      rx.replace_all Pattern.long_token redact_long_token output
