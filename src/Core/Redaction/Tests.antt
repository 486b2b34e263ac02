-- ===== src/Core/Redaction/Tests.antt =====
-- Redaction of short texts.
use Prim.Native.String.{count}
use session_scope.Common.{◌+◌, ◌≤◌, ◌<◌, ◌≡◌, refl, ◌↔◌, none, [], ◌∷◌, arith, length, string_dec}
use session_scope.Common.Lists.{All}
use session_scope.Common.Text.{join, lines, split, split_after}
use session_scope.Model.Evidence.{from_sanitized}
use session_scope.Model.Samples
use session_scope.Core.Redaction.Values.{Regexes, redact_sensitive_values}
use session_scope.Core.Redaction.Cookies.{
  redact_cookie_segment, redact_cookie_line, is_safe_cookie_attribute, cookie_name,
}
use session_scope.Core.Redaction.Excerpt.{
  RedactionContext, safe_excerpt_with_context, line_context, truncate_chars,
  default_max_excerpt_chars,
}
use session_scope.Core.Redaction.Sanitize.{sanitize_excerpt_field, sanitize_report}
use session_scope.Core.Redaction.Secrecy.{
  LowEq, same, cookie, redact_cookie_line-LowEq, redact_cookie_segment_idempotent,
}
use session_scope.Core.Redaction.Budget.{
  safe_excerpt_bound, sanitize_excerpt_field-eq, InBudget, sanitize_report-InBudget,
}
use session_scope.Core.Redaction.Window.{line_context_panics_iff}

-- A pattern engine whose every replacement is one fixed text.
abbrev blunt : Regexes
blunt = record { replace_all = λ pattern replacement text. "redacted" }

sid_LowEq : LowEq "sid=abc" "sid=xyz"
unfolding string_dec is_safe_cookie_attribute cookie_name
sid_LowEq = cookie "sid" "abc" "xyz" refl refl (omega arith) refl refl

redact_cookie_line-LowEq_example :
    redact_cookie_line (join ";" ("sid=abc" ∷ " Path=/" ∷ []))
    ≡ redact_cookie_line (join ";" ("sid=xyz" ∷ " Path=/" ∷ []))
redact_cookie_line-LowEq_example =
    redact_cookie_line-LowEq "sid=abc" "sid=xyz" (" Path=/" ∷ []) (" Path=/" ∷ [])
      (sid_LowEq, (same refl, tt)) (omega arith, (omega arith, tt)) (omega arith, (omega arith, tt))

redact_cookie_segment_idempotent_example :
    redact_cookie_segment (redact_cookie_segment "sid=abc") ≡ redact_cookie_segment "sid=abc"
redact_cookie_segment_idempotent_example = redact_cookie_segment_idempotent "sid=abc"

safe_excerpt_bound_example :
    count (safe_excerpt_with_context blunt "const token = 1" 5 RedactionContext.jwt).inner ≤ 5
safe_excerpt_bound_example = safe_excerpt_bound blunt "const token = 1" 5 RedactionContext.jwt

sanitize_excerpt_field-eq_example :
    sanitize_excerpt_field blunt (from_sanitized "const token = 1")
    ≡ from_sanitized (
        truncate_chars
          (redact_sensitive_values blunt (from_sanitized "const token = 1").inner)
          default_max_excerpt_chars)
sanitize_excerpt_field-eq_example =
    sanitize_excerpt_field-eq blunt (from_sanitized "const token = 1")

sanitize_report-InBudget_example :
    All InBudget (sanitize_report blunt Samples.report).evidence
    × All (λ f. All InBudget f.evidence) (sanitize_report blunt Samples.report).files
sanitize_report-InBudget_example = sanitize_report-InBudget blunt Samples.report

line_context_panics_iff_example :
    (line_context "one line" 4 1 ≡ none)
    ↔ ((0 < 4) × (0 < length (lines "one line")) × (length (lines "one line") + 1 + 1 < 4))
line_context_panics_iff_example = line_context_panics_iff "one line" 4 1 (omega arith)

-- A line behind the text: the slice of the source panics.
test_panics : line_context "one line" 4 1 ≡ none
unfolding line_context
test_panics = refl

test_cookie_line :
    redact_cookie_line "Set-Cookie: sid=abc; Path=/" ≡ "Set-Cookie: sid=[REDACTED]; Path=/"
unfolding redact_cookie_line string_dec join split redact_cookie_segment split_after
    is_safe_cookie_attribute cookie_name
test_cookie_line = refl
