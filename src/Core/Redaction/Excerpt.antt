-- ===== src/Core/Redaction/Excerpt.antt =====
-- The excerpts of redaction.rs: a window of lines, redacted and cut to a number of characters.
use session_scope.Common.{
  ℕ, ◌+◌, ◌-◌, ◌%◌, ◌^◌, min, String, Bool, true, false, ◌||◌, Option, none, some, List, [], eqb,
  leb, if◌then◌else◌,
}
use session_scope.Common.Lists.{length, take, drop, is_empty}
use session_scope.Common.Text.{lines, join, take_chars}
use session_scope.Model.Evidence.{SanitizedExcerpt, from_sanitized, SourceLocation}
use session_scope.Core.Redaction.Values.{
  Regexes, redact_sensitive_values, strip_long_string_literals,
}

abbrev pub default_max_excerpt_chars : ℕ
default_max_excerpt_chars = 400

abbrev pub default_context_lines : ℕ
default_context_lines = 1

pub data RedactionContext : Type 0 where
  cookies jwt bearer api_key oauth generic : RedactionContext

unfoldable pub requires_literal_stripping : RedactionContext → Bool
requires_literal_stripping RedactionContext.generic = false
requires_literal_stripping _ = true

pub record ExcerptOptions : Type 0 where
  pub max_chars : ℕ
  pub context_lines : ℕ
  pub context : RedactionContext

abbrev pub default_excerpt_options : ExcerptOptions
default_excerpt_options = record {
  max_chars = default_max_excerpt_chars;
  context_lines = default_context_lines;
  context = RedactionContext.generic;
}

unfoldable pub truncate_chars : String → ℕ → String
unfolding take_chars
truncate_chars value max_chars = take_chars max_chars value

-- `lines[start..end]`: the slice panics, `none`, unless `start ≤ end ≤ len`.
unfoldable pub slice_lines : List String → ℕ → ℕ → Option (List String)
slice_lines ls start end =
    if leb start end
    then if leb end (length ls) then some (take (end - start) (drop start ls)) else none
    else none

-- Additions on `usize` wrap around at 64 bits; subtractions here saturate. `none` is a panic.
unfoldable pub window_of : List String → ℕ → ℕ → Option (List String)
unfolding slice_lines
window_of ls line_number context_lines =
    if eqb line_number 0 || is_empty ls
    then some []
    else let target = line_number - 1 in
      let start = target - context_lines in
      let end = min ((target + context_lines + 1) % 2 ^ 64) (length ls) in slice_lines ls start end

unfoldable pub line_context : String → ℕ → ℕ → Option String
unfolding lines join window_of
line_context source line_number context_lines =
    elim (window_of (lines source) line_number context_lines) [
      | none ↦ none
      | some window ↦ some (join "\n" window)
    ]

module _ (rx : Regexes) where
  unfoldable pub safe_excerpt_with_context : String → ℕ → RedactionContext → SanitizedExcerpt
  unfolding truncate_chars requires_literal_stripping from_sanitized
  safe_excerpt_with_context source max_chars context =
      let redacted = redact_sensitive_values rx source in
      let stripped =
        if requires_literal_stripping context
        then strip_long_string_literals rx redacted
        else redacted in
      from_sanitized (truncate_chars stripped max_chars)

  unfoldable pub safe_excerpt : String → ℕ → SanitizedExcerpt
  unfolding safe_excerpt_with_context
  safe_excerpt source max_chars =
      safe_excerpt_with_context source max_chars RedactionContext.generic

  unfoldable pub sanitize_excerpt : String → SanitizedExcerpt
  unfolding safe_excerpt
  sanitize_excerpt raw = safe_excerpt raw default_max_excerpt_chars

  abbrev excerpt_source : String → Option ℕ → ℕ → Option String
  excerpt_source source none context_lines = some source
  excerpt_source source (some line_number) context_lines =
      line_context source line_number context_lines

  unfoldable pub safe_excerpt_at_location_with_options :
      String → SourceLocation → ExcerptOptions → Option SanitizedExcerpt
  unfolding line_context safe_excerpt_with_context
  safe_excerpt_at_location_with_options source location options =
      elim (excerpt_source source location.line options.context_lines) [
        | none ↦ none
        | some excerpt ↦ some (safe_excerpt_with_context excerpt options.max_chars options.context)
      ]

  unfoldable pub safe_excerpt_at_location : String → SourceLocation → Option SanitizedExcerpt
  unfolding safe_excerpt_at_location_with_options
  safe_excerpt_at_location source location =
      safe_excerpt_at_location_with_options source location default_excerpt_options
