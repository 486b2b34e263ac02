-- ===== src/Core/Redaction/Cookies.antt =====
-- Cookie headers of redaction.rs, which it redacts by hand and without a pattern.
use Prim.Native.Char.{Char, code}
use session_scope.Common.{
  String, ◌<>◌, Bool, ◌||◌, none, some, map, ◌==◌, eqb, string_eq, if◌then◌else◌,
}
use session_scope.Common.Text.{
  is_ascii_whitespace, after_last, trim_end_matches, to_ascii_lowercase, contains_text, split_after,
  split, join, lines,
}

abbrev pub redaction : String
redaction = "[REDACTED]"

abbrev is_equals : Char → Bool
is_equals c = eqb (code c) 61

abbrev is_name_break : Char → Bool
is_name_break c = eqb (code c) 58 || is_ascii_whitespace c

unfoldable pub is_safe_cookie_attribute : String → Bool
unfolding to_ascii_lowercase
is_safe_cookie_attribute name =
    let lower = to_ascii_lowercase name in
    lower == "domain"
    || lower == "expires"
    || lower == "max-age"
    || lower == "path"
    || lower == "samesite"

-- The cookie's name in the part up to its `=`.
unfoldable pub cookie_name : String → String
unfolding after_last trim_end_matches
cookie_name left = elim (after_last is_name_break left) [
  | none ↦ trim_end_matches is_equals left
  | some name ↦ trim_end_matches is_equals name
]

abbrev pub quote_of : String → String
quote_of String.[] = ""
quote_of (String.◌∷◌ c s) = if eqb (code c) 34 then "\"" else if eqb (code c) 39 then "'" else ""

abbrev pub redact_value : String → String → String
redact_value left right = left <> (quote_of right <> (redaction <> quote_of right))

unfoldable pub redact_cookie_segment : String → String
redact_cookie_segment segment = elim (split_after 61 segment) [
  | none ↦ segment
  | some (left, right) ↦
      if is_safe_cookie_attribute (cookie_name left) then segment else redact_value left right
]

unfoldable pub redact_cookie_line : String → String
redact_cookie_line line = join ";" (map redact_cookie_segment (split 59 line))

unfoldable pub redact_header_line : String → String
unfolding redact_cookie_line to_ascii_lowercase
redact_header_line line =
    let lower = to_ascii_lowercase line in
    if contains_text lower "set-cookie:"
      || contains_text lower "cookie:"
      || contains_text lower "document.cookie"
    then redact_cookie_line line
    else line

unfoldable pub redact_cookie_headers : String → String
unfolding redact_header_line lines join
redact_cookie_headers input = join "\n" (map redact_header_line (lines input))
