-- ===== src/Core/Redaction/Budget.antt =====
-- Excerpts keep to their number of characters, and the short cut for canonical excerpts is sound.
use Prim.Native.String.{count}
use session_scope.Common.{
  ℕ, ◌≤◌, String, ◌≡◌, ap, Option, none, some, List, [], ◌∷◌, map, arith, string_eq,
}
use session_scope.Common.Lists.{All}
use session_scope.Common.Text.Laws.{count-take_chars, take_chars_all}
use session_scope.Model.Evidence.{Evidence, SanitizedExcerpt, from_sanitized}
use session_scope.Model.Report.{ScanReport, FileScanResult}
use session_scope.Core.Redaction.Values.{Regexes, redact_sensitive_values}
use session_scope.Core.Redaction.Excerpt.{
  truncate_chars, safe_excerpt_with_context, RedactionContext, default_max_excerpt_chars,
}
use session_scope.Core.Redaction.Sanitize.{
  sanitize_excerpt_field, sanitize_excerpt_option, sanitize_evidence, sanitize_report,
  sanitize_file_scan_result,
}

count-truncate_chars : (s : String) (n : ℕ) → count (truncate_chars s n) ≤ n
unfolding truncate_chars
count-truncate_chars s n = count-take_chars n s

-- In every context an excerpt has at most the number of characters that was asked for.
pub safe_excerpt_bound :
    (rx : Regexes) (source : String) (n : ℕ) (context : RedactionContext)
    → count (safe_excerpt_with_context rx source n context).inner ≤ n
unfolding safe_excerpt_with_context
safe_excerpt_bound rx source n context = count-take_chars n _

module _ (rx : Regexes) where
  -- The early return for an excerpt that redaction leaves as it is and that fits the budget is
  -- only a short cut: the field is always what redaction and truncation make of its text.
  pub sanitize_excerpt_field-eq :
      (e : SanitizedExcerpt)
      → sanitize_excerpt_field rx e
        ≡ from_sanitized
            (truncate_chars (redact_sensitive_values rx e.inner) default_max_excerpt_chars)
  unfolding sanitize_excerpt_field from_sanitized truncate_chars
  sanitize_excerpt_field-eq e = ground (arith, take_chars_all default_max_excerpt_chars e.inner)

-- An excerpt, when there is one, has at most the default number of characters.
abbrev pub Fits : Option SanitizedExcerpt → Type 0
Fits none = Unit
Fits (some x) = count x.inner ≤ default_max_excerpt_chars

abbrev pub InBudget : Evidence → Type 0
InBudget e = Fits e.excerpt

module _ (rx : Regexes) where
  Fits-sanitize : (o : Option SanitizedExcerpt) → Fits (sanitize_excerpt_option rx o)
  Fits-sanitize none = tt
  Fits-sanitize (some x) =
      rw (ap (λ (y : SanitizedExcerpt). y.inner) (sanitize_excerpt_field-eq rx x)) (
        unfold from_sanitized in
        count-truncate_chars (redact_sensitive_values rx x.inner) default_max_excerpt_chars)

  pub All-sanitize_evidence : (es : List Evidence) → All InBudget (map (sanitize_evidence rx) es)
  unfolding sanitize_evidence
  All-sanitize_evidence [] = tt
  All-sanitize_evidence (e ∷ es) = (Fits-sanitize e.excerpt, All-sanitize_evidence es)

  All-sanitize_file :
      (fs : List FileScanResult)
      → All (λ f. All InBudget f.evidence) (map (sanitize_file_scan_result rx) fs)
  unfolding sanitize_file_scan_result
  All-sanitize_file [] = tt
  All-sanitize_file (f ∷ fs) = (All-sanitize_evidence f.evidence, All-sanitize_file fs)

  -- In a sanitized report no excerpt, whether of the evidence of the report or of one of its
  -- files, has more characters than the default budget.
  pub sanitize_report-InBudget :
      (report : ScanReport)
      → All InBudget (sanitize_report rx report).evidence
        × All (λ f. All InBudget f.evidence) (sanitize_report rx report).files
  unfolding sanitize_report
  sanitize_report-InBudget report =
      (All-sanitize_evidence report.evidence, All-sanitize_file report.files)
