-- ===== src/Cli/Enforcement/Messages.antt =====
-- Options and messages as text: what is parsed, and what is printed line by line.
use Prim.Native.Char.{Char, code}
use session_scope.Common.{
  ℕ, zero, suc, ◌+◌, ◌-◌, String, ◌≡◌, refl, ap, ◌∙◌, ◌↔◌, false, not, List, [], ◌∷◌, ◌++◌, map,
  arith, string_eq, string_dec, ◌≢◌, ltb, min, if◌then◌else◌, Bool-cases, inl, inr,
}
use session_scope.Common.Lists.{keep, length, take, All, length-append, length-map, length-take}
use session_scope.Common.Result.{ok}
use session_scope.Common.Text.{split, trim, is_nil, replace_char, join}
use session_scope.Common.Text.Laws.{Lacks, Lacks-decimal, Lacks-append, split-join, trim_idempotent}
use session_scope.Model.Finding.{Severity, FindingCategory, Finding}
use session_scope.Cli.Enforcement.{
  EnforcementResult, parse_severity, parse_category, severity_name, category_name, failure_line,
  overflow_lines, failure_lines, format_failure, split_values,
}

parse-severity_name : (s : Severity) → parse_severity (severity_name s) ≡ ok s
unfolding parse_severity severity_name string_dec
parse-severity_name Severity.info = refl
parse-severity_name s = refl

severity_name_of_parse :
    (value : String) (s : Severity) → parse_severity value ≡ ok s → value ≡ severity_name s
unfolding parse_severity severity_name
severity_name_of_parse value Severity.info h = ground arith
severity_name_of_parse value s h = ground arith

parse_severity_iff :
    (value : String) (s : Severity) → (parse_severity value ≡ ok s) ↔ (value ≡ severity_name s)
parse_severity_iff value s = (severity_name_of_parse value s, λ e. rw e (parse-severity_name s))

parse-category_name : (c : FindingCategory) → parse_category (category_name c) ≡ ok c
unfolding parse_category category_name string_dec
parse-category_name FindingCategory.lifecycle_gap = refl
parse-category_name c = refl

category_name_of_parse :
    (value : String) (c : FindingCategory) → parse_category value ≡ ok c → value ≡ category_name c
unfolding parse_category category_name
category_name_of_parse value FindingCategory.lifecycle_gap h = ground arith
category_name_of_parse value c h = ground arith

parse_category_iff :
    (value : String) (c : FindingCategory)
    → (parse_category value ≡ ok c) ↔ (value ≡ category_name c)
parse_category_iff value c = (category_name_of_parse value c, λ e. rw e (parse-category_name c))

-- A text is parsed to a severity exactly when it is the name of the severity, and to a category
-- exactly when it is the name of the category.
pub parse_names_iff :
    (value : String) (s : Severity) (c : FindingCategory)
    → ((parse_severity value ≡ ok s) ↔ (value ≡ severity_name s))
      × ((parse_category value ≡ ok c) ↔ (value ≡ category_name c))
parse_names_iff value s c = (parse_severity_iff value s, parse_category_iff value c)

-- What a comma-separated option yields: no empty value, and no blank at the ends of one.
abbrev pub IsValue : String → Type 0
IsValue v = (trim v ≡ v) × (is_nil v ≡ false)

keep-IsValue : (vs : List String) → All IsValue (keep (λ item. not (is_nil item)) (map trim vs))
keep-IsValue [] = tt
keep-IsValue (v ∷ vs) = ground (arith, trim_idempotent v, keep-IsValue vs)

-- Each value that `split_values` reads is not empty, and trimming leaves it as it is.
split_values-IsValue : (value : String) → All IsValue (split_values value)
unfolding split_values
split_values-IsValue value = keep-IsValue (split 44 value)

keep_values :
    (vs : List String) → All IsValue vs → keep (λ item. not (is_nil item)) (map trim vs) ≡ vs
keep_values [] h = refl
keep_values (v ∷ vs) h = ground (arith, keep_values vs h.1)

split_values-join_cons :
    (v : String) (vs : List String)
    → All IsValue (v ∷ vs)
    → All (Lacks 44) (v ∷ vs)
    → split_values (join "," (v ∷ vs)) ≡ v ∷ vs
unfolding split_values
split_values-join_cons v vs h c =
    ap (λ l. keep (λ item. not (is_nil item)) (map trim l)) (split-join "," v vs c.0 c.1)
    ∙ keep_values (v ∷ vs) h

-- Values that are not empty, that trimming leaves as they are and that have no comma are what
-- `split_values` reads from the values joined by commas.
pub split_values-join :
    (vs : List String) → All IsValue vs → All (Lacks 44) vs → split_values (join "," vs) ≡ vs
unfolding split_values join
split_values-join [] h c = refl
split_values-join (v ∷ vs) h c = split_values-join_cons v vs h c

Lacks-replace_char :
    (d : ℕ) (new : Char) (s : String) → code new ≢ d → Lacks d (replace_char d new s)
unfolding replace_char
Lacks-replace_char d new String.[] h = tt
Lacks-replace_char d new (String.◌∷◌ c s) h = ground (arith, Lacks-replace_char d new s h)

Lacks-severity_name : (s : Severity) → Lacks 10 (severity_name s)
unfolding severity_name
Lacks-severity_name Severity.info = omega arith
Lacks-severity_name s = omega arith

Lacks-category_name : (c : FindingCategory) → Lacks 10 (category_name c)
unfolding category_name
Lacks-category_name FindingCategory.lifecycle_gap = omega arith
Lacks-category_name c = omega arith

Lacks-failure_line : (f : Finding) → Lacks 10 f.id → Lacks 10 (failure_line f)
unfolding failure_line
Lacks-failure_line f h =
    let dash : Lacks 10 "- " = omega arith in
    let blank : Lacks 10 " " = omega arith in
    let title = Lacks-replace_char 10 " " f.title (omega arith) in
    Lacks-append 10 _ _ dash (
      Lacks-append 10 _ _ h (
        Lacks-append 10 _ _ blank (
          Lacks-append 10 _ _ (Lacks-severity_name f.severity) (
            Lacks-append 10 _ _ blank (
              Lacks-append 10 _ _ (Lacks-category_name f.category)
                (Lacks-append 10 _ _ blank title))))))

Lacks-overflow_lines : (n : ℕ) → All (Lacks 10) (overflow_lines n)
unfolding overflow_lines
Lacks-overflow_lines n =
    let before : Lacks 10 "- ...and " = omega arith in
    let after : Lacks 10 " more blocking finding(s)" = omega arith in
    let count = Lacks-append 10 _ _ (Lacks-decimal 10 (n - 5) (omega arith)) after in
    elim (Bool-cases (ltb 5 n)) [
      | inl more ↦ rw more (Lacks-append 10 _ _ before count, tt)
      | inr few ↦ rw few tt
    ]

Lacks-failure_lines :
    (k : ℕ) (fs : List Finding) (rest : List String)
    → All (λ f. Lacks 10 f.id) fs
    → All (Lacks 10) rest
    → All (Lacks 10) (map failure_line (take k fs) ++ rest)
Lacks-failure_lines zero fs rest h r = r
Lacks-failure_lines (suc k) [] rest h r = r
Lacks-failure_lines (suc k) (f ∷ fs) rest h r =
    (Lacks-failure_line f h.0, Lacks-failure_lines k fs rest h.1 r)

-- Where no id of a blocking finding has a line feed, splitting the failure message at its line
-- feeds gives exactly the lines that were composed, so that no title adds a line.
pub split-format_failure :
    (r : EnforcementResult)
    → All (λ f. Lacks 10 f.id) r.blocking_findings
    → split 10 (format_failure r) ≡ failure_lines r
unfolding format_failure failure_lines
split-format_failure r h =
    let before : Lacks 10 "enforce mode blocked " = omega arith in
    let after : Lacks 10 " finding(s)" = omega arith in
    split-join "\n" _ _
      (Lacks-append 10 _ _ before
        (Lacks-append 10 _ _ (Lacks-decimal 10 (length r.blocking_findings) (omega arith)) after))
      (Lacks-failure_lines 5 r.blocking_findings (overflow_lines (length r.blocking_findings)) h
        (Lacks-overflow_lines (length r.blocking_findings)))

-- The lines of a failure message are a head, one for each of at most five blocking findings, and
-- one for the rest exactly when there are more than five.
length-failure_lines :
    (r : EnforcementResult)
    → length (failure_lines r)
      ≡ 1
        + min 5 (length r.blocking_findings)
        + (if ltb 5 (length r.blocking_findings) then 1 else 0)
unfolding failure_lines overflow_lines
length-failure_lines r = ground (
  arith,
  length-append (map failure_line (take 5 r.blocking_findings))
      (overflow_lines (length r.blocking_findings)),
  length-map failure_line (take 5 r.blocking_findings),
  length-take 5 r.blocking_findings,
)
