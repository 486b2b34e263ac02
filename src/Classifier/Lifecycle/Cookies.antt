-- ===== src/Classifier/Lifecycle/Cookies.antt =====
-- How lifecycle.rs reads the options of a cookie from the excerpts that clear it.
use Prim.Native.Char.{code}
use Prim.Native.String.{count}
use text.Mathlib.Text.{starts_with}
use session_scope.Common.{
  ℕ, zero, suc, String, Bool, true, false, ◌||◌, not, Option, none, some, List, ◌==◌, string_eq,
  eqb, if◌then◌else◌,
}
use session_scope.Common.Lists.{any, collect, is_empty}
use session_scope.Common.Text.{is_ascii_whitespace, trim_start_matches, to_ascii_lowercase}
use session_scope.Model.Artifact.{
  CookieAttributeObservation, CookieAttributeState, cookie_attribute_state_eq,
}

unfoldable pub drop_chars : ℕ → String → String
drop_chars zero s = s
drop_chars (suc n) String.[] = String.[]
drop_chars (suc n) (String.◌∷◌ c s) = drop_chars n s

-- The text up to the next quote, if there is one.
unfoldable pub up_to : ℕ → String → Option String
up_to quote String.[] = none
up_to quote (String.◌∷◌ c s) = elim (eqb (code c) quote) [
  | true ↦ some String.[]
  | false ↦ elim (up_to quote s) [ none ↦ none | some value ↦ some (String.◌∷◌ c value) ]
]

-- A single or a double quote opens the value.
unfoldable pub quoted : String → Option String
unfolding up_to
quoted String.[] = none
quoted (String.◌∷◌ c s) = if eqb (code c) 34 || eqb (code c) 39 then up_to (code c) s else none

-- `:` or `=` and white space stand before the value.
unfoldable pub assigned : String → Option String
unfolding trim_start_matches quoted
assigned String.[] = none
assigned (String.◌∷◌ c s) =
    if eqb (code c) 58 || eqb (code c) 61
    then quoted (trim_start_matches is_ascii_whitespace s)
    else none

-- `excerpt[lower.find(attribute)? + attribute.len()..]`, where `lower` is the excerpt in lower case.
unfoldable pub after_attribute : String → String → Option String
unfolding to_ascii_lowercase drop_chars
after_attribute attribute String.[] = none
after_attribute attribute (String.◌∷◌ c s) =
    elim (starts_with (to_ascii_lowercase (String.◌∷◌ c s)) attribute) [
      | true ↦ some (drop_chars (count attribute) (String.◌∷◌ c s))
      | false ↦ after_attribute attribute s
    ]

unfoldable pub option_value_from_excerpt : String → String → Option String
unfolding after_attribute trim_start_matches assigned
option_value_from_excerpt excerpt attribute = elim (after_attribute attribute excerpt) [
  | none ↦ none
  | some rest ↦ assigned (trim_start_matches is_ascii_whitespace rest)
]

unfoldable pub option_values_from_excerpts : List String → String → List String
unfolding option_value_from_excerpt
option_values_from_excerpts excerpts attribute =
    collect (λ excerpt. option_value_from_excerpt excerpt attribute) excerpts

abbrev differs : Option String → List String → Bool
unfolding to_ascii_lowercase
differs none clear_values = false
differs (some set_value) clear_values =
    not (any (λ v. to_ascii_lowercase v == to_ascii_lowercase set_value) clear_values)

unfoldable pub attribute_missing_or_mismatched :
    CookieAttributeObservation → String → List String → Bool
unfolding option_values_from_excerpts differs
attribute_missing_or_mismatched observation attribute clear_excerpts =
    let clear_values = option_values_from_excerpts clear_excerpts attribute in
    if not (observation.state == CookieAttributeState.present)
    then false
    else if is_empty clear_values
    then true
    else differs observation.value clear_values
