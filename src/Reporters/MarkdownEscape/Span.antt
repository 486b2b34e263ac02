-- ===== src/Reporters/MarkdownEscape/Span.antt =====
-- The delimiters of `code_span` against the backticks of the text between them.
use Prim.Native.Char.{Char}
use text.Mathlib.TextLemmas.{nil-append, cons-append, append_assoc}
use session_scope.Common.{
  ℕ, zero, suc, ◌+◌, ◌≤◌, ◌<◌, String, ◌<>◌, ◌≡◌, ◌≢◌, refl, subst, ap, ◌∙◌, Bool, ◌||◌, true,
  false, arith, if◌then◌else◌,
}
use session_scope.Reporters.MarkdownEscape.{
  backtick_runs, largest, longest_backtick_run, backticks, starts_with_backtick, ends_with_backtick,
  inline_html_text, code_span,
}

first-backticks : (n : ℕ) (b : String) → n ≤ (backtick_runs (backticks n <> b)).0
unfolding backtick_runs backticks
first-backticks zero b = omega arith
first-backticks (suc n) b = rw append_assoc (
    rw (cons-append _ String.[] (backticks n <> b))
      (rw nil-append (omega (arith, first-backticks n b))))

first-longest : (s : String) → (backtick_runs s).0 ≤ longest_backtick_run s
unfolding longest_backtick_run
first-longest s = ground arith

longest_cons :
    (c : Char) (s : String) → longest_backtick_run s ≤ longest_backtick_run (String.◌∷◌ c s)
unfolding longest_backtick_run backtick_runs
longest_cons c s = ground arith

longest_suffix : (a s : String) → longest_backtick_run s ≤ longest_backtick_run (a <> s)
longest_suffix String.[] s = rw nil-append (omega arith)
longest_suffix (String.◌∷◌ c a) s =
    rw cons-append (omega (arith, longest_suffix a s, longest_cons c (a <> s)))

longest-backticks : (a b : String) (n : ℕ) → n ≤ longest_backtick_run (a <> (backticks n <> b))
longest-backticks a b n = omega (
  arith,
  longest_suffix a (backticks n <> b),
  first-longest (backticks n <> b),
  first-backticks n b,
)

pub delimiter-IsLonger :
    (s a b : String) (n : ℕ) → longest_backtick_run s < n → s ≢ a <> (backticks n <> b)
delimiter-IsLonger s a b n h e = omega (arith, longest-backticks a b n, ap longest_backtick_run e)

first_space : (s : String) → (backtick_runs (s <> " ")).0 ≡ (backtick_runs s).0
unfolding backtick_runs
first_space String.[] = refl
first_space (String.◌∷◌ c s) = rw cons-append (ground (arith, first_space s))

rest_space : (s : String) → largest (backtick_runs (s <> " ")).1 ≡ largest (backtick_runs s).1
unfolding backtick_runs
rest_space String.[] = refl
rest_space (String.◌∷◌ c s) = rw cons-append (ground (arith, first_space s, rest_space s))

longest_space : (s : String) → longest_backtick_run (s <> " ") ≡ longest_backtick_run s
unfolding longest_backtick_run
longest_space s = rw (first_space s, rest_space s) refl

space_longest : (s : String) → longest_backtick_run (" " <> s) ≡ longest_backtick_run s
unfolding longest_backtick_run backtick_runs
space_longest s = rw (cons-append _ String.[] s) (rw nil-append (ground arith))

ends_space : (s : String) → ends_with_backtick (s <> " ") ≡ false
ends_space String.[] = refl
ends_space (String.◌∷◌ c String.[]) = rw cons-append refl
ends_space (String.◌∷◌ c (String.◌∷◌ d s)) =
    rw (cons-append, cons-append)
      (subst (λ x. ends_with_backtick x ≡ false) (cons-append d s " ")
        (ends_space (String.◌∷◌ d s)))

abbrev padded : Bool → String → String
padded b text = if b then " " <> (text <> " ") else text

longest-padded :
    (b : Bool) (s : String) → longest_backtick_run (padded b s) ≡ longest_backtick_run s
longest-padded true s = space_longest (s <> " ") ∙ longest_space s
longest-padded false s = refl

padded_span :
    (b : Bool) (d s : String)
    → (if b then d <> (" " <> (s <> (" " <> d))) else d <> (s <> d)) ≡ d <> (padded b s <> d)
padded_span true d s = rw append_assoc (rw append_assoc refl)
padded_span false d s = refl

-- The padding takes a backtick off both ends.
padded_ends :
    (b : Bool) (s : String)
    → starts_with_backtick s || ends_with_backtick s ≡ b
    → (starts_with_backtick (padded b s) ≡ false) × (ends_with_backtick (padded b s) ≡ false)
padded_ends true s h = (
  rw (cons-append _ String.[] (s <> " ")) refl,
  rw (← append_assoc " " s " ") (ends_space (" " <> s)),
)
padded_ends false s h = ground arith

-- The text that the delimiters of a span enclose, and the delimiter.
unfoldable pub body_of : String → String
unfolding inline_html_text
body_of value =
    let text = inline_html_text value in
    padded (starts_with_backtick text || ends_with_backtick text) text

unfoldable pub delimiter_of : String → String
unfolding backticks longest_backtick_run inline_html_text
delimiter_of value = backticks (longest_backtick_run (inline_html_text value) + 1)

-- A code span is a text between two copies of a delimiter: the delimiter does not occur in the
-- text, and the text neither starts nor ends with a backtick.
pub code_span-IsClosed :
    (value a b : String)
    → (code_span value ≡ delimiter_of value <> (body_of value <> delimiter_of value))
      × (body_of value ≢ a <> (delimiter_of value <> b))
      × (starts_with_backtick (body_of value) ≡ false)
      × (ends_with_backtick (body_of value) ≡ false)
unfolding code_span body_of delimiter_of
code_span-IsClosed value a b =
    let text = inline_html_text value in
    let tick = starts_with_backtick text || ends_with_backtick text in
    (
      padded_span tick (delimiter_of value) text,
      delimiter-IsLonger (padded tick text) a b (longest_backtick_run text + 1)
          (omega (arith, longest-padded tick text)),
      (padded_ends tick text refl).0,
      (padded_ends tick text refl).1,
    )
