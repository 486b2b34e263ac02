-- ===== src/Core/Redaction/Entropy.antt =====
-- `looks_high_entropy` of redaction.rs: which long tokens look like secrets.
use Prim.Native.Char.{Char, code}
use Prim.Native.String.{len}
use session_scope.Common.{
  ℕ, String, Bool, false, ◌&&◌, ◌||◌, not, List, [], ◌∷◌, eqb, nat_eq, leb, ltb, if◌then◌else◌,
}
use session_scope.Common.Lists.{length, any}
use session_scope.Common.Sets.{extend}
use session_scope.Common.Text.{trim_start_matches, trim_end_matches}

abbrev pub codes : String → List ℕ
codes String.[] = []
codes (String.◌∷◌ c s) = code c ∷ codes s

abbrev is_ascii_lowercase : ℕ → Bool
is_ascii_lowercase n = leb 97 n && leb n 122

abbrev is_ascii_uppercase : ℕ → Bool
is_ascii_uppercase n = leb 65 n && leb n 90

abbrev is_ascii_alphabetic : ℕ → Bool
is_ascii_alphabetic n = is_ascii_lowercase n || is_ascii_uppercase n

abbrev is_ascii_digit : ℕ → Bool
is_ascii_digit n = leb 48 n && leb n 57

-- `_`, `-`, `+`, `/` and `=`.
abbrev is_token_symbol : ℕ → Bool
is_token_symbol n = eqb n 95 || eqb n 45 || eqb n 43 || eqb n 47 || eqb n 61

abbrev is_trimmed : Char → Bool
is_trimmed c =
    not (is_ascii_alphabetic (code c) || is_ascii_digit (code c)) && not (is_token_symbol (code c))

unfoldable pub looks_high_entropy : String → Bool
unfolding trim_start_matches trim_end_matches extend
looks_high_entropy value =
    let trimmed = trim_end_matches is_trimmed (trim_start_matches is_trimmed value) in
    if ltb (len trimmed) 32
    then false
    else let chars = codes trimmed in
      any is_ascii_alphabetic chars
      && (any is_ascii_digit chars
          || any is_token_symbol chars
          || any is_ascii_lowercase chars && any is_ascii_uppercase chars)
      && leb 12 (length (extend [] chars))
