-- ===== src/Core/Redaction/Secrecy.antt =====
-- What a redacted cookie line can tell of the values that stood in it.
use Prim.Native.Char.{Char, code}
use text.Mathlib.TextLemmas.{nil-append, cons-append}
use session_scope.Common.{
  ℕ, String, ◌<>◌, ◌≡◌, refl, sym, ◌∙◌, ap, true, false, none, some, List, [], ◌∷◌, map, arith, eqb,
  Bool-cases, inl, inr, Option-cases,
}
use session_scope.Common.Lists.{All}
use session_scope.Common.Text.{split_after, join}
use session_scope.Common.Text.Laws.{Lacks, split-join}
use session_scope.Core.Redaction.Cookies.{
  redaction, is_safe_cookie_attribute, cookie_name, quote_of, redact_value, redact_cookie_segment,
  redact_cookie_line,
}

split_after-append :
    (l v : String) (c : Char)
    → Lacks (code c) l
    → split_after (code c) (l <> String.◌∷◌ c v) ≡ some (l <> String.◌∷◌ c String.[], v)
unfolding split_after
split_after-append String.[] v c h = rw nil-append (rw nil-append (ground arith))
split_after-append (String.◌∷◌ a l) v c h =
    rw cons-append (rw cons-append (ground (arith, split_after-append l v c h.1)))

module _ (s : String) where
  redact_of_none : split_after 61 s ≡ none → redact_cookie_segment s ≡ s
  unfolding redact_cookie_segment
  redact_of_none e = rw (e, redact_cookie_segment)

  module _ (l r : String) (found : split_after 61 s ≡ some (l, r)) where
    redact_of_safe : is_safe_cookie_attribute (cookie_name l) ≡ true → redact_cookie_segment s ≡ s
    unfolding redact_cookie_segment
    redact_of_safe safe = rw (found, redact_cookie_segment) (rw safe)

    redact_of_unsafe :
        is_safe_cookie_attribute (cookie_name l) ≡ false
        → redact_cookie_segment s ≡ redact_value l r
    unfolding redact_cookie_segment
    redact_of_unsafe unsafe = rw (found, redact_cookie_segment) (rw unsafe)

-- A `name=value` segment whose name is no cookie attribute loses the value, but not its quote.
redact-pair :
    (l v : String)
    → Lacks 61 l
    → is_safe_cookie_attribute (cookie_name (l <> String.◌∷◌ "=" String.[])) ≡ false
    → redact_cookie_segment (l <> String.◌∷◌ "=" v) ≡ redact_value (l <> String.◌∷◌ "=" String.[]) v
redact-pair l v h unsafe = redact_of_unsafe _ _ v (split_after-append l v "=" h) unsafe

-- Two segments that an observer must not tell apart: the same, or one cookie with two values
-- which begin with the same quote, if with any.
pub data LowEq (s t : String) : Type 0 where
  same : s ≡ t → LowEq s t
  cookie :
      (l v w : String)
      → s ≡ l <> String.◌∷◌ "=" v
      → t ≡ l <> String.◌∷◌ "=" w
      → Lacks 61 l
      → is_safe_cookie_attribute (cookie_name (l <> String.◌∷◌ "=" String.[])) ≡ false
      → quote_of v ≡ quote_of w
      → LowEq s t

abbrev pub AllLowEq : List String → List String → Type 0
AllLowEq [] [] = Unit
AllLowEq (s ∷ ss) (t ∷ ts) = LowEq s t × AllLowEq ss ts
AllLowEq _ _ = ⊥

redact_cookie_segment-LowEq :
    (s t : String) → LowEq s t → redact_cookie_segment s ≡ redact_cookie_segment t
redact_cookie_segment-LowEq s t (same e) = ap redact_cookie_segment e
redact_cookie_segment-LowEq s t (cookie l v w es et h unsafe q) =
    rw (es, et) (redact-pair l v h unsafe ∙ (rw q (sym (redact-pair l w h unsafe))))

map-LowEq :
    (ss ts : List String)
    → AllLowEq ss ts
    → map redact_cookie_segment ss ≡ map redact_cookie_segment ts
map-LowEq [] [] h = refl
map-LowEq (s ∷ ss) (t ∷ ts) h = cc (redact_cookie_segment-LowEq s t h.0, map-LowEq ss ts h.1)
map-LowEq [] (t ∷ ts) h = elim h [ ]
map-LowEq (s ∷ ss) [] h = elim h [ ]

-- Two cookie lines, given by their segments, none of which has a semicolon, are redacted to the
-- same line if at each position the segments are equal, or are one cookie `name=value` with two
-- values that begin with the same quote, if with any, where the name has no equals sign and is no
-- cookie attribute.
pub redact_cookie_line-LowEq :
    (s t : String) (ss ts : List String)
    → AllLowEq (s ∷ ss) (t ∷ ts)
    → All (Lacks 59) (s ∷ ss)
    → All (Lacks 59) (t ∷ ts)
    → redact_cookie_line (join ";" (s ∷ ss)) ≡ redact_cookie_line (join ";" (t ∷ ts))
unfolding redact_cookie_line
redact_cookie_line-LowEq s t ss ts low hs ht =
    ap (λ l. join ";" (map redact_cookie_segment l)) (split-join ";" s ss hs.0 hs.1)
    ∙ (ap (join ";") (map-LowEq (s ∷ ss) (t ∷ ts) low)
        ∙ sym (ap (λ l. join ";" (map redact_cookie_segment l)) (split-join ";" t ts ht.0 ht.1)))

split_after-left :
    (d : ℕ) (s l r v : String)
    → split_after d s ≡ some (l, r)
    → split_after d (l <> v) ≡ some (l, v)
unfolding split_after
split_after-left d String.[] l r v h = ground arith
split_after-left d (String.◌∷◌ c s) l r v h = elim (Bool-cases (eqb (code c) d)) [
  | inl hit ↦
      let e : l ≡ String.◌∷◌ c String.[] = ground arith in
      rw e (rw cons-append (rw nil-append (ground arith)))
  | inr miss ↦ elim (Option-cases (split_after d s)) [
    | inl nothing ↦ ground arith
    | inr ((l', r'), found) ↦
        let e : l ≡ String.◌∷◌ c l' = ground arith in
        rw e (rw cons-append (ground (arith, split_after-left d s l' r' v found)))
  ]
]

quote_of-redacted :
    (right : String) → quote_of (quote_of right <> (redaction <> quote_of right)) ≡ quote_of right
quote_of-redacted String.[] = refl
quote_of-redacted (String.◌∷◌ c s) = elim (Bool-cases (eqb (code c) 34)) [
  | inl double ↦ rw double
  | inr other ↦
      rw other (elim (Bool-cases (eqb (code c) 39)) [ inl single ↦ rw single | inr bare ↦ rw bare ])
]

-- Redacting a cookie segment a second time changes nothing.
pub redact_cookie_segment_idempotent :
    (s : String) → redact_cookie_segment (redact_cookie_segment s) ≡ redact_cookie_segment s
redact_cookie_segment_idempotent s = elim (Option-cases (split_after 61 s)) [
  | inl nothing ↦ rw (redact_of_none s nothing) (redact_of_none s nothing)
  | inr ((l, r), found) ↦ elim (Bool-cases (is_safe_cookie_attribute (cookie_name l))) [
    | inl safe ↦ rw (redact_of_safe s l r found safe) (redact_of_safe s l r found safe)
    | inr unsafe ↦
        let rest = quote_of r <> (redaction <> quote_of r) in
        rw (redact_of_unsafe s l r found unsafe) (
          redact_of_unsafe _ l rest (split_after-left 61 s l r rest found) unsafe
          ∙ ap (λ q. l <> (q <> (redaction <> q))) (quote_of-redacted r))
  ]
]
