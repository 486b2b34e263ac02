-- ===== src/Common/Text/Laws.antt =====
-- Lemmas on splitting, joining and trimming texts.
use Prim.Native.Nat.{ℕ, zero, suc, ◌/◌, ◌%◌, ◌≤◌, ◌<◌}
use Prim.Native.Char.{Char, code}
use Prim.Native.String.{String, ◌++◌ as ◌<>◌, count}
use mathlib.Core.Path.{◌≡◌, refl, ap}
use mathlib.Core.Logic.{◌≢◌, inl, inr}
use mathlib.Core.Bool.{Bool}
use mathlib.Core.List.{List, [], ◌∷◌}
use native.Mathlib.Omega.{arith}
use text.Mathlib.TextLemmas.{nil-append, cons-append, length-cons, length-nil}
use session_scope.Common.Equality.{string_eq, Bool-cases, ltb}
use session_scope.Common.Lists.{All}
use session_scope.Common.Text.{
  trim_start_matches, trim_end_matches, is_whitespace, trim, split_on, split, join, take_chars,
  char_or, digit, decimal_on, decimal,
}

-- No character of the text has the number `d`.
abbrev pub Lacks : ℕ → String → Type 0
Lacks d String.[] = Unit
Lacks d (String.◌∷◌ c s) = (code c ≢ d) × Lacks d s

pub Lacks-append : (d : ℕ) (s t : String) → Lacks d s → Lacks d t → Lacks d (s <> t)
Lacks-append d String.[] t hs ht = rw nil-append ht
Lacks-append d (String.◌∷◌ c s) t hs ht = rw cons-append (hs.0, Lacks-append d s t hs.1 ht)

split_on-Lacks : (d : ℕ) (s : String) → Lacks d s → split_on d s ≡ (s, [])
unfolding split_on
split_on-Lacks d String.[] h = refl
split_on-Lacks d (String.◌∷◌ c s) h = ground (arith, split_on-Lacks d s h.1)

split_on-append :
    (s t : String) (c : Char)
    → Lacks (code c) s
    → split_on (code c) (s <> String.◌∷◌ c t)
      ≡ (s, (split_on (code c) t).0 ∷ (split_on (code c) t).1)
unfolding split_on
split_on-append String.[] t c h = rw nil-append (ground arith)
split_on-append (String.◌∷◌ a s) t c h = rw cons-append (ground (arith, split_on-append s t c h.1))

-- Segments that lack the separator come back from their join.
pub split-join :
    (c : Char) (x : String) (xs : List String)
    → Lacks (code c) x
    → All (Lacks (code c)) xs
    → split (code c) (join (String.◌∷◌ c String.[]) (x ∷ xs)) ≡ x ∷ xs
unfolding split join
split-join c x [] h hs = rw (split_on-Lacks (code c) x h)
split-join c x (y ∷ ys) h hs =
    rw cons-append
      (rw nil-append (rw (split_on-append x _ c h) (ap (λ l. x ∷ l) (split-join c y ys hs.0 hs.1))))

module _ (p : Char → Bool) where
  -- Trimming what is trimmed changes nothing.
  pub trim_end_idempotent :
      (s : String) → trim_end_matches p (trim_end_matches p s) ≡ trim_end_matches p s
  unfolding trim_end_matches
  trim_end_idempotent String.[] = refl
  trim_end_idempotent (String.◌∷◌ c s) = ground (arith, trim_end_idempotent s)

  pub trim_start_idempotent :
      (s : String) → trim_start_matches p (trim_start_matches p s) ≡ trim_start_matches p s
  unfolding trim_start_matches
  trim_start_idempotent String.[] = refl
  trim_start_idempotent (String.◌∷◌ c s) = ground (arith, trim_start_idempotent s)

  -- The two commute, so `trim` is idempotent too.
  pub trim_end-trim_start :
      (s : String)
      → trim_end_matches p (trim_start_matches p s) ≡ trim_start_matches p (trim_end_matches p s)
  unfolding trim_end_matches trim_start_matches
  trim_end-trim_start String.[] = refl
  trim_end-trim_start (String.◌∷◌ c s) = ground (arith, trim_end-trim_start s)

pub trim_idempotent : (s : String) → trim (trim s) ≡ trim s
unfolding trim
trim_idempotent s =
    rw (← trim_end-trim_start is_whitespace)
      (rw (trim_end_idempotent is_whitespace) (rw (trim_start_idempotent is_whitespace)))

pub count-take_chars : (n : ℕ) (s : String) → count (take_chars n s) ≤ n
unfolding take_chars
count-take_chars zero s = omega (arith, length-nil)
count-take_chars (suc n) String.[] = omega (arith, length-nil)
count-take_chars (suc n) (String.◌∷◌ c s) =
    omega (arith, length-cons c (take_chars n s), count-take_chars n s)

-- A text no longer than the budget is kept whole.
pub take_chars_all : (n : ℕ) (s : String) → count s ≤ n → take_chars n s ≡ s
unfolding take_chars
take_chars_all zero String.[] h = refl
take_chars_all zero (String.◌∷◌ c s) h = absurd (omega (arith, length-cons c s))
take_chars_all (suc n) String.[] h = refl
take_chars_all (suc n) (String.◌∷◌ c s) h =
    ap (String.◌∷◌ c) (take_chars_all n s (omega (arith, length-cons c s)))

-- No digit is the character `d`, when `d` is below the digits.
char_or-ne :
    (d : ℕ) (c : Char) (s : String) (n : ℕ) → code c ≢ d → Lacks d s → code (char_or c s n) ≢ d
char_or-ne d c String.[] n h l = h
char_or-ne d c (String.◌∷◌ a s) zero h l = l.0
char_or-ne d c (String.◌∷◌ a s) (suc n) h l = char_or-ne d c s n h l.1

digit-ne : (d n : ℕ) → d < 48 → code (digit n) ≢ d
digit-ne d n h = char_or-ne d "?" "0123456789abcdef" n (omega arith) (omega arith)

Lacks-decimal_on : (d f n : ℕ) (acc : String) → d < 48 → Lacks d acc → Lacks d (decimal_on f n acc)
unfolding decimal_on
Lacks-decimal_on d zero n acc h l = l
Lacks-decimal_on d (suc f) n acc h l = elim (Bool-cases (ltb n 10)) [
  | inl last ↦ rw last (digit-ne d n h, l)
  | inr more ↦
      rw more (
        Lacks-decimal_on d f (n / 10) (String.◌∷◌ (digit (n % 10)) acc) h
          (digit-ne d (n % 10) h, l))
]

pub Lacks-decimal : (d n : ℕ) → d < 48 → Lacks d (decimal n)
unfolding decimal
Lacks-decimal d n h = Lacks-decimal_on d (suc n) n String.[] h tt
