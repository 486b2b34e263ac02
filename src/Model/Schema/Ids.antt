-- ===== src/Model/Schema/Ids.antt =====
-- The digits of an id and the hash that they write.
use Prim.Native.Char.{Char, code}
use Prim.Native.String.{count}
use text.Mathlib.TextLemmas.{
  length-append, length-cons, length-nil, head-eq_of_cons-eq, append_cancel_left, append_inj,
}
use session_scope.Common.{
  ℕ, zero, suc, ◌-◌, ◌*◌, ◌/◌, ◌%◌, ◌<◌, ◌≡◌, refl, sym, ◌∙◌, ap, ◌↔◌, String, ◌<>◌, List, arith,
  ltb, if◌then◌else◌,
}
use session_scope.Common.Text.{digit, hex_digits}
use session_scope.Model.Schema.{
  stable_hash, stable_evidence_id, stable_artifact_id, stable_finding_id, stable_lifecycle_path_id,
}
use session_scope.Model.Schema.Hash.{stable_hash-trim}

undigit : Char → ℕ
undigit c = if ltb (code c) 58 then code c - 48 else code c - 87

undigit-digit : (n : ℕ) → n < 16 → undigit (digit n) ≡ n
unfolding undigit
undigit-digit zero h = refl
undigit-digit (suc zero) h = refl
undigit-digit (suc (suc zero)) h = refl
undigit-digit (suc (suc (suc zero))) h = refl
undigit-digit (suc (suc (suc (suc zero)))) h = refl
undigit-digit (suc (suc (suc (suc (suc zero))))) h = refl
undigit-digit (suc (suc (suc (suc (suc (suc zero)))))) h = refl
undigit-digit (suc (suc (suc (suc (suc (suc (suc zero))))))) h = refl
undigit-digit (suc (suc (suc (suc (suc (suc (suc (suc zero)))))))) h = refl
undigit-digit (suc (suc (suc (suc (suc (suc (suc (suc (suc zero))))))))) h = refl
undigit-digit (suc (suc (suc (suc (suc (suc (suc (suc (suc (suc zero)))))))))) h = refl
undigit-digit (suc (suc (suc (suc (suc (suc (suc (suc (suc (suc (suc zero))))))))))) h = refl
undigit-digit (suc (suc (suc (suc (suc (suc (suc (suc (suc (suc (suc (suc zero)))))))))))) h = refl
undigit-digit (suc (suc (suc (suc (suc (suc (suc (suc (suc (suc (suc (suc (suc zero))))))))))))) h =
    refl
undigit-digit
      (suc (suc (suc (suc (suc (suc (suc (suc (suc (suc (suc (suc (suc (suc zero)))))))))))))) h =
    refl
undigit-digit
      (suc (suc (suc (suc (suc (suc (suc (suc (suc (suc (suc (suc (suc (suc (suc zero)))))))))))))))
      h =
    refl
undigit-digit
      (suc
        (suc (suc (suc (suc (suc (suc (suc (suc (suc (suc (suc (suc (suc (suc (suc n))))))))))))))))
      h =
    absurd (omega (arith, h))

digit-injective : (m n : ℕ) → m < 16 → n < 16 → digit m ≡ digit n → m ≡ n
digit-injective m n p q e = sym (undigit-digit m p) ∙ (ap undigit e ∙ undigit-digit n q)

count-hex_digits : (k n : ℕ) → count (hex_digits k n) ≡ k
unfolding hex_digits
count-hex_digits zero n = length-nil
count-hex_digits (suc k) n =
    let last : count (String.◌∷◌ (digit (n % 16)) String.[]) ≡ 1 =
      length-cons (digit (n % 16)) String.[] ∙ ap suc length-nil in
    length-append (hex_digits k (n / 16)) (String.◌∷◌ (digit (n % 16)) String.[])
    ∙ omega (arith, count-hex_digits k (n / 16), last)

-- How many numbers have a number of digits.
abbrev range : ℕ → ℕ
range zero = 1
range (suc k) = 16 * range k

-- As many digits as the numbers can need tell the numbers apart.
hex_digits-injective :
    (k m n : ℕ) → m < range k → n < range k → hex_digits k m ≡ hex_digits k n → m ≡ n
unfolding hex_digits
hex_digits-injective zero m n p q e = omega (arith, p, q)
hex_digits-injective (suc k) m n p q e =
    let counts = count-hex_digits k (m / 16) ∙ sym (count-hex_digits k (n / 16)) in
    let (high, low) = append_inj e counts in
    let highs : m / 16 ≡ n / 16 =
      hex_digits-injective k (m / 16) (n / 16) (omega (arith, p)) (omega (arith, q)) high in
    let lows : m % 16 ≡ n % 16 =
      digit-injective (m % 16) (n % 16) (omega arith) (omega arith) (head-eq_of_cons-eq low) in
    omega (arith, highs, lows)

ids_iff :
    (prefix : String) (ps qs : List String)
    → (prefix <> hex_digits 16 (stable_hash ps) ≡ prefix <> hex_digits 16 (stable_hash qs))
      ↔ (stable_hash ps ≡ stable_hash qs)
ids_iff prefix ps qs = (
  λ e.
      hex_digits-injective 16 (stable_hash ps) (stable_hash qs) (stable_hash-trim ps).2
        (stable_hash-trim qs).2 (append_cancel_left prefix _ _ e),
  λ e. ap (λ h. prefix <> hex_digits 16 h) e,
)

-- For each of the four kinds of ids, two lists of parts have the same id exactly when they have
-- the same hash.
pub stable_ids_iff :
    (ps qs : List String)
    → ((stable_artifact_id ps ≡ stable_artifact_id qs) ↔ (stable_hash ps ≡ stable_hash qs))
      × ((stable_evidence_id ps ≡ stable_evidence_id qs) ↔ (stable_hash ps ≡ stable_hash qs))
      × ((stable_finding_id ps ≡ stable_finding_id qs) ↔ (stable_hash ps ≡ stable_hash qs))
      × ((stable_lifecycle_path_id ps ≡ stable_lifecycle_path_id qs)
          ↔ (stable_hash ps ≡ stable_hash qs))
unfolding stable_artifact_id stable_evidence_id stable_finding_id stable_lifecycle_path_id
stable_ids_iff ps qs = (
  ids_iff "artifact_" ps qs,
  ids_iff "evidence_" ps qs,
  ids_iff "finding_" ps qs,
  ids_iff "lifecycle_path_" ps qs,
)
