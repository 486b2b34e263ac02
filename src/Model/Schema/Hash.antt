-- ===== src/Model/Schema/Hash.antt =====
-- What the hash of schema.rs depends on, and the range it has.
use Prim.Native.Char.{Char, code}
use session_scope.Common.{
  ℕ, ◌^◌, ◌<◌, ◌≡◌, refl, sym, ◌∙◌, ap, String, List, [], ◌∷◌, ◌++◌, map, arith, eqb, if◌then◌else◌,
  Bool-cases, inl, inr,
}
use session_scope.Common.Text.{
  trim, trim_start_matches, trim_end_matches, is_whitespace, replace_char, is_nil,
}
use session_scope.Common.Text.Laws.{trim_idempotent}
use session_scope.Model.Schema.{
  bytes, absorb, absorb_all, normalize_id_part, hash_parts, stable_hash, fnv_offset_basis,
}

absorb-bound : (h b : ℕ) → absorb h b < 2 ^ 64
unfolding absorb
absorb-bound h b = omega arith

hash_parts-bound : (h : ℕ) (parts : List String) → h < 2 ^ 64 → hash_parts h parts < 2 ^ 64
unfolding hash_parts
hash_parts-bound h [] p = p
hash_parts-bound h (q ∷ qs) p =
    hash_parts-bound (absorb (absorb_all h (bytes (normalize_id_part q))) 0xff) qs
      (absorb-bound _ _)

-- Both separators of a path are no white space.
is_whitespace-backslash : (c : Char) → code c ≡ 92 → is_whitespace c ≡ is_whitespace "/"
unfolding is_whitespace
is_whitespace-backslash c e = rw e refl

is_whitespace-slash :
    (c : Char) → is_whitespace (if eqb (code c) 92 then "/" else c) ≡ is_whitespace c
is_whitespace-slash c = elim (Bool-cases (eqb (code c) 92)) [
  | inl slash ↦ rw slash (sym (is_whitespace-backslash c (ground arith)))
  | inr other ↦ rw other refl
]

abbrev slashes : String → String
slashes = replace_char 92 "/"

is_nil-slashes : (s : String) → is_nil (slashes s) ≡ is_nil s
unfolding replace_char
is_nil-slashes String.[] = refl
is_nil-slashes (String.◌∷◌ c s) = refl

trim_start-slashes :
    (s : String)
    → trim_start_matches is_whitespace (slashes s) ≡ slashes (trim_start_matches is_whitespace s)
unfolding trim_start_matches replace_char
trim_start-slashes String.[] = refl
trim_start-slashes (String.◌∷◌ c s) = ground (arith, is_whitespace-slash c, trim_start-slashes s)

trim_end-slashes :
    (s : String)
    → trim_end_matches is_whitespace (slashes s) ≡ slashes (trim_end_matches is_whitespace s)
unfolding trim_end_matches replace_char
trim_end-slashes String.[] = refl
trim_end-slashes (String.◌∷◌ c s) =
    let rest = trim_end-slashes s in
    ground (arith, is_whitespace-slash c, rest, is_nil-slashes (trim_end_matches is_whitespace s))

trim-slashes : (s : String) → trim (slashes s) ≡ slashes (trim s)
unfolding trim
trim-slashes s =
    ap (trim_end_matches is_whitespace) (trim_start-slashes s)
    ∙ trim_end-slashes (trim_start_matches is_whitespace s)

slashes_idempotent : (s : String) → slashes (slashes s) ≡ slashes s
unfolding replace_char
slashes_idempotent String.[] = refl
slashes_idempotent (String.◌∷◌ c s) = ground (arith, slashes_idempotent s)

normalize_id_part-slashes : (s : String) → normalize_id_part (slashes s) ≡ normalize_id_part s
unfolding normalize_id_part
normalize_id_part-slashes s = ap slashes (trim-slashes s) ∙ slashes_idempotent (trim s)

normalize_id_part-trim : (s : String) → normalize_id_part (trim s) ≡ normalize_id_part s
unfolding normalize_id_part
normalize_id_part-trim s = ap slashes (trim_idempotent s)

-- The hash reads its parts only through their normal forms.
module _ (f : String → String)
    (same : (s : String) → normalize_id_part (f s) ≡ normalize_id_part s) where
  hash_parts-of : (parts : List String) (h : ℕ) → hash_parts h (map f parts) ≡ hash_parts h parts
  unfolding hash_parts
  hash_parts-of [] h = refl
  hash_parts-of (p ∷ ps) h =
      hash_parts-of ps (absorb (absorb_all h (bytes (normalize_id_part (f p)))) 0xff)
      ∙ ap (λ n. hash_parts (absorb (absorb_all h (bytes n)) 0xff) ps) (same p)

-- The hash of parts followed by more parts is the hash of the first continued with the others.
stable_hash-append : (ps qs : List String) → stable_hash (ps ++ qs) ≡ hash_parts (stable_hash ps) qs
unfolding stable_hash
stable_hash-append ps qs = go fnv_offset_basis ps
  where
    go : (h : ℕ) (ps : List String) → hash_parts h (ps ++ qs) ≡ hash_parts (hash_parts h ps) qs
    go h [] = refl
    go h (p ∷ ps) = go (absorb (absorb_all h (bytes (normalize_id_part p))) 0xff) ps

-- The hash is the same when the backslashes of the parts are made slashes, and when the parts are
-- trimmed, and it is less than 2 ^ 64.
pub stable_hash-trim :
    (parts : List String)
    → (stable_hash (map (replace_char 92 "/") parts) ≡ stable_hash parts)
      × (stable_hash (map trim parts) ≡ stable_hash parts)
      × (stable_hash parts < 2 ^ 64)
unfolding stable_hash
stable_hash-trim parts = (
  hash_parts-of slashes normalize_id_part-slashes parts fnv_offset_basis,
  hash_parts-of trim normalize_id_part-trim parts fnv_offset_basis,
  hash_parts-bound fnv_offset_basis parts (omega arith),
)
