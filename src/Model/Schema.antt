-- ===== src/Model/Schema.antt =====
-- crates/sessionscope-model/src/schema.rs
pub mod Hash
pub mod Ids
mod Tests
use Prim.Native.Char.{code}
use session_scope.Common.{
  ℕ, ◌+◌, ◌*◌, ◌/◌, ◌%◌, ◌^◌, bit_xor, String, ◌<>◌, List, [], ◌∷◌, ◌++◌, ltb, if◌then◌else◌,
}
use session_scope.Common.Text.{trim, replace_char, hex_digits}
use session_scope.Model.Evidence.{EvidenceId}
use session_scope.Model.Finding.{ArtifactId, FindingId}
use session_scope.Model.Report.{LifecyclePathId}

abbrev pub schema_version : String
schema_version = "0.5.0"

-- The UTF-8 bytes of a code point.
abbrev utf8 : ℕ → List ℕ
utf8 n =
    if ltb n 0x80
    then n ∷ []
    else if ltb n 0x800
    then (0xc0 + n / 64) ∷ (0x80 + n % 64) ∷ []
    else if ltb n 0x10000
    then (0xe0 + n / 4096) ∷ (0x80 + (n / 64) % 64) ∷ (0x80 + n % 64) ∷ []
    else (0xf0 + n / 262144)
      ∷ (0x80 + (n / 4096) % 64)
      ∷ (0x80 + (n / 64) % 64)
      ∷ (0x80 + n % 64)
      ∷ []

-- `str::bytes`.
unfoldable pub bytes : String → List ℕ
bytes String.[] = []
bytes (String.◌∷◌ c s) = utf8 (code c) ++ bytes s

abbrev pub fnv_offset_basis : ℕ
fnv_offset_basis = 0xcbf29ce484222325

abbrev pub fnv_prime : ℕ
fnv_prime = 0x100000001b3

-- `hash ^= byte; hash = hash.wrapping_mul(FNV_PRIME)` on a `u64`.
unfoldable pub absorb : ℕ → ℕ → ℕ
absorb hash byte = (bit_xor hash byte * fnv_prime) % 2 ^ 64

unfoldable pub absorb_all : ℕ → List ℕ → ℕ
unfolding absorb
absorb_all hash [] = hash
absorb_all hash (b ∷ bs) = absorb_all (absorb hash b) bs

unfoldable pub normalize_id_part : String → String
unfolding trim replace_char
normalize_id_part part = replace_char 92 "/" (trim part)

-- Each part is followed by the byte 0xFF, which no UTF-8 text has.
unfoldable pub hash_parts : ℕ → List String → ℕ
unfolding absorb_all bytes normalize_id_part
hash_parts hash [] = hash
hash_parts hash (part ∷ parts) =
    hash_parts (absorb (absorb_all hash (bytes (normalize_id_part part))) 0xff) parts

unfoldable pub stable_hash : List String → ℕ
unfolding hash_parts
stable_hash parts = hash_parts fnv_offset_basis parts

unfoldable pub stable_artifact_id : List String → ArtifactId
unfolding stable_hash hex_digits
stable_artifact_id parts = "artifact_" <> hex_digits 16 (stable_hash parts)

unfoldable pub stable_evidence_id : List String → EvidenceId
unfolding stable_hash hex_digits
stable_evidence_id parts = "evidence_" <> hex_digits 16 (stable_hash parts)

unfoldable pub stable_finding_id : List String → FindingId
unfolding stable_hash hex_digits
stable_finding_id parts = "finding_" <> hex_digits 16 (stable_hash parts)

unfoldable pub stable_lifecycle_path_id : List String → LifecyclePathId
unfolding stable_hash hex_digits
stable_lifecycle_path_id parts = "lifecycle_path_" <> hex_digits 16 (stable_hash parts)
