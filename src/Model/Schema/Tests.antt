-- ===== src/Model/Schema/Tests.antt =====
-- Hashes and ids of short parts.
use session_scope.Common.{◌<◌, ◌^◌, ◌≡◌, refl, ◌↔◌, String, List, [], ◌∷◌, map}
use session_scope.Common.Text.{trim, replace_char}
use session_scope.Model.Schema.{
  stable_hash, stable_artifact_id, stable_evidence_id, stable_finding_id, stable_lifecycle_path_id,
}
use session_scope.Model.Schema.Hash.{stable_hash-trim}
use session_scope.Model.Schema.Ids.{stable_ids_iff}

abbrev windows : List String
windows = " src\\app.js" ∷ "12" ∷ []

abbrev other : List String
other = "src/app.js" ∷ "13" ∷ []

stable_hash-trim_example :
    (stable_hash (map (replace_char 92 "/") windows) ≡ stable_hash windows)
    × (stable_hash (map trim windows) ≡ stable_hash windows)
    × (stable_hash windows < 2 ^ 64)
stable_hash-trim_example = stable_hash-trim windows

stable_ids_iff_example :
    ((stable_artifact_id windows ≡ stable_artifact_id other)
      ↔ (stable_hash windows ≡ stable_hash other))
    × ((stable_evidence_id windows ≡ stable_evidence_id other)
        ↔ (stable_hash windows ≡ stable_hash other))
    × ((stable_finding_id windows ≡ stable_finding_id other)
        ↔ (stable_hash windows ≡ stable_hash other))
    × ((stable_lifecycle_path_id windows ≡ stable_lifecycle_path_id other)
        ↔ (stable_hash windows ≡ stable_hash other))
stable_ids_iff_example = stable_ids_iff windows other

test_spelling : stable_hash windows ≡ stable_hash ("src/app.js" ∷ "12" ∷ [])
unfolding stable_hash
test_spelling = refl
