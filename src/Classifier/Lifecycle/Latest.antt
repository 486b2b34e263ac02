-- ===== src/Classifier/Lifecycle/Latest.antt =====
-- The artifact of a report that its map has under an id.
use mathlib.Core.Option.{some-injective}
use session_scope.Common.{
  ◌≡◌, ◌≢◌, ◌↔◌, ◌⊎◌, sym, ap, ◌∙◌, some, List, [], ◌∷◌, map, inl, inr, arith, ◌==◌, string_eq,
  nat_eq, Bool-cases,
}
use session_scope.Common.Lists.{IsIn, All}
use session_scope.Common.Sets.{get, collect_map}
use session_scope.Model.Finding.{ArtifactId}
use session_scope.Model.Artifact.{Artifact}
use session_scope.Model.Report.{ScanReport}
use session_scope.Classifier.Lifecycle.Paths.{ArtifactMap, artifact_by_id}

-- The last artifact of the list with the id.
abbrev pub Latest : List Artifact → ArtifactId → Artifact → Type 0
Latest [] id a = ⊥
Latest (x ∷ xs) id a =
    Latest xs id a ⊎ ((x ≡ a) × (x.id ≡ id) × All (λ (y : Artifact). y.id ≢ id) xs)

pub Latest-IsIn :
    (as' : List Artifact) (id : ArtifactId) (a : Artifact)
    → Latest as' id a
    → IsIn a as' × (a.id ≡ id)
Latest-IsIn [] id a l = elim l [ ]
Latest-IsIn (x ∷ xs) id a (inl later) = let (i, e) = Latest-IsIn xs id a later in (inr i, e)
Latest-IsIn (x ∷ xs) id a (inr (same, named, rest)) =
    (inl (sym same), sym (ap (λ (y : Artifact). y.id) same) ∙ named)

abbrev keyed : List Artifact → ArtifactMap
keyed as' = map (λ (x : Artifact). (x.id, x)) as'

get-collect_map-Latest :
    (as' : List Artifact) (m : ArtifactMap) (id : ArtifactId) (a : Artifact)
    → (get (collect_map m (keyed as')) id ≡ some a)
      ↔ (Latest as' id a ⊎ (All (λ (y : Artifact). y.id ≢ id) as' × (get m id ≡ some a)))
unfolding collect_map get
get-collect_map-Latest [] m id a =
    (λ h. inr (tt, h), λ x. elim x [ inl l ↦ elim l [ ] | inr r ↦ r.1 ])
get-collect_map-Latest (x ∷ xs) m id a =
    let rest = get-collect_map-Latest xs ((x.id, x) ∷ m) id a in
    elim (Bool-cases (x.id == id)) [
      | inl named ↦ (
        λ h. elim (rest.0 h) [
          | inl later ↦ inl (inl later)
          | inr (no', found) ↦ inl (inr (some-injective x a (rw named at found), ground arith, no'))
        ],
        λ s. elim s [
          | inl (inl later) ↦ rest.1 (inl later)
          | inl (inr (same, n, no')) ↦ rest.1 (inr (no', rw named (ap some same)))
          | inr (no', found) ↦ absurd (no'.0 (ground arith))
        ],
      )
      | inr other ↦ (
        λ h. elim (rest.0 h) [
          | inl later ↦ inl (inl later)
          | inr (no', found) ↦ inr ((ground arith, no'), rw other at found)
        ],
        λ s. elim s [
          | inl (inl later) ↦ rest.1 (inl later)
          | inl (inr (same, n, no')) ↦ absurd (ground arith)
          | inr (no', found) ↦ rest.1 (inr (no'.1, rw other found))
        ],
      )
    ]

module _ (report : ScanReport) where
  pub get-Latest :
      (id : ArtifactId) (a : Artifact)
      → (get (artifact_by_id report) id ≡ some a) ↔ Latest report.artifacts id a
  unfolding artifact_by_id get
  get-Latest id a =
      let both = get-collect_map-Latest report.artifacts [] id a in
      (λ h. elim (both.0 h) [ inl l ↦ l | inr r ↦ absurd (cc r.1) ], λ l. both.1 (inl l))
