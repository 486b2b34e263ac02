-- ===== src/Classifier/Lifecycle/Chosen.antt =====
-- Which artifact of a path lifecycle.rs takes, stated on the artifacts of the report.
use mathlib.Core.Option.{some-injective}
use session_scope.Common.{
  ◌≡◌, ◌≢◌, ◌↔◌, ◌⊎◌, refl, sym, ap, ◌∙◌, subst, Bool, true, false, not, Option, none, some, List,
  [], ◌∷◌, inl, inr, arith, string_eq, nat_eq, Bool-cases, Option-cases,
}
use session_scope.Common.Lists.{IsIn, All, find, head?, collect, is_empty}
use session_scope.Common.Sets.{get}
use session_scope.Model.Lifecycle.{LifecycleStage}
use session_scope.Model.Evidence.{EvidenceId}
use session_scope.Model.Finding.{ArtifactId}
use session_scope.Model.Artifact.{Artifact}
use session_scope.Model.Report.{LifecyclePath, ScanReport}
use session_scope.Classifier.Lifecycle.Artifacts.{
  artifact_has_only_revoke_evidence, lifecycle_ids_for_stage,
}
use session_scope.Classifier.Lifecycle.Paths.{artifact_by_id, artifact_for_path_with_lookup}
use session_scope.Classifier.Lifecycle.Merge.Made.{Owns}
use session_scope.Classifier.Lifecycle.Classify.{artifact_for_path}
use session_scope.Classifier.Lifecycle.Latest.{Latest, Latest-IsIn, get-Latest}

-- It has revoke evidence, and evidence of no other stage.
abbrev pub IsRevokeOnly : Artifact → Type 0
IsRevokeOnly a =
    ((e : EvidenceId) × Owns a LifecycleStage.revoke e)
    × ((s : LifecycleStage) (e : EvidenceId) → Owns a s e → s ≡ LifecycleStage.revoke)

-- No artifact with the id, or one that has revoke evidence alone.
abbrev pub IsPassedOver : List Artifact → ArtifactId → Type 0
IsPassedOver as' id = (b : Artifact) → Latest as' id b → IsRevokeOnly b

-- The first id whose artifact has more than revoke evidence.
abbrev pub FirstUsed : List Artifact → List ArtifactId → Artifact → Type 0
FirstUsed as' [] a = ⊥
FirstUsed as' (id ∷ ids) a =
    (Latest as' id a × (¬ IsRevokeOnly a)) ⊎ (IsPassedOver as' id × FirstUsed as' ids a)

abbrev pub OfFirst : List Artifact → List ArtifactId → Artifact → Type 0
OfFirst as' [] a = ⊥
OfFirst as' (id ∷ ids) a = Latest as' id a

-- The first artifact of the path with more than revoke evidence, or else that of its first id.
abbrev pub IsChosen : ScanReport → LifecyclePath → Artifact → Type 0
IsChosen report p a =
    FirstUsed report.artifacts p.artifact_ids a
    ⊎ (All (IsPassedOver report.artifacts) p.artifact_ids
        × OfFirst report.artifacts p.artifact_ids a)

empty-IsIn : (xs : List EvidenceId) → (is_empty xs ≡ true) ↔ ((e : EvidenceId) → ¬ IsIn e xs)
empty-IsIn [] = (λ h e m. m, λ n. refl)
empty-IsIn (x ∷ xs) = (λ h e m. cc h, λ n. absurd (n x (inl refl)))

filled-IsIn : (xs : List EvidenceId) → not (is_empty xs) ≡ true → (e : EvidenceId) × IsIn e xs
filled-IsIn [] h = absurd (cc h)
filled-IsIn (x ∷ xs) h = (x, inl refl)

IsIn-filled : (xs : List EvidenceId) (e : EvidenceId) → IsIn e xs → not (is_empty xs) ≡ true
IsIn-filled [] e m = elim m [ ]
IsIn-filled (x ∷ xs) e m = refl

other_empty :
    (a : Artifact)
    → ((s : LifecycleStage) (e : EvidenceId) → Owns a s e → s ≡ LifecycleStage.revoke)
    → (s : LifecycleStage) → s ≢ LifecycleStage.revoke
    → is_empty (lifecycle_ids_for_stage a.lifecycle_evidence s) ≡ true
other_empty a only s other = (empty-IsIn _).1 (λ e m. other (only s e m))

-- The test of the code on the evidence of each stage.
only_revoke_iff : (a : Artifact) → (artifact_has_only_revoke_evidence a ≡ true) ↔ IsRevokeOnly a
unfolding artifact_has_only_revoke_evidence lifecycle_ids_for_stage
only_revoke_iff a = (
  λ h. (filled-IsIn a.lifecycle_evidence.revoke (ground arith), λ s e o. only h s e o),
  λ (r, only'). ground (
    arith,
    IsIn-filled a.lifecycle_evidence.revoke r.0 r.1,
    other_empty a only' LifecycleStage.issue (λ e. cc e),
    other_empty a only' LifecycleStage.store (λ e. cc e),
    other_empty a only' LifecycleStage.transmit (λ e. cc e),
    other_empty a only' LifecycleStage.validate (λ e. cc e),
    other_empty a only' LifecycleStage.refresh (λ e. cc e),
    other_empty a only' LifecycleStage.expire (λ e. cc e),
    other_empty a only' LifecycleStage.introspect (λ e. cc e),
  ),
)
  where
    only :
        artifact_has_only_revoke_evidence a ≡ true
        → (s : LifecycleStage) (e : EvidenceId) → Owns a s e
        → s ≡ LifecycleStage.revoke
    only h LifecycleStage.revoke e o = refl
    only h s e o =
        absurd ((empty-IsIn (lifecycle_ids_for_stage a.lifecycle_evidence s)).0 (ground arith) e o)

module _ (report : ScanReport) where
  abbrev used : Artifact → Bool
  unfolding artifact_has_only_revoke_evidence
  used x = not (artifact_has_only_revoke_evidence x)

  found : List ArtifactId → Option Artifact
  unfolding used artifact_by_id get
  found ids = find used (collect (get (artifact_by_id report)) ids)

  none-IsPassedOver :
      (id : ArtifactId) → get (artifact_by_id report) id ≡ none → IsPassedOver report.artifacts id
  none-IsPassedOver id h b l = absurd (cc ((get-Latest report id b).1 l, h))

  unused-IsPassedOver :
      (id : ArtifactId) (b : Artifact)
      → get (artifact_by_id report) id ≡ some b
      → used b ≡ false
      → IsPassedOver report.artifacts id
  unfolding used
  unused-IsPassedOver id b h u c l =
      let same = some-injective b c (sym h ∙ (get-Latest report id c).1 l) in
      subst IsRevokeOnly same ((only_revoke_iff b).0 (ground arith))

  find_some-FirstUsed :
      (ids : List ArtifactId) (a : Artifact) → found ids ≡ some a → FirstUsed report.artifacts ids a
  unfolding found used
  find_some-FirstUsed [] a h = absurd (cc h)
  find_some-FirstUsed (id ∷ ids) a h = elim (Option-cases (get (artifact_by_id report) id)) [
    | inl missing ↦
        inr (none-IsPassedOver id missing, find_some-FirstUsed ids a (rw (missing, collect) at h))
    | inr (b, here) ↦ elim (Bool-cases (used b)) [
      | inl u ↦
          let same = some-injective b a (rw (here, collect, u, find) at h) in
          inl (
            (get-Latest report id a).0 (here ∙ ap some same),
            λ r. cc ((only_revoke_iff a).1 r, subst (λ (x : Artifact). used x ≡ true) same u),
          )
      | inr u ↦ inr (
        unused-IsPassedOver id b here u,
        find_some-FirstUsed ids a (rw (here, collect, u, find) at h),
      )
    ]
  ]

  find_none-IsPassedOver :
      (ids : List ArtifactId) → found ids ≡ none → All (IsPassedOver report.artifacts) ids
  unfolding found used
  find_none-IsPassedOver [] h = tt
  find_none-IsPassedOver (id ∷ ids) h = elim (Option-cases (get (artifact_by_id report) id)) [
    | inl missing ↦
        (none-IsPassedOver id missing, find_none-IsPassedOver ids (rw (missing, collect) at h))
    | inr (b, here) ↦ elim (Bool-cases (used b)) [
      | inl u ↦ absurd (cc (rw (here, collect, u, find) at h))
      | inr u ↦ (
        unused-IsPassedOver id b here u,
        find_none-IsPassedOver ids (rw (here, collect, u, find) at h),
      )
    ]
  ]

  first-OfFirst :
      (ids : List ArtifactId) (a : Artifact)
      → (elim (head? ids) [ none ↦ none | some id ↦ get (artifact_by_id report) id ]) ≡ some a
      → OfFirst report.artifacts ids a
  first-OfFirst [] a h = absurd (cc h)
  first-OfFirst (id ∷ ids) a h = (get-Latest report id a).0 h

  pub artifact_for_path-IsChosen :
      (p : LifecyclePath) (a : Artifact) → artifact_for_path report p ≡ some a → IsChosen report p a
  unfolding artifact_for_path artifact_for_path_with_lookup found
  artifact_for_path-IsChosen p a h = elim (Option-cases (found p.artifact_ids)) [
    | inl none' ↦ inr (
      find_none-IsPassedOver p.artifact_ids none',
      first-OfFirst p.artifact_ids a
          (rw (none', artifact_for_path, artifact_for_path_with_lookup) at h),
    )
    | inr (b, some') ↦ inl (
        find_some-FirstUsed p.artifact_ids a
          (some' ∙ (rw (some', artifact_for_path, artifact_for_path_with_lookup) at h)))
  ]

  FirstUsed-IsIn :
      (ids : List ArtifactId) (a : Artifact)
      → FirstUsed report.artifacts ids a
      → IsIn a report.artifacts × IsIn a.id ids
  FirstUsed-IsIn [] a f = elim f [ ]
  FirstUsed-IsIn (id ∷ ids) a (inl (l, u)) =
      let (i, e) = Latest-IsIn report.artifacts id a l in (i, inl e)
  FirstUsed-IsIn (id ∷ ids) a (inr (o, f)) = let (i, m) = FirstUsed-IsIn ids a f in (i, inr m)

  OfFirst-IsIn :
      (ids : List ArtifactId) (a : Artifact)
      → OfFirst report.artifacts ids a
      → IsIn a report.artifacts × IsIn a.id ids
  OfFirst-IsIn [] a f = elim f [ ]
  OfFirst-IsIn (id ∷ ids) a l = let (i, e) = Latest-IsIn report.artifacts id a l in (i, inl e)

  -- The artifact is one of the report that the path names.
  pub IsChosen-IsIn :
      (p : LifecyclePath) (a : Artifact)
      → IsChosen report p a
      → IsIn a report.artifacts × IsIn a.id p.artifact_ids
  IsChosen-IsIn p a (inl f) = FirstUsed-IsIn p.artifact_ids a f
  IsChosen-IsIn p a (inr (o, f)) = OfFirst-IsIn p.artifact_ids a f
