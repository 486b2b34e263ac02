-- ===== src/Classifier/Lifecycle/Merge/Linked.antt =====
-- The paths of `link` against the lifecycle evidence of the report's artifacts.
use session_scope.Common.{◌≡◌, refl, ◌↔◌, ap, subst, List, [], ◌∷◌, some, inl, inr, map}
use session_scope.Common.Lists.{IsIn-collect, IsIn, All, All-IsIn, IsIn-All}
use session_scope.Common.Sorting.{IsIn-sort_by}
use session_scope.Model.Lifecycle.{LifecycleStage}
use session_scope.Model.Evidence.{EvidenceId}
use session_scope.Model.Finding.{ArtifactId}
use session_scope.Model.Artifact.{Artifact}
use session_scope.Model.Report.{LifecyclePath, ScanReport}
use session_scope.Classifier.Lookup.{evidence_by_id}
use session_scope.Classifier.Lifecycle.Paths.{artifact_by_id}
use session_scope.Classifier.Lifecycle.Metadata.{refresh_path_metadata, path_for_artifact}
use session_scope.Classifier.Lifecycle.Links.{merge_path}
use session_scope.Classifier.Lifecycle.Merge.{compare_path, sort_inside, sort_paths, link}
use session_scope.Classifier.Lifecycle.Merge.Records.{
  Notes, IsIn-refresh, Notes-refresh, IsIn-merge_path, Notes-merge_path,
}
use session_scope.Classifier.Lifecycle.Merge.Keeps.{IsRecorded, passes-IsRecorded}
use session_scope.Classifier.Lifecycle.Merge.Every.{link-All}
use session_scope.Classifier.Lifecycle.Merge.Made.{
  Owns, updated, updated-names, updated-Notes, path_for_artifact_made, path_for_artifact-some,
  IsIn-sort_inside, Notes-sort_inside,
}
use session_scope.Common.Distinct.{DistinctBy, DistinctBy-injective}

-- `sort_paths` keeps the paths, each with what it records.
module _ (a : ArtifactId) (s : LifecycleStage) (e : EvidenceId) where
  sort_paths-IsRecorded :
      (ps : List LifecyclePath) → IsRecorded a s e ps → IsRecorded a s e (sort_paths ps)
  unfolding sort_paths
  sort_paths-IsRecorded ps (p, m, r) = (
    sort_inside p,
    (IsIn-sort_by compare_path (sort_inside p) (map sort_inside ps)).1 (each ps p m),
    ((IsIn-sort_inside p a).1 r.0, (Notes-sort_inside p s e).1 r.1),
  )
    where
      each :
          (qs : List LifecyclePath) (q : LifecyclePath)
          → IsIn q qs
          → IsIn (sort_inside q) (map sort_inside qs)
      each [] q m = elim m [ ]
      each (x ∷ qs) q (inl same) = inl (ap sort_inside same)
      each (x ∷ qs) q (inr later) = inr (each qs q later)

-- No lifecycle evidence is lost in linking: for each evidence of an artifact of the report at a
-- stage, some path that `link` returns, after the three merging passes, names the artifact and
-- has the evidence in a step of the stage.
pub link-IsRecorded :
    (report : ScanReport) (a : Artifact) (s : LifecycleStage) (e : EvidenceId)
    → IsIn a report.artifacts
    → Owns a s e
    → IsRecorded a.id s e (link report)
unfolding link
link-IsRecorded report a s e m o =
    let evidence = evidence_by_id report in
    let made = path_for_artifact-some evidence a s e o in
    sort_paths-IsRecorded a.id s e _ (
      passes-IsRecorded a.id s e (artifact_by_id report) evidence _ (
        updated evidence a,
        (IsIn-collect (path_for_artifact evidence) (updated evidence a) report.artifacts).1
            (a, m, made),
        ((updated-names evidence a a.id).1 refl, (updated-Notes evidence a s e).1 o),
      ))

-- Some artifact of the report that the path names has the evidence for the stage.
abbrev pub HasOwner : ScanReport → LifecyclePath → LifecycleStage → EvidenceId → Type 0
HasOwner report p s e =
    (a : Artifact) × IsIn a report.artifacts × IsIn a.id p.artifact_ids × Owns a s e

module _ (report : ScanReport) (s : LifecycleStage) (e : EvidenceId) where
  abbrev IsOwned : LifecyclePath → Type 0
  IsOwned q = Notes q.stages s e → HasOwner report q s e

  made-IsOwned :
      (a : Artifact) (q : LifecyclePath)
      → IsIn a report.artifacts
      → path_for_artifact (evidence_by_id report) a ≡ some q
      → IsOwned q
  made-IsOwned a q here h n =
      let by_id = evidence_by_id report in
      let same = path_for_artifact_made by_id a q h in
      (
        a,
        here,
        rw same ((updated-names by_id a a.id).1 refl),
        (updated-Notes by_id a s e).0 (subst (λ (x : LifecyclePath). Notes x.stages s e) same n),
      )

  merged-IsOwned : (x y : LifecyclePath) → IsOwned x → IsOwned y → IsOwned (merge_path x y)
  merged-IsOwned x y ox oy n = elim ((Notes-merge_path x y s e).0 n) [
    | inl ny ↦ let (a, r, i, o) = oy ny in (a, r, (IsIn-merge_path x y a.id).1 (inl i), o)
    | inr nx ↦ let (a, r, i, o) = ox nx in (a, r, (IsIn-merge_path x y a.id).1 (inr i), o)
  ]

  -- A change of a path that keeps what it names and what it notes.
  kept-IsOwned :
      (q q' : LifecyclePath)
      → ((a : ArtifactId) → IsIn a q'.artifact_ids ↔ IsIn a q.artifact_ids)
      → (Notes q'.stages s e ↔ Notes q.stages s e)
      → IsOwned q
      → IsOwned q'
  kept-IsOwned q q' names notes oq n =
      let (a, r, i, o) = oq (notes.0 n) in (a, r, (names a.id).1 i, o)

  link-IsOwned : All IsOwned (link report)
  link-IsOwned =
      let artifacts = artifact_by_id report in
      let evidence = evidence_by_id report in
      link-All IsOwned report (IsIn-All _ report.artifacts (λ a here q. made-IsOwned a q here))
        merged-IsOwned
        (λ q.
          kept-IsOwned q (refresh_path_metadata artifacts evidence q)
            (IsIn-refresh artifacts evidence q) (Notes-refresh artifacts evidence q s e))
        (λ q. kept-IsOwned q (sort_inside q) (IsIn-sort_inside q) (Notes-sort_inside q s e))

  -- An artifact that the path names has its evidence in the path.
  module _ (distinct : DistinctBy (λ (a : Artifact). a.id) report.artifacts) (a : Artifact)
      (in_report : IsIn a report.artifacts) (owns : Owns a s e) where
    abbrev IsComplete : LifecyclePath → Type 0
    IsComplete q = IsIn a.id q.artifact_ids → Notes q.stages s e

    made-IsComplete :
        (b : Artifact) (q : LifecyclePath)
        → IsIn b report.artifacts
        → path_for_artifact (evidence_by_id report) b ≡ some q
        → IsComplete q
    made-IsComplete b q here h named =
        let by_id = evidence_by_id report in
        let same = path_for_artifact_made by_id b q h in
        let same_id =
          (updated-names by_id b a.id).0
            (subst (λ (x : LifecyclePath). IsIn a.id x.artifact_ids) same named) in
        let same_artifact =
          DistinctBy-injective (λ (x : Artifact). x.id) report.artifacts a b distinct in_report here
            same_id in
        rw same
          ((updated-Notes by_id b s e).1 (subst (λ (x : Artifact). Owns x s e) same_artifact owns))

    merged-IsComplete :
        (x y : LifecyclePath) → IsComplete x → IsComplete y → IsComplete (merge_path x y)
    merged-IsComplete x y cx cy named = elim ((IsIn-merge_path x y a.id).0 named) [
      | inl iy ↦ (Notes-merge_path x y s e).1 (inl (cy iy))
      | inr ix ↦ (Notes-merge_path x y s e).1 (inr (cx ix))
    ]

    kept-IsComplete :
        (q q' : LifecyclePath)
        → (IsIn a.id q'.artifact_ids ↔ IsIn a.id q.artifact_ids)
        → (Notes q'.stages s e ↔ Notes q.stages s e)
        → IsComplete q
        → IsComplete q'
    kept-IsComplete q q' names notes cq named = notes.1 (cq (names.0 named))

    link-IsComplete : All IsComplete (link report)
    link-IsComplete =
        let artifacts = artifact_by_id report in
        let evidence = evidence_by_id report in
        link-All IsComplete report
          (IsIn-All _ report.artifacts (λ b here q. made-IsComplete b q here)) merged-IsComplete
          (λ q.
            kept-IsComplete q (refresh_path_metadata artifacts evidence q)
              (IsIn-refresh artifacts evidence q a.id) (Notes-refresh artifacts evidence q s e))
          (λ q.
            kept-IsComplete q (sort_inside q) (IsIn-sort_inside q a.id) (Notes-sort_inside q s e))

-- Where the artifacts of the report have different ids, a path that `link` returns has an
-- evidence in a step of a stage exactly when some artifact of the report that the path names has
-- the evidence at the stage: nothing is mixed in, whatever merging did.
pub link-Notes_iff :
    (report : ScanReport) (p : LifecyclePath) (s : LifecycleStage) (e : EvidenceId)
    → DistinctBy (λ (a : Artifact). a.id) report.artifacts
    → IsIn p (link report)
    → Notes p.stages s e ↔ HasOwner report p s e
link-Notes_iff report p s e distinct m = (
  All-IsIn (IsOwned report s e) p (link report) (link-IsOwned report s e) m,
  λ o.
      All-IsIn (IsComplete report s e distinct o.0 o.1 o.3) p (link report)
        (link-IsComplete report s e distinct o.0 o.1 o.3) m o.2,
)
