-- ===== src/Classifier/Lifecycle/Grounded.antt =====
-- What the findings of lifecycle.rs name: artifacts and evidence that the report has.
use session_scope.Common.{◌≡◌, refl, List, [], ◌∷◌, inl, inr, Option-cases, string_eq, nat_eq}
use session_scope.Common.Lists.{IsIn, All, All-IsIn, All-append}
use session_scope.Model.Lifecycle.{lifecycle_stage_eq}
use session_scope.Model.Evidence.{EvidenceId}
use session_scope.Model.Finding.{Finding}
use session_scope.Model.Artifact.{Artifact, artifact_type_eq}
use session_scope.Model.Report.{LifecyclePath, ScanReport}
use session_scope.Classifier.Lookup.{evidence_by_id}
use session_scope.Classifier.Lifecycle.Classify.{
  artifact_for_path, classify_path, classify_paths, classify,
}
use session_scope.Classifier.Lifecycle.Chosen.{IsChosen, IsChosen-IsIn, artifact_for_path-IsChosen}
use session_scope.Classifier.Lifecycle.RulesGrounded.{Cites, Grounded}
use session_scope.Classifier.Lifecycle.ReportGrounded.{rules-Grounded}

-- A path and an artifact of the report, and how the finding comes from them.
record Ground (report : ScanReport) (f : Finding) (e : EvidenceId) : Type 0 where
  pub path : LifecyclePath
  pub artifact : Artifact
  pub linked : IsIn path report.lifecycle_paths
  pub chosen : IsChosen report path artifact
  pub reported : IsIn artifact report.artifacts
  pub on_path : IsIn artifact.id path.artifact_ids
  pub named : f.artifact_ids ≡ artifact.id ∷ []
  pub cited : IsIn e f.evidence_ids → Cites report path artifact e

classify_path-Ground :
    (report : ScanReport) (p : LifecyclePath) (e : EvidenceId)
    → IsIn p report.lifecycle_paths
    → All (λ f. Ground report f e) (classify_path report (evidence_by_id report) p)
unfolding classify_path
classify_path-Ground report p e m = elim (Option-cases (artifact_for_path report p)) [
  | inl missing ↦ rw (missing, classify_path) tt
  | inr (a, found) ↦
      rw (found, classify_path)
        (each a _ (rules-Grounded report p a e) (artifact_for_path-IsChosen report p a found))
]
  where
    each :
        (a : Artifact) (fs : List Finding)
        → All (Grounded report p a e) fs
        → IsChosen report p a
        → All (λ f. Ground report f e) fs
    each a [] h here = tt
    each a (f ∷ fs) h here = (
      record {
        path = p;
        artifact = a;
        linked = m;
        chosen = here;
        reported = (IsChosen-IsIn report p a here).0;
        on_path = (IsChosen-IsIn report p a here).1;
        named = h.0.0;
        cited = h.0.1;
      },
      each a fs h.1 here,
    )

classify_paths-Ground :
    (report : ScanReport) (e : EvidenceId) (ps : List LifecyclePath)
    → ((p : LifecyclePath) → IsIn p ps → IsIn p report.lifecycle_paths)
    → All (λ f. Ground report f e) (classify_paths report (evidence_by_id report) ps)
unfolding classify_paths
classify_paths-Ground report e [] h = tt
classify_paths-Ground report e (p ∷ ps) h =
    All-append _ (classify_path report (evidence_by_id report) p) _
      (classify_path-Ground report p e (h p (inl refl)))
      (classify_paths-Ground report e ps (λ q m. h q (inr m)))

-- A path of the report and the artifact that is chosen of it, which the finding names, and where
-- its evidence is from.
pub record IsGrounded (report : ScanReport) (f : Finding) (e : EvidenceId) : Type 0 where
  pub path : LifecyclePath
  pub artifact : Artifact
  pub linked : IsIn path report.lifecycle_paths
  pub chosen : IsChosen report path artifact
  pub reported : IsIn artifact report.artifacts
  pub on_path : IsIn artifact.id path.artifact_ids
  pub named : f.artifact_ids ≡ artifact.id ∷ []
  pub cited : Cites report path artifact e

-- An evidence that a lifecycle finding cites is grounded: the finding is about a path of the
-- report and names only the artifact chosen of that path, which is an artifact of the report that
-- the path names (the first of those it names and the report has that has more than revoke
-- evidence, or else that of its first id), and the evidence is of a step of the path, or evidence
-- of the report, or evidence of the path or domain attribute of the artifact's cookie.
pub classify-IsGrounded :
    (report : ScanReport) (f : Finding) (e : EvidenceId)
    → IsIn f (classify report)
    → IsIn e f.evidence_ids
    → IsGrounded report f e
unfolding classify
classify-IsGrounded report f e m cites =
    let g =
      All-IsIn (λ x. Ground report x e) f _
        (classify_paths-Ground report e report.lifecycle_paths (λ p here. here)) m in
    record {
      path = g.path;
      artifact = g.artifact;
      linked = g.linked;
      chosen = g.chosen;
      reported = g.reported;
      on_path = g.on_path;
      named = g.named;
      cited = g.cited cites;
    }
