-- ===== src/Classifier/Lifecycle/Merge/Made.antt =====
-- The path that `link` makes of one artifact, and what sorting leaves of a path.
use Prim.Native.String.{compare as compare_text}
use mathlib.Core.Option.{some-injective}
use session_scope.Common.{
  ◌≡◌, refl, ◌↔◌, ◌⊎◌, sym, subst, false, List, [], ◌∷◌, none, some, arith, inl, inr, if◌then◌else◌,
  Bool-cases,
}
use session_scope.Common.Lists.{IsIn, collect, is_empty}
use session_scope.Common.Sorting.{IsIn-sort_by}
use session_scope.Model.Lifecycle.{LifecycleStage, ordered}
use session_scope.Model.Evidence.{EvidenceId}
use session_scope.Model.Finding.{ArtifactId}
use session_scope.Model.Artifact.{Artifact}
use session_scope.Model.Report.{LifecyclePath, LifecyclePathStep}
use session_scope.Classifier.Lookup.{EvidenceMap}
use session_scope.Classifier.Lifecycle.Artifacts.{lifecycle_ids_for_stage}
use session_scope.Classifier.Lifecycle.Paths.{sort_ids}
use session_scope.Classifier.Lifecycle.Metadata.{
  refresh_path_metadata, step_for_stage, steps_of, new_path, path_for_artifact,
}
use session_scope.Classifier.Lifecycle.Merge.{sort_inside}
use session_scope.Classifier.Lifecycle.Merge.Records.{
  Notes, IsIn-sort_ids, Notes-sorted, IsIn-refresh, Notes-refresh,
}

-- The artifact has the evidence for the stage.
abbrev pub Owns : Artifact → LifecycleStage → EvidenceId → Type 0
Owns a s e = IsIn e (lifecycle_ids_for_stage a.lifecycle_evidence s)

module _ (s : LifecycleStage) (e : EvidenceId) where
  Notes-step :
      (t : LifecycleStage) (ids : List EvidenceId) (rest : List LifecyclePathStep)
      → Notes
          (elim (if is_empty ids then none else some (record { stage = t; evidence_ids = ids })) [
            | none ↦ rest
            | some step ↦ step ∷ rest
          ])
          s
          e
        ↔ (((t ≡ s) × IsIn e ids) ⊎ Notes rest s e)
  Notes-step t [] rest = ground arith
  Notes-step t (x ∷ ids) rest = ground arith

  Notes-steps :
      (a : Artifact) (ss : List LifecycleStage)
      → Notes (collect (step_for_stage a) ss) s e ↔ (IsIn s ss × Owns a s e)
  unfolding step_for_stage lifecycle_ids_for_stage
  Notes-steps a [] = ground arith
  Notes-steps a (t ∷ ss) =
      let ids = sort_ids (lifecycle_ids_for_stage a.lifecycle_evidence t) in
      let here = Notes-step t ids (collect (step_for_stage a) ss) in
      let same = IsIn-sort_ids e (lifecycle_ids_for_stage a.lifecycle_evidence t) in
      let later = Notes-steps a ss in
      (
        λ n. elim (here.0 n) [
          | inl (at, m) ↦ (inl (sym at), subst (λ x. Owns a x e) at (same.0 m))
          | inr r ↦ (inr (later.0 r).0, (later.0 r).1)
        ],
        λ o. here.1 (elim o.0 [
          | inl at ↦ inl (sym at, same.1 (subst (λ x. Owns a x e) at o.1))
          | inr i ↦ inr (later.1 (i, o.1))
        ]),
      )

  every_stage : IsIn s ordered
  every_stage = stages s
    where
      stages : (t : LifecycleStage) → IsIn t ordered
      stages LifecycleStage.issue = inl refl
      stages LifecycleStage.store = ground arith
      stages LifecycleStage.transmit = ground arith
      stages LifecycleStage.validate = ground arith
      stages LifecycleStage.refresh = ground arith
      stages LifecycleStage.revoke = ground arith
      stages LifecycleStage.expire = ground arith
      stages LifecycleStage.introspect = ground arith

  pub Notes-steps_of : (a : Artifact) → Notes (steps_of a) s e ↔ Owns a s e
  unfolding steps_of
  Notes-steps_of a = ground (arith, Notes-steps a ordered, every_stage)

Notes-ne-nil :
    (s : LifecycleStage) (e : EvidenceId) (ss : List LifecyclePathStep)
    → Notes ss s e
    → is_empty ss ≡ false
Notes-ne-nil s e [] h = elim h [ ]
Notes-ne-nil s e (x ∷ ss) h = refl

-- The path of an artifact names it, and has its evidence.
module _ (evidence : EvidenceMap) (a : Artifact) where
  unfoldable pub updated : LifecyclePath
  unfolding refresh_path_metadata new_path
  updated = refresh_path_metadata ((a.id, a) ∷ []) evidence (new_path evidence a)

  pub updated-names : (x : ArtifactId) → IsIn x updated.artifact_ids ↔ (x ≡ a.id)
  unfolding updated new_path
  updated-names x = ground (arith, IsIn-refresh ((a.id, a) ∷ []) evidence (new_path evidence a) x)

  pub updated-Notes : (s : LifecycleStage) (e : EvidenceId) → Notes updated.stages s e ↔ Owns a s e
  unfolding updated new_path
  updated-Notes s e =
      let same = Notes-refresh ((a.id, a) ∷ []) evidence (new_path evidence a) s e in
      let steps = Notes-steps_of s e a in (λ n. steps.0 (same.0 n), λ o. same.1 (steps.1 o))

  pub path_for_artifact_made :
      (p : LifecyclePath) → path_for_artifact evidence a ≡ some p → p ≡ updated
  unfolding path_for_artifact updated
  path_for_artifact_made p h = elim (Bool-cases (is_empty (steps_of a))) [
    | inl nothing ↦ absurd (cc (rw (nothing, path_for_artifact) at h))
    | inr steps ↦ some-injective p updated (sym (rw (steps, path_for_artifact) at h))
  ]

  pub path_for_artifact-some :
      (s : LifecycleStage) (e : EvidenceId)
      → Owns a s e
      → path_for_artifact evidence a ≡ some updated
  unfolding path_for_artifact updated
  path_for_artifact-some s e o =
      rw (Notes-ne-nil s e (steps_of a) ((Notes-steps_of s e a).1 o), path_for_artifact) refl

pub IsIn-sort_inside :
    (p : LifecyclePath) (a : ArtifactId)
    → IsIn a (sort_inside p).artifact_ids ↔ IsIn a p.artifact_ids
unfolding sort_inside
IsIn-sort_inside p a = IsIn-sort_by compare_text a p.artifact_ids

pub Notes-sort_inside :
    (p : LifecyclePath) (s : LifecycleStage) (e : EvidenceId)
    → Notes (sort_inside p).stages s e ↔ Notes p.stages s e
unfolding sort_inside
Notes-sort_inside p s e = Notes-sorted s e p.stages
