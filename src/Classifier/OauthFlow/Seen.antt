-- ===== src/Classifier/OauthFlow/Seen.antt =====
-- The evidence that an artifact names, against the tests of its detectors.
use session_scope.Common.{
  String, ◌≡◌, refl, ◌↔◌, ◌⊎◌, inl, inr, Bool, true, false, ◌||◌, not, List, [], ◌∷◌, ◌++◌, ◌==◌,
  string_eq, contains, contains_iff, IsIn-append, IsIn-keep, arith, Bool-cases,
}
use session_scope.Common.Lists.{any_iff, IsIn, any, is_empty}
use session_scope.Model.Lifecycle.{LifecycleStage}
use session_scope.Model.Evidence.{Evidence, EvidenceId}
use session_scope.Model.Artifact.{Artifact, LifecycleEvidence, artifact_type_eq}
use session_scope.Model.Report.{ScanReport}
use session_scope.Classifier.Lifecycle.Artifacts.{lifecycle_ids_for_stage}
use session_scope.Classifier.Lifecycle.Merge.Made.{Owns}
use session_scope.Classifier.OauthFlow.Rules.{seen, detector_ids}
use session_scope.Classifier.OauthFlow.Classify.{artifact_evidence_ids, artifact_evidence}

-- The report has evidence of the detector that the artifact names at some stage.
abbrev pub Seen : ScanReport → Artifact → String → Type 0
Seen report a d =
    (e : Evidence) × IsIn e report.evidence
    × ((s : LifecycleStage) × Owns a s e.id)
    × (e.detector_id ≡ d)

IsIn-chain :
    (id : EvidenceId) (i s t v r k x n : List EvidenceId)
    → IsIn id (i ++ (s ++ (t ++ (v ++ (r ++ (k ++ (x ++ n))))))) ↔ (
        IsIn id i
        ⊎ IsIn id s
        ⊎ IsIn id t
        ⊎ IsIn id v
        ⊎ IsIn id r
        ⊎ IsIn id k
        ⊎ IsIn id x
        ⊎ IsIn id n)
IsIn-chain id i s t v r k x n = ground (
  arith,
  IsIn-append id i (s ++ (t ++ (v ++ (r ++ (k ++ (x ++ n)))))),
  IsIn-append id s (t ++ (v ++ (r ++ (k ++ (x ++ n))))),
  IsIn-append id t (v ++ (r ++ (k ++ (x ++ n)))),
  IsIn-append id v (r ++ (k ++ (x ++ n))),
  IsIn-append id r (k ++ (x ++ n)),
  IsIn-append id k (x ++ n),
  IsIn-append id x n,
)

stage_case :
    (l : LifecycleEvidence) (id : EvidenceId) (s : LifecycleStage)
    → IsIn id (lifecycle_ids_for_stage l s)
    → IsIn id l.issue
      ⊎ IsIn id l.store
      ⊎ IsIn id l.transmit
      ⊎ IsIn id l.validate
      ⊎ IsIn id l.refresh
      ⊎ IsIn id l.revoke
      ⊎ IsIn id l.expire
      ⊎ IsIn id l.introspect
unfolding lifecycle_ids_for_stage
stage_case l id LifecycleStage.issue m = inl m
stage_case l id LifecycleStage.store m = inr (inl m)
stage_case l id LifecycleStage.transmit m = inr (inr (inl m))
stage_case l id LifecycleStage.validate m = inr (inr (inr (inl m)))
stage_case l id LifecycleStage.refresh m = inr (inr (inr (inr (inl m))))
stage_case l id LifecycleStage.revoke m = inr (inr (inr (inr (inr (inl m)))))
stage_case l id LifecycleStage.expire m = inr (inr (inr (inr (inr (inr (inl m))))))
stage_case l id LifecycleStage.introspect m = inr (inr (inr (inr (inr (inr (inr m))))))

owned_iff :
    (a : Artifact) (id : EvidenceId)
    → IsIn id (artifact_evidence_ids a) ↔ ((s : LifecycleStage) × Owns a s id)
unfolding artifact_evidence_ids lifecycle_ids_for_stage
owned_iff a id =
    let l = a.lifecycle_evidence in
    let split =
      IsIn-chain id l.issue l.store l.transmit l.validate l.refresh l.revoke l.expire
        l.introspect in
    (
      λ h. elim (split.0 h) [
        | inl m ↦ (LifecycleStage.issue, m)
        | inr (inl m) ↦ (LifecycleStage.store, m)
        | inr (inr (inl m)) ↦ (LifecycleStage.transmit, m)
        | inr (inr (inr (inl m))) ↦ (LifecycleStage.validate, m)
        | inr (inr (inr (inr (inl m)))) ↦ (LifecycleStage.refresh, m)
        | inr (inr (inr (inr (inr (inl m))))) ↦ (LifecycleStage.revoke, m)
        | inr (inr (inr (inr (inr (inr (inl m)))))) ↦ (LifecycleStage.expire, m)
        | inr (inr (inr (inr (inr (inr (inr m)))))) ↦ (LifecycleStage.introspect, m)
      ],
      λ (s, m). split.1 (stage_case l id s m),
    )

module _ (report : ScanReport) (a : Artifact) where
  abbrev pub has : String → Bool
  has d = seen (artifact_evidence report a) d

  pub has_iff : (d : String) → (has d ≡ true) ↔ Seen report a d
  unfolding artifact_evidence
  has_iff d =
      let named = λ (e : Evidence). contains (artifact_evidence_ids a) e.id in
      let of_detector = λ (e : Evidence). e.detector_id == d in
      (
        λ h.
            let (e, i, same) = (any_iff of_detector (artifact_evidence report a)).0 h in
            let (here, names) = (IsIn-keep named e report.evidence).0 i in
            (e, here, (owned_iff a e.id).0 ((contains_iff _ e.id).0 names), ground arith),
        λ (e, here, owned, same). (any_iff of_detector (artifact_evidence report a)).1 (
          e,
          (IsIn-keep named e report.evidence).1
              (here, (contains_iff _ e.id).1 ((owned_iff a e.id).1 owned)),
          ground arith,
        ),
      )

pub any_or :
    (p q : Evidence → Bool) (xs : List Evidence) → any (λ e. p e || q e) xs ≡ (any p xs || any q xs)
any_or p q [] = refl
any_or p q (x ∷ xs) = ground (arith, any_or p q xs)

pub detector_ids-seen :
    (xs : List Evidence) (d : String) → not (is_empty (detector_ids xs d)) ≡ seen xs d
unfolding detector_ids
detector_ids-seen [] d = refl
detector_ids-seen (x ∷ xs) d = elim (Bool-cases (x.detector_id == d)) [
  | inl h ↦ rw h refl
  | inr h ↦ rw h (detector_ids-seen xs d)
]

module _ (report : ScanReport) (a : Artifact) where
  pub no_iff : (d : String) → (has report a d ≡ false) ↔ (¬ Seen report a d)
  no_iff d = (
    λ h x. cc ((has_iff report a d).1 x, h),
    λ n. elim (Bool-cases (has report a d)) [
      | inl h ↦ absurd (n ((has_iff report a d).0 h))
      | inr h ↦ h
    ],
  )

  pub implies_iff :
      (c d : String)
      → ((has report a c ≡ true) → has report a d ≡ true) ↔ (Seen report a c → Seen report a d)
  implies_iff c d = (
    λ h x. (has_iff report a d).0 (h ((has_iff report a c).1 x)),
    λ h x. (has_iff report a d).1 (h ((has_iff report a c).0 x)),
  )
