-- ===== src/Core/Baseline/Ordered.antt =====
-- The order of the changes of a diff and of the findings of a baseline.
use Prim.Native.String.{compare as compare_text}
use session_scope.Common.{
  ℕ, ◌<◌, ◌⊎◌, inl, inr, String, ◌≡◌, refl, ◌∙◌, sym, subst, map, arith, compare, Ordering, false,
  Option, none, some, List, [], ◌∷◌,
}
use session_scope.Common.Lists.{All}
use session_scope.Common.Order.{
  IsOrder, IsOrder-IsPreorder, compare_ℕ-IsOrder, compare_text-IsOrder, by_key-IsOrder,
  then_with-IsOrder,
}
use session_scope.Common.Sorting.{IsSorted, Le, is_gt, then_with, sort_by-IsSorted, All-sort_by}
use session_scope.Model.Finding.{Finding}
use session_scope.Model.Report.{ScanReport}
use session_scope.Model.Baseline.{
  Baseline, BaselineFinding, DiffFindingChange, DiffChangeKind, change_rank,
}
use session_scope.Core.Redaction.Values.{Regexes}
use session_scope.Core.Redaction.Sanitize.{sanitize_report}
use session_scope.Core.Baseline.Fingerprint.{
  create_baseline, baseline_finding, sort_baseline_findings, sort_fields, compare_baseline_finding,
  evidence_by_id,
}
use session_scope.Core.Baseline.Diff.{
  diff_findings, diff_baseline, id_of, compare_change, sanitized_baseline,
}

-- The kinds in the order in which a diff shows them.
abbrev pub position : DiffChangeKind → ℕ
position DiffChangeKind.new = 0
position DiffChangeKind.unchanged = 1
position DiffChangeKind.changed = 2
position DiffChangeKind.moved = 3
position DiffChangeKind.resolved = 4

abbrev pub id_or : Option BaselineFinding → String → String
id_or none s = s
id_or (some f) s = f.id

-- The id of the current finding, or of the baseline's where there is none.
abbrev pub shown_id : DiffFindingChange → String
shown_id c = id_or c.current (id_or c.baseline "")

-- An earlier kind, or the same kind and an id that is no greater in the order of texts.
abbrev pub IsBefore : DiffFindingChange → DiffFindingChange → Type 0
IsBefore l r =
    (position l.kind < position r.kind)
    ⊎ ((l.kind ≡ r.kind) × Le compare_text (shown_id l) (shown_id r))

-- By the id, then by the semantic fingerprint, then by the fingerprint of the evidence.
abbrev pub Precedes : BaselineFinding → BaselineFinding → Type 0
Precedes l r =
    Le compare_text l.id r.id
    × (l.id ≡ r.id
        → Le compare_text l.semantic_fingerprint r.semantic_fingerprint
          × (l.semantic_fingerprint ≡ r.semantic_fingerprint
              → Le compare_text l.evidence_fingerprint r.evidence_fingerprint))

-- Each element stands in the relation to all after it.
abbrev pub Pairwise : {A : Type 0} → (A → A → Type 0) → List A → Type 0
Pairwise R [] = Unit
Pairwise R (x ∷ xs) = All (R x) xs × Pairwise R xs

module _ {A : Type 0} (cmp : A → A → Ordering) (R : A → A → Type 0)
    (each : (x y : A) → Le cmp x y → R x y) where
  All-Le : (x : A) (ys : List A) → All (Le cmp x) ys → All (R x) ys
  All-Le x [] h = tt
  All-Le x (y ∷ ys) h = (each x y h.0, All-Le x ys h.1)

  IsSorted-Pairwise : (xs : List A) → IsSorted cmp xs → Pairwise R xs
  IsSorted-Pairwise [] s = tt
  IsSorted-Pairwise (x ∷ xs) s = (All-Le x xs s.0, IsSorted-Pairwise xs s.1)

rank-position : (k : DiffChangeKind) → change_rank k ≡ position k
unfolding change_rank
rank-position DiffChangeKind.new = refl
rank-position k = refl

position-injective : (k j : DiffChangeKind) → position k ≡ position j → k ≡ j
position-injective DiffChangeKind.new DiffChangeKind.new h = refl
position-injective k j h = ground arith

by_number :
    (m n : ℕ) (o : Ordering)
    → is_gt (then_with (compare m n) o) ≡ false
    → (m < n) ⊎ ((m ≡ n) × (is_gt o ≡ false))
by_number m n o h = ground arith

compare_text_self : (s : String) → compare_text s s ≡ Ordering.eq
compare_text_self s = ground (arith, compare_text-IsOrder.swap s s)

by_text :
    (s t : String) (o : Ordering)
    → is_gt (then_with (compare_text s t) o) ≡ false
    → Le compare_text s t × (s ≡ t → is_gt o ≡ false)
by_text s t o h = (
  ground arith,
  λ e. tied (subst (λ (x : String). compare_text s x ≡ Ordering.eq) e (compare_text_self s)),
)
  where
    tied : compare_text s t ≡ Ordering.eq → is_gt o ≡ false
    tied q = ground arith

id_of-shown :
    (current baseline : Option BaselineFinding)
    → id_of current baseline ≡ id_or current (id_or baseline "")
id_of-shown (some current) baseline = refl
id_of-shown none (some baseline) = refl
id_of-shown none none = refl

Le-IsBefore : (l r : DiffFindingChange) → Le compare_change l r → IsBefore l r
Le-IsBefore l r h = elim (by_number (change_rank l.kind) (change_rank r.kind) _ h) [
  | inl earlier ↦ inl (rw (sym (rank-position l.kind), sym (rank-position r.kind)) earlier)
  | inr (same, ids) ↦ inr (
    position-injective l.kind r.kind (sym (rank-position l.kind) ∙ (same ∙ rank-position r.kind)),
    rw (sym (id_of-shown l.current l.baseline), sym (id_of-shown r.current r.baseline)) ids,
  )
]

Le-Precedes : (l r : BaselineFinding) → Le compare_baseline_finding l r → Precedes l r
Le-Precedes l r h =
    let (ids, same) = by_text l.id r.id _ h in
    (ids, λ e. by_text l.semantic_fingerprint r.semantic_fingerprint _ (same e))

compare_change-IsOrder : IsOrder compare_change
compare_change-IsOrder =
    then_with-IsOrder _ _
      (by_key-IsOrder compare (λ (c : DiffFindingChange). change_rank c.kind) compare_ℕ-IsOrder)
      (by_key-IsOrder compare_text (λ (c : DiffFindingChange). id_of c.current c.baseline)
        compare_text-IsOrder)

compare_baseline_finding-IsOrder : IsOrder compare_baseline_finding
compare_baseline_finding-IsOrder =
    then_with-IsOrder _ _ (by_key-IsOrder _ (λ (f : BaselineFinding). f.id) compare_text-IsOrder) (
      then_with-IsOrder _ _
        (by_key-IsOrder _ (λ (f : BaselineFinding). f.semantic_fingerprint) compare_text-IsOrder)
        (by_key-IsOrder _ (λ (f : BaselineFinding). f.evidence_fingerprint) compare_text-IsOrder))

sort_fields-IsSorted :
    (fs : List BaselineFinding)
    → All
        (λ (f : BaselineFinding).
          IsSorted compare_text f.artifact_ids × IsSorted compare_text f.evidence_ids)
        (map sort_fields fs)
sort_fields-IsSorted [] = tt
sort_fields-IsSorted (f ∷ fs) =
    let texts = IsOrder-IsPreorder compare_text compare_text-IsOrder in
    (
      (
        sort_by-IsSorted compare_text texts f.artifact_ids,
        sort_by-IsSorted compare_text texts f.evidence_ids,
      ),
      sort_fields-IsSorted fs,
    )

-- Of any two changes of a diff the first has an earlier kind (new, unchanged, changed, moved,
-- resolved), or the same kind and an id, of its current finding or else of that of the baseline,
-- that is no greater. Of any two findings of a created baseline the first has no greater id, at
-- equal ids no greater semantic fingerprint, and at equal semantic fingerprints no greater
-- evidence fingerprint. The artifact and evidence ids of each are sorted.
pub diff_baseline-IsOrdered :
    (rx : Regexes) (baseline : Baseline) (report : ScanReport)
    → Pairwise IsBefore (diff_baseline rx baseline report).changes
      × Pairwise Precedes (create_baseline rx report baseline.created_by).findings
      × All
          (λ (f : BaselineFinding).
            IsSorted compare_text f.artifact_ids × IsSorted compare_text f.evidence_ids)
          (create_baseline rx report baseline.created_by).findings
unfolding diff_baseline create_baseline sort_baseline_findings
diff_baseline-IsOrdered rx baseline report =
    let bs = (sanitized_baseline rx baseline).findings in
    let cs = (create_baseline rx report baseline.created_by).findings in
    let clean = sanitize_report rx report in
    let built = map (λ (f : Finding). baseline_finding f (evidence_by_id clean)) clean.findings in
    (
      IsSorted-Pairwise compare_change IsBefore Le-IsBefore _ (
          sort_by-IsSorted compare_change (IsOrder-IsPreorder _ compare_change-IsOrder)
            (diff_findings bs cs)),
      IsSorted-Pairwise compare_baseline_finding Precedes Le-Precedes _ (
          sort_by-IsSorted compare_baseline_finding
            (IsOrder-IsPreorder _ compare_baseline_finding-IsOrder) (map sort_fields built)),
      All-sort_by _ compare_baseline_finding (map sort_fields built) (sort_fields-IsSorted built),
    )
