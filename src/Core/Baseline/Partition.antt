-- ===== src/Core/Baseline/Partition.antt =====
-- The passes of the diff lose no finding and count none twice.
use mathlib.Core.List.{
  Perm, filter_map, filter_map-append, filter_map-cons-some, append_assoc, append-nil,
}
use mathlib.Core.List.Perm
use session_scope.Common.{
  String, ◌≡◌, refl, sym, ap, subst, false, not, some, List, [], ◌∷◌, ◌++◌, arith, ◌==◌, string_eq,
  contains, Bool-cases, inl, inr,
}
use session_scope.Common.Lists.{keep, IsIn, All, All-IsIn}
use session_scope.Common.Distinct.{DistinctBy}
use session_scope.Common.Sets.{insert, contains-insert}
use session_scope.Model.Baseline.{BaselineFinding, DiffFindingChange}
use session_scope.Core.Baseline.Diff.{key_eq, Progress, start, pair, resolve}

-- Ids that all differ.
abbrev pub Distinct : List BaselineFinding → Type 0
Distinct = DistinctBy (λ (f : BaselineFinding). f.id)

-- The findings whose ids a set does not have yet.
abbrev pub unmatched : List String → List BaselineFinding → List BaselineFinding
unmatched s = keep (λ f. not (contains s f.id))

abbrev pub baselines : List DiffFindingChange → List BaselineFinding
baselines = filter_map (λ c. c.baseline)

abbrev pub currents : List DiffFindingChange → List BaselineFinding
currents = filter_map (λ c. c.current)

pub perm_of_eq : {xs ys : List BaselineFinding} → xs ≡ ys → Perm xs ys
perm_of_eq {xs} e = subst (λ l. Perm xs l) e (Perm.refl xs)

perm_along : {xs ys zs ws : List BaselineFinding} → xs ≡ ys → zs ≡ ws → Perm ys ws → Perm xs zs
perm_along e f p = Perm.trans (perm_of_eq e) (Perm.trans p (perm_of_eq (sym f)))

-- Marking an id that the list does not have leaves the unmatched findings as they are.
unmatched-insert_ne :
    (s : List String) (id : String) (fs : List BaselineFinding)
    → All (λ (g : BaselineFinding). (g.id == id) ≡ false) fs
    → unmatched (insert id s) fs ≡ unmatched s fs
unmatched-insert_ne s id [] h = refl
unmatched-insert_ne s id (f ∷ fs) h =
    ground (arith, contains-insert id f.id s, unmatched-insert_ne s id fs h.1)

-- Marking an unmatched finding of the list takes it out of the unmatched ones.
unmatched-insert :
    (s : List String) (f : BaselineFinding) (fs : List BaselineFinding)
    → Distinct fs
    → IsIn f fs
    → contains s f.id ≡ false
    → Perm (unmatched s fs) (f ∷ unmatched (insert f.id s) fs)
unmatched-insert s f [] d m h = elim m [ ]
unmatched-insert s f (g ∷ gs) d (inl e) h =
    let apart : All (λ (x : BaselineFinding). (x.id == f.id) ≡ false) gs =
      subst (λ (y : BaselineFinding). All (λ (x : BaselineFinding). (x.id == y.id) ≡ false) gs)
        (sym e) d.0 in
    perm_of_eq (
      ground (
        arith,
        contains-insert f.id g.id s,
        unmatched-insert_ne s f.id gs apart,
        ap (λ (x : BaselineFinding). x.id) e,
      ))
unmatched-insert s f (g ∷ gs) d (inr m) h =
    let apart = All-IsIn (λ (x : BaselineFinding). (x.id == g.id) ≡ false) f gs d.0 m in
    let rest = unmatched-insert s f gs d.1 m h in
    let keeps = contains-insert f.id g.id s in
    elim (Bool-cases (contains s g.id)) [
      | inl old ↦ perm_along (ground arith) (ground arith) rest
      | inr new ↦
          perm_along (ground arith) (ground arith)
            (Perm.trans (Perm.cons g rest) (Perm.swap f g (unmatched (insert f.id s) gs)))
    ]

-- One more element on the left, taken out on the right.
grow :
    (b : BaselineFinding) (xs us vs bs : List BaselineFinding)
    → Perm us (b ∷ vs)
    → Perm (xs ++ us) bs
    → Perm ((xs ++ b ∷ []) ++ vs) bs
grow b xs us vs bs take all =
    Perm.trans (perm_of_eq (append_assoc xs (b ∷ []) vs))
      (Perm.trans (Perm.append_left xs (Perm.symm take)) all)

-- What the passes keep: the changes made so far and the findings still unmatched are, together,
-- the findings of either side.
pub record Inv (bs cs : List BaselineFinding) (s : Progress) : Type 0 where
  pub old : Perm (baselines s.changes ++ unmatched s.matched_baseline bs) bs
  pub cur : Perm (currents s.changes ++ unmatched s.matched_current cs) cs

unmatched-nil : (fs : List BaselineFinding) → unmatched [] fs ≡ fs
unmatched-nil [] = refl
unmatched-nil (f ∷ fs) = ap (λ l. f ∷ l) (unmatched-nil fs)

pub Inv-start : (bs cs : List BaselineFinding) → Inv bs cs start
unfolding filter_map
Inv-start bs cs = record {
  old = perm_of_eq (unmatched-nil bs);
  cur = perm_of_eq (unmatched-nil cs);
}

module _ (bs cs : List BaselineFinding) (db : Distinct bs) (dc : Distinct cs) where
  pub Inv-pair :
      (b c : BaselineFinding) (ch : DiffFindingChange) (s : Progress)
      → ch.baseline ≡ some b
      → ch.current ≡ some c
      → IsIn b bs
      → IsIn c cs
      → contains s.matched_baseline b.id ≡ false
      → contains s.matched_current c.id ≡ false
      → Inv bs cs s
      → Inv bs cs (pair b c ch s)
  unfolding filter_map
  Inv-pair b c ch s eb ec mb mc nb nc inv = record {
    old = rw (filter_map-append) (
        rw (filter_map-cons-some (λ (x : DiffFindingChange). x.baseline) ch [] eb)
          (grow b _ _ _ bs (unmatched-insert s.matched_baseline b bs db mb nb) inv.old));
    cur = rw (filter_map-append) (
        rw (filter_map-cons-some (λ (x : DiffFindingChange). x.current) ch [] ec)
          (grow c _ _ _ cs (unmatched-insert s.matched_current c cs dc mc nc) inv.cur));
  }

  pub Inv-resolve :
      (b : BaselineFinding) (s : Progress)
      → IsIn b bs
      → contains s.matched_baseline b.id ≡ false
      → Inv bs cs s
      → Inv bs cs (resolve b s)
  unfolding filter_map
  Inv-resolve b s mb nb inv = record {
    old =
        rw (filter_map-append)
          (grow b _ _ _ bs (unmatched-insert s.matched_baseline b bs db mb nb) inv.old);
    cur = rw (filter_map-append) (rw append-nil inv.cur);
  }
