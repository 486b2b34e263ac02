-- ===== src/Core/Baseline/Passes.antt =====
-- Each pass of the diff keeps the invariant, and after the last nothing is left unmatched.
use mathlib.Core.List.{Perm, filter_map, filter_map-append, append_assoc, append-nil}
use mathlib.Core.List.Perm
use session_scope.Common.{
  String, ◌≡◌, refl, sym, ◌∙◌, ap, ◌⊎◌, true, false, not, ◌||◌, Option, none, some, List, [], ◌∷◌,
  ◌++◌, map, arith, ◌==◌, string_eq, contains, Bool-cases, Option-cases, inl, inr,
}
use session_scope.Common.Lists.{find-IsIn, IsIn, All, All-IsIn, IsIn-All}
use session_scope.Common.Sets.{
  get, collect_map, push, insert, contains-insert, AllGroups, AllGroups-push, All-get,
}
use session_scope.Model.Baseline.{BaselineFinding, DiffFindingChange}
use session_scope.Core.Baseline.Diff.{
  Key, key_eq, fingerprint_key, by_id, by_fingerprint, find_fingerprint_match, Progress, start,
  pair, moved, settle, fingerprint_step, match_by_id, match_by_fingerprint, fresh, add_new,
  diff_findings, compare_matched,
}
use session_scope.Core.Baseline.Partition.{
  Distinct, unmatched, baselines, currents, Inv, Inv-start, Inv-pair, Inv-resolve, perm_of_eq,
}

-- Looking a key up in the map of a list finds an element of it, or of what the map held before.
get-collect-IsIn :
    (fs : List BaselineFinding) (m : List (String × BaselineFinding)) (k : String)
    (c : BaselineFinding)
    → get (collect_map m (map (λ f. (f.id, f)) fs)) k ≡ some c
    → (IsIn c fs × (c.id ≡ k)) ⊎ (get m k ≡ some c)
unfolding collect_map get
get-collect-IsIn [] m k c h = inr h
get-collect-IsIn (f ∷ fs) m k c h = ground (arith, get-collect-IsIn fs ((f.id, f) ∷ m) k c)

get-by_id :
    (cs : List BaselineFinding) (k : String) (c : BaselineFinding)
    → get (by_id cs) k ≡ some c
    → IsIn c cs × (c.id ≡ k)
unfolding by_id get
get-by_id cs k c h = elim (get-collect-IsIn cs [] k c h) [
  | inl found ↦ found
  | inr nothing ↦ absurd (cc nothing)
]

-- The groups of the fingerprint map hold elements of the list.
AllGroups-by_fingerprint :
    (P : BaselineFinding → Type 0) (fs : List BaselineFinding)
    (m : List (Key × List BaselineFinding))
    → All P fs
    → AllGroups P m
    → AllGroups P (by_fingerprint m fs)
unfolding by_fingerprint
AllGroups-by_fingerprint P [] m h g = g
AllGroups-by_fingerprint P (f ∷ fs) m h g =
    AllGroups-by_fingerprint P fs (push (fingerprint_key f) f m) h.1
      (AllGroups-push P (fingerprint_key f) f m h.0 g)

-- A fingerprint match is an unmatched finding of the list.
find_fingerprint_match-IsIn :
    (cs : List BaselineFinding) (b c : BaselineFinding) (seen : List String)
    → find_fingerprint_match b (by_fingerprint [] cs) seen ≡ some c
    → IsIn c cs × (contains seen c.id ≡ false)
unfolding find_fingerprint_match
find_fingerprint_match-IsIn cs b c seen h =
    elim (Option-cases (get (by_fingerprint [] cs) (fingerprint_key b))) [
      | inl nothing ↦ ground arith
      | inr (ws, found) ↦
          let groups =
            AllGroups-by_fingerprint (λ f. IsIn f cs) cs [] (IsIn-All _ cs (λ a m. m)) tt in
          let (inside, unseen) =
            find-IsIn (λ (current : BaselineFinding). not (contains seen current.id)) c ws
              (ground arith) in
          (All-IsIn _ c ws (All-get _ _ ws _ groups found) inside, ground arith)
    ]

module _ (bs cs : List BaselineFinding) (db : Distinct bs) (dc : Distinct cs) where
  -- No id of the list is in the set.
  abbrev Unseen : List String → List BaselineFinding → Type 0
  Unseen seen = All (λ (b : BaselineFinding). contains seen b.id ≡ false)

  Unseen-insert :
      (id : String) (seen : List String) (fs : List BaselineFinding)
      → All (λ (g : BaselineFinding). (g.id == id) ≡ false) fs
      → Unseen seen fs
      → Unseen (insert id seen) fs
  Unseen-insert id seen [] a u = tt
  Unseen-insert id seen (f ∷ fs) a u =
      (ground (arith, contains-insert id f.id seen), Unseen-insert id seen fs a.1 u.1)

  match_by_id-Inv :
      (fs : List BaselineFinding) (s : Progress)
      → All (λ f. IsIn f bs) fs
      → Distinct fs
      → Unseen s.matched_baseline fs
      → Unseen s.matched_current fs
      → Inv bs cs s
      → Inv bs cs (match_by_id (by_id cs) fs s)
  unfolding match_by_id
  match_by_id-Inv [] s i d ub uc inv = inv
  match_by_id-Inv (b ∷ fs) s i d ub uc inv = elim (Option-cases (get (by_id cs) b.id)) [
    | inl nothing ↦ rw nothing (match_by_id-Inv fs s i.1 d.1 ub.1 uc.1 inv)
    | inr (c, found) ↦
        let (inside, same) = get-by_id cs b.id c found in
        let s' = pair b c (compare_matched b c) s in
        rw found (
          match_by_id-Inv fs s' i.1 d.1 (Unseen-insert b.id s.matched_baseline fs d.0 ub.1)
            (Unseen-insert c.id s.matched_current fs (rw same d.0) uc.1)
            (Inv-pair bs cs db dc b c (compare_matched b c) s refl refl i.0 inside ub.0
              (rw same uc.0) inv))
  ]

  settle-Inv :
      (b : BaselineFinding) (o : Option BaselineFinding) (s : Progress)
      → find_fingerprint_match b (by_fingerprint [] cs) s.matched_current ≡ o
      → IsIn b bs
      → contains s.matched_baseline b.id ≡ false
      → Inv bs cs s
      → Inv bs cs (settle b o s)
  settle-Inv b none s e i new inv = Inv-resolve bs cs db dc b s i new inv
  settle-Inv b (some c) s e i new inv =
      let (inside, unseen) = find_fingerprint_match-IsIn cs b c s.matched_current e in
      Inv-pair bs cs db dc b c (moved b c) s refl refl i inside new unseen inv

  fingerprint_step-Inv :
      (b : BaselineFinding) (s : Progress)
      → IsIn b bs
      → Inv bs cs s
      → Inv bs cs (fingerprint_step (by_fingerprint [] cs) b s)
  unfolding fingerprint_step
  fingerprint_step-Inv b s i inv = elim (Bool-cases (contains s.matched_baseline b.id)) [
    | inl old ↦ rw old inv
    | inr new ↦ rw new (settle-Inv b _ s refl i new inv)
  ]

  match_by_fingerprint-Inv :
      (fs : List BaselineFinding) (s : Progress)
      → All (λ f. IsIn f bs) fs
      → Inv bs cs s
      → Inv bs cs (match_by_fingerprint (by_fingerprint [] cs) fs s)
  unfolding match_by_fingerprint
  match_by_fingerprint-Inv [] s i inv = inv
  match_by_fingerprint-Inv (b ∷ fs) s i inv =
      match_by_fingerprint-Inv fs _ i.1 (fingerprint_step-Inv b s i.0 inv)

module _ (groups : List (Key × List BaselineFinding)) where
  settle-marks :
      (b : BaselineFinding) (o : Option BaselineFinding) (s : Progress) (id : String)
      → contains (settle b o s).matched_baseline id ≡ (b.id == id || contains s.matched_baseline id)
  settle-marks b none s id = contains-insert b.id id s.matched_baseline
  settle-marks b (some c) s id = contains-insert b.id id s.matched_baseline

  -- A step marks its finding, and a mark stays.
  fingerprint_step-marks :
      (b : BaselineFinding) (s : Progress) (id : String)
      → contains (fingerprint_step groups b s).matched_baseline id
        ≡ (b.id == id || contains s.matched_baseline id)
  unfolding fingerprint_step
  fingerprint_step-marks b s id =
      let o = find_fingerprint_match b groups s.matched_current in
      ground (arith, settle-marks b o s id, ap (contains s.matched_baseline) {x = b.id} {y = id})

  match_by_fingerprint-keeps :
      (fs : List BaselineFinding) (s : Progress) (id : String)
      → contains s.matched_baseline id ≡ true
      → contains (match_by_fingerprint groups fs s).matched_baseline id ≡ true
  unfolding match_by_fingerprint
  match_by_fingerprint-keeps [] s id h = h
  match_by_fingerprint-keeps (b ∷ fs) s id h =
      match_by_fingerprint-keeps fs (fingerprint_step groups b s) id
        (ground (arith, fingerprint_step-marks b s id))

  match_by_fingerprint-marks :
      (fs : List BaselineFinding) (s : Progress)
      → All
          (λ (b : BaselineFinding).
            contains (match_by_fingerprint groups fs s).matched_baseline b.id ≡ true)
          fs
  unfolding match_by_fingerprint
  match_by_fingerprint-marks [] s = tt
  match_by_fingerprint-marks (b ∷ fs) s = (
    match_by_fingerprint-keeps fs (fingerprint_step groups b s) b.id
        (ground (arith, fingerprint_step-marks b s b.id)),
    match_by_fingerprint-marks fs (fingerprint_step groups b s),
  )

unmatched-marked :
    (seen : List String) (fs : List BaselineFinding)
    → All (λ (b : BaselineFinding). contains seen b.id ≡ true) fs
    → unmatched seen fs ≡ []
unmatched-marked seen [] h = refl
unmatched-marked seen (f ∷ fs) h = rw h.0 (unmatched-marked seen fs h.1)

currents-add_new :
    (seen : List String) (cs : List BaselineFinding) (changes : List DiffFindingChange)
    → currents (add_new seen cs changes) ≡ currents changes ++ unmatched seen cs
unfolding add_new filter_map
currents-add_new seen [] changes = rw append-nil
currents-add_new seen (c ∷ cs) changes = elim (Bool-cases (contains seen c.id)) [
  | inl old ↦ rw old (currents-add_new seen cs changes)
  | inr new ↦ rw new (
      currents-add_new seen cs (changes ++ fresh c ∷ [])
      ∙ rw filter_map-append (append_assoc (currents changes) (c ∷ []) (unmatched seen cs)))
]

baselines-add_new :
    (seen : List String) (cs : List BaselineFinding) (changes : List DiffFindingChange)
    → baselines (add_new seen cs changes) ≡ baselines changes
unfolding add_new filter_map
baselines-add_new seen [] changes = refl
baselines-add_new seen (c ∷ cs) changes = elim (Bool-cases (contains seen c.id)) [
  | inl old ↦ rw old (baselines-add_new seen cs changes)
  | inr new ↦
      rw new
        (baselines-add_new seen cs (changes ++ fresh c ∷ []) ∙ rw filter_map-append (rw append-nil))
]

Unseen-nil :
    (fs : List BaselineFinding) → All (λ (b : BaselineFinding). contains [] b.id ≡ false) fs
Unseen-nil [] = tt
Unseen-nil (f ∷ fs) = (refl, Unseen-nil fs)

-- The diff names each baseline finding once and each current finding once, when ids differ.
pub diff_findings-perm :
    (bs cs : List BaselineFinding)
    → Distinct bs
    → Distinct cs
    → Perm (baselines (diff_findings bs cs)) bs × Perm (currents (diff_findings bs cs)) cs
unfolding diff_findings
diff_findings-perm bs cs db dc =
    let members = IsIn-All (λ f. IsIn f bs) bs (λ a m. m) in
    let s = match_by_id (by_id cs) bs start in
    let first =
      match_by_id-Inv bs cs db dc bs start members db (Unseen-nil bs) (Unseen-nil bs)
        (Inv-start bs cs) in
    let s' = match_by_fingerprint (by_fingerprint [] cs) bs s in
    let second = match_by_fingerprint-Inv bs cs db dc bs s members first in
    let groups = by_fingerprint [] cs in
    let done = unmatched-marked s'.matched_baseline bs (match_by_fingerprint-marks groups bs s) in
    (
      rw (baselines-add_new s'.matched_current cs s'.changes) (
          Perm.trans
            (perm_of_eq (
              sym (append-nil (baselines s'.changes))
              ∙ ap (λ l. baselines s'.changes ++ l) (sym done)))
            second.old),
      rw (currents-add_new s'.matched_current cs s'.changes) second.cur,
    )
