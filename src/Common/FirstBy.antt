-- ===== src/Common/FirstBy.antt =====
-- Of the elements that pass a test, the first of each key: the `seen.insert(key)` of the classifiers.
use mathlib.Core.Path.{◌≡◌, refl, sym, subst}
use mathlib.Core.Logic.{inl, inr}
use mathlib.Core.Bool.{Bool, true, false, not, ◌&&◌, ◌||◌}
use mathlib.Core.List.{List, [], ◌∷◌, map}
use native.Mathlib.Omega.{arith}
use session_scope.Common.Equality.{Eq, ◌==◌, eq_self, contains, if◌then◌else◌, Bool-cases}
use session_scope.Common.Lists.{All, IsIn}
use session_scope.Common.Sets.{insert, contains-insert}

module _ {A K : Type 0} ⦃e : Eq K⦄ (key : A → K) where
  -- Elements whose keys all differ.
  abbrev pub HasDistinctKeys : List A → Type 0
  HasDistinctKeys [] = Unit
  HasDistinctKeys (r ∷ rs) = All (λ (s : A). (key s == key r) ≡ false) rs × HasDistinctKeys rs

module _ {A K : Type 0} ⦃e : Eq K⦄ (key : A → K) (test : A → Bool) where
  abbrev pub is_taken : A → List K → Bool
  is_taken t seen = test t && not (contains seen (key t))

  unfoldable pub first_by : List A → List K → List A
  first_by [] seen = []
  first_by (t ∷ ts) seen =
      let rest = first_by ts (if is_taken t seen then insert (key t) seen else seen) in
      if is_taken t seen then t ∷ rest else rest

  unseen_before :
      (t : A) (seen : List K) (rs : List A)
      → All (λ (r : A). contains (insert (key t) seen) (key r) ≡ false) rs
      → All (λ (r : A). contains seen (key r) ≡ false) rs
  unseen_before t seen [] h = tt
  unseen_before t seen (r ∷ rs) h =
      (ground (arith, contains-insert (key t) (key r) seen, h.0), unseen_before t seen rs h.1)

  apart_after :
      (t : A) (seen : List K) (rs : List A)
      → All (λ (r : A). contains (insert (key t) seen) (key r) ≡ false) rs
      → All (λ (r : A). (key r == key t) ≡ false) rs
  apart_after t seen [] h = tt
  apart_after t seen (r ∷ rs) h =
      (ground (arith, contains-insert (key t) (key r) seen, h.0), apart_after t seen rs h.1)

  first_by-unseen :
      (ts : List A) (seen : List K)
      → All (λ (r : A). contains seen (key r) ≡ false) (first_by ts seen)
  unfolding first_by
  first_by-unseen [] seen = tt
  first_by-unseen (t ∷ ts) seen = elim (Bool-cases (is_taken t seen)) [
    | inl taken ↦ rw taken (
      ground arith,
      unseen_before t seen (first_by ts (insert (key t) seen))
          (first_by-unseen ts (insert (key t) seen)),
    )
    | inr passed ↦ rw passed (first_by-unseen ts seen)
  ]

  pub first_by-HasDistinctKeys :
      (ts : List A) (seen : List K) → HasDistinctKeys key (first_by ts seen)
  unfolding first_by
  first_by-HasDistinctKeys [] seen = tt
  first_by-HasDistinctKeys (t ∷ ts) seen = elim (Bool-cases (is_taken t seen)) [
    | inl taken ↦ rw taken (
      apart_after t seen _ (first_by-unseen ts (insert (key t) seen)),
      first_by-HasDistinctKeys ts (insert (key t) seen),
    )
    | inr passed ↦ rw passed (first_by-HasDistinctKeys ts seen)
  ]

  pub first_by-test :
      (ts : List A) (seen : List K) → All (λ (r : A). test r ≡ true) (first_by ts seen)
  unfolding first_by
  first_by-test [] seen = tt
  first_by-test (t ∷ ts) seen = elim (Bool-cases (is_taken t seen)) [
    | inl taken ↦ rw taken (ground arith, first_by-test ts (insert (key t) seen))
    | inr passed ↦ rw passed (first_by-test ts seen)
  ]

  pub first_by-taken :
      (t : A) (ts : List A) (seen : List K)
      → is_taken t seen ≡ true
      → first_by (t ∷ ts) seen ≡ t ∷ first_by ts (insert (key t) seen)
  unfolding first_by
  first_by-taken t ts seen e = rw e refl

  pub first_by-passed :
      (t : A) (ts : List A) (seen : List K)
      → is_taken t seen ≡ false
      → first_by (t ∷ ts) seen ≡ first_by ts seen
  unfolding first_by
  first_by-passed t ts seen e = rw e refl

  -- An element that passes has its key seen before, or taken.
  abbrev pub Complete : List K → List A → List A → Type 0
  Complete seen rs =
      All
        (λ (t : A). test t ≡ true → (contains seen (key t) || contains (map key rs) (key t)) ≡ true)

  later_seen :
      (t : A) (seen : List K) (rs ts : List A)
      → Complete (insert (key t) seen) rs ts
      → Complete seen (t ∷ rs) ts
  later_seen t seen rs [] h = tt
  later_seen t seen rs (u ∷ us) h = (
    λ e. ground (arith, contains-insert (key t) (key u) seen, h.0 e),
    later_seen t seen rs us h.1,
  )

  pub first_by-Complete : (ts : List A) (seen : List K) → Complete seen (first_by ts seen) ts
  first_by-Complete [] seen = tt
  first_by-Complete (t ∷ ts) seen = elim (Bool-cases (is_taken t seen)) [
    | inl taken ↦
        subst (λ rs. Complete seen rs (t ∷ ts)) (sym (first_by-taken t ts seen taken))
          (
            λ h. ground (arith, eq_self (key t)),
            later_seen t seen _ ts (first_by-Complete ts (insert (key t) seen)),
          )
    | inr passed ↦
        subst (λ rs. Complete seen rs (t ∷ ts)) (sym (first_by-passed t ts seen passed))
          (λ h. ground arith, first_by-Complete ts seen)
  ]

  pub first_by-IsIn : (ts : List A) (seen : List K) (a : A) → IsIn a (first_by ts seen) → IsIn a ts
  unfolding first_by
  first_by-IsIn [] seen a m = m
  first_by-IsIn (t ∷ ts) seen a m = elim (Bool-cases (is_taken t seen)) [
    | inl taken ↦ elim (subst (IsIn a) (first_by-taken t ts seen taken) m) [
      | inl same ↦ inl same
      | inr later ↦ inr (first_by-IsIn ts (insert (key t) seen) a later)
    ]
    | inr passed ↦
        inr (first_by-IsIn ts seen a (subst (IsIn a) (first_by-passed t ts seen passed) m))
  ]
