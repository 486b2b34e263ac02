-- ===== src/Common/Distinct.antt =====
-- Lists whose elements have different keys, and what keeps them so.
use Prim.Native.Nat.{suc, Ordering}
use Prim.Native.String.{String}
use mathlib.Core.Path.{◌≡◌, refl, ap, ◌∙◌, sym}
use mathlib.Core.Logic.{◌≢◌, inl, inr}
use mathlib.Core.Bool.{false}
use mathlib.Core.List
use mathlib.Core.List.{List, [], ◌∷◌, map, Perm}
use mathlib.Core.List.Perm
use native.Mathlib.Omega.{arith}
use native.Mathlib.Bridge.{from_ℕ}
use session_scope.Common.Equality.{◌==◌, string_eq, eq_self}
use session_scope.Common.Lists.{All, IsIn, All-IsIn, length}
use session_scope.Common.Sorting.{insert_by, sort_by}

module _ {A : Type 0} (key : A → String) where
  -- No element of the list has the key.
  abbrev pub Apart : String → List A → Type 0
  Apart k = All (λ (a : A). (key a == k) ≡ false)

  abbrev pub DistinctBy : List A → Type 0
  DistinctBy [] = Unit
  DistinctBy (x ∷ xs) = Apart (key x) xs × DistinctBy xs

  IsIn-Apart : (k : String) (a : A) (xs : List A) → Apart k xs → IsIn a xs → key a ≢ k
  IsIn-Apart k a xs h m same = cc (eq_self k, All-IsIn _ a xs h m, ap (λ (x : String). x == k) same)

  -- Two elements of the list with one key are the same.
  pub DistinctBy-injective :
      (xs : List A) (a b : A) → DistinctBy xs → IsIn a xs → IsIn b xs → key a ≡ key b → a ≡ b
  DistinctBy-injective [] a b d i j h = elim i [ ]
  DistinctBy-injective (x ∷ xs) a b d (inl i) (inl j) h = i ∙ sym j
  DistinctBy-injective (x ∷ xs) a b d (inl i) (inr j) h =
      absurd (IsIn-Apart (key x) b xs d.0 j (sym h ∙ ap key i))
  DistinctBy-injective (x ∷ xs) a b d (inr i) (inl j) h =
      absurd (IsIn-Apart (key x) a xs d.0 i (h ∙ ap key j))
  DistinctBy-injective (x ∷ xs) a b d (inr i) (inr j) h = DistinctBy-injective xs a b d.1 i j h

  module _ (cmp : A → A → Ordering) where
    Apart-insert_by :
        (k : String) (x : A) (xs : List A)
        → (key x == k) ≡ false
        → Apart k xs
        → Apart k (insert_by cmp x xs)
    unfolding insert_by
    Apart-insert_by k x [] h a = (h, tt)
    Apart-insert_by k x (y ∷ ys) h a = ground (arith, Apart-insert_by k x ys h a.1)

    DistinctBy-insert_by :
        (x : A) (xs : List A) → DistinctBy (x ∷ xs) → DistinctBy (insert_by cmp x xs)
    unfolding insert_by
    DistinctBy-insert_by x [] d = d
    DistinctBy-insert_by x (y ∷ ys) d = ground (
      arith,
      DistinctBy-insert_by x ys (d.0.1, d.1.1),
      Apart-insert_by (key y) x ys (ground arith) d.1.0,
    )

    pub DistinctBy-sort_by : (xs : List A) → DistinctBy xs → DistinctBy (sort_by cmp xs)
    unfolding sort_by
    DistinctBy-sort_by [] d = tt
    DistinctBy-sort_by (x ∷ xs) d =
        DistinctBy-insert_by x (sort_by cmp xs)
          (Apart-sort_by (key x) xs d.0, DistinctBy-sort_by xs d.1)
      where
        Apart-sort_by : (k : String) (ys : List A) → Apart k ys → Apart k (sort_by cmp ys)
        Apart-sort_by k [] a = tt
        Apart-sort_by k (y ∷ ys) a =
            Apart-insert_by k y (sort_by cmp ys) a.0 (Apart-sort_by k ys a.1)

module _ {A B : Type 0} (key : A → String) (key' : B → String) (f : A → B)
    (same : (a : A) → key' (f a) ≡ key a) where
  Apart-map : (k : String) (xs : List A) → Apart key k xs → Apart key' k (map f xs)
  Apart-map k [] a = tt
  Apart-map k (x ∷ xs) a = (rw (same x) a.0, Apart-map k xs a.1)

  -- A map that keeps the keys keeps them different.
  pub DistinctBy-map : (xs : List A) → DistinctBy key xs → DistinctBy key' (map f xs)
  DistinctBy-map [] d = tt
  DistinctBy-map (x ∷ xs) d = (rw (same x) (Apart-map (key x) xs d.0), DistinctBy-map xs d.1)

module _ {A : Type 0} where
  from_ℕ-length : (xs : List A) → from_ℕ (List.length xs) ≡ length xs
  from_ℕ-length [] = refl
  from_ℕ-length (x ∷ xs) = ap suc (from_ℕ-length xs)

  pub length-perm : (xs ys : List A) → Perm xs ys → length xs ≡ length ys
  length-perm xs ys p = sym (from_ℕ-length xs) ∙ (ap from_ℕ (Perm.length-eq p) ∙ from_ℕ-length ys)
