-- ===== src/Common/Sorting.antt =====
-- Rust's stable `sort_by` over a comparison, and `dedup` of neighbours.
use Prim.Native.Nat.{Ordering, suc}
-- `Ordering::then_with`.
pub use Prim.Native.String.{then as then_with}
use mathlib.Core.Path.{◌≡◌, refl}
use mathlib.Core.Logic.{◌↔◌, inl, inr}
use mathlib.Core.Bool.{Bool, true, false}
use mathlib.Core.List.{List, [], ◌∷◌, Perm}
use mathlib.Core.List.Perm
use native.Mathlib.Omega.{arith}
use session_scope.Common.Equality.{if◌then◌else◌, Eq, ◌==◌, Bool-cases}
use session_scope.Common.Lists.{All, IsIn, length}

abbrev pub is_gt : Ordering → Bool
is_gt Ordering.gt = true
is_gt _ = false

module _ {ℓ} {A : Type ℓ} (cmp : A → A → Ordering) where
  -- A new element goes before its equals, so equals keep their order.
  unfoldable pub insert_by : A → List A → List A
  insert_by x [] = x ∷ []
  insert_by x (y ∷ ys) = if is_gt (cmp x y) then y ∷ insert_by x ys else x ∷ y ∷ ys

  unfoldable pub sort_by : List A → List A
  unfolding insert_by
  sort_by [] = []
  sort_by (x ∷ xs) = insert_by x (sort_by xs)

  abbrev pub Le : A → A → Type 0
  Le x y = is_gt (cmp x y) ≡ false

  abbrev pub IsSorted : List A → Type 0
  IsSorted [] = Unit
  IsSorted (x ∷ xs) = All (Le x) xs × IsSorted xs

  -- What a comparison must satisfy for its sort to order the list.
  pub record IsPreorder : Type ℓ where
    pub total : (x y : A) → is_gt (cmp x y) ≡ true → Le y x
    pub trans : (x y z : A) → Le x y → Le y z → Le x z

  insert_by-perm : (x : A) (xs : List A) → Perm (insert_by x xs) (x ∷ xs)
  unfolding insert_by
  insert_by-perm x [] = Perm.refl _
  insert_by-perm x (y ∷ ys) = elim (Bool-cases (is_gt (cmp x y))) [
    | inl after ↦ rw after (Perm.trans (Perm.cons y (insert_by-perm x ys)) (Perm.swap x y ys))
    | inr before ↦ rw before (Perm.refl _)
  ]

  pub sort_by-perm : (xs : List A) → Perm (sort_by xs) xs
  unfolding sort_by
  sort_by-perm [] = Perm.refl _
  sort_by-perm (x ∷ xs) = Perm.trans (insert_by-perm x (sort_by xs)) (Perm.cons x (sort_by-perm xs))

  module _ (ord : IsPreorder) where
    All-le : (x y : A) (ys : List A) → Le x y → All (Le y) ys → All (Le x) ys
    All-le x y [] h a = tt
    All-le x y (z ∷ zs) h a = (ord.trans x y z h a.0, All-le x y zs h a.1)

    All-insert_by : (z x : A) (ys : List A) → Le z x → All (Le z) ys → All (Le z) (insert_by x ys)
    unfolding insert_by
    All-insert_by z x [] h a = (h, tt)
    All-insert_by z x (y ∷ ys) h a = ground (arith, All-insert_by z x ys h a.1)

    insert_by-IsSorted : (x : A) (xs : List A) → IsSorted xs → IsSorted (insert_by x xs)
    unfolding insert_by
    insert_by-IsSorted x [] s = (tt, tt)
    insert_by-IsSorted x (y ∷ ys) s =
        ground
          (arith, insert_by-IsSorted x ys s.1, ord.total x y, All-insert_by y x ys, All-le x y ys)

    pub sort_by-IsSorted : (xs : List A) → IsSorted (sort_by xs)
    unfolding sort_by
    sort_by-IsSorted [] = tt
    sort_by-IsSorted (x ∷ xs) = insert_by-IsSorted x (sort_by xs) (sort_by-IsSorted xs)

  -- Sorting a sorted list changes nothing.
  pub sort_by_of_sorted : (xs : List A) → IsSorted xs → sort_by xs ≡ xs
  unfolding sort_by
  sort_by_of_sorted [] s = refl
  sort_by_of_sorted (x ∷ []) s = refl
  sort_by_of_sorted (x ∷ y ∷ ys) s = rw (sort_by_of_sorted (y ∷ ys) s.1, s.0.0) refl

module _ {ℓ} {A : Type ℓ} ⦃e : Eq A⦄ where
  abbrev dedup_onto : A → List A → List A
  dedup_onto x [] = x ∷ []
  dedup_onto x (y ∷ ys) = if x == y then y ∷ ys else x ∷ y ∷ ys

  -- `Vec::dedup`: one element of each run of equal neighbours stays.
  unfoldable pub dedup : List A → List A
  dedup [] = []
  dedup (x ∷ xs) = dedup_onto x (dedup xs)

module _ {A : Type 0} ⦃e : Eq A⦄ where
  IsIn-dedup_onto : (a x : A) (ys : List A) → IsIn a (dedup_onto x ys) ↔ IsIn a (x ∷ ys)
  IsIn-dedup_onto a x [] = ground arith
  IsIn-dedup_onto a x (y ∷ ys) = ground arith

  pub IsIn-dedup : (a : A) (xs : List A) → IsIn a (dedup xs) ↔ IsIn a xs
  unfolding dedup
  IsIn-dedup a [] = ground arith
  IsIn-dedup a (x ∷ xs) = ground (arith, IsIn-dedup_onto a x (dedup xs), IsIn-dedup a xs)

module _ {A : Type 0} (cmp : A → A → Ordering) where
  IsIn-insert_by : (a x : A) (xs : List A) → IsIn a (insert_by cmp x xs) ↔ IsIn a (x ∷ xs)
  unfolding insert_by
  IsIn-insert_by a x [] = ground arith
  IsIn-insert_by a x (y ∷ ys) = ground (arith, IsIn-insert_by a x ys)

  pub IsIn-sort_by : (a : A) (xs : List A) → IsIn a (sort_by cmp xs) ↔ IsIn a xs
  unfolding sort_by
  IsIn-sort_by a [] = ground arith
  IsIn-sort_by a (x ∷ xs) = ground (arith, IsIn-insert_by a x (sort_by cmp xs), IsIn-sort_by a xs)

  pub length-sort_by : (xs : List A) → length (sort_by cmp xs) ≡ length xs
  unfolding sort_by
  length-sort_by [] = refl
  length-sort_by (x ∷ xs) = omega (arith, length-insert_by x (sort_by cmp xs), length-sort_by xs)
    where
      length-insert_by : (y : A) (ys : List A) → length (insert_by cmp y ys) ≡ suc (length ys)
      length-insert_by y [] = refl
      length-insert_by y (z ∷ zs) = ground (arith, length-insert_by y zs)

module _ {A : Type 0} (P : A → Type 0) (cmp : A → A → Ordering) where
  All-insert_by_of : (x : A) (xs : List A) → P x → All P xs → All P (insert_by cmp x xs)
  unfolding insert_by
  All-insert_by_of x [] h a = (h, tt)
  All-insert_by_of x (y ∷ ys) h a = elim (Bool-cases (is_gt (cmp x y))) [
    | inl after ↦ rw after (a.0, All-insert_by_of x ys h a.1)
    | inr before ↦ rw before (h, a)
  ]

  pub All-sort_by : (xs : List A) → All P xs → All P (sort_by cmp xs)
  unfolding sort_by
  All-sort_by [] a = tt
  All-sort_by (x ∷ xs) a = All-insert_by_of x (sort_by cmp xs) a.0 (All-sort_by xs a.1)
