-- ===== src/Common/Order.antt =====
-- Comparisons that order their type, and how they are put together.
use Prim.Native.Nat.{Ordering, compare as compare_ℕ}
use Prim.Native.String.{String, compare}
use Prim.Native.String.compare
use mathlib.Core.Path.{◌≡◌, refl, ap}
use mathlib.Core.List.{List, [], ◌∷◌}
use native.Mathlib.Omega.{arith}
use text.Mathlib.TextEquality.{path_by_compare}
use session_scope.Common.Sorting.{then_with, IsPreorder}

abbrev pub reverse : Ordering → Ordering
reverse Ordering.lt = Ordering.gt
reverse Ordering.eq = Ordering.eq
reverse Ordering.gt = Ordering.lt

-- What a comparison of `Ord` satisfies.
pub record IsOrder {A : Type 0} (cmp : A → A → Ordering) : Type 0 where
  pub swap : (x y : A) → cmp y x ≡ reverse (cmp x y)
  pub congr : (x y z : A) → cmp x y ≡ Ordering.eq → cmp x z ≡ cmp y z
  pub lt_trans : (x y z : A) → cmp x y ≡ Ordering.lt → cmp y z ≡ Ordering.lt → cmp x z ≡ Ordering.lt

pub IsOrder-IsPreorder : {A : Type 0} (cmp : A → A → Ordering) → IsOrder cmp → IsPreorder cmp
IsOrder-IsPreorder cmp o = record {
  total = λ x y h. ground (arith, o.swap x y);
  trans = λ x y z h k.
      ground
        (arith, o.swap x y, o.swap x z, o.swap y z, o.congr x y z, o.congr y z x, o.lt_trans x y z);
}

pub compare_ℕ-IsOrder : IsOrder compare_ℕ
compare_ℕ-IsOrder = record {
  swap = λ x y. ground arith;
  congr = λ x y z h. ground arith;
  lt_trans = λ x y z h k. ground arith;
}

-- A comparison by a key.
pub by_key-IsOrder :
    {A B : Type 0} (cmp : B → B → Ordering) (f : A → B)
    → IsOrder cmp
    → IsOrder (λ (x y : A). cmp (f x) (f y))
by_key-IsOrder cmp f o = record {
  swap = λ x y. o.swap (f x) (f y);
  congr = λ x y z. o.congr (f x) (f y) (f z);
  lt_trans = λ x y z. o.lt_trans (f x) (f y) (f z);
}

-- The other way round.
pub reverse-IsOrder :
    {A : Type 0} (cmp : A → A → Ordering) → IsOrder cmp → IsOrder (λ (x y : A). cmp y x)
reverse-IsOrder cmp o = record {
  swap = λ x y. o.swap y x;
  congr = λ x y z h. ground (arith, o.congr x y z, o.swap x y, o.swap x z, o.swap y z);
  lt_trans = λ x y z h k. o.lt_trans z y x k h;
}

pub then_with-IsOrder :
    {A : Type 0} (c d : A → A → Ordering)
    → IsOrder c
    → IsOrder d
    → IsOrder (λ (x y : A). then_with (c x y) (d x y))
then_with-IsOrder c d o p = record {
  swap = λ x y. ground (arith, o.swap x y, p.swap x y);
  congr = λ x y z h. ground (arith, o.congr x y z, p.congr x y z);
  lt_trans = λ x y z h k. ground (
    arith,
    o.lt_trans x y z,
    p.lt_trans x y z,
    o.congr x y z,
    o.congr y z x,
    o.swap x y,
    o.swap x z,
    o.swap y z,
  );
}

compare_swap : (s t : String) → compare t s ≡ reverse (compare s t)
compare_swap String.[] String.[] = rw compare.nil-nil refl
compare_swap String.[] (String.◌∷◌ d t) = rw (compare.nil-cons d t, compare.cons-nil d t) refl
compare_swap (String.◌∷◌ c s) String.[] = rw (compare.nil-cons c s, compare.cons-nil c s) refl
compare_swap (String.◌∷◌ c s) (String.◌∷◌ d t) =
    let one = compare.cons-cons c d s t in
    let two = compare.cons-cons d c t s in
    let rest = compare_swap s t in ground (arith, one, two, rest)

compare_congr : (s t u : String) → compare s t ≡ Ordering.eq → compare s u ≡ compare t u
compare_congr s t u h = ap (λ v. compare v u) (path_by_compare s t h)

compare_lt_trans :
    (s t u : String)
    → compare s t ≡ Ordering.lt
    → compare t u ≡ Ordering.lt
    → compare s u ≡ Ordering.lt
compare_lt_trans String.[] String.[] u h k = absurd (cc (h, compare.nil-nil))
compare_lt_trans String.[] (String.◌∷◌ d t) String.[] h k = absurd (cc (k, compare.cons-nil d t))
compare_lt_trans String.[] (String.◌∷◌ d t) (String.◌∷◌ e u) h k = compare.nil-cons e u
compare_lt_trans (String.◌∷◌ c s) String.[] u h k = absurd (cc (h, compare.cons-nil c s))
compare_lt_trans (String.◌∷◌ c s) (String.◌∷◌ d t) String.[] h k =
    absurd (cc (k, compare.cons-nil d t))
compare_lt_trans (String.◌∷◌ c s) (String.◌∷◌ d t) (String.◌∷◌ e u) h k =
    let one = compare.cons-cons c d s t in
    let two = compare.cons-cons d e t u in
    let three = compare.cons-cons c e s u in
    let rest = compare_lt_trans s t u in ground (arith, one, two, three, rest)

pub compare_text-IsOrder : IsOrder compare
compare_text-IsOrder = record {
  swap = compare_swap;
  congr = compare_congr;
  lt_trans = compare_lt_trans;
}

-- `Ord` of sequences: the first elements that differ decide, and a beginning is less.
module _ {A : Type 0} (cmp : A → A → Ordering) where
  unfoldable pub compare_list : List A → List A → Ordering
  compare_list [] [] = Ordering.eq
  compare_list [] (y ∷ ys) = Ordering.lt
  compare_list (x ∷ xs) [] = Ordering.gt
  compare_list (x ∷ xs) (y ∷ ys) = then_with (cmp x y) (compare_list xs ys)

  module _ (o : IsOrder cmp) where
    compare_list_swap : (xs ys : List A) → compare_list ys xs ≡ reverse (compare_list xs ys)
    unfolding compare_list
    compare_list_swap [] [] = refl
    compare_list_swap [] (y ∷ ys) = refl
    compare_list_swap (x ∷ xs) [] = refl
    compare_list_swap (x ∷ xs) (y ∷ ys) =
        let rest = compare_list_swap xs ys in ground (arith, o.swap x y, rest)

    compare_list_congr :
        (xs ys zs : List A)
        → compare_list xs ys ≡ Ordering.eq
        → compare_list xs zs ≡ compare_list ys zs
    unfolding compare_list
    compare_list_congr [] [] zs h = refl
    compare_list_congr [] (y ∷ ys) zs h = absurd (cc h)
    compare_list_congr (x ∷ xs) [] zs h = absurd (cc h)
    compare_list_congr (x ∷ xs) (y ∷ ys) [] h = refl
    compare_list_congr (x ∷ xs) (y ∷ ys) (z ∷ zs) h =
        let rest = compare_list_congr xs ys zs in ground (arith, o.congr x y z, rest)

    compare_list_lt_trans :
        (xs ys zs : List A)
        → compare_list xs ys ≡ Ordering.lt
        → compare_list ys zs ≡ Ordering.lt
        → compare_list xs zs ≡ Ordering.lt
    unfolding compare_list
    compare_list_lt_trans [] [] zs h k = absurd (cc h)
    compare_list_lt_trans [] (y ∷ ys) [] h k = absurd (cc k)
    compare_list_lt_trans [] (y ∷ ys) (z ∷ zs) h k = refl
    compare_list_lt_trans (x ∷ xs) [] zs h k = absurd (cc h)
    compare_list_lt_trans (x ∷ xs) (y ∷ ys) [] h k = absurd (cc k)
    compare_list_lt_trans (x ∷ xs) (y ∷ ys) (z ∷ zs) h k =
        let rest = compare_list_lt_trans xs ys zs in
        ground (
          arith,
          rest,
          o.lt_trans x y z,
          o.congr x y z,
          o.congr y z x,
          o.swap x y,
          o.swap x z,
          o.swap y z,
        )

    pub compare_list-IsOrder : IsOrder compare_list
    compare_list-IsOrder = record {
      swap = compare_list_swap;
      congr = compare_list_congr;
      lt_trans = compare_list_lt_trans;
    }
