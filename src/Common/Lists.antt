-- ===== src/Common/Lists.antt =====
-- Lists measured by native numbers, Boolean iterator adaptors, and membership by recursion.
use Prim.Native.Nat.{ℕ, zero, suc, ◌+◌, ◌-◌, ◌≤◌, min}
use mathlib.Core.Path.{◌≡◌, refl, ap, sym, subst}
use mathlib.Core.Logic.{◌⊎◌, ◌↔◌, inl, inr}
use mathlib.Core.Bool.{Bool, true, false, ◌&&◌, ◌||◌}
use mathlib.Core.Option.{Option, none, some, some-injective}
use mathlib.Core.List.{List, [], ◌∷◌, ◌++◌, map}
use native.Mathlib.Omega.{arith}
use session_scope.Common.Equality.{if◌then◌else◌, Eq, contains, Bool-cases}

module _ {ℓ} {A : Type ℓ} where
  abbrev pub length : List A → ℕ
  length [] = 0
  length (x ∷ xs) = suc (length xs)

  abbrev pub take : ℕ → List A → List A
  take zero xs = []
  take (suc n) [] = []
  take (suc n) (x ∷ xs) = x ∷ take n xs

  abbrev pub drop : ℕ → List A → List A
  drop zero xs = xs
  drop (suc n) [] = []
  drop (suc n) (x ∷ xs) = drop n xs

  -- Rust's `iter().filter(p)`, `any`, `all` and `find`.
  abbrev pub keep : (A → Bool) → List A → List A
  keep p [] = []
  keep p (x ∷ xs) = if p x then x ∷ keep p xs else keep p xs

  abbrev pub any : (A → Bool) → List A → Bool
  any p [] = false
  any p (x ∷ xs) = p x || any p xs

  abbrev pub all : (A → Bool) → List A → Bool
  all p [] = true
  all p (x ∷ xs) = p x && all p xs

  abbrev pub find : (A → Bool) → List A → Option A
  find p [] = none
  find p (x ∷ xs) = if p x then some x else find p xs

  abbrev pub head? : List A → Option A
  head? [] = none
  head? (x ∷ xs) = some x

  abbrev pub is_empty : List A → Bool
  is_empty [] = true
  is_empty (x ∷ xs) = false

  abbrev pub All {κ} : (A → Type κ) → List A → Type κ
  All P [] = Unit
  All P (x ∷ xs) = P x × All P xs

-- Membership, as a type that the tactics take apart.
abbrev pub IsIn : {A : Type 0} → A → List A → Type 0
IsIn a [] = ⊥
IsIn a (x ∷ xs) = (a ≡ x) ⊎ IsIn a xs

module _ {ℓ κ} {A : Type ℓ} {B : Type κ} where
  abbrev pub collect : (A → Option B) → List A → List B
  collect f [] = []
  collect f (x ∷ xs) = elim (f x) [ none ↦ collect f xs | some y ↦ y ∷ collect f xs ]

  abbrev pub flat_map : (A → List B) → List A → List B
  flat_map f [] = []
  flat_map f (x ∷ xs) = f x ++ flat_map f xs

module _ {ℓ} {A : Type ℓ} where
  pub length-append : (xs ys : List A) → length (xs ++ ys) ≡ length xs + length ys
  length-append [] ys = omega arith
  length-append (x ∷ xs) ys = omega (arith, length-append xs ys)

  pub length-take : (n : ℕ) (xs : List A) → length (take n xs) ≡ min n (length xs)
  length-take zero xs = omega arith
  length-take (suc n) [] = omega arith
  length-take (suc n) (x ∷ xs) = omega (arith, length-take n xs)

  pub length-drop : (n : ℕ) (xs : List A) → length (drop n xs) ≡ length xs - n
  length-drop zero xs = omega arith
  length-drop (suc n) [] = omega arith
  length-drop (suc n) (x ∷ xs) = omega (arith, length-drop n xs)

  pub length-keep : (p : A → Bool) (xs : List A) → length (keep p xs) ≤ length xs
  length-keep p [] = omega arith
  length-keep p (x ∷ xs) = ground (arith, length-keep p xs)

  pub keep-append : (p : A → Bool) (xs ys : List A) → keep p (xs ++ ys) ≡ keep p xs ++ keep p ys
  keep-append p [] ys = refl
  keep-append p (x ∷ xs) ys = ground (arith, keep-append p xs ys)

module _ {ℓ κ} {A : Type ℓ} {B : Type κ} where
  pub length-map : (f : A → B) (xs : List A) → length (map f xs) ≡ length xs
  length-map f [] = refl
  length-map f (x ∷ xs) = ap suc (length-map f xs)

module _ {A : Type 0} where
  -- Filtering keeps exactly the elements that pass.
  pub IsIn-keep :
      (p : A → Bool) (a : A) (xs : List A) → IsIn a (keep p xs) ↔ (IsIn a xs × (p a ≡ true))
  IsIn-keep p a [] = ground arith
  IsIn-keep p a (x ∷ xs) = ground (arith, IsIn-keep p a xs)

  pub IsIn-append : (a : A) (xs ys : List A) → IsIn a (xs ++ ys) ↔ (IsIn a xs ⊎ IsIn a ys)
  IsIn-append a [] ys = ground arith
  IsIn-append a (x ∷ xs) ys = ground (arith, IsIn-append a xs ys)

  pub find-IsIn :
      (p : A → Bool) (a : A) (xs : List A) → find p xs ≡ some a → IsIn a xs × (p a ≡ true)
  find-IsIn p a [] h = ground arith
  find-IsIn p a (x ∷ xs) h = ground (arith, find-IsIn p a xs)

  -- A test passes somewhere exactly when some element passes.
  pub any_iff :
      (p : A → Bool) (xs : List A) → (any p xs ≡ true) ↔ ((a : A) × IsIn a xs × (p a ≡ true))
  any_iff p [] = (λ h. absurd (cc h), λ (a, i, h). elim i [ ])
  any_iff p (x ∷ xs) = (
    λ h. elim (Bool-cases (p x)) [
      | inl here ↦ (x, inl refl, here)
      | inr there ↦ let (a, i, e) = (any_iff p xs).0 (ground arith) in (a, inr i, e)
    ],
    λ (a, i, h). elim i [
      | inl e ↦ ground (arith, ap p e)
      | inr j ↦ let rest = (any_iff p xs).1 (a, j, h) in ground arith
    ],
  )

  pub contains_iff : ⦃e : Eq A⦄ (xs : List A) (a : A) → (contains xs a ≡ true) ↔ IsIn a xs
  contains_iff [] a = ground arith
  contains_iff (x ∷ xs) a = ground (arith, contains_iff xs a)

  pub All-IsIn {κ} : (P : A → Type κ) (a : A) (xs : List A) → All P xs → IsIn a xs → P a
  All-IsIn P a [] h m = elim m [ ]
  All-IsIn P a (x ∷ xs) h (inl e) = subst P (sym e) h.0
  All-IsIn P a (x ∷ xs) h (inr m) = All-IsIn P a xs h.1 m

  pub IsIn-All {κ} : (P : A → Type κ) (xs : List A) → ((a : A) → IsIn a xs → P a) → All P xs
  IsIn-All P [] h = tt
  IsIn-All P (x ∷ xs) h = (h x (inl refl), IsIn-All P xs (λ a m. h a (inr m)))

  pub All-append {κ} : (P : A → Type κ) (xs ys : List A) → All P xs → All P ys → All P (xs ++ ys)
  All-append P [] ys hx hy = hy
  All-append P (x ∷ xs) ys hx hy = (hx.0, All-append P xs ys hx.1 hy)

-- An element of a mapped list comes from an element.
pub IsIn-map :
    {A B : Type 0} (f : A → B) (b : B) (xs : List A)
    → IsIn b (map f xs)
    → (a : A) × IsIn a xs × (b ≡ f a)
IsIn-map f b [] m = elim m [ ]
IsIn-map f b (x ∷ xs) (inl same) = (x, inl refl, same)
IsIn-map f b (x ∷ xs) (inr later) = let (a, i, e) = IsIn-map f b xs later in (a, inr i, e)

-- What is collected comes from an element, and what an element has is collected.
IsIn-collect_one :
    {A B : Type 0} (f : A → Option B) (b : B) (x : A) (xs : List A) (o : Option B) (bs : List B)
    → f x ≡ o
    → IsIn b bs ↔ ((a : A) × IsIn a xs × (f a ≡ some b))
    → IsIn b (elim o [ none ↦ bs | some y ↦ y ∷ bs ]) ↔ ((a : A) × IsIn a (x ∷ xs) × (f a ≡ some b))
IsIn-collect_one f b x xs none bs e rest = (
  λ h. let (a, i, h') = rest.0 h in (a, inr i, h'),
  λ (a, i, h). elim i [ inl same ↦ absurd (cc (e, same, h)) | inr later ↦ rest.1 (a, later, h) ],
)
IsIn-collect_one f b x xs (some y) bs e rest = (
  λ h. elim h [
    | inl same ↦ (x, inl refl, rw same e)
    | inr later ↦ let (a, i, h') = rest.0 later in (a, inr i, h')
  ],
  λ (a, i, h). elim i [
    | inl same ↦ inl (sym (some-injective y b (cc (e, same, h))))
    | inr later ↦ inr (rest.1 (a, later, h))
  ],
)

module _ {A B : Type 0} (f : A → Option B) where
  pub IsIn-collect :
      (b : B) (xs : List A) → IsIn b (collect f xs) ↔ ((a : A) × IsIn a xs × (f a ≡ some b))
  IsIn-collect b [] = (λ h. elim h [ ], λ (a, i, h). elim i [ ])
  IsIn-collect b (x ∷ xs) = IsIn-collect_one f b x xs (f x) (collect f xs) refl (IsIn-collect b xs)
