-- ===== src/Common/Sets.antt =====
-- `BTreeSet` and `BTreeMap` as far as the program reads them: by membership and by key.
use Prim.Native.Nat.{ℕ, ◌+◌}
use mathlib.Core.Path.{◌≡◌, refl, subst}
use mathlib.Core.Logic.{inl, inr}
use mathlib.Core.Bool.{◌||◌}
use mathlib.Core.Option.{Option, none, some, some-injective}
use mathlib.Core.List.{List, [], ◌∷◌, ◌++◌}
use native.Mathlib.Omega.{arith}
use session_scope.Common.Equality.{if◌then◌else◌, Eq, ◌==◌, contains, Bool-cases}
use session_scope.Common.Lists.{All, All-append}

module _ {A : Type 0} ⦃e : Eq A⦄ where
  unfoldable pub insert : A → List A → List A
  insert a s = if contains s a then s else a ∷ s

  unfoldable pub extend : List A → List A → List A
  unfolding insert
  extend s [] = s
  extend s (a ∷ as') = extend (insert a s) as'

  pub contains-insert : (a b : A) (s : List A) → contains (insert a s) b ≡ (a == b || contains s b)
  unfolding insert
  contains-insert a b s = ground arith

  -- A set extended by a sequence holds what it held and what the sequence holds.
  pub contains-extend :
      (s xs : List A) (b : A) → contains (extend s xs) b ≡ (contains s b || contains xs b)
  unfolding extend
  contains-extend s [] b = ground arith
  contains-extend s (a ∷ as') b =
      ground (arith, contains-extend (insert a s) as' b, contains-insert a b s)

module _ {K V : Type 0} ⦃e : Eq K⦄ where
  -- A later insertion of a key hides the earlier ones, as it replaces them in the source.
  unfoldable pub get : List (K × V) → K → Option V
  get [] k = none
  get ((j, v) ∷ m) k = if j == k then some v else get m k

  unfoldable pub collect_map : List (K × V) → List (K × V) → List (K × V)
  collect_map m [] = m
  collect_map m (p ∷ ps) = collect_map (p ∷ m) ps

  -- Keys that all differ: the map then has each pair of the sequence.
  abbrev pub NodupKeys : List (K × V) → Type 0
  NodupKeys [] = Unit
  NodupKeys ((k, v) ∷ m) = (get m k ≡ none) × NodupKeys m

  -- A key of the pairs shadows the map below; another key is looked up in it.
  pub get-collect_map_ne :
      (m ps : List (K × V)) (k : K) → get ps k ≡ none → get (collect_map m ps) k ≡ get m k
  unfolding collect_map get
  get-collect_map_ne m [] k h = refl
  get-collect_map_ne m ((j, v) ∷ ps) k h = ground (arith, get-collect_map_ne ((j, v) ∷ m) ps k)

  pub get-collect_map :
      (m ps : List (K × V)) (k : K) (v : V)
      → NodupKeys ps
      → get ps k ≡ some v
      → get (collect_map m ps) k ≡ some v
  unfolding collect_map get
  get-collect_map m [] k v n h = ground arith
  get-collect_map m ((j, w) ∷ ps) k v n h =
      ground (arith, get-collect_map_ne ((j, w) ∷ m) ps j, get-collect_map ((j, w) ∷ m) ps k v)

module _ {K : Type 0} ⦃e : Eq K⦄ where
  -- `*entry(k).or_insert(0) += 1`
  unfoldable pub bump : K → List (K × ℕ) → List (K × ℕ)
  bump k [] = (k, 1) ∷ []
  bump k ((j, n) ∷ m) = if j == k then (j, n + 1) ∷ m else (j, n) ∷ bump k m

abbrev pub get_or_nil : {V : Type 0} → Option (List V) → List V
get_or_nil none = []
get_or_nil (some vs) = vs

module _ {K V : Type 0} ⦃e : Eq K⦄ where
  -- `entry(k).or_insert_with(Vec::new).push(v)`
  unfoldable pub push : K → V → List (K × List V) → List (K × List V)
  push k w [] = (k, w ∷ []) ∷ []
  push k w ((j, ws) ∷ m) = if j == k then (j, ws ++ w ∷ []) ∷ m else (j, ws) ∷ push k w m

  pub get-push :
      (k j : K) (v : V) (m : List (K × List V))
      → get {V = List V} (push k v m) j
        ≡ (if k == j then some (get_or_nil (get m k) ++ v ∷ []) else get m j)
  unfolding push get
  get-push k j v [] = ground arith
  get-push k j v ((i, ws) ∷ m) = ground (arith, get-push k j v m)

  -- A property of what is pushed holds of every group, and of the group that is read.
  abbrev pub AllGroups : (V → Type 0) → List (K × List V) → Type 0
  AllGroups P m = All (λ g. All P g.1) m

  pub AllGroups-push :
      (P : V → Type 0) (k : K) (v : V) (m : List (K × List V))
      → P v
      → AllGroups P m
      → AllGroups P (push k v m)
  unfolding push
  AllGroups-push P k v [] p h = ((p, tt), tt)
  AllGroups-push P k v ((j, ws) ∷ m) p h =
      let grown = All-append P ws (v ∷ []) h.0 (p, tt) in
      let rest = AllGroups-push P k v m p h.1 in
      elim (Bool-cases (j == k)) [ inl e ↦ rw e (grown, h.1) | inr e ↦ rw e (h.0, rest) ]

  pub All-get :
      (P : V → Type 0) (k : K) (ws : List V) (m : List (K × List V))
      → AllGroups P m
      → get m k ≡ some ws
      → All P ws
  unfolding get
  All-get P k ws [] h e = absurd (cc e)
  All-get P k ws ((j, vs) ∷ m) h e = elim (Bool-cases (j == k)) [
    | inl here ↦ subst (All P) (some-injective vs ws (ground arith)) h.0
    | inr there ↦ All-get P k ws m h.1 (ground arith)
  ]
