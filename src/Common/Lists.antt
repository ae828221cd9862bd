-- ===== src/Common/Lists.antt =====
-- Lists and sets of texts, with the laws of membership.
use Prim.Native.Nat.{ℕ, zero, suc}
use Prim.Native.String.{String}
use mathlib.Core.Path.{◌≡◌, refl}
use mathlib.Core.Bool.{Bool, true, false, not, ◌&&◌, ◌||◌}
use mathlib.Core.Option.{Option, none, some}
use mathlib.Core.List.{List, [], ◌∷◌, ◌++◌}
use native.Mathlib.Omega.{arith}
use text.Mathlib.TextEquality.{eq_iff}
use mini_enterprise_rag_agen.Common.Tests.{◌==◌, if◌then◌else◌}
use mini_enterprise_rag_agen.Common.Text.{text_leb}

module _ {ℓ} {A : Type ℓ} where
  abbrev pub length : List A → ℕ
  length [] = 0
  length (x ∷ xs) = suc (length xs)

  abbrev pub take : ℕ → List A → List A
  take zero xs = []
  take (suc n) [] = []
  take (suc n) (x ∷ xs) = x ∷ take n xs

  -- A comprehension `[x for x in xs if p(x)]`.
  unfoldable pub filter : (A → Bool) → List A → List A
  filter p [] = []
  filter p (x ∷ xs) = let rest = filter p xs in if p x then x ∷ rest else rest

  -- `any(p(x) for x in xs)` and `all(...)`.
  unfoldable pub any : (A → Bool) → List A → Bool
  any p [] = false
  any p (x ∷ xs) = p x || any p xs

  unfoldable pub all : (A → Bool) → List A → Bool
  all p [] = true
  all p (x ∷ xs) = p x && all p xs

  -- `not xs`.
  abbrev pub is_empty : List A → Bool
  is_empty [] = true
  is_empty (x ∷ xs) = false

  abbrev pub All {κ} : (A → Type κ) → List A → Type κ
  All P [] = Unit
  All P (x ∷ xs) = P x × All P xs

module _ {ℓ κ} {A : Type ℓ} {B : Type κ} where
  unfoldable pub filter_map : (A → Option B) → List A → List B
  filter_map f [] = []
  filter_map f (x ∷ xs) =
      let rest = filter_map f xs in elim (f x) [ none ↦ rest | some y ↦ y ∷ rest ]

module _ {ℓ} {A : Type ℓ} where
  abbrev pub flatten : List (List A) → List A
  flatten [] = []
  flatten (xs ∷ rest) = xs ++ flatten rest

-- `x in xs`.
unfoldable pub mem : String → List String → Bool
mem x [] = false
mem x (y ∷ ys) = x == y || mem x ys

-- `set(xs)`.
unfoldable pub to_set : List String → List String
to_set [] = []
to_set (x ∷ xs) = let rest = to_set xs in if mem x rest then rest else x ∷ rest

insert_sorted : String → List String → List String
insert_sorted x [] = x ∷ []
insert_sorted x (y ∷ ys) =
    let rest = insert_sorted x ys in if text_leb x y then x ∷ (y ∷ ys) else y ∷ rest

unfoldable pub sorted : List String → List String
unfolding insert_sorted
sorted [] = []
sorted (x ∷ xs) = insert_sorted x (sorted xs)

pub mem-filter :
    (x : String) (p : String → Bool) (xs : List String) → mem x (filter p xs) ≡ (mem x xs && p x)
unfolding mem filter
mem-filter x p [] = refl
mem-filter x p (y ∷ ys) = ground (arith, mem-filter x p ys, eq_iff x y)

pub mem-to_set : (x : String) (xs : List String) → mem x (to_set xs) ≡ mem x xs
unfolding mem to_set
mem-to_set x [] = refl
mem-to_set x (y ∷ ys) = ground (arith, mem-to_set x ys, mem-to_set y ys, eq_iff x y)

mem-insert_sorted :
    (x y : String) (ys : List String) → mem x (insert_sorted y ys) ≡ (x == y || mem x ys)
unfolding mem insert_sorted
mem-insert_sorted x y [] = refl
mem-insert_sorted x y (z ∷ zs) = ground (arith, mem-insert_sorted x y zs)

pub mem-sorted : (x : String) (xs : List String) → mem x (sorted xs) ≡ mem x xs
unfolding mem sorted
mem-sorted x [] = refl
mem-sorted x (y ∷ ys) = ground (arith, mem-insert_sorted x y (sorted ys), mem-sorted x ys)

pub mem-append : (x : String) (xs ys : List String) → mem x (xs ++ ys) ≡ (mem x xs || mem x ys)
unfolding mem
mem-append x [] ys = refl
mem-append x (z ∷ zs) ys = ground (arith, mem-append x zs ys)

pub mem_snoc : (x y : String) (xs : List String) → mem x (xs ++ y ∷ []) ≡ (mem x xs || x == y)
unfolding mem
mem_snoc x y [] = ground arith
mem_snoc x y (z ∷ zs) = ground (arith, mem_snoc x y zs)

-- A test that every listed text passes is passed by a member.
pub all-mem :
    (p : String → Bool) (x : String) (xs : List String)
    → all p xs ≡ true
    → mem x xs ≡ true
    → p x ≡ true
unfolding all mem
all-mem p x [] h m = cc
all-mem p x (y ∷ ys) h m = ground (arith, eq_iff x y, all-mem p x ys)

module _ {ℓ} {A : Type ℓ} where
  pub any-filter : (p q : A → Bool) (xs : List A) → any p (filter q xs) ≡ any (λ x. q x && p x) xs
  unfolding any filter
  any-filter p q [] = refl
  any-filter p q (x ∷ xs) = ground (arith, any-filter p q xs)

  pub is_empty-filter : (q : A → Bool) (xs : List A) → is_empty (filter q xs) ≡ not (any q xs)
  unfolding any filter
  is_empty-filter q [] = refl
  is_empty-filter q (x ∷ xs) = ground (arith, is_empty-filter q xs)

  -- A test that implies another passes nowhere else.
  pub any_weaken :
      (p q : A → Bool) (xs : List A)
      → ((x : A) → p x ≡ true → q x ≡ true)
      → any p xs ≡ true
      → any q xs ≡ true
  unfolding any
  any_weaken p q [] h found = found
  any_weaken p q (x ∷ xs) h found = ground (arith, h x, any_weaken p q xs h)
