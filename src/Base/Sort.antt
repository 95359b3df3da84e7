-- ===== src/Base/Sort.antt =====
-- Python's `sorted` and SQL's `ORDER BY`: a stable insertion sort by a strict test.
use Prim.Native.Nat.{suc}
use mathlib.Core.Path.{◌≡◌, refl}
use mathlib.Core.Bool.{Bool, true, false}
use mathlib.Core.Logic.{inl, inr}
use mathlib.Core.List.{List, [], ◌∷◌}
use native.Mathlib.Omega.{arith}
use db_sanitizer.Base.Tests.{if◌then◌else◌, Bool-cases}
use db_sanitizer.Base.Lists.{length, count, All}

module _ {ℓ} {A : Type ℓ} (lt : A → A → Bool) where
  -- Before the first element that is greater: equal elements keep their order from the right.
  unfoldable pub sort_insert : A → List A → List A
  sort_insert x [] = x ∷ []
  sort_insert x (y ∷ ys) = if lt y x then y ∷ sort_insert x ys else x ∷ y ∷ ys

  unfoldable pub sort : List A → List A
  sort [] = []
  sort (x ∷ xs) = sort_insert x (sort xs)

  -- No element is followed by a smaller one.
  abbrev pub IsSorted : List A → Type 0
  IsSorted [] = Unit
  IsSorted (x ∷ []) = Unit
  IsSorted (x ∷ y ∷ ys) = (lt y x ≡ false) × IsSorted (y ∷ ys)

  count-sort_insert :
      (test : A → Bool) (x : A) (ys : List A) → count test (sort_insert x ys) ≡ count test (x ∷ ys)
  unfolding sort_insert
  count-sort_insert test x [] = refl
  count-sort_insert test x (y ∷ ys) = ground (arith, count-sort_insert test x ys)

  -- A sort keeps the elements, as often as they occur.
  pub count-sort : (test : A → Bool) (xs : List A) → count test (sort xs) ≡ count test xs
  unfolding sort
  count-sort test [] = refl
  count-sort test (x ∷ xs) = ground (arith, count-sort_insert test x (sort xs), count-sort test xs)

  length-sort_insert : (x : A) (ys : List A) → length (sort_insert x ys) ≡ suc (length ys)
  unfolding sort_insert
  length-sort_insert x [] = refl
  length-sort_insert x (y ∷ ys) = ground (arith, length-sort_insert x ys)

  pub length-sort : (xs : List A) → length (sort xs) ≡ length xs
  unfolding sort
  length-sort [] = refl
  length-sort (x ∷ xs) = ground (arith, length-sort_insert x (sort xs), length-sort xs)

  All-sort_insert {κ} :
      (P : A → Type κ) (x : A) (ys : List A) → P x → All P ys → All P (sort_insert x ys)
  unfolding sort_insert
  All-sort_insert P x [] p h = (p, tt)
  All-sort_insert P x (y ∷ ys) p h = elim (Bool-cases (lt y x)) [
    | inl e ↦ rw e (h.0, All-sort_insert P x ys p h.1)
    | inr e ↦ rw e (p, h)
  ]

  pub All-sort {κ} : (P : A → Type κ) (xs : List A) → All P xs → All P (sort xs)
  unfolding sort
  All-sort P [] h = tt
  All-sort P (x ∷ xs) h = All-sort_insert P x (sort xs) h.0 (All-sort P xs h.1)

  module _ (asym : (x y : A) → lt x y ≡ true → lt y x ≡ false) where
    IsSorted-sort_insert : (x : A) (ys : List A) → IsSorted ys → IsSorted (sort_insert x ys)
    unfolding sort_insert
    IsSorted-sort_insert x [] h = tt
    IsSorted-sort_insert x (y ∷ []) h = ground (arith, asym y x)
    IsSorted-sort_insert x (y ∷ z ∷ ys) h =
        ground (arith, asym y x, IsSorted-sort_insert x (z ∷ ys) h.1)

    -- A sort by an asymmetric test is sorted.
    pub IsSorted-sort : (xs : List A) → IsSorted (sort xs)
    unfolding sort
    IsSorted-sort [] = tt
    IsSorted-sort (x ∷ xs) = IsSorted-sort_insert x (sort xs) (IsSorted-sort xs)
