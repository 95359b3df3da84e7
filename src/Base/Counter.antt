-- ===== src/Base/Counter.antt =====
-- `collections.Counter` of a sequence, as far as its differences go.
use Prim.Native.Nat.{ℕ, ◌-◌, ◌≤◌}
use mathlib.Core.Path.{◌≡◌, refl, sym, ap, ◌∙◌}
use mathlib.Core.Logic.{◌↔◌, inl, inr}
use mathlib.Core.Bool.{true, false}
use mathlib.Core.List.{List, [], ◌∷◌, map}
use native.Mathlib.Omega.{arith}
use db_sanitizer.Base.Tests.{if◌then◌else◌, Bool-cases}
use db_sanitizer.Base.Lists.{count, sum}
use db_sanitizer.Base.Eq.{Eq, elem}

module _ {ℓ} {A : Type ℓ} ⦃e : Eq A⦄ where
  -- `Counter(xs)[k]`
  abbrev pub occurrences : A → List A → ℕ
  occurrences k xs = count (e.beq k) xs

  -- The keys of `Counter(xs)`.
  unfoldable pub uniques : List A → List A
  uniques [] = []
  uniques (x ∷ xs) = if elem x xs then uniques xs else x ∷ uniques xs

  -- `sum((Counter(xs) - Counter(ys)).values())`: a difference keeps the counts that are positive.
  unfoldable pub excess : List A → List A → ℕ
  unfolding uniques
  excess xs ys = sum (map (λ k. occurrences k xs - occurrences k ys) (uniques xs))

  elem-eq : (k x : A) (xs : List A) → e.beq k x ≡ true → elem x xs ≡ elem k xs
  elem-eq k x xs h = ap (λ a. elem a xs) (sym ((e.beq_iff k x).0 h))

  elem-uniques : (k : A) (xs : List A) → elem k (uniques xs) ≡ elem k xs
  unfolding uniques
  elem-uniques k [] = refl
  elem-uniques k (x ∷ xs) = elim (Bool-cases (e.beq k x)) [
    | inl same ↦ ground (arith, elem-uniques k xs, elem-eq k x xs same)
    | inr other ↦ ground (arith, elem-uniques k xs)
  ]

  occurrences-absent : (k : A) (xs : List A) → elem k xs ≡ false → occurrences k xs ≡ 0
  occurrences-absent k [] h = refl
  occurrences-absent k (x ∷ xs) h = ground (arith, occurrences-absent k xs)

  sum_zero_at : (f : A → ℕ) (k : A) (ks : List A) → sum (map f ks) ≡ 0 → elem k ks ≡ true → f k ≡ 0
  sum_zero_at f k [] h m = cc
  sum_zero_at f k (x ∷ ks) h m = elim (Bool-cases (e.beq k x)) [
    | inl same ↦ ap f ((e.beq_iff k x).0 same) ∙ omega arith
    | inr other ↦ sum_zero_at f k ks (omega arith) (ground arith)
  ]

  sum_zero : (f : A → ℕ) (ks : List A) → ((k : A) → f k ≡ 0) → sum (map f ks) ≡ 0
  sum_zero f [] h = refl
  sum_zero f (x ∷ ks) h = omega (arith, h x, sum_zero f ks h)

  -- Nothing is left of a difference exactly when no key occurs more often in the first.
  pub excess_zero_iff :
      (xs ys : List A) → (excess xs ys ≡ 0) ↔ ((k : A) → occurrences k xs ≤ occurrences k ys)
  unfolding excess
  excess_zero_iff xs ys = (
    (λ h k. elim (Bool-cases (elem k xs)) [
      | inl here ↦
          (let zero_here =
              sum_zero_at (λ j. occurrences j xs - occurrences j ys) k (uniques xs) h
                (elem-uniques k xs ∙ here) in
            omega (arith, zero_here))
      | inr gone ↦ omega (arith, occurrences-absent k xs gone)
    ]),
    (λ h.
        sum_zero (λ j. occurrences j xs - occurrences j ys) (uniques xs) (λ k. omega (arith, h k))),
  )

  -- Both differences are empty exactly when every key occurs equally often.
  pub excess_both_iff :
      (xs ys : List A)
      → ((excess xs ys ≡ 0) × (excess ys xs ≡ 0)) ↔ ((k : A) → occurrences k xs ≡ occurrences k ys)
  excess_both_iff xs ys = (
    (λ h k. omega (arith, (excess_zero_iff xs ys).0 h.0 k, (excess_zero_iff ys xs).0 h.1 k)),
    (λ h. (
      (excess_zero_iff xs ys).1 (λ k. omega (arith, h k)),
      (excess_zero_iff ys xs).1 (λ k. omega (arith, h k)),
    )),
  )
