-- ===== src/Mapping/Registry/Accumulator/Scope.antt =====
-- A whole scope of the accumulator, from the cleared table to the difference.
use db_sanitizer.Base.{
  ℕ, ◌≡◌, ◌↔◌, refl, List, [], ◌∷◌, ◌++◌, map, sum, arith, inl, inr, sym, ap, Bool-cases,
}
use mathlib.Core.Path.{subst}
use mathlib.Core.List.{append-nil, append_assoc}
use db_sanitizer.Base.Text.{Text, nonempty}
use db_sanitizer.Errors.{ok, Result-cases}
use db_sanitizer.Exec.{Exec, ◌>>◌, for_each, transaction}
use db_sanitizer.Mapping.Registry.{Registry, validate_keys}
use db_sanitizer.Mapping.Registry.Accumulator.{
  Column, expected, actual, upsert_all, abs_difference, add, multiset_difference_count,
  with_accumulator,
}
use db_sanitizer.Mapping.Registry.Accumulator.Tally.{occurrences}
use db_sanitizer.Mapping.Registry.Accumulator.Multiset.{
  Represents, Represents-empty, plus, upsert_all-Represents, difference_zero_iff,
}

abbrev pub concat : List (List Text) → List Text
concat [] = []
concat (batch ∷ batches) = batch ++ concat batches

-- The work table after a batch that was accepted.
add-work :
    (g : Text) (c : Column) (batch : List Text) (r t : Registry)
    → add g c batch r ≡ (ok tt, t)
    → t.work ≡ upsert_all c batch r.work
unfolding add transaction upsert_all
add-work g c [] r t h = ground arith
add-work g c (v ∷ batch) r t h = elim (Result-cases (validate_keys g (v ∷ batch))) [
  | inr (e, x) ↦ ground arith
  | inl (u, x) ↦ ground arith
]

pub add-Represents :
    (g : Text) (c : Column) (batch wanted seen : List Text) (r t : Registry)
    → add g c batch r ≡ (ok tt, t)
    → Represents wanted seen r.work
    → Represents (plus c expected batch wanted) (plus c actual batch seen) t.work
add-Represents g c batch wanted seen r t h k =
    subst (Represents (plus c expected batch wanted) (plus c actual batch seen))
      (sym (add-work g c batch r t h)) (upsert_all-Represents c batch wanted seen r.work k)

for_each-expected :
    (g : Text) (batches : List (List Text)) (wanted seen : List Text) (r t : Registry)
    → for_each (add g expected) batches r ≡ (ok tt, t)
    → Represents wanted seen r.work
    → Represents (wanted ++ concat batches) seen t.work
unfolding for_each
for_each-expected g [] wanted seen r t h k =
    let q : r ≡ t = ground arith in rw append-nil (subst (λ s. Represents wanted seen s.work) q k)
for_each-expected g (b ∷ batches) wanted seen r t h k =
    let s = (add g expected b r).1 in
    elim (Result-cases (add g expected b r).0) [
      | inr (e, x) ↦ absurd (ground arith)
      | inl (tt, x) ↦ rw (← append_assoc wanted b (concat batches)) (
          for_each-expected g batches (wanted ++ b) seen s t (ground arith)
            (add-Represents g expected b wanted seen r s (ap (λ o. (o, s)) x) k))
    ]

for_each-actual :
    (g : Text) (batches : List (List Text)) (wanted seen : List Text) (r t : Registry)
    → for_each (add g actual) batches r ≡ (ok tt, t)
    → Represents wanted seen r.work
    → Represents wanted (seen ++ concat batches) t.work
unfolding for_each
for_each-actual g [] wanted seen r t h k =
    let q : r ≡ t = ground arith in rw append-nil (subst (λ s. Represents wanted seen s.work) q k)
for_each-actual g (b ∷ batches) wanted seen r t h k =
    let s = (add g actual b r).1 in
    elim (Result-cases (add g actual b r).0) [
      | inr (e, x) ↦ absurd (ground arith)
      | inl (tt, x) ↦ rw (← append_assoc seen b (concat batches)) (
          for_each-actual g batches wanted (seen ++ b) s t (ground arith)
            (add-Represents g actual b wanted seen r s (ap (λ o. (o, s)) x) k))
    ]

-- The block of a scope that adds batches to both columns and asks for the difference.
abbrev pub compare_multisets : Text → List (List Text) → List (List Text) → Exec Registry ℕ
compare_multisets g wanted seen = do
  for_each (add g expected) wanted
  for_each (add g actual) seen
  multiset_difference_count

block-difference :
    (g : Text) (wanted seen : List (List Text)) (r t : Registry) (n : ℕ)
    → r.work ≡ []
    → compare_multisets g wanted seen r ≡ (ok n, t)
    → (n ≡ 0) ↔ ((v : Text) → occurrences v (concat wanted) ≡ occurrences v (concat seen))
unfolding multiset_difference_count
block-difference g wanted seen r t n fresh h =
    let s = (for_each (add g expected) wanted r).1 in
    let z = (for_each (add g actual) seen s).1 in
    elim (Result-cases (for_each (add g expected) wanted r).0) [
      | inr (e, x) ↦ absurd (ground arith)
      | inl (tt, x) ↦ elim (Result-cases (for_each (add g actual) seen s).0) [
        | inr (e, y) ↦ absurd (ground arith)
        | inl (tt, y) ↦
            (let start : Represents [] [] r.work =
                subst (Represents [] []) (sym fresh) Represents-empty in
              let mid = for_each-expected g wanted [] [] r s (ap (λ o. (o, s)) x) start in
              let end = for_each-actual g seen (concat wanted) [] s z (ap (λ o. (o, z)) y) mid in
              let q : sum (map abs_difference z.work) ≡ n = ground arith in
              subst
                (λ k.
                  (k ≡ 0)
                  ↔ ((v : Text) → occurrences v (concat wanted) ≡ occurrences v (concat seen)))
                q (difference_zero_iff (concat wanted) (concat seen) z.work end))
      ]
    ]

-- A scope that adds expected and actual digests, in batches of any sizes, and returns the
-- difference, returns zero exactly when every digest was expected as often as it was added as an
-- actual one; what the table held before makes no difference.
pub with_accumulator_difference :
    (g : Text) (wanted seen : List (List Text)) (r t : Registry) (n : ℕ)
    → with_accumulator g (compare_multisets g wanted seen) r ≡ (ok n, t)
    → (n ≡ 0) ↔ ((v : Text) → occurrences v (concat wanted) ≡ occurrences v (concat seen))
unfolding with_accumulator transaction
with_accumulator_difference g wanted seen r t n h =
    let cleared : Registry = record r { work = [] } in
    elim (Bool-cases (nonempty g)) [
      | inr unnamed ↦ absurd (ground arith)
      | inl named ↦
          block-difference g wanted seen cleared (compare_multisets g wanted seen cleared).1 n refl
            (ground arith)
    ]
