-- ===== src/Verify/Keys/Integrity.antt =====
-- The verdict of `check_primary_unique_constraints`.
use db_sanitizer.Base.{
  ℕ, ◌≡◌, ◌↔◌, refl, Bool, true, false, not, ◌&&◌, ◌||◌, List, [], ◌∷◌, map, all, all-eq, none,
  ◌==◌, arith, inl, inr, ◌∙◌,
}
use db_sanitizer.Base.Counter.{occurrences, excess_both_iff}
use db_sanitizer.Errors.{Result, ok, err, ◌>>=◌, Result-cases}
use db_sanitizer.Mapping.Normalization.{Value}
use db_sanitizer.Policy.Models.{Groups}
use db_sanitizer.Verify.Checks.{CheckResult, is_pass}
use db_sanitizer.Verify.Mappings.{key_eq}
use db_sanitizer.Verify.Connection.{
  Connection, ordered_select_statement, executed_cursor, sum_results, sum_results_zero, is_zero,
}
use db_sanitizer.Verify.Keys.{
  KeyConstraint, Signature, signature, signature_eq, duplicate_key_group_count,
  primary_key_null_count, key_counts, compare_keys, ordered_key_comparison,
  primary_key_is_configured, is_shared_primary_key, key_value_mismatches,
  check_primary_unique_constraints,
}

-- Both sides have the same rows, in order.
abbrev pub same_keys : List (List Value) → List (List Value) → Bool
same_keys [] [] = true
same_keys (row ∷ source) (other_row ∷ target) = key_eq row other_row && same_keys source target
same_keys _ _ = false

compare_keys_zero :
    (source target : List (List Value))
    → ((compare_keys source target).1 == 0) ≡ same_keys source target
unfolding compare_keys
compare_keys_zero [] [] = refl
compare_keys_zero [] (row ∷ target) = ground arith
compare_keys_zero (row ∷ source) [] = ground arith
compare_keys_zero (row ∷ source) (other_row ∷ target) =
    ground (arith, compare_keys_zero source target)

-- Neither a repeated key nor a NULL in a primary key.
abbrev pub is_intact : Connection → KeyConstraint → Bool
is_intact target c =
    is_zero (duplicate_key_group_count target c) && is_zero (primary_key_null_count target c)

key_counts_zero :
    (target : Connection) (constraints : List KeyConstraint) (counts : ℕ × ℕ)
    → key_counts target constraints ≡ ok counts
    → (counts.0 == 0 && counts.1 == 0) ≡ all (is_intact target) constraints
unfolding key_counts
key_counts_zero target [] counts h = ground arith
key_counts_zero target (c ∷ constraints) counts h =
    elim (Result-cases (duplicate_key_group_count target c)) [
      | inr (e, p) ↦ absurd (ground arith)
      | inl (d, p) ↦ elim (Result-cases (primary_key_null_count target c)) [
        | inr (e, q) ↦ absurd (ground arith)
        | inl (n, q) ↦ elim (Result-cases (key_counts target constraints)) [
          | inr (e, r) ↦ absurd (ground arith)
          | inl (rest, r) ↦ ground (arith, key_counts_zero target constraints rest r)
        ]
      ]
    ]

-- The answers of both sides to one query.
abbrev pub same_rows : Result (List (List Value)) → Result (List (List Value)) → Bool
same_rows (ok source) (ok target) = same_keys source target
same_rows _ _ = false

module _ (source target : Connection) (groups : Groups) (fetch_size : ℕ)
    (target_constraints : List KeyConstraint) where
  abbrev pub has_same_rows : KeyConstraint → Bool
  has_same_rows c = elim (ordered_select_statement c.schema_name c.table c.columns none) [
    | err e ↦ false
    | ok statement ↦
        same_rows (executed_cursor fetch_size (source.ordered statement))
          (executed_cursor fetch_size (target.ordered statement))
  ]

  -- A primary key of both sides that the policy leaves alone has the same values on both.
  abbrev pub keeps_values : KeyConstraint → Bool
  keeps_values c =
      not (is_shared_primary_key source target groups fetch_size target_constraints c)
      || elim (primary_key_is_configured groups c) [
        | err e ↦ false
        | ok true ↦ true
        | ok false ↦ has_same_rows c
      ]

  comparison_zero :
      (c : KeyConstraint)
      → is_zero (ordered_key_comparison source target fetch_size c >>= λ compared. ok compared.1)
        ≡ has_same_rows c
  unfolding ordered_key_comparison
  comparison_zero c =
      elim (Result-cases (ordered_select_statement c.schema_name c.table c.columns none)) [
        | inr (e, p) ↦ ground arith
        | inl (statement, p) ↦
            elim (Result-cases (executed_cursor fetch_size (source.ordered statement))) [
              | inr (e, q) ↦ ground arith
              | inl (xs, q) ↦
                  elim (Result-cases (executed_cursor fetch_size (target.ordered statement))) [
                    | inr (e, r) ↦ ground arith
                    | inl (ys, r) ↦ ground (arith, compare_keys_zero xs ys)
                  ]
            ]
      ]

  mismatches_zero :
      (c : KeyConstraint)
      → is_zero (key_value_mismatches source target groups fetch_size target_constraints c)
        ≡ keeps_values c
  unfolding key_value_mismatches
  mismatches_zero c = ground (arith, comparison_zero c)

-- Both sides declare the same keys, each as often.
abbrev pub SameKeys : List KeyConstraint → List KeyConstraint → Type 0
SameKeys source target =
    (s : Signature)
    → occurrences ⦃e = signature_eq⦄ s (map signature source)
      ≡ occurrences ⦃e = signature_eq⦄ s (map signature target)

-- When the check of the keys returns, it passes exactly when both sides declare the same keys, each
-- as often, no key of the target is repeated and no column of its primary keys is NULL, and every
-- primary key of both sides of which the policy configures no column has the same values, in order,
-- on both sides.
pub check_primary_unique_constraints_iff :
    (source target : Connection) (groups : Groups)
    (source_constraints target_constraints : List KeyConstraint) (fetch_size : ℕ)
    (result : CheckResult)
    → check_primary_unique_constraints source target groups source_constraints target_constraints
        fetch_size
      ≡ ok result
    → (is_pass result ≡ true) ↔ (
        SameKeys source_constraints target_constraints
        × (all (is_intact target) target_constraints ≡ true)
        × (all (keeps_values source target groups fetch_size target_constraints) source_constraints
            ≡ true))
unfolding check_primary_unique_constraints
check_primary_unique_constraints_iff source target groups xs ys fetch_size result h =
    let same = excess_both_iff ⦃e = signature_eq⦄ (map signature xs) (map signature ys) in
    let mismatches = key_value_mismatches source target groups fetch_size ys in
    elim (Result-cases (key_counts target ys)) [
      | inr (e, p) ↦ absurd (ground arith)
      | inl ((d, n), p) ↦ elim (Result-cases (sum_results mismatches xs)) [
        | inr (e, q) ↦ absurd (ground arith)
        | inl (m, q) ↦
            (let intact = key_counts_zero target ys (d, n) p in
              let kept =
                sum_results_zero mismatches xs m q
                ∙ all-eq (λ c. is_zero (mismatches c))
                    (keeps_values source target groups fetch_size ys)
                    (mismatches_zero source target groups fetch_size ys) xs in
              (
                (λ k. (same.0 (ground arith, ground arith), ground arith, ground arith)),
                (λ k. let (p', q') = same.1 k.0 in ground (arith, p', q', k.1, k.2, intact, kept)),
              ))
      ]
    ]
