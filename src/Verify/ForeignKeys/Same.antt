-- ===== src/Verify/ForeignKeys/Same.antt =====
-- The verdict of `check_foreign_keys`.
use db_sanitizer.Base.{◌≡◌, ◌↔◌, true, map, all, arith, inl, inr}
use db_sanitizer.Base.Counter.{occurrences, excess_both_iff}
use db_sanitizer.Errors.{ok, Result-cases}
use db_sanitizer.Policy.Schema.{SchemaSnapshot}
use db_sanitizer.Verify.Checks.{CheckResult, is_pass}
use db_sanitizer.Verify.Connection.{
  Connection, count_query, unvalidated_foreign_keys, sum_results, sum_results_zero, is_zero,
}
use db_sanitizer.Verify.ForeignKeys.{
  Signature, signature_eq, foreign_key_signature, foreign_key_orphan_count, check_foreign_keys,
}

-- Both schemas declare the same foreign keys, each as often, whatever their order and names.
abbrev pub SameForeignKeys : SchemaSnapshot → SchemaSnapshot → Type 0
SameForeignKeys a b =
    (s : Signature)
    → occurrences ⦃e = signature_eq⦄ s (map foreign_key_signature a.foreign_keys)
      ≡ occurrences ⦃e = signature_eq⦄ s (map foreign_key_signature b.foreign_keys)

-- When the check of the foreign keys returns, it passes exactly when both schemas declare the same
-- foreign keys, each as often, all of the target are validated, and none of them has an orphan.
pub check_foreign_keys_iff :
    (target : Connection) (source_snapshot target_snapshot : SchemaSnapshot) (result : CheckResult)
    → check_foreign_keys target source_snapshot target_snapshot ≡ ok result
    → (is_pass result ≡ true) ↔ (
        SameForeignKeys source_snapshot target_snapshot
        × (is_zero (count_query target unvalidated_foreign_keys) ≡ true)
        × (all (λ f. is_zero (foreign_key_orphan_count target f)) target_snapshot.foreign_keys
            ≡ true))
unfolding check_foreign_keys
check_foreign_keys_iff target a b result h =
    let x = map foreign_key_signature a.foreign_keys in
    let y = map foreign_key_signature b.foreign_keys in
    let same = excess_both_iff ⦃e = signature_eq⦄ x y in
    let orphans = foreign_key_orphan_count target in
    elim (Result-cases (count_query target unvalidated_foreign_keys)) [
      | inr (e, p) ↦ absurd (ground arith)
      | inl (n, p) ↦ elim (Result-cases (sum_results orphans b.foreign_keys)) [
        | inr (e, q) ↦ absurd (ground arith)
        | inl (m, q) ↦
            (let zero_orphans = sum_results_zero orphans b.foreign_keys m q in
              (
                (λ k. (same.0 (ground arith, ground arith), ground arith, ground arith)),
                (λ k. let (p', q') = same.1 k.0 in ground (arith, p', q', k.1, k.2, zero_orphans)),
              ))
      ]
    ]
