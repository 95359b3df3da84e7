-- ===== src/Verify/Statistics/Equal.antt =====
-- The verdict and the rows of `check_configured_column_statistics`.
use db_sanitizer.Base.{
  ℕ, ◌≡◌, refl, sym, ap, ◌∙◌, Bool, false, ◌&&◌, List, [], ◌∷◌, ◌++◌, map, all, ◌==◌, arith, inl,
  inr, Bool-cases,
}
use mathlib.Core.Path.{subst}
use mathlib.Core.List.{append-nil, append_assoc}
use db_sanitizer.Base.Text.{Text}
use db_sanitizer.Errors.{Result, ok, Result-cases}
use db_sanitizer.Policy.Models.{ColumnRef, Groups}
use db_sanitizer.Policy.Schema.{SchemaSnapshot}
use db_sanitizer.Verify.Checks.{ColumnStats, CheckResult, is_pass}
use db_sanitizer.Verify.Statistics.{
  ColumnCounts, Tallies, configured_columns, is_available, tally_column, tally_columns, unavailable,
  compared, new_column_stats, check_configured_column_statistics,
}

-- Two answers with the same numbers.
abbrev pub same_counts : Result (ℕ × ℕ) → Result (ℕ × ℕ) → Bool
same_counts (ok (a, b)) (ok (c, d)) = a == c && b == d
same_counts _ _ = false

-- No mismatch so far.
abbrev is_clean : Tallies → Bool
is_clean found =
    found.unavailable_columns == 0 && found.null_mismatches == 0 && found.distinct_mismatches == 0

abbrev pub row_column : ColumnStats → Text × ColumnRef
row_column item = (item.group_id, item.ref)

map-append :
    (xs ys : List ColumnStats) → map row_column (xs ++ ys) ≡ map row_column xs ++ map row_column ys
map-append [] ys = refl
map-append (x ∷ xs) ys = ap (λ l. row_column x ∷ l) (map-append xs ys)

module _ (source target : ColumnCounts) (source_snapshot target_snapshot : SchemaSnapshot) where
  -- The column is in both schemas, with the same numbers of NULLs and of distinct values.
  abbrev pub keeps_counts : Text × ColumnRef → Bool
  keeps_counts (group_id, ref) =
      is_available source_snapshot target_snapshot ref && same_counts (source ref) (target ref)

  -- What a part of the loop does.
  abbrev Advances : List (Text × ColumnRef) → Tallies → Tallies → Type 0
  Advances columns found t =
      (is_clean t ≡ (is_clean found && all keeps_counts columns))
      × (map row_column t.stats ≡ map row_column found.stats ++ columns)

  tally_column-Advances :
      (column : Text × ColumnRef) (found t : Tallies)
      → tally_column source target source_snapshot target_snapshot column found ≡ ok t
      → Advances (column ∷ []) found t
  unfolding tally_column
  tally_column-Advances (group_id, ref) found t h =
      elim (Bool-cases (is_available source_snapshot target_snapshot ref)) [
        | inr gone ↦ elim (Result-cases (new_column_stats group_id)) [
          | inr (e, z) ↦ absurd (ground arith)
          | inl (done, z) ↦
              (let q : unavailable group_id ref found ≡ t = ground arith in
                subst (Advances ((group_id, ref) ∷ []) found) q
                  (ground arith, map-append found.stats _))
        ]
        | inl there ↦ elim (Result-cases (source ref)) [
          | inr (e, x) ↦ absurd (ground arith)
          | inl (a, x) ↦ elim (Result-cases (target ref)) [
            | inr (e, y) ↦ absurd (ground arith)
            | inl (b, y) ↦ elim (Result-cases (new_column_stats group_id)) [
              | inr (e, z) ↦ absurd (ground arith)
              | inl (done, z) ↦
                  (let q : compared group_id ref a b found ≡ t = ground arith in
                    subst (Advances ((group_id, ref) ∷ []) found) q
                      (ground arith, map-append found.stats _))
            ]
          ]
        ]
      ]

  tally_columns-Advances :
      (columns : List (Text × ColumnRef)) (found t : Tallies)
      → tally_columns source target source_snapshot target_snapshot columns found ≡ ok t
      → Advances columns found t
  unfolding tally_columns
  tally_columns-Advances [] found t h =
      let q : found ≡ t = ground arith in
      subst (Advances [] found) q (ground arith, sym (append-nil (map row_column found.stats)))
  tally_columns-Advances (column ∷ columns) found t h =
      elim (Result-cases
        (tally_column source target source_snapshot target_snapshot column found)) [
          | inr (e, x) ↦ absurd (ground arith)
          | inl (next, x) ↦
              (let (here, rows) = tally_column-Advances column found next x in
                let (later, rows') = tally_columns-Advances columns next t (ground arith) in
                (
                  ground (arith, here, later),
                  rows'
                      ∙ ap (λ l. l ++ columns) rows
                      ∙ append_assoc (map row_column found.stats) (column ∷ []) columns,
                ))
        ]

  -- When the statistics of the configured columns are complete, there is one row for each
  -- configured column, in order, and the check passes exactly when every column is in both schemas
  -- with as many NULLs and as many distinct values in the target as in the source.
  pub check_configured_column_statistics_iff :
      (groups : Groups) (stats : List ColumnStats) (result : CheckResult)
      → check_configured_column_statistics source target source_snapshot target_snapshot groups
        ≡ ok (stats, result)
      → (map row_column stats ≡ configured_columns groups)
        × (is_pass result ≡ all keeps_counts (configured_columns groups))
  unfolding check_configured_column_statistics
  check_configured_column_statistics_iff groups stats result h =
      let none_yet : Tallies = record {
        stats = [];
        unavailable_columns = 0;
        null_mismatches = 0;
        distinct_mismatches = 0;
      } in
      elim (Result-cases (
        tally_columns source target source_snapshot target_snapshot (configured_columns groups)
          none_yet)) [
            | inr (e, x) ↦ absurd (ground arith)
            | inl (found, x) ↦
                (let (clean, rows) =
                    tally_columns-Advances (configured_columns groups) none_yet found x in
                  let q : found.stats ≡ stats = ground arith in
                  (ap (map row_column) (sym q) ∙ rows, ground (arith, clean)))
          ]
