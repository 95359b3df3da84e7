-- ===== src/Verify/RowCounts/Verdict.antt =====
-- The verdict of `check_table_row_counts`.
use db_sanitizer.Base.{
  ℕ, ◌≡◌, refl, sym, ap, ◌∙◌, Bool, true, false, not, ◌&&◌, ◌||◌, List, [], ◌∷◌, ◌++◌, all,
  all-count, count, count-append, filter, ◌==◌, arith, inl, inr, Bool-cases,
}
use db_sanitizer.Base.Eq.{elem, pair_eq, pair_beq_iff}
use db_sanitizer.Base.Sort.{count-sort}
use db_sanitizer.Base.Text.{Text, text_eq_instance}
use db_sanitizer.Errors.{Result, ok, Result-cases}
use db_sanitizer.Policy.Names.{is_identifier}
use db_sanitizer.Policy.Schema.{SchemaSnapshot, table_refs, table_ltb}
use db_sanitizer.Verify.Checks.{CheckResult, is_pass}
use db_sanitizer.Verify.RowCounts.{
  TableStats, RowCount, count_if, new_table_stats, union, compare_table, compare_tables,
  check_table_row_counts,
}

abbrev pub same_rows : Result ℕ → Result ℕ → Bool
same_rows (ok m) (ok n) = m == n
same_rows _ _ = false

count-filter :
    (test drop : Text × Text → Bool) (tables : List (Text × Text))
    → (count (λ t. not (test t)) (filter (λ t. not (drop t)) tables) == 0)
      ≡ all (λ t. drop t || test t) tables
count-filter test drop [] = refl
count-filter test drop (table ∷ tables) = ground (arith, count-filter test drop tables)

-- A test of the union is one of the first list, and of the second where it is not in the first.
all-union :
    (test : Text × Text → Bool) (a b : List (Text × Text))
    → all test (union a b) ≡ (all test a && all (λ table. elem table a || test table) b)
all-union test a b =
    let fails : Text × Text → Bool = λ table. not (test table) in
    let listed : Text × Text → Bool = λ table. elem table a in
    let added = filter (λ table. not (listed table)) b in
    sym (all-count test (union a b))
    ∙ ap (λ n. n == 0) (count-sort table_ltb fails (a ++ added) ∙ count-append fails a added)
    ∙ ground (arith, all-count test a, count-filter test listed b)

all-absorbs :
    (f g : Text × Text → Bool) (tables : List (Text × Text))
    → all (λ t. f t || (f t && g t)) tables ≡ all f tables
all-absorbs f g [] = refl
all-absorbs f g (table ∷ tables) = ground (arith, all-absorbs f g tables)

all-elem-cons :
    (x : Text × Text) (a tables : List (Text × Text))
    → all (λ t. elem t a) tables ≡ true
    → all (λ t. elem t (x ∷ a)) tables ≡ true
all-elem-cons x a [] h = refl
all-elem-cons x a (table ∷ tables) h = ground (arith, all-elem-cons x a tables)

all-elem : (a : List (Text × Text)) → all (λ t. elem t a) a ≡ true
all-elem [] = refl
all-elem (x ∷ a) = ground (arith, all-elem-cons x a a (all-elem a), (pair_beq_iff x x).1 refl)

all-within :
    (g : Text × Text → Bool) (a tables : List (Text × Text))
    → all (λ t. elem t a) tables ≡ true
    → all (λ t. elem t a && g t) tables ≡ all g tables
all-within g a [] h = refl
all-within g a (table ∷ tables) h = ground (arith, all-within g a tables)

module _ (source target : RowCount) (source_tables target_tables : List (Text × Text)) where
  -- The table is in both schemas, with the same number of rows.
  abbrev pub keeps_rows : Text × Text → Bool
  keeps_rows table =
      elem table source_tables
      && elem table target_tables
      && same_rows (source table) (target table)

  both_counted :
      (table : Text × Text) (m n : ℕ)
      → count_if (elem table source_tables) source table ≡ ok m
      → count_if (elem table target_tables) target table ≡ ok n
      → (elem table source_tables && elem table target_tables && m == n) ≡ keeps_rows table
  both_counted table m n x y = elim (Bool-cases (elem table source_tables)) [
    | inr gone ↦ ground arith
    | inl here ↦ elim (Bool-cases (elem table target_tables)) [
      | inr gone ↦ ground arith
      | inl there ↦ ground arith
    ]
  ]

  compare_table-equal :
      (table : Text × Text) (item : TableStats)
      → compare_table source target source_tables target_tables table ≡ ok item
      → item.row_count_equal ≡ keeps_rows table
  unfolding compare_table new_table_stats
  compare_table-equal table item h =
      let source_rows = count_if (elem table source_tables) source table in
      let target_rows = count_if (elem table target_tables) target table in
      elim (Result-cases source_rows) [
        | inr (e, x) ↦ absurd (ground arith)
        | inl (m, x) ↦ elim (Result-cases target_rows) [
          | inr (e, y) ↦ absurd (ground arith)
          | inl (n, y) ↦ elim (Bool-cases (is_identifier table.0 && is_identifier table.1)) [
            | inr unsafe ↦ absurd (ground arith)
            | inl safe ↦
                (let q : (elem table source_tables && elem table target_tables && m == n)
                      ≡ item.row_count_equal =
                    ground arith in
                  sym q ∙ both_counted table m n x y)
          ]
        ]
      ]

  compare_tables-equal :
      (tables : List (Text × Text)) (stats : List TableStats)
      → compare_tables source target source_tables target_tables tables ≡ ok stats
      → (count (λ item. not item.row_count_equal) stats == 0) ≡ all keeps_rows tables
  unfolding compare_tables
  compare_tables-equal [] stats h = ground arith
  compare_tables-equal (table ∷ tables) stats h =
      elim (Result-cases (compare_table source target source_tables target_tables table)) [
        | inr (e, x) ↦ absurd (ground arith)
        | inl (item, x) ↦
            elim (Result-cases (compare_tables source target source_tables target_tables tables)) [
              | inr (e, y) ↦ absurd (ground arith)
              | inl (rest, y) ↦
                  (let q : item ∷ rest ≡ stats = ground arith in
                    ap (λ l. count (λ i. not i.row_count_equal) l == 0) (sym q)
                    ∙ ground (
                      arith,
                      compare_table-equal table item x,
                      compare_tables-equal tables rest y,
                    ))
            ]
      ]

-- When the rows of all tables can be counted, the check passes exactly when every table of the
-- source is in the target with as many rows, and every table of the target is in the source.
pub check_table_row_counts_iff :
    (source target : RowCount) (source_snapshot target_snapshot : SchemaSnapshot)
    (stats : List TableStats) (result : CheckResult)
    → check_table_row_counts source target source_snapshot target_snapshot ≡ ok (stats, result)
    → is_pass result ≡ (
        all
          (λ table.
            elem table (table_refs target_snapshot) && same_rows (source table) (target table))
          (table_refs source_snapshot)
        && all (λ table. elem table (table_refs source_snapshot)) (table_refs target_snapshot))
unfolding check_table_row_counts
check_table_row_counts_iff source target source_snapshot target_snapshot stats result h =
    let a = table_refs source_snapshot in
    let b = table_refs target_snapshot in
    let keeps : Text × Text → Bool =
      λ table. elem table b && same_rows (source table) (target table) in
    elim (Result-cases (compare_tables source target a b (union a b))) [
      | inr (e, x) ↦ absurd (ground arith)
      | inl (rows, x) ↦ ground (
        arith,
        compare_tables-equal source target a b (union a b) rows x,
        all-union (keeps_rows source target a b) a b,
        all-within keeps a a (all-elem a),
        all-absorbs (λ table. elem table a) keeps b,
      )
    ]
