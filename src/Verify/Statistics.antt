-- ===== src/Verify/Statistics.antt =====
-- `check_configured_column_statistics` of db_sanitizer/verify/checks.py. The aggregate queries of a
-- connection are an argument: the number of NULLs and of distinct values of a column, or an error.
pub mod Equal
use db_sanitizer.Base.{
  ℕ, ◌+◌, Bool, true, false, not, ◌&&◌, ◌||◌, Option, none, some, List, [], ◌∷◌, ◌++◌, map, ◌==◌,
  is_some, if◌then◌else◌,
}
use db_sanitizer.Base.Sort.{sort}
use db_sanitizer.Base.Text.{Text, codes, text_eq, text_ltb}
use db_sanitizer.Errors.{Result, ok, err, ◌>>=◌, ◌>>◌, raise_if, unexpected}
use db_sanitizer.Policy.Names.{is_identifier}
use db_sanitizer.Policy.Models.{ColumnRef, Key, key, ConsistencyGroup, Groups}
use db_sanitizer.Policy.Schema.{SchemaSnapshot, column_for}
use db_sanitizer.Verify.Checks.{ColumnStats, CheckResult, required, status_of}

-- The order of the keys of columns.
abbrev pub key_ltb : Key → Key → Bool
key_ltb (a, (b, c)) (x, (y, z)) =
    if text_eq a x then if text_eq b y then text_ltb c z else text_ltb b y else text_ltb a x

abbrev pub Item : Type 0
Item = Text × (ConsistencyGroup × ColumnRef)

abbrev pub items_in : Text × ConsistencyGroup → List Item
items_in (group_id, group) =
    map (λ ref. (group_id, (group, ref))) (sort (λ a b. key_ltb (key a) (key b)) group.columns)

unfoldable pub items_of : Groups → List Item
items_of [] = []
items_of (item ∷ groups) = items_in item ++ items_of groups

-- `_configured_columns`
unfoldable pub configured_items : Groups → List Item
configured_items groups = items_of (sort (λ a b. text_ltb a.0 b.0) groups)

-- Without the groups themselves.
unfoldable pub configured_columns : Groups → List (Text × ColumnRef)
configured_columns groups = map (λ item. (item.0, item.1.1)) (configured_items groups)

-- `_column_counts` on one connection.
abbrev pub ColumnCounts : Type 0
ColumnCounts = ColumnRef → Result (ℕ × ℕ)

-- The variables of the loop.
pub record Tallies : Type 0 where
  pub stats : List ColumnStats
  pub unavailable_columns : ℕ
  pub null_mismatches : ℕ
  pub distinct_mismatches : ℕ

-- `count += a != b`
abbrev pub add_if_unequal : ℕ → ℕ → ℕ → ℕ
add_if_unequal count a b = if a == b then count else count + 1

abbrev pub unavailable : Text → ColumnRef → Tallies → Tallies
unavailable group_id ref found = record found {
  unavailable_columns = found.unavailable_columns + 1;
  stats =
      found.stats
      ++ (record {
        group_id = group_id;
        ref = ref;
        source_nulls = 0;
        target_nulls = 0;
        source_distinct = 0;
        target_distinct = 0;
        available = false;
      }
          ∷ []);
}

abbrev pub compared : Text → ColumnRef → ℕ × ℕ → ℕ × ℕ → Tallies → Tallies
compared group_id ref (source_nulls, source_distinct) (target_nulls, target_distinct) found =
    record found {
      null_mismatches = add_if_unequal found.null_mismatches source_nulls target_nulls;
      distinct_mismatches =
          add_if_unequal found.distinct_mismatches source_distinct target_distinct;
      stats =
          found.stats
          ++ (record {
            group_id = group_id;
            ref = ref;
            source_nulls = source_nulls;
            target_nulls = target_nulls;
            source_distinct = source_distinct;
            target_distinct = target_distinct;
            available = true;
          }
              ∷ []);
    }

abbrev pub is_available : SchemaSnapshot → SchemaSnapshot → ColumnRef → Bool
is_available source_snapshot target_snapshot ref =
    is_some (column_for source_snapshot ref) && is_some (column_for target_snapshot ref)

-- `ColumnStats.__post_init__`: a `ValueError` for an id that is no identifier.
unfoldable pub new_column_stats : Text → Result (Unit {0})
new_column_stats group_id = raise_if (not (is_identifier group_id)) unexpected

module _ (source target : ColumnCounts) (source_snapshot target_snapshot : SchemaSnapshot) where
  -- The body of the loop.
  unfoldable pub tally_column : Text × ColumnRef → Tallies → Result Tallies
  tally_column (group_id, ref) found =
      if not (is_available source_snapshot target_snapshot ref)
      then (new_column_stats group_id >> ok (unavailable group_id ref found))
      else (source ref >>= λ a.
          target ref >>= λ b. new_column_stats group_id >> ok (compared group_id ref a b found))

  unfoldable pub tally_columns : List (Text × ColumnRef) → Tallies → Result Tallies
  tally_columns [] found = ok found
  tally_columns (column ∷ columns) found = tally_column column found >>= tally_columns columns

  unfoldable pub check_configured_column_statistics :
      Groups → Result (List ColumnStats × CheckResult)
  check_configured_column_statistics groups =
      tally_columns (configured_columns groups) (record {
        stats = [];
        unavailable_columns = 0;
        null_mismatches = 0;
        distinct_mismatches = 0;
      })
      >>= λ found. ok (
        found.stats,
        record {
          id = codes "configured_column_statistics";
          severity = required;
          status = status_of (
              found.unavailable_columns == 0
              && found.null_mismatches == 0
              && found.distinct_mismatches == 0);
        },
      )
