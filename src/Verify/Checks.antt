-- ===== src/Verify/Checks.antt =====
-- The outcome of a check, and the checks on metadata and on statistics, of
-- db_sanitizer/verify/checks.py. The details of an outcome are counts; here they are left out.
pub mod Verdicts
use db_sanitizer.Base.{
  ℕ, Bool, true, false, not, ◌&&◌, ◌||◌, Option, none, some, List, [], ◌∷◌, all, any, count, filter,
  leb, ltb, length, ◌==◌, is_some, if◌then◌else◌,
}
use db_sanitizer.Base.Text.{Text, codes, text_eq, nonempty}
use db_sanitizer.Policy.Models.{ColumnRef}
use db_sanitizer.Policy.Names.{is_check_id}

pub data CheckSeverity : Type 0 where
  required advisory : CheckSeverity

pub data CheckStatus : Type 0 where
  pass fail warn : CheckStatus

pub record CheckResult : Type 0 where
  pub id : Text
  pub severity : CheckSeverity
  pub status : CheckStatus

abbrev pub is_required : CheckResult → Bool
is_required c = elim c.severity [ required ↦ true | advisory ↦ false ]

abbrev pub is_pass : CheckResult → Bool
is_pass c = elim c.status [ pass ↦ true | fail ↦ false | warn ↦ false ]

-- `CheckResult.is_blocking_failure`
unfoldable pub is_blocking_failure : CheckResult → Bool
is_blocking_failure c = is_required c && not (is_pass c)

abbrev pub status_of : Bool → CheckStatus
status_of passed = if passed then pass else fail

-- `check_source_schema_fingerprint`, on the fingerprint of the snapshot.
unfoldable pub check_source_schema_fingerprint : Text → Text → CheckResult
check_source_schema_fingerprint fingerprint expected_fingerprint = record {
  id = codes "source_schema_fingerprint";
  severity = required;
  status = status_of (text_eq fingerprint expected_fingerprint);
}

pub record ColumnStats : Type 0 where
  pub group_id : Text
  pub ref : ColumnRef
  pub source_nulls : ℕ
  pub target_nulls : ℕ
  pub source_distinct : ℕ
  pub target_distinct : ℕ
  pub available : Bool

-- `check_no_single_placeholder`
unfoldable pub check_no_single_placeholder : List ColumnStats → CheckResult
check_no_single_placeholder column_stats =
    let unavailable_columns = count (λ item. not item.available) column_stats in
    let candidate_columns =
      filter (λ item. item.available && ltb 1 item.source_distinct) column_stats in
    let collapsed_columns = count (λ item. leb item.target_distinct 1) candidate_columns in
    record {
      id = codes "no_single_placeholder";
      severity = required;
      status = status_of (unavailable_columns == 0 && collapsed_columns == 0);
    }
