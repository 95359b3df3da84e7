-- ===== src/Verify/Report/Status.antt =====
-- The status of a report, and its blocking failures.
use db_sanitizer.Base.{
  ◌≡◌, ◌↔◌, refl, true, not, ◌&&◌, List, [], ◌∷◌, all, any, filter, length, ◌==◌, arith,
}
use db_sanitizer.Verify.Checks.{CheckResult, is_required, is_pass, is_blocking_failure}
use db_sanitizer.Verify.Report.{RunReport, passed, report_status}

filter-blocking :
    (checks : List CheckResult)
    → all is_pass (filter is_required checks) ≡ not (any is_blocking_failure checks)
unfolding is_blocking_failure
filter-blocking [] = refl
filter-blocking (c ∷ checks) = ground (arith, filter-blocking checks)

filter-any :
    (checks : List CheckResult)
    → not (length (filter is_required checks) == 0) ≡ any is_required checks
filter-any [] = refl
filter-any (c ∷ checks) = ground (arith, filter-any checks)

-- A report has the status `passed` exactly when it has a required check and none of its checks is
-- a blocking failure.
pub report_status_iff :
    (report : RunReport)
    → (report_status report ≡ passed)
      ↔ ((any is_required report.checks && not (any is_blocking_failure report.checks)) ≡ true)
unfolding report_status
report_status_iff report = ground (arith, filter-blocking report.checks, filter-any report.checks)
