-- ===== src/Verify/Report.antt =====
-- db_sanitizer/verify/report.py: what a report must hold, and the status that is derived from it.
-- Times count the ticks of some clock; rendering and files are outside.
pub mod Status
use db_sanitizer.Base.{
  ℕ, Bool, true, false, not, ◌&&◌, ◌||◌, List, [], ◌∷◌, ◌++◌, all, any, filter, length, leb, map,
  ◌==◌, if◌then◌else◌,
}
use db_sanitizer.Base.Eq.{distinct, pair_eq}
use db_sanitizer.Base.Text.{Text, nonempty, text_eq_instance}
use db_sanitizer.Mapping.Normalization.{Unicode, strip}
use db_sanitizer.Policy.Models.{EntityType}
use db_sanitizer.Policy.Names.{is_identifier, is_run_id, is_hash, is_check_id}
use db_sanitizer.Verify.Checks.{CheckResult, is_required, is_pass}

pub data RunStatus : Type 0 where
  passed failed : RunStatus

pub record LlmStats : Type 0 where
  pub provider : Text
  pub model : Text
  pub batches : ℕ
  pub accepted_items : ℕ
  pub rejected_items : ℕ
  pub duration : ℕ

-- The name is the schema's and the table's.
pub record TableReport : Type 0 where
  pub name : Text × Text
  pub source_rows : ℕ
  pub target_rows : ℕ
  pub row_count_equal : Bool

pub record GroupReport : Type 0 where
  pub id : Text
  pub entity_type : EntityType
  pub mapping_count : ℕ
  pub distinct_source : ℕ
  pub distinct_target : ℕ
  pub nulls_source : ℕ
  pub nulls_target : ℕ

pub record RunReport : Type 0 where
  pub run_id : Text
  pub started_at : ℕ
  pub finished_at : ℕ
  pub policy_sha256 : Text
  pub source_schema_sha256 : Text
  pub llm : LlmStats
  pub tables : List TableReport
  pub groups : List GroupReport
  pub checks : List CheckResult

-- Whether the models accept what they are given: `__post_init__` of each.
unfoldable pub is_valid_llm_stats : Unicode → LlmStats → Bool
is_valid_llm_stats u l =
    nonempty (strip u l.provider)
    && nonempty (strip u l.model)
    && leb 1 l.batches
    && leb 1 l.accepted_items

unfoldable pub is_valid_table_report : TableReport → Bool
is_valid_table_report t = is_identifier t.name.0 && is_identifier t.name.1

unfoldable pub is_valid_run_report : Unicode → RunReport → Bool
unfolding is_valid_llm_stats is_valid_table_report
is_valid_run_report u r =
    is_run_id r.run_id
    && leb r.started_at r.finished_at
    && is_hash r.policy_sha256
    && is_hash r.source_schema_sha256
    && is_valid_llm_stats u r.llm
    && all is_valid_table_report r.tables
    && all (λ g. is_identifier g.id) r.groups
    && all (λ c. is_check_id c.id) r.checks
    && not (length r.tables == 0)
    && not (length r.groups == 0)
    && not (length r.checks == 0)
    && distinct (map (λ t. t.name) r.tables)
    && distinct (map (λ g. g.id) r.groups)
    && distinct (map (λ c. c.id) r.checks)

-- `RunReport.status`
unfoldable pub report_status : RunReport → RunStatus
report_status report =
    let required_checks = filter is_required report.checks in
    if not (length required_checks == 0) && all is_pass required_checks then passed else failed
