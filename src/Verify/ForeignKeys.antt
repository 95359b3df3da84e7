-- ===== src/Verify/ForeignKeys.antt =====
-- `check_foreign_keys` of db_sanitizer/verify/checks.py.
pub mod Same
use db_sanitizer.Base.{ℕ, Bool, not, ◌&&◌, ◌||◌, List, [], ◌∷◌, map, length, ◌==◌, if◌then◌else◌}
use db_sanitizer.Base.Eq.{Eq, pair_eq, list_eq}
use db_sanitizer.Base.Counter.{excess}
use db_sanitizer.Base.Text.{Text, codes, text_eq, text_eq_instance}
use db_sanitizer.Errors.{Result, ok, err, ◌>>=◌, ◌>>◌, raise_if, verification_error}
use db_sanitizer.Policy.Models.{ColumnRef, Key, key}
use db_sanitizer.Policy.Schema.{ForeignKeyInfo, SchemaSnapshot}
use db_sanitizer.Verify.Checks.{CheckResult, required, status_of}
use db_sanitizer.Verify.Connection.{
  Connection, count_query, orphans, unvalidated_foreign_keys, table_identifier, sum_results,
}

abbrev pub Signature : Type 0
Signature = Text × (List Key × List Key)

abbrev pub signature_eq : Eq Signature
signature_eq = pair_eq ⦃f = pair_eq ⦃e = list_eq⦄ ⦃f = list_eq⦄⦄

-- `_foreign_key_signature`
abbrev pub foreign_key_signature : ForeignKeyInfo → Signature
foreign_key_signature f = (f.match_type, (map key f.source_columns, map key f.target_columns))

-- `zip(source_columns, target_columns, strict=True)`, by the names of the columns; the lengths
-- were compared before.
abbrev pub zip_columns : List ColumnRef → List ColumnRef → List (Text × Text)
zip_columns (s ∷ source) (t ∷ target) = (t.column, s.column) ∷ zip_columns source target
zip_columns _ _ = []

-- The query between the first columns of both ends.
unfoldable pub count_orphans :
    Connection → ForeignKeyInfo → List ColumnRef → List ColumnRef → Result ℕ
count_orphans target f (s ∷ source) (t ∷ columns) =
    table_identifier s.schema_name s.table >>= λ child.
    table_identifier t.schema_name t.table >>= λ parent. count_query target (
      orphans child parent (text_eq f.match_type (codes "SIMPLE"))
        (zip_columns (s ∷ source) (t ∷ columns)))
count_orphans target f _ _ = err verification_error

-- `_foreign_key_orphan_count`
unfoldable pub foreign_key_orphan_count : Connection → ForeignKeyInfo → Result ℕ
unfolding count_orphans
foreign_key_orphan_count target f =
    raise_if
      (length f.source_columns == 0 || not (length f.source_columns == length f.target_columns))
      verification_error
    >> count_orphans target f f.source_columns f.target_columns

-- `check_foreign_keys`
unfoldable pub check_foreign_keys :
    Connection → SchemaSnapshot → SchemaSnapshot → Result CheckResult
check_foreign_keys target source_snapshot target_snapshot =
    let source_signatures = map foreign_key_signature source_snapshot.foreign_keys in
    let target_signatures = map foreign_key_signature target_snapshot.foreign_keys in
    let missing = excess ⦃e = signature_eq⦄ source_signatures target_signatures in
    let extra = excess ⦃e = signature_eq⦄ target_signatures source_signatures in
    count_query target unvalidated_foreign_keys >>= λ unvalidated.
    sum_results (foreign_key_orphan_count target) target_snapshot.foreign_keys >>= λ orphan_rows.
    ok (record {
      id = codes "foreign_keys";
      severity = required;
      status = status_of (missing == 0 && extra == 0 && unvalidated == 0 && orphan_rows == 0);
    })
