-- ===== src/Mapping/Registry.antt =====
-- The class `MappingRegistry` of db_sanitizer/mapping/registry.py: one SQLite database, whose
-- statements succeed unless a constraint stops them. Statements stand in Mapping/Tables.antt.
pub mod Rows
pub mod Invariant
pub mod OneToOne
pub mod Keys
pub mod Assign
pub mod Accumulator
pub mod History
use db_sanitizer.Base.{
  ℕ, zero, ◌+◌, Bool, true, false, not, ◌&&◌, ◌||◌, Option, none, some, List, [], ◌∷◌, ◌++◌, all,
  any, count, length, take, ltb, leb, ◌==◌, is_some, map, if◌then◌else◌,
}
use db_sanitizer.Base.Eq.{elem}
use db_sanitizer.Base.Text.{Text, text_eq, text_eq_instance, nonempty}
use db_sanitizer.Errors.{
  Error, Result, ok, err, registry_error, registry_compatibility_error, registry_conflict_error,
}
use db_sanitizer.Exec.{
  Exec, pure, raise, lift, gets, transaction, ◌>>=◌, ◌>>◌, modify, raise_if, for_each,
}
use db_sanitizer.Mapping.Tables.{
  RunMetadata, MappingRecord, GenerationStats, HmacWork, holds, has_key, insert_or_ignore,
  select_key, is_assigned, update_replacement, pending_keys,
}

pub record Registry : Type 0 where
  pub run_meta : List RunMetadata
  pub mappings : List MappingRecord
  pub generation_stats : Option GenerationStats
  pub work : List HmacWork

-- A file on which only `_SCHEMA` has run.
abbrev pub empty : Registry
empty = record { run_meta = []; mappings = []; generation_stats = none; work = [] }

-- `c in "0123456789abcdef"`
unfoldable pub is_hex : ℕ → Bool
is_hex c = (leb b'0' c && leb c b'9') || (leb b'a' c && leb c b'f')

unfoldable pub is_digest : Text → Bool
unfolding is_hex
is_digest value = length value == 64 && all is_hex value

unfoldable pub validate_key : Text → Text → Result (Unit {0})
unfolding is_digest
validate_key group_id value =
    if not (nonempty group_id)
    then err registry_error
    else if not (is_digest value)
    then err registry_error
    else ok tt

unfoldable pub validate_metadata : RunMetadata → Result (Unit {0})
validate_metadata m =
    if nonempty m.run_id
      && nonempty m.policy_sha256
      && nonempty m.source_schema_sha256
      && nonempty m.llm_provider
      && nonempty m.llm_model
      && nonempty m.hmac_key_fingerprint
      && nonempty m.status
    then ok tt
    else err registry_error

unfoldable pub same_metadata : RunMetadata → RunMetadata → Bool
same_metadata a b =
    text_eq a.run_id b.run_id
    && text_eq a.policy_sha256 b.policy_sha256
    && text_eq a.source_schema_sha256 b.source_schema_sha256
    && text_eq a.llm_provider b.llm_provider
    && text_eq a.llm_model b.llm_model
    && text_eq a.hmac_key_fingerprint b.hmac_key_fingerprint
    && text_eq a.status b.status

-- `INSERT OR IGNORE INTO generation_stats (id) VALUES (1)`
unfoldable pub ensure_stats : Option GenerationStats → Option GenerationStats
ensure_stats none =
    some (record { batches = 0; accepted_items = 0; rejected_items = 0; duration = 0 })
ensure_stats (some stats) = some stats

-- What `initialize` does with the rows of `run_meta` that it has read.
unfoldable pub initialize_from : RunMetadata → List RunMetadata → Exec Registry (Unit {0})
unfolding same_metadata ensure_stats
initialize_from metadata [] = transaction (do
  modify (λ r. record r { run_meta = metadata ∷ [] })
  modify (λ r. record r { generation_stats = ensure_stats r.generation_stats }))
initialize_from metadata (row ∷ rows) = do
  raise_if (not (length rows == 0) || not (same_metadata row metadata)) registry_compatibility_error
  transaction (modify (λ r. record r { generation_stats = ensure_stats r.generation_stats }))

unfoldable pub initialize : RunMetadata → Exec Registry (Unit {0})
unfolding initialize_from
initialize metadata = do
  lift (validate_metadata metadata)
  rows ← gets (λ r. r.run_meta)
  initialize_from metadata rows

-- `insert_source_key`: whether the key is new, by the statement's row count.
unfoldable pub insert_source_key : Text → Text → Exec Registry Bool
insert_source_key group_id source_hmac = do
  lift (validate_key group_id source_hmac)
  known ← gets (λ r. has_key group_id source_hmac r.mappings)
  transaction
      (modify (λ r. record r { mappings = insert_or_ignore group_id source_hmac r.mappings }))
  pure (not known)

-- `executemany` over the keys, with the row counts added up.
unfoldable pub insert_all : Text → List Text → Exec Registry ℕ
insert_all group_id [] = pure 0
insert_all group_id (source_hmac ∷ keys) = do
  known ← gets (λ r. has_key group_id source_hmac r.mappings)
  modify (λ r. record r { mappings = insert_or_ignore group_id source_hmac r.mappings })
  inserted ← insert_all group_id keys
  pure (if known then inserted else inserted + 1)

unfoldable pub validate_keys : Text → List Text → Result (Unit {0})
validate_keys group_id [] = ok tt
validate_keys group_id (source_hmac ∷ keys) = elim (validate_key group_id source_hmac) [
  | ok _ ↦ validate_keys group_id keys
  | err e ↦ err e
]

unfoldable pub insert_source_keys : Text → List Text → Exec Registry ℕ
insert_source_keys group_id source_hmacs = do
  lift (validate_keys group_id source_hmacs)
  transaction (insert_all group_id source_hmacs)

-- `list_unassigned`; `limit` is `None` or a number.
unfoldable pub list_unassigned : Text → Option ℕ → Exec Registry (List Text)
list_unassigned group_id none = do
  raise_if (not (nonempty group_id)) registry_error
  gets (λ r. pending_keys group_id r.mappings)
list_unassigned group_id (some limit) = do
  raise_if (not (nonempty group_id)) registry_error
  raise_if (ltb limit 1) registry_error
  gets (λ r. take limit (pending_keys group_id r.mappings))

-- `record_generation_stats`: the arguments are natural numbers, so the test for negative ones is
-- gone. Without the row the statement changes nothing.
unfoldable pub add_stats : GenerationStats → Option GenerationStats → Option GenerationStats
add_stats more none = none
add_stats more (some stats) = some (record {
  batches = stats.batches + more.batches;
  accepted_items = stats.accepted_items + more.accepted_items;
  rejected_items = stats.rejected_items + more.rejected_items;
  duration = stats.duration + more.duration;
})

unfoldable pub record_generation_stats : GenerationStats → Exec Registry (Unit {0})
unfolding add_stats
record_generation_stats more =
    transaction (modify (λ r. record r { generation_stats = add_stats more r.generation_stats }))

unfoldable pub generation_stats : Exec Registry GenerationStats
generation_stats r = elim r.generation_stats [
  | some stats ↦ (ok stats, r)
  | none ↦ (err registry_error, r)
]

unfoldable pub has_source_key : Text → Text → Exec Registry Bool
has_source_key group_id source_hmac = do
  lift (validate_key group_id source_hmac)
  gets (λ r. has_key group_id source_hmac r.mappings)

-- `SELECT 1 FROM mappings WHERE group_id = ? AND replacement_hmac = ?`
abbrev pub allocates : Text → Text → MappingRecord → Bool
allocates group_id replacement_hmac row =
    text_eq row.group_id group_id && holds replacement_hmac row.replacement_hmac

unfoldable pub has_replacement_hmac : Text → Text → Exec Registry Bool
has_replacement_hmac group_id replacement_hmac = do
  lift (validate_key group_id replacement_hmac)
  gets (λ r. any (allocates group_id replacement_hmac) r.mappings)

-- `mapping_count`; the flag is `assigned_only`.
unfoldable pub mapping_count : Text → Bool → Exec Registry ℕ
mapping_count group_id assigned_only = do
  raise_if (not (nonempty group_id)) registry_error
  gets (λ r.
      count (λ row. text_eq row.group_id group_id && (not assigned_only || is_some row.replacement))
        r.mappings)

abbrev pub found : Option MappingRecord → Option Text
found none = none
found (some row) = row.replacement

unfoldable pub lookup : Text → Text → Exec Registry (Option Text)
lookup group_id source_hmac = do
  lift (validate_key group_id source_hmac)
  gets (λ r. found (select_key group_id source_hmac r.mappings))
