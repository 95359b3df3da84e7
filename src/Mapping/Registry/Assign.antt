-- ===== src/Mapping/Registry/Assign.antt =====
-- `assign_replacements` and `assign_replacement` of the class `MappingRegistry`.
pub mod Keeps
pub mod Effect
pub mod Outcome
pub mod Stable
pub mod Pending
use db_sanitizer.Base.{
  ℕ, zero, ◌+◌, Bool, true, false, not, ◌&&◌, ◌||◌, Option, none, some, List, [], ◌∷◌, map, count,
  length, ◌==◌, is_some, if◌then◌else◌,
}
use db_sanitizer.Base.Eq.{elem}
use db_sanitizer.Base.Text.{Text, text_eq, text_eq_instance, nonempty}
use db_sanitizer.Errors.{Error, Result, ok, err, registry_conflict_error}
use db_sanitizer.Exec.{Exec, pure, raise, lift, gets, transaction, ◌>>=◌, ◌>>◌, modify, raise_if}
use db_sanitizer.Mapping.Tables.{MappingRecord, has_key, select_key, update_replacement}
use db_sanitizer.Mapping.Registry.{Registry, validate_key, add_stats}

-- A triple of the batch.
pub record Assignment : Type 0 where
  pub source_hmac : Text
  pub replacement : Text
  pub replacement_hmac : Text

-- The loop that checks the batch, with the sets of sources and replacements seen so far.
unfoldable pub validate_batch : Text → List Text → List Text → List Assignment → Result (Unit {0})
unfolding validate_key
validate_batch group_id sources replacements [] = ok tt
validate_batch group_id sources replacements (a ∷ batch) =
    elim (validate_key group_id a.source_hmac) [
      | err e ↦ err e
      | ok _ ↦ elim (validate_key group_id a.replacement_hmac) [
        | err e ↦ err e
        | ok _ ↦
            if not (nonempty a.replacement)
            then err registry_conflict_error
            else if elem a.source_hmac sources || elem a.replacement replacements
            then err registry_conflict_error
            else validate_batch group_id (a.source_hmac ∷ sources) (a.replacement ∷ replacements)
                batch
      ]
    ]

abbrev pub is_unassigned : Option MappingRecord → Bool
is_unassigned none = false
is_unassigned (some row) = not (is_some row.replacement)

-- The loop of `SELECT`s: each source is registered and free, and no replacement is a source.
unfoldable pub check_rows : Text → List Assignment → List MappingRecord → Result (Unit {0})
check_rows group_id [] rows = ok tt
check_rows group_id (a ∷ batch) rows =
    if not (is_unassigned (select_key group_id a.source_hmac rows))
    then err registry_conflict_error
    else if has_key group_id a.replacement_hmac rows
    then err registry_conflict_error
    else check_rows group_id batch rows

-- `executemany` of the `UPDATE`: it stops at the first clash, and keeps what it has written.
unfoldable pub update_all : Text → List Assignment → Exec Registry (Unit {0})
update_all group_id [] r = (ok tt, r)
update_all group_id (a ∷ batch) r =
    elim (update_replacement group_id a.source_hmac a.replacement a.replacement_hmac r.mappings) [
      | none ↦ (err registry_conflict_error, r)
      | some rows ↦ update_all group_id batch (record r { mappings = rows })
    ]

-- `SELECT COUNT(*) ... WHERE group_id = ? AND source_hmac IN (...) AND replacement IS NOT NULL`
abbrev pub assigned_in : Text → List Text → MappingRecord → Bool
assigned_in group_id sources row =
    text_eq row.group_id group_id && elem row.source_hmac sources && is_some row.replacement

abbrev pub sources_of : List Assignment → List Text
sources_of [] = []
sources_of (a ∷ batch) = a.source_hmac ∷ sources_of batch

-- `if record_generated_items:`
unfoldable pub record_generated : Bool → ℕ → Exec Registry (Unit {0})
record_generated false accepted = pure tt
record_generated true accepted = modify (λ r. record r {
  generation_stats =
      add_stats
        (record { batches = 0; accepted_items = accepted; rejected_items = 0; duration = 0 })
        r.generation_stats;
})

-- The block under `with self._connection:`.
unfoldable pub assign_block : Text → List Assignment → Bool → Exec Registry (Unit {0})
unfolding check_rows update_all record_generated
assign_block group_id batch record_generated_items = do
  rows ← gets (λ r. r.mappings)
  lift (check_rows group_id batch rows)
  update_all group_id batch
  assigned ← gets (λ r. count (assigned_in group_id (sources_of batch)) r.mappings)
  raise_if (not (assigned == length batch)) registry_conflict_error
  record_generated record_generated_items (length batch)

unfoldable pub assign_replacements : Text → List Assignment → Bool → Exec Registry (Unit {0})
unfolding validate_batch assign_block
assign_replacements group_id [] record_generated_items = pure tt
assign_replacements group_id (a ∷ batch) record_generated_items = do
  lift (validate_batch group_id [] [] (a ∷ batch))
  transaction (assign_block group_id (a ∷ batch) record_generated_items)

unfoldable pub assign_replacement : Text → Assignment → Exec Registry (Unit {0})
unfolding assign_replacements
assign_replacement group_id a = assign_replacements group_id (a ∷ []) false
