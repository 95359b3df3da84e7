-- ===== src/Mapping/Registry/Accumulator.antt =====
-- The class `VerificationHmacAccumulator` of db_sanitizer/mapping/registry.py, and
-- `verification_hmac_accumulator`: a multiset of digests in a table of the registry's file.
pub mod Tally
pub mod Multiset
pub mod Scope
pub mod Intersection
use db_sanitizer.Base.{
  ℕ, ◌+◌, ◌-◌, ◌<◌, Bool, true, false, not, ◌&&◌, List, [], ◌∷◌, ◌++◌, any, count, ltb, map, sum,
  if◌then◌else◌,
}
use db_sanitizer.Base.Text.{Text, text_eq, nonempty}
use db_sanitizer.Errors.{Error, Result, ok, err, registry_error}
use db_sanitizer.Exec.{Exec, pure, lift, gets, transaction, ◌>>=◌, ◌>>◌, modify, raise_if}
use db_sanitizer.Mapping.Tables.{MappingRecord, HmacWork, has_key}
use db_sanitizer.Mapping.Registry.{Registry, validate_keys}

pub data Column : Type 0 where
  expected actual : Column

abbrev pub bump : Column → HmacWork → HmacWork
bump expected w = record w { expected_count = w.expected_count + 1 }
bump actual w = record w { actual_count = w.actual_count + 1 }

abbrev pub first : Column → Text → HmacWork
first column value =
    bump column (record { value_hmac = value; expected_count = 0; actual_count = 0 })

-- `INSERT ... VALUES (?, 1) ON CONFLICT(value_hmac) DO UPDATE SET column = column + 1`
unfoldable pub upsert : Column → Text → List HmacWork → List HmacWork
upsert column value [] = first column value ∷ []
upsert column value (w ∷ ws) =
    if text_eq w.value_hmac value then bump column w ∷ ws else w ∷ upsert column value ws

unfoldable pub upsert_all : Column → List Text → List HmacWork → List HmacWork
unfolding upsert
upsert_all column [] ws = ws
upsert_all column (value ∷ values) ws = upsert_all column values (upsert column value ws)

-- `_add`, `add_expected`, `add_actual`
unfoldable pub add : Text → Column → List Text → Exec Registry (Unit {0})
unfolding upsert_all validate_keys
add group_id column [] = pure tt
add group_id column (value ∷ values) = do
  lift (validate_keys group_id (value ∷ values))
  transaction (modify (λ r. record r { work = upsert_all column (value ∷ values) r.work }))

unfoldable pub actual_distinct_count : Exec Registry ℕ
actual_distinct_count = gets (λ r. count (λ w. ltb 0 w.actual_count) r.work)

unfoldable pub source_intersection_count : Text → Exec Registry ℕ
source_intersection_count group_id =
    gets (λ r. count (λ w. ltb 0 w.actual_count && has_key group_id w.value_hmac r.mappings) r.work)

abbrev pub abs_difference : HmacWork → ℕ
abs_difference w = (w.expected_count - w.actual_count) + (w.actual_count - w.expected_count)

unfoldable pub multiset_difference_count : Exec Registry ℕ
multiset_difference_count = gets (λ r. sum (map abs_difference r.work))

abbrev pub clear_work : Exec Registry (Unit {0})
clear_work = transaction (modify (λ r. record r { work = [] }))

-- `with registry.verification_hmac_accumulator(group_id) as accumulator: body`. The table is
-- cleared before the block and, however the block ends, after it.
unfoldable pub with_accumulator {ℓ} : {A : Type ℓ} → Text → Exec Registry A → Exec Registry A
with_accumulator group_id body r =
    if not (nonempty group_id)
    then (err registry_error, r)
    else let (result, r') = (clear_work >> body) r in (result, (clear_work r').1)
