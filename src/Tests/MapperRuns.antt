-- ===== src/Tests/MapperRuns.antt =====
-- Runs of the mapper.
use db_sanitizer.Base.{
  ℕ, ◌≡◌, ◌≤◌, refl, Bool, true, false, Option, none, some, List, [], ◌∷◌, arith,
}
use db_sanitizer.Base.Dict as Dicts
use db_sanitizer.Base.Text.{codes, text_eq, text_eq_instance}
use db_sanitizer.Errors.{ok}
use db_sanitizer.Mapping.Normalization.{strip, normalize, str}
use db_sanitizer.Mapping.Registry.{validate_key, lookup}
use db_sanitizer.Greenmask.Mapper.{
  transform_columns, transform_column, source_digest, find_replacement, MapperConfig, MapperGroup,
  Attribute, attribute, Record, JsonlMapper, transform, run,
}
use db_sanitizer.Greenmask.Mapper.Plain.{plain_attribute, plain_columns, plain_run}
use db_sanitizer.Greenmask.Mapper.Cache.{IsSound, Kept}
use db_sanitizer.Greenmask.Mapper.Refines.{run_refines, transform_refines}
use db_sanitizer.Greenmask.Mapper.Fields.{transform_field, transform_other_field}
use db_sanitizer.Tests.Samples.{unicode, crypto, secret, people, hex, mapped_registry}
use db_sanitizer.Mapping.Tables.{select_key}
use db_sanitizer.Base.Dict.{insert}
use db_sanitizer.Mapping.HmacKey.{encode, digest}

abbrev pub group : MapperGroup
group = record { normalization = codes "human_text"; allow_empty = false }

abbrev config : MapperConfig
config = record {
  hmac_key_env = codes "KEY";
  groups = (people, group) ∷ [];
  tables = (codes "users", (codes "name", people) ∷ []) ∷ [];
}

-- The mapper after its first record.
abbrev pub mapper : JsonlMapper
mapper = record {
  columns = (codes "name", people) ∷ [];
  groups = (people, group) ∷ [];
  registry = mapped_registry;
  cache = ((people, hex (codes "a")), codes "Ada") ∷ [];
}

abbrev pub fields : Record
fields =
    (codes "id", attribute false (str (codes "1")))
    ∷ (codes "name", attribute false (str (codes "Max")))
    ∷ []

abbrev pub masked : Record
masked =
    (codes "id", attribute false (str (codes "1")))
    ∷ (codes "name", attribute false (str (codes "Ada")))
    ∷ []

pub mapper-IsSound : IsSound mapper
unfolding lookup validate_key select_key text_eq
mapper-IsSound = ((refl, tt), omega arith)

pub transformed : (transform unicode crypto secret fields mapper).0 ≡ ok masked
unfolding transform transform_columns transform_column db_sanitizer.Base.Dict.lookup source_digest
    find_replacement insert normalize digest strip text_eq encode
transformed = refl

run_refines_example :
    run unicode crypto secret config (codes "users") mapped_registry (some fields ∷ none ∷ [])
    ≡ plain_run unicode crypto secret config
        (codes "users")
        mapped_registry
        (some fields ∷ none ∷ [])
run_refines_example =
    run_refines unicode crypto secret config (codes "users") mapped_registry
      (some fields ∷ none ∷ [])

transform_refines_example :
    ((transform unicode crypto secret fields mapper).0
      ≡ plain_columns unicode crypto secret mapper.groups mapper.registry mapper.columns fields)
    × Kept mapper (transform unicode crypto secret fields mapper).1
transform_refines_example = transform_refines unicode crypto secret fields mapper mapper-IsSound

transform_field_example :
    (a : Attribute) × (b : Attribute) × (Dicts.lookup (codes "name") fields ≡ some a)
    × (plain_attribute unicode crypto secret mapper.groups mapper.registry people a ≡ ok b)
    × (Dicts.lookup (codes "name") masked ≡ some b)
unfolding text_eq Dicts.lookup
transform_field_example =
    transform_field unicode crypto secret mapper fields masked (codes "name") people mapper-IsSound
      refl transformed refl

transform_other_field_example : Dicts.lookup (codes "id") masked ≡ Dicts.lookup (codes "id") fields
unfolding text_eq
transform_other_field_example =
    transform_other_field unicode crypto secret mapper fields masked (codes "id") mapper-IsSound
      transformed refl
