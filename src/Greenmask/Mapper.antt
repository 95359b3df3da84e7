-- ===== src/Greenmask/Mapper.antt =====
-- db_sanitizer/greenmask/mapper_process.py: the transformer of records, with its bounded cache.
-- JSON and the standard streams are outside: a line is a record that was read, or none.
pub mod Plain
pub mod Cache
pub mod Refines
pub mod Fields
use db_sanitizer.Base.{
  ℕ, Bool, true, false, not, ◌&&◌, ◌||◌, Option, none, some, List, [], ◌∷◌, all, any, length, leb,
  ◌==◌, is_some, if◌then◌else◌,
}
use db_sanitizer.Base.Dict.{Dict, insert}
use db_sanitizer.Base.Dict as Dicts
use db_sanitizer.Base.Eq.{pair_eq}
use db_sanitizer.Base.Text.{Text, nonempty, text_eq_instance}
use db_sanitizer.Errors.{Error, Result, ok, err, mapper_error, unexpected, normalization_error}
use db_sanitizer.Exec.{Exec, pure, raise, lift, gets, ◌>>=◌, ◌>>◌}
use db_sanitizer.Mapping.Normalization.{Unicode, Value, normalize, str}
use db_sanitizer.Mapping.HmacKey.{Bytes, Crypto, digest, hmac_key}
use db_sanitizer.Mapping.Registry.{Registry, lookup}

pub record MapperGroup : Type 0 where
  pub normalization : Text
  pub allow_empty : Bool

-- The path of the registry is outside the model.
pub record MapperConfig : Type 0 where
  pub hmac_key_env : Text
  pub groups : Dict Text MapperGroup
  pub tables : Dict Text (Dict Text Text)

-- The tests of `_parse_config` on the parts that it has read.
unfoldable pub check_config : MapperConfig → Result MapperConfig
check_config c =
    if length c.groups == 0 || length c.tables == 0 || not (nonempty c.hmac_key_env)
    then err mapper_error
    else if any
        (λ table.
          length table.1 == 0
          || any (λ column. not (is_some (Dicts.lookup column.1 c.groups))) table.1)
        c.tables
    then err mapper_error
    else ok c

-- A field of a record: an object whose `n` is `true` or not and whose `d` is a value, or anything
-- else.
pub data Attribute : Type 0 where
  attribute : Bool → Value → Attribute
  not_a_dict : Attribute

abbrev pub Record : Type 0
Record = Dict Text Attribute

pub record JsonlMapper : Type 0 where
  pub columns : Dict Text Text
  pub groups : Dict Text MapperGroup
  pub registry : Registry
  pub cache : Dict (Text × Text) Text

abbrev pub max_cache_entries : ℕ
max_cache_entries = 4_096

-- `JsonlMapper(config=..., table=..., hmac_key=...)` on an open registry.
unfoldable pub new_mapper : MapperConfig → Text → Registry → Result JsonlMapper
new_mapper config table registry = elim (Dicts.lookup table config.tables) [
  | none ↦ err mapper_error
  | some columns ↦
      ok (record { columns = columns; groups = config.groups; registry = registry; cache = [] })
]

-- The cache without its oldest entry if it is full.
unfoldable pub make_room : Dict (Text × Text) Text → Dict (Text × Text) Text
make_room [] = []
make_room (entry ∷ cache) =
    if leb max_cache_entries (length (entry ∷ cache)) then cache else entry ∷ cache

-- The replacement of a digest, from the cache or the registry.
unfoldable pub find_replacement : Text → Text → Exec JsonlMapper Text
find_replacement group_id source_hmac m = elim (Dicts.lookup (group_id, source_hmac) m.cache) [
  | some replacement ↦ (ok replacement, m)
  | none ↦ elim (lookup group_id source_hmac m.registry).0 [
    | err e ↦ (err e, m)
    | ok none ↦ (err mapper_error, m)
    | ok (some replacement) ↦ (
      ok replacement,
      record m { cache = insert (group_id, source_hmac) replacement (make_room m.cache) },
    )
  ]
]

-- `except NormalizationError: raise MapperError`
abbrev pub as_mapper_error : Result Text → Result Text
as_mapper_error (ok value) = ok value
as_mapper_error (err normalization_error) = err mapper_error
as_mapper_error (err e) = err e

module _ (u : Unicode) (crypto : Crypto) (secret : Bytes) where
  -- The digest by which the registry knows a value.
  unfoldable pub source_digest : Text → MapperGroup → Value → Result Text
  source_digest group_id group raw_value =
      elim (as_mapper_error (normalize u raw_value group.normalization group.allow_empty)) [
        | err e ↦ err e
        | ok normalized ↦ digest crypto secret group_id normalized
      ]

  -- One round of the loop of `transform`. A record that is half done when an error is raised is
  -- written nowhere, so an error comes without it.
  unfoldable pub transform_column : Text × Text → Record → Exec JsonlMapper Record
  transform_column (column, group_id) fields m = elim (Dicts.lookup column fields) [
    | none ↦ (err mapper_error, m)
    | some not_a_dict ↦ (err mapper_error, m)
    | some (attribute true raw_value) ↦ (ok fields, m)
    | some (attribute false raw_value) ↦ elim (Dicts.lookup group_id m.groups) [
      | none ↦ (err unexpected, m)
      | some group ↦ elim (source_digest group_id group raw_value) [
        | err e ↦ (err e, m)
        | ok source_hmac ↦
            (let (found, m') = find_replacement group_id source_hmac m in
              elim found [
                | err e ↦ (err e, m')
                | ok replacement ↦
                    (ok (insert column (attribute false (str replacement)) fields), m')
              ])
      ]
    ]
  ]

  unfoldable pub transform_columns : Dict Text Text → Record → Exec JsonlMapper Record
  transform_columns [] fields m = (ok fields, m)
  transform_columns (entry ∷ columns) fields m =
      (transform_column entry fields >>= λ fields'. transform_columns columns fields') m

  -- `JsonlMapper.transform`
  unfoldable pub transform : Record → Exec JsonlMapper Record
  transform fields m = transform_columns m.columns fields m

  -- The loop of `run` over the lines: what it writes, and the exit status.
  unfoldable pub run_lines : List (Option Record) → JsonlMapper → List Record × ℕ
  run_lines [] m = ([], 0)
  run_lines (none ∷ lines) m = ([], 4)
  run_lines (some fields ∷ lines) m =
      let (transformed, m') = transform fields m in
      let (written, status) = run_lines lines m' in
      elim transformed [ err e ↦ ([], 4) | ok fields' ↦ (fields' ∷ written, status) ]

  -- The part of `run` before the loop, with the secret that the environment holds.
  unfoldable pub start : MapperConfig → Text → Registry → Result JsonlMapper
  unfolding check_config new_mapper
  start config table registry = elim (check_config config) [
    | err e ↦ err e
    | ok checked ↦
        if not (nonempty secret) then err mapper_error else elim (hmac_key crypto secret) [
          | err e ↦ err e
          | ok key ↦ new_mapper checked table registry
        ]
  ]

  unfoldable pub run : MapperConfig → Text → Registry → List (Option Record) → List Record × ℕ
  unfolding start run_lines
  run config table registry lines = elim (start config table registry) [
    | err e ↦ ([], 4)
    | ok m ↦ run_lines lines m
  ]
