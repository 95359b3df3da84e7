-- ===== src/Greenmask/Mapper/Plain.antt =====
-- The mapper without a cache, as a specification: each field is a function of the registry.
use db_sanitizer.Base.{ℕ, true, false, Option, none, some, List, [], ◌∷◌}
use db_sanitizer.Base.Dict.{Dict, insert}
use db_sanitizer.Base.Dict as Dicts
use db_sanitizer.Base.Text.{Text, text_eq_instance}
use db_sanitizer.Errors.{Result, ok, err, mapper_error, unexpected}
use db_sanitizer.Mapping.Normalization.{Unicode, str}
use db_sanitizer.Mapping.HmacKey.{Bytes, Crypto}
use db_sanitizer.Mapping.Registry.{Registry, lookup}
use db_sanitizer.Greenmask.Mapper.{
  MapperGroup, MapperConfig, Attribute, attribute, not_a_dict, Record, JsonlMapper, source_digest,
  start,
}

abbrev pub plain_find : Registry → Text → Text → Result Text
plain_find r group_id source_hmac = elim (lookup group_id source_hmac r).0 [
  | err e ↦ err e
  | ok none ↦ err mapper_error
  | ok (some replacement) ↦ ok replacement
]

module _ (u : Unicode) (crypto : Crypto) (secret : Bytes) where
  unfoldable pub plain_attribute :
      Dict Text MapperGroup → Registry → Text → Attribute → Result Attribute
  plain_attribute groups r group_id not_a_dict = err mapper_error
  plain_attribute groups r group_id (attribute true raw_value) = ok (attribute true raw_value)
  plain_attribute groups r group_id (attribute false raw_value) =
      elim (Dicts.lookup group_id groups) [
        | none ↦ err unexpected
        | some group ↦ elim (source_digest u crypto secret group_id group raw_value) [
          | err e ↦ err e
          | ok source_hmac ↦ elim (plain_find r group_id source_hmac) [
            | err e ↦ err e
            | ok replacement ↦ ok (attribute false (str replacement))
          ]
        ]
      ]

  unfoldable pub plain_column :
      Dict Text MapperGroup → Registry → Text × Text → Record → Result Record
  plain_column groups r (column, group_id) fields = elim (Dicts.lookup column fields) [
    | none ↦ err mapper_error
    | some a ↦ elim (plain_attribute groups r group_id a) [
      | err e ↦ err e
      | ok b ↦ ok (insert column b fields)
    ]
  ]

  unfoldable pub plain_columns :
      Dict Text MapperGroup → Registry → Dict Text Text → Record → Result Record
  plain_columns groups r [] fields = ok fields
  plain_columns groups r (entry ∷ columns) fields = elim (plain_column groups r entry fields) [
    | err e ↦ err e
    | ok fields' ↦ plain_columns groups r columns fields'
  ]

  unfoldable pub plain_lines : JsonlMapper → List (Option Record) → List Record × ℕ
  plain_lines m [] = ([], 0)
  plain_lines m (none ∷ lines) = ([], 4)
  plain_lines m (some fields ∷ lines) =
      let (written, status) = plain_lines m lines in
      elim (plain_columns m.groups m.registry m.columns fields) [
        | err e ↦ ([], 4)
        | ok fields' ↦ (fields' ∷ written, status)
      ]

  unfoldable pub plain_run : MapperConfig → Text → Registry → List (Option Record) → List Record × ℕ
  plain_run config table registry lines = elim (start u crypto secret config table registry) [
    | err e ↦ ([], 4)
    | ok m ↦ plain_lines m lines
  ]
