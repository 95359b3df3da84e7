-- ===== src/Greenmask/Mapper/Fields.antt =====
-- What the mapper does to each field of a record.
use db_sanitizer.Base.{
  ◌≡◌, true, false, some, List, [], ◌∷◌, arith, Option-cases, Bool-cases, inl, inr, sym, ◌∙◌,
}
use db_sanitizer.Base.Dict.{Dict, insert, lookup-insert}
use db_sanitizer.Base.Dict as Dicts
use db_sanitizer.Base.Eq.{elem, distinct}
use db_sanitizer.Base.Text.{Text, text_eq, text_eq_iff, text_eq_instance}
use db_sanitizer.Errors.{Result, ok, Result-cases}
use db_sanitizer.Mapping.Normalization.{Unicode}
use db_sanitizer.Mapping.HmacKey.{Bytes, Crypto}
use db_sanitizer.Mapping.Registry.{Registry}
use db_sanitizer.Greenmask.Mapper.{MapperGroup, Attribute, Record, JsonlMapper, transform}
use db_sanitizer.Greenmask.Mapper.Plain.{plain_attribute, plain_column, plain_columns}
use db_sanitizer.Greenmask.Mapper.Cache.{IsSound}
use db_sanitizer.Greenmask.Mapper.Refines.{transform_refines}

abbrev pub names : Dict Text Text → List Text
names [] = []
names ((column, group_id) ∷ columns) = column ∷ names columns

module _ (u : Unicode) (crypto : Crypto) (secret : Bytes) (groups : Dict Text MapperGroup)
    (r : Registry) where
  abbrev mapped : Dict Text Text → Record → Result Record
  mapped columns fields = plain_columns u crypto secret groups r columns fields

  mapped-other :
      (columns : Dict Text Text) (fields after : Record) (name : Text)
      → mapped columns fields ≡ ok after
      → elem name (names columns) ≡ false
      → Dicts.lookup name after ≡ Dicts.lookup name fields
  unfolding plain_columns plain_column
  mapped-other [] fields after name h out = ground arith
  mapped-other ((column, group_id) ∷ columns) fields after name h out =
      elim (Option-cases (Dicts.lookup column fields)) [
        | inl absent ↦ ground arith
        | inr (a, k) ↦ elim (Result-cases (plain_attribute u crypto secret groups r group_id a)) [
          | inr (f, x) ↦ ground arith
          | inl (b, x) ↦ ground (
            arith,
            mapped-other columns (insert column b fields) after name (ground arith) (ground arith),
            lookup-insert column name b fields,
            text_eq_iff column name,
            text_eq_iff name column,
          )
        ]
      ]

  mapped-field :
      (columns : Dict Text Text) (fields after : Record) (column group_id : Text)
      → distinct (names columns) ≡ true
      → mapped columns fields ≡ ok after
      → Dicts.lookup column columns ≡ some group_id
      → (a : Attribute) × (b : Attribute) × (Dicts.lookup column fields ≡ some a)
        × (plain_attribute u crypto secret groups r group_id a ≡ ok b)
        × (Dicts.lookup column after ≡ some b)
  unfolding plain_columns plain_column Dicts.lookup
  mapped-field [] fields after column group_id d h l = cc
  mapped-field ((j, g) ∷ columns) fields after column group_id d h l =
      elim (Option-cases (Dicts.lookup j fields)) [
        | inl absent ↦ cc
        | inr (a, k) ↦ elim (Result-cases (plain_attribute u crypto secret groups r g a)) [
          | inr (f, x) ↦ cc
          | inl (b, x) ↦
              (let rest : mapped columns (insert j b fields) ≡ ok after = ground arith in
                elim (Bool-cases (text_eq j column)) [
                  | inl same ↦
                      (let p : j ≡ column = ground (arith, text_eq_iff j column) in
                        let written = lookup-insert j column b fields in
                        let kept =
                          mapped-other columns (insert j b fields) after column rest
                            (ground arith) in
                        (a, b, ground arith, ground arith, ground (arith, written, kept)))
                  | inr other ↦
                      (let (a', b', before, done, now) =
                          mapped-field columns (insert j b fields) after column group_id
                            (ground arith) rest (ground arith) in
                        (
                          a',
                          b',
                          ground (arith, before, lookup-insert j column b fields),
                          done,
                          now,
                        ))
                ])
        ]
      ]

module _ (u : Unicode) (crypto : Crypto) (secret : Bytes) (m : JsonlMapper) where
  -- When `transform` returns, from a sound cache and with configured columns that differ, a
  -- configured field was in the record, and holds what the registry
  -- says of it: itself if it was marked as NULL, else the replacement of its digest.
  pub transform_field :
      (fields after : Record) (column group_id : Text)
      → IsSound m
      → distinct (names m.columns) ≡ true
      → (transform u crypto secret fields m).0 ≡ ok after
      → Dicts.lookup column m.columns ≡ some group_id
      → (a : Attribute) × (b : Attribute) × (Dicts.lookup column fields ≡ some a)
        × (plain_attribute u crypto secret m.groups m.registry group_id a ≡ ok b)
        × (Dicts.lookup column after ≡ some b)
  transform_field fields after column group_id s d h l =
      mapped-field u crypto secret m.groups m.registry m.columns fields after column group_id d
        (sym (transform_refines u crypto secret fields m s).0 ∙ h) l

  -- A field that is not configured is as it was, when `transform` returns from a sound cache.
  pub transform_other_field :
      (fields after : Record) (name : Text)
      → IsSound m
      → (transform u crypto secret fields m).0 ≡ ok after
      → elem name (names m.columns) ≡ false
      → Dicts.lookup name after ≡ Dicts.lookup name fields
  transform_other_field fields after name s h out =
      mapped-other u crypto secret m.groups m.registry m.columns fields after name
        (sym (transform_refines u crypto secret fields m s).0 ∙ h) out
