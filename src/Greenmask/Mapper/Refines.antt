-- ===== src/Greenmask/Mapper/Refines.antt =====
-- The mapper with its cache against the one without.
use db_sanitizer.Base.{
  ◌≡◌, refl, true, false, Option, none, some, List, [], ◌∷◌, arith, Option-cases, inl, inr, sym,
  ◌∙◌, ◌⊎◌,
}
use mathlib.Core.Path.{subst}
use db_sanitizer.Base.Dict.{Dict, insert}
use db_sanitizer.Base.Dict as Dicts
use db_sanitizer.Base.Text.{Text, text_eq_instance}
use db_sanitizer.Errors.{Result, ok, Result-cases}
use db_sanitizer.Mapping.Normalization.{Unicode}
use db_sanitizer.Mapping.HmacKey.{Bytes, Crypto}
use db_sanitizer.Mapping.Registry.{Registry}
use db_sanitizer.Greenmask.Mapper.{
  MapperConfig, attribute, not_a_dict, Record, JsonlMapper, new_mapper, find_replacement,
  source_digest, transform_column, transform_columns, transform, run_lines, start, run,
}
use db_sanitizer.Greenmask.Mapper.Plain.{
  plain_attribute, plain_column, plain_columns, plain_lines, plain_run,
}
use db_sanitizer.Greenmask.Mapper.Cache.{
  IsSound, Kept, insert-same, find_replacement-Kept, find_replacement-plain,
}

module _ (u : Unicode) (crypto : Crypto) (secret : Bytes) where
  abbrev column_done : Text × Text → Record → JsonlMapper → Result Record × JsonlMapper
  column_done entry fields m = transform_column u crypto secret entry fields m

  -- A column leaves the mapper alone, or looks one replacement up.
  column-state :
      (column group_id : Text) (fields : Record) (m : JsonlMapper)
      → ((column_done (column, group_id) fields m).1 ≡ m)
        ⊎ ((d : Text) × ((column_done (column, group_id) fields m).1
              ≡ (find_replacement group_id d m).1))
  unfolding transform_column
  column-state column group_id fields m = elim (Option-cases (Dicts.lookup column fields)) [
    | inl absent ↦ inl (ground arith)
    | inr (not_a_dict, h) ↦ inl (ground arith)
    | inr (attribute true v, h) ↦ inl (ground arith)
    | inr (attribute false v, h) ↦ elim (Option-cases (Dicts.lookup group_id m.groups)) [
      | inl absent ↦ inl (ground arith)
      | inr (group, k) ↦ elim (Result-cases (source_digest u crypto secret group_id group v)) [
        | inr (f, x) ↦ inl (ground arith)
        | inl (d, x) ↦ elim (Result-cases (find_replacement group_id d m).0) [
          | inr (f, y) ↦ inr (d, ground arith)
          | inl (r, y) ↦ inr (d, ground arith)
        ]
      ]
    ]
  ]

  column-Kept :
      (column group_id : Text) (fields : Record) (m : JsonlMapper)
      → IsSound m
      → Kept m (column_done (column, group_id) fields m).1
  column-Kept column group_id fields m s = elim (column-state column group_id fields m) [
    | inl same ↦ subst (Kept m) (sym same) (s, refl, refl, refl)
    | inr (d, same) ↦ subst (Kept m) (sym same) (find_replacement-Kept group_id d m s)
  ]

  column-plain :
      (column group_id : Text) (fields : Record) (m : JsonlMapper)
      → IsSound m
      → (column_done (column, group_id) fields m).0
        ≡ plain_column u crypto secret m.groups m.registry (column, group_id) fields
  unfolding transform_column plain_column plain_attribute
  column-plain column group_id fields m s = elim (Option-cases (Dicts.lookup column fields)) [
    | inl absent ↦ ground arith
    | inr (not_a_dict, h) ↦ ground arith
    | inr (attribute true v, h) ↦ ground (arith, insert-same column (attribute true v) fields h)
    | inr (attribute false v, h) ↦ elim (Option-cases (Dicts.lookup group_id m.groups)) [
      | inl absent ↦ ground arith
      | inr (group, k) ↦ elim (Result-cases (source_digest u crypto secret group_id group v)) [
        | inr (f, x) ↦ ground arith
        | inl (d, x) ↦ ground (arith, find_replacement-plain group_id d m s)
      ]
    ]
  ]

  columns-Kept :
      (columns : Dict Text Text) (fields : Record) (m : JsonlMapper)
      → IsSound m
      → Kept m (transform_columns u crypto secret columns fields m).1
  unfolding transform_columns
  columns-Kept [] fields m s = (s, refl, refl, refl)
  columns-Kept ((column, group_id) ∷ columns) fields m s =
      let m' = (column_done (column, group_id) fields m).1 in
      let kept = column-Kept column group_id fields m s in
      elim (Result-cases (column_done (column, group_id) fields m).0) [
        | inr (f, x) ↦
            (let q : m'
                  ≡ (transform_columns u crypto secret ((column, group_id) ∷ columns) fields m).1 =
                ground arith in
              subst (Kept m) q kept)
        | inl (fields', x) ↦
            (let q : (transform_columns u crypto secret columns fields' m').1
                  ≡ (transform_columns u crypto secret ((column, group_id) ∷ columns) fields m).1 =
                ground arith in
              let more = columns-Kept columns fields' m' kept.0 in
              subst (Kept m) q (more.0, more.1 ∙ kept.1, more.2 ∙ kept.2, more.3 ∙ kept.3))
      ]

  columns-plain :
      (columns : Dict Text Text) (fields : Record) (m : JsonlMapper)
      → IsSound m
      → (transform_columns u crypto secret columns fields m).0
        ≡ plain_columns u crypto secret m.groups m.registry columns fields
  unfolding transform_columns plain_columns
  columns-plain [] fields m s = refl
  columns-plain ((column, group_id) ∷ columns) fields m s =
      let m' = (column_done (column, group_id) fields m).1 in
      let kept = column-Kept column group_id fields m s in
      elim (Result-cases (column_done (column, group_id) fields m).0) [
        | inr (f, x) ↦ ground (arith, column-plain column group_id fields m s)
        | inl (fields', x) ↦ ground (
          arith,
          column-plain column group_id fields m s,
          columns-plain columns fields' m' kept.0,
          kept.1,
          kept.2,
        )
      ]

  -- From a sound cache, which includes the empty one of a new mapper, `transform` gives what the
  -- registry alone determines, or the same error, and leaves a sound cache of at most 4096 entries
  -- and the same registry, groups and columns.
  pub transform_refines :
      (fields : Record) (m : JsonlMapper)
      → IsSound m
      → ((transform u crypto secret fields m).0
          ≡ plain_columns u crypto secret m.groups m.registry m.columns fields)
        × Kept m (transform u crypto secret fields m).1
  unfolding transform
  transform_refines fields m s =
      (columns-plain m.columns fields m s, columns-Kept m.columns fields m s)

  plain_lines-same :
      (m m' : JsonlMapper) (lines : List (Option Record))
      → m'.registry ≡ m.registry
      → m'.groups ≡ m.groups
      → m'.columns ≡ m.columns
      → plain_lines u crypto secret m' lines ≡ plain_lines u crypto secret m lines
  unfolding plain_lines
  plain_lines-same m m' [] r g c = refl
  plain_lines-same m m' (none ∷ lines) r g c = refl
  plain_lines-same m m' (some fields ∷ lines) r g c =
      ground (arith, plain_lines-same m m' lines r g c)

  lines-plain :
      (lines : List (Option Record)) (m : JsonlMapper)
      → IsSound m
      → run_lines u crypto secret lines m ≡ plain_lines u crypto secret m lines
  unfolding run_lines plain_lines
  lines-plain [] m s = refl
  lines-plain (none ∷ lines) m s = refl
  lines-plain (some fields ∷ lines) m s =
      let m' = (transform u crypto secret fields m).1 in
      let (same, kept) = transform_refines fields m s in
      ground
        (arith, same, lines-plain lines m' kept.0, plain_lines-same m m' lines kept.1 kept.2 kept.3)

  new_mapper-IsSound :
      (config : MapperConfig) (table : Text) (r : Registry) (m : JsonlMapper)
      → start u crypto secret config table r ≡ ok m
      → m.cache ≡ []
  unfolding start new_mapper
  new_mapper-IsSound config table r m h = ground arith

  -- What the mapper process writes, and its exit status, are those of a process without a cache,
  -- whatever the configuration, the registry and the lines that it reads.
  pub run_refines :
      (config : MapperConfig) (table : Text) (r : Registry) (lines : List (Option Record))
      → run u crypto secret config table r lines ≡ plain_run u crypto secret config table r lines
  unfolding run plain_run
  run_refines config table r lines = elim (Result-cases (start u crypto secret config table r)) [
    | inr (f, h) ↦ ground arith
    | inl (m, h) ↦
        (let fresh : m.cache ≡ [] = new_mapper-IsSound config table r m h in
          let s : IsSound m =
            subst (λ cache. IsSound (record m { cache = cache })) (sym fresh) (tt, omega arith) in
          ground (arith, lines-plain lines m s))
  ]
