-- ===== src/Verify/Agreement.antt =====
-- What the mapper writes, against what the verifier expects.
use db_sanitizer.Base.{
  ◌≡◌, true, false, not, ◌&&◌, none, some, [], ◌∷◌, arith, inl, inr, sym, ap, ◌∙◌,
}
use db_sanitizer.Base.Dict as Dicts
use db_sanitizer.Base.Eq.{distinct}
use db_sanitizer.Base.Text.{Text, text_eq, text_eq_refl, text_eq_instance, nonempty}
use db_sanitizer.Errors.{ok, Result-cases}
use db_sanitizer.Mapping.Normalization.{Unicode, Value, str}
use db_sanitizer.Mapping.Normalization.Laws.{normalize_cases}
use db_sanitizer.Mapping.HmacKey.{Bytes, Crypto}
use db_sanitizer.Mapping.Registry.{Registry, lookup}
use db_sanitizer.Greenmask.Mapper.{
  MapperGroup, Attribute, attribute, Record, JsonlMapper, source_digest, transform,
}
use db_sanitizer.Greenmask.Mapper.Plain.{plain_attribute}
use db_sanitizer.Greenmask.Mapper.Cache.{IsSound}
use db_sanitizer.Greenmask.Mapper.Fields.{transform_field, names}
use db_sanitizer.Verify.Mappings.{digest_for_check, value_eq}
use db_sanitizer.Verify.Mappings.Rows.{is_masked}

module _ (u : Unicode) (crypto : Crypto) (secret : Bytes) where
  -- The two take the same digest of a value.
  same-digest :
      (g : Text) (group : MapperGroup) (v : Value) (d : Text)
      → source_digest u crypto secret g group v ≡ ok d
      → digest_for_check u crypto secret g group.normalization group.allow_empty v ≡ ok (some d)
  unfolding source_digest digest_for_check
  same-digest g group v d h = elim (normalize_cases u v group.normalization group.allow_empty) [
    | inr refused ↦ ground arith
    | inl (normalized, k) ↦ ground arith
  ]

  plain_attribute-is_masked :
      (groups : Dicts.Dict Text MapperGroup) (r : Registry) (g s : Text) (group : MapperGroup)
      (b : Attribute)
      → Dicts.lookup g groups ≡ some group
      → plain_attribute u crypto secret groups r g (attribute false (str s)) ≡ ok b
      → (x : Text) × (b ≡ attribute false (str x))
        × (is_masked u crypto secret g group.normalization group.allow_empty r (str s) (str x)
            ≡ (nonempty x && not (text_eq s x)))
  unfolding plain_attribute value_eq
  plain_attribute-is_masked groups r g s group b l h =
      elim (Result-cases (source_digest u crypto secret g group (str s))) [
        | inr (e, k) ↦ absurd (ground arith)
        | inl (d, k) ↦ elim (Result-cases (lookup g d r).0) [
          | inr (e, f) ↦ absurd (ground arith)
          | inl (none, f) ↦ absurd (ground arith)
          | inl (some [], f) ↦
              (let same = same-digest g group (str s) d k in
                ([], ground arith, ground (arith, same)))
          | inl (some (c ∷ x), f) ↦
              (let same = same-digest g group (str s) d k in
                (c ∷ x, ground arith, ground (arith, same, text_eq_refl (c ∷ x))))
        ]
      ]

  -- What `transform` writes for a text in a configured field, from a sound cache and with
  -- configured columns that differ, passes the verifier's comparison with that text, under the
  -- group's settings and over the same registry, exactly when it is not empty and not that text.
  pub transform_verified :
      (m : JsonlMapper) (fields after : Record) (column g s : Text) (group : MapperGroup)
      → IsSound m
      → distinct (names m.columns) ≡ true
      → (transform u crypto secret fields m).0 ≡ ok after
      → Dicts.lookup column m.columns ≡ some g
      → Dicts.lookup g m.groups ≡ some group
      → Dicts.lookup column fields ≡ some (attribute false (str s))
      → (x : Text) × (Dicts.lookup column after ≡ some (attribute false (str x)))
        × (is_masked u crypto secret g group.normalization group.allow_empty m.registry
              (str s)
              (str x)
            ≡ (nonempty x && not (text_eq s x)))
  transform_verified m fields after column g s group sound d h c l f =
      let (a, b, before, done, now) =
        transform_field u crypto secret m fields after column g sound d h c in
      let same : a ≡ attribute false (str s) = ground (arith, before) in
      let (x, written, verdict) =
        plain_attribute-is_masked m.groups m.registry g s group b l
          (ap (plain_attribute u crypto secret m.groups m.registry g) (sym same) ∙ done) in
      (x, now ∙ ap some written, verdict)
