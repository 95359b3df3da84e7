-- ===== src/Verify/Nonintersection/Seen.antt =====
-- The digests and the counts that the loops of the nonintersection check reach.
use db_sanitizer.Base.{
  ℕ, suc, ◌+◌, ◌≡◌, sym, ap, ◌∙◌, Option, none, some, List, [], ◌∷◌, ◌++◌, length, leb, is_some,
  arith, inl, inr, Bool-cases, if◌then◌else◌,
}
use mathlib.Core.Path.{subst}
use mathlib.Core.List.{append-nil, append_assoc}
use db_sanitizer.Base.Text.{Text}
use db_sanitizer.Errors.{Result, ok, err, Result-cases}
use db_sanitizer.Mapping.HmacKey.{Bytes, Crypto}
use db_sanitizer.Mapping.Normalization.{Unicode, Value, null, str, other}
use db_sanitizer.Mapping.Registry.{Registry}
use db_sanitizer.Mapping.Registry.Accumulator.{actual, add}
use db_sanitizer.Mapping.Registry.Accumulator.Multiset.{Represents}
use db_sanitizer.Mapping.Registry.Accumulator.Scope.{add-Represents}
use db_sanitizer.Mapping.Registry.History.Laws.{add-mappings}
use db_sanitizer.Policy.Models.{ColumnRef, ConsistencyGroup}
use db_sanitizer.Policy.Schema.{SchemaSnapshot, column_for}
use db_sanitizer.Verify.Connection.{Connection, iter_column_values}
use db_sanitizer.Verify.Nonintersection.{push, digest_of_value, see_values, see_columns}

-- The digest of a value joins those of the rest, if there is one.
abbrev pub prepend : Result (Option Text) → List Text → List Text
prepend (ok (some d)) rest = d ∷ rest
prepend _ rest = rest

-- A value without a digest counts.
abbrev pub count_invalid : Result (Option Text) → ℕ → ℕ
count_invalid (ok (some d)) rest = rest
count_invalid _ rest = suc rest

module _ (u : Unicode) (crypto : Crypto) (secret : Bytes) (target : Connection)
    (target_snapshot : SchemaSnapshot) (fetch_size : ℕ) (group_id : Text) (group : ConsistencyGroup)
    (r : Registry) where
  -- The digests that are added, and those that wait, are all that were seen.
  pub record Seen (seen batch : List Text) (t : Registry) : Type 0 where
    pub added_ones : List Text
    pub represents : Represents [] added_ones t.work
    pub in_order : added_ones ++ batch ≡ seen
    pub same_mappings : t.mappings ≡ r.mappings

  abbrev digested : Value → Result (Option Text)
  digested v = digest_of_value u crypto secret target target_snapshot fetch_size group_id group v

  -- The digests of the values.
  abbrev pub digests_of : List Value → List Text
  digests_of [] = []
  digests_of (null ∷ values) = digests_of values
  digests_of (v ∷ values) = prepend (digested v) (digests_of values)

  -- How many values have no digest.
  abbrev pub invalid_of : List Value → ℕ
  invalid_of [] = 0
  invalid_of (null ∷ values) = invalid_of values
  invalid_of (v ∷ values) = count_invalid (digested v) (invalid_of values)

  abbrev pub digests_in : List ColumnRef → List Text
  digests_in [] = []
  digests_in (ref ∷ columns) =
      if is_some (column_for target_snapshot ref)
      then elim (iter_column_values target fetch_size ref) [
        | ok values ↦ digests_of values ++ digests_in columns
        | err e ↦ digests_in columns
      ]
      else digests_in columns

  -- A column that cannot be read counts as one value; the check ends with an error there.
  abbrev pub invalid_in : List ColumnRef → ℕ
  invalid_in [] = 0
  invalid_in (ref ∷ columns) =
      if is_some (column_for target_snapshot ref)
      then elim (iter_column_values target fetch_size ref) [
        | ok values ↦ invalid_of values + invalid_in columns
        | err e ↦ suc (invalid_in columns)
      ]
      else invalid_in columns

  abbrev pub missing_in : List ColumnRef → ℕ
  missing_in [] = 0
  missing_in (ref ∷ columns) =
      if is_some (column_for target_snapshot ref)
      then missing_in columns
      else suc (missing_in columns)

  pub add-Seen :
      (seen batch : List Text) (s t : Registry)
      → Seen seen batch s
      → add group_id actual batch s ≡ (ok tt, t)
      → Seen seen [] t
  add-Seen seen batch s t k h = record {
    added_ones = k.added_ones ++ batch;
    represents = add-Represents group_id actual batch [] k.added_ones s t h k.represents;
    in_order = append-nil (k.added_ones ++ batch) ∙ k.in_order;
    same_mappings =
        ap (λ x. x.mappings) (sym (ap (λ o. o.1) h))
        ∙ add-mappings group_id actual batch s
        ∙ k.same_mappings;
  }

  push-Seen :
      (seen batch batch' : List Text) (d : Text) (s t : Registry)
      → Seen seen batch s
      → push u crypto secret target target_snapshot fetch_size group_id group batch d s
        ≡ (ok batch', t)
      → Seen (seen ++ (d ∷ [])) batch' t
  unfolding push
  push-Seen seen batch batch' d s t k h =
      let longer = batch ++ (d ∷ []) in
      let waiting : Seen (seen ++ (d ∷ [])) longer s = record {
        added_ones = k.added_ones;
        represents = k.represents;
        in_order =
            sym (append_assoc k.added_ones batch (d ∷ [])) ∙ ap (λ l. l ++ (d ∷ [])) k.in_order;
        same_mappings = k.same_mappings;
      } in
      elim (Bool-cases (leb fetch_size (length longer))) [
        | inr room ↦
            (let q : s ≡ t = ground arith in
              let b : longer ≡ batch' = ground arith in
              subst (Seen (seen ++ (d ∷ [])) batch') q
                (subst (λ l. Seen (seen ++ (d ∷ [])) l s) b waiting))
        | inl full ↦ elim (Result-cases (add group_id actual longer s).0) [
          | inr (e, x) ↦ absurd (ground arith)
          | inl (done, x) ↦
              (let b : [] ≡ batch' = ground arith in
                subst (λ l. Seen (seen ++ (d ∷ [])) l t) b
                  (add-Seen (seen ++ (d ∷ [])) longer s t waiting (ground arith)))
        ]
      ]

  abbrev look : List Value → List Text → ℕ → Registry → Result (List Text × ℕ) × Registry
  look values batch i s =
      see_values u crypto secret target target_snapshot fetch_size group_id group values batch i s

  -- What the loop over the values does, from any state.
  abbrev Looks : List Value → Type 0
  Looks values =
      (seen batch batch' : List Text) (i i' : ℕ) (s t : Registry)
      → Seen seen batch s
      → look values batch i s ≡ (ok (batch', i'), t)
      → Seen (seen ++ digests_of values) batch' t × (i' ≡ i + invalid_of values)

  value-Looks :
      (v : Value) (values : List Value) (seen batch batch' : List Text) (i i' : ℕ) (s t : Registry)
      → Looks values
      → Seen seen batch s
      → ◌≡◌ {A = Result (List Text × ℕ) × Registry}
          (elim (digested v) [
            | err e ↦ (err e, s)
            | ok none ↦ look values batch (i + 1) s
            | ok (some d) ↦
                (let (pushed, s') =
                    push u crypto secret target target_snapshot fetch_size group_id group batch d
                      s in
                  elim pushed [ err e ↦ (err e, s') | ok batch'' ↦ look values batch'' i s' ])
          ])
          (ok (batch', i'), t)
      → Seen (seen ++ prepend (digested v) (digests_of values)) batch' t
        × (i' ≡ i + count_invalid (digested v) (invalid_of values))
  value-Looks v values seen batch batch' i i' s t later k h = elim (Result-cases (digested v)) [
    | inr (e, x) ↦ absurd (ground arith)
    | inl (none, x) ↦
        (let (rest, n) = later seen batch batch' (i + 1) i' s t k (ground arith) in
          subst
            (λ o.
              Seen (seen ++ prepend o (digests_of values)) batch' t
              × (i' ≡ i + count_invalid o (invalid_of values)))
            (sym x) (rest, omega (arith, n)))
    | inl (some d, x) ↦
        (let pushed =
            push u crypto secret target target_snapshot fetch_size group_id group batch d s in
          elim (Result-cases pushed.0) [
            | inr (e, y) ↦ absurd (ground arith)
            | inl (batch'', y) ↦
                (let here =
                    push-Seen seen batch batch'' d s pushed.1 k (ap (λ o. (o, pushed.1)) y) in
                  let (rest, n) =
                    later (seen ++ (d ∷ [])) batch'' batch' i i' pushed.1 t here (ground arith) in
                  subst
                    (λ o.
                      Seen (seen ++ prepend o (digests_of values)) batch' t
                      × (i' ≡ i + count_invalid o (invalid_of values)))
                    (sym x)
                    (
                      subst (λ l. Seen l batch' t) (append_assoc seen (d ∷ []) (digests_of values))
                          rest,
                      n,
                    ))
          ])
  ]

  see_values-Looks : (values : List Value) → Looks values
  unfolding see_values
  see_values-Looks [] seen batch batch' i i' s t k h =
      let q : s ≡ t = ground arith in
      let b : batch ≡ batch' = ground arith in
      (
        subst (Seen (seen ++ []) batch') q (
            subst (λ l. Seen (seen ++ []) l s) b
              (subst (λ l. Seen l batch s) (sym (append-nil seen)) k)),
        ground arith,
      )
  see_values-Looks (null ∷ values) seen batch batch' i i' s t k h =
      see_values-Looks values seen batch batch' i i' s t k h
  see_values-Looks (str x ∷ values) seen batch batch' i i' s t k h =
      value-Looks (str x) values seen batch batch' i i' s t (see_values-Looks values) k h
  see_values-Looks (other x ∷ values) seen batch batch' i i' s t k h =
      value-Looks (other x) values seen batch batch' i i' s t (see_values-Looks values) k h

  pub see_columns-Seen :
      (columns : List ColumnRef) (seen batch batch' : List Text) (i m i' m' : ℕ) (s t : Registry)
      → Seen seen batch s
      → see_columns u crypto secret target target_snapshot fetch_size group_id group columns batch i
          m s
        ≡ (ok (batch', i', m'), t)
      → Seen (seen ++ digests_in columns) batch' t
        × (i' ≡ i + invalid_in columns)
        × (m' ≡ m + missing_in columns)
  unfolding see_columns
  see_columns-Seen [] seen batch batch' i m i' m' s t k h =
      let q : s ≡ t = ground arith in
      let b : batch ≡ batch' = ground arith in
      (
        subst (Seen (seen ++ []) batch') q (
            subst (λ l. Seen (seen ++ []) l s) b
              (subst (λ l. Seen l batch s) (sym (append-nil seen)) k)),
        ground arith,
        ground arith,
      )
  see_columns-Seen (ref ∷ columns) seen batch batch' i m i' m' s t k h =
      elim (Bool-cases (is_some (column_for target_snapshot ref))) [
        | inr gone ↦
            (let (rest, n, l) =
                see_columns-Seen columns seen batch batch' i (m + 1) i' m' s t k (ground arith) in
              rw gone (rest, n, omega (arith, l)))
        | inl there ↦ elim (Result-cases (iter_column_values target fetch_size ref)) [
          | inr (e, x) ↦ absurd (ground arith)
          | inl (values, x) ↦
              (let looked = look values batch i s in
                elim (Result-cases looked.0) [
                  | inr (e, y) ↦ absurd (ground arith)
                  | inl ((batch'', i''), y) ↦
                      (let (here, n) =
                          see_values-Looks values seen batch batch'' i i'' s looked.1 k
                            (ap (λ o. (o, looked.1)) y) in
                        let (rest, n', l) =
                          see_columns-Seen columns (seen ++ digests_of values) batch'' batch' i'' m
                            i' m' looked.1 t here (ground arith) in
                        rw (there, x)
                          (
                            subst (λ l. Seen l batch' t)
                                (append_assoc seen (digests_of values) (digests_in columns)) rest,
                            omega (arith, n, n'),
                            l,
                          ))
                ])
        ]
      ]
