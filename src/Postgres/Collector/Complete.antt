-- ===== src/Postgres/Collector/Complete.antt =====
-- The keys of the values of one column.
use db_sanitizer.Base.{
  ℕ, ◌-◌, ◌≡◌, refl, Bool, true, false, ◌&&◌, ◌||◌, List, [], ◌∷◌, ◌++◌, all, arith, inl, inr, sym,
  ap,
}
use mathlib.Core.Path.{subst}
use db_sanitizer.Base.Eq.{elem}
use db_sanitizer.Base.Text.{Text, text_eq, text_eq_refl, text_eq_instance}
use db_sanitizer.Errors.{Result, ok, err, Result-cases}
use db_sanitizer.Mapping.Normalization.{Unicode, Value}
use db_sanitizer.Mapping.HmacKey.{Bytes, Crypto}
use db_sanitizer.Mapping.Tables.{MappingRecord, has_key}
use db_sanitizer.Mapping.Registry.{Registry, insert_source_keys, validate_keys}
use db_sanitizer.Mapping.Registry.Keys.{insert_source_keys_outcome}
use db_sanitizer.Policy.Models.{ConsistencyGroup}
use db_sanitizer.Postgres.Collector.{
  Source, batches_from, key_of, keys_of, collect_batch, collect_batches,
}

-- A call that returns keeps all keys, and has those that it was given.
inserted-keys :
    (g : Text) (keys : List Text) (r : Registry) (n : ℕ) (t : Registry) (j k : Text)
    → insert_source_keys g keys r ≡ (ok n, t)
    → has_key j k t.mappings ≡ (has_key j k r.mappings || (text_eq g j && elem k keys))
unfolding insert_source_keys
inserted-keys g keys r n t j k h = elim (Result-cases (validate_keys g keys)) [
  | inr (e, v) ↦ ground arith
  | inl (u, v) ↦
      (let (m, e, done) = insert_source_keys_outcome g keys r v in
        ground (arith, done.keys_after j k))
]

module _ (u : Unicode) (crypto : Crypto) (secret : Bytes) (source : Source) (fetch_size : ℕ) where
  abbrev digest_of : Text → ConsistencyGroup → Value → Result Text
  digest_of g group v = key_of u crypto secret source fetch_size g group v

  -- The value has a digest, and that is a key of the table.
  abbrev pub is_collected : Text → ConsistencyGroup → List MappingRecord → Value → Bool
  is_collected g group rows v = elim (digest_of g group v) [
    | err e ↦ false
    | ok k ↦ has_key g k rows
  ]

  collect_batch-keeps :
      (g : Text) (group : ConsistencyGroup) (values : List Value) (r : Registry) (n : ℕ)
      (t : Registry) (j k : Text)
      → collect_batch u crypto secret source fetch_size g group values r ≡ (ok n, t)
      → has_key j k r.mappings ≡ true
      → has_key j k t.mappings ≡ true
  unfolding collect_batch
  collect_batch-keeps g group values r n t j k h was =
      elim (Result-cases (keys_of u crypto secret source fetch_size g group values)) [
        | inr (e, x) ↦ ground arith
        | inl (keys, x) ↦ ground (arith, inserted-keys g keys r n t j k)
      ]

  keys_of-collected :
      (g : Text) (group : ConsistencyGroup) (values : List Value) (keys : List Text)
      (rows : List MappingRecord)
      → keys_of u crypto secret source fetch_size g group values ≡ ok keys
      → ((k : Text) → elem k keys ≡ true → has_key g k rows ≡ true)
      → all (is_collected g group rows) values ≡ true
  unfolding keys_of
  keys_of-collected g group [] keys rows h has = refl
  keys_of-collected g group (v ∷ values) keys rows h has =
      elim (Result-cases (digest_of g group v)) [
        | inr (e, x) ↦ ground arith
        | inl (k, x) ↦
            elim (Result-cases (keys_of u crypto secret source fetch_size g group values)) [
              | inr (e, y) ↦ ground arith
              | inl (rest, y) ↦
                  (let q : k ∷ rest ≡ keys = ground arith in
                    let has' : (i : Text) → elem i (k ∷ rest) ≡ true → has_key g i rows ≡ true =
                      subst (λ ks. (i : Text) → elem i ks ≡ true → has_key g i rows ≡ true) (sym q)
                        has in
                    let more =
                      keys_of-collected g group values rest rows y
                        (λ i m. has' i (ground (arith, m))) in
                    ground (arith, has' k (ground (arith, text_eq_refl k)), more))
            ]
      ]

  -- The later table has the keys of the earlier one.
  abbrev pub Grows : Registry → Registry → Type 0
  Grows r t = (j k : Text) → has_key j k r.mappings ≡ true → has_key j k t.mappings ≡ true

  pub collected-Grows :
      (g : Text) (group : ConsistencyGroup) (values : List Value) (r t : Registry)
      → Grows r t
      → all (is_collected g group r.mappings) values ≡ true
      → all (is_collected g group t.mappings) values ≡ true
  collected-Grows g group [] r t m h = refl
  collected-Grows g group (v ∷ values) r t m h = elim (Result-cases (digest_of g group v)) [
    | inr (e, x) ↦ ground arith
    | inl (k, x) ↦ ground (arith, m g k, collected-Grows g group values r t m)
  ]

  batches-Grows :
      (g : Text) (group : ConsistencyGroup) (batches : List (List Value)) (r t : Registry)
      → Grows r t
      → all (all (is_collected g group r.mappings)) batches ≡ true
      → all (all (is_collected g group t.mappings)) batches ≡ true
  batches-Grows g group [] r t m h = refl
  batches-Grows g group (b ∷ batches) r t m h =
      ground (arith, collected-Grows g group b r t m, batches-Grows g group batches r t m)

  collect_batch-collected :
      (g : Text) (group : ConsistencyGroup) (values : List Value) (r : Registry) (n : ℕ)
      (t : Registry)
      → collect_batch u crypto secret source fetch_size g group values r ≡ (ok n, t)
      → all (is_collected g group t.mappings) values ≡ true
  unfolding collect_batch
  collect_batch-collected g group values r n t h =
      elim (Result-cases (keys_of u crypto secret source fetch_size g group values)) [
        | inr (e, x) ↦ ground arith
        | inl (keys, x) ↦
            (let inserted : insert_source_keys g keys r ≡ (ok n, t) = ground arith in
              keys_of-collected g group values keys t.mappings x
                (λ k m. ground (arith, inserted-keys g keys r n t g k inserted, text_eq_refl g, m)))
      ]

  abbrev pub batches_done :
      Text → ConsistencyGroup → List (List Value) → Registry → Result ℕ × Registry
  batches_done g group batches r =
      collect_batches u crypto secret source fetch_size g group batches r

  pub collect_batches-collected :
      (g : Text) (group : ConsistencyGroup) (batches : List (List Value)) (r : Registry) (n : ℕ)
      (t : Registry)
      → batches_done g group batches r ≡ (ok n, t)
      → Grows r t × (all (all (is_collected g group t.mappings)) batches ≡ true)
  unfolding collect_batches
  collect_batches-collected g group [] r n t h = ((λ j k was. ground arith), refl)
  collect_batches-collected g group (b ∷ batches) r n t h =
      let first = collect_batch u crypto secret source fetch_size g group b r in
      elim (Result-cases first.0) [
        | inr (e, x) ↦ absurd (ground arith)
        | inl (m, x) ↦ elim (Result-cases (batches_done g group batches first.1).0) [
          | inr (e, y) ↦ absurd (ground arith)
          | inl (others, y) ↦
              (let done : first ≡ (ok m, first.1) = ap (λ o. (o, first.1)) x in
                let (grows, rest) =
                  collect_batches-collected g group batches first.1 others t (ground arith) in
                let here = collect_batch-collected g group b r m first.1 done in
                let kept = collected-Grows g group b first.1 t grows here in
                (
                  (λ j k was. grows j k (collect_batch-keeps g group b r m first.1 j k done was)),
                  ground (arith, kept, rest),
                ))
        ]
      ]

  all-append : (p : Value → Bool) (vs ws : List Value) → all p (vs ++ ws) ≡ (all p vs && all p ws)
  all-append p [] ws = refl
  all-append p (v ∷ vs) ws = ground (arith, all-append p vs ws)

  -- The batches hold the values, no more and no less.
  pub all-batches_from :
      (p : Value → Bool) (size room : ℕ) (batch values : List Value)
      → all (all p) (batches_from size room batch values) ≡ (all p batch && all p values)
  unfolding batches_from
  all-batches_from p size room [] [] = refl
  all-batches_from p size room (v ∷ batch) [] = ground arith
  all-batches_from p size room batch (v ∷ values) = ground (
    arith,
    all-append p batch (v ∷ []),
    all-batches_from p size size [] values,
    all-batches_from p size (room - 1) (batch ++ (v ∷ [])) values,
  )
