-- ===== src/Postgres/Collector/WholePolicy.antt =====
-- The keys of the values of all configured columns.
use db_sanitizer.Base.{ℕ, ◌≡◌, refl, Bool, true, List, [], ◌∷◌, all, arith, inl, inr, sym, ap, ◌∙◌}
use db_sanitizer.Base.Text.{Text}
use db_sanitizer.Errors.{ok, Result-cases}
use db_sanitizer.Mapping.Normalization.{Unicode}
use db_sanitizer.Mapping.HmacKey.{Bytes, Crypto}
use db_sanitizer.Mapping.Tables.{MappingRecord}
use db_sanitizer.Mapping.Registry.{Registry}
use db_sanitizer.Policy.Models.{ColumnRef, ConsistencyGroup, Groups}
use db_sanitizer.Postgres.Collector.{
  Source, GroupCollectionStats, fetch_batches, collect_column, collect_columns,
  collect_mapping_keys,
}
use db_sanitizer.Postgres.Collector.Complete.{
  is_collected, Grows, collected-Grows, batches_done, collect_batches-collected, all-batches_from,
}

module _ (u : Unicode) (crypto : Crypto) (secret : Bytes) (source : Source) (fetch_size : ℕ) where
  abbrev Growing : Registry → Registry → Type 0
  Growing r t = Grows u crypto secret source fetch_size r t

  -- All values of a column have their keys.
  abbrev pub is_collected_column : Text → ConsistencyGroup → List MappingRecord → ColumnRef → Bool
  is_collected_column g group rows column =
      all (is_collected u crypto secret source fetch_size g group rows) (source column)

  abbrev pub is_collected_group : List MappingRecord → Text × ConsistencyGroup → Bool
  is_collected_group rows (g, group) = all (is_collected_column g group rows) group.columns

  collect_column-collected :
      (g : Text) (group : ConsistencyGroup) (column : ColumnRef) (r : Registry) (n : ℕ)
      (t : Registry)
      → collect_column u crypto secret source fetch_size g group column r ≡ (ok n, t)
      → Growing r t × (is_collected_column g group t.mappings column ≡ true)
  unfolding collect_column fetch_batches
  collect_column-collected g group column r n t h =
      let batches = fetch_batches fetch_size (source column) in
      elim (Result-cases (batches_done u crypto secret source fetch_size g group batches r).0) [
        | inr (e, x) ↦ absurd (ground arith)
        | inl (m, x) ↦
            (let (grown, done) =
                collect_batches-collected u crypto secret source fetch_size g group batches r n t
                  (ground arith) in
              (
                grown,
                sym (
                      all-batches_from u crypto secret source fetch_size
                        (is_collected u crypto secret source fetch_size g group t.mappings)
                        fetch_size fetch_size [] (source column))
                    ∙ done,
              ))
      ]

  columns-Grows :
      (g : Text) (group : ConsistencyGroup) (columns : List ColumnRef) (r t : Registry)
      → Growing r t
      → all (is_collected_column g group r.mappings) columns ≡ true
      → all (is_collected_column g group t.mappings) columns ≡ true
  columns-Grows g group [] r t m h = refl
  columns-Grows g group (c ∷ columns) r t m h = ground (
    arith,
    collected-Grows u crypto secret source fetch_size g group (source c) r t m,
    columns-Grows g group columns r t m,
  )

  collect_columns-collected :
      (g : Text) (group : ConsistencyGroup) (columns : List ColumnRef) (r : Registry) (n : ℕ × ℕ)
      (t : Registry)
      → collect_columns u crypto secret source fetch_size g group columns r ≡ (ok n, t)
      → Growing r t × (all (is_collected_column g group t.mappings) columns ≡ true)
  unfolding collect_columns
  collect_columns-collected g group [] r n t h = ((λ j k was. ground arith), refl)
  collect_columns-collected g group (c ∷ columns) r n t h =
      let first = collect_column u crypto secret source fetch_size g group c r in
      let others = collect_columns u crypto secret source fetch_size g group columns first.1 in
      elim (Result-cases first.0) [
        | inr (e, x) ↦ absurd (ground arith)
        | inl (m, x) ↦ elim (Result-cases others.0) [
          | inr (e, y) ↦ absurd (ground arith)
          | inl (k, y) ↦
              (let (grown, here) =
                  collect_column-collected g group c r m first.1 (ap (λ o. (o, first.1)) x) in
                let (grown', rest) =
                  collect_columns-collected g group columns first.1 k t (ground arith) in
                let kept = columns-Grows g group (c ∷ []) first.1 t grown' (ground (arith, here)) in
                ((λ i l was. grown' i l (grown i l was)), ground (arith, kept, rest)))
        ]
      ]

  collect_groups-collected :
      (groups : Groups) (r : Registry) (stats : List GroupCollectionStats) (t : Registry)
      → collect_mapping_keys u crypto secret source fetch_size groups r ≡ (ok stats, t)
      → Growing r t × (all (is_collected_group t.mappings) groups ≡ true)
  unfolding collect_mapping_keys
  collect_groups-collected [] r stats t h = ((λ j k was. ground arith), refl)
  collect_groups-collected ((g, group) ∷ groups) r stats t h =
      let first = collect_columns u crypto secret source fetch_size g group group.columns r in
      let others = collect_mapping_keys u crypto secret source fetch_size groups first.1 in
      elim (Result-cases first.0) [
        | inr (e, x) ↦ absurd (ground arith)
        | inl (m, x) ↦ elim (Result-cases others.0) [
          | inr (e, y) ↦ absurd (ground arith)
          | inl (k, y) ↦
              (let (grown, here) =
                  collect_columns-collected g group group.columns r m first.1
                    (ap (λ o. (o, first.1)) x) in
                let (grown', rest) = collect_groups-collected groups first.1 k t (ground arith) in
                let kept = columns-Grows g group group.columns first.1 t grown' here in
                ((λ i l was. grown' i l (grown i l was)), ground (arith, kept, rest)))
        ]
      ]

  -- When the collection returns, every value that the database gave for a configured column has a
  -- digest, and that digest is a key of the column's group in the registry.
  pub collect_mapping_keys_complete :
      (groups : Groups) (r : Registry) (stats : List GroupCollectionStats) (t : Registry)
      → collect_mapping_keys u crypto secret source fetch_size groups r ≡ (ok stats, t)
      → all (is_collected_group t.mappings) groups ≡ true
  collect_mapping_keys_complete groups r stats t h = (collect_groups-collected groups r stats t h).1
