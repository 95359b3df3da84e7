-- ===== src/Llm/Generator/Group.antt =====
-- The rounds of the loop of `generate_group`, and the number of pending keys.
use db_sanitizer.Base.{
  ℕ, zero, suc, ◌+◌, ◌≡◌, refl, Bool, true, some, List, [], ◌∷◌, ◌<◌, ◌≤◌, length, count, take,
  filter, map, length-take, arith, Bool-cases, inl, inr, is_some, ltb, sym, ap, ◌∙◌, min,
}
use mathlib.Core.Path.{subst}
use db_sanitizer.Base.Sort.{length-sort}
use db_sanitizer.Base.Text.{Text, text_ltb, nonempty}
use db_sanitizer.Errors.{Error, Result, ok, err, Result-cases}
use db_sanitizer.Mapping.Tables.{MappingRecord, is_pending, pending_keys}
use db_sanitizer.Mapping.Registry.{list_unassigned}
use db_sanitizer.Mapping.Registry.Invariant.{IsConsistent}
use db_sanitizer.Mapping.Registry.Assign.{Assignment}
use db_sanitizer.Mapping.Registry.Assign.Keeps.{IsValid, assign_replacements-IsValid}
use db_sanitizer.Mapping.Registry.Assign.Pending.{assign_replacements_pending}
use db_sanitizer.Policy.Models.{ConsistencyGroup}
use db_sanitizer.Llm.Generator.{Setup, Generator, Batch}
use db_sanitizer.Llm.Generator.Batches.{
  on_registry, zip_assignments, replacement_hmac, generate_batch, group_loop,
}
use db_sanitizer.Llm.Generator.Progress.{Written, tries-Written, tries-rows}

abbrev pub mappings_of : Generator → List MappingRecord
mappings_of g = g.registry.mappings

-- `mapping_count` of the keys of the group without replacement.
abbrev pub pending_count : Text → Generator → ℕ
pending_count group_id g = count (is_pending group_id) (mappings_of g)

length-filter :
    {A : Type 0} (test : A → Bool) (xs : List A) → length (filter test xs) ≡ count test xs
length-filter test [] = refl
length-filter test (x ∷ xs) = ground (arith, length-filter test xs)

length-map : {A B : Type 0} (f : A → B) (xs : List A) → length (map f xs) ≡ length xs
length-map f [] = refl
length-map f (x ∷ xs) = ground (arith, length-map f xs)

length-pending_keys :
    (group_id : Text) (rows : List MappingRecord)
    → length (pending_keys group_id rows) ≡ count (is_pending group_id) rows
unfolding pending_keys
length-pending_keys group_id rows =
    length-sort text_ltb (map (λ row. row.source_hmac) (filter (is_pending group_id) rows))
    ∙ length-map (λ row. row.source_hmac) (filter (is_pending group_id) rows)
    ∙ length-filter (is_pending group_id) rows

pub length-zip_assignments :
    (hmac_of : Text → Result Text) (keys values : List Text) (batch : List Assignment)
    → zip_assignments hmac_of keys values ≡ ok batch
    → length batch ≡ length keys
unfolding zip_assignments
length-zip_assignments hmac_of [] [] batch h = ground arith
length-zip_assignments hmac_of [] (value ∷ values) batch h = cc
length-zip_assignments hmac_of (key ∷ keys) [] batch h = cc
length-zip_assignments hmac_of (key ∷ keys) (value ∷ values) batch h =
    elim (Result-cases (hmac_of value)) [
      | inr (f, k) ↦ ground arith
      | inl (d, k) ↦ elim (Result-cases (zip_assignments hmac_of keys values)) [
        | inr (f, z) ↦ ground arith
        | inl (rest, z) ↦ ground (arith, length-zip_assignments hmac_of keys values rest z)
      ]
    ]

module _ (e : Setup) (group_id : Text) (group : ConsistencyGroup) where
  pub Written-pending :
      (keys : List Text) (before after : List MappingRecord)
      → Written e group_id group keys before after
      → IsConsistent before
      → count (is_pending group_id) after + length keys ≡ count (is_pending group_id) before
  Written-pending keys before after w c =
      let taken =
        assign_replacements_pending group_id w.batch true w.start w.end
          (subst IsConsistent (sym w.start_rows) c) w.assigned in
      let same =
        length-zip_assignments (replacement_hmac e group_id group) keys w.values w.batch w.zipped in
      let p = ap (count (is_pending group_id)) w.start_rows in
      let q = ap (count (is_pending group_id)) w.end_rows in omega (arith, taken, same, p, q)

  pub Written-IsConsistent :
      (keys : List Text) (before after : List MappingRecord)
      → Written e group_id group keys before after
      → IsConsistent before
      → IsConsistent after
  Written-IsConsistent keys before after w c =
      let kept : IsValid w.end =
        subst (λ p. IsValid p.1) w.assigned
          (assign_replacements-IsValid group_id w.batch true w.start
            (subst IsConsistent (sym w.start_rows) c)) in
      subst IsConsistent (sym w.end_rows) kept

  abbrev pub batched : List Text → Generator → Result (Unit {0}) × Generator
  batched keys g = generate_batch e group_id group keys g

  pub generate_batch-Written :
      (keys : List Text) (g : Generator)
      → (batched keys g).0 ≡ ok tt
      → Written e group_id group keys (mappings_of g) (mappings_of (batched keys g).1)
  unfolding generate_batch
  generate_batch-Written keys g h =
      let b : Batch = record { generator = g; accepted = []; accepted_hmacs = [] } in
      tries-Written e group_id group (e.max_retries + 1) keys b refl h

  -- A batch that fails leaves the table of mappings as it was, whatever the provider answered.
  pub generate_batch_rows :
      (keys : List Text) (g : Generator) (f : Error)
      → (batched keys g).0 ≡ err f
      → mappings_of (batched keys g).1 ≡ mappings_of g
  unfolding generate_batch
  generate_batch_rows keys g f h =
      let b : Batch = record { generator = g; accepted = []; accepted_hmacs = [] } in
      tries-rows e group_id group (e.max_retries + 1) keys b f h

  abbrev pub listed : Generator → Result (List Text) × Generator
  listed g = on_registry (list_unassigned group_id (some e.batch_size)) g

  pub listed-same : (g : Generator) → (listed g).1 ≡ g
  unfolding list_unassigned
  listed-same g = elim (Bool-cases (nonempty group_id)) [
    | inr empty ↦ ground arith
    | inl named ↦ elim (Bool-cases (ltb e.batch_size 1)) [
      | inl none_asked ↦ ground arith
      | inr some_asked ↦ ground arith
    ]
  ]

  pub listed-keys :
      (g : Generator) (keys : List Text)
      → (listed g).0 ≡ ok keys
      → (1 ≤ e.batch_size) × (keys ≡ take e.batch_size (pending_keys group_id (mappings_of g)))
  unfolding list_unassigned
  listed-keys g keys h = (ground arith, ground arith)

  pub listed-length :
      (g : Generator) (keys : List Text)
      → (listed g).0 ≡ ok keys
      → length keys ≡ min e.batch_size (pending_count group_id g)
  listed-length g keys h =
      ap length (listed-keys g keys h).1
      ∙ length-take e.batch_size (pending_keys group_id (mappings_of g))
      ∙ ap (min e.batch_size) (length-pending_keys group_id (mappings_of g))

  -- The generator after one round of the loop.
  abbrev pub round : List Text → Generator → Generator
  round keys g = (batched keys (listed g).1).1

  pub round-Written :
      (keys : List Text) (g : Generator)
      → (batched keys (listed g).1).0 ≡ ok tt
      → Written e group_id group keys (mappings_of g) (mappings_of (round keys g))
  round-Written keys g h =
      subst (λ c. Written e group_id group keys (mappings_of c) (mappings_of (round keys g)))
        (listed-same g) (generate_batch-Written keys (listed g).1 h)

  -- The loop ends within as many rounds as there are keys without replacement, and one more.
  pub group_loop_ends :
      (fuel assigned : ℕ) (g : Generator)
      → IsValid g.registry
      → pending_count group_id g < fuel
      → is_some (group_loop e group_id group fuel assigned g) ≡ true
  unfolding group_loop
  group_loop_ends zero assigned g v lt = ground arith
  group_loop_ends (suc fuel) assigned g v lt = elim (Result-cases (listed g).0) [
    | inr (f, h) ↦ ground arith
    | inl ([], h) ↦ ground arith
    | inl (key ∷ keys, h) ↦ elim (Result-cases (batched (key ∷ keys) (listed g).1).0) [
      | inr (f, x) ↦ ground arith
      | inl (done, x) ↦
          (let w = round-Written (key ∷ keys) g x in
            let fewer =
              Written-pending (key ∷ keys) (mappings_of g) (mappings_of (round (key ∷ keys) g)) w
                v in
            let rest =
              group_loop_ends fuel (assigned + length (key ∷ keys)) (round (key ∷ keys) g)
                (Written-IsConsistent (key ∷ keys) (mappings_of g)
                  (mappings_of (round (key ∷ keys) g)) w v)
                (omega (arith, fewer, lt)) in
            ground (arith, rest))
    ]
  ]
