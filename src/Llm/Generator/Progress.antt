-- ===== src/Llm/Generator/Progress.antt =====
-- `finish`, `attempt` and `tries` of the generator, and the table of mappings.
use db_sanitizer.Base.{ℕ, zero, suc, ◌≡◌, refl, Bool, true, false, List, arith, inl, inr, ap, ◌≢◌}
use mathlib.Core.Path.{subst}
use db_sanitizer.Base.Text.{Text}
use db_sanitizer.Errors.{Error, Result, ok, err, Result-cases}
use db_sanitizer.Mapping.Tables.{MappingRecord}
use db_sanitizer.Mapping.Registry.{Registry}
use db_sanitizer.Mapping.Registry.Assign.{Assignment, assign_replacements}
use db_sanitizer.Mapping.Registry.Assign.Keeps.{assign_replacements_atomic}
use db_sanitizer.Policy.Models.{ConsistencyGroup}
use db_sanitizer.Llm.Generator.{Setup, Batch}
use db_sanitizer.Llm.Generator.Batches.{zip_assignments, replacement_hmac, finish, attempt, tries}
use db_sanitizer.Llm.Generator.Rows.{
  rows_of, AllValid, collected, collect-rows, collect-accepted, collect-AllValid,
}

module _ (e : Setup) (group_id : Text) (group : ConsistencyGroup) where
  -- The keys have got the values, in one accepted call of `assign_replacements`.
  pub record Written (keys : List Text) (before after : List MappingRecord) : Type 0 where
    pub values : List Text
    pub batch : List Assignment
    pub start : Registry
    pub end : Registry
    pub start_rows : start.mappings ≡ before
    pub end_rows : after ≡ end.mappings
    pub zipped : zip_assignments (replacement_hmac e group_id group) keys values ≡ ok batch
    pub assigned : assign_replacements group_id batch true start ≡ (ok tt, end)
    pub valid : AllValid e group values

  finish-Written :
      (keys values : List Text) (b : Batch)
      → AllValid e group values
      → (finish e group_id group keys values b).0 ≡ ok true
      → Written keys (rows_of b) (rows_of (finish e group_id group keys values b).1)
  unfolding finish
  finish-Written keys values b v h =
      elim (Result-cases (zip_assignments (replacement_hmac e group_id group) keys values)) [
        | inr (f, z) ↦ cc
        | inl (batch, z) ↦ record {
          values = values;
          batch = batch;
          start = b.generator.registry;
          end = (assign_replacements group_id batch true b.generator.registry).1;
          start_rows = refl;
          end_rows = ground arith;
          zipped = z;
          assigned = ground arith;
          valid = v;
        }
      ]

  finish-rows :
      (keys values : List Text) (b : Batch) (f : Error)
      → (finish e group_id group keys values b).0 ≡ err f
      → rows_of (finish e group_id group keys values b).1 ≡ rows_of b
  unfolding finish
  finish-rows keys values b f h =
      elim (Result-cases (zip_assignments (replacement_hmac e group_id group) keys values)) [
        | inr (k, z) ↦ ground arith
        | inl (batch, z) ↦
            ground (arith, assign_replacements_atomic group_id batch true b.generator.registry f)
      ]

  finish-not_false :
      (keys values : List Text) (b : Batch) → (finish e group_id group keys values b).0 ≢ ok false
  unfolding finish
  finish-not_false keys values b h = ground arith

  finish-accepted :
      (keys values : List Text) (b : Batch)
      → (finish e group_id group keys values b).1.accepted ≡ b.accepted
  unfolding finish
  finish-accepted keys values b =
      elim (Result-cases (zip_assignments (replacement_hmac e group_id group) keys values)) [
        | inr (k, z) ↦ ground arith
        | inl (batch, z) ↦
            elim (Result-cases (assign_replacements group_id batch true b.generator.registry).0) [
              | inr (f, k) ↦ ground arith
              | inl (u, k) ↦ ground arith
            ]
      ]

  abbrev attempted : List Text → Batch → Result Bool × Batch
  attempted keys b = attempt e group_id group keys b

  abbrev got : List Text → Batch → Batch
  got keys b = (collected e group_id group keys b).1

  attempt-AllValid :
      (keys : List Text) (b : Batch)
      → AllValid e group b.accepted
      → AllValid e group (attempted keys b).1.accepted
  unfolding attempt
  attempt-AllValid keys b v = elim (Result-cases (collected e group_id group keys b).0) [
    | inr (f, h) ↦ ground (arith, collect-AllValid e group_id group keys b v)
    | inl (values, h) ↦ ground (
      arith,
      collect-AllValid e group_id group keys b v,
      finish-accepted keys values (got keys b),
    )
  ]

  attempt-Written :
      (keys : List Text) (b : Batch)
      → AllValid e group b.accepted
      → (attempted keys b).0 ≡ ok true
      → Written keys (rows_of b) (rows_of (attempted keys b).1)
  unfolding attempt
  attempt-Written keys b v h = elim (Result-cases (collected e group_id group keys b).0) [
    | inr (f, k) ↦ cc
    | inl (values, k) ↦
        (let done : finish e group_id group keys values (got keys b) ≡ attempted keys b =
            ground arith in
          let valid : AllValid e group values = ground (
            arith,
            collect-AllValid e group_id group keys b v,
            collect-accepted e group_id group keys values b,
          ) in
          subst (λ rows. Written keys rows (rows_of (attempted keys b).1))
            (collect-rows e group_id group keys b)
            (subst (λ c. Written keys (rows_of (got keys b)) (rows_of c.1)) done
              (finish-Written keys values (got keys b) valid (ground arith))))
  ]

  attempt-rows :
      (keys : List Text) (b : Batch)
      → (attempted keys b).0 ≢ ok true
      → rows_of (attempted keys b).1 ≡ rows_of b
  unfolding attempt
  attempt-rows keys b h = elim (Result-cases (collected e group_id group keys b).0) [
    | inr (f, k) ↦ ground (arith, collect-rows e group_id group keys b)
    | inl (values, k) ↦ elim (Result-cases (finish e group_id group keys values (got keys b)).0) [
      | inr (f, x) ↦
          ground
            (arith, collect-rows e group_id group keys b, finish-rows keys values (got keys b) f x)
      | inl (done, x) ↦
          ground
            (arith, collect-rows e group_id group keys b, finish-not_false keys values (got keys b))
    ]
  ]

  abbrev tried : ℕ → List Text → Batch → Result (Unit {0}) × Batch
  tried n keys b = tries e group_id group n keys b

  Written-at :
      (keys : List Text) {before before' after after' : List MappingRecord}
      → before ≡ before'
      → after ≡ after'
      → Written keys before after
      → Written keys before' after'
  Written-at keys {before} {before'} {after} p q w =
      subst (Written keys before') q (subst (λ rows. Written keys rows after) p w)

  pub tries-Written :
      (n : ℕ) (keys : List Text) (b : Batch)
      → AllValid e group b.accepted
      → (tried n keys b).0 ≡ ok tt
      → Written keys (rows_of b) (rows_of (tried n keys b).1)
  unfolding tries
  tries-Written zero keys b v h = cc
  tries-Written (suc n) keys b v h =
      let c = (attempted keys b).1 in
      elim (Result-cases (attempted keys b).0) [
        | inl (true, x) ↦
            (let q : c ≡ (tried (suc n) keys b).1 = ground arith in
              subst (λ t. Written keys (rows_of b) (rows_of t)) q (attempt-Written keys b v x))
        | inl (false, x) ↦
            (let q : tried n keys c ≡ tried (suc n) keys b = ground arith in
              Written-at keys (attempt-rows keys b (ground arith)) (ap (λ p. rows_of p.1) q)
                (tries-Written n keys c (attempt-AllValid keys b v) (ground arith)))
        | inr (f, x) ↦
            (let q : tried n keys c ≡ tried (suc n) keys b = ground arith in
              Written-at keys (attempt-rows keys b (ground arith)) (ap (λ p. rows_of p.1) q)
                (tries-Written n keys c (attempt-AllValid keys b v) (ground arith)))
      ]

  pub tries-rows :
      (n : ℕ) (keys : List Text) (b : Batch) (f : Error)
      → (tried n keys b).0 ≡ err f
      → rows_of (tried n keys b).1 ≡ rows_of b
  unfolding tries
  tries-rows zero keys b f h = refl
  tries-rows (suc n) keys b f h =
      let c = (attempted keys b).1 in
      elim (Result-cases (attempted keys b).0) [
        | inl (true, x) ↦ ground arith
        | inl (false, x) ↦ ground (arith, attempt-rows keys b (ground arith), tries-rows n keys c f)
        | inr (k, x) ↦ ground (arith, attempt-rows keys b (ground arith), tries-rows n keys c f)
      ]
