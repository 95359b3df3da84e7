-- ===== src/Llm/Generator/Batches.antt =====
-- `_valid_replacements`, `_generate_batch` and `generate_group` of the class
-- `ReplacementGenerator`. What the program does not implement is the section's parameters.
use db_sanitizer.Base.{
  ℕ, zero, suc, ◌+◌, ◌-◌, Bool, true, false, not, Option, none, some, List, [], ◌∷◌, ◌++◌, length,
  ◌==◌, if◌then◌else◌,
}
use mathlib.Core.Option
use db_sanitizer.Base.Eq.{elem}
use db_sanitizer.Base.Text.{Text, text_eq_instance}
use db_sanitizer.Errors.{
  Error, Result, ok, err, generation_error, registry_conflict_error, validation_error,
}
use db_sanitizer.Exec.{Exec, pure, lift, gets, ◌>>=◌, ◌>>◌, modify}
use db_sanitizer.Mapping.Normalization.{str, normalize}
use db_sanitizer.Mapping.HmacKey.{digest}
use db_sanitizer.Mapping.Tables.{GenerationStats}
use db_sanitizer.Mapping.Registry.{
  Registry, list_unassigned, has_source_key, has_replacement_hmac, record_generation_stats,
}
use db_sanitizer.Mapping.Registry.Assign.{Assignment, assign_replacements}
use db_sanitizer.Policy.Models.{ConsistencyGroup, normalization_value}
use db_sanitizer.Llm.Models.{GenerationRequest, GenerationResponse, model_validate}
use db_sanitizer.Llm.Generator.{
  Setup, Generator, Batch, request_count, request_constraints, is_valid_value, as_generation_error,
}

-- A method of the registry, called by the generator.
abbrev pub on_registry : {A : Type 0} → Exec Registry A → Exec Generator A
on_registry m g = let (result, r) = m g.registry in (result, record g { registry = r })

abbrev pub on_generator : {A : Type 0} → Exec Generator A → Exec Batch A
on_generator m b = let (result, g) = m b.generator in (result, record b { generator = g })

abbrev pub stats_of : ℕ → ℕ → ℕ → GenerationStats
stats_of batches rejected duration = record {
  batches = batches;
  accepted_items = 0;
  rejected_items = rejected;
  duration = duration;
}

-- `zip(source_keys, accepted, strict=True)`, with the digest of each replacement.
unfoldable pub zip_assignments :
    (Text → Result Text) → List Text → List Text → Result (List Assignment)
zip_assignments hmac_of [] [] = ok []
zip_assignments hmac_of (key ∷ keys) (value ∷ values) = elim (hmac_of value) [
  | err e ↦ err e
  | ok value_hmac ↦ elim (zip_assignments hmac_of keys values) [
    | err e ↦ err e
    | ok rest ↦
        ok (record { source_hmac = key; replacement = value; replacement_hmac = value_hmac } ∷ rest)
  ]
]
zip_assignments hmac_of _ _ = err Error.unexpected

-- `for replacement in replacements: ...`, which extends the two lists of the batch.
unfoldable pub accept_all : (Text → Result Text) → List Text → Exec Batch (Unit {0})
accept_all hmac_of [] b = (ok tt, b)
accept_all hmac_of (value ∷ values) b = elim (hmac_of value) [
  | err e ↦ (err e, b)
  | ok value_hmac ↦ accept_all hmac_of values (record b {
    accepted = b.accepted ++ (value ∷ []);
    accepted_hmacs = value_hmac ∷ b.accepted_hmacs;
  })
]

-- `except (GenerationError, RegistryConflictError, ValidationError)`
unfoldable pub is_retried : Error → Bool
is_retried generation_error = true
is_retried registry_conflict_error = true
is_retried validation_error = true
is_retried _ = false

abbrev pub reject : Result (List Text × ℕ) → Result (List Text × ℕ)
reject (ok (values, rejected)) = ok (values, rejected + 1)
reject (err e) = err e

abbrev pub accept : Text → Result (List Text × ℕ) → Result (List Text × ℕ)
accept value (ok (values, rejected)) = ok (value ∷ values, rejected)
accept value (err e) = err e

-- The counters of a request, in the generator and in the registry, before it is sent.
unfoldable pub begin_request : Exec Generator (Unit {0})
begin_request = do
  modify (λ g. record g { request_sequence = g.request_sequence + 1; batches = g.batches + 1 })
  on_registry (record_generation_stats (stats_of 1 0 0))

unfoldable pub note_rejected : ℕ → Exec Generator (Unit {0})
note_rejected rejected = do
  modify (λ g. record g { rejected_items = g.rejected_items + rejected })
  on_registry (record_generation_stats (stats_of 0 rejected 0))

module _ (e : Setup) (group_id : Text) (group : ConsistencyGroup) where
  -- `_replacement_hmac`
  unfoldable pub replacement_hmac : Text → Result Text
  replacement_hmac value =
      elim (as_generation_error (
        normalize e.unicode (str value) (normalization_value group.normalization)
          group.allow_empty)) [
            | err f ↦ err f
            | ok normalized ↦ digest e.crypto e.secret group_id normalized
          ]

  -- The test of a digest in `_valid_replacements`.
  unfoldable pub is_taken : Registry → List Text → Text → Result Bool
  is_taken r seen value_hmac =
      if elem value_hmac seen then ok true else elim (has_source_key group_id value_hmac r).0 [
        | err f ↦ err f
        | ok true ↦ ok true
        | ok false ↦ (has_replacement_hmac group_id value_hmac r).0
      ]

  -- The loop of `_valid_replacements`, with `needed - len(accepted)` as `room`.
  unfoldable pub valid_from : Registry → ℕ → List Text → GenerationResponse → Result (List Text × ℕ)
  valid_from r room seen [] = ok ([], 0)
  valid_from r room seen (value ∷ items) =
      let skipped = reject (valid_from r room seen items) in
      if not (is_valid_value e.regex group value) then skipped else elim (replacement_hmac value) [
        | err f ↦ err f
        | ok value_hmac ↦ elim (is_taken r seen value_hmac) [
          | err f ↦ err f
          | ok true ↦ skipped
          | ok false ↦
              (let taken = accept value (valid_from r (room - 1) (value_hmac ∷ seen) items) in
                if room == 0 then skipped else taken)
        ]
      ]

  unfoldable pub valid_replacements :
      Registry → GenerationResponse → ℕ → List Text → Result (List Text × ℕ)
  unfolding valid_from
  valid_replacements r response needed reserved = valid_from r needed reserved response

  unfoldable pub request : ℕ → ℕ → GenerationRequest
  request sequence remaining = record {
    entity_type = group.entity_type;
    locale = group.locale;
    constraints = request_constraints group sequence;
    count = request_count e.batch_size remaining;
  }

  -- The end of a batch: its assignments, their transaction and the counter.
  unfoldable pub finish : List Text → List Text → Exec Batch Bool
  finish keys values = do
    assignments ← lift (zip_assignments replacement_hmac keys values)
    on_generator (on_registry (assign_replacements group_id assignments true))
    on_generator (modify (λ g. record g { accepted_items = g.accepted_items + length assignments }))
    pure true

  -- The answer to a request, validated and sifted: the values that are kept, and the number of the
  -- others.
  unfoldable pub answer : Generator → ℕ → List Text → Result (List Text × ℕ)
  answer g remaining reserved =
      elim (e.provider g.request_sequence (request g.request_sequence remaining)) [
        | err f ↦ err f
        | ok raw_response ↦ elim (model_validate raw_response) [
          | err f ↦ err f
          | ok response ↦ valid_replacements g.registry response remaining reserved
        ]
      ]

  -- The body of `try:` in `_generate_batch` up to the test of the number of accepted values.
  unfoldable pub collect : List Text → Exec Batch (List Text)
  unfolding begin_request note_rejected
  collect source_keys = do
    on_generator begin_request
    found ← (λ b. (answer b.generator (length source_keys - length b.accepted) b.accepted_hmacs, b))
    on_generator (note_rejected found.1)
    accept_all replacement_hmac found.0
    gets (λ b. b.accepted)

  -- The whole body of `try:`; whether it has returned from the method.
  unfoldable pub attempt : List Text → Exec Batch Bool
  attempt source_keys = do
    accepted ← collect source_keys
    if length accepted == length source_keys then finish source_keys accepted else pure false

  -- `for _ in range(tries): try: ... except ...: continue`, and the error after the last.
  unfoldable pub tries : ℕ → List Text → Exec Batch (Unit {0})
  tries zero source_keys b = (err generation_error, b)
  tries (suc n) source_keys b =
      let (result, b') = attempt source_keys b in
      let again = tries n source_keys b' in
      elim result [
        | ok true ↦ (ok tt, b')
        | ok false ↦ again
        | err f ↦ (if is_retried f then again else (err f, b'))
      ]

  -- `_generate_batch`
  unfoldable pub generate_batch : List Text → Exec Generator (Unit {0})
  generate_batch source_keys g =
      let (result, b) =
        tries (e.max_retries + 1) source_keys
          (record { generator = g; accepted = []; accepted_hmacs = [] }) in
      (result, b.generator)

  -- The `while` loop of `generate_group`, with the keys assigned so far; `none` means that the
  -- fuel ran out.
  unfoldable pub group_loop : ℕ → ℕ → Generator → Option (Result ℕ × Generator)
  group_loop zero assigned g = none
  group_loop (suc fuel) assigned g =
      let (listed, g') = on_registry (list_unassigned group_id (some e.batch_size)) g in
      elim listed [
        | err f ↦ some (err f, g')
        | ok pending ↦ elim pending [
          | [] ↦ some (ok assigned, g')
          | key ∷ keys ↦
              (let (result, g'') = generate_batch (key ∷ keys) g' in
                elim result [
                  | err f ↦ some (err f, g'')
                  | ok _ ↦ group_loop fuel (assigned + length (key ∷ keys)) g''
                ])
        ]
      ]

  -- The `finally` block of `generate_group`, which took `duration` ticks.
  unfoldable pub record_duration : ℕ → Result ℕ × Generator → Result ℕ × Generator
  record_duration duration (result, g) =
      let (recorded, g') =
        on_registry (record_generation_stats (stats_of 0 0 duration))
          (record g { duration = g.duration + duration }) in
      (result, g')

  unfoldable pub generate_group : ℕ → ℕ → Generator → Option (Result ℕ × Generator)
  unfolding record_duration
  generate_group fuel duration g = Option.map (record_duration duration) (group_loop fuel 0 g)
