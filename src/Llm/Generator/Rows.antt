-- ===== src/Llm/Generator/Rows.antt =====
-- What the parts of `_generate_batch` do to the table of mappings.
use db_sanitizer.Base.{
  ℕ, ◌-◌, ◌≡◌, refl, Bool, true, ◌&&◌, List, [], ◌∷◌, ◌++◌, all, length, arith, Bool-cases, inl,
  inr,
}
use mathlib.Core.Path.{◌∙◌}
use db_sanitizer.Base.Text.{Text}
use db_sanitizer.Errors.{Result, ok, err, Result-cases}
use db_sanitizer.Exec.{transaction}
use db_sanitizer.Mapping.Tables.{MappingRecord}
use db_sanitizer.Mapping.Registry.{Registry, record_generation_stats}
use db_sanitizer.Policy.Models.{ConsistencyGroup}
use db_sanitizer.Llm.Models.{model_validate}
use db_sanitizer.Llm.Generator.{is_valid_value, Setup, Generator, Batch}
use db_sanitizer.Llm.Generator.Batches.{
  reject, accept, is_taken, valid_from, valid_replacements, answer, begin_request, note_rejected,
  accept_all, collect, valid_replacements, replacement_hmac, request,
}

abbrev pub rows_of : Batch → List MappingRecord
rows_of b = b.generator.registry.mappings

accept_all-rows :
    (hmac_of : Text → Result Text) (values : List Text) (b : Batch)
    → rows_of (accept_all hmac_of values b).1 ≡ rows_of b
unfolding accept_all
accept_all-rows hmac_of [] b = refl
accept_all-rows hmac_of (value ∷ values) b = elim (Result-cases (hmac_of value)) [
  | inr (e, h) ↦ ground arith
  | inl (d, h) ↦ ground (
    arith,
    accept_all-rows hmac_of values
        (record b { accepted = b.accepted ++ (value ∷ []); accepted_hmacs = d ∷ b.accepted_hmacs }),
  )
]

-- Values that keep the limits of the group.
abbrev pub AllValid : Setup → ConsistencyGroup → List Text → Type 0
AllValid e group values = all (is_valid_value e.regex group) values ≡ true

all-append : (p : Text → Bool) (xs ys : List Text) → all p (xs ++ ys) ≡ (all p xs && all p ys)
all-append p [] ys = refl
all-append p (x ∷ xs) ys = ground (arith, all-append p xs ys)

pub accept_all-AllValid :
    (e : Setup) (group : ConsistencyGroup) (hmac_of : Text → Result Text) (values : List Text)
    (b : Batch)
    → AllValid e group values
    → AllValid e group b.accepted
    → AllValid e group (accept_all hmac_of values b).1.accepted
unfolding accept_all
accept_all-AllValid e group hmac_of [] b v k = k
accept_all-AllValid e group hmac_of (value ∷ values) b v k = elim (Result-cases (hmac_of value)) [
  | inr (f, h) ↦ ground arith
  | inl (d, h) ↦
      (let c : Batch = record b {
        accepted = b.accepted ++ (value ∷ []);
        accepted_hmacs = d ∷ b.accepted_hmacs;
      } in
        ground (
          arith,
          accept_all-AllValid e group hmac_of values c,
          all-append (is_valid_value e.regex group) b.accepted (value ∷ []),
        ))
]

module _ (e : Setup) (group_id : Text) (group : ConsistencyGroup) where
  -- Whether all values that a sifted answer keeps are within the limits.
  abbrev kept : Result (List Text × ℕ) → Bool
  kept (ok (values, rejected)) = all (is_valid_value e.regex group) values
  kept (err f) = true

  kept-reject : (r : Result (List Text × ℕ)) → kept (reject r) ≡ kept r
  kept-reject (ok (values, rejected)) = refl
  kept-reject (err f) = refl

  kept-accept :
      (value : Text) (r : Result (List Text × ℕ))
      → is_valid_value e.regex group value ≡ true
      → kept (accept value r) ≡ kept r
  kept-accept value (ok (values, rejected)) v = rw v
  kept-accept value (err f) v = refl

  pub valid_from-kept :
      (r : Registry) (room : ℕ) (seen : List Text) (items : List Text)
      → kept (valid_from e group_id group r room seen items) ≡ true
  unfolding valid_from
  valid_from-kept r room seen [] = refl
  valid_from-kept r room seen (value ∷ items) =
      let skipped =
        kept-reject (valid_from e group_id group r room seen items)
        ∙ valid_from-kept r room seen items in
      elim (Bool-cases (is_valid_value e.regex group value)) [
        | inr bad ↦ rw bad skipped
        | inl good ↦ elim (Result-cases (replacement_hmac e group_id group value)) [
          | inr (f, h) ↦ ground arith
          | inl (d, h) ↦ elim (Result-cases (is_taken e group_id group r seen d)) [
            | inr (f, k) ↦ ground arith
            | inl (taken, k) ↦
                (let used =
                    kept-accept value (valid_from e group_id group r (room - 1) (d ∷ seen) items)
                      good
                    ∙ valid_from-kept r (room - 1) (d ∷ seen) items in
                  elim (Bool-cases taken) [
                    | inl t ↦ ground (arith, skipped)
                    | inr t ↦ ground (arith, skipped, used)
                  ])
          ]
        ]
      ]

  abbrev pub collected : List Text → Batch → Result (List Text) × Batch
  collected keys b = collect e group_id group keys b

  pub collect-rows : (keys : List Text) (b : Batch) → rows_of (collected keys b).1 ≡ rows_of b
  unfolding collect record_generation_stats transaction
  collect-rows keys b =
      let g = (begin_request b.generator).1 in
      elim (Result-cases
        (answer e group_id group g (length keys - length b.accepted) b.accepted_hmacs)) [
          | inr (f, h) ↦ ground arith
          | inl (found, h) ↦
              (let c : Batch = record b { generator = (note_rejected found.1 g).1 } in
                ground (arith, accept_all-rows (replacement_hmac e group_id group) found.0 c))
        ]

  -- The result is the list of accepted values.
  pub collect-accepted :
      (keys values : List Text) (b : Batch)
      → (collected keys b).0 ≡ ok values
      → values ≡ (collected keys b).1.accepted
  unfolding collect record_generation_stats transaction
  collect-accepted keys values b h = ground arith

  answer-kept :
      (g : Generator) (remaining : ℕ) (reserved : List Text)
      → kept (answer e group_id group g remaining reserved) ≡ true
  unfolding answer valid_replacements model_validate
  answer-kept g remaining reserved =
      elim (Result-cases
        (e.provider g.request_sequence (request e group_id group g.request_sequence remaining))) [
          | inr (f, h) ↦ ground arith
          | inl ([], h) ↦ ground arith
          | inl (value ∷ items, h) ↦
              ground (arith, valid_from-kept g.registry remaining reserved (value ∷ items))
        ]

  pub collect-AllValid :
      (keys : List Text) (b : Batch)
      → AllValid e group b.accepted
      → AllValid e group (collected keys b).1.accepted
  unfolding collect
  collect-AllValid keys b v =
      let g = (begin_request b.generator).1 in
      let remaining = length keys - length b.accepted in
      elim (Result-cases (answer e group_id group g remaining b.accepted_hmacs)) [
        | inr (f, h) ↦ ground arith
        | inl (found, h) ↦
            (let c : Batch = record b { generator = (note_rejected found.1 g).1 } in
              ground (
                arith,
                answer-kept g remaining b.accepted_hmacs,
                accept_all-AllValid e group (replacement_hmac e group_id group) found.0 c,
              ))
      ]
