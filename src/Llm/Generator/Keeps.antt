-- ===== src/Llm/Generator/Keeps.antt =====
-- What every written batch keeps, `generate_group` keeps, whether it returns or raises.
use db_sanitizer.Base.{
  ℕ, zero, suc, ◌+◌, ◌≡◌, sym, ap, ◌∙◌, some, List, [], ◌∷◌, length, arith, Option-cases, inl, inr,
}
use mathlib.Core.Path.{subst}
use db_sanitizer.Base.Text.{Text}
use db_sanitizer.Errors.{Result, Result-cases}
use db_sanitizer.Exec.{transaction}
use db_sanitizer.Mapping.Tables.{MappingRecord}
use db_sanitizer.Mapping.Registry.{record_generation_stats}
use db_sanitizer.Policy.Models.{ConsistencyGroup}
use db_sanitizer.Llm.Generator.{Setup, Generator}
use db_sanitizer.Llm.Generator.Batches.{group_loop, record_duration, generate_group}
use db_sanitizer.Llm.Generator.Progress.{Written}
use db_sanitizer.Llm.Generator.Group.{
  mappings_of, batched, listed, listed-same, round, round-Written, generate_batch_rows,
}

module _ {κ} (e : Setup) (group_id : Text) (group : ConsistencyGroup)
    (P : List MappingRecord → Type κ)
    (step : (keys : List Text) (before after : List MappingRecord)
      → Written e group_id group keys before after
      → P before
      → P after) where
  group_loop-keeps :
      (fuel assigned : ℕ) (g : Generator) (result : Result ℕ) (g' : Generator)
      → P (mappings_of g)
      → group_loop e group_id group fuel assigned g ≡ some (result, g')
      → P (mappings_of g')
  unfolding group_loop
  group_loop-keeps zero assigned g result g' v h = cc
  group_loop-keeps (suc fuel) assigned g result g' v h =
      let same = listed-same e group_id group g in
      elim (Result-cases (listed e group_id group g).0) [
        | inr (f, k) ↦
            (let q : (listed e group_id group g).1 ≡ g' = ground arith in
              subst (λ c. P (mappings_of c)) (sym same ∙ q) v)
        | inl ([], k) ↦
            (let q : (listed e group_id group g).1 ≡ g' = ground arith in
              subst (λ c. P (mappings_of c)) (sym same ∙ q) v)
        | inl (key ∷ keys, k) ↦
            elim (Result-cases
              (batched e group_id group (key ∷ keys) (listed e group_id group g).1).0) [
                | inr (f, x) ↦
                    (let q : round e group_id group (key ∷ keys) g ≡ g' = ground arith in
                      let rows =
                        generate_batch_rows e group_id group (key ∷ keys)
                          (listed e group_id group g).1 f x in
                      subst P (sym (rows ∙ ap mappings_of same) ∙ ap mappings_of q) v)
                | inl (done, x) ↦
                    group_loop-keeps fuel (assigned + length (key ∷ keys))
                      (round e group_id group (key ∷ keys) g) result g'
                      (step (key ∷ keys) (mappings_of g)
                        (mappings_of (round e group_id group (key ∷ keys) g))
                        (round-Written e group_id group (key ∷ keys) g x) v)
                      (ground arith)
              ]
      ]

  pub generate_group-keeps :
      (fuel duration : ℕ) (g : Generator) (result : Result ℕ) (g' : Generator)
      → P (mappings_of g)
      → generate_group e group_id group fuel duration g ≡ some (result, g')
      → P (mappings_of g')
  unfolding generate_group record_duration record_generation_stats transaction
  generate_group-keeps fuel duration g result g' v h =
      elim (Option-cases (group_loop e group_id group fuel 0 g)) [
        | inl out_of_fuel ↦ cc
        | inr ((found, end), k) ↦
            (let same : mappings_of end ≡ mappings_of g' = ground arith in
              subst P same (group_loop-keeps fuel 0 g found end v k))
      ]
