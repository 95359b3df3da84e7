-- ===== src/Llm/Generator/Complete.antt =====
-- `generate_group`: the end of its loop, and its result.
use db_sanitizer.Base.{
  ℕ, zero, suc, ◌+◌, ◌≡◌, refl, true, some, [], ◌∷◌, ◌<◌, length, count, arith, Option-cases, inl,
  inr, is_some, sym, ap, ◌∙◌,
}
use mathlib.Core.Path.{subst}
use db_sanitizer.Base.Text.{Text}
use db_sanitizer.Errors.{Result, ok, err, Result-cases}
use db_sanitizer.Exec.{transaction}
use db_sanitizer.Mapping.Tables.{is_pending}
use db_sanitizer.Mapping.Registry.{record_generation_stats}
use db_sanitizer.Mapping.Registry.Invariant.{IsConsistent}
use db_sanitizer.Mapping.Registry.Assign.Keeps.{IsValid}
use db_sanitizer.Policy.Models.{ConsistencyGroup}
use db_sanitizer.Llm.Generator.{Setup, Generator}
use db_sanitizer.Llm.Generator.Batches.{group_loop, record_duration, generate_group}
use db_sanitizer.Llm.Generator.Group.{
  mappings_of, pending_count, batched, listed, listed-same, listed-keys, listed-length, round,
  round-Written, Written-pending, Written-IsConsistent, group_loop_ends,
}

module _ (e : Setup) (group_id : Text) (group : ConsistencyGroup) where
  group_loop_complete :
      (fuel assigned : ℕ) (g : Generator) (n : ℕ) (g' : Generator)
      → IsValid g.registry
      → group_loop e group_id group fuel assigned g ≡ some (ok n, g')
      → (pending_count group_id g' ≡ 0)
        × (n ≡ assigned + pending_count group_id g)
        × IsValid g'.registry
  unfolding group_loop
  group_loop_complete zero assigned g n g' v h = cc
  group_loop_complete (suc fuel) assigned g n g' v h =
      elim (Result-cases (listed e group_id group g).0) [
        | inr (f, k) ↦ cc
        | inl ([], k) ↦
            (let (asked, same) = listed-keys e group_id group g [] k in
              let none_left = listed-length e group_id group g [] k in
              let ended : (listed e group_id group g).1 ≡ g' = ground arith in
              let unchanged : g ≡ g' = sym (listed-same e group_id group g) ∙ ended in
              let zero_pending : pending_count group_id g ≡ 0 = omega (arith, none_left, asked) in
              let counted : n ≡ assigned = ground arith in
              (
                sym (ap (pending_count group_id) unchanged) ∙ zero_pending,
                omega (arith, counted, zero_pending),
                subst (λ c. IsValid c.registry) unchanged v,
              ))
        | inl (key ∷ keys, k) ↦
            elim (Result-cases
              (batched e group_id group (key ∷ keys) (listed e group_id group g).1).0) [
                | inr (f, x) ↦ cc
                | inl (done, x) ↦
                    (let next = round e group_id group (key ∷ keys) g in
                      let w = round-Written e group_id group (key ∷ keys) g x in
                      let fewer =
                        Written-pending e group_id group (key ∷ keys) (mappings_of g)
                          (mappings_of next) w v in
                      let (none_left, counted, valid) =
                        group_loop_complete fuel (assigned + length (key ∷ keys)) next n g'
                          (Written-IsConsistent e group_id group (key ∷ keys) (mappings_of g)
                            (mappings_of next) w v)
                          (ground arith) in
                      (none_left, omega (arith, counted, fewer), valid))
              ]
      ]

  record_duration-mappings :
      (duration : ℕ) (result : Result ℕ) (g : Generator)
      → mappings_of (record_duration e group_id group duration (result, g)).1 ≡ mappings_of g
  unfolding record_duration record_generation_stats transaction
  record_duration-mappings duration result g = refl

  -- In a registry whose constraints hold, and with at least one round more than the group has keys
  -- without replacement, `generate_group` returns or raises: its loop ends.
  pub generate_group_ends :
      (fuel duration : ℕ) (g : Generator)
      → IsValid g.registry
      → pending_count group_id g < fuel
      → is_some (generate_group e group_id group fuel duration g) ≡ true
  unfolding generate_group
  generate_group_ends fuel duration g v lt =
      ground (arith, group_loop_ends e group_id group fuel 0 g v lt)

  -- When `generate_group` returns, on a registry whose constraints hold, every key of the group has a replacement, the number that it
  -- returns is that of the keys that had none before, and the constraints of the table hold.
  pub generate_group_complete :
      (fuel duration : ℕ) (g : Generator) (n : ℕ) (g' : Generator)
      → IsValid g.registry
      → generate_group e group_id group fuel duration g ≡ some (ok n, g')
      → (pending_count group_id g' ≡ 0) × (n ≡ pending_count group_id g) × IsValid g'.registry
  unfolding generate_group record_duration record_generation_stats transaction
  generate_group_complete fuel duration g n g' v h =
      elim (Option-cases (group_loop e group_id group fuel 0 g)) [
        | inl out_of_fuel ↦ cc
        | inr ((err f, end), k) ↦ cc
        | inr ((ok m, end), k) ↦
            (let (none_left, counted, valid) = group_loop_complete fuel 0 g m end v k in
              let same : mappings_of end ≡ mappings_of g' = ground arith in
              let returned : m ≡ n = ground arith in
              (
                ap (count (is_pending group_id)) (sym same) ∙ none_left,
                omega (arith, counted, returned),
                subst IsConsistent same valid,
              ))
      ]
