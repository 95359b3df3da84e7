-- ===== src/Tests/RegistryRuns.antt =====
-- Runs of the registry.
use db_sanitizer.Base.{ℕ, ◌≡◌, refl, true, some, [], ◌∷◌, All, count, ◌+◌}
use db_sanitizer.Base.Text.{codes, text_eq}
use db_sanitizer.Errors.{ok, err, registry_conflict_error}
use db_sanitizer.Mapping.Tables.{
  update_replacement, insert_or_ignore, has_key, is_pending, select_key,
}
use db_sanitizer.Mapping.Registry.{
  validate_metadata, validate_key, insert_all, initialize, add_stats, empty, lookup, validate_keys,
  insert_source_keys,
}
use db_sanitizer.Mapping.Registry.History.{after_all}
use db_sanitizer.Mapping.Registry.History.Laws.{lookup_injective, lookup_stable, after_all-IsValid}
use db_sanitizer.Mapping.Registry.Keys.{HasInserted, insert_source_keys_outcome}
use db_sanitizer.Mapping.Registry.Assign.{assign_replacements}
use db_sanitizer.Mapping.Registry.Assign.Keeps.{IsValid, assign_replacements_atomic}
use db_sanitizer.Mapping.Registry.Assign.Outcome.{IsDone, assign_replacements_outcome}
use db_sanitizer.Mapping.Registry.Assign.Pending.{assign_replacements_pending}
use db_sanitizer.Tests.Samples.{
  people, s1, s2, run_calls, more_calls, seeded, ran, first_assignment, stolen_assignment,
}
use db_sanitizer.Exec.{transaction}

first_lookup : (lookup people s1 (after_all run_calls empty)).0 ≡ ok (some (codes "Ada"))
unfolding lookup after_all select_key initialize insert_source_keys assign_replacements text_eq
    validate_metadata transaction insert_or_ignore validate_keys insert_all update_replacement
first_lookup = refl

ran-lookup : (lookup people s1 ran).0 ≡ ok (some (codes "Ada"))
unfolding lookup validate_key select_key text_eq
ran-lookup = refl

lookup_injective_example : s1 ≡ s1
lookup_injective_example =
    lookup_injective run_calls people s1 s1 (codes "Ada") first_lookup first_lookup

lookup_stable_example : (lookup people s1 (after_all more_calls ran)).0 ≡ ok (some (codes "Ada"))
lookup_stable_example = lookup_stable more_calls ran people s1 (codes "Ada") ran-lookup

after_all-IsValid_example : IsValid (after_all run_calls empty)
after_all-IsValid_example = after_all-IsValid run_calls empty tt

pub seeded-IsValid : IsValid seeded
unfolding text_eq
seeded-IsValid = ((refl, ((refl, refl, refl), tt), (refl, tt, tt)))

assigned : assign_replacements people (first_assignment ∷ []) true seeded ≡ (ok tt, ran)
unfolding assign_replacements transaction select_key has_key update_replacement add_stats text_eq
assigned = refl

assign_replacements_outcome_example : All (IsDone people seeded ran) (first_assignment ∷ [])
assign_replacements_outcome_example =
    assign_replacements_outcome people (first_assignment ∷ []) true seeded ran assigned

assign_replacements_pending_example :
    count (is_pending people) ran.mappings + 1 ≡ count (is_pending people) seeded.mappings
assign_replacements_pending_example =
    assign_replacements_pending people (first_assignment ∷ []) true seeded ran seeded-IsValid
      assigned

-- The second assignment of the batch takes the replacement of a key that has one.
clash :
    (assign_replacements people (stolen_assignment ∷ []) true ran).0 ≡ err registry_conflict_error
unfolding assign_replacements transaction select_key has_key update_replacement text_eq
clash = refl

assign_replacements_atomic_example :
    (assign_replacements people (stolen_assignment ∷ []) true ran).1 ≡ ran
assign_replacements_atomic_example =
    assign_replacements_atomic people (stolen_assignment ∷ []) true ran registry_conflict_error
      clash

keys_are_valid : validate_keys people (s1 ∷ s2 ∷ s1 ∷ []) ≡ ok tt
unfolding validate_keys validate_key
keys_are_valid = refl

insert_source_keys_outcome_example :
    (n : ℕ) × ((insert_source_keys people (s1 ∷ s2 ∷ s1 ∷ []) empty).0 ≡ ok n)
    × HasInserted people
        (s1 ∷ s2 ∷ s1 ∷ [])
        n
        empty
        (insert_source_keys people (s1 ∷ s2 ∷ s1 ∷ []) empty).1
insert_source_keys_outcome_example =
    insert_source_keys_outcome people (s1 ∷ s2 ∷ s1 ∷ []) empty keys_are_valid
