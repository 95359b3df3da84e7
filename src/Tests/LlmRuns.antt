-- ===== src/Tests/LlmRuns.antt =====
-- Runs of the generator.
use db_sanitizer.Base.{ℕ, ◌≡◌, refl, true, Option, none, some, all, is_some, arith}
use db_sanitizer.Errors.{Result, ok}
use db_sanitizer.Base.Text.{text_ltb, text_eq}
use db_sanitizer.Mapping.Registry.Assign.Keeps.{IsValid}
use db_sanitizer.Llm.Generator.{is_valid_value, Generator}
use db_sanitizer.Llm.Generator.Batches.{
  zip_assignments, valid_replacements, tries, replacement_hmac, is_taken, group_loop,
  generate_batch, finish, collect, attempt, answer, accept_all, generate_group,
}
use db_sanitizer.Llm.Generator.Group.{mappings_of, pending_count}
use db_sanitizer.Llm.Generator.Complete.{generate_group_ends, generate_group_complete}
use db_sanitizer.Llm.Generator.Honest.{is_honest_row, generate_group_honest}
use db_sanitizer.Tests.Samples.{setup, generator, people, name_group}
use db_sanitizer.Tests.RegistryRuns.{seeded-IsValid}
use db_sanitizer.Mapping.Registry.{
  record_generation_stats, list_unassigned, has_source_key, has_replacement_hmac,
}
use db_sanitizer.Exec.{transaction}
use db_sanitizer.Mapping.Tables.{update_replacement, select_key, pending_keys, has_key}
use db_sanitizer.Base.Sort.{sort_insert, sort}
use db_sanitizer.Mapping.Registry.Assign.{assign_replacements}
use db_sanitizer.Llm.Models.{model_validate}
use db_sanitizer.Mapping.Normalization.{strip, normalize}
use db_sanitizer.Policy.Models.{normalization_value}
use db_sanitizer.Mapping.HmacKey.{encode, digest}

abbrev outcome : Option (Result ℕ × Generator)
outcome = generate_group setup people name_group 3 7 generator

abbrev state_of : Option (Result ℕ × Generator) → Generator
state_of none = generator
state_of (some (result, g)) = g

generated : generate_group setup people name_group 3 7 generator ≡ some (ok 2, state_of outcome)
unfolding generate_group group_loop record_generation_stats list_unassigned generate_batch
    transaction pending_keys tries sort text_ltb attempt sort_insert text_eq collect finish answer
    accept_all replacement_hmac zip_assignments assign_replacements model_validate
    valid_replacements normalize normalization_value digest strip is_valid_value is_taken encode
    select_key has_key update_replacement has_source_key has_replacement_hmac
generated = refl

generate_group_ends_example : is_some (generate_group setup people name_group 3 7 generator) ≡ true
unfolding text_eq
generate_group_ends_example =
    generate_group_ends setup people name_group 3 7 generator seeded-IsValid (omega arith)

generate_group_complete_example :
    (pending_count people (state_of outcome) ≡ 0)
    × (2 ≡ pending_count people generator)
    × IsValid (state_of outcome).registry
generate_group_complete_example =
    generate_group_complete setup people name_group 3 7 generator 2 (state_of outcome)
      seeded-IsValid generated

generate_group_honest_example :
    all (is_honest_row setup people name_group) (mappings_of (state_of outcome)) ≡ true
unfolding text_eq
generate_group_honest_example =
    generate_group_honest setup people name_group 3 7 generator (ok 2) (state_of outcome) refl
      generated
