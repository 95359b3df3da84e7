-- ===== src/Llm/Generator/Honest.antt =====
-- The limits of a group and the digests of the rows that `generate_group` writes.
use db_sanitizer.Base.{
  ℕ, ◌≡◌, refl, Bool, true, false, not, ◌&&◌, ◌||◌, Option, none, some, List, [], ◌∷◌, all, arith,
  Option-cases, inl, inr, ap, ◌∙◌,
}
use db_sanitizer.Base.Text.{Text, text_eq, text_eq_refl, text_eq_instance}
use db_sanitizer.Errors.{Result, ok, err, Result-cases}
use db_sanitizer.Mapping.Tables.{MappingRecord, write_replacement, update_replacement}
use db_sanitizer.Mapping.Registry.{Registry}
use db_sanitizer.Mapping.Registry.Assign.{Assignment, update_all, assign_replacements}
use db_sanitizer.Mapping.Registry.Assign.Effect.{accepted, block_parts}
use db_sanitizer.Policy.Models.{ConsistencyGroup}
use db_sanitizer.Llm.Generator.{Setup, Generator, is_valid_value}
use db_sanitizer.Llm.Generator.Batches.{zip_assignments, replacement_hmac, generate_group}
use db_sanitizer.Llm.Generator.Rows.{AllValid}
use db_sanitizer.Llm.Generator.Progress.{Written}
use db_sanitizer.Llm.Generator.Keeps.{generate_group-keeps}
use db_sanitizer.Llm.Generator.Group.{mappings_of}

module _ (e : Setup) (group_id : Text) (group : ConsistencyGroup) where
  abbrev is_digest_of : Text → Result Text → Bool
  is_digest_of value_hmac (ok d) = text_eq value_hmac d
  is_digest_of value_hmac (err f) = false

  -- A replacement within the limits of the group, with its own digest.
  abbrev is_honest : Text → Text → Bool
  is_honest value value_hmac =
      is_valid_value e.regex group value
      && is_digest_of value_hmac (replacement_hmac e group_id group value)

  abbrev is_honest_pair : Option Text → Option Text → Bool
  is_honest_pair none value_hmac = true
  is_honest_pair (some value) none = false
  is_honest_pair (some value) (some value_hmac) = is_honest value value_hmac

  -- A row of another group, a row without replacement, or one with an honest one.
  abbrev pub is_honest_row : MappingRecord → Bool
  is_honest_row row =
      not (text_eq row.group_id group_id) || is_honest_pair row.replacement row.replacement_hmac

  zip_assignments-is_honest :
      (keys values : List Text) (batch : List Assignment)
      → AllValid e group values
      → zip_assignments (replacement_hmac e group_id group) keys values ≡ ok batch
      → all (λ a. is_honest a.replacement a.replacement_hmac) batch ≡ true
  unfolding zip_assignments
  zip_assignments-is_honest [] [] batch v h = ground arith
  zip_assignments-is_honest [] (value ∷ values) batch v h = cc
  zip_assignments-is_honest (key ∷ keys) [] batch v h = cc
  zip_assignments-is_honest (key ∷ keys) (value ∷ values) batch v h =
      elim (Result-cases (replacement_hmac e group_id group value)) [
        | inr (f, k) ↦ ground arith
        | inl (d, k) ↦
            elim (Result-cases (zip_assignments (replacement_hmac e group_id group) keys values)) [
              | inr (f, z) ↦ ground arith
              | inl (rest, z) ↦
                  ground (arith, zip_assignments-is_honest keys values rest, text_eq_refl d)
            ]
      ]

  write_replacement-is_honest :
      (s x d : Text) (rows : List MappingRecord)
      → is_honest x d ≡ true
      → all is_honest_row rows ≡ true
      → all is_honest_row (write_replacement group_id s x d rows) ≡ true
  unfolding write_replacement
  write_replacement-is_honest s x d [] k h = refl
  write_replacement-is_honest s x d (row ∷ rows) k h =
      ground (arith, write_replacement-is_honest s x d rows k)

  update_all-is_honest :
      (batch : List Assignment) (r t : Registry)
      → all (λ a. is_honest a.replacement a.replacement_hmac) batch ≡ true
      → all is_honest_row r.mappings ≡ true
      → update_all group_id batch r ≡ (ok tt, t)
      → all is_honest_row t.mappings ≡ true
  unfolding update_all update_replacement
  update_all-is_honest [] r t k h up = ground arith
  update_all-is_honest (a ∷ batch) r t k h up =
      elim (Option-cases
        (update_replacement group_id a.source_hmac a.replacement a.replacement_hmac r.mappings)) [
          | inl clash ↦ ground arith
          | inr (rows, q) ↦
              update_all-is_honest batch (record r { mappings = rows }) t (ground arith)
                (ground (
                  arith,
                  write_replacement-is_honest a.source_hmac a.replacement a.replacement_hmac
                      r.mappings,
                ))
                (ground arith)
        ]

  assign_replacements-is_honest :
      (batch : List Assignment) (flag : Bool) (r t : Registry)
      → all (λ a. is_honest a.replacement a.replacement_hmac) batch ≡ true
      → all is_honest_row r.mappings ≡ true
      → assign_replacements group_id batch flag r ≡ (ok tt, t)
      → all is_honest_row t.mappings ≡ true
  unfolding assign_replacements
  assign_replacements-is_honest [] flag r t k h q = ground arith
  assign_replacements-is_honest (a ∷ batch) flag r t k h q =
      let (valid, block) = accepted group_id a batch flag r t q in
      let (s, checked, up, same) = block_parts group_id (a ∷ batch) flag r t block in
      ap (all is_honest_row) same ∙ update_all-is_honest (a ∷ batch) r s k h up

  Written-is_honest :
      (keys : List Text) (before after : List MappingRecord)
      → Written e group_id group keys before after
      → all is_honest_row before ≡ true
      → all is_honest_row after ≡ true
  Written-is_honest keys before after w h =
      ap (all is_honest_row) w.end_rows
      ∙ assign_replacements-is_honest w.batch true w.start w.end
          (zip_assignments-is_honest keys w.values w.batch w.valid w.zipped)
          (ap (all is_honest_row) w.start_rows ∙ h) w.assigned

  -- Whether `generate_group` returns or raises: if all replacements of the group were within its
  -- limits and had their own digests, then all of them are and have after it.
  pub generate_group_honest :
      (fuel duration : ℕ) (g : Generator) (result : Result ℕ) (g' : Generator)
      → all is_honest_row (mappings_of g) ≡ true
      → generate_group e group_id group fuel duration g ≡ some (result, g')
      → all is_honest_row (mappings_of g') ≡ true
  generate_group_honest fuel duration g result g' v h =
      generate_group-keeps e group_id group (λ rows. all is_honest_row rows ≡ true)
        Written-is_honest fuel duration g result g' v h
