-- ===== src/Llm/Generator/Falls.antt =====
-- `generate_group` leaves no more keys without replacement in any group than there were.
use db_sanitizer.Base.{
  ℕ, ◌≡◌, ◌≤◌, Bool, true, some, List, [], ◌∷◌, count, arith, Option-cases, inl, inr,
}
use db_sanitizer.Base.Text.{Text}
use db_sanitizer.Errors.{Result, ok}
use db_sanitizer.Mapping.Tables.{MappingRecord, is_pending, write_replacement, update_replacement}
use db_sanitizer.Mapping.Registry.{Registry}
use db_sanitizer.Mapping.Registry.Assign.{Assignment, update_all, assign_replacements}
use db_sanitizer.Mapping.Registry.Assign.Effect.{accepted, block_parts}
use db_sanitizer.Policy.Models.{ConsistencyGroup}
use db_sanitizer.Llm.Generator.{Setup, Generator}
use db_sanitizer.Llm.Generator.Batches.{generate_group}
use db_sanitizer.Llm.Generator.Progress.{Written}
use db_sanitizer.Llm.Generator.Keeps.{generate_group-keeps}
use db_sanitizer.Llm.Generator.Group.{pending_count}

module _ (h : Text) where
  count-write_replacement :
      (g s x d : Text) (rows : List MappingRecord)
      → count (is_pending h) (write_replacement g s x d rows) ≤ count (is_pending h) rows
  unfolding write_replacement
  count-write_replacement g s x d [] = omega arith
  count-write_replacement g s x d (row ∷ rows) =
      ground (arith, count-write_replacement g s x d rows)

  count-update_all :
      (g : Text) (batch : List Assignment) (r t : Registry)
      → update_all g batch r ≡ (ok tt, t)
      → count (is_pending h) t.mappings ≤ count (is_pending h) r.mappings
  unfolding update_all update_replacement
  count-update_all g [] r t up = ground arith
  count-update_all g (a ∷ batch) r t up =
      elim (Option-cases
        (update_replacement g a.source_hmac a.replacement a.replacement_hmac r.mappings)) [
          | inl clash ↦ ground arith
          | inr (rows, q) ↦
              (let rest =
                  count-update_all g batch (record r { mappings = rows }) t (ground arith) in
                let first =
                  count-write_replacement g a.source_hmac a.replacement a.replacement_hmac
                    r.mappings in
                ground (arith, rest, first))
        ]

  count-assign_replacements :
      (g : Text) (batch : List Assignment) (flag : Bool) (r t : Registry)
      → assign_replacements g batch flag r ≡ (ok tt, t)
      → count (is_pending h) t.mappings ≤ count (is_pending h) r.mappings
  unfolding assign_replacements
  count-assign_replacements g [] flag r t q = ground arith
  count-assign_replacements g (a ∷ batch) flag r t q =
      let (valid, block) = accepted g a batch flag r t q in
      let (s, checked, up, same) = block_parts g (a ∷ batch) flag r t block in
      ground (arith, count-update_all g (a ∷ batch) r s up, same)

  module _ (e : Setup) (group_id : Text) (group : ConsistencyGroup) (n : ℕ) where
    Written-falls :
        (keys : List Text) (before after : List MappingRecord)
        → Written e group_id group keys before after
        → count (is_pending h) before ≤ n
        → count (is_pending h) after ≤ n
    Written-falls keys before after w k =
        let written = count-assign_replacements group_id w.batch true w.start w.end w.assigned in
        ground (arith, written, w.start_rows, w.end_rows)

    pub generate_group-falls :
        (fuel duration : ℕ) (g : Generator) (result : Result ℕ) (g' : Generator)
        → pending_count h g ≤ n
        → generate_group e group_id group fuel duration g ≡ some (result, g')
        → pending_count h g' ≤ n
    generate_group-falls =
        generate_group-keeps e group_id group (λ rows. count (is_pending h) rows ≤ n) Written-falls
