-- ===== src/Mapping/Registry/Assign/Pending.antt =====
-- `assign_replacements` and the number of pending keys.
use db_sanitizer.Base.{
  suc, ◌+◌, ◌≡◌, Bool, true, false, some, List, [], ◌∷◌, All, All-map, All-map₂, count, length,
  arith, Option-cases, Bool-cases, inl, inr,
}
use mathlib.Core.Path.{ap, ◌∙◌}
use db_sanitizer.Base.Text.{Text, text_eq}
use db_sanitizer.Errors.{ok}
use db_sanitizer.Mapping.Tables.{
  MappingRecord, is_key, is_pending, select_key, write_replacement, update_replacement,
}
use db_sanitizer.Mapping.Registry.{Registry}
use db_sanitizer.Mapping.Registry.Invariant.{
  IsConsistent, write_replacement-absent, update_replacement-IsConsistent,
}
use db_sanitizer.Mapping.Registry.Assign.{
  Assignment, update_all, assign_replacements, is_unassigned,
}
use db_sanitizer.Mapping.Registry.Assign.Keeps.{IsValid}
use db_sanitizer.Mapping.Registry.Assign.Effect.{
  accepted, block_parts, IsDistinct, validate_batch-IsDistinct, check_rows-IsFree, IsFree,
  update_replacement-select_key,
}

count-write_replacement :
    (g s r h : Text) (rows : List MappingRecord)
    → IsConsistent rows
    → is_unassigned (select_key g s rows) ≡ true
    → suc (count (is_pending g) (write_replacement g s r h rows)) ≡ count (is_pending g) rows
unfolding write_replacement select_key
count-write_replacement g s r h [] c u = cc
count-write_replacement g s r h (row ∷ rows) c u = elim (Bool-cases (is_key g s row)) [
  | inl here ↦ ground (arith, write_replacement-absent g s r h row rows here c.1)
  | inr later ↦ ground (arith, count-write_replacement g s r h rows c.2)
]

count-update_replacement :
    (g s r h : Text) (rows after : List MappingRecord)
    → IsConsistent rows
    → is_unassigned (select_key g s rows) ≡ true
    → update_replacement g s r h rows ≡ some after
    → suc (count (is_pending g) after) ≡ count (is_pending g) rows
unfolding update_replacement
count-update_replacement g s r h rows after c u e =
    ground (arith, count-write_replacement g s r h rows c u)

-- The key of an assignment has a row without replacement.
abbrev IsOpen : Text → List MappingRecord → Assignment → Type 0
IsOpen g rows a = is_unassigned (select_key g a.source_hmac rows) ≡ true

-- An update of one key leaves the others open.
IsOpen-update :
    (g : Text) (a b : Assignment) (rows after : List MappingRecord)
    → update_replacement g a.source_hmac a.replacement a.replacement_hmac rows ≡ some after
    → text_eq a.source_hmac b.source_hmac ≡ false
    → IsOpen g rows b
    → IsOpen g after b
IsOpen-update g a b rows after up apart open_before = ground (
  arith,
  update_replacement-select_key g a.source_hmac a.replacement a.replacement_hmac g b.source_hmac
      rows after up,
)

count-update_all :
    (g : Text) (batch : List Assignment) (r s : Registry)
    → IsValid r
    → IsDistinct batch
    → All (IsOpen g r.mappings) batch
    → update_all g batch r ≡ (ok tt, s)
    → count (is_pending g) s.mappings + length batch ≡ count (is_pending g) r.mappings
unfolding update_all
count-update_all g [] r s v d o up = ground arith
count-update_all g (a ∷ batch) r s v d o up =
    elim (Option-cases
      (update_replacement g a.source_hmac a.replacement a.replacement_hmac r.mappings)) [
        | inl clash ↦ ground arith
        | inr (rows, e) ↦
            (let t : Registry = record r { mappings = rows } in
              let one =
                count-update_replacement g a.source_hmac a.replacement a.replacement_hmac r.mappings
                  rows v o.0 e in
              let more =
                count-update_all g batch t s
                  (update_replacement-IsConsistent g a.source_hmac a.replacement a.replacement_hmac
                    r.mappings rows v e)
                  d.1
                  (All-map₂
                    (λ b apart open_before. IsOpen-update g a b r.mappings rows e apart open_before)
                    batch d.0 o.1)
                  (ground arith) in
              omega (arith, one, more))
      ]

-- When a batch is accepted, in a registry whose constraints hold, the pending keys of its group
-- become fewer by its length.
pub assign_replacements_pending :
    (g : Text) (batch : List Assignment) (flag : Bool) (r t : Registry)
    → IsValid r
    → assign_replacements g batch flag r ≡ (ok tt, t)
    → count (is_pending g) t.mappings + length batch ≡ count (is_pending g) r.mappings
unfolding assign_replacements
assign_replacements_pending g [] flag r t v h = ground arith
assign_replacements_pending g (a ∷ batch) flag r t v h =
    let (valid, block) = accepted g a batch flag r t h in
    let (s, checked, up, same) = block_parts g (a ∷ batch) flag r t block in
    ap (λ rows. count (is_pending g) rows + length (a ∷ batch)) same
    ∙ count-update_all g (a ∷ batch) r s v (validate_batch-IsDistinct g [] [] (a ∷ batch) valid)
        (All-map (λ b (f : IsFree g r.mappings b). f.0) (a ∷ batch)
          (check_rows-IsFree g (a ∷ batch) r.mappings checked))
        up
