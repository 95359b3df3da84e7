-- ===== src/Mapping/Registry/Assign/Keeps.antt =====
-- `assign_replacements`, the constraints of the table, and refused batches.
use db_sanitizer.Base.{◌≡◌, Bool, List, [], ◌∷◌, arith, Option-cases, inl, inr}
use mathlib.Core.Path.{subst}
use db_sanitizer.Base.Text.{Text}
use db_sanitizer.Errors.{Error, err}
use db_sanitizer.Exec.Keeps.{transaction-keeps, transaction-err}
use db_sanitizer.Mapping.Tables.{update_replacement}
use db_sanitizer.Mapping.Registry.{Registry}
use db_sanitizer.Mapping.Registry.Invariant.{IsConsistent, update_replacement-IsConsistent}
use db_sanitizer.Mapping.Registry.Assign.{
  Assignment, update_all, assign_block, record_generated, assign_replacements,
}

-- The invariant of the registry.
abbrev pub IsValid : Registry → Type 0
IsValid r = IsConsistent r.mappings

update_all-IsValid :
    (g : Text) (batch : List Assignment) (r : Registry)
    → IsValid r
    → IsValid (update_all g batch r).1
unfolding update_all
update_all-IsValid g [] r v = v
update_all-IsValid g (a ∷ batch) r v =
    elim (Option-cases
      (update_replacement g a.source_hmac a.replacement a.replacement_hmac r.mappings)) [
        | inl clash ↦
            (let q : r ≡ (update_all g (a ∷ batch) r).1 = ground arith in subst IsValid q v)
        | inr (rows, e) ↦
            (let s : Registry = record r { mappings = rows } in
              let q : update_all g batch s ≡ update_all g (a ∷ batch) r = ground arith in
              subst (λ p. IsValid p.1) q
                (update_all-IsValid g batch s (
                  update_replacement-IsConsistent g a.source_hmac a.replacement a.replacement_hmac
                    r.mappings rows v e)))
      ]

assign_block-IsValid :
    (g : Text) (batch : List Assignment) (flag : Bool) (r : Registry)
    → IsValid r
    → IsValid (assign_block g batch flag r).1
unfolding assign_block record_generated
assign_block-IsValid g batch flag r v = ground (arith, update_all-IsValid g batch r v)

pub assign_replacements-IsValid :
    (g : Text) (batch : List Assignment) (flag : Bool) (r : Registry)
    → IsValid r
    → IsValid (assign_replacements g batch flag r).1
unfolding assign_replacements
assign_replacements-IsValid g [] flag r v = v
assign_replacements-IsValid g (a ∷ batch) flag r v = ground (
  arith,
  transaction-keeps IsValid (assign_block g (a ∷ batch) flag) r v
      (assign_block-IsValid g (a ∷ batch) flag r v),
)

-- A batch that is refused, for whatever reason, leaves the whole registry as it was.
pub assign_replacements_atomic :
    (g : Text) (batch : List Assignment) (flag : Bool) (r : Registry) (e : Error)
    → (assign_replacements g batch flag r).0 ≡ err e
    → (assign_replacements g batch flag r).1 ≡ r
unfolding assign_replacements
assign_replacements_atomic g [] flag r e h = cc
assign_replacements_atomic g (a ∷ batch) flag r e h =
    ground (arith, transaction-err (assign_block g (a ∷ batch) flag) r e)
