-- ===== src/Mapping/Registry/Assign/Outcome.antt =====
-- What a client of the registry sees after `assign_replacements` has returned.
use db_sanitizer.Base.{
  ◌≡◌, refl, Bool, true, false, Option, none, some, List, [], ◌∷◌, arith, Option-cases, inl, inr,
  if◌then◌else◌, All, All-map₂, ap, ◌∙◌, sym,
}
use mathlib.Core.Path.{subst}
use db_sanitizer.Base.Text.{Text, text_eq_refl, text_eq_instance}
use db_sanitizer.Errors.{ok}
use db_sanitizer.Mapping.Tables.{MappingRecord, select_key, has_key, update_replacement}
use db_sanitizer.Mapping.Registry.{Registry, lookup, has_source_key, validate_key, found}
use db_sanitizer.Mapping.Registry.Rows.{has_key-write_replacement}
use db_sanitizer.Mapping.Registry.Assign.{
  Assignment, validate_batch, update_all, assign_replacements, is_unassigned,
}
use db_sanitizer.Mapping.Registry.Assign.Effect.{
  update_all-select_key, accepted, block_parts, fill_all, fill_all-Filled,
  validate_batch-IsDistinct, check_rows-IsFree, IsFree, Filled,
}

abbrev HasValidKeys : Text → Assignment → Type 0
HasValidKeys g a =
    (validate_key g a.source_hmac ≡ ok tt) × (validate_key g a.replacement_hmac ≡ ok tt)

validate_batch-HasValidKeys :
    (g : Text) (sources replacements : List Text) (batch : List Assignment)
    → validate_batch g sources replacements batch ≡ ok tt
    → All (HasValidKeys g) batch
unfolding validate_batch
validate_batch-HasValidKeys g sources replacements [] h = tt
validate_batch-HasValidKeys g sources replacements (a ∷ batch) h = (
  (ground arith, ground arith),
  validate_batch-HasValidKeys g (a.source_hmac ∷ sources) (a.replacement ∷ replacements) batch
      (ground arith),
)

update_replacement-has_key :
    (g s r h j k : Text) (rows after : List MappingRecord)
    → update_replacement g s r h rows ≡ some after
    → has_key j k after ≡ has_key j k rows
unfolding update_replacement
update_replacement-has_key g s r h j k rows after e =
    ground (arith, has_key-write_replacement g s r h j k rows)

update_all-has_key :
    (g j k : Text) (batch : List Assignment) (r t : Registry)
    → update_all g batch r ≡ (ok tt, t)
    → has_key j k t.mappings ≡ has_key j k r.mappings
unfolding update_all
update_all-has_key g j k [] r t e = ground arith
update_all-has_key g j k (a ∷ batch) r t e =
    elim (Option-cases
      (update_replacement g a.source_hmac a.replacement a.replacement_hmac r.mappings)) [
        | inl clash ↦ ground arith
        | inr (rows, up) ↦
            update_all-has_key g j k batch (record r { mappings = rows }) t (ground arith)
            ∙ update_replacement-has_key g a.source_hmac a.replacement a.replacement_hmac j k
                r.mappings rows up
      ]

-- What the batch has done for one of its assignments, from registry `r` to registry `t`.
abbrev pub IsDone : Text → Registry → Registry → Assignment → Type 0
IsDone g r t a =
    (lookup g a.source_hmac r ≡ (ok none, r))
    × (lookup g a.source_hmac t ≡ (ok (some a.replacement), t))
    × (has_source_key g a.replacement_hmac t ≡ (ok false, t))

Filled-found :
    (a : Assignment) (o : Option MappingRecord) → Filled a o → found o ≡ some a.replacement
Filled-found a none f = absurd f
Filled-found a (some row) f = f.0

unassigned-found : (o : Option MappingRecord) → is_unassigned o ≡ true → found o ≡ none
unassigned-found none h = refl
unassigned-found (some row) h = ground arith

pub lookup-valid :
    (g h : Text) (r : Registry)
    → validate_key g h ≡ ok tt
    → lookup g h r ≡ (ok (found (select_key g h r.mappings)), r)
unfolding lookup
lookup-valid g h r v = rw v

pub has_source_key-valid :
    (g h : Text) (r : Registry)
    → validate_key g h ≡ ok tt
    → has_source_key g h r ≡ (ok (has_key g h r.mappings), r)
unfolding has_source_key
has_source_key-valid g h r v = rw v

assignment-IsDone :
    (g : Text) (r t : Registry) (a : Assignment)
    → HasValidKeys g a
    → IsFree g r.mappings a
    → found (select_key g a.source_hmac t.mappings) ≡ some a.replacement
    → has_key g a.replacement_hmac t.mappings ≡ has_key g a.replacement_hmac r.mappings
    → IsDone g r t a
assignment-IsDone g r t a v f now keys = (
  lookup-valid g a.source_hmac r v.0
      ∙ ap (λ o. (ok o, r)) (unassigned-found (select_key g a.source_hmac r.mappings) f.0),
  lookup-valid g a.source_hmac t v.0 ∙ ap (λ o. (ok o, t)) now,
  has_source_key-valid g a.replacement_hmac t v.1 ∙ ap (λ o. (ok o, t)) (keys ∙ f.1),
)

-- The row of a source key after the batch.
batch-select_key :
    (g k : Text) (batch : List Assignment) (r s t : Registry)
    → update_all g batch r ≡ (ok tt, s)
    → t.mappings ≡ s.mappings
    → select_key g k t.mappings ≡ fill_all g k batch (select_key g k r.mappings)
batch-select_key g k batch r s t up same =
    ap (select_key g k) same
    ∙ update_all-select_key g g k batch r s up
    ∙ ap
        (λ b.
          if b then fill_all g k batch (select_key g k r.mappings) else select_key g k r.mappings)
        (text_eq_refl g)

-- When a batch is accepted, each of its source keys had no replacement before and has the
-- assigned one after, and no replacement's digest is a source key of the group.
pub assign_replacements_outcome :
    (g : Text) (batch : List Assignment) (flag : Bool) (r t : Registry)
    → assign_replacements g batch flag r ≡ (ok tt, t)
    → All (IsDone g r t) batch
assign_replacements_outcome g [] flag r t h = tt
assign_replacements_outcome g (a ∷ batch) flag r t h =
    let (valid, block) = accepted g a batch flag r t h in
    let (s, checked, up, same) = block_parts g (a ∷ batch) flag r t block in
    let free = check_rows-IsFree g (a ∷ batch) r.mappings checked in
    let filled =
      fill_all-Filled g (a ∷ batch) r.mappings (validate_batch-IsDistinct g [] [] (a ∷ batch) valid)
        free in
    All-map₂
      (λ b (v : HasValidKeys g b × IsFree g r.mappings b) f.
        assignment-IsDone g r t b v.0 v.1
          (Filled-found b (select_key g b.source_hmac t.mappings)
            (subst (Filled b) (sym (batch-select_key g b.source_hmac (a ∷ batch) r s t up same)) f))
          (ap (has_key g b.replacement_hmac) same
            ∙ update_all-has_key g g b.replacement_hmac (a ∷ batch) r s up))
      (a ∷ batch)
      (All-map₂ (λ b v f. (v, f)) (a ∷ batch)
        (validate_batch-HasValidKeys g [] [] (a ∷ batch) valid) free)
      filled
