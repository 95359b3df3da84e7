-- ===== src/Mapping/Registry/Assign/Stable.antt =====
-- `assign_replacements` and the replacements that are there already.
use db_sanitizer.Base.{
  ◌≡◌, Bool, Option, none, some, List, [], ◌∷◌, arith, inl, inr, if◌then◌else◌, ap, ◌∙◌,
}
use mathlib.Core.Path.{subst}
use db_sanitizer.Base.Text.{Text, text_eq, text_eq_instance}
use db_sanitizer.Errors.{ok, Result-cases}
use db_sanitizer.Mapping.Registry.Assign.Keeps.{assign_replacements_atomic}
use db_sanitizer.Mapping.Tables.{MappingRecord, select_key}
use db_sanitizer.Mapping.Registry.{Registry, found}
use db_sanitizer.Mapping.Registry.Rows.{fill}
use db_sanitizer.Mapping.Registry.Assign.{Assignment, update_all, assign_replacements}
use db_sanitizer.Mapping.Registry.Assign.Effect.{
  update_all-select_key, accepted, block_parts, fill_all,
}

fill_all-found :
    (g k x : Text) (batch : List Assignment) (o : Option MappingRecord)
    → found o ≡ some x
    → found (fill_all g k batch o) ≡ some x
fill_all-found g k x [] o h = h
fill_all-found g k x (a ∷ batch) none h = cc
fill_all-found g k x (a ∷ batch) (some row) h =
    let q : some row ≡ (
        if text_eq a.source_hmac k
        then fill a.replacement a.replacement_hmac (some row)
        else some row) =
      ground arith in
    subst (λ o. found (fill_all g k batch o) ≡ some x) q (fill_all-found g k x batch (some row) h)

update_all-found :
    (g j k x : Text) (batch : List Assignment) (r s : Registry)
    → update_all g batch r ≡ (ok tt, s)
    → found (select_key j k r.mappings) ≡ some x
    → found (select_key j k s.mappings) ≡ some x
update_all-found g j k x batch r s up h = ground (
  arith,
  update_all-select_key g j k batch r s up,
  fill_all-found g k x batch (select_key j k r.mappings) h,
)

-- No batch, accepted or refused, changes a replacement that is assigned.
pub assign_replacements-found :
    (g : Text) (batch : List Assignment) (flag : Bool) (r : Registry) (j k x : Text)
    → found (select_key j k r.mappings) ≡ some x
    → found (select_key j k (assign_replacements g batch flag r).1.mappings) ≡ some x
unfolding assign_replacements
assign_replacements-found g [] flag r j k x h = h
assign_replacements-found g (a ∷ batch) flag r j k x h =
    elim (Result-cases (assign_replacements g (a ∷ batch) flag r).0) [
      | inr (e, refused) ↦
          ap (λ s. found (select_key j k s.mappings))
            (assign_replacements_atomic g (a ∷ batch) flag r e refused)
          ∙ h
      | inl (done, returned) ↦
          (let t = (assign_replacements g (a ∷ batch) flag r).1 in
            let (valid, block) = accepted g a batch flag r t (ap (λ o. (o, t)) returned) in
            let (s, checked, up, same) = block_parts g (a ∷ batch) flag r t block in
            ap (λ rows. found (select_key j k rows)) same
            ∙ update_all-found g j k x (a ∷ batch) r s up h)
    ]
