-- ===== src/Mapping/Registry/Assign/Effect.antt =====
-- What an accepted batch has done to the table.
use db_sanitizer.Base.{
  ◌≡◌, refl, Bool, true, false, Option, none, some, List, [], ◌∷◌, arith, Option-cases, inl, inr,
  ◌&&◌, if◌then◌else◌, All, All-map₂, All-map₂,
}
use mathlib.Core.Path.{subst, sym}
use mathlib.Core.Path.{subst, sym, ap, ◌∙◌}
use db_sanitizer.Base.Eq.{elem}
use db_sanitizer.Base.Text.{
  Text, text_eq, text_eq_iff, text_eq_refl, text_eq_refl, text_eq_instance,
}
use db_sanitizer.Errors.{ok}
use db_sanitizer.Exec.{transaction}
use db_sanitizer.Exec.Keeps.{transaction-ok}
use db_sanitizer.Mapping.Tables.{MappingRecord, update_replacement, select_key, has_key}
use db_sanitizer.Mapping.Registry.{Registry}
use db_sanitizer.Mapping.Registry.Rows.{fill, select_key-write_replacement}
use db_sanitizer.Mapping.Registry.Assign.{
  Assignment, validate_batch, check_rows, update_all, assign_block, record_generated,
  assign_replacements, is_unassigned,
}

-- The row of a key after the updates of a batch: the first assignment of the key fills it.
abbrev pub fill_all : Text → Text → List Assignment → Option MappingRecord → Option MappingRecord
fill_all g k [] o = o
fill_all g k (a ∷ batch) o =
    fill_all g k batch
      (if text_eq a.source_hmac k then fill a.replacement a.replacement_hmac o else o)

pub update_replacement-select_key :
    (g s r h j k : Text) (rows after : List MappingRecord)
    → update_replacement g s r h rows ≡ some after
    → select_key j k after
      ≡ (if text_eq g j && text_eq s k then fill r h (select_key j k rows) else select_key j k rows)
unfolding update_replacement
update_replacement-select_key g s r h j k rows after e =
    ground (arith, select_key-write_replacement g s r h j k rows)

pub update_all-select_key :
    (g j k : Text) (batch : List Assignment) (r t : Registry)
    → update_all g batch r ≡ (ok tt, t)
    → select_key j k t.mappings ≡ (
        if text_eq g j
        then fill_all g k batch (select_key j k r.mappings)
        else select_key j k r.mappings)
unfolding update_all
update_all-select_key g j k [] r t e = ground arith
update_all-select_key g j k (a ∷ batch) r t e =
    elim (Option-cases
      (update_replacement g a.source_hmac a.replacement a.replacement_hmac r.mappings)) [
        | inl clash ↦ ground arith
        | inr (rows, up) ↦
            (let this =
                update_replacement-select_key g a.source_hmac a.replacement a.replacement_hmac j k
                  r.mappings rows up in
              let rest =
                update_all-select_key g j k batch (record r { mappings = rows }) t (ground arith) in
              ground arith)
      ]

-- No two assignments of the batch have one source.
abbrev pub IsDistinct : List Assignment → Type 0
IsDistinct [] = Unit
IsDistinct (a ∷ batch) =
    All (λ b. text_eq a.source_hmac b.source_hmac ≡ false) batch × IsDistinct batch

validate_batch-elem :
    (g s : Text) (sources replacements : List Text) (batch : List Assignment)
    → validate_batch g sources replacements batch ≡ ok tt
    → elem s sources ≡ true
    → All (λ b. text_eq s b.source_hmac ≡ false) batch
unfolding validate_batch
validate_batch-elem g s sources replacements [] h k = tt
validate_batch-elem g s sources replacements (b ∷ batch) h k = (
  ground (arith, text_eq_iff s b.source_hmac),
  validate_batch-elem g s (b.source_hmac ∷ sources) (b.replacement ∷ replacements) batch
      (ground arith) (ground arith),
)

pub validate_batch-IsDistinct :
    (g : Text) (sources replacements : List Text) (batch : List Assignment)
    → validate_batch g sources replacements batch ≡ ok tt
    → IsDistinct batch
unfolding validate_batch
validate_batch-IsDistinct g sources replacements [] h = tt
validate_batch-IsDistinct g sources replacements (a ∷ batch) h =
    let rest : validate_batch g (a.source_hmac ∷ sources) (a.replacement ∷ replacements) batch
        ≡ ok tt =
      ground arith in
    (
      validate_batch-elem g a.source_hmac (a.source_hmac ∷ sources) (a.replacement ∷ replacements)
          batch rest (ground (arith, text_eq_iff a.source_hmac a.source_hmac)),
      validate_batch-IsDistinct g (a.source_hmac ∷ sources) (a.replacement ∷ replacements) batch
          rest,
    )

-- What `check_rows` has found of each assignment.
abbrev pub IsFree : Text → List MappingRecord → Assignment → Type 0
IsFree g rows a =
    (is_unassigned (select_key g a.source_hmac rows) ≡ true)
    × (has_key g a.replacement_hmac rows ≡ false)

pub check_rows-IsFree :
    (g : Text) (batch : List Assignment) (rows : List MappingRecord)
    → check_rows g batch rows ≡ ok tt
    → All (IsFree g rows) batch
unfolding check_rows
check_rows-IsFree g [] rows h = tt
check_rows-IsFree g (a ∷ batch) rows h =
    ((ground arith, ground arith), check_rows-IsFree g batch rows (ground arith))

-- The row holds the replacement and the digest of an assignment.
abbrev pub Filled : Assignment → Option MappingRecord → Type 0
Filled a none = ⊥
Filled a (some row) =
    (row.replacement ≡ some a.replacement) × (row.replacement_hmac ≡ some a.replacement_hmac)

Filled-fill_all :
    (g k : Text) (a : Assignment) (batch : List Assignment) (o : Option MappingRecord)
    → Filled a o
    → Filled a (fill_all g k batch o)
Filled-fill_all g k a [] o f = f
Filled-fill_all g k a (b ∷ batch) none f = absurd f
Filled-fill_all g k a (b ∷ batch) (some row) f =
    let q : some row ≡ (
        if text_eq b.source_hmac k
        then fill b.replacement b.replacement_hmac (some row)
        else some row) =
      ground arith in
    subst (λ o. Filled a (fill_all g k batch o)) q (Filled-fill_all g k a batch (some row) f)

fill-Filled :
    (a : Assignment) (o : Option MappingRecord)
    → is_unassigned o ≡ true
    → Filled a (fill a.replacement a.replacement_hmac o)
fill-Filled a none h = cc
fill-Filled a (some row) h =
    let q : some (record row {
      replacement = some a.replacement;
      replacement_hmac = some a.replacement_hmac;
    })
        ≡ fill a.replacement a.replacement_hmac (some row) =
      ground arith in
    subst (Filled a) q (refl, refl)

-- The row of key `k` before the rest of a batch that begins with `a`.
abbrev after_first : Assignment → Text → List MappingRecord → Text → Bool → Option MappingRecord
after_first a g rows k hit =
    if hit then fill a.replacement a.replacement_hmac (select_key g k rows) else select_key g k rows

-- Every assignment of a batch with distinct, free sources fills its row.
pub fill_all-Filled :
    (g : Text) (batch : List Assignment) (rows : List MappingRecord)
    → IsDistinct batch
    → All (IsFree g rows) batch
    → All (λ a. Filled a (fill_all g a.source_hmac batch (select_key g a.source_hmac rows))) batch
fill_all-Filled g [] rows d f = tt
fill_all-Filled g (a ∷ batch) rows d f = (
  subst (λ t. Filled a (fill_all g a.source_hmac batch (after_first a g rows a.source_hmac t)))
      (sym (text_eq_refl a.source_hmac))
      (Filled-fill_all g a.source_hmac a batch
        (fill a.replacement a.replacement_hmac (select_key g a.source_hmac rows))
        (fill-Filled a (select_key g a.source_hmac rows) f.0.0)),
  All-map₂
      (λ b apart filled.
        subst
          (λ t. Filled b (fill_all g b.source_hmac batch (after_first a g rows b.source_hmac t)))
          (sym apart) filled)
      batch d.0 (fill_all-Filled g batch rows d.1 f.1),
)

-- The parts of an accepted batch.
pub accepted :
    (g : Text) (a : Assignment) (batch : List Assignment) (flag : Bool) (r t : Registry)
    → assign_replacements g (a ∷ batch) flag r ≡ (ok tt, t)
    → (validate_batch g [] [] (a ∷ batch) ≡ ok tt)
      × (assign_block g (a ∷ batch) flag r ≡ (ok tt, t))
unfolding assign_replacements
accepted g a batch flag r t h =
    let run : transaction (assign_block g (a ∷ batch) flag) r ≡ (ok tt, t) = ground arith in
    (
      ground arith,
      transaction-ok (assign_block g (a ∷ batch) flag) r tt (ap (λ p. p.0) run)
          ∙ ap (λ q. (ok tt, q.1)) run,
    )

pub block_parts :
    (g : Text) (batch : List Assignment) (flag : Bool) (r t : Registry)
    → assign_block g batch flag r ≡ (ok tt, t)
    → (s : Registry) × (check_rows g batch r.mappings ≡ ok tt)
      × (update_all g batch r ≡ (ok tt, s))
      × (t.mappings ≡ s.mappings)
unfolding assign_block record_generated
block_parts g batch flag r t h =
    ((update_all g batch r).1, ground arith, ground arith, ground arith)
