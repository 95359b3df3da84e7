-- ===== src/Mapping/Registry/Invariant.antt =====
-- The constraints of the table `mappings`: no key, no replacement and no replacement's digest twice
-- in a group, and a digest beside each replacement.
use db_sanitizer.Base.{
  ◌≡◌, refl, Bool, true, false, ◌&&◌, Option, none, some, List, [], ◌∷◌, ◌++◌, any, All, is_some,
  arith, Bool-cases, inl, inr,
}
use mathlib.Core.Path.{subst}
use db_sanitizer.Base.Text.{Text, text_eq, text_eq_iff}
use db_sanitizer.Mapping.Tables.{
  MappingRecord, holds, is_key, is_pending_key, new_key, has_key, insert_or_ignore, clashes,
  write_replacement, update_replacement,
}

abbrev pub same_some : Option Text → Option Text → Bool
same_some none t = false
same_some (some s) none = false
same_some (some s) (some t) = text_eq s t

-- Two rows that the constraints allow side by side.
abbrev pub Apart : MappingRecord → MappingRecord → Type 0
Apart a b =
    ((text_eq a.group_id b.group_id && text_eq a.source_hmac b.source_hmac) ≡ false)
    × ((text_eq a.group_id b.group_id && same_some a.replacement b.replacement) ≡ false)
    × ((text_eq a.group_id b.group_id && same_some a.replacement_hmac b.replacement_hmac) ≡ false)

abbrev pub IsPaired : MappingRecord → Type 0
IsPaired row = is_some row.replacement_hmac ≡ is_some row.replacement

abbrev pub IsConsistent : List MappingRecord → Type 0
IsConsistent [] = Unit
IsConsistent (row ∷ rows) = IsPaired row × All (Apart row) rows × IsConsistent rows

All-append_new :
    (row : MappingRecord) (g s : Text) (rows : List MappingRecord)
    → All (Apart row) rows
    → is_key g s row ≡ false
    → All (Apart row) (rows ++ (new_key g s ∷ []))
unfolding is_key
All-append_new row g s [] h k = ground arith
All-append_new row g s (r ∷ rows) h k = (h.0, All-append_new row g s rows h.1 k)

IsConsistent-append :
    (g s : Text) (rows : List MappingRecord)
    → IsConsistent rows
    → has_key g s rows ≡ false
    → IsConsistent (rows ++ (new_key g s ∷ []))
unfolding has_key
IsConsistent-append g s [] h k = (refl, tt, tt)
IsConsistent-append g s (row ∷ rows) h k = (
  h.0,
  All-append_new row g s rows h.1 (ground arith),
  IsConsistent-append g s rows h.2 (ground arith),
)

pub insert_or_ignore-IsConsistent :
    (g s : Text) (rows : List MappingRecord)
    → IsConsistent rows
    → IsConsistent (insert_or_ignore g s rows)
unfolding insert_or_ignore
insert_or_ignore-IsConsistent g s rows h = elim (Bool-cases (has_key g s rows)) [
  | inl known ↦ rw known h
  | inr new ↦ rw new (IsConsistent-append g s rows h new)
]

-- Only one row has the key that is written.
pub write_replacement-absent :
    (g s r h : Text) (row : MappingRecord) (rows : List MappingRecord)
    → is_key g s row ≡ true
    → All (Apart row) rows
    → write_replacement g s r h rows ≡ rows
unfolding write_replacement
write_replacement-absent g s r h row [] k a = refl
write_replacement-absent g s r h row (x ∷ rows) k a = ground (
  arith,
  write_replacement-absent g s r h row rows k a.1,
  text_eq_iff row.group_id g,
  text_eq_iff row.source_hmac s,
  text_eq_iff x.group_id g,
  text_eq_iff x.source_hmac s,
  text_eq_iff row.group_id x.group_id,
  text_eq_iff row.source_hmac x.source_hmac,
)

same_some-holds : (r : Text) (o : Option Text) → same_some (some r) o ≡ holds r o
unfolding holds
same_some-holds r none = refl
same_some-holds r (some s) = ground (arith, text_eq_iff r s, text_eq_iff s r)

holds-same_some : (r : Text) (o : Option Text) → same_some o (some r) ≡ holds r o
unfolding holds
holds-same_some r none = refl
holds-same_some r (some s) = refl

module _ (g s r h : Text) where
  abbrev written : MappingRecord → MappingRecord
  written row = record row { replacement = some r; replacement_hmac = some h }

  -- The row that is written stays apart from a row that does not clash with it.
  Apart-written :
      (row x : MappingRecord)
      → is_key g s row ≡ true
      → Apart row x
      → clashes g s r h x ≡ false
      → Apart (written row) x
  unfolding is_key clashes
  Apart-written row x k a c = ground (
    arith,
    text_eq_iff row.group_id g,
    text_eq_iff row.source_hmac s,
    text_eq_iff x.group_id g,
    text_eq_iff x.source_hmac s,
    text_eq_iff row.group_id x.group_id,
    text_eq_iff row.source_hmac x.source_hmac,
    same_some-holds r x.replacement,
    same_some-holds h x.replacement_hmac,
  )

  Apart-other :
      (row x : MappingRecord)
      → is_key g s x ≡ true
      → Apart row x
      → clashes g s r h row ≡ false
      → Apart row (written x)
  unfolding is_key clashes
  Apart-other row x k a c = ground (
    arith,
    text_eq_iff row.group_id g,
    text_eq_iff row.source_hmac s,
    text_eq_iff x.group_id g,
    text_eq_iff x.source_hmac s,
    text_eq_iff row.group_id x.group_id,
    text_eq_iff row.source_hmac x.source_hmac,
    holds-same_some r row.replacement,
    holds-same_some h row.replacement_hmac,
  )

  All-written :
      (row : MappingRecord) (rows : List MappingRecord)
      → is_key g s row ≡ true
      → All (Apart row) rows
      → any (clashes g s r h) rows ≡ false
      → All (Apart (written row)) rows
  All-written row [] k a c = tt
  All-written row (x ∷ rows) k a c =
      (Apart-written row x k a.0 (ground arith), All-written row rows k a.1 (ground arith))

  All-write_replacement :
      (row : MappingRecord) (rows : List MappingRecord)
      → clashes g s r h row ≡ false
      → All (Apart row) rows
      → All (Apart row) (write_replacement g s r h rows)
  unfolding write_replacement
  All-write_replacement row [] c a = tt
  All-write_replacement row (x ∷ rows) c a = elim (Bool-cases (is_pending_key g s x)) [
    | inl hit ↦
        rw hit (Apart-other row x (ground arith) a.0 c, All-write_replacement row rows c a.1)
    | inr miss ↦ rw miss (a.0, All-write_replacement row rows c a.1)
  ]

  pub write_replacement-IsConsistent :
      (rows : List MappingRecord)
      → IsConsistent rows
      → any (clashes g s r h) rows ≡ false
      → IsConsistent (write_replacement g s r h rows)
  unfolding write_replacement
  write_replacement-IsConsistent [] k c = tt
  write_replacement-IsConsistent (row ∷ rows) k c = elim (Bool-cases (is_pending_key g s row)) [
    | inl hit ↦ rw hit (
        rw (write_replacement-absent g s r h row rows (ground arith) k.1)
          (refl, All-written row rows (ground arith) k.1 (ground arith), k.2))
    | inr miss ↦ rw miss (
      k.0,
      All-write_replacement row rows (ground arith) k.1,
      write_replacement-IsConsistent rows k.2 (ground arith),
    )
  ]

  -- Without a pending row of the key nothing is written.
  write_replacement-none :
      (rows : List MappingRecord)
      → any (is_pending_key g s) rows ≡ false
      → write_replacement g s r h rows ≡ rows
  unfolding write_replacement
  write_replacement-none [] k = refl
  write_replacement-none (row ∷ rows) k = ground (arith, write_replacement-none rows)

  -- An update that passes the constraints keeps them.
  pub update_replacement-IsConsistent :
      (rows after : List MappingRecord)
      → IsConsistent rows
      → update_replacement g s r h rows ≡ some after
      → IsConsistent after
  unfolding update_replacement
  update_replacement-IsConsistent rows after k e =
      elim (Bool-cases (any (is_pending_key g s) rows)) [
        | inl hit ↦
            (let c : any (clashes g s r h) rows ≡ false = ground arith in
              let w : write_replacement g s r h rows ≡ after = ground arith in
              subst IsConsistent w (write_replacement-IsConsistent rows k c))
        | inr miss ↦
            (let w : write_replacement g s r h rows ≡ after = ground arith in
              subst IsConsistent w (rw (write_replacement-none rows miss) k))
      ]
