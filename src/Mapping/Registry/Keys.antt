-- ===== src/Mapping/Registry/Keys.antt =====
-- `insert_source_key` and `insert_source_keys` of the class `MappingRegistry`.
use db_sanitizer.Base.{
  ℕ, suc, ◌+◌, ◌≡◌, refl, ◌&&◌, ◌||◌, List, [], ◌∷◌, length, length-append, arith, if◌then◌else◌,
  inl, inr,
}
use db_sanitizer.Base.Eq.{elem}
use db_sanitizer.Base.Text.{Text, text_eq, text_eq_iff, text_eq_instance}
use mathlib.Core.Path.{subst, ap, sym}
use db_sanitizer.Errors.{ok, Result-cases}
use db_sanitizer.Exec.{transaction}
use db_sanitizer.Exec.Keeps.{transaction-keeps}
use db_sanitizer.Mapping.Tables.{MappingRecord, select_key, has_key, insert_or_ignore, new_key}
use db_sanitizer.Mapping.Registry.{Registry, insert_all, insert_source_keys, validate_keys, found}
use db_sanitizer.Mapping.Registry.Rows.{has_key-select_key, select_key-insert_or_ignore}
use db_sanitizer.Mapping.Registry.Invariant.{IsConsistent, insert_or_ignore-IsConsistent}

length-insert_or_ignore :
    (g h : Text) (rows : List MappingRecord)
    → length (insert_or_ignore g h rows)
      ≡ (if has_key g h rows then length rows else suc (length rows))
unfolding insert_or_ignore
length-insert_or_ignore g h rows = ground (arith, length-append rows (new_key g h ∷ []))

has_key-insert_or_ignore :
    (g h j k : Text) (rows : List MappingRecord)
    → has_key j k (insert_or_ignore g h rows) ≡ (has_key j k rows || (text_eq g j && text_eq h k))
has_key-insert_or_ignore g h j k rows = ground (
  arith,
  has_key-select_key j k rows,
  has_key-select_key j k (insert_or_ignore g h rows),
  select_key-insert_or_ignore g h j k rows,
)

-- The result and the table after the loop of `INSERT OR IGNORE`.
insert_all_growth :
    (g : Text) (keys : List Text) (r : Registry)
    → (n : ℕ) × ((insert_all g keys r).0 ≡ ok n)
      × (length (insert_all g keys r).1.mappings ≡ length r.mappings + n)
unfolding insert_all
insert_all_growth g [] r = (0, refl, omega arith)
insert_all_growth g (h ∷ keys) r =
    let s : Registry = record r { mappings = insert_or_ignore g h r.mappings } in
    let (n, e, l) = insert_all_growth g keys s in
    (
      if has_key g h r.mappings then n else n + 1,
      ground arith,
      ground (arith, length-insert_or_ignore g h r.mappings),
    )

insert_all-has_key :
    (g j k : Text) (keys : List Text) (r : Registry)
    → has_key j k (insert_all g keys r).1.mappings
      ≡ (has_key j k r.mappings || (text_eq g j && elem k keys))
unfolding insert_all
insert_all-has_key g j k [] r = ground arith
insert_all-has_key g j k (h ∷ keys) r =
    let s : Registry = record r { mappings = insert_or_ignore g h r.mappings } in
    ground (
      arith,
      insert_all-has_key g j k keys s,
      has_key-insert_or_ignore g h j k r.mappings,
      text_eq_iff h k,
      text_eq_iff k h,
    )

pub found-insert_or_ignore :
    (g h j k : Text) (rows : List MappingRecord)
    → found (select_key j k (insert_or_ignore g h rows)) ≡ found (select_key j k rows)
found-insert_or_ignore g h j k rows = ground (arith, select_key-insert_or_ignore g h j k rows)

pub insert_all-found :
    (g j k : Text) (keys : List Text) (r : Registry)
    → found (select_key j k (insert_all g keys r).1.mappings) ≡ found (select_key j k r.mappings)
unfolding insert_all
insert_all-found g j k [] r = refl
insert_all-found g j k (h ∷ keys) r =
    let s : Registry = record r { mappings = insert_or_ignore g h r.mappings } in
    ground (arith, insert_all-found g j k keys s, found-insert_or_ignore g h j k r.mappings)

insert_all-IsConsistent :
    (g : Text) (keys : List Text) (r : Registry)
    → IsConsistent r.mappings
    → IsConsistent (insert_all g keys r).1.mappings
unfolding insert_all
insert_all-IsConsistent g [] r c = c
insert_all-IsConsistent g (h ∷ keys) r c =
    let s : Registry = record r { mappings = insert_or_ignore g h r.mappings } in
    let q : (insert_all g keys s).1 ≡ (insert_all g (h ∷ keys) r).1 = ground arith in
    subst (λ t. IsConsistent t.mappings) q
      (insert_all-IsConsistent g keys s (insert_or_ignore-IsConsistent g h r.mappings c))

insert_source_keys-run :
    (g : Text) (keys : List Text) (r : Registry) (n : ℕ)
    → validate_keys g keys ≡ ok tt
    → (insert_all g keys r).0 ≡ ok n
    → insert_source_keys g keys r ≡ (ok n, (insert_all g keys r).1)
unfolding insert_source_keys transaction
insert_source_keys-run g keys r n v e = ground arith

-- What a transaction that inserts has done, from registry `r` to registry `t`.
pub record HasInserted (g : Text) (keys : List Text) (n : ℕ) (r t : Registry) : Type 0 where
  pub growth : length t.mappings ≡ length r.mappings + n
  pub keys_after :
      (j k : Text)
      → has_key j k t.mappings ≡ (has_key j k r.mappings || (text_eq g j && elem k keys))
  pub values_after :
      (j k : Text) → found (select_key j k t.mappings) ≡ found (select_key j k r.mappings)

-- A list of well-formed keys is inserted whole: the result is the number of new rows, the keys
-- of the table are the old ones and the given ones, and no key has gained or lost a replacement.
pub insert_source_keys_outcome :
    (g : Text) (keys : List Text) (r : Registry)
    → validate_keys g keys ≡ ok tt
    → (n : ℕ) × ((insert_source_keys g keys r).0 ≡ ok n)
      × HasInserted g keys n r (insert_source_keys g keys r).1
insert_source_keys_outcome g keys r v =
    let (n, e, l) = insert_all_growth g keys r in
    let q = insert_source_keys-run g keys r n v e in
    (
      n,
      ap (λ p. p.0) q,
      subst (λ t. HasInserted g keys n r t) (ap (λ p. p.1) (sym q))
          (record {
            growth = l;
            keys_after = λ j k. insert_all-has_key g j k keys r;
            values_after = λ j k. insert_all-found g j k keys r;
          }),
    )

pub insert_source_keys-IsConsistent :
    (g : Text) (keys : List Text) (r : Registry)
    → IsConsistent r.mappings
    → IsConsistent (insert_source_keys g keys r).1.mappings
unfolding insert_source_keys
insert_source_keys-IsConsistent g keys r c = elim (Result-cases (validate_keys g keys)) [
  | inl (done, v) ↦ rw v (
      transaction-keeps (λ t. IsConsistent t.mappings) (insert_all g keys) r c
        (insert_all-IsConsistent g keys r c))
  | inr (e, v) ↦ rw v c
]
