-- ===== src/Policy/Validator/Coverage.antt =====
-- `_validate_foreign_key_coverage` and the groups of a foreign key's columns.
use db_sanitizer.Base.{
  ◌≡◌, refl, Bool, true, false, not, ◌&&◌, Option, none, some, List, [], ◌∷◌, all, any, filter,
  length, ◌==◌, is_some, arith, Option-cases, inl, inr, if◌then◌else◌,
}
use db_sanitizer.Base.Dict.{Dict, lookup}
use db_sanitizer.Base.Eq.{pair_eq}
use db_sanitizer.Base.Text.{Text, text_eq, text_eq_iff, text_eq_refl, text_eq_instance}
use db_sanitizer.Errors.{ok, err, policy_error}
use db_sanitizer.Policy.Models.{ColumnRef, Key, key}
use db_sanitizer.Policy.Validator.{to_set, assigned_groups, validate_columns_coverage}

abbrev pub same_group : Option Text → Option Text → Bool
same_group none none = true
same_group (some g) (some h) = text_eq g h
same_group _ _ = false

-- All columns have one answer: the same group, or no group.
abbrev pub is_uniform : (ColumnRef → Option Text) → List ColumnRef → Bool
is_uniform group_of [] = true
is_uniform group_of (c ∷ columns) = all (λ d. same_group (group_of c) (group_of d)) columns

length-filter-not :
    (p : Text → Bool) (xs : List Text) → (length (filter (λ y. not (p y)) xs) == 0) ≡ all p xs
length-filter-not p [] = refl
length-filter-not p (x ∷ xs) = ground (arith, length-filter-not p xs)

all-filter-not :
    (p : Text → Bool) (x : Text) (xs : List Text)
    → p x ≡ true
    → all p (filter (λ y. not (text_eq x y)) xs) ≡ all p xs
all-filter-not p x [] h = refl
all-filter-not p x (y ∷ xs) h = ground (arith, all-filter-not p x xs h, text_eq_iff x y)

all-to_set : (p : Text → Bool) (xs : List Text) → all p (to_set xs) ≡ all p xs
unfolding to_set
all-to_set p [] = refl
all-to_set p (x ∷ xs) = ground (arith, all-to_set p xs, all-filter-not p x (to_set xs))

-- A set has one element if all are equal to the first.
length-to_set : (x : Text) (xs : List Text) → (length (to_set (x ∷ xs)) == 1) ≡ all (text_eq x) xs
unfolding to_set
length-to_set x xs =
    let a = length-filter-not (text_eq x) (to_set xs) in
    let b = all-to_set (text_eq x) xs in ground (arith, a, b)

all-assigned :
    (m : Dict Key Text) (g : Text) (columns : List ColumnRef)
    → all (λ d. same_group (some g) (lookup (key d) m)) columns ≡ (
        all (text_eq g) (assigned_groups m columns)
        && not (any (λ c. not (is_some (lookup (key c) m))) columns))
unfolding assigned_groups
all-assigned m g [] = refl
all-assigned m g (c ∷ columns) = elim (Option-cases (lookup (key c) m)) [
  | inl h ↦ ground (arith, all-assigned m g columns)
  | inr (j, h) ↦ ground (arith, all-assigned m g columns)
]

none-assigned :
    (m : Dict Key Text) (columns : List ColumnRef)
    → all (λ d. same_group none (lookup (key d) m)) columns
      ≡ (length (to_set (assigned_groups m columns)) == 0)
unfolding assigned_groups to_set
none-assigned m [] = refl
none-assigned m (c ∷ columns) = elim (Option-cases (lookup (key c) m)) [
  | inl h ↦ ground (arith, none-assigned m columns)
  | inr (j, h) ↦ ground (arith, none-assigned m columns)
]

to_set-cons : (x : Text) (xs : List Text) → (length (to_set (x ∷ xs)) == 0) ≡ false
unfolding to_set
to_set-cons x xs = ground arith

-- The test on the columns of a foreign key passes exactly when they have one answer.
pub validate_columns_coverage_iff :
    (m : Dict Key Text) (columns : List ColumnRef)
    → validate_columns_coverage columns m
      ≡ (if is_uniform (λ c. lookup (key c) m) columns then ok tt else err policy_error)
unfolding validate_columns_coverage to_set assigned_groups
validate_columns_coverage_iff m [] = refl
validate_columns_coverage_iff m (c ∷ columns) = elim (Option-cases (lookup (key c) m)) [
  | inl h ↦ ground (arith, none-assigned m columns)
  | inr (j, h) ↦ ground (
    arith,
    length-to_set j (assigned_groups m columns),
    to_set-cons j (assigned_groups m columns),
    all-assigned m j columns,
    text_eq_refl j,
  )
]
