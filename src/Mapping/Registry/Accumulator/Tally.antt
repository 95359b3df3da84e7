-- ===== src/Mapping/Registry/Accumulator/Tally.antt =====
-- The counts of a digest in the work table, and the sum of their differences.
use db_sanitizer.Base.{
  ℕ, ◌+◌, ◌≡◌, refl, Bool, true, false, ◌&&◌, List, [], ◌∷◌, count, map, sum, All, arith,
  if◌then◌else◌, Bool-cases, inl, inr,
}
use db_sanitizer.Base.Text.{Text, text_eq, text_eq_iff}
use db_sanitizer.Mapping.Tables.{HmacWork}
use db_sanitizer.Mapping.Registry.Accumulator.{
  Column, expected, actual, bump, first, upsert, abs_difference,
}

-- How often a digest stands in a list.
abbrev pub occurrences : Text → List Text → ℕ
occurrences v values = count (text_eq v) values

-- The count of a digest in a column of the table.
abbrev pub cell : Column → HmacWork → ℕ
cell expected w = w.expected_count
cell actual w = w.actual_count

unfoldable pub tally : Column → Text → List HmacWork → ℕ
tally c v [] = 0
tally c v (w ∷ ws) = if text_eq w.value_hmac v then cell c w else tally c v ws

abbrev pub same_column : Column → Column → Bool
same_column expected expected = true
same_column actual actual = true
same_column _ _ = false

abbrev pub one_if : Bool → ℕ
one_if true = 1
one_if false = 0

pub tally-upsert :
    (c d : Column) (v h : Text) (ws : List HmacWork)
    → tally c v (upsert d h ws) ≡ tally c v ws + one_if (same_column c d && text_eq v h)
unfolding tally upsert
tally-upsert expected expected v h [] = ground (arith, text_eq_iff h v, text_eq_iff v h)
tally-upsert expected expected v h (w ∷ ws) = ground (
  arith,
  text_eq_iff h v,
  text_eq_iff v h,
  text_eq_iff w.value_hmac v,
  text_eq_iff w.value_hmac h,
  tally-upsert expected expected v h ws,
)
tally-upsert expected actual v h [] = ground (arith, text_eq_iff h v, text_eq_iff v h)
tally-upsert expected actual v h (w ∷ ws) = ground (
  arith,
  text_eq_iff h v,
  text_eq_iff v h,
  text_eq_iff w.value_hmac v,
  text_eq_iff w.value_hmac h,
  tally-upsert expected actual v h ws,
)
tally-upsert actual expected v h [] = ground (arith, text_eq_iff h v, text_eq_iff v h)
tally-upsert actual expected v h (w ∷ ws) = ground (
  arith,
  text_eq_iff h v,
  text_eq_iff v h,
  text_eq_iff w.value_hmac v,
  text_eq_iff w.value_hmac h,
  tally-upsert actual expected v h ws,
)
tally-upsert actual actual v h [] = ground (arith, text_eq_iff h v, text_eq_iff v h)
tally-upsert actual actual v h (w ∷ ws) = ground (
  arith,
  text_eq_iff h v,
  text_eq_iff v h,
  text_eq_iff w.value_hmac v,
  text_eq_iff w.value_hmac h,
  tally-upsert actual actual v h ws,
)

-- No digest has two rows.
abbrev pub IsKeyed : List HmacWork → Type 0
IsKeyed [] = Unit
IsKeyed (w ∷ ws) = All (λ x. text_eq w.value_hmac x.value_hmac ≡ false) ws × IsKeyed ws

value-bump : (c : Column) (w : HmacWork) → (bump c w).value_hmac ≡ w.value_hmac
value-bump expected w = refl
value-bump actual w = refl

value-first : (c : Column) (h : Text) → (first c h).value_hmac ≡ h
value-first c h = rw value-bump

abbrev pub Differs : Text → HmacWork → Type 0
Differs v w = text_eq v w.value_hmac ≡ false

All-upsert :
    (c : Column) (v h : Text) (ws : List HmacWork)
    → text_eq v h ≡ false
    → All (Differs v) ws
    → All (Differs v) (upsert c h ws)
unfolding upsert
All-upsert c v h [] n a = (rw value-first n, tt)
All-upsert c v h (w ∷ ws) n a = elim (Bool-cases (text_eq w.value_hmac h)) [
  | inl hit ↦ rw hit (rw value-bump a.0, a.1)
  | inr miss ↦ rw miss (a.0, All-upsert c v h ws n a.1)
]

pub IsKeyed-upsert :
    (c : Column) (h : Text) (ws : List HmacWork) → IsKeyed ws → IsKeyed (upsert c h ws)
unfolding upsert
IsKeyed-upsert c h [] k = (tt, tt)
IsKeyed-upsert c h (w ∷ ws) k = elim (Bool-cases (text_eq w.value_hmac h)) [
  | inl hit ↦ rw hit (rw value-bump k.0, k.1)
  | inr miss ↦ rw miss (All-upsert c w.value_hmac h ws miss k.0, IsKeyed-upsert c h ws k.1)
]

pub tally-absent :
    (c : Column) (v : Text) (ws : List HmacWork) → All (Differs v) ws → tally c v ws ≡ 0
unfolding tally
tally-absent c v [] a = refl
tally-absent c v (w ∷ ws) a =
    ground (arith, tally-absent c v ws a.1, text_eq_iff w.value_hmac v, text_eq_iff v w.value_hmac)

pub difference_zero→tally :
    (v : Text) (ws : List HmacWork)
    → sum (map abs_difference ws) ≡ 0
    → tally expected v ws ≡ tally actual v ws
unfolding tally
difference_zero→tally v [] h = refl
difference_zero→tally v (w ∷ ws) h = ground (arith, difference_zero→tally v ws)

pub tally→difference_zero :
    (ws : List HmacWork)
    → IsKeyed ws
    → ((v : Text) → tally expected v ws ≡ tally actual v ws)
    → sum (map abs_difference ws) ≡ 0
unfolding tally
tally→difference_zero [] k h = refl
tally→difference_zero (w ∷ ws) k h =
    let here : w.expected_count ≡ w.actual_count =
      ground (arith, h w.value_hmac, text_eq_iff w.value_hmac w.value_hmac) in
    let rest = tally→difference_zero ws k.1 (λ v. ground (
      arith,
      h v,
      text_eq_iff w.value_hmac v,
      tally-absent expected w.value_hmac ws k.0,
      tally-absent actual w.value_hmac ws k.0,
    )) in
    omega (arith, here, rest)
