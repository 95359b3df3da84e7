-- ===== src/Mapping/Registry/Accumulator/Multiset.antt =====
-- The work table as a pair of multisets of digests, the expected and the actual ones.
use db_sanitizer.Base.{◌+◌, ◌≡◌, ◌↔◌, refl, List, [], ◌∷◌, ◌++◌, count-append, map, sum, arith}
use mathlib.Core.Path.{sym, ◌∙◌}
use mathlib.Core.List.{append-nil, append_assoc}
use db_sanitizer.Base.Text.{Text, text_eq}
use db_sanitizer.Mapping.Tables.{HmacWork}
use db_sanitizer.Mapping.Registry.Accumulator.{
  Column, expected, actual, upsert, upsert_all, abs_difference,
}
use db_sanitizer.Mapping.Registry.Accumulator.Tally.{
  occurrences, tally, tally-upsert, one_if, IsKeyed, IsKeyed-upsert, difference_zero→tally,
  tally→difference_zero,
}

-- The table stands for the digests expected so far and the actual ones.
pub record Represents (wanted seen : List Text) (ws : List HmacWork) : Type 0 where
  pub keyed : IsKeyed ws
  pub expected_at : (v : Text) → tally expected v ws ≡ occurrences v wanted
  pub actual_at : (v : Text) → tally actual v ws ≡ occurrences v seen

pub Represents-empty : Represents [] [] []
unfolding tally
Represents-empty = record { keyed = tt; expected_at = λ v. refl; actual_at = λ v. refl }

occurrences-snoc :
    (v h : Text) (values : List Text)
    → occurrences v (values ++ (h ∷ [])) ≡ occurrences v values + one_if (text_eq v h)
occurrences-snoc v h values = ground (arith, count-append (text_eq v) values (h ∷ []))

upsert-expected :
    (h : Text) (wanted seen : List Text) (ws : List HmacWork)
    → Represents wanted seen ws
    → Represents (wanted ++ (h ∷ [])) seen (upsert expected h ws)
upsert-expected h wanted seen ws r = record {
  keyed = IsKeyed-upsert expected h ws r.keyed;
  expected_at = λ v.
      ground (
        arith,
        tally-upsert expected expected v h ws,
        occurrences-snoc v h wanted,
        r.expected_at v,
      );
  actual_at = λ v. ground (arith, tally-upsert actual expected v h ws, r.actual_at v);
}

upsert-actual :
    (h : Text) (wanted seen : List Text) (ws : List HmacWork)
    → Represents wanted seen ws
    → Represents wanted (seen ++ (h ∷ [])) (upsert actual h ws)
upsert-actual h wanted seen ws r = record {
  keyed = IsKeyed-upsert actual h ws r.keyed;
  expected_at = λ v. ground (arith, tally-upsert expected actual v h ws, r.expected_at v);
  actual_at = λ v.
      ground (arith, tally-upsert actual actual v h ws, occurrences-snoc v h seen, r.actual_at v);
}

-- The lists that the table stands for after a batch.
abbrev pub plus : Column → Column → List Text → List Text → List Text
plus expected expected batch values = values ++ batch
plus actual actual batch values = values ++ batch
plus _ _ batch values = values

-- A batch that is added to a column extends the multiset of that column by the batch, and leaves
-- the other alone.
pub upsert_all-Represents :
    (c : Column) (batch wanted seen : List Text) (ws : List HmacWork)
    → Represents wanted seen ws
    → Represents (plus c expected batch wanted) (plus c actual batch seen) (upsert_all c batch ws)
unfolding upsert_all
upsert_all-Represents expected [] wanted seen ws r = rw append-nil r
upsert_all-Represents actual [] wanted seen ws r = rw append-nil r
upsert_all-Represents expected (h ∷ batch) wanted seen ws r =
    rw (← append_assoc wanted (h ∷ []) batch) (
      upsert_all-Represents expected batch (wanted ++ (h ∷ [])) seen (upsert expected h ws)
        (upsert-expected h wanted seen ws r))
upsert_all-Represents actual (h ∷ batch) wanted seen ws r =
    rw (← append_assoc seen (h ∷ []) batch) (
      upsert_all-Represents actual batch wanted (seen ++ (h ∷ [])) (upsert actual h ws)
        (upsert-actual h wanted seen ws r))

-- In a table that stands for a list of expected digests and one of seen digests, the sum of the
-- differences is zero exactly when every digest is expected as often as it is seen.
pub difference_zero_iff :
    (wanted seen : List Text) (ws : List HmacWork)
    → Represents wanted seen ws
    → (sum (map abs_difference ws) ≡ 0) ↔ ((v : Text) → occurrences v wanted ≡ occurrences v seen)
difference_zero_iff wanted seen ws r = (
  (λ h v. sym (r.expected_at v) ∙ difference_zero→tally v ws h ∙ r.actual_at v),
  (λ h. tally→difference_zero ws r.keyed (λ v. r.expected_at v ∙ h v ∙ sym (r.actual_at v))),
)
