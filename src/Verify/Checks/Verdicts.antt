-- ===== src/Verify/Checks/Verdicts.antt =====
-- The verdict of `check_no_single_placeholder`.
use db_sanitizer.Base.{
  ◌≡◌, refl, Bool, not, ◌&&◌, ◌||◌, List, [], ◌∷◌, all, count, filter, leb, ltb, ◌==◌, arith,
}
use db_sanitizer.Verify.Checks.{ColumnStats, is_pass, check_no_single_placeholder}

-- The column is there, and if the source has two values in it then so has the target.
abbrev pub keeps_variety : ColumnStats → Bool
keeps_variety item =
    item.available && (not (ltb 1 item.source_distinct) || ltb 1 item.target_distinct)

count-keeps_variety :
    (stats : List ColumnStats)
    → ((count (λ item. not item.available) stats == 0)
        && (count
              (λ item. leb item.target_distinct 1)
              (filter (λ item. item.available && ltb 1 item.source_distinct) stats)
            == 0))
      ≡ all keeps_variety stats
count-keeps_variety [] = refl
count-keeps_variety (item ∷ stats) = ground (arith, count-keeps_variety stats)

-- The check against single placeholders passes exactly when every configured column is available
-- and none with two distinct source values has fewer than two distinct target values.
pub check_no_single_placeholder_iff :
    (stats : List ColumnStats)
    → is_pass (check_no_single_placeholder stats) ≡ all keeps_variety stats
unfolding check_no_single_placeholder
check_no_single_placeholder_iff stats = ground (arith, count-keeps_variety stats)
