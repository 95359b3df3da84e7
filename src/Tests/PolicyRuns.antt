-- ===== src/Tests/PolicyRuns.antt =====
-- A policy with one group.
use db_sanitizer.Base.{◌≡◌, ◌↔◌, refl, true, some, [], ◌∷◌}
use db_sanitizer.Base.Dict.{lookup, insert}
use db_sanitizer.Policy.Models.{Groups, key, claim_groups, group_for_column}
use db_sanitizer.Policy.Models.Groups.{lists, group_for_column_iff}
use db_sanitizer.Tests.Samples.{people, name_column, name_group}

abbrev groups : Groups
groups = (people, name_group) ∷ []

claimed : claim_groups groups [] ≡ some ((key name_column, people) ∷ [])
unfolding claim_groups lookup insert
claimed = refl

group_for_column_iff_example :
    (group_for_column name_column groups ≡ some people) ↔ (lists people name_column groups ≡ true)
group_for_column_iff_example =
    group_for_column_iff groups ((key name_column, people) ∷ []) name_column people claimed
