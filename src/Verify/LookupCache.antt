-- ===== src/Verify/LookupCache.antt =====
-- The class `_ReplacementLookupCache` of db_sanitizer/verify/checks.py: the least recently used
-- entry goes first.
pub mod Answers
use db_sanitizer.Base.{
  ℕ, suc, ◌≡◌, ◌≤◌, refl, Bool, true, false, Option, none, some, List, [], ◌∷◌, ◌++◌, All,
  All-append, length, length-append, leb, arith, Bool-cases, Option-cases, inl, inr, if◌then◌else◌,
  sym,
}
use mathlib.Core.Path.{subst}
use db_sanitizer.Base.Dict.{Dict, erase}
use db_sanitizer.Base.Dict as Dicts
use db_sanitizer.Base.Text.{Text, text_eq, text_eq_iff, text_eq_instance}
use db_sanitizer.Errors.{Error, Result, ok, err, Result-cases}
use db_sanitizer.Exec.{Exec}
use db_sanitizer.Mapping.Registry.{Registry, lookup}

pub record ReplacementLookupCache : Type 0 where
  pub registry : Registry
  pub group_id : Text
  pub limit : ℕ
  pub values : Dict Text (Option Text)

abbrev pub new_cache : Registry → Text → ReplacementLookupCache
new_cache registry group_id = record {
  registry = registry;
  group_id = group_id;
  limit = 4_096;
  values = [];
}

-- `popitem(last=False)` if the cache is full.
unfoldable pub drop_oldest : ℕ → Dict Text (Option Text) → Dict Text (Option Text)
drop_oldest limit [] = []
drop_oldest limit (entry ∷ values) =
    if leb limit (length (entry ∷ values)) then values else entry ∷ values

-- `_ReplacementLookupCache.lookup`
unfoldable pub cached_lookup : Text → Exec ReplacementLookupCache (Option Text)
cached_lookup source_hmac c = elim (Dicts.lookup source_hmac c.values) [
  | some value ↦
      (ok value, record c { values = erase source_hmac c.values ++ ((source_hmac, value) ∷ []) })
  | none ↦ elim (lookup c.group_id source_hmac c.registry).0 [
    | err e ↦ (err e, c)
    | ok value ↦ (
      ok value,
      record c { values = drop_oldest c.limit c.values ++ ((source_hmac, value) ∷ []) },
    )
  ]
]
