-- ===== src/Mapping/Normalization/Laws.antt =====
-- The results and the errors of `normalize`.
use db_sanitizer.Base.{◌≡◌, ◌⊎◌, Bool, true, false, arith}
use db_sanitizer.Base.Text.{Text, nonempty}
use db_sanitizer.Errors.{ok, err, normalization_error}
use db_sanitizer.Mapping.Normalization.{Unicode, Value, null, str, other, normalize}

module _ (u : Unicode) where
  pub normalize-nonempty :
      (v : Value) (kind r : Text) → normalize u v kind false ≡ ok r → nonempty r ≡ true
  unfolding normalize
  normalize-nonempty (str s) kind r h = ground arith
  normalize-nonempty null kind r h = cc
  normalize-nonempty (other n) kind r h = cc

  pub normalize_cases :
      (v : Value) (kind : Text) (allow : Bool)
      → ((r : Text) × (normalize u v kind allow ≡ ok r))
        ⊎ (normalize u v kind allow ≡ err normalization_error)
  unfolding normalize
  normalize_cases (str s) kind allow = ground arith
  normalize_cases v kind allow = ground arith
