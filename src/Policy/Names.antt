-- ===== src/Policy/Names.antt =====
-- The regular expressions that db_sanitizer's modules give to `fullmatch`, as tests on texts, and
-- `_validate_artifact_leaf_name` of policy/models.py.
use db_sanitizer.Base.{ℕ, Bool, false, not, ◌&&◌, ◌||◌, [], ◌∷◌, all, any, length, leb, ◌==◌}
use db_sanitizer.Base.Text.{Text, codes, text_eq}

abbrev pub is_upper : ℕ → Bool
is_upper c = leb b'A' c && leb c b'Z'

abbrev pub is_lower : ℕ → Bool
is_lower c = leb b'a' c && leb c b'z'

abbrev pub is_digit : ℕ → Bool
is_digit c = leb b'0' c && leb c b'9'

abbrev pub starts : (ℕ → Bool) → (ℕ → Bool) → Text → Bool
starts first rest [] = false
starts first rest (c ∷ s) = first c && all rest s

-- `^[A-Za-z_][A-Za-z0-9_$]*$`
unfoldable pub is_identifier : Text → Bool
is_identifier =
    starts (λ c. is_upper c || is_lower c || c == b'_')
      (λ c. is_upper c || is_lower c || is_digit c || c == b'_' || c == b'$')

-- `^[A-Z_][A-Z0-9_]*$`
unfoldable pub is_env_name : Text → Bool
is_env_name = starts (λ c. is_upper c || c == b'_') (λ c. is_upper c || is_digit c || c == b'_')

-- `^[A-Za-z0-9][A-Za-z0-9_.-]{0,127}$`
unfoldable pub is_run_id : Text → Bool
is_run_id s =
    leb (length s) 128
    && starts (λ c. is_upper c || is_lower c || is_digit c)
        (λ c. is_upper c || is_lower c || is_digit c || c == b'_' || c == b'.' || c == b'-') s

-- `^[a-z][a-z0-9_]{0,63}$`
unfoldable pub is_check_id : Text → Bool
is_check_id s = leb (length s) 64 && starts is_lower (λ c. is_lower c || is_digit c || c == b'_') s

-- `^[a-f0-9]{64}$`
unfoldable pub is_hash : Text → Bool
is_hash s = length s == 64 && all (λ c. (leb b'a' c && leb c b'f') || is_digit c) s

-- `Path(value).is_absolute()` of a POSIX path.
abbrev pub is_absolute : Text → Bool
is_absolute [] = false
is_absolute (c ∷ s) = c == b'/'

-- Whether `_validate_artifact_leaf_name` returns the name.
unfoldable pub is_artifact_leaf_name : Text → Bool
is_artifact_leaf_name value = not (
    text_eq value (codes ".")
    || text_eq value (codes "..")
    || is_absolute value
    || any (λ c. c == b'/') value
    || any (λ c. c == b'\\') value
    || any (λ c. c == 0) value)
