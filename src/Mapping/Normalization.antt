-- ===== src/Mapping/Normalization.antt =====
-- db_sanitizer/mapping/normalization.py. The tables of Unicode that Python's `unicodedata` and
-- `str` read are data outside the repository, so they are a parameter.
pub mod Laws
use db_sanitizer.Base.{ℕ, Bool, true, false, not, ◌&&◌, List, [], ◌∷◌, ◌++◌, filter, if◌then◌else◌}
use db_sanitizer.Base.Text.{Text, codes, text_eq, nonempty}
use db_sanitizer.Errors.{Result, ok, err, normalization_error, ◌>>=◌, ◌>>◌, raise_if}

pub record Unicode : Type 0 where
  -- `unicodedata.normalize("NFKC", s)`
  pub nfkc : Text → Text
  -- `s.casefold()`
  pub casefold : Text → Text
  -- what `str.strip` drops and `\s` matches
  pub is_space : ℕ → Bool
  -- `c.isdigit()`
  pub is_digit : ℕ → Bool

-- A Python object that may reach `normalize`: `None`, a text, or anything else.
pub data Value : Type 0 where
  null : Value
  str : Text → Value
  other : ℕ → Value

module _ (u : Unicode) where
  drop_spaces : Text → Text
  drop_spaces [] = []
  drop_spaces (c ∷ s) = if u.is_space c then drop_spaces s else c ∷ s

  -- `s.rstrip()`: a space stays if something that is none follows.
  rstrip : Text → Text
  rstrip [] = []
  rstrip (c ∷ s) =
      let rest = rstrip s in if u.is_space c && not (nonempty rest) then [] else c ∷ rest

  -- `s.strip()`
  unfoldable pub strip : Text → Text
  unfolding drop_spaces rstrip
  strip s = rstrip (drop_spaces s)

  -- `_WHITESPACE.sub(" ", s)`: each run of spaces becomes one blank. The flag says that the
  -- character before was one.
  collapse : Bool → Text → Text
  collapse before [] = []
  collapse before (c ∷ s) =
      let rest = collapse (u.is_space c) s in
      if u.is_space c then (if before then rest else b' ' ∷ rest) else c ∷ rest

  unfoldable pub canonical : Text → Text → Result Text
  unfolding collapse
  canonical kind s =
      if text_eq kind (codes "human_text")
      then ok (u.casefold (collapse false s))
      else if text_eq kind (codes "email")
      then ok (u.casefold s)
      else if text_eq kind (codes "phone")
      then ok (filter u.is_digit s)
      else err normalization_error

  unfoldable pub normalize : Value → Text → Bool → Result Text
  unfolding canonical
  normalize (str s) kind allow_empty = do
    normalized ← canonical kind (strip (u.nfkc s))
    raise_if (not (nonempty normalized) && not allow_empty) normalization_error
    ok normalized
  normalize _ kind allow_empty = err normalization_error
