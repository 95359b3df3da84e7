-- ===== src/Mapping/HmacKey.antt =====
-- db_sanitizer/mapping/hmac_key.py. The hash is a parameter; the payload that is hashed is not.
pub mod Payload
use db_sanitizer.Base.{
  ℕ, ◌+◌, ◌*◌, ◌/◌, ◌%◌, Bool, true, false, not, ◌&&◌, List, [], ◌∷◌, ◌++◌, length, all, ltb, leb,
  ◌==◌, if◌then◌else◌,
}
use db_sanitizer.Base.Text.{Text, nonempty}
use db_sanitizer.Errors.{Result, ok, err, hmac_key_error, unexpected, ◌>>=◌, ◌>>◌, raise_if}

-- Python's `bytes`.
abbrev pub Bytes : Type 0
Bytes = List ℕ

-- Python's `hashlib` and `hmac`, as hexadecimal digests.
pub record Crypto : Type 0 where
  pub sha256_hex : Bytes → Text
  pub hmac_sha256_hex : Bytes → Bytes → Text

unfoldable pub utf8_char : ℕ → Bytes
utf8_char c =
    if ltb c 128
    then c ∷ []
    else if ltb c 2048
    then (192 + c / 64) ∷ (128 + c % 64) ∷ []
    else if ltb c 65536
    then (224 + c / 4096) ∷ (128 + c / 64 % 64) ∷ (128 + c % 64) ∷ []
    else (240 + c / 262144) ∷ (128 + c / 4096 % 64) ∷ (128 + c / 64 % 64) ∷ (128 + c % 64) ∷ []

-- A lone surrogate has no encoding.
unfoldable pub is_surrogate : ℕ → Bool
is_surrogate c = leb 55296 c && leb c 57343

-- `s.encode()`
unfoldable pub encode : Text → Result Bytes
unfolding utf8_char is_surrogate
encode [] = ok []
encode (c ∷ s) =
    let rest = encode s in
    if is_surrogate c then err unexpected else (do bytes ← rest; ok (utf8_char c ++ bytes))

module _ (crypto : Crypto) where
  unfoldable pub source_hmac : Bytes → Text → Text → Result Text
  source_hmac secret group_id normalized_value = do
    raise_if (ltb (length secret) 32) hmac_key_error
    raise_if (not (nonempty group_id)) hmac_key_error
    payload ← encode (group_id ++ (0 ∷ normalized_value))
    ok (crypto.hmac_sha256_hex secret payload)

  -- `HMACKey(secret)`: the key is its checked secret.
  unfoldable pub hmac_key : Bytes → Result Bytes
  hmac_key secret = do raise_if (ltb (length secret) 32) hmac_key_error; ok secret

  -- `HMACKey.fingerprint`
  unfoldable pub fingerprint : Bytes → Text
  fingerprint secret = crypto.sha256_hex secret

  -- `HMACKey.digest`
  unfoldable pub digest : Bytes → Text → Text → Result Text
  unfolding source_hmac
  digest secret group_id normalized_value = source_hmac secret group_id normalized_value
