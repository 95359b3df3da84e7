-- ===== src/Settings.antt =====
-- db_sanitizer/settings.py, and `resolve_policy_runtime` of db_sanitizer/policy/loader.py. An
-- environment is a dict of texts.
pub mod Safe
use db_sanitizer.Base.{
  ℕ, Bool, true, false, not, ◌&&◌, ◌||◌, Option, none, some, List, [], ◌∷◌, length, ltb, ◌==◌,
  if◌then◌else◌,
}
use db_sanitizer.Base.Dict.{Dict, lookup}
use db_sanitizer.Base.Text.{Text, codes, text_eq, nonempty, text_eq_instance}
use db_sanitizer.Errors.{Result, ok, err, ◌>>=◌, ◌>>◌, raise_if, policy_error}
use db_sanitizer.Mapping.HmacKey.{Bytes, encode}
use db_sanitizer.Policy.Sections.{SanitizerPolicy, openrouter, ollama}
use db_sanitizer.Mapping.Normalization.{Unicode, strip}

abbrev pub Environment : Type 0
Environment = Dict Text Text

-- Whether it is negative, and its absolute value.
abbrev pub Integer : Type 0
Integer = Bool × ℕ

-- psycopg's `conninfo_to_dict`, `none` for its errors, and Python's `int`, whose digits are those
-- of Unicode, `none` for a `ValueError`.
pub record Dsns : Type 0 where
  pub conninfo_to_dict : Text → Option (Dict Text Text)
  pub int : Text → Option Integer

pub record RuntimeSettings : Type 0 where
  pub source_dsn : Text
  pub target_dsn : Text
  pub hmac_key : Bytes
  pub provider_base_url : Option Text
  pub provider_api_key : Option Text
  pub provider_model : Text

-- `environment.get(name, "")`, or `str(values.get(name) or "")`
abbrev pub get_or_empty : Text → Environment → Text
get_or_empty name env = elim (lookup name env) [ none ↦ [] | some value ↦ value ]

-- `s or None`
abbrev pub or_none : Text → Option Text
or_none s = if nonempty s then some s else none

-- `s.startswith(prefix)`
unfoldable pub starts_with : Text → Text → Bool
starts_with [] s = true
starts_with (c ∷ prefix) [] = false
starts_with (c ∷ prefix) (d ∷ s) = c == d && starts_with prefix s

-- `s.rstrip("/")`
unfoldable pub strip_slashes : Text → Text
strip_slashes [] = []
strip_slashes (c ∷ s) =
    let rest = strip_slashes s in if c == b'/' && not (nonempty rest) then [] else c ∷ rest

abbrev pub is_http_url : Text → Bool
is_http_url url = starts_with (codes "http://") url || starts_with (codes "https://") url

module _ (u : Unicode) (dsns : Dsns) where
  -- `require_environment`
  unfoldable pub require_environment : Text → Environment → Result Text
  require_environment name env = elim (lookup name env) [
    | none ↦ err policy_error
    | some value ↦ if nonempty (strip u value) then ok value else err policy_error
  ]

  -- `int(values.get("port") or 5432)`
  unfoldable pub port_of : Dict Text Text → Option Integer
  port_of values =
      let port = get_or_empty (codes "port") values in
      if nonempty port then dsns.int port else some (false, 5432)

  -- The host, the port and the name.
  unfoldable pub identity_of : Dict Text Text → Option (Text × (Integer × Text))
  identity_of values =
      let host = u.casefold (get_or_empty (codes "host") values) in
      let database_name = get_or_empty (codes "dbname") values in
      if not (nonempty host) || not (nonempty database_name)
      then none
      else elim (port_of values) [ none ↦ none | some port ↦ some (host, (port, database_name)) ]

  -- `_database_identity`
  unfoldable pub database_identity : Text → Option (Text × (Integer × Text))
  database_identity dsn = elim (dsns.conninfo_to_dict dsn) [
    | none ↦ none
    | some values ↦ identity_of values
  ]

  abbrev pub same_bool : Bool → Bool → Bool
  same_bool true b = b
  same_bool false b = not b

  abbrev pub same_identity :
      Option (Text × (Integer × Text)) → Option (Text × (Integer × Text)) → Bool
  same_identity (some (a, ((s, m), x))) (some (b, ((t, n), y))) =
      text_eq a b && same_bool s t && m == n && text_eq x y
  same_identity _ _ = false

  -- `source_and_target_are_equal`
  unfoldable pub source_and_target_are_equal : Text → Text → Bool
  source_and_target_are_equal source_dsn target_dsn =
      text_eq (strip u source_dsn) (strip u target_dsn)
      || same_identity (database_identity source_dsn) (database_identity target_dsn)

  -- The address of the provider and its key.
  unfoldable pub provider_credentials :
      Text → Option Text → Bool → Environment → Result (Option Text × Option Text)
  provider_credentials base_url_env none true env = require_environment base_url_env env >>= λ url.
      raise_if (not (is_http_url (strip_slashes url))) policy_error
      >> ok (some (strip_slashes url), none)
  provider_credentials base_url_env (some api_key_env) true env =
      require_environment base_url_env env >>= λ url.
      require_environment api_key_env env >>= λ api_key.
      raise_if (not (is_http_url (strip_slashes url))) policy_error
      >> ok (some (strip_slashes url), some api_key)
  provider_credentials base_url_env api_key_env false env = ok (
    or_none (strip_slashes (strip u (get_or_empty base_url_env env))),
    elim api_key_env [ none ↦ none | some name ↦ or_none (get_or_empty name env) ],
  )

  -- The model that is configured, or that of the policy.
  abbrev pub resolved_model : Text → Option Text → Environment → Text
  resolved_model provider_model none env = provider_model
  resolved_model provider_model (some name) env =
      let configured_model = strip u (get_or_empty name env) in
      if nonempty configured_model then configured_model else provider_model

  -- `resolve_runtime_settings`
  unfoldable pub resolve_runtime_settings :
      Text
      → Text
      → Text
      → Text
      → Option Text
      → Text
      → Option Text
      → Environment
      → Bool
      → Result RuntimeSettings
  resolve_runtime_settings source_dsn_env target_dsn_env hmac_key_env provider_base_url_env
        provider_api_key_env provider_model provider_model_env env require_provider_credentials =
      let model = resolved_model provider_model provider_model_env env in
      require_environment source_dsn_env env >>= λ source_dsn.
      require_environment target_dsn_env env >>= λ target_dsn.
      require_environment hmac_key_env env >>= encode >>= λ hmac_key.
      provider_credentials provider_base_url_env provider_api_key_env require_provider_credentials
        env
      >>= λ provider.
          raise_if (not (nonempty model) || ltb 255 (length model)) policy_error
          >> raise_if (ltb (length hmac_key) 32) policy_error
          >> raise_if (source_and_target_are_equal source_dsn target_dsn) policy_error
          >> ok (record {
            source_dsn = source_dsn;
            target_dsn = target_dsn;
            hmac_key = hmac_key;
            provider_base_url = provider.0;
            provider_api_key = provider.1;
            provider_model = model;
          })

  -- `resolve_policy_runtime`
  unfoldable pub resolve_policy_runtime :
      SanitizerPolicy → Environment → Bool → Result RuntimeSettings
  resolve_policy_runtime policy env require_provider_credentials =
      resolve_runtime_settings policy.connections.source_dsn_env policy.connections.target_dsn_env
        policy.mapping.hmac_key_env policy.llm.base_url_env
        (elim policy.llm.provider [ openrouter api_key_env ↦ some api_key_env | ollama ↦ none ])
        policy.llm.model policy.llm.model_env env require_provider_credentials
