-- ===== src/Settings/Safe.antt =====
-- What resolved settings promise.
use db_sanitizer.Base.{
  ◌≡◌, ◌↔◌, ◌≤◌, refl, Bool, true, false, not, ◌||◌, Option, none, some, length, arith, inl, inr,
  Bool-cases, Option-cases,
}
use mathlib.Core.Path.{subst}
use db_sanitizer.Base.Text.{Text, text_eq, text_eq_iff, text_eq_instance, nonempty}
use db_sanitizer.Base.Dict.{lookup}
use db_sanitizer.Errors.{ok, Result-cases}
use db_sanitizer.Mapping.HmacKey.{Crypto, encode, hmac_key}
use db_sanitizer.Mapping.Normalization.{Unicode, strip}
use db_sanitizer.Settings.{
  Environment, Integer, Dsns, RuntimeSettings, is_http_url, require_environment, database_identity,
  same_identity, source_and_target_are_equal, provider_credentials, resolve_runtime_settings,
}

module _ (u : Unicode) (dsns : Dsns) where
  -- The two DSNs are different texts, also without the spaces around them, and no host, port and
  -- name is that of both; a DSN without a host or a name has none.
  pub record AreApart (source target : Text) : Type 0 where
    pub texts_differ : ¬ (strip u source ≡ strip u target)
    pub identities_differ : ¬ (
        (i : Text × (Integer × Text)) × (database_identity u dsns source ≡ some i)
        × (database_identity u dsns target ≡ some i))

  same_identity_iff :
      (a b : Option (Text × (Integer × Text)))
      → (same_identity u dsns a b ≡ true)
        ↔ ((i : Text × (Integer × Text)) × (a ≡ some i) × (b ≡ some i))
  same_identity_iff none b = ground arith
  same_identity_iff (some a) none = ground arith
  same_identity_iff (some (a, ((s, m), x))) (some (b, ((t, n), y))) =
      let hosts = text_eq_iff a b in
      let names = text_eq_iff x y in
      ((λ h. ((a, ((s, m), x)), refl, ground arith)), (λ k. ground arith))

  pub source_and_target_are_equal_iff :
      (source target : Text)
      → (source_and_target_are_equal u dsns source target ≡ false) ↔ AreApart source target
  unfolding source_and_target_are_equal
  source_and_target_are_equal_iff source target =
      let a = database_identity u dsns source in
      let b = database_identity u dsns target in
      let same = same_identity_iff a b in
      let texts = text_eq_iff (strip u source) (strip u target) in
      (
        (λ h. record {
          texts_differ = λ p. ground (arith, texts.1 p);
          identities_differ = λ shared. ground (arith, same.1 shared);
        }),
        (λ k. elim (Bool-cases (source_and_target_are_equal u dsns source target)) [
          | inr p ↦ p
          | inl p ↦ elim (Bool-cases (text_eq (strip u source) (strip u target))) [
            | inl q ↦ absurd (k.texts_differ (texts.0 q))
            | inr q ↦ absurd (k.identities_differ (same.0 (ground arith)))
          ]
        ]),
      )

  -- There is an address, and it is that of a web server.
  abbrev pub is_http : Option Text → Bool
  is_http none = false
  is_http (some url) = is_http_url url

  -- The credentials that are required include such an address.
  provider_credentials-url :
      (base_url_env : Text) (api_key_env : Option Text) (required : Bool) (env : Environment)
      (provider : Option Text × Option Text)
      → provider_credentials u dsns base_url_env api_key_env required env ≡ ok provider
      → (not required || is_http provider.0) ≡ true
  unfolding provider_credentials
  provider_credentials-url base_url_env api_key_env false env provider h = refl
  provider_credentials-url base_url_env none true env provider h =
      elim (Result-cases (require_environment u dsns base_url_env env)) [
        | inr (e, p) ↦ absurd (ground arith)
        | inl (url, p) ↦ ground arith
      ]
  provider_credentials-url base_url_env (some name) true env provider h =
      elim (Result-cases (require_environment u dsns base_url_env env)) [
        | inr (e, p) ↦ absurd (ground arith)
        | inl (url, p) ↦ elim (Result-cases (require_environment u dsns name env)) [
          | inr (e, q) ↦ absurd (ground arith)
          | inl (key, q) ↦ ground arith
        ]
      ]

  module _ (source_dsn_env target_dsn_env hmac_key_env provider_base_url_env : Text)
      (provider_api_key_env : Option Text) (provider_model : Text)
      (provider_model_env : Option Text) (env : Environment)
      (require_provider_credentials : Bool) where
    -- What the settings hold: the values of the environment, checked.
    pub record IsSafe (s : RuntimeSettings) : Type 0 where
      pub source_set : lookup source_dsn_env env ≡ some s.source_dsn
      pub target_set : lookup target_dsn_env env ≡ some s.target_dsn
      pub source_not_blank : nonempty (strip u s.source_dsn) ≡ true
      pub target_not_blank : nonempty (strip u s.target_dsn) ≡ true
      pub apart : AreApart s.source_dsn s.target_dsn
      pub key_set :
          (key : Text) × (lookup hmac_key_env env ≡ some key) × (encode key ≡ ok s.hmac_key)
      pub key_accepted : (c : Crypto) → hmac_key c s.hmac_key ≡ ok s.hmac_key
      pub model_set : nonempty s.provider_model ≡ true
      pub model_short : length s.provider_model ≤ 255
      pub has_url : (not require_provider_credentials || is_http s.provider_base_url) ≡ true

    require_environment-ok :
        (name value : Text)
        → require_environment u dsns name env ≡ ok value
        → (lookup name env ≡ some value) × (nonempty (strip u value) ≡ true)
    unfolding require_environment
    require_environment-ok name value h = elim (Option-cases (lookup name env)) [
      | inl p ↦ absurd (ground arith)
      | inr (found, p) ↦ ground arith
    ]

    -- When the settings are resolved, the DSNs are the ones of the environment, not blank, have
    -- different texts without the blanks around, and do not both name the same host, port and
    -- database (a DSN without a host or a database is not compared so); the key is the encoded one of the environment, and long enough for
    -- HMAC; the model has 1 to 255 characters; and if credentials are required, there is an
    -- address, of a web server.
    pub resolve_runtime_settings-IsSafe :
        (s : RuntimeSettings)
        → resolve_runtime_settings u dsns source_dsn_env target_dsn_env hmac_key_env
            provider_base_url_env provider_api_key_env provider_model provider_model_env env
            require_provider_credentials
          ≡ ok s
        → IsSafe s
    unfolding resolve_runtime_settings hmac_key
    resolve_runtime_settings-IsSafe s h =
        elim (Result-cases (require_environment u dsns source_dsn_env env)) [
          | inr (e, p) ↦ absurd (ground arith)
          | inl (source, p) ↦ elim (Result-cases (require_environment u dsns target_dsn_env env)) [
            | inr (e, q) ↦ absurd (ground arith)
            | inl (target, q) ↦ elim (Result-cases (require_environment u dsns hmac_key_env env)) [
              | inr (e, x) ↦ absurd (ground arith)
              | inl (key, x) ↦ elim (Result-cases (encode key)) [
                | inr (e, y) ↦ absurd (ground arith)
                | inl (secret, y) ↦
                    elim (Result-cases (
                      provider_credentials u dsns provider_base_url_env provider_api_key_env
                        require_provider_credentials env)) [
                          | inr (e, z) ↦ absurd (ground arith)
                          | inl (provider, z) ↦
                              (let source_value = require_environment-ok source_dsn_env source p in
                                let target_value = require_environment-ok target_dsn_env target q in
                                let key_value = require_environment-ok hmac_key_env key x in
                                let url =
                                  provider_credentials-url provider_base_url_env
                                    provider_api_key_env require_provider_credentials env provider
                                    z in
                                let checked : source_and_target_are_equal u dsns source target
                                    ≡ false =
                                  ground arith in
                                record {
                                  source_set = ground arith;
                                  target_set = ground arith;
                                  source_not_blank = ground arith;
                                  target_not_blank = ground arith;
                                  apart =
                                      subst (λ a. AreApart a s.target_dsn) (ground arith)
                                        (subst (AreApart source) (ground arith) (
                                          (source_and_target_are_equal_iff source target).0
                                            checked));
                                  key_set = (key, ground arith, ground arith);
                                  key_accepted = λ c. ground arith;
                                  model_set = ground arith;
                                  model_short = ground arith;
                                  has_url = ground (arith, url);
                                })
                        ]
              ]
            ]
          ]
        ]
