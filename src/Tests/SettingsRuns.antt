-- ===== src/Tests/SettingsRuns.antt =====
-- Runs of the settings.
use db_sanitizer.Base.{◌≡◌, refl, true, false, Option, none, some, List, [], ◌∷◌}
use db_sanitizer.Base.Text.{Text, codes}
use db_sanitizer.Errors.{ok}
use db_sanitizer.Settings.{Environment, Dsns, RuntimeSettings, resolve_runtime_settings}
use db_sanitizer.Settings.Safe.{IsSafe, resolve_runtime_settings-IsSafe}
use db_sanitizer.Tests.Samples.{unicode, secret}

-- A DSN here is the name of a database on one host.
abbrev dsns : Dsns
dsns = record {
  conninfo_to_dict = λ dsn. some ((codes "host", codes "db") ∷ (codes "dbname", dsn) ∷ []);
  int = λ port. none;
}

abbrev environment : Environment
environment =
    (codes "SOURCE", codes "app")
    ∷ (codes "TARGET", codes "copy")
    ∷ (codes "KEY", secret)
    ∷ (codes "URL", codes "http://llm/")
    ∷ []

abbrev settings : RuntimeSettings
settings = record {
  source_dsn = codes "app";
  target_dsn = codes "copy";
  hmac_key = secret;
  provider_base_url = some (codes "http://llm");
  provider_api_key = none;
  provider_model = codes "m";
}

resolved :
    resolve_runtime_settings unicode dsns
      (codes "SOURCE")
      (codes "TARGET")
      (codes "KEY")
      (codes "URL")
      none
      (codes "m")
      none
      environment
      true
    ≡ ok settings
unfolding resolve_runtime_settings db_sanitizer.Settings.require_environment
    db_sanitizer.Base.Dict.lookup db_sanitizer.Base.Text.text_eq
    db_sanitizer.Mapping.Normalization.strip db_sanitizer.Mapping.HmacKey.encode
    db_sanitizer.Settings.provider_credentials db_sanitizer.Settings.starts_with
    db_sanitizer.Settings.strip_slashes db_sanitizer.Settings.source_and_target_are_equal
    db_sanitizer.Settings.database_identity db_sanitizer.Settings.identity_of
    db_sanitizer.Settings.port_of
resolved = refl

resolve_runtime_settings-IsSafe_example :
    IsSafe unicode dsns
      (codes "SOURCE")
      (codes "TARGET")
      (codes "KEY")
      (codes "URL")
      none
      (codes "m")
      none
      environment
      true
      settings
resolve_runtime_settings-IsSafe_example =
    resolve_runtime_settings-IsSafe unicode dsns (codes "SOURCE") (codes "TARGET") (codes "KEY")
      (codes "URL") none (codes "m") none environment true settings resolved
