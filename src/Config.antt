-- ===== src/Config.antt =====
-- src/config.py: where the settings come from. pydantic-settings is a parameter: it makes the value of
-- a field from the sources, in their order, and the defaults of a class. Of the fields, the ones that
-- a profile changes are here.
pub mod Profiles
use file_scanner.Base.{
  ℕ, String, ◌≡◌, refl, Bool, true, false, not, Option, none, some, List, [], ◌∷◌, contains,
  if◌then◌else◌, Result, ok, err, ◌>>=◌, ◌==◌, arith, eq_iff, is_some,
}
use file_scanner.Base.Dict.{Dict, get, set, update}

-- The value of a field.
pub data Setting : Type 0 where
  flag : Bool → Setting
  number : ℕ → Setting
  text : String → Setting

-- _PROFILE_ONLY
abbrev pub profile_only : List String
profile_only = "testing" ∷ "worker_eager" ∷ []

-- _DropEnvKeys.__call__
unfoldable pub drop_env_keys : List String → Dict Setting → Dict Setting
drop_env_keys drop [] = []
drop_env_keys drop ((k, v) ∷ source) =
    let rest = drop_env_keys drop source in if contains drop k then rest else (k, v) ∷ rest

-- What settings are read from: the arguments of the class, the environment, a dotenv file and a
-- directory of secrets.
pub record Sources : Type 0 where
  pub init : Dict Setting
  pub env : Dict Setting
  pub dotenv : Dict Setting
  pub file_secret : Dict Setting

-- Settings.settings_customise_sources
unfoldable pub customise_sources : Sources → List (Dict Setting)
unfolding drop_env_keys
customise_sources s = s.init ∷ drop_env_keys profile_only s.env ∷ s.dotenv ∷ s.file_secret ∷ []

-- _StaticSettings.settings_customise_sources
abbrev pub static_sources : Sources → List (Dict Setting)
static_sources s = s.init ∷ []

-- The fields of Settings with their defaults.
abbrev pub settings_fields : Dict Setting
settings_fields =
    ("debug", flag false)
    ∷ ("testing", flag false)
    ∷ ("host", text "0.0.0.0")
    ∷ ("port", number 8090)
    ∷ ("prometheus_api_key", text "")
    ∷ ("default_scanners", text "{\"malware\": [\"clamav\"]}")
    ∷ ("default_categories", text "malware")
    ∷ ("advisory_scanners", text "")
    ∷ ("clamav_txt_uri", text "current.cvd.clamav.net")
    ∷ ("clamav_timeout", number 300)
    ∷ ("clamav_socket", text "")
    ∷ ("clamav_hosts", text "localhost:3310")
    ∷ ("exav_hosts", text "")
    ∷ ("jcop_base_url", text "")
    ∷ ("jcop_api_key", text "")
    ∷ ("jcop_result_timeout", number 30)
    ∷ ("jcop_submit_timeout", number 600)
    ∷ ("jcop_poll_interval", number 5)
    ∷ ("jwt_signing_key", text "")
    ∷ ("jwt_signing_kid", text "")
    ∷ ("jwt_issuer", text "file-scanner")
    ∷ ("jwt_issuer_keys", text "")
    ∷ ("jwt_audience", text "file-scanner")
    ∷ ("jwt_max_age", number 300)
    ∷ ("jwt_leeway", number 60)
    ∷ ("max_upload_size", number 104857600)
    ∷ ("max_url_size", number 2147483645)
    ∷ ("download_dir", text "/tmp/file-scanner")
    ∷ ("url_download_timeout", number 30)
    ∷ ("download_max_seconds", number 300)
    ∷ ("encryption_min_chunk_size", number 4096)
    ∷ ("encryption_max_chunk_size", number 52428800)
    ∷ ("allowed_url_hosts", text "")
    ∷ ("ssrf_allowed_hosts", text "")
    ∷ ("webhook_timeout", number 10)
    ∷ ("webhook_max_attempts", number 3)
    ∷ ("worker_result_ttl", number 0)
    ∷ ("worker_dashboard_user", text "")
    ∷ ("worker_dashboard_password", text "")
    ∷ ("worker_dashboard_path", text "/dashboard")
    ∷ ("worker_dashboard_allowed_ips", text "")
    ∷ ("worker_dashboard_forwarded_ip_header", text "")
    ∷ ("worker_eager", flag false)
    ∷ ("worker_broker_url", text "redis://localhost:6379/0")
    ∷ ("worker_queue_namespace", text "file-scanner")
    ∷ []

-- The fields that the other profiles change.
abbrev pub eager_fields : String → Dict Setting
eager_fields clamav_hosts =
    ("debug", flag true)
    ∷ ("testing", flag true)
    ∷ ("worker_eager", flag true)
    ∷ ("clamav_hosts", text clamav_hosts)
    ∷ ("max_upload_size", number 4999999)
    ∷ ("max_url_size", number 4999999)
    ∷ []

-- os.environ.get(name, default)
abbrev env_or : Dict String → String → String → String
env_or environ name default = elim (get name environ) [ some v ↦ v | none ↦ default ]

-- TestConfig and CiConfig, which also read EXAV_HOSTS from the environment
abbrev pub tested_fields : Dict String → String → Dict Setting
tested_fields environ clamav_hosts =
    set "exav_hosts" (text (env_or environ "EXAV_HOSTS" "")) (eager_fields clamav_hosts)

-- The value of a field: from the first source that has it, or the default of the class.
abbrev pub Model : Type 0
Model = List (Dict Setting) → Dict Setting → String → Option Setting

module _ (model : Model) (s : Sources) (environ : Dict String) where
  -- CONFIGS
  unfoldable pub configs : Dict (String → Option Setting)
  unfolding customise_sources update set get
  configs =
      ("config.ProductionConfig", model (customise_sources s) settings_fields)
      ∷ (
        "config.TestConfig",
        model (static_sources s) (update settings_fields (tested_fields environ "clamav:3310")),
      )
      ∷ (
        "config.CiConfig",
        model (static_sources s) (update settings_fields (tested_fields environ "localhost:3310")),
      )
      ∷ (
        "config.LocalConfig",
        model (static_sources s) (update settings_fields (eager_fields "localhost:3310")),
      )
      ∷ []

  abbrev pub config_name : String
  config_name = env_or environ "APP_CONFIG" "config.ProductionConfig"

  abbrev pub looked_up : Option (String → Option Setting) → Result String (String → Option Setting)
  looked_up none = err config_name
  looked_up (some settings) = ok settings

  -- get_settings, which raises RuntimeError with the name that it does not know
  unfoldable pub get_settings : Result String (String → Option Setting)
  unfolding configs
  get_settings = looked_up (get config_name configs)
