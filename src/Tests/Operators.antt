-- ===== src/Tests/Operators.antt =====
-- What operators see: the dashboard behind its guard, and the settings of a profile.
use file_scanner.Base.{ℕ, String, ◌≡◌, refl, true, not, some, [], ◌∷◌, ok, ◌==◌, err, if◌then◌else◌}
use file_scanner.Base.Dict.{Dict, get, set}
use file_scanner.Base.Text.{strip, split}
use file_scanner.Base.Chars.{before, after, is_ascii, upper, replace_char, lstrip_char, rstrip_char}
use file_scanner.Dashboard.{
  DashboardSettings, Addresses, decoded, passed, guard, client_ip, ip_allowed, allowed_networks,
  authorized, mount_dashboard, uncaught,
}
use file_scanner.Dashboard.Guarded.{Admitted, Authenticated, guard-passed}
use file_scanner.Auth.Requests.{compare_digest}
use file_scanner.Config.{
  Sources, flag, get_settings, configs, customise_sources, drop_env_keys, settings_fields,
  config_name,
}
use file_scanner.Config.Profiles.{first_value, get_settings-profile_only}

abbrev dashboard_settings : DashboardSettings
dashboard_settings = record {
  worker_dashboard_user = "";
  worker_dashboard_password = "secret";
  worker_dashboard_path = " /ops/queue/ ";
  worker_dashboard_allowed_ips = "10.0.0.0/8";
  worker_dashboard_forwarded_ip_header = "X-Forwarded-For";
}

-- One network, of which one address is a member, and one user.
abbrev addresses : Addresses
addresses = record {
  Network = String;
  Address = String;
  ip_network = λ s. some s;
  ip_address = λ s. some s;
  member = λ ip net. ip == "10.0.0.7";
  b64decode = λ s. decoded (if s == "b2s=" then "me:secret" else "me:gehëim");
}

abbrev environ : Dict String
environ =
    ("REMOTE_ADDR", "192.0.2.1")
    ∷ ("HTTP_X_FORWARDED_FOR", "10.0.0.7, 192.0.2.9")
    ∷ ("HTTP_AUTHORIZATION", "Basic b2s=")
    ∷ []

abbrev okay : ℕ
okay = 200

abbrev dashboard : Dict String → ℕ
dashboard request = okay

reached : guard dashboard_settings addresses dashboard environ ≡ passed okay
unfolding guard client_ip ip_allowed allowed_networks authorized compare_digest get strip split
    before after is_ascii upper replace_char
reached = refl

guard-passed_example :
    Admitted dashboard_settings addresses environ
    × Authenticated dashboard_settings addresses environ
    × (okay ≡ okay)
guard-passed_example = guard-passed dashboard_settings addresses dashboard environ okay reached

-- A password that is not ASCII is no 401: the comparison raises.
not_ascii_test :
    guard dashboard_settings addresses dashboard (set "HTTP_AUTHORIZATION" "Basic eA==" environ)
    ≡ uncaught "TypeError"
unfolding guard client_ip ip_allowed allowed_networks authorized compare_digest get set strip split
    before after is_ascii upper replace_char
not_ascii_test = refl

mounted_test : mount_dashboard dashboard_settings true ≡ some "/ops/queue"
unfolding mount_dashboard strip lstrip_char rstrip_char
mounted_test = refl

-- An environment that sets both flags.
abbrev sources : Sources
sources = record {
  init = [];
  env = ("testing", flag true) ∷ ("debug", flag true) ∷ ("worker_eager", flag true) ∷ [];
  dotenv = [];
  file_secret = [];
}

production :
    get_settings first_value sources []
    ≡ ok (first_value (customise_sources sources) settings_fields)
unfolding get_settings configs get
production = refl

get_settings-profile_only_example :
    first_value (customise_sources sources) settings_fields "testing"
    ≡ some (flag (not (config_name first_value sources [] == "config.ProductionConfig")))
get_settings-profile_only_example =
    get_settings-profile_only first_value sources [] (λ s d k. refl) refl refl refl
      (first_value (customise_sources sources) settings_fields) "testing" production refl

debug_test : first_value (customise_sources sources) settings_fields "debug" ≡ some (flag true)
unfolding customise_sources drop_env_keys get
debug_test = refl

unknown_test :
    get_settings first_value sources (("APP_CONFIG", "config.Other") ∷ []) ≡ err "config.Other"
unfolding get_settings configs get
unknown_test = refl
