-- ===== src/Tests/Jobs.antt =====
-- A job that scans one file.

use file_scanner.Tasks.{download, accept}
use file_scanner.Download.{request}
use file_scanner.Tasks.Faults.{Refused, scan_task-Refused}
use file_scanner.Base.{nat_eq}
use file_scanner.Validation.{host_allowed}
use file_scanner.Base.Text.{strip, comma_list}
use file_scanner.Base.{
  ℕ, String, ◌≡◌, refl, ◌⊎◌, true, false, none, some, [], ◌∷◌, if◌then◌else◌, ok, err,
}
use file_scanner.Base.Dict.{Dict}
use file_scanner.Base.Value.{Value, null}
use file_scanner.Base.Text.{is_text}
use file_scanner.Download.{unexpected, finished, piece}
use file_scanner.Results.{Wrapper}
use file_scanner.Validation.{Hosts, Policed, assert_scannable}
use file_scanner.Validation.Policy.{is_listed, Guarded, assert_scannable-ok}
use file_scanner.Tasks.{ScanArgs, Deployment, Attempt, World, returned}
use file_scanner.Tasks.Scan.{scan_task}
use file_scanner.Tasks.Cleanup.{scan_task-files}
use file_scanner.Tests.{floats}
use file_scanner.Tests.Files.{plain_crypto, limits}
use file_scanner.Tests.Registry.{backends, settings, both, memory}

-- Every URL has the host `files.example`, which the guard accepts.
abbrev pub hosts : Hosts
hosts = record {
  hostname = λ url. ok (some "files.example");
  lower = λ s. s;
  validate_hostname = λ host. ok tt;
}

abbrev pub policed : Policed
policed = record { allowed_url_hosts = "files.example"; testing = false }

passed : assert_scannable hosts policed "https://files.example/f" "" ≡ ok tt
unfolding assert_scannable host_allowed comma_list strip
passed = refl

assert_scannable-ok_example :
    (host : String) × (hosts.hostname "https://files.example/f" ≡ ok (some host))
    × (is_text host ≡ true)
    × (is_listed hosts policed host ≡ true)
    × (hosts.validate_hostname host ≡ ok tt)
    × ((is_text "" ≡ false) ⊎ Guarded hosts policed "")
assert_scannable-ok_example =
    assert_scannable-ok hosts policed "https://files.example/f" "" refl passed

abbrev pub deployment : Deployment ℕ
deployment = record {
  limits = limits;
  registered = settings;
  policed = policed;
  crypto = plain_crypto;
  worker_result_ttl = 60;
  backend = memory (Dict (Value ℕ));
  says = λ f. "fault";
  says_raised = λ r. "raised";
}

abbrev pub args : ScanArgs ℕ
args = record {
  job_id = "a1";
  url = "https://files.example/f";
  scanners = both;
  filename = null;
  webhook_url = "https://app.example/hook";
  metadata = null;
  api_client = "alice";
  encryption_params = none;
  wire_version = "v1.0";
}

-- The server answers at the second attempt.
abbrev pub met : ℕ → Attempt ℕ
met n = record {
  retries = some n;
  hosts = hosts;
  response =
      if nat_eq n 0
      then err (unexpected "disk")
      else ok (record {
        status_error = none;
        content_length = none;
        body = piece false (7 ∷ []) finished;
      });
  backends = backends;
  clock = λ name. 1;
  reopened = λ content. ok content;
  path = "f1";
}

abbrev pub world : World ℕ (Dict (Wrapper (Dict (Value ℕ))))
world = record { store = []; webhooks = []; counts = []; files = []; cache = [] }

scan_task-files_example : (scan_task floats deployment args (met 1) world).1.files ≡ []
scan_task-files_example = scan_task-files floats deployment args (met 1) world refl

-- An attempt whose request fails, and one that the policy blocks.
abbrev pub broken_off : Attempt ℕ
broken_off = record (met 1) { retries = some 0; response = err (request "reset") }

download_fails : download deployment args broken_off ≡ err (request "reset")
unfolding download accept assert_scannable host_allowed comma_list strip
download_fails = refl

scan_task-Refused_example :
    ((scan_task floats deployment args broken_off world).0 ≡ returned)
    × Refused floats deployment args
        (request "reset")
        world
        (scan_task floats deployment args broken_off world).1
scan_task-Refused_example =
    scan_task-Refused floats deployment args broken_off world (request "reset") download_fails refl
