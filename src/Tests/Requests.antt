-- ===== src/Tests/Requests.antt =====
-- Requests to the endpoints.
use file_scanner.Scanner.{error}
use file_scanner.Scanner.Report.{
  report_dict, all_errored, report_detected, all_deciding, by_category, group_from, file_under,
  deciding,
}
use file_scanner.Scanner.Run.{run_each, run_one}
use file_scanner.Wire.{serialize, of_path}
use file_scanner.Web.{split_query}
use file_scanner.Base.Value.{str}
use file_scanner.Web.{Service, State, ScanAsyncRequest, answer, seeded, scan, scan_async}
use file_scanner.Web.Endpoints.{scan_async-pending}
use file_scanner.Web.Uploads.{Reported, scan-Reported}
use file_scanner.Scanner.Registry.Cache.{nil-Coherent}
use file_scanner.Base.{String, ok}
use file_scanner.Validation.{host_allowed}
use file_scanner.Base.Text.{strip, comma_list}
use file_scanner.Scanner.Registry.{get_scanner, default_categories_list, advisory_scanners}
use file_scanner.Scanner.Registry.Resolve.{requested}
use file_scanner.Base.{ℕ, ◌≡◌, refl, true, false, none, some, List, [], ◌∷◌}
use file_scanner.Base.Dict.{Dict, get, set}
use file_scanner.Base.Value.{Value, null}
use file_scanner.Scanner.{clean, ScannerResult}
use file_scanner.Scanner.Registry.{category_map, assert_size_cap_decidable}
use file_scanner.Scanner.Registry.Resolve.{resolve_scanners}
use file_scanner.Scanner.Run.{run_scanners}
use file_scanner.Results.{Wrapper, enabled, fetch}
use file_scanner.Validation.{assert_scannable}
use file_scanner.Tests.{floats}
use file_scanner.Tests.Registry.{backends, settings, loads, memory, memory-Stores}
use file_scanner.Tests.Jobs.{hosts, policed}

abbrev pub service : Service ℕ
service = record {
  registered = settings;
  policed = policed;
  hosts = hosts;
  loads = loads;
  backends = backends;
  clock = λ name. 1;
  worker_result_ttl = 60;
  backend = memory (Dict (Value ℕ));
}

abbrev pub asked : ScanAsyncRequest ℕ
asked = record {
  url = "https://files.example/f";
  filename = null;
  webhook_url = "";
  metadata = null;
  categories = [];
  scanners = [];
  encryption = none;
}

abbrev pub idle : State ℕ (Dict (Wrapper (Dict (Value ℕ))))
idle = record { store = []; scans = []; cache = [] }

-- A worker that has reported the job before the request is over.
abbrev ends_first :
    State ℕ (Dict (Wrapper (Dict (Value ℕ)))) → State ℕ (Dict (Wrapper (Dict (Value ℕ))))
ends_first w = record w {
  store = set "a1" (record { owner = "alice"; payload = ("status", str "done") ∷ [] }) w.store;
}

abbrev pub accepted_body : Dict (Value ℕ)
accepted_body = ("job_id", str "a1") ∷ ("status", str "pending") ∷ []

taken :
    (scan_async floats service "/api/v2.0/scan-async" "a1" "alice" asked ends_first idle).0
    ≡ answer 202 accepted_body
unfolding scan_async assert_scannable host_allowed comma_list strip resolve_scanners requested
    category_map default_categories_list get get_scanner set assert_size_cap_decidable enabled
taken = refl

scan_async-pending_example :
    fetch
      (memory (Dict (Value ℕ)))
      60
      "a1"
      "alice"
      (scan_async floats service "/api/v2.0/scan-async" "a1" "alice" asked ends_first idle).1.store
    ≡ some (seeded floats service "a1" asked)
unfolding enabled
scan_async-pending_example =
    scan_async-pending floats service (memory-Stores (Dict (Value ℕ))) "/api/v2.0/scan-async" "a1"
      "alice" asked ends_first idle 202 accepted_body refl (λ s. refl) taken

abbrev pub ran : List (ScannerResult ℕ)
ran =
    record {
      scanner = "clamav";
      category = "malware";
      kind = error;
      reason = some "internal error: no socket";
      score = none;
      location = none;
      time = 1;
      scored = false;
      advisory = true;
    }
    ∷ record {
      scanner = "exav";
      category = "malware";
      kind = clean;
      reason = none;
      score = none;
      location = none;
      time = 1;
      scored = false;
      advisory = false;
    }
    ∷ []

abbrev uploaded : Dict (Value ℕ)
uploaded = serialize floats (report_dict floats ran) (of_path "/api/v2.0/scan")

served : (scan floats service "/api/v2.0/scan" none none (7 ∷ []) []).0 ≡ answer 200 uploaded
unfolding scan split_query comma_list strip resolve_scanners requested category_map
    default_categories_list get get_scanner set assert_size_cap_decidable run_scanners run_each
    run_one advisory_scanners all_errored report_detected all_deciding by_category group_from
    file_under deciding
served = refl

scan-Reported_example :
    (names : List String) × (rs : List (ScannerResult ℕ)) × ((resolve_scanners backends loads
        settings
        (split_query none)
        (split_query none)
        []).0
      ≡ ok names)
    × Reported floats service "/api/v2.0/scan" (7 ∷ []) names rs 200 uploaded
scan-Reported_example =
    scan-Reported floats service "/api/v2.0/scan" none none (7 ∷ []) [] 200 uploaded
      (nil-Coherent backends) served
