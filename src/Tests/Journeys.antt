-- ===== src/Tests/Journeys.antt =====
-- An asynchronous scan from its request to the poll of its result.
use file_scanner.Base.{ℕ, ◌≡◌, refl, []}
use file_scanner.Base.Dict.{Dict, get, set}
use file_scanner.Base.Text.{strip, comma_list}
use file_scanner.Base.Value.{Value}
use file_scanner.Scanner.Registry.{
  get_scanner, category_map, default_categories_list, assert_size_cap_decidable,
}
use file_scanner.Scanner.Registry.Resolve.{resolve_scanners, requested}
use file_scanner.Results.{Wrapper, enabled}
use file_scanner.Validation.{host_allowed, assert_scannable}
use file_scanner.Tasks.{World}
use file_scanner.Web.{ScanAsyncRequest, State, answer, scan_async}
use file_scanner.Journey.{Worker}
use file_scanner.Tests.{floats}
use file_scanner.Tests.Files.{plain_crypto, limits}
use file_scanner.Tests.Requests.{service, asked, idle, accepted_body}

abbrev pub worker : Worker ℕ
worker = record {
  limits = limits;
  crypto = plain_crypto;
  says = λ f. "fault";
  says_raised = λ r. "raised";
}

abbrev pub with_webhook : ScanAsyncRequest ℕ
with_webhook = record asked { webhook_url = "https://app.example/hook" }

taken_with_webhook :
    (scan_async floats service "/api/v1.0/scan-async" "a1" "alice" with_webhook (λ w. w) idle).0
    ≡ answer 202 accepted_body
unfolding scan_async assert_scannable host_allowed comma_list strip resolve_scanners requested
    category_map default_categories_list get get_scanner set assert_size_cap_decidable enabled
taken_with_webhook = refl

abbrev after_request : State ℕ (Dict (Wrapper (Dict (Value ℕ))))
after_request =
    (scan_async floats service "/api/v1.0/scan-async" "a1" "alice" with_webhook (λ w. w) idle).1

abbrev pub at_work : World ℕ (Dict (Wrapper (Dict (Value ℕ))))
at_work = record { store = after_request.store; webhooks = []; counts = []; files = []; cache = [] }
