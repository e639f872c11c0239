-- ===== src/Tests/Callers.antt =====
-- Requests with their tokens, from the POST of a scan to the GET of its result.
use file_scanner.Base.{ℕ, ◌≡◌, refl, none, some, [], ◌∷◌, Option, ok, if◌then◌else◌, ◌==◌}
use file_scanner.Base.Dict.{Dict, get}
use file_scanner.Base.Text.{strip}
use file_scanner.Base.Chars.{upper, rstrip_char}
use file_scanner.Base.Value.{Value, str, int, pos}
use file_scanner.Encryption.{Bytes}
use file_scanner.Auth.{Library}
use file_scanner.Auth.Tokens.{decode, too_long, body_hash, request_target}
use file_scanner.Auth.Requests.{HttpRequest, int_of, authenticate}
use file_scanner.Results.{Wrapper, enabled, fetch}
use file_scanner.Wire.{serialize, of_path}
use file_scanner.Web.{ScanAsyncRequest, State, answer, job_status}
use file_scanner.Web.Routes.{get_job}
use file_scanner.Tests.{floats}
use file_scanner.Tests.Requests.{service, idle}
use file_scanner.Tests.Tokens.{minted, jwt, jwt_settings, issuers}
use file_scanner.Tests.Journeys.{with_webhook}

-- The claims of a token for a poll.
abbrev minted_poll : Dict (Value ℕ)
minted_poll =
    ("iss", str "drive")
    ∷ ("aud", str "file-scanner")
    ∷ ("iat", int (pos 1000))
    ∷ ("exp", int (pos 1300))
    ∷ ("htm", str "GET")
    ∷ ("htu", str "/api/v2.0/jobs/a1")
    ∷ []

-- Two tokens: one for the POST, one for the poll.
abbrev pub tokens : Library ℕ
tokens = record jwt {
  unverified = λ token.
      if token == "h.p.s" then some minted else if token == "h.g.s" then some minted_poll else none;
  verified = λ key audience leeway token. ok (if token == "h.p.s" then minted else minted_poll);
}

abbrev pub poll : HttpRequest
poll = record {
  method = "get";
  path = "/api/v2.0/jobs/a1";
  query = "";
  content_length = none;
  authorization = some "Bearer h.g.s";
  body = [];
}

-- The store of a job that is pending.
abbrev pending_reply : Dict (Value ℕ)
pending_reply = ("status", str "pending") ∷ []

abbrev stored : State ℕ (Dict (Wrapper (Dict (Value ℕ))))
stored = record idle { store = ("a1", record { owner = "drive"; payload = pending_reply }) ∷ [] }

polled :
    get_job floats service tokens jwt_settings issuers poll "a1" stored
    ≡ answer 200 (serialize floats pending_reply (of_path "/api/v2.0/jobs/a1"))
unfolding get_job authenticate decode too_long upper strip get int_of body_hash request_target
    rstrip_char job_status enabled fetch
polled = refl

-- The validation of a body that is the request of the tests.
abbrev parse : Bytes → Option (ScanAsyncRequest ℕ)
parse body = some with_webhook
