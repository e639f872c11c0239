-- ===== src/Journey/Authenticated.antt =====
-- src/app.py, src/jwt_auth.py, src/tasks.py and src/results.py together: from the HTTP request for an
-- asynchronous scan to the HTTP polls of its result.
use file_scanner.Base.{◌++◌, ◌∷◌, [], ℕ, String, ◌≡◌, List, ok, if◌then◌else◌, ◌==◌}
use file_scanner.Base.Dict.{Dict}
use file_scanner.Base.Text.{is_text}
use file_scanner.Base.Value.{Value, Floats, str}
use file_scanner.Auth.{Library, JwtSettings}
use file_scanner.Auth.Requests.{HttpRequest, auth_sync}
use file_scanner.Wire.{of_path, serialize}
use file_scanner.Tasks.{Attempt, World, max_retries, returned}
use file_scanner.Tasks.Shapes.{Shaped}
use file_scanner.Tasks.Attempts.{run_job}
use file_scanner.Web.{answer, refused, ScanAsyncRequest, Service, State, queued}
use file_scanner.Web.Routes.{get_job}
use file_scanner.Journey.{Worker, deployed}

module _ (fl : Floats) (d : Service fl.F) (worker : Worker fl.F) (lib : Library fl.F)
    (settings : JwtSettings) (issuers : Dict lib.Public) where
  open fl use {F}

  -- What the callers get from then on.
  abbrev pub Answered : String → String → State F d.backend.S → Dict (Value F) → Type 0
  Answered job_id username w result =
      (poll : HttpRequest) (caller : String)
      → auth_sync lib settings issuers poll ≡ ok (str caller)
      → get_job fl d lib settings issuers poll job_id w ≡ (
          if username == caller
          then answer 200 (serialize fl result (of_path poll.path))
          else refused 404)

  -- The code of an answer, what its job comes to after the state `web` that the request leaves, and
  -- what polls and the webhook are told of it.
  abbrev pub Served :
      HttpRequest
      → String
      → String
      → ScanAsyncRequest F
      → World F d.backend.S
      → (ℕ → Attempt F)
      → ℕ
      → State F d.backend.S
      → Type 0
  Served request job_id username body before met code web =
      (code ≡ 202)
      × ((names : List String) × (result : Dict (Value F)) × (let args =
              queued fl d request.path job_id username body names in
            let job =
              run_job fl (deployed d worker) args max_retries 0 met
                (record before { store = web.store }) in
            (job.0 ≡ returned)
            × Shaped fl args result
            × Answered job_id username (record web { store = job.1.store }) result
            × (job.1.webhooks ≡ (
                if is_text body.webhook_url
                then before.webhooks
                  ++ record {
                    target = body.webhook_url;
                    payload = serialize fl result (of_path request.path);
                  }
                    ∷ []
                else before.webhooks))))
