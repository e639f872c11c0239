-- ===== src/Web.antt =====
-- src/app.py, the three API endpoints behind their authentication: `scan`, `scan_async` and
-- `job_status`. Requests are as FastAPI has validated them; the detail of an error is left out.
pub mod Endpoints
pub mod Routes
pub mod Uploads
use file_scanner.Base.{
  ℕ, String, Bool, true, false, not, ◌&&◌, Option, none, some, List, [], ◌∷◌, ◌++◌, length, ltb,
  is_nonempty, if◌then◌else◌, Result, ok, err,
}
use file_scanner.Base.Dict.{Dict}
use file_scanner.Base.Text.{is_text, comma_list}
use file_scanner.Base.Value.{Value, Floats, str}
use file_scanner.Encryption.{Bytes}
use file_scanner.Download.{EncryptionParams, Fault, ssrf}
use file_scanner.Scanner.{ScannerResult}
use file_scanner.Scanner.Report.{all_errored, report_dict}
use file_scanner.Scanner.Registry.{
  Registered, Engine, Backends, Loaded, Raised, value_error, assert_size_cap_decidable,
}
use file_scanner.Scanner.Registry.Resolve.{resolve_scanners}
use file_scanner.Scanner.Run.{run_scanners}
use file_scanner.Results.{Backend, pending, enabled, record_result, fetch}
use file_scanner.Validation.{Hosts, Policed, assert_scannable}
use file_scanner.Wire.{of_path, serialize}
use file_scanner.Tasks.{ScanArgs}

-- A status code with a body, or an exception that nothing catches, which becomes a 500.
pub data Reply (F : Type 0) : Type 0 where
  answer : ℕ → Dict (Value F) → Reply F
  refused : ℕ → Reply F
  uncaught : Reply F

-- _split, where None and an empty list are the same to `resolve_scanners`
unfoldable pub split_query : Option String → List String
split_query none = []
split_query (some raw) = comma_list raw

-- `except ValueError as exc: raise HTTPException(400, …)`
abbrev pub bad_request : {F : Type 0} → Raised → Reply F
bad_request (value_error p) = refused 400
bad_request e = uncaught

abbrev pub is_refused : Result Raised (Unit {0}) → Bool
is_refused (ok _) = false
is_refused (err e) = true

-- The body of `ScanAsyncRequest`. An absent webhook URL is empty, absent lists are too.
pub record ScanAsyncRequest (F : Type 0) : Type 0 where
  pub url : String
  pub filename : Value F
  pub webhook_url : String
  pub metadata : Value F
  pub categories : List String
  pub scanners : List String
  pub encryption : Option EncryptionParams

-- What the endpoints share: the settings, the backends and the hosts of the URLs.
pub record Service (F : Type 0) : Type 1 where
  pub registered : Registered
  pub policed : Policed
  pub hosts : Hosts
  pub loads : String → Loaded
  pub backends : Backends F
  pub clock : String → F
  pub worker_result_ttl : ℕ
  pub backend : Backend (Dict (Value F))

-- The state that they change: the store, the queue of scans, and the cache of backends.
pub record State (F S : Type 0) : Type 0 where
  pub store : S
  pub scans : List (ScanArgs F)
  pub cache : Dict (Engine F)

module _ (fl : Floats) (d : Service fl.F) where
  open fl use {F}

  -- The end of `scan`, with the report.
  abbrev pub reply_report : String → Result Raised (List (ScannerResult F)) → Reply F
  reply_report path (err e) = uncaught
  reply_report path (ok report) =
      if all_errored report
      then refused 503
      else answer 200 (serialize fl (report_dict fl report) (of_path path))

  -- `scan` with the names that the selection gave.
  abbrev pub scan_names :
      String
      → Bytes
      → Result Raised (List String) × Dict (Engine F)
      → Reply F × List (ScannerResult F) × Dict (Engine F)
  scan_names path content (err e, cache) = (bad_request e, [], cache)
  scan_names path content (ok names, cache) =
      let most = d.registered.max_upload_size in
      let run = run_scanners d.backends d.registered d.clock (ok content) names cache in
      if ltb most (length content)
      then (refused 413, [], cache)
      else if is_refused (assert_size_cap_decidable d.registered names most)
      then (refused 400, [], cache)
      else (reply_report path run.0, run.1, run.2)

  -- scan: the reply, the results that are counted, and the cache
  unfoldable pub scan :
      String
      → Option String
      → Option String
      → Bytes
      → Dict (Engine F)
      → Reply F × List (ScannerResult F) × Dict (Engine F)
  unfolding split_query
  scan path categories scanners content cache = scan_names path content (
      resolve_scanners d.backends d.loads d.registered (split_query categories)
        (split_query scanners) cache)

  -- The pending record.
  abbrev pub seeded : String → ScanAsyncRequest F → Dict (Value F)
  seeded job_id body =
      ("job_id", str job_id)
      ∷ ("status", str pending)
      ∷ ("filename", body.filename)
      ∷ ("metadata", body.metadata)
      ∷ []

  -- What `scan_task.send` puts in the queue.
  abbrev pub queued : String → String → String → ScanAsyncRequest F → List String → ScanArgs F
  queued path job_id username body names = record {
    job_id = job_id;
    url = body.url;
    scanners = names;
    filename = body.filename;
    webhook_url = body.webhook_url;
    metadata = body.metadata;
    api_client = username;
    encryption_params = body.encryption;
    wire_version = of_path path;
  }

  -- The job is sent, then seeded. In between the workers do `meanwhile`.
  abbrev pub send_job :
      String
      → String
      → String
      → ScanAsyncRequest F
      → (State F d.backend.S → State F d.backend.S)
      → List String
      → State F d.backend.S
      → Reply F × State F d.backend.S
  send_job path job_id username body meanwhile names w =
      let sent =
        meanwhile (record w { scans = w.scans ++ queued path job_id username body names ∷ [] }) in
      (
        answer 202 (("job_id", str job_id) ∷ ("status", str pending) ∷ []),
        record sent {
          store =
              record_result d.backend d.worker_result_ttl job_id username (seeded job_id body)
                sent.store;
        },
      )

  -- `except SSRFValidationError as exc: raise HTTPException(400, …)`
  abbrev pub blocked : Result Fault (Unit {0}) → Option (Reply F)
  blocked (ok _) = none
  blocked (err (ssrf why)) = some (refused 400)
  blocked (err e) = some uncaught

  abbrev pub unless :
      Option (Reply F)
      → State F d.backend.S
      → Reply F × State F d.backend.S
      → Reply F × State F d.backend.S
  unless none w go = go
  unless (some reply) w go = (reply, w)

  abbrev pub submit :
      String
      → String
      → String
      → ScanAsyncRequest F
      → (State F d.backend.S → State F d.backend.S)
      → Result Raised (List String)
      → State F d.backend.S
      → Reply F × State F d.backend.S
  submit path job_id username body meanwhile (err e) w = (bad_request e, w)
  submit path job_id username body meanwhile (ok names) w =
      if is_refused (assert_size_cap_decidable d.registered names d.registered.max_url_size)
      then (refused 400, w)
      else unless (blocked (assert_scannable d.hosts d.policed body.url body.webhook_url)) w (
          if not (is_text body.webhook_url) && not (enabled d.worker_result_ttl)
          then (refused 422, w)
          else send_job path job_id username body meanwhile names w)

  -- scan_async, for a new `job_id`
  unfoldable pub scan_async :
      String
      → String
      → String
      → ScanAsyncRequest F
      → (State F d.backend.S → State F d.backend.S)
      → State F d.backend.S
      → Reply F × State F d.backend.S
  unfolding assert_scannable
  scan_async path job_id username body meanwhile w =
      let chosen =
        resolve_scanners d.backends d.loads d.registered body.categories body.scanners w.cache in
      submit path job_id username body meanwhile chosen.0 (record w { cache = chosen.1 })

  abbrev pub found : String → Option (Dict (Value F)) → Reply F
  found path none = refused 404
  found path (some stored) = answer 200 (serialize fl stored (of_path path))

  -- job_status
  unfoldable pub job_status : String → String → String → State F d.backend.S → Reply F
  job_status path job_id username w =
      if enabled d.worker_result_ttl
      then found path (fetch d.backend d.worker_result_ttl job_id username w.store)
      else refused 404
