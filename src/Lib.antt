-- ===== src/Lib.antt =====
-- file-scanner: a service that takes a file, by upload or by URL, runs it through antivirus engines
-- and answers with a verdict for each category. This library models its core and proves what it
-- promises. Paths are from the repository's root; the program is under src/.
--
-- The parts, and where each is modelled:
--
--   src/scanner.py     Scanner.antt has the verdict of a scanner and its result in a report.
--                      Scanner/Report.antt has `ScanReport`: by_category, deciding, verdicts,
--                      all_errored and the dict forms. Scanner/Registry.antt has get_scanner and the
--                      settings of the registry, its children Resolve and Validate resolve_scanners
--                      and validate_registry. Scanner/Run.antt has run_scanners, Scanner/Run/Covering
--                      what boot check, selection and report come to together.
--   src/wire.py        Wire.antt: of_path, to_v1 and serialize.
--   src/encryption.py  Encryption.antt: decode_key and decrypt_chunk. Download/Sealing.antt has the
--                      layout as a caller writes it.
--   src/tasks.py       Download.antt has the writers, Tasks.antt the data and the download of
--                      scan_task, Tasks/Scan.antt its reports and scan_task itself, Tasks/Callback.antt
--                      deliver_webhook, Tasks/Shapes.antt the shapes of a result that docs/api.md
--                      lists. Download/Accepted.antt has the validation of
--                      ScanEncryption in src/app.py.
--   src/results.py     Results.antt: record (record_result here) and fetch.
--   src/validation.py  Validation.antt: host_allowed and assert_scannable.
--   src/app.py         Web.antt: the endpoints scan, scan_async and job_status. Auth/Requests.antt:
--                      _authenticate (authenticate here) and verify_prometheus.
--                      Web/Routes.antt has the endpoints of a job behind their authentication (get_job
--                      is job_status with its dependency, post_scan_async is scan_async with its own),
--                      Web/Uploads.antt what an answer of scan says.
--   src/jwt_auth.py    Auth.antt has the data, Auth/Keys.antt _load_private and _load_issuers,
--                      Auth/Tokens.antt encode, decode, check_binding, sign_webhook and jwks;
--                      Auth/Callbacks.antt has sign_webhook with deliver_webhook.
--   src/scanners       Engines.antt has what the backends share; Engines/Clamav.antt, Engines/Exav.antt
--                      and Engines/Jcop.antt the scan of each, Engines/Framing.antt the frames of
--                      exinstream, Engines/Responses.antt and Engines/Analysis.antt what a
--                      result of JCOP stands on,
--                      Engines/Clearance.antt the backends as the registry builds them.
--   src/dashboard.py   Dashboard.antt: client_ip, ip_allowed, authorized, Guard.__call__ (guard here)
--                      and _mount_dashboard of src/app.py.
--   src/config.py      Config.antt: the fields of Settings, the sources, CONFIGS and get_settings.
--   src/metrics.py     Monitoring.antt: refresh_signatures, with metrics, healthcheck and the access
--                      log filter of src/app.py, ClamavScanner.version and build_argv of src/worker.py.
--   src/broker.py      Broker.antt: the broker, the result backend, the middleware and the actors, with
--                      src/health.py and the start of src/worker.py; Broker/Consumption.antt has the
--                      queues that a worker consumes.
--   deploy/scripts     Auth/Issuers.antt has main of new-issuer.py (new_issuer_main), Auth/Minting.antt
--                      main of mint-token.py (mint_main).
--
-- How they interact: a request is authenticated by its token (Auth.Requests) under the keys that the
-- service has loaded (Auth.Keys), which new-issuer.py has printed. The endpoint resolves the names
-- of the scanners (Scanner.Registry), checks the policy (Validation), and either runs them
-- (Scanner.Run) and serializes the report (Wire), or queues a job. The job downloads the file
-- (Download, Encryption), runs the scanners, and hands the terminal result to the store (Results)
-- and to a queued webhook (Tasks.Callback), each in its version (Wire). Journey.antt puts these
-- together, from the request to the poll of its result, and Journey/Authenticated.antt does so for
-- the HTTP requests with their tokens. Journey/Interleaving.antt has the endpoints and the workers
-- as processes that run in any order, over the store and the queues that they share (`Step`,
-- `Reach`).
--
-- How state is modelled. A call that may raise is a `Result`. The cache of backends is passed
-- through the calls that read it (`Reg`). What scan_task changes is a `World`, what it meets outside
-- is an `Attempt`; the endpoints change a `State`, and what the workers do while an endpoint runs is
-- a function that it is given. A response is the sequence of the pieces that it yields, each with
-- whether the time budget was over when the clock was read. Python's dicts are association lists in
-- insertion order. Messages of exceptions are kept as constructors, or as text where they reach a
-- caller.
--
-- Parameters, with what is assumed of them by name: floats (Base.Value.Floats, nothing assumed),
-- AES-GCM and base64 (Encryption.Crypto; Download.Sealing.Sealer says that decryption undoes
-- encryption), json.loads, urlparse, the SSRF guard, the result backend (Results.Backend;
-- Results.Stores says that what is stored is read back), the backends of the scanners, the clock,
-- json.dumps, the signer and the HTTP session; PyJWT, the Ed25519 keys and SHA-256 (Auth.Library:
-- the claims that verify are a result of the call, and where a minted token is read back, that PyJWT
-- gives the signed claims, for their audience and in their time, is a hypothesis,
-- Auth.Minting.Verifies), the clamd client and exav's daemon, the JCOP service with its clock
-- (Engines.Jcop.Service; Engines.Polling.Monotonic says that the clock does not go back and that a
-- sleep takes its time), ipaddress (Dashboard.Addresses) and pydantic-settings (Config.Model). Where
-- a theorem starts from a cache of backends, the cache holds what the builders give
-- (Scanner.Registry.Cache.Coherent).
--
-- Bounds and fuel. Numbers are natural numbers, as Python's integers do not wrap; the sizes of the
-- encryption parameters are integers, since a caller may send a negative one. The inner loop of the
-- decryption has the length of its buffer as fuel: each turn takes a nonempty chunk from it. A job
-- has the retry budget as fuel. The frames of a file have its length as fuel, the poll of JCOP the
-- ticks of the submit timeout: a round takes a tick at least, which is proved to be enough.
--
-- Not modelled: logging, and metrics beyond the results that are counted and the signature gauges;
-- the ping of clamd; what pydantic checks but for ScanEncryption; and src/ssrf.py, a copy of another
-- project's module. The threads of run_scanners share the cache only, so that their order is not
-- modelled, and enqueuing is taken to succeed. In `Step` an attempt is one step, since it touches
-- what is shared only at its end, and a message that a crashed worker leaves behind is not run
-- again. The retries of deliver_webhook are dramatiq's own. An attempt is not interrupted by
-- dramatiq's time limit, and no OSError comes from the file that it writes. The encryption
-- parameters of a job are there or not: an empty dict, which counts as none in src/tasks.py, does
-- not come from the API. Upper and lower case are those of ASCII text.
pub mod Base
pub mod Scanner
pub mod Wire
pub mod Encryption
pub mod Download
pub mod Validation
pub mod Results
pub mod Tasks
pub mod Web
pub mod Journey
pub mod Auth
pub mod Engines
pub mod Dashboard
pub mod Config
pub mod Monitoring
pub mod Broker
mod Tests
