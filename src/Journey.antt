-- ===== src/Journey.antt =====
-- src/app.py, src/tasks.py and src/results.py together: an asynchronous scan from its request to the
-- poll of its result. The service and its worker share the settings and the result backend.
pub mod Authenticated
pub mod Interleaving
use file_scanner.Base.{
  ℕ, String, ◌≡◌, sym, ap, ◌∙◌, inl, inr, true, List, [], ◌∷◌, ◌++◌, ◌*◌, arith, is_some,
  if◌then◌else◌, ok, ◌==◌, Option-cases, eq_refl,
}
use file_scanner.Base.Dict.{Dict}
use file_scanner.Base.Text.{is_text}
use file_scanner.Base.Value.{Value, Floats}
use file_scanner.Encryption.{Crypto}
use file_scanner.Download.{Limits, Fault}
use file_scanner.Scanner.Registry.{Raised}
use file_scanner.Scanner.Registry.Resolve.{resolve_scanners}
use file_scanner.Results.{Wrapper, Backend, Stores, enabled, record_result, fetch}
use file_scanner.Results.Ownership.{fetch-record_result}
use file_scanner.Wire.{of_path, serialize}
use file_scanner.Tasks.{Deployment, Attempt, World, returned, max_retries}
use file_scanner.Tasks.Shapes.{Shaped}
use file_scanner.Tasks.Attempts.{run_job, run_job-Delivered}
use file_scanner.Web.{
  answer, refused, ScanAsyncRequest, Service, State, queued, scan_async, job_status,
}
use file_scanner.Web.Endpoints.{send_answered}

-- What the worker has beside the settings that it shares.
pub record Worker (F : Type 0) : Type 0 where
  pub limits : Limits
  pub crypto : Crypto
  pub says : Fault → String
  pub says_raised : Raised → String

abbrev pub deployed : {F : Type 0} → Service F → Worker F → Deployment F
deployed d worker = record {
  limits = worker.limits;
  registered = d.registered;
  policed = d.policed;
  crypto = worker.crypto;
  worker_result_ttl = d.worker_result_ttl;
  backend = d.backend;
  says = worker.says;
  says_raised = worker.says_raised;
}

-- The backend takes what is stored under a job.
abbrev pub TakesAll : {V : Type 0} → Backend V → ℕ → String → Type 0
TakesAll {V} b ttl job_id =
    (w : Wrapper V) (s : b.S) → is_some (b.store_result job_id w (ttl * 1000) s) ≡ true

module _ (fl : Floats) (d : Service fl.F) (worker : Worker fl.F) where
  open fl use {F}

  -- A poll of a job once `payload` is recorded for it.
  job_status-record_result :
      (laws : Stores d.backend) (path job_id owner caller : String) (payload : Dict (Value F))
      (w : State F d.backend.S) (s : d.backend.S)
      → enabled d.worker_result_ttl ≡ true
      → TakesAll d.backend d.worker_result_ttl job_id
      → w.store ≡ record_result d.backend d.worker_result_ttl job_id owner payload s
      → job_status fl d path job_id caller w ≡ (
          if owner == caller then answer 200 (serialize fl payload (of_path path)) else refused 404)
  unfolding job_status
  job_status-record_result laws path job_id owner caller payload w s on works stored =
      elim (Option-cases (
        d.backend.store_result job_id (record { owner = owner; payload = payload })
          (d.worker_result_ttl * 1000) s)) [
            | inl lost ↦
                absurd (ground (arith, works (record { owner = owner; payload = payload }) s, lost))
            | inr (s', took) ↦
                let polled =
                  ap (fetch d.backend d.worker_result_ttl job_id caller) stored
                  ∙ fetch-record_result d.backend d.worker_result_ttl laws job_id owner job_id
                      caller payload s s' on took in
                ground (arith, on, polled, eq_refl job_id)
          ]

  -- What a job that was accepted comes to, whoever polls it and under whichever version.
  abbrev pub Settled :
      String
      → String
      → String
      → ScanAsyncRequest F
      → List String
      → State F d.backend.S
      → World F d.backend.S
      → World F d.backend.S
      → Type 0
  Settled path job_id username body names web before after =
      (result : Dict (Value F)) × Shaped fl (queued fl d path job_id username body names) result
      × ((other_path caller : String)
          → job_status fl d other_path job_id caller (record web { store = after.store }) ≡ (
              if username == caller
              then answer 200 (serialize fl result (of_path other_path))
              else refused 404))
      × (after.webhooks ≡ (
          if is_text body.webhook_url
          then before.webhooks
            ++ record { target = body.webhook_url; payload = serialize fl result (of_path path) }
              ∷ []
          else before.webhooks))

  -- With a store that is enabled and takes what it is given, a request for an asynchronous scan
  -- that is answered is accepted with a 202 for the scanners that it selects; and its job, when it
  -- runs after that, returns by its last retry whatever its attempts meet. From then on its owner
  -- polls the one terminal result of the job, of a documented shape and in the version of the
  -- poll, and any other caller gets a 404; and the same result is queued once for the webhook, if
  -- there is one, in the version of the request.
  pub scan_async-run_job :
      (laws : Stores d.backend) (path job_id username : String) (body : ScanAsyncRequest F)
      (meanwhile : State F d.backend.S → State F d.backend.S) (w : State F d.backend.S)
      (before : World F d.backend.S) (met : ℕ → Attempt F) (code : ℕ) (reply : Dict (Value F))
      → enabled d.worker_result_ttl ≡ true
      → TakesAll d.backend d.worker_result_ttl job_id
      → (scan_async fl d path job_id username body meanwhile w).0 ≡ answer code reply
      → let web = (scan_async fl d path job_id username body meanwhile w).1 in
        let from = record before { store = web.store } in
        (names : List String) × ((resolve_scanners d.backends d.loads d.registered body.categories
            body.scanners w.cache).0
          ≡ ok names)
        × (code ≡ 202)
        × (let job =
              run_job fl
                (deployed d worker)
                (queued fl d path job_id username body names)
                max_retries
                0
                met
                from in
            (job.0 ≡ returned) × Settled path job_id username body names web from job.1)
  unfolding scan_async
  scan_async-run_job laws path job_id username body meanwhile w before met code reply on works h =
      let chosen =
        resolve_scanners d.backends d.loads d.registered body.categories body.scanners w.cache in
      let (names, is, sent) =
        send_answered fl d path job_id username body meanwhile chosen.0
          (record w { cache = chosen.1 }) code reply h in
      let web = (scan_async fl d path job_id username body meanwhile w).1 in
      let from : World F d.backend.S = record before { store = web.store } in
      let (ended, (result, stored, hooks, shape)) =
        run_job-Delivered fl (deployed d worker) (queued fl d path job_id username body names) met
          from in
      (
        names,
        is,
        ground (arith, ap (λ t. t.0) (sym sent) ∙ h),
        (
          ended,
          (
            result,
            shape,
            (λ other_path caller.
                job_status-record_result laws other_path job_id username caller result
                  (record web {
                    store =
                        (run_job fl (deployed d worker)
                          (queued fl d path job_id username body names) max_retries 0 met
                          from).1.store;
                  })
                  web.store on works stored),
            hooks,
          ),
        ),
      )
