-- ===== src/Web/Endpoints.antt =====
-- src/app.py, the answers of `scan` and `scan_async`.
use file_scanner.Base.{
  ℕ, ◌≤◌, ◌*◌, String, ◌≡◌, refl, sym, ap, ◌∙◌, Bool, true, false, not, ◌&&◌, Option, some, List,
  arith, length, is_some, if◌then◌else◌, Bool-cases, Option-cases, inl, inr, Result, ok, err,
  eq_refl,
}
use file_scanner.Download.{Fault, ssrf, file, decryption, request, unexpected}
use file_scanner.Base.Dict.{Dict}
use file_scanner.Base.Text.{is_text}
use file_scanner.Base.Value.{Value, Floats}
use file_scanner.Encryption.{Bytes}
use file_scanner.Scanner.{ScannerResult}
use file_scanner.Scanner.Report.{all_errored, report_dict}
use file_scanner.Scanner.Registry.{
  Engine, Raised, key_error, type_error, runtime_error, value_error, assert_size_cap_decidable,
}
use file_scanner.Scanner.Registry.Resolve.{resolve_scanners}
use file_scanner.Scanner.Run.{run_scanners}
use file_scanner.Results.{Stores, enabled, record_result, fetch}
use file_scanner.Results.Ownership.{fetch-record_result}
use file_scanner.Validation.{assert_scannable}
use file_scanner.Wire.{of_path, serialize}
use file_scanner.Web.{
  Reply, answer, refused, split_query, bad_request, is_refused, ScanAsyncRequest, Service, State,
  reply_report, scan_names, scan, seeded, send_job, blocked, unless, submit, scan_async,
}

bad_request_lem :
    {F : Type 0} (e : Raised) (code : ℕ) (body : Dict (Value F))
    → bad_request e ≡ answer code body
    → ⊥
bad_request_lem (key_error n) code body h = cc
bad_request_lem type_error code body h = cc
bad_request_lem (runtime_error p) code body h = cc
bad_request_lem (value_error p) code body h = cc

module _ (fl : Floats) (d : Service fl.F) where
  open fl use {F}

  reply_report_lem :
      (path : String) (r : Result Raised (List (ScannerResult F))) (code : ℕ)
      (body : Dict (Value F))
      → reply_report fl d path r ≡ answer code body
      → (rs : List (ScannerResult F)) × (r ≡ ok rs)
        × (all_errored rs ≡ false)
        × (code ≡ 200)
        × (body ≡ serialize fl (report_dict fl rs) (of_path path))
  reply_report_lem path (err e) code body h = cc
  reply_report_lem path (ok rs) code body h = elim (Bool-cases (all_errored rs)) [
    | inl e ↦ absurd (ground (arith, e, h))
    | inr e ↦ (rs, refl, e, ground (arith, e, h), ground (arith, e, h))
  ]

  -- What a scan that is answered has run.
  abbrev pub Answered :
      String → Bytes → Result Raised (List String) × Dict (Engine F) → ℕ → Dict (Value F) → Type 0
  Answered path content chosen code body =
      (names : List String) × (rs : List (ScannerResult F)) × (chosen.0 ≡ ok names)
      × (length content ≤ d.registered.max_upload_size)
      × (is_refused (assert_size_cap_decidable d.registered names d.registered.max_upload_size)
          ≡ false)
      × ((run_scanners d.backends d.registered d.clock (ok content) names chosen.1).0 ≡ ok rs)
      × (all_errored rs ≡ false)
      × (code ≡ 200)
      × (body ≡ serialize fl (report_dict fl rs) (of_path path))

  scan_names-Answered :
      (path : String) (content : Bytes) (chosen : Result Raised (List String) × Dict (Engine F))
      (code : ℕ) (body : Dict (Value F))
      → (scan_names fl d path content chosen).0 ≡ answer code body
      → Answered path content chosen code body
  scan_names-Answered path content (err e, cache) code body h =
      absurd (bad_request_lem e code body h)
  scan_names-Answered path content (ok names, cache) code body h =
      let run = run_scanners d.backends d.registered d.clock (ok content) names cache in
      let replied : reply_report fl d path run.0 ≡ answer code body = ground (arith, h) in
      let report = reply_report_lem path run.0 code body replied in
      (
        names,
        report.0,
        refl,
        ground (arith, h),
        ground (arith, h),
        report.1,
        report.2,
        report.3,
        report.4,
      )

  -- An upload that is answered was no larger than `max_upload_size`, which the scanners that decide
  -- can all scan; its answer is the report, in the
  -- version of the path, of the scanners that the request selected; and the report is not one in
  -- which all deciding scanners failed and nothing was detected.
  pub scan-Answered :
      (path : String) (categories scanners : Option String) (content : Bytes)
      (cache : Dict (Engine F)) (code : ℕ) (body : Dict (Value F))
      → (scan fl d path categories scanners content cache).0 ≡ answer code body
      → Answered path content
          (resolve_scanners d.backends d.loads d.registered
            (split_query categories)
            (split_query scanners)
            cache)
          code
          body
  unfolding scan
  scan-Answered path categories scanners content cache code body h =
      scan_names-Answered path content _ code body h

  passed_if :
      {S : Type 0} (t : Bool) (n : ℕ) (w : S) (rest : Reply F × S) {code : ℕ}
      {reply : Dict (Value F)}
      → (if t then (refused n, w) else rest).0 ≡ answer code reply
      → (if t then (refused n, w) else rest) ≡ rest
  passed_if true n w rest h = cc
  passed_if false n w rest h = refl

  passed_policy :
      (policy : Result Fault (Unit {0})) (w : State F d.backend.S)
      (rest : Reply F × State F d.backend.S) {code : ℕ} {reply : Dict (Value F)}
      → (unless fl d (blocked fl d policy) w rest).0 ≡ answer code reply
      → unless fl d (blocked fl d policy) w rest ≡ rest
  passed_policy (ok _) w rest h = refl
  passed_policy (err (ssrf why)) w rest h = cc
  passed_policy (err (file e)) w rest h = cc
  passed_policy (err (decryption e)) w rest h = cc
  passed_policy (err (request why)) w rest h = cc
  passed_policy (err (unexpected why)) w rest h = cc

  seeded-pending :
      (laws : Stores d.backend) (job_id username : String) (body : ScanAsyncRequest F)
      → enabled d.worker_result_ttl ≡ true
      → ((s : d.backend.S)
          → is_some (
              d.backend.store_result job_id
                (record { owner = username; payload = seeded fl d job_id body })
                (d.worker_result_ttl * 1000)
                s)
            ≡ true)
      → (s : d.backend.S)
      → fetch d.backend d.worker_result_ttl job_id username
          (record_result d.backend d.worker_result_ttl job_id username (seeded fl d job_id body) s)
        ≡ some (seeded fl d job_id body)
  seeded-pending laws job_id username body on works s =
      elim (Option-cases (
        d.backend.store_result job_id
          (record { owner = username; payload = seeded fl d job_id body })
          (d.worker_result_ttl * 1000) s)) [
            | inl lost ↦ absurd (ground (arith, works s, lost))
            | inr (s', stored) ↦
                fetch-record_result d.backend d.worker_result_ttl laws job_id username job_id
                  username (seeded fl d job_id body) s s' on stored
                ∙ ground (arith, eq_refl job_id, eq_refl username)
          ]

  pub send_answered :
      (path job_id username : String) (body : ScanAsyncRequest F)
      (meanwhile : State F d.backend.S → State F d.backend.S) (r : Result Raised (List String))
      (w : State F d.backend.S) (code : ℕ) (reply : Dict (Value F))
      → (submit fl d path job_id username body meanwhile r w).0 ≡ answer code reply
      → (names : List String) × (r ≡ ok names)
        × (submit fl d path job_id username body meanwhile r w
            ≡ send_job fl d path job_id username body meanwhile names w)
  send_answered path job_id username body meanwhile (err e) w code reply h =
      absurd (bad_request_lem e code reply h)
  send_answered path job_id username body meanwhile (ok names) w code reply h =
      let sent = send_job fl d path job_id username body meanwhile names w in
      let asked =
        if not (is_text body.webhook_url) && not (enabled d.worker_result_ttl)
        then (refused 422, w)
        else sent in
      let policy = assert_scannable d.hosts d.policed body.url body.webhook_url in
      let checked = unless fl d (blocked fl d policy) w asked in
      let first =
        passed_if
          (is_refused (assert_size_cap_decidable d.registered names d.registered.max_url_size)) 400
          w checked h in
      let second = passed_policy policy w asked (ap (λ t. t.0) (sym first) ∙ h) in
      let third =
        passed_if (not (is_text body.webhook_url) && not (enabled d.worker_result_ttl)) 422 w sent
          (ap (λ t. t.0) (sym (first ∙ second)) ∙ h) in
      (names, refl, first ∙ second ∙ third)

  -- With a store that is enabled and takes the pending record, a job is pending for its caller right
  -- after its 202, whatever the workers did in the meantime: also where one of them has recorded the
  -- end of the job already.
  pub scan_async-pending :
      (laws : Stores d.backend) (path job_id username : String) (body : ScanAsyncRequest F)
      (meanwhile : State F d.backend.S → State F d.backend.S) (w : State F d.backend.S) (code : ℕ)
      (reply : Dict (Value F))
      → enabled d.worker_result_ttl ≡ true
      → ((s : d.backend.S)
          → is_some (
              d.backend.store_result job_id
                (record { owner = username; payload = seeded fl d job_id body })
                (d.worker_result_ttl * 1000)
                s)
            ≡ true)
      → (scan_async fl d path job_id username body meanwhile w).0 ≡ answer code reply
      → fetch d.backend d.worker_result_ttl job_id username
          (scan_async fl d path job_id username body meanwhile w).1.store
        ≡ some (seeded fl d job_id body)
  unfolding scan_async
  scan_async-pending laws path job_id username body meanwhile w code reply on works h =
      let chosen =
        resolve_scanners d.backends d.loads d.registered body.categories body.scanners w.cache in
      let sent =
        send_answered path job_id username body meanwhile chosen.0 (record w { cache = chosen.1 })
          code reply h in
      ap (λ t. fetch d.backend d.worker_result_ttl job_id username t.1.store) sent.2
      ∙ seeded-pending laws job_id username body on works _
