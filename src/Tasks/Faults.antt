-- ===== src/Tasks/Faults.antt =====
-- src/tasks.py, the `except` clauses of `scan_task` for what a retry does not help.
use file_scanner.Base.{
  String, ◌<>◌, ◌++◌, if◌then◌else◌, ◌≡◌, refl, [], ◌∷◌, true, false, Bool, Bool-cases, inl, inr,
  arith, Result, err,
}
use file_scanner.Base.Dict.{Dict, get, set, update}
use file_scanner.Base.Text.{is_text}
use file_scanner.Base.Value.{Value, Floats, str}
use file_scanner.Download.{Fault, file, decryption, ssrf, request, unexpected}
use file_scanner.Results.{record_result}
use file_scanner.Validation.{assert_scannable}
use file_scanner.Tasks.{
  ScanArgs, Deployment, Attempt, World, returned, Response, accept, download, open_file,
}
use file_scanner.Wire.{serialize}
use file_scanner.Tasks.Scan.{finalize, report_error, handle, try_scan, scan_task}

-- The kinds of the errors of `scan_task`: what is wrong with the file is permanent.
abbrev pub kind_of : Fault → String
kind_of (file e) = "file"
kind_of (decryption e) = "file"
kind_of (ssrf why) = "file"
kind_of (request why) = "transient"
kind_of (unexpected why) = "transient"

-- The message of an error: the prefix that its `except` clause writes, and the text of the exception.
abbrev pub message_of : (Fault → String) → Fault → String
message_of says (file e) = says (file e)
message_of says (decryption e) = "decryption_failed: " <> says (decryption e)
message_of says (ssrf why) = "ssrf_blocked: " <> why
message_of says (request why) = "download_failed: " <> why
message_of says (unexpected why) = why

abbrev is_unexpected : Fault → Bool
is_unexpected (unexpected why) = true
is_unexpected _ = false

module _ (fl : Floats) (d : Deployment fl.F) (args : ScanArgs fl.F) where
  open fl use {F}

  -- The result of a job that failed before scanning, in the words of docs/api.md.
  abbrev pub failure : String → String → Dict (Value F)
  failure kind message =
      ("job_id", str args.job_id)
      ∷ ("filename", args.filename)
      ∷ ("metadata", args.metadata)
      ∷ ("status", str "error")
      ∷ ("error_kind", str kind)
      ∷ ("error", str message)
      ∷ []

  -- The world after a failure was reported: to the store, and in one queued webhook, if the job has
  -- one, in the version of the job. No scanner was counted.
  abbrev pub Refused : Fault → World F d.backend.S → World F d.backend.S → Type 0
  Refused f w w' =
      let result = failure (kind_of f) (message_of d.says f) in
      (w'.store
        ≡ record_result d.backend d.worker_result_ttl args.job_id args.api_client result w.store)
      × (w'.webhooks ≡ (
          if is_text args.webhook_url
          then w.webhooks
            ++ record { target = args.webhook_url; payload = serialize fl result args.wire_version }
              ∷ []
          else w.webhooks))
      × (w'.counts ≡ w.counts)

  report_error-Refused :
      (f : Fault) (w : World F d.backend.S)
      → Refused f w (report_error fl d args (kind_of f) (message_of d.says f) w)
  unfolding report_error finalize get set update
  report_error-Refused f w = elim (Bool-cases (is_text args.webhook_url)) [
    | inl t ↦ (ground (arith, t), ground (arith, t), ground (arith, t))
    | inr t ↦ (ground (arith, t), ground (arith, t), ground (arith, t))
  ]

  handle-Refused :
      (a : Attempt F) (f : Fault) (w : World F d.backend.S)
      → is_unexpected f ≡ false
      → ((handle fl d args a.retries f w).0 ≡ returned)
        × Refused f w (handle fl d args a.retries f w).1
  unfolding handle
  handle-Refused a (file e) w h = (refl, report_error-Refused (file e) w)
  handle-Refused a (decryption e) w h = (refl, report_error-Refused (decryption e) w)
  handle-Refused a (ssrf why) w h = (refl, report_error-Refused (ssrf why) w)
  handle-Refused a (request why) w h = (refl, report_error-Refused (request why) w)
  handle-Refused a (unexpected why) w h = cc

  -- A job whose download fails in a foreseen way returns at once, also where retries are left. The
  -- failure is offered to the store and queued once for the webhook, if there is one, as an error of
  -- the file, or as a transient one if the request failed, with the prefix and the message of the
  -- fault; and no scanner runs.
  pub scan_task-Refused :
      (a : Attempt F) (w : World F d.backend.S) (f : Fault)
      → download d args a ≡ err f
      → is_unexpected f ≡ false
      → ((scan_task fl d args a w).0 ≡ returned) × Refused f w (scan_task fl d args a w).1
  unfolding scan_task try_scan
  scan_task-Refused a w f failed h =
      rw failed (handle-Refused a f (record w { files = open_file d args a w.files }) h)

  -- A job that the policy blocks is answered the same whatever its URL would serve: nothing is
  -- fetched for it.
  pub scan_task_unfetched :
      (a : Attempt F) (w : World F d.backend.S) (f : Fault) (other : Result Fault Response)
      → assert_scannable a.hosts d.policed args.url args.webhook_url ≡ err f
      → scan_task fl d args a w ≡ scan_task fl d args (record a { response = other }) w
  unfolding scan_task try_scan download accept
  scan_task_unfetched a w f other blocked = rw blocked refl
