-- ===== src/Tasks/Scan.antt =====
-- src/tasks.py, `scan_task`: what it does with the download, and how it reports the end.

use file_scanner.Base.{
  ℕ, String, ◌<>◌, Bool, true, false, Option, List, [], ◌∷◌, ◌++◌, if◌then◌else◌, Result, ok, err,
}
use file_scanner.Base.Dict.{Dict, update, set}
use file_scanner.Base.Text.{is_text}
use file_scanner.Base.Value.{Value, Floats, str}
use file_scanner.Encryption.{Bytes}
use file_scanner.Download.{Fault, file, decryption, ssrf, request, unexpected}
use file_scanner.Scanner.{ScannerResult}
use file_scanner.Scanner.Report.{all_errored, report_dict}
use file_scanner.Scanner.Registry.{Raised}
use file_scanner.Scanner.Run.{run_scanners}
use file_scanner.Results.{record_result, done, error_status}
use file_scanner.Wire.{serialize}
use file_scanner.Tasks.{
  ScanArgs, Deployment, Attempt, World, Ending, returned, raised, Tried, stopped, reported,
  retries_exhausted, download, open_file, clean_up, started,
}

module _ (fl : Floats) (d : Deployment fl.F) (args : ScanArgs fl.F) where
  open fl use {F}

  -- _finalize
  unfoldable pub finalize : Dict (Value F) → World F d.backend.S → World F d.backend.S
  unfolding record_result serialize
  finalize result w =
      let stored = record w {
        store =
            record_result d.backend d.worker_result_ttl args.job_id args.api_client result w.store;
      } in
      if is_text args.webhook_url
      then record stored {
        webhooks =
            w.webhooks
            ++ record { target = args.webhook_url; payload = serialize fl result args.wire_version }
              ∷ [];
      }
      else stored

  -- _report_error
  unfoldable pub report_error : String → String → World F d.backend.S → World F d.backend.S
  unfolding finalize
  report_error kind message w =
      finalize
        (update (started d args)
          (("status", str error_status) ∷ ("error_kind", str kind) ∷ ("error", str message) ∷ []))
        w

  -- _deliver
  unfoldable pub deliver : Bool → List (ScannerResult F) → World F d.backend.S → World F d.backend.S
  unfolding finalize
  deliver transient_error report w =
      let result = update (started d args) (report_dict fl report) in
      finalize
        (if transient_error
          then update result (
              ("status", str error_status)
              ∷ ("error_kind", str "transient")
              ∷ ("error", str "all scanners failed")
              ∷ [])
          else set "status" (str done) result)
        w

  -- The `except` clauses of `scan_task`, in order.
  unfoldable pub handle : Option ℕ → Fault → World F d.backend.S → Ending × World F d.backend.S
  unfolding report_error retries_exhausted
  handle retries (file e) w = (returned, report_error "file" (d.says (file e)) w)
  handle retries (decryption e) w =
      (returned, report_error "file" ("decryption_failed: " <> d.says (decryption e)) w)
  handle retries (ssrf why) w = (returned, report_error "file" ("ssrf_blocked: " <> why) w)
  handle retries (request why) w =
      (returned, report_error "transient" ("download_failed: " <> why) w)
  handle retries (unexpected why) w =
      if retries_exhausted retries
      then (returned, report_error "transient" why w)
      else (raised why, w)

  -- What follows the `try` block.
  unfoldable pub conclude :
      Option ℕ → List (ScannerResult F) → World F d.backend.S → Ending × World F d.backend.S
  unfolding deliver retries_exhausted
  conclude retries report w =
      if all_errored report
      then if retries_exhausted retries
        then (returned, deliver true report w)
        else (raised "all scanners failed transiently", w)
      else (returned, deliver false report w)

  -- What the `try` block comes to: the task is over, or there is a report.
  abbrev pub after_run :
      Option ℕ
      → Result Raised (List (ScannerResult F))
      → World F d.backend.S
      → Tried F × World F d.backend.S
  after_run retries (ok report) w = (reported report, w)
  after_run retries (err e) w =
      let handled = handle retries (unexpected (d.says_raised e)) w in
      (stopped handled.0, handled.1)

  unfoldable pub try_scan :
      Attempt F → World F d.backend.S → Result Fault Bytes → Tried F × World F d.backend.S
  unfolding handle run_scanners
  try_scan a w (err e) = let handled = handle a.retries e w in (stopped handled.0, handled.1)
  try_scan a w (ok content) =
      let ran =
        run_scanners a.backends d.registered a.clock (a.reopened content) args.scanners w.cache in
      after_run a.retries ran.0 (record w { counts = w.counts ++ ran.1; cache = ran.2 })

  abbrev pub after_try : Option ℕ → Tried F → World F d.backend.S → Ending × World F d.backend.S
  after_try retries (stopped ending) w = (ending, w)
  after_try retries (reported report) w = conclude retries report w

  -- scan_task: the `try` block with its file, `finally`, and what follows.
  unfoldable pub scan_task : Attempt F → World F d.backend.S → Ending × World F d.backend.S
  unfolding try_scan download conclude
  scan_task a w =
      let tried =
        try_scan a (record w { files = open_file d args a w.files }) (download d args a) in
      after_try a.retries tried.0 (record tried.1 { files = clean_up d args a tried.1.files })
