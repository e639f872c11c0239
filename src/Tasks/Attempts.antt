-- ===== src/Tasks/Attempts.antt =====
-- src/tasks.py, the attempts of a job.
use file_scanner.Base.Dict.{Dict}
use file_scanner.Scanner.Registry.{Engine}
use file_scanner.Scanner.Run.{run_scanners}
use file_scanner.Base.{
  ℕ, zero, suc, ◌+◌, ◌≤◌, String, ◌≡◌, refl, Option, some, List, ◌++◌, arith, true, Result, ok, err,
}
use file_scanner.Base.Value.{Floats}
use file_scanner.Encryption.{Bytes}
use file_scanner.Download.{Fault, unexpected}
use file_scanner.Scanner.{ScannerResult}
use file_scanner.Scanner.Registry.{Raised}
use file_scanner.Tasks.{
  ScanArgs, Deployment, Attempt, World, Ending, returned, raised, max_retries, retries_exhausted,
  download, open_file, clean_up,
}
use file_scanner.Tasks.Scan.{handle, after_run, try_scan, after_try, scan_task}
use file_scanner.Tasks.Reporting.{Delivered, Reports, handle-Reports, conclude-Reports}

pub retries_exhausted_lem : (n : ℕ) → max_retries ≤ n → retries_exhausted (some n) ≡ true
unfolding retries_exhausted
retries_exhausted_lem n h = ground (arith, h)

module _ (fl : Floats) (d : Deployment fl.F) (args : ScanArgs fl.F) where
  open fl use {F}

  -- `finally` changes nothing of the report.
  files-Reports :
      (retries : Option ℕ) (w : World F d.backend.S) (files : List String)
      (r : Ending × World F d.backend.S)
      → Reports fl d args retries w r
      → Reports fl d args retries w (r.0, record r.1 { files = files })
  files-Reports retries w files (returned, w') h = h
  files-Reports retries w files (raised why, w') h = h

  -- What is counted, cached and on disk before does not matter to it.
  frame-Reports :
      (retries : Option ℕ) (w : World F d.backend.S) (counts : List (ScannerResult F))
      (files : List String) (cache : Dict (Engine F)) (r : Ending × World F d.backend.S)
      → Reports fl d args retries (record w { counts = counts; files = files; cache = cache }) r
      → Reports fl d args retries w r
  frame-Reports retries w counts files cache (returned, w') h = h
  frame-Reports retries w counts files cache (raised why, w') h = h

  after_run-Reports :
      (retries : Option ℕ) (clean : List String → List String) (w' : World F d.backend.S)
      (r : Result Raised (List (ScannerResult F)))
      → Reports fl d args retries w' (
          let t = after_run fl d args retries r w' in
          after_try fl d args retries t.0 (record t.1 { files = clean t.1.files }))
  after_run-Reports retries clean w' (ok report) =
      conclude-Reports fl d args retries report (record w' { files = clean w'.files })
  after_run-Reports retries clean w' (err e) =
      let handled = handle fl d args retries (unexpected (d.says_raised e)) w' in
      files-Reports retries w' (clean handled.1.files) handled
        (handle-Reports fl d args retries (unexpected (d.says_raised e)) w')

  try_scan-Reports :
      (a : Attempt F) (clean : List String → List String) (w : World F d.backend.S)
      (content : Result Fault Bytes)
      → Reports fl d args a.retries w (
          let t = try_scan fl d args a w content in
          after_try fl d args a.retries t.0 (record t.1 { files = clean t.1.files }))
  unfolding try_scan
  try_scan-Reports a clean w (err e) =
      let handled = handle fl d args a.retries e w in
      files-Reports a.retries w (clean handled.1.files) handled
        (handle-Reports fl d args a.retries e w)
  try_scan-Reports a clean w (ok content) =
      let ran =
        run_scanners a.backends d.registered a.clock (a.reopened content) args.scanners w.cache in
      frame-Reports a.retries w (w.counts ++ ran.1) w.files ran.2 _ (
        after_run-Reports a.retries clean (record w { counts = w.counts ++ ran.1; cache = ran.2 })
          ran.0)

  -- An attempt of `scan_task` either returns, having offered one terminal result of a documented
  -- shape to the store and queued it once for the webhook, or raises, having changed neither; it raises only while retries
  -- are left.
  pub scan_task-Reports :
      (a : Attempt F) (w : World F d.backend.S)
      → Reports fl d args a.retries w (scan_task fl d args a w)
  unfolding scan_task
  scan_task-Reports a w =
      frame-Reports a.retries w w.counts (open_file d args a w.files) w.cache _ (
        try_scan-Reports a (clean_up d args a) (record w { files = open_file d args a w.files })
          (download d args a))

  -- dramatiq's retries: a message whose task raised runs again, with its count one higher.
  abbrev run_again :
      Ending × World F d.backend.S
      → (World F d.backend.S → Ending × World F d.backend.S)
      → Ending × World F d.backend.S
  run_again (returned, w) next = (returned, w)
  run_again (raised why, w) next = next w

  -- A job from its attempt number `n` on, with `left` more to come if it raises. Each attempt meets
  -- what it meets.
  pub run_job : (left n : ℕ) → (ℕ → Attempt F) → World F d.backend.S → Ending × World F d.backend.S
  run_job zero n met w = scan_task fl d args (record (met n) { retries = some n }) w
  run_job (suc left) n met w =
      run_again (scan_task fl d args (record (met n) { retries = some n }) w)
        (run_job left (suc n) met)

  last-Delivered :
      (n : ℕ) (w : World F d.backend.S) (r : Ending × World F d.backend.S)
      → max_retries ≤ n
      → Reports fl d args (some n) w r
      → (r.0 ≡ returned) × Delivered fl d args w r.1
  unfolding retries_exhausted
  last-Delivered n w (returned, w') h g = (refl, g)
  last-Delivered n w (raised why, w') h (es, ew, more) = absurd (ground (arith, h, more))

  run_again-Delivered :
      (n : ℕ) (w : World F d.backend.S) (r : Ending × World F d.backend.S)
      (next : World F d.backend.S → Ending × World F d.backend.S)
      → Reports fl d args (some n) w r
      → ((v : World F d.backend.S) → ((next v).0 ≡ returned) × Delivered fl d args v (next v).1)
      → ((run_again r next).0 ≡ returned) × Delivered fl d args w (run_again r next).1
  run_again-Delivered n w (returned, w') next g later = (refl, g)
  run_again-Delivered n w (raised why, w') next (es, ew, more) later =
      let (ended, (result, stored, queued, shape)) = later w' in
      (ended, (result, cc (stored, es), cc (queued, ew), shape))

  run_job-from :
      (left n : ℕ) (met : ℕ → Attempt F) (w : World F d.backend.S)
      → max_retries ≤ n + left
      → ((run_job left n met w).0 ≡ returned) × Delivered fl d args w (run_job left n met w).1
  unfolding run_job
  run_job-from zero n met w h =
      last-Delivered n w _ (omega arith) (scan_task-Reports (record (met n) { retries = some n }) w)
  run_job-from (suc left) n met w h =
      run_again-Delivered n w _ (run_job left (suc n) met)
        (scan_task-Reports (record (met n) { retries = some n }) w)
        (λ v. run_job-from left (suc n) met v (omega arith))

  -- A job ends, whatever its attempts meet: by its last retry it has returned, and all its attempts
  -- together offered one terminal result to the store and queued it once for the webhook, if there
  -- is one. The result has the context of the job, and one of the shapes of a scan that ran, of one in
  -- which every deciding engine failed, and of a job that failed before scanning.
  pub run_job-Delivered :
      (met : ℕ → Attempt F) (w : World F d.backend.S)
      → ((run_job max_retries 0 met w).0 ≡ returned)
        × Delivered fl d args w (run_job max_retries 0 met w).1
  run_job-Delivered met w = run_job-from max_retries 0 met w (omega arith)
