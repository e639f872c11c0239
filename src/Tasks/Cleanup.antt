-- ===== src/Tasks/Cleanup.antt =====
-- src/tasks.py, the file of `scan_task` and its removal.
use file_scanner.Base.{
  ◌>>=◌, ◌++◌, ℕ, String, ◌≡◌, refl, ap, ◌∙◌, inl, inr, true, false, not, Option, List, [], ◌∷◌,
  arith, Result, ok, err, ◌==◌, contains, filter, eq_iff, eq_refl, Bool-cases,
}
use file_scanner.Base.Dict.{Dict}
use file_scanner.Base.Text.{is_text}
use file_scanner.Base.Value.{Floats, Value}
use file_scanner.Encryption.{Bytes}
use file_scanner.Download.{Fault, file, decryption, ssrf, request, unexpected}
use file_scanner.Scanner.{ScannerResult}
use file_scanner.Scanner.Report.{all_errored}
use file_scanner.Scanner.Registry.{Raised}
use file_scanner.Scanner.Run.{run_scanners}
use file_scanner.Validation.{assert_scannable}
use file_scanner.Tasks.{
  ScanArgs, Deployment, Attempt, World, is_ok, retries_exhausted, accept, download, open_file,
  clean_up,
}
use file_scanner.Tasks.Scan.{
  finalize, report_error, deliver, handle, conclude, after_run, try_scan, after_try, scan_task,
}

filter-absent :
    (path : String) (files : List String)
    → contains files path ≡ false
    → filter (λ f. not (f == path)) files ≡ files
filter-absent path [] h = refl
filter-absent path (f ∷ files) h =
    ground (arith, filter-absent path files, h, eq_iff f path, eq_iff path f)

passes :
    {A : Type 0} {B : Type 0} (m : Result Fault A) (f : A → Result Fault B)
    → is_ok (m >>= f) ≡ true
    → is_ok m ≡ true
passes (ok a) f h = refl
passes (err e) f h = h

module _ {F : Type 0} (d : Deployment F) (args : ScanArgs F) where
  -- What is accepted has passed the policy.
  accept_passes :
      (a : Attempt F)
      → is_ok (accept d args a) ≡ true
      → is_ok (assert_scannable a.hosts d.policed args.url args.webhook_url) ≡ true
  unfolding accept
  accept_passes a h = passes (assert_scannable a.hosts d.policed args.url args.webhook_url) _ h

  clean_up-open_file :
      (a : Attempt F) (files : List String)
      → contains files a.path ≡ false
      → clean_up d args a (open_file d args a files) ≡ files
  clean_up-open_file a files h =
      ground (arith, accept_passes a, filter-absent a.path files h, eq_refl a.path)

module _ (fl : Floats) (d : Deployment fl.F) (args : ScanArgs fl.F) where
  open fl use {F}

  finalize-files :
      (result : Dict (Value F)) (w : World F d.backend.S)
      → (finalize fl d args result w).files ≡ w.files
  unfolding finalize
  finalize-files result w = elim (Bool-cases (is_text args.webhook_url)) [
    | inl t ↦ ground (arith, t)
    | inr t ↦ ground (arith, t)
  ]

  handle-files :
      (retries : Option ℕ) (f : Fault) (w : World F d.backend.S)
      → (handle fl d args retries f w).1.files ≡ w.files
  unfolding handle report_error
  handle-files retries (file e) w = finalize-files _ w
  handle-files retries (decryption e) w = finalize-files _ w
  handle-files retries (ssrf why) w = finalize-files _ w
  handle-files retries (request why) w = finalize-files _ w
  handle-files retries (unexpected why) w = elim (Bool-cases (retries_exhausted retries)) [
    | inl h ↦ rw h (finalize-files _ w)
    | inr h ↦ rw h refl
  ]

  conclude-files :
      (retries : Option ℕ) (report : List (ScannerResult F)) (w : World F d.backend.S)
      → (conclude fl d args retries report w).1.files ≡ w.files
  unfolding conclude deliver
  conclude-files retries report w = elim (Bool-cases (all_errored report)) [
    | inl e ↦ elim (Bool-cases (retries_exhausted retries)) [
      | inl h ↦ rw e (rw h (finalize-files _ w))
      | inr h ↦ rw e (rw h refl)
    ]
    | inr e ↦ rw e (finalize-files _ w)
  ]

  after_run-files :
      (retries : Option ℕ) (clean : List String → List String) (w : World F d.backend.S)
      (r : Result Raised (List (ScannerResult F)))
      → (let t = after_run fl d args retries r w in
          (after_try fl d args retries t.0 (record t.1 { files = clean t.1.files })).1.files)
        ≡ clean w.files
  after_run-files retries clean w (ok report) =
      conclude-files retries report (record w { files = clean w.files })
  after_run-files retries clean w (err e) = ap clean (handle-files retries _ w)

  try_scan-files :
      (a : Attempt F) (clean : List String → List String) (w : World F d.backend.S)
      (content : Result Fault Bytes)
      → (let t = try_scan fl d args a w content in
          (after_try fl d args a.retries t.0 (record t.1 { files = clean t.1.files })).1.files)
        ≡ clean w.files
  unfolding try_scan
  try_scan-files a clean w (err e) = ap clean (handle-files a.retries e w)
  try_scan-files a clean w (ok content) =
      let ran =
        run_scanners a.backends d.registered a.clock (a.reopened content) args.scanners w.cache in
      after_run-files a.retries clean (record w { counts = w.counts ++ ran.1; cache = ran.2 }) ran.0

  -- An attempt whose file name is new leaves the download directory as it was, however it ends.
  pub scan_task-files :
      (a : Attempt F) (w : World F d.backend.S)
      → contains w.files a.path ≡ false
      → (scan_task fl d args a w).1.files ≡ w.files
  unfolding scan_task
  scan_task-files a w h =
      try_scan-files a (clean_up d args a) (record w { files = open_file d args a w.files })
        (download d args a)
      ∙ clean_up-open_file d args a w.files h
