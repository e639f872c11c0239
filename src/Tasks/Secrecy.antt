-- ===== src/Tasks/Secrecy.antt =====
-- src/tasks.py, what becomes of the decryption key that `scan_task` is given.
use mathlib.Core.Path.{subst}
use file_scanner.Base.{
  ◌++◌, ℕ, String, ◌≡◌, refl, sym, ◌∙◌, inl, inr, false, Option, List, arith, Result, ok, err,
  contains, Bool-cases,
}
use file_scanner.Base.Dict.{Dict}
use file_scanner.Base.Text.{is_text}
use file_scanner.Base.Value.{Floats, Value}
use file_scanner.Encryption.{Bytes}
use file_scanner.Download.{Fault, file, decryption, ssrf, request, unexpected, EncryptionParams}
use file_scanner.Scanner.{ScannerResult}
use file_scanner.Scanner.Report.{all_errored}
use file_scanner.Scanner.Registry.{Raised}
use file_scanner.Scanner.Run.{run_scanners}
use file_scanner.Tasks.{
  Response, ScanArgs, Deployment, Attempt, World, Ending, Tried, retries_exhausted, download,
  open_file, clean_up,
}
use file_scanner.Tasks.Scan.{
  finalize, report_error, deliver, handle, conclude, after_run, try_scan, after_try, scan_task,
}
use file_scanner.Tasks.Cleanup.{scan_task-files}

-- The job with other encryption parameters.
abbrev pub with_params : {F : Type 0} → ScanArgs F → Option EncryptionParams → ScanArgs F
with_params args params = record args { encryption_params = params }

module _ (fl : Floats) (d : Deployment fl.F) (args : ScanArgs fl.F)
    (p q : Option EncryptionParams) where
  open fl use {F}

  -- Worlds that differ in the files on disk at most.
  abbrev pub Alike : World F d.backend.S → World F d.backend.S → Type 0
  Alike w v =
      (w.store ≡ v.store) × (w.webhooks ≡ v.webhooks) × (w.counts ≡ v.counts) × (w.cache ≡ v.cache)

  abbrev pub SameEnd : Ending × World F d.backend.S → Ending × World F d.backend.S → Type 0
  SameEnd r s = (r.0 ≡ s.0) × Alike r.1 s.1

  finalize-Alike :
      (result : Dict (Value F)) (w v : World F d.backend.S)
      → Alike w v
      → Alike
          (finalize fl d (with_params args p) result w)
          (finalize fl d (with_params args q) result v)
  unfolding finalize
  finalize-Alike result w v (stored, queued, counted, cached) =
      elim (Bool-cases (is_text args.webhook_url)) [
        | inl t ↦ rw (t) (rw (stored) refl, rw (queued) refl, counted, cached)
        | inr t ↦ rw (t) (rw (stored) refl, queued, counted, cached)
      ]

  handle-SameEnd :
      (retries : Option ℕ) (f : Fault) (w v : World F d.backend.S)
      → Alike w v
      → SameEnd
          (handle fl d (with_params args p) retries f w)
          (handle fl d (with_params args q) retries f v)
  unfolding handle report_error
  handle-SameEnd retries (file e) w v h = (refl, finalize-Alike _ w v h)
  handle-SameEnd retries (decryption e) w v h = (refl, finalize-Alike _ w v h)
  handle-SameEnd retries (ssrf why) w v h = (refl, finalize-Alike _ w v h)
  handle-SameEnd retries (request why) w v h = (refl, finalize-Alike _ w v h)
  handle-SameEnd retries (unexpected why) w v h = elim (Bool-cases (retries_exhausted retries)) [
    | inl t ↦ rw t (refl, finalize-Alike _ w v h)
    | inr t ↦ rw t (refl, h)
  ]

  conclude-SameEnd :
      (retries : Option ℕ) (report : List (ScannerResult F)) (w v : World F d.backend.S)
      → Alike w v
      → SameEnd
          (conclude fl d (with_params args p) retries report w)
          (conclude fl d (with_params args q) retries report v)
  unfolding conclude deliver
  conclude-SameEnd retries report w v h = elim (Bool-cases (all_errored report)) [
    | inl e ↦ elim (Bool-cases (retries_exhausted retries)) [
      | inl t ↦ rw e (rw t (refl, finalize-Alike _ w v h))
      | inr t ↦ rw e (rw t (refl, h))
    ]
    | inr e ↦ rw e (refl, finalize-Alike _ w v h)
  ]

  -- What follows an attempt of the `try` block, with `clean` for `finally`.
  abbrev ends :
      ScanArgs F
      → Option ℕ
      → (List String → List String)
      → Tried F × World F d.backend.S
      → Ending × World F d.backend.S
  ends job retries clean t = after_try fl d job retries t.0 (record t.1 { files = clean t.1.files })

  after_run-SameEnd :
      (retries : Option ℕ) (clean : List String → List String)
      (r : Result Raised (List (ScannerResult F))) (w v : World F d.backend.S)
      → Alike w v
      → SameEnd
          (ends
            (with_params args p)
            retries
            clean
            (after_run fl d (with_params args p) retries r w))
          (ends
            (with_params args q)
            retries
            clean
            (after_run fl d (with_params args q) retries r v))
  after_run-SameEnd retries clean (ok report) w v h =
      conclude-SameEnd retries report (record w { files = clean w.files })
        (record v { files = clean v.files }) h
  after_run-SameEnd retries clean (err e) w v h =
      handle-SameEnd retries (unexpected (d.says_raised e)) w v h

  try_scan-SameEnd :
      (a : Attempt F) (other : Result Fault Response) (clean : List String → List String)
      (content : Result Fault Bytes) (w : World F d.backend.S) (files others : List String)
      → SameEnd
          (ends
            (with_params args p)
            a.retries
            clean
            (try_scan fl d (with_params args p) a (record w { files = files }) content))
          (ends (with_params args q) a.retries clean (
            try_scan fl d
              (with_params args q)
              (record a { response = other })
              (record w { files = others })
              content))
  unfolding try_scan
  try_scan-SameEnd a other clean (err e) w files others =
      handle-SameEnd a.retries e (record w { files = files }) (record w { files = others })
        (refl, refl, refl, refl)
  try_scan-SameEnd a other clean (ok content) w files others =
      let ran =
        run_scanners a.backends d.registered a.clock (a.reopened content) args.scanners w.cache in
      after_run-SameEnd a.retries clean ran.0
        (record w { files = files; counts = w.counts ++ ran.1; cache = ran.2 })
        (record w { files = others; counts = w.counts ++ ran.1; cache = ran.2 })
        (refl, refl, refl, refl)

  scan_task-SameEnd :
      (a : Attempt F) (other : Result Fault Response) (w : World F d.backend.S)
      → download d (with_params args p) a
        ≡ download d (with_params args q) (record a { response = other })
      → SameEnd
          (scan_task fl d (with_params args p) a w)
          (scan_task fl d (with_params args q) (record a { response = other }) w)
  unfolding scan_task
  scan_task-SameEnd a other w h =
      let clean = clean_up d args a in
      let files = open_file d (with_params args p) a w.files in
      let others = open_file d (with_params args q) (record a { response = other }) w.files in
      subst
        (λ content.
          SameEnd
            (ends (with_params args p) a.retries clean
              (try_scan fl d (with_params args p) a (record w { files = files }) content))
            (ends (with_params args q) a.retries clean (
              try_scan fl d (with_params args q) a (record w { files = others })
                (download d (with_params args q) (record a { response = other })))))
        (sym h)
        (try_scan-SameEnd a other clean
          (download d (with_params args q) (record a { response = other })) w files others)

  same_end : (r s : Ending × World F d.backend.S) → SameEnd r s → r.1.files ≡ s.1.files → r ≡ s
  same_end (e, w) (e', w') (ended, (stored, queued, counted, cached)) files = ground arith

  -- What a job reports to the store and to the webhook, what it counts, what it leaves on disk and
  -- how it ends depend on its encryption parameters and on the server's response only through the
  -- content, or the error, that the download comes to.
  pub scan_task-with_params :
      (a : Attempt F) (other : Result Fault Response) (w : World F d.backend.S)
      → download d (with_params args p) a
        ≡ download d (with_params args q) (record a { response = other })
      → contains w.files a.path ≡ false
      → scan_task fl d (with_params args p) a w
        ≡ scan_task fl d (with_params args q) (record a { response = other }) w
  scan_task-with_params a other w h fresh =
      same_end (scan_task fl d (with_params args p) a w)
        (scan_task fl d (with_params args q) (record a { response = other }) w)
        (scan_task-SameEnd a other w h)
        (scan_task-files fl d (with_params args p) a w fresh
          ∙ sym (scan_task-files fl d (with_params args q) (record a { response = other }) w fresh))
