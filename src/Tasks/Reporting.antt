-- ===== src/Tasks/Reporting.antt =====
-- src/tasks.py, the parts of `scan_task` that report.
use file_scanner.Base.{
  ℕ, String, ◌≡◌, refl, ◌⊎◌, inl, inr, Bool, true, false, Option, List, [], ◌∷◌, ◌++◌, arith,
  if◌then◌else◌, Bool-cases,
}
use file_scanner.Base.Dict.{Dict, get, set, update}
use file_scanner.Base.Text.{is_text}
use file_scanner.Base.Value.{Value, Floats}
use file_scanner.Download.{Fault, file, decryption, ssrf, request, unexpected}
use file_scanner.Scanner.{ScannerResult}
use file_scanner.Scanner.Report.{all_errored, report_dict}
use file_scanner.Results.{record_result}
use file_scanner.Wire.{serialize}
use file_scanner.Tasks.{ScanArgs, Deployment, World, Ending, returned, raised, retries_exhausted}
use file_scanner.Tasks.Shapes.{Shaped}
use file_scanner.Tasks.Scan.{finalize, report_error, deliver, handle, conclude}

module _ (fl : Floats) (d : Deployment fl.F) (args : ScanArgs fl.F) where
  open fl use {F}

  -- The world after one terminal result: it is offered to the store, and queued once for the
  -- webhook, if there is one, in the version of the job.
  abbrev pub Delivered : World F d.backend.S → World F d.backend.S → Type 0
  Delivered w w' =
      (result : Dict (Value F)) × (w'.store
        ≡ record_result d.backend d.worker_result_ttl args.job_id args.api_client result w.store)
      × (w'.webhooks ≡ (
          if is_text args.webhook_url
          then w.webhooks
            ++ record { target = args.webhook_url; payload = serialize fl result args.wire_version }
              ∷ []
          else w.webhooks))
      × Shaped fl args result

  -- How an attempt may end, from one world to another.
  abbrev pub Reports : Option ℕ → World F d.backend.S → Ending × World F d.backend.S → Type 0
  Reports retries w (returned, w') = Delivered w w'
  Reports retries w (raised why, w') =
      (w'.store ≡ w.store) × (w'.webhooks ≡ w.webhooks) × (retries_exhausted retries ≡ false)

  finalize-Delivered :
      (result : Dict (Value F)) (w : World F d.backend.S)
      → Shaped fl args result
      → Delivered w (finalize fl d args result w)
  unfolding finalize
  finalize-Delivered result w h = elim (Bool-cases (is_text args.webhook_url)) [
    | inl t ↦ (result, ground (arith, t), ground (arith, t), h)
    | inr t ↦ (result, ground (arith, t), ground (arith, t), h)
  ]

  report_error-Delivered :
      (kind message : String) (w : World F d.backend.S)
      → (kind ≡ "file") ⊎ (kind ≡ "transient")
      → Delivered w (report_error fl d args kind message w)
  unfolding report_error get set update
  report_error-Delivered kind message w h =
      finalize-Delivered _ w
        (refl, refl, refl, inr (inr (kind, message, h, refl, refl, refl, refl, refl)))

  deliver-Delivered :
      (transient_error : Bool) (report : List (ScannerResult F)) (w : World F d.backend.S)
      → all_errored report ≡ transient_error
      → Delivered w (deliver fl d args transient_error report w)
  unfolding deliver get set update report_dict
  deliver-Delivered true report w h =
      finalize-Delivered _ w
        (refl, refl, refl, inr (inl (report, h, refl, refl, refl, (refl, refl))))
  deliver-Delivered false report w h =
      finalize-Delivered _ w (refl, refl, refl, inl (report, h, refl, refl, (refl, refl)))

  pub handle-Reports :
      (retries : Option ℕ) (f : Fault) (w : World F d.backend.S)
      → Reports retries w (handle fl d args retries f w)
  unfolding handle
  handle-Reports retries (file e) w = report_error-Delivered _ _ w (inl refl)
  handle-Reports retries (decryption e) w = report_error-Delivered _ _ w (inl refl)
  handle-Reports retries (ssrf why) w = report_error-Delivered _ _ w (inl refl)
  handle-Reports retries (request why) w = report_error-Delivered _ _ w (inr refl)
  handle-Reports retries (unexpected why) w = elim (Bool-cases (retries_exhausted retries)) [
    | inl h ↦ rw h (report_error-Delivered _ _ w (inr refl))
    | inr h ↦ rw h (refl, refl, h)
  ]

  pub conclude-Reports :
      (retries : Option ℕ) (report : List (ScannerResult F)) (w : World F d.backend.S)
      → Reports retries w (conclude fl d args retries report w)
  unfolding conclude
  conclude-Reports retries report w = elim (Bool-cases (all_errored report)) [
    | inl e ↦ elim (Bool-cases (retries_exhausted retries)) [
      | inl h ↦ rw e (rw h (deliver-Delivered true report w e))
      | inr h ↦ rw e (rw h (refl, refl, h))
    ]
    | inr e ↦ rw e (deliver-Delivered false report w e)
  ]
