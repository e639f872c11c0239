-- ===== src/Tasks/Shapes.antt =====
-- docs/api.md, the shapes of a terminal result, against the dicts that src/tasks.py makes.
use file_scanner.Base.{String, ◌≡◌, ◌⊎◌, true, false, none, some, List, map}
use file_scanner.Base.Dict.{Dict, get}
use file_scanner.Base.Value.{Value, Floats, str, obj, arr, fields, items}
use file_scanner.Scanner.{ScannerResult}
use file_scanner.Scanner.Report.{all_errored, verdicts, verdict_dicts, result_dict}
use file_scanner.Results.{done, error_status}
use file_scanner.Tasks.{ScanArgs}

module _ (fl : Floats) (args : ScanArgs fl.F) where
  open fl use {F}

  -- The verdicts and the scanners of a report.
  abbrev HasReport : List (ScannerResult F) → Dict (Value F) → Type 0
  HasReport report result =
      (get "verdicts" result ≡ some (obj (fields (verdict_dicts fl (verdicts fl report)))))
      × (get "scanners" result
          ≡ some (arr (items (map (λ r. obj (fields (result_dict fl r))) report))))

  -- The scan ran.
  abbrev pub IsAnswer : Dict (Value F) → Type 0
  IsAnswer result =
      (report : List (ScannerResult F)) × (all_errored report ≡ false)
      × (get "status" result ≡ some (str done))
      × (get "error_kind" result ≡ none)
      × HasReport report result

  -- Every deciding engine failed: the report is attached.
  abbrev pub IsAllFailed : Dict (Value F) → Type 0
  IsAllFailed result =
      (report : List (ScannerResult F)) × (all_errored report ≡ true)
      × (get "status" result ≡ some (str error_status))
      × (get "error_kind" result ≡ some (str "transient"))
      × (get "error" result ≡ some (str "all scanners failed"))
      × HasReport report result

  -- The job failed before scanning: there is no report.
  abbrev pub IsUnscanned : Dict (Value F) → Type 0
  IsUnscanned result =
      (kind : String) × (message : String) × ((kind ≡ "file") ⊎ (kind ≡ "transient"))
      × (get "status" result ≡ some (str error_status))
      × (get "error_kind" result ≡ some (str kind))
      × (get "error" result ≡ some (str message))
      × (get "verdicts" result ≡ none)
      × (get "scanners" result ≡ none)

  -- The context of the job, and one of the shapes.
  abbrev pub Shaped : Dict (Value F) → Type 0
  Shaped result =
      (get "job_id" result ≡ some (str args.job_id))
      × (get "filename" result ≡ some args.filename)
      × (get "metadata" result ≡ some args.metadata)
      × (IsAnswer result ⊎ IsAllFailed result ⊎ IsUnscanned result)
