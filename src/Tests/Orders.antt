-- ===== src/Tests/Orders.antt =====
-- A run of the service with one job: it is sent, fails once, is recorded as pending, and ends.
use file_scanner.Base.{
  ℕ, String, ◌≡◌, false, refl, [], ◌∷◌, ok, some, none, Memᴰ, count, ◌-◌, arith,
}
use file_scanner.Base.Dict.{Dict, get, set}
use file_scanner.Base.Text.{strip, comma_list}
use file_scanner.Base.Chars.{upper, rstrip_char}
use file_scanner.Base.Value.{Value}
use file_scanner.Auth.Tokens.{decode, too_long, body_hash, request_target}
use file_scanner.Auth.Requests.{int_of, authenticate}
use file_scanner.Scanner.Report.{
  all_errored, report_detected, all_deciding, by_category, file_under, deciding,
}
use file_scanner.Scanner.Registry.{
  advisory_scanners, get_scanner, category_map, default_categories_list, assert_size_cap_decidable,
}
use file_scanner.Scanner.Registry.Resolve.{resolve_scanners, requested}
use file_scanner.Results.{Wrapper, wrapper, record_result, enabled, fetch}
use file_scanner.Validation.{host_allowed, assert_scannable}
use file_scanner.Tasks.{Attempt, ScanArgs, World, returned, raised}
use file_scanner.Tasks.Scan.{scan_task}
use file_scanner.Wire.{serialize, of_path}
use file_scanner.Web.{answer, queued, scan_async, job_status}
use file_scanner.Web.Routes.{VouchedFor, get_job}
use file_scanner.Journey.{deployed}
use file_scanner.Journey.Interleaving.{
  System, Reach, Report, with_id, sends, seeds_pending, returns, runs_again, start, later, at_start,
  sent, pending_record,
}
use file_scanner.Journey.Interleaving.Polls.{PendingOrEnded, get_job-Reach}
use file_scanner.Tests.{floats}
use file_scanner.Tests.Registry.{both, memory-Stores, backends, loads, settings}
use file_scanner.Tests.Jobs.{met}
use file_scanner.Tests.Requests.{service, idle, accepted_body}
use file_scanner.Tests.Tokens.{jwt_settings, issuers}
use file_scanner.Tests.Callers.{tokens, poll}
use file_scanner.Tests.Journeys.{worker, with_webhook}

abbrev job : ScanArgs ℕ
job = queued floats service "/api/v2.0/scan-async" "a1" "drive" with_webhook both

taken :
    (scan_async floats service "/api/v2.0/scan-async" "a1" "drive" with_webhook (λ w. w) idle).0
    ≡ answer 202 accepted_body
unfolding scan_async assert_scannable host_allowed comma_list strip resolve_scanners requested
    category_map default_categories_list get get_scanner set assert_size_cap_decidable enabled
taken = refl

chosen : (resolve_scanners backends loads settings [] [] []).0 ≡ ok both
unfolding resolve_scanners requested category_map strip default_categories_list comma_list get
    get_scanner set
chosen = refl

abbrev Shared : Type 0
Shared = System ℕ (Dict (Wrapper (Dict (Value ℕ))))

abbrev s1 : Shared
s1 = sent floats service worker job (at_start floats service worker [])

-- The world that a worker runs in, with nothing of its own.
abbrev world_of : Shared → World ℕ (Dict (Wrapper (Dict (Value ℕ))))
world_of s = record { store = s.store; webhooks = s.webhooks; counts = []; files = []; cache = [] }

abbrev w1 : World ℕ (Dict (Wrapper (Dict (Value ℕ))))
w1 = (scan_task floats (deployed service worker) job (met 0) (world_of s1)).1

fails : scan_task floats (deployed service worker) job (met 0) (world_of s1) ≡ (raised "disk", w1)
unfolding scan_task
fails = refl

abbrev s2 : Shared
s2 = record s1 {
  scans = record { args = job; retries = 1 } ∷ [];
  store = w1.store;
  webhooks = w1.webhooks;
}

abbrev s3 : Shared
s3 = record s2 {
  seeds = [];
  store =
      record_result service.backend 60 "a1" "drive" (pending_record floats service worker job)
        s2.store;
}

abbrev w3 : World ℕ (Dict (Wrapper (Dict (Value ℕ))))
w3 =
    (scan_task floats (deployed service worker) job (record (met 1) { retries = some 1 })
      (world_of s3)).1

ends :
    scan_task floats
      (deployed service worker)
      job
      (record (met 1) { retries = some 1 })
      (world_of s3)
    ≡ (returned, w3)
unfolding scan_task get_scanner get set all_errored report_detected all_deciding by_category
    file_under deciding advisory_scanners
ends = refl

abbrev s4 : Shared
s4 = record s3 { scans = []; store = w3.store; webhooks = w3.webhooks }

none_yet :
    (key : String) (w : Wrapper (Dict (Value ℕ)))
    → service.backend.get_result key [] ≡ wrapper w
    → ⊥
unfolding get
none_yet key w h = cc

run : Reach floats service worker [] s4
run =
    later
      (later
        (later
          (later start (
            sends "/api/v2.0/scan-async" "a1" "drive" with_webhook both idle 202 accepted_body taken
              chosen refl))
          (runs_again [] (record { args = job; retries = 0 }) [] (met 0) (world_of s1) w1 "disk"
            refl refl refl fails (omega arith)))
        (seeds_pending [] job [] refl))
      (returns [] (record { args = job; retries = 1 }) [] (met 1) (world_of s3) w3 refl refl refl
        ends)

-- What the store holds of the job at the end.
abbrev ended : Dict (Value ℕ)
ended = elim (get "a1" s4.store) [ none ↦ [] | some w ↦ w.payload ]

polled :
    get_job floats service tokens jwt_settings issuers poll "a1" (record idle { store = s4.store })
    ≡ answer 200 (serialize floats ended (of_path "/api/v2.0/jobs/a1"))
unfolding get_job authenticate decode too_long upper strip get int_of body_hash request_target
    rstrip_char job_status enabled fetch set record_result scan_task get_scanner all_errored
    report_detected all_deciding by_category file_under deciding advisory_scanners
polled = refl

get_job-Reach_example :
    (accepted : ScanArgs ℕ) × (stored : Dict (Value ℕ)) × Memᴰ accepted s4.accepted
    × ("a1" ≡ accepted.job_id)
    × (count (with_id "a1") s4.accepted ≡ 1)
    × VouchedFor floats service tokens jwt_settings issuers poll false accepted.api_client
    × (◌≡◌ {A = ℕ} 200 200)
    × (serialize floats ended (of_path "/api/v2.0/jobs/a1")
        ≡ serialize floats stored (of_path poll.path))
    × PendingOrEnded floats service worker accepted stored s4.webhooks
get_job-Reach_example =
    get_job-Reach floats service worker tokens jwt_settings issuers (memory-Stores (Dict (Value ℕ)))
      [] s4 poll "a1" idle 200 (serialize floats ended (of_path "/api/v2.0/jobs/a1")) none_yet run
      polled

-- The first attempt fails.
abbrev fails_first : ℕ → Attempt ℕ
fails_first n = met (2 - n)
