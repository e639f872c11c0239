-- ===== src/Tests/Probes.antt =====
-- Probes of the service, and the arguments of its worker.
use file_scanner.Base.{
  ℕ, String, ◌≡◌, ◌↔◌, refl, true, false, none, Option, some, [], ◌∷◌, arith, ◌==◌,
}
use file_scanner.Base.Text.{split}
use file_scanner.Base.Chars.{before}
use file_scanner.Scanner.Registry.Cache.{nil-Coherent}
use file_scanner.Engines.Jcop.{jcop_ping}
use file_scanner.Scanner.Registry.{category_map, default_categories_list, object}
use file_scanner.Scanner.Registry.Resolve.{resolve_scanners, requested}
use file_scanner.Base.Text.{strip, comma_list}
use file_scanner.Base.Dict.{get}
use file_scanner.Base.{ok, err, false}
use file_scanner.Monitoring.{
  metrics, Gauges, Versioned, versioned, clamav_version, parse_local_version, parse_remote_version,
  refresh_signatures, refresh_each, healthcheck, status, keeps_log, build_argv, words,
}
use file_scanner.Monitoring.Freshness.{scrapes, Spaced, scrapes-Spaced}
use file_scanner.Monitoring.Health.{Reachable, healthcheck-Reachable}
use file_scanner.Tests.Registry.{backends, loads, settings}

abbrev unset : Gauges ℕ
unset = record { last_signature_refresh = 0; signature_outdated = []; signature_version = [] }

abbrev behind : String → Versioned
behind name = clamav_version (some "ClamAV 0.100.3/25480/Fri Jun 14") (some "0.103.1:59:26120:16")

abbrev numeric : String → Option ℕ
numeric s = some 25480

-- The first scrape comes before the limit, the third too soon after the second.
scrapes_test :
    scrapes 1 numeric behind ("clamav" ∷ []) (10 ∷ 400 ∷ 650 ∷ 700 ∷ []) unset
    ≡ (10, []) ∷ (400, "clamav" ∷ []) ∷ (650, []) ∷ (700, "clamav" ∷ []) ∷ []
unfolding scrapes refresh_signatures refresh_each clamav_version
scrapes_test = refl

scrapes-Spaced_example :
    Spaced ("clamav" ∷ []) 1 0 (scrapes 1 numeric behind ("clamav" ∷ []) (10 ∷ 400 ∷ []) unset)
scrapes-Spaced_example =
    scrapes-Spaced 1 numeric behind ("clamav" ∷ []) (10 ∷ 400 ∷ []) unset (omega arith)

version_test :
    behind "clamav"
    ≡ versioned (record { actual = some "25480"; required = some "26120"; outdated = true })
unfolding clamav_version parse_local_version parse_remote_version split
version_test = refl

healthcheck-Reachable_example :
    ((healthcheck backends loads settings (λ name. name == "exav") []).0 ≡ status 200)
    ↔ Reachable backends loads settings (λ name. name == "exav") []
healthcheck-Reachable_example =
    healthcheck-Reachable backends loads settings (λ name. name == "exav") []
      (nil-Coherent backends)

-- A probe that succeeds is not logged, one that fails is.
access_test :
    (keeps_log (some (record { method = "GET"; path = "/check?x"; status_code = 200 })) ≡ false)
    × (keeps_log (some (record { method = "GET"; path = "/check"; status_code = 503 })) ≡ true)
unfolding keeps_log before
access_test = (refl, refl)

-- The ping queue is consumed whatever the environment says.
argv_test :
    build_argv (record {
      worker_processes = none;
      worker_threads = some "4";
      worker_watch = some "";
      worker_queues = some " webhooks ";
      hostname = "w1";
    })
    ≡ "broker" ∷ "tasks" ∷ "health" ∷ "--processes" ∷ "2" ∷ "--threads" ∷ "4" ∷ "--queues"
      ∷ "webhooks" ∷ "ping.w1" ∷ []
unfolding build_argv words
argv_test = refl

-- Any answer below 500 shows that JCOP is there.
reached_test :
    (jcop_ping {F = ℕ} (ok (record { status = 404; content = none })) ≡ true)
    × (jcop_ping {F = ℕ} (err "timeout") ≡ false)
unfolding jcop_ping
reached_test = (refl, refl)

-- A scrape with a selection that is refused shows the gauges as they are.
scraped_test :
    metrics backends (λ raw. object []) settings (refresh_signatures 1 numeric behind 400) [] unset
    ≡ (status 200, unset)
unfolding metrics resolve_scanners requested category_map strip default_categories_list comma_list
    get
scraped_test = refl
