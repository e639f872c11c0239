-- ===== src/Tests/Engines.antt =====
-- Daemons and services that answer.
use file_scanner.Base.{
  ℕ, ◌+◌, ltb, nat_eq, String, ◌≡◌, refl, true, false, not, none, some, is_some, List, [], ◌∷◌, All,
  if◌then◌else◌, ok, arith,
}
use file_scanner.Base.Dict.{get, set}
use file_scanner.Base.Text.{strip, comma_list}
use file_scanner.Base.Chars.{lower}
use file_scanner.Base.Value.{str, bool, pos}
use file_scanner.Encryption.{Bytes}
use file_scanner.Scanner.{ScannerResult, partial_verdict, clean_verdict, malware_verdict}
use file_scanner.Scanner.Registry.{
  category_map, default_categories_list, get_scanner, scanner_error, verdict,
}
use file_scanner.Scanner.Registry.Resolve.{resolve_scanners, requested}
use file_scanner.Scanner.Registry.Cache.{nil-Coherent}
use file_scanner.Scanner.Run.{run_scanners}
use file_scanner.Engines.{Rendering}
use file_scanner.Engines.Clamav.{
  Endpoint, Pools, Instream, replied, clamav_scan, error_verdict, is_transient,
}
use file_scanner.Engines.Exav.{exav_engine, Exinstream, line, Json, dict}
use file_scanner.Engines.Framing.{receive, exinstream, receive-exinstream}
use file_scanner.Engines.Jcop.{
  jcop_init, Service, JcopSettings, first_step, go_on, poll_until, analyse, jcop_scan, jcop_verdict,
}
use file_scanner.Engines.Polling.{Monotonic, jcop_scan-ends}
use file_scanner.Engines.Clearance.{jcop_engine, built, Warranted, run_scanners-Warranted}
use file_scanner.Base.Chars.{rstrip_char}
use file_scanner.Tests.Registry.{settings, loads}

receive-exinstream_example : receive 5 (exinstream (1 ∷ 2 ∷ 3 ∷ [])) ≡ some (1 ∷ 2 ∷ 3 ∷ [])
receive-exinstream_example = receive-exinstream 5 (1 ∷ 2 ∷ 3 ∷ []) (omega arith)

abbrev rendering : Rendering ℕ
rendering = record {
  truthy = λ n. not (nat_eq n 0);
  is_413 = λ n. nat_eq n 413;
  rendered = λ v. "";
}

-- A service that does not know the file, takes it, and is done at ten ticks of the clock, which is
-- its only state.
abbrev polled : Service ℕ ℕ
polled = record {
  now = λ w. w;
  sleep = λ n w. w + n;
  lookup = λ key w. (
    ok (
        if ltb w 2
        then record { status = 404; content = some [] }
        else if ltb w 10
        then record { status = 200; content = some (("done", bool false) ∷ []) }
        else record {
          status = 200;
          content = some (("done", bool true) ∷ ("is_malware", bool false) ∷ []);
        }),
    w,
  );
  post = λ content time w.
      (ok (record { status = 200; content = some (("id", str "x") ∷ []) }), w + 1);
  sha256_hex = λ content. "h";
}

polled-Monotonic : Monotonic polled
polled-Monotonic = record {
  sleep_takes = λ n w. omega arith;
  lookup_later = λ key w. omega arith;
  post_later = λ content time w. omega arith;
}

abbrev patient : JcopSettings
patient = record {
  jcop_base_url = "https://jcop.example/api/v1/";
  jcop_api_key = "k";
  jcop_submit_timeout = 20;
  jcop_poll_interval = 5;
}

jcop_scan-ends_example :
    (is_some (jcop_scan rendering polled patient [] 0).0 ≡ true)
    × (analyse rendering polled patient [] 0
        ≡ go_on rendering polled patient
            (poll_until rendering polled patient 5 20)
            (first_step rendering polled patient [] 20 0).0
            (first_step rendering polled patient [] 20 0).1)
jcop_scan-ends_example =
    jcop_scan-ends rendering polled patient polled-Monotonic (omega arith) [] 0 4 (omega arith)

analysed_test : (jcop_scan rendering polled patient [] 0).0 ≡ some (verdict clean_verdict)
unfolding jcop_scan analyse poll_until jcop_verdict clean_verdict get
analysed_test = refl

-- A service that is never done is given up at the deadline.
hurried_test :
    (jcop_scan rendering polled (record patient { jcop_submit_timeout = 5 }) [] 0).0
    ≡ some (scanner_error "JCOP analysis did not complete in time")
unfolding jcop_scan analyse poll_until get
hurried_test = refl

abbrev pools : Pools
pools = record {
  clamav_socket = "/run/clamd";
  clamav_hosts = "";
  exav_hosts = "exav";
  int_text = λ s. none;
  choice = λ hosts. some ("exav", pos 3310);
}

abbrev instream : Endpoint → Bytes → Instream
instream daemon content = replied "OK" none

abbrev json : String → Json ℕ
json raw = dict (("status", str raw) ∷ [])

abbrev daemons : Endpoint → Bytes → Exinstream
daemons daemon sent = line "FOUND"

-- All three engines, by name.
abbrev three : List String
three = "clamav" ∷ "exav" ∷ "jcop" ∷ []

resolved_engines :
    (resolve_scanners
      (built rendering pools instream json daemons polled (λ content. 0) patient)
      loads
      settings
      []
      three
      []).0
    ≡ ok three
unfolding resolve_scanners requested category_map strip default_categories_list comma_list get
    get_scanner set exav_engine jcop_engine jcop_init rstrip_char
resolved_engines = refl

run_scanners-Warranted_example :
    let b = built rendering pools instream json daemons polled (λ content. 0) patient in
    (rs : List (ScannerResult ℕ)) × ((run_scanners b settings (λ n. 1) (ok (7 ∷ [])) three []).0
      ≡ ok rs)
    × All
        (Warranted rendering pools instream json daemons polled (λ content. 0) patient (7 ∷ []))
        rs
run_scanners-Warranted_example =
    run_scanners-Warranted rendering pools instream json daemons polled (λ content. 0) patient
      settings (λ n. 1) (7 ∷ []) loads [] three three [] []
      (nil-Coherent (built rendering pools instream json daemons polled (λ content. 0) patient))
      (nil-Coherent (built rendering pools instream json daemons polled (λ content. 0) patient))
      resolved_engines

-- A limit that clamd alerts of is not a detection, and an error is never clean.
clamav_test :
    (clamav_scan {F = ℕ} (replied "FOUND" (some "Heuristics.Limits.Exceeded.MaxFileSize"))
      ≡ verdict (partial_verdict "LIMITS-EXCEEDED"))
    × (clamav_scan {F = ℕ} (replied "ERROR" (some "Can't Allocate memory"))
        ≡ scanner_error "scan error: Can't Allocate memory")
    × (clamav_scan {F = ℕ} (replied "FOUND" (some "Eicar"))
        ≡ verdict (malware_verdict (some "Eicar")))
unfolding clamav_scan error_verdict is_transient lower
clamav_test = (refl, refl, refl)
