-- ===== src/Scanner/Run.antt =====
-- src/scanner.py, `run_scanners`. The threads of the pool share the cache only, so that the names
-- are taken one after the other here. The clock is a parameter, and `str(exc)` is what an exception
-- carries. `metrics.record` is a list of the calls.
pub mod Order
pub mod Covering
use file_scanner.Base.{
  ℕ, String, ◌<>◌, Bool, Option, none, some, List, [], ◌∷◌, contains, Result, ok, err,
}
use file_scanner.Base.Dict.{Dict}
use file_scanner.Scanner.{Kind, error, Verdict, ScannerResult}
use file_scanner.Scanner.Registry.{
  Registered, Engine, Backends, Scanned, verdict, scanner_error, crashed, Problem, no_workers,
  Raised, value_error, Reg, give, ◌>>=◌, ◌>>◌, get_scanner, advisory_scanners,
}

module _ {F : Type 0} where
  -- What `_one` keeps of the scan: the verdict of the scanner, or an error result's.
  abbrev pub from_scan : Scanned F → Verdict F
  from_scan (verdict v) = v
  from_scan (scanner_error why) = record {
    kind = error;
    reason = some why;
    score = none;
    location = none;
  }
  from_scan (crashed why) = record {
    kind = error;
    reason = some ("internal error: " <> why);
    score = none;
    location = none;
  }

  -- `scanner.scan(open_file())`. That the file does not open is a crash like another.
  abbrev pub scan_opened : Engine F → Result String (List ℕ) → Scanned F
  scan_opened e (ok content) = e.scan content
  scan_opened e (err why) = crashed why

  abbrev pub result_of : Bool → F → String → Engine F → Verdict F → ScannerResult F
  result_of is_advisory elapsed name e v = record {
    scanner = name;
    category = e.category;
    kind = v.kind;
    reason = v.reason;
    score = v.score;
    location = v.location;
    time = elapsed;
    scored = e.scored;
    advisory = is_advisory;
  }

  module _ (b : Backends F) (s : Registered) (clock : String → F)
      (file : Result String (List ℕ)) where
    -- `_one`, up to the call of `metrics.record`
    unfoldable pub run_one : String → Reg F (ScannerResult F)
    run_one name = do
      e ← get_scanner b name
      give (
          ok (
            result_of (contains (advisory_scanners s) name) (clock name) name e
              (from_scan (scan_opened e file))))

    -- `pool.map(_one, names)`: each call returns or raises on its own.
    unfoldable pub run_each :
        List String → Dict (Engine F) → List (Result Raised (ScannerResult F)) × Dict (Engine F)
    unfolding run_one
    run_each [] cache = ([], cache)
    run_each (n ∷ ns) cache =
        let one = run_one n cache in let rest = run_each ns one.1 in (one.0 ∷ rest.0, rest.1)

  abbrev and_result :
      Result Raised (ScannerResult F)
      → Result Raised (List (ScannerResult F))
      → Result Raised (List (ScannerResult F))
  and_result (err e) rest = err e
  and_result (ok r) (ok rs) = ok (r ∷ rs)
  and_result (ok r) (err e) = err e

  -- `list(…)` of the results: the first exception is raised.
  abbrev pub collect :
      List (Result Raised (ScannerResult F)) → Result Raised (List (ScannerResult F))
  collect [] = ok []
  collect (r ∷ rs) = and_result r (collect rs)

  -- The results that `metrics.record` counts.
  abbrev pub counted : List (Result Raised (ScannerResult F)) → List (ScannerResult F)
  counted [] = []
  counted (ok r ∷ rs) = r ∷ counted rs
  counted (err e ∷ rs) = counted rs

  -- run_scanners: what it returns, what it counts, and the cache. A pool of no worker raises.
  unfoldable pub run_scanners :
      Backends F
      → Registered
      → (String → F)
      → Result String (List ℕ)
      → List String
      → Dict (Engine F)
      → Result Raised (List (ScannerResult F)) × List (ScannerResult F) × Dict (Engine F)
  unfolding run_each
  run_scanners b s clock file [] cache = (err (value_error no_workers), [], cache)
  run_scanners b s clock file (n ∷ ns) cache =
      let all = run_each b s clock file (n ∷ ns) cache in (collect all.0, counted all.0, all.1)
