-- ===== src/Monitoring.antt =====
-- What watches the service: healthcheck, metrics and the access log filter of src/app.py,
-- refresh_signatures of src/metrics.py, the version of the clamav backend, and the arguments of
-- src/worker.py. Times are ticks of the monotonic clock.
pub mod Health
pub mod Freshness
use Prim.Native.Char.{code}
use file_scanner.Base.{
  ℕ, ◌-◌, ◌*◌, String, ◌<>◌, Bool, true, false, not, ◌&&◌, ◌||◌, Option, none, some, List, [], ◌∷◌,
  ◌++◌, contains, filter, ltb, zero, suc, nat_eq, if◌then◌else◌, Result, ok, err, ◌==◌,
}
use file_scanner.Base.Dict.{Dict, get, set}
use file_scanner.Base.Text.{is_text, is_space, push_front, split}
use file_scanner.Base.Chars.{before}
use file_scanner.Scanner.Registry.{
  Engine, Backends, Registered, Loaded, Raised, value_error, runtime_error, Reg, give, ◌>>=◌,
  get_scanner,
}
use file_scanner.Scanner.Registry.Resolve.{resolve_scanners}

-- VersionInfo
pub record VersionInfo : Type 0 where
  pub actual : Option String
  pub required : Option String
  pub outdated : Bool

-- What `get_scanner(name).version()` does.
pub data Versioned : Type 0 where
  raises : Versioned
  no_version : Versioned
  versioned : VersionInfo → Versioned

abbrev nth : ℕ → List String → Option String
nth n [] = none
nth zero (x ∷ xs) = some x
nth (suc n) (x ∷ xs) = nth n xs

-- parse_local_version and parse_remote_version, where `none` is an IndexError
unfoldable pub parse_local_version : String → Option String
unfolding split
parse_local_version version_text = nth 1 (split b'/' version_text)

unfoldable pub parse_remote_version : String → Option String
unfolding split
parse_remote_version version_text = nth 2 (split b':' version_text)

abbrev compare_versions : Option String → Option String → Versioned
compare_versions (some local) (some remote) =
    versioned
      (record { actual = some local; required = some remote; outdated = not (local == remote) })
compare_versions _ _ = raises

-- ClamavScanner.version, of the daemon's VERSION and the TXT record, of which `none` is an exception
unfoldable pub clamav_version : Option String → Option String → Versioned
unfolding parse_local_version parse_remote_version
clamav_version (some daemon) (some txt) =
    compare_versions (parse_local_version daemon) (parse_remote_version txt)
clamav_version _ _ = raises

-- The gauges, and when they were last refreshed.
pub record Gauges (F : Type 0) : Type 0 where
  pub last_signature_refresh : ℕ
  pub signature_outdated : Dict Bool
  pub signature_version : Dict F

-- SIGNATURE_REFRESH_TTL, in seconds
abbrev pub signature_refresh_ttl : ℕ
signature_refresh_ttl = 300

module _ {F : Type 0} (second : ℕ) (float_text : String → Option F)
    (version_of : String → Versioned) where
  -- `float(info.actual)`, where `none` is a TypeError or a ValueError
  abbrev float_of : Option String → Option F
  float_of none = none
  float_of (some actual) = float_text actual

  abbrev set_version : String → Option F → Gauges F → Gauges F
  set_version name none g = g
  set_version name (some x) g = record g { signature_version = set name x g.signature_version }

  abbrev set_gauges : String → Versioned → Gauges F → Gauges F
  set_gauges name raises g = g
  set_gauges name no_version g = g
  set_gauges name (versioned info) g =
      set_version name (float_of info.actual)
        (record g { signature_outdated = set name info.outdated g.signature_outdated })

  -- The loop, with the names that it asks for a version, in order.
  unfoldable pub refresh_each : List String → Gauges F → Gauges F × List String
  refresh_each [] g = (g, [])
  refresh_each (name ∷ names) g =
      let rest = refresh_each names (set_gauges name (version_of name) g) in (rest.0, name ∷ rest.1)

  -- The test of the rate limit.
  abbrev pub is_fresh : ℕ → Gauges F → Bool
  is_fresh now g = ltb (now - g.last_signature_refresh) (signature_refresh_ttl * second)

  -- refresh_signatures, with the scanners that it asks for their version
  unfoldable pub refresh_signatures : ℕ → List String → Gauges F → Gauges F × List String
  unfolding refresh_each
  refresh_signatures now names g =
      if is_fresh now g
      then (g, [])
      else refresh_each names (record g { last_signature_refresh = now })

-- The reply of a probe.
pub data Probed : Type 0 where
  status : ℕ → Probed
  uncaught : Probed

module _ {F : Type 0} (b : Backends F) (loads : String → Loaded) (s : Registered)
    (pings : String → Bool) where
  -- `all(get_scanner(name).ping() for name in names)`, which stops at the first that does not ping
  pub ping_all : List String → Reg F Bool
  ping_all [] = give (ok true)
  ping_all (name ∷ names) =
      get_scanner b name >>= λ e. if pings name then ping_all names else give (ok false)

  abbrev pub of_ping : Result Raised Bool → Probed
  of_ping (ok true) = status 200
  of_ping (ok false) = status 503
  of_ping (err (value_error p)) = status 503
  of_ping (err (runtime_error p)) = status 503
  of_ping (err e) = uncaught

  -- healthcheck
  pub healthcheck : Dict (Engine F) → Probed × Dict (Engine F)
  unfolding ping_all
  healthcheck cache =
      let asked = (resolve_scanners b loads s [] [] >>= ping_all) cache in
      (of_ping asked.0, asked.1)

-- metrics: its status, and the gauges that it exposes
abbrev refreshed :
    {F G : Type 0}
    → (List String → Gauges G → Gauges G × List String)
    → Result Raised (List String) × Dict (Engine F)
    → Gauges G
    → Probed × Gauges G
refreshed refresh (ok names, cache) g = (status 200, (refresh names g).0)
refreshed refresh (err (value_error p), cache) g = (status 200, g)
refreshed refresh (err e, cache) g = (uncaught, g)

unfoldable pub metrics :
    {F G : Type 0}
    → Backends F
    → (String → Loaded)
    → Registered
    → (List String → Gauges G → Gauges G × List String)
    → Dict (Engine F)
    → Gauges G
    → Probed × Gauges G
metrics b loads s refresh cache g = refreshed refresh (resolve_scanners b loads s [] [] cache) g

-- The arguments of an access log record, if they are the five of uvicorn's.
pub record Access : Type 0 where
  pub method : String
  pub path : String
  pub status_code : ℕ

-- _DropProbeAccessLogs.filter
unfoldable pub keeps_log : Option Access → Bool
unfolding before
keeps_log none = true
keeps_log (some a) = not (
    a.method == "GET"
    && contains ("/check" ∷ "/" ∷ "/metrics" ∷ []) (before b'?' a.path)
    && nat_eq a.status_code 200)

-- s.split(): the pieces between blanks that are not empty
abbrev pieces : String → List String
pieces String.[] = "" ∷ []
pieces (String.◌∷◌ c s) =
    let rest = pieces s in if is_space (code c) then "" ∷ rest else push_front c rest

unfoldable pub words : String → List String
words s = filter is_text (pieces s)

-- What build_argv reads of the environment.
pub record WorkerEnv : Type 0 where
  pub worker_processes : Option String
  pub worker_threads : Option String
  pub worker_watch : Option String
  pub worker_queues : Option String
  pub hostname : String

abbrev pub or_value : Option String → String → String
or_value none default = default
or_value (some v) default = v

-- build_argv
unfoldable pub build_argv : WorkerEnv → List String
unfolding words
build_argv e =
    let watch = or_value e.worker_watch "" in
    ("broker"
      ∷ "tasks"
      ∷ "health"
      ∷ "--processes"
      ∷ or_value e.worker_processes "2"
      ∷ "--threads"
      ∷ or_value e.worker_threads "8"
      ∷ [])
    ++ (if is_text watch then "--watch" ∷ watch ∷ [] else [])
    ++ ("--queues" ∷ words (or_value e.worker_queues "webhooks scans")
        ++ ("ping." <> e.hostname) ∷ [])
