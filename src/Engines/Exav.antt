-- ===== src/Engines/Exav.antt =====
-- src/scanners/exav.py: the backend that speaks EXINSTREAM. The daemon and `json.loads` are
-- parameters. What an error quotes of a reply is left out.
use file_scanner.Base.{String, ◌<>◌, Bool, none, if◌then◌else◌, Result, ok, err, starts_with}
use file_scanner.Base.Dict.{Dict, get}
use file_scanner.Base.Text.{is_text}
use file_scanner.Base.Value.{is_str, Value}
use file_scanner.Encryption.{Bytes}
use file_scanner.Scanner.{malware, clean_verdict, partial_verdict}
use file_scanner.Scanner.Registry.{Engine, Scanned, verdict, scanner_error, crashed}
use file_scanner.Engines.{Rendering, optional_text, or_text}
use file_scanner.Engines.Clamav.{Endpoint, Pools, pool_member}
use file_scanner.Engines.Framing.{exinstream}

-- What `exinstream` does with the frames that are sent: it raises a ConnectionError or an OSError,
-- raises another exception, or returns the reply.
pub data Exinstream : Type 0 where
  not_scanned : String → Exinstream
  raised : String → Exinstream
  line : String → Exinstream

-- `json.loads`: an error, a value that is no dict, or a dict.
pub data Json (F : Type 0) : Type 0 where
  not_json : Json F
  no_dict : Json F
  dict : Dict (Value F) → Json F

module _ {F : Type 0} (r : Rendering F) where
  -- The end of `_parse_verdict`, from the decoded reply.
  unfoldable pub of_data : Dict (Value F) → Scanned F
  unfolding clean_verdict partial_verdict
  of_data data_ =
      let status = get "status" data_ in
      if is_str status "OK"
      then verdict clean_verdict
      else if is_str status "FOUND"
      then verdict (record {
        kind = malware;
        reason = optional_text r (get "signature" data_);
        score = none;
        location = optional_text r (get "location" data_);
      })
      else if is_str status "PARTIAL"
      then verdict (partial_verdict (or_text r (get "category" data_) "UNSCANNABLE"))
      else if is_str status "ERROR"
      then scanner_error ("exav scan error: " <> or_text r (get "reason" data_) "unspecified")
      else scanner_error "exav returned an unknown status"

  abbrev pub of_json : Json F → Scanned F
  of_json not_json = scanner_error "exav returned a non-JSON reply"
  of_json no_dict = crashed "AttributeError"
  of_json (dict data_) = of_data data_

  -- _parse_verdict
  unfoldable pub parse_verdict : (String → Json F) → String → Scanned F
  unfolding of_data
  parse_verdict loads raw =
      if starts_with raw "UNKNOWN COMMAND"
      then scanner_error "exav does not support EXINSTREAM (upgrade the daemon)"
      else of_json (loads raw)

  -- ExavScanner.scan, of what `exinstream` does
  unfoldable pub exav_scan : (String → Json F) → Exinstream → Scanned F
  unfolding parse_verdict
  exav_scan loads (not_scanned why) = scanner_error ("exav scan failed: " <> why)
  exav_scan loads (raised why) = crashed why
  exav_scan loads (line raw) = parse_verdict loads raw

  -- What `self._client().exinstream(fileobj)` does, of a daemon that is sent frames.
  abbrev pub exinstream_of :
      (Endpoint → Bytes → Exinstream) → Result String Endpoint → Bytes → Exinstream
  exinstream_of daemons (err why) content = raised why
  exinstream_of daemons (ok daemon) content = daemons daemon (exinstream content)

  abbrev pub exav_built : Pools → (String → Json F) → (Endpoint → Bytes → Exinstream) → Engine F
  exav_built pools loads daemons = record {
    category = "malware";
    scored = Bool.false;
    scan = λ content.
        exav_scan loads (exinstream_of daemons (pool_member pools pools.exav_hosts) content);
  }

  -- ExavScanner, which is not built without hosts
  unfoldable pub exav_engine :
      Pools → (String → Json F) → (Endpoint → Bytes → Exinstream) → Result String (Engine F)
  unfolding exav_scan pool_member exinstream
  exav_engine pools loads daemons =
      if is_text pools.exav_hosts
      then ok (exav_built pools loads daemons)
      else err "exav backend requires EXAV_HOSTS (host:port,...)"
