-- ===== src/Engines/Clamav.antt =====
-- src/scanners/clamav.py. The clamd client and `random.choice` are parameters.
use file_scanner.Base.{
  ◌≡◌, refl, String, ◌<>◌, Bool, Option, none, some, List, [], ◌∷◌, any, if◌then◌else◌, Result, ok,
  err, ◌>>=◌, ◌==◌, starts_with,
}
use file_scanner.Base.Text.{is_text, strip, split}
use file_scanner.Base.Chars.{before, after, lower, has_text}
use file_scanner.Base.Value.{ℤ, pos}
use file_scanner.Encryption.{Bytes}
use file_scanner.Scanner.{clean_verdict, malware_verdict, partial_verdict}
use file_scanner.Scanner.Registry.{Engine, Scanned, verdict, scanner_error, crashed}

-- The port of an entry is read by `int`, which raises ValueError for `none`.
module _ (int_text : String → Option ℤ) where
  abbrev with_port : String → Option ℤ → Result String (String × ℤ)
  with_port host none = err "ValueError"
  with_port host (some port) = ok (host, port)

  -- `(host, int(port) if port else 3310)`
  abbrev endpoint : String → Result String (String × ℤ)
  endpoint entry =
      with_port (before b':' entry)
        (if is_text (after b':' entry) then int_text (after b':' entry) else some (pos 3310))

  abbrev parse_entries : List String → Result String (List (String × ℤ))
  parse_entries [] = ok []
  parse_entries (raw_entry ∷ rest) =
      let more = parse_entries rest in
      let entry = strip raw_entry in
      if is_text entry
      then (endpoint entry >>= λ host. more >>= λ hosts. ok (host ∷ hosts))
      else more

  -- parse_hosts
  parse_hosts : String → Result String (List (String × ℤ))
  unfolding before after strip split
  parse_hosts raw = parse_entries (split b',' raw)

-- `reason or ""`
abbrev pub or_empty : Option String → String
or_empty none = ""
or_empty (some s) = s

-- _is_transient
unfoldable pub is_transient : Option String → Bool
unfolding lower
is_transient reason =
    any (λ h. has_text h (lower (or_empty reason)))
      ("allocate" ∷ "time limit" ∷ "timeout" ∷ "no space" ∷ [])

-- What `instream` does: it raises one of the clamd client's errors or another exception, returns
-- nothing, or returns the pair of a reply.
pub data Instream : Type 0 where
  connection_error : String → Instream
  stream_closed : String → Instream
  raised : String → Instream
  no_reply : Instream
  replied : (status : String) → (reason : Option String) → Instream

-- ClamavScanner._LIMIT_HINT
abbrev limit_hint : String
limit_hint =
    "a file above clamd's StreamMaxLength? (raise CLAMD_CONF_StreamMaxLength / MaxFileSize / MaxScanSize past MAX_URL_SIZE)"

-- str(reason) in an f-string
abbrev shown : Option String → String
shown none = "None"
shown (some s) = s

module _ {F : Type 0} where
  -- _error_verdict
  unfoldable pub error_verdict : Option String → Scanned F
  unfolding is_transient partial_verdict
  error_verdict reason =
      if is_transient reason
      then scanner_error ("scan error: " <> shown reason)
      else verdict (partial_verdict "UNSCANNABLE")

  -- The end of `scan`, from the pair of a reply.
  abbrev pub of_reply : String → Option String → Scanned F
  of_reply status reason =
      if status == "OK"
      then verdict clean_verdict
      else if status == "ERROR"
      then error_verdict reason
      else if starts_with (or_empty reason) "Heuristics.Limits.Exceeded"
      then verdict (partial_verdict "LIMITS-EXCEEDED")
      else verdict (malware_verdict reason)

  -- ClamavScanner.scan, of what `instream` does
  unfoldable pub clamav_scan : Instream → Scanned F
  unfolding error_verdict clean_verdict malware_verdict
  clamav_scan (connection_error why) =
      scanner_error
        ("clamd connection failed: " <> why <> " — daemon unreachable, or " <> limit_hint)
  clamav_scan (stream_closed why) =
      scanner_error ("clamd closed the stream mid-scan: " <> limit_hint <> ": " <> why)
  clamav_scan (raised why) = crashed why
  clamav_scan no_reply = scanner_error ("clamd sent no reply: " <> limit_hint)
  clamav_scan (replied status reason) = of_reply status reason

-- The daemon that `_client` connects to.
pub data Endpoint : Type 0 where
  unix_socket : String → Endpoint
  network : String → ℤ → Endpoint

abbrev of_choice : Option (String × ℤ) → Result String Endpoint
of_choice none = err "IndexError"
of_choice (some (host, port)) = ok (network host port)

-- The settings of the two daemons, and `random.choice`, of which `none` is an IndexError.
pub record Pools : Type 0 where
  pub clamav_socket : String
  pub clamav_hosts : String
  pub exav_hosts : String
  pub int_text : String → Option ℤ
  pub choice : List (String × ℤ) → Option (String × ℤ)

-- A host of a pool, as the two `_client` methods choose it.
unfoldable pub pool_member : Pools → String → Result String Endpoint
unfolding parse_hosts
pool_member pools raw = parse_hosts pools.int_text raw >>= λ hosts. of_choice (pools.choice hosts)

-- ClamavScanner._client, over ClamavScanner._endpoints
pub clamav_client : Pools → Result String Endpoint
unfolding pool_member
clamav_client pools =
    if is_text pools.clamav_socket
    then ok (unix_socket pools.clamav_socket)
    else pool_member pools pools.clamav_hosts

-- What `self._client().instream(fileobj)` does: that no client is made is an exception like another.
abbrev pub instream_of : (Endpoint → Bytes → Instream) → Result String Endpoint → Bytes → Instream
instream_of instream (err why) content = raised why
instream_of instream (ok daemon) content = instream daemon content

-- ClamavScanner, over the daemons' `instream`
unfoldable pub clamav_engine : {F : Type 0} → Pools → (Endpoint → Bytes → Instream) → Engine F
unfolding clamav_scan clamav_client
clamav_engine pools instream = record {
  category = "malware";
  scored = Bool.false;
  scan = λ content. clamav_scan (instream_of instream (clamav_client pools) content);
}

hosts_test : parse_hosts (λ s. none) "av1 , ,av2" ≡ ok (("av1", pos 3310) ∷ ("av2", pos 3310) ∷ [])
unfolding parse_hosts
hosts_test = refl
