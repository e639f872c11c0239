-- ===== src/Engines/Jcop.antt =====
-- src/scanners/jcop.py: the backend of the "Je Clique Ou Pas" service. The service, the clock and
-- SHA-256 are a state with operations; times are ticks of the monotonic clock.
-- The message of a timeout leaves the number of seconds out.
use file_scanner.Base.{
  ℕ, zero, suc, ◌+◌, ◌-◌, String, ◌<>◌, Bool, true, false, not, ◌||◌, Option, none, some, leb, ltb,
  nat_eq, if◌then◌else◌, Result, ok, err,
}
use file_scanner.Base.Dict.{Dict, get}
use file_scanner.Base.Text.{is_text, decimal}
use file_scanner.Base.Chars.{rstrip_char}
use file_scanner.Base.Value.{Value, bool, int, float, pos}
use file_scanner.Encryption.{Bytes}
use file_scanner.Scanner.{Verdict, clean_verdict, malware_verdict, partial_verdict}
use file_scanner.Scanner.Registry.{Scanned, verdict, scanner_error, crashed}
use file_scanner.Engines.{Rendering, truth, text, or_text}

-- A response: its status, and its JSON body if it is a dict.
pub record Response (F : Type 0) : Type 0 where
  pub status : ℕ
  pub content : Option (Dict (Value F))

-- What the code calls: `time.monotonic`, `time.sleep`, the GET of a result by its key and the POST
-- of a file within a time, which may raise a RequestException.
pub record Service (F W : Type 0) : Type 0 where
  pub now : W → ℕ
  pub sleep : ℕ → W → W
  pub lookup : String → W → Result String (Response F) × W
  pub post : Bytes → ℕ → W → Result String (Response F) × W
  pub sha256_hex : Bytes → String

pub record JcopSettings : Type 0 where
  pub jcop_base_url : String
  pub jcop_api_key : String
  pub jcop_submit_timeout : ℕ
  pub jcop_poll_interval : ℕ

-- What a scan raises: a ScannerError, or another exception, which is named by its class.
pub data Trouble : Type 0 where
  failed : String → Trouble
  unforeseen : String → Trouble

-- A step of `_analyse`: it has the content, raises, or goes on.
pub data Step (A : Type 0) : Type 0 where
  done : A → Step A
  raised : Trouble → Step A
  poll : String → Step A

-- __init__, which raises RuntimeError
unfoldable pub jcop_init : JcopSettings → Result String JcopSettings
unfolding rstrip_char
jcop_init settings =
    let base_url = rstrip_char b'/' settings.jcop_base_url in
    if not (is_text base_url) || not (is_text settings.jcop_api_key)
    then err "JCOP backend requires JCOP_BASE_URL and JCOP_API_KEY"
    else ok (record settings { jcop_base_url = base_url })

-- ping: any answer below 500 to a lookup
unfoldable pub jcop_ping : {F : Type 0} → Result String (Response F) → Bool
jcop_ping (err why) = false
jcop_ping (ok response) = ltb response.status 500

module _ {F : Type 0} (r : Rendering F) where
  -- `error_code == 413`
  abbrev is_too_large : Option (Value F) → Bool
  is_too_large (some (int (pos n))) = nat_eq n 413
  is_too_large (some (float x)) = r.is_413 x
  is_too_large _ = false

  abbrev pub is_bool : Bool → Option (Value F) → Bool
  is_bool true (some (bool b)) = b
  is_bool false (some (bool b)) = not b
  is_bool b _ = false

  -- _verdict
  unfoldable pub jcop_verdict : Dict (Value F) → Verdict F
  unfolding clean_verdict malware_verdict partial_verdict
  jcop_verdict content =
      let is_malware = get "is_malware" content in
      if is_bool true is_malware
      then malware_verdict (some (or_text r (get "error" content) "malware"))
      else if is_bool false is_malware
      then clean_verdict
      else if is_too_large (get "error_code" content)
      then partial_verdict "LIMITS-EXCEEDED"
      else partial_verdict "UNSCANNABLE"

  -- A 200: the content if it is done, and else the key to poll.
  abbrev pub finished : String → Option (Dict (Value F)) → Step (Dict (Value F))
  finished key none = raised (unforeseen "AttributeError")
  finished key (some content) = if truth r (get "done" content) then done content else poll key

  -- `r.json()["id"]`
  abbrev submitted : Option (Value F) → Step (Dict (Value F))
  submitted none = raised (unforeseen "KeyError")
  submitted (some id) = poll (text r id)

  abbrev pub id_of : Option (Dict (Value F)) → Step (Dict (Value F))
  id_of none = raised (unforeseen "TypeError")
  id_of (some content) = submitted (get "id" content)

  -- What a round makes of its response: a status other than 200 and 401 polls on.
  abbrev pub of_round : String → Result String (Response F) → Step (Dict (Value F))
  of_round key (err why) = raised (failed ("JCOP results request failed: " <> why))
  of_round key (ok response) =
      if nat_eq response.status 200
      then finished key response.content
      else if nat_eq response.status 401
      then raised (failed "JCOP rejected the request: invalid API key")
      else poll key

  -- What `_submit` makes of its response.
  abbrev pub of_post : Result String (Response F) → Step (Dict (Value F))
  of_post (err why) = raised (failed ("JCOP submit failed: " <> why))
  of_post (ok response) =
      if nat_eq response.status 200
      then id_of response.content
      else if nat_eq response.status 401
      then raised (failed "JCOP submit rejected: invalid API key")
      else raised (failed ("JCOP submit failed: HTTP " <> decimal response.status))

  abbrev pub of_ended : Option (Result Trouble (Dict (Value F))) → Option (Scanned F)
  of_ended none = none
  of_ended (some (ok content)) = some (verdict (jcop_verdict content))
  of_ended (some (err (failed why))) = some (scanner_error why)
  of_ended (some (err (unforeseen why))) = some (crashed why)

  module _ {W : Type 0} (service : Service F W) (settings : JcopSettings) where
    open service use {now, sleep, lookup, post, sha256_hex}

    -- _submit
    abbrev pub submit : Bytes → ℕ → W → Step (Dict (Value F)) × W
    submit content deadline w =
        if leb deadline (now w)
        then (raised (failed "JCOP budget exhausted before submit"), w)
        else let sent = post content (deadline - now w) w in (of_post sent.0, sent.1)

    abbrev pub of_lookup :
        String → Bytes → ℕ → Result String (Response F) → W → Step (Dict (Value F)) × W
    of_lookup key content deadline (err why) w =
        (raised (failed ("JCOP results request failed: " <> why)), w)
    of_lookup key content deadline (ok response) w =
        if nat_eq response.status 200
        then (finished key response.content, w)
        else if nat_eq response.status 404
        then submit content deadline w
        else if nat_eq response.status 401
        then (raised (failed "JCOP rejected the request: invalid API key"), w)
        else (raised (failed ("JCOP results lookup failed: HTTP " <> decimal response.status)), w)

    -- How `_analyse` ends.
    abbrev pub Ended : Type 0
    Ended = Result Trouble (Dict (Value F))

    -- One round of the loop: the sleep and the GET.
    abbrev pub round : String → W → Result String (Response F) × W
    round key w = lookup key (sleep settings.jcop_poll_interval w)

    -- A step that goes on does so with the key to poll.
    abbrev pub go_on :
        (String → W → Option Ended × W) → Step (Dict (Value F)) → W → Option Ended × W
    go_on next (done content) w = (some (ok content), w)
    go_on next (raised trouble) w = (some (err trouble), w)
    go_on next (poll key) w = next key w

    -- The test of the loop, and what follows.
    abbrev pub turn : Bool → (String → W → Option Ended × W) → String → W → Option Ended × W
    turn true next key w = go_on next (of_round key (round key w).0) (round key w).1
    turn false next key w = (some (err (failed "JCOP analysis did not complete in time")), w)

    -- The loop of `_analyse`, on fuel. `none` is fuel that runs out.
    unfoldable pub poll_until : ℕ → ℕ → String → W → Option Ended × W
    poll_until zero deadline key w = (none, w)
    poll_until (suc fuel) deadline key w =
        turn (ltb (now w) deadline) (poll_until fuel deadline) key w

    -- Before the loop.
    abbrev pub first_step : Bytes → ℕ → W → Step (Dict (Value F)) × W
    first_step content deadline w =
        let found = lookup (sha256_hex content) w in
        of_lookup (sha256_hex content) content deadline found.0 found.1

    -- _analyse: every round takes a tick at least, so that there are fewer rounds than ticks to the
    -- deadline.
    unfoldable pub analyse : Bytes → W → Option Ended × W
    unfolding poll_until
    analyse content w =
        let deadline = now w + settings.jcop_submit_timeout in
        let first = first_step content deadline w in
        go_on (poll_until (suc settings.jcop_submit_timeout) deadline) first.0 first.1

    -- JcopScanner.scan
    unfoldable pub jcop_scan : Bytes → W → Option (Scanned F) × W
    unfolding analyse jcop_verdict
    jcop_scan content w = let ended = analyse content w in (of_ended ended.0, ended.1)
