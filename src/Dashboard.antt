-- ===== src/Dashboard.antt =====
-- src/dashboard.py, the guard of the queue dashboard, and `_mount_dashboard` of src/app.py. The
-- dashboard itself, `ipaddress` and base64 are parameters.
pub mod Guarded
use file_scanner.Base.{
  String, ◌<>◌, Bool, true, false, not, ◌&&◌, ◌||◌, Option, none, some, List, [], ◌∷◌, head?, any,
  is_nonempty, if◌then◌else◌, Result, ok, err, ◌>>=◌, starts_with, ◌==◌,
}
use file_scanner.Base.Dict.{Dict, get}
use file_scanner.Base.Text.{is_text, strip, split}
use file_scanner.Base.Chars.{
  before, after, drop_chars, upper, replace_char, lstrip_char, rstrip_char,
}
use file_scanner.Auth.Requests.{compare_digest, header}

pub record DashboardSettings : Type 0 where
  pub worker_dashboard_user : String
  pub worker_dashboard_password : String
  pub worker_dashboard_path : String
  pub worker_dashboard_allowed_ips : String
  pub worker_dashboard_forwarded_ip_header : String

-- `base64.b64decode(…).decode()`: a text, one of the two errors that are caught, or the ValueError of
-- a text that is not ASCII.
pub data Decoded : Type 0 where
  decoded : String → Decoded
  undecodable : Decoded
  not_ascii : Decoded

-- What the code calls, where `none` is a ValueError.
pub record Addresses : Type 1 where
  pub Network : Type 0
  pub Address : Type 0
  pub ip_network : String → Option Network
  pub ip_address : String → Option Address
  pub member : Address → Network → Bool
  pub b64decode : String → Decoded

-- How a request ends: a status of the guard's, what the dashboard answers, or an exception, which is
-- named by its class.
pub data GuardedReply (A : Type 0) : Type 0 where
  deny : (status : String) → (message : String) → GuardedReply A
  passed : A → GuardedReply A
  uncaught : String → GuardedReply A

abbrev first : List String → String
first [] = ""
first (v ∷ vs) = v

abbrev pub digest : Option Bool → Result String Bool
digest none = err "TypeError"
digest (some equal) = ok equal

abbrev pub of_test :
    {A : Type 0} → Result String Bool → GuardedReply A → GuardedReply A → GuardedReply A
of_test (err why) refused next = uncaught why
of_test (ok false) refused next = refused
of_test (ok true) refused next = next

module _ (settings : DashboardSettings) where
  -- client_ip, of the WSGI environ
  unfoldable pub client_ip : Dict String → Option String
  unfolding upper replace_char strip split get
  client_ip environ =
      let name = strip settings.worker_dashboard_forwarded_ip_header in
      let value = header (get ("HTTP_" <> replace_char b'-' "_" (upper name)) environ) in
      if is_text name && is_text value
      then some (strip (first (split b',' value)))
      else get "REMOTE_ADDR" environ

  module _ (a : Addresses) where
    open a use {Network, Address, ip_network, ip_address, member, b64decode}

    abbrev networks : List String → Result String (List Network)
    networks [] = ok []
    networks (raw ∷ rest) =
        let more = networks rest in
        let entry = strip raw in
        if is_text entry
        then (network (ip_network entry) >>= λ net. more >>= λ nets. ok (net ∷ nets))
        else more
      where
        network : Option Network → Result String Network
        network none = err "ValueError"
        network (some net) = ok net

    -- _allowed_networks
    unfoldable pub allowed_networks : Result String (List Network)
    unfolding strip split
    allowed_networks = networks (split b',' settings.worker_dashboard_allowed_ips)

    abbrev pub in_some : List Network → Option Address → Bool
    in_some nets none = false
    in_some nets (some ip) = any (member ip) nets

    -- ip_allowed
    unfoldable pub ip_allowed : Option String → Result String Bool
    unfolding allowed_networks
    ip_allowed host = allowed_networks >>= λ nets.
        ok (not (is_nonempty nets) || in_some nets (ip_address (header host)))

    -- The comparisons of `authorized`.
    abbrev pub compared : String → String → Result String Bool
    compared user password =
        digest (compare_digest password settings.worker_dashboard_password) >>= λ ok_password.
        (if is_text settings.worker_dashboard_user
          then digest (compare_digest user settings.worker_dashboard_user)
          else ok true)
        >>= λ ok_user. ok (ok_user && ok_password)

    abbrev pub credentials : Decoded → Result String Bool
    credentials (decoded text) = compared (before b':' text) (after b':' text)
    credentials undecodable = ok false
    credentials not_ascii = err "ValueError"

    -- authorized
    unfoldable pub authorized : Option String → Result String Bool
    unfolding compare_digest before after
    authorized auth_header =
        if not (is_text settings.worker_dashboard_password)
        then ok false
        else if not (starts_with (header auth_header) "Basic ")
        then ok false
        else credentials (b64decode (drop_chars 6 (header auth_header)))

    -- Guard.__call__, over the dashboard
    unfoldable pub guard : {A : Type 0} → (Dict String → A) → Dict String → GuardedReply A
    unfolding client_ip ip_allowed authorized
    guard app environ =
        of_test (ip_allowed (client_ip environ)) (deny "403 Forbidden" "Forbidden\n") (
          of_test (authorized (get "HTTP_AUTHORIZATION" environ))
            (deny "401 Unauthorized" "Unauthorized\n") (passed (app environ)))

  -- _mount_dashboard: the path of the mount, unless there is no password or the dashboard does not
  -- build.
  unfoldable pub mount_dashboard : Bool → Option String
  unfolding strip lstrip_char rstrip_char
  mount_dashboard builds =
      let name = rstrip_char b'/' (lstrip_char b'/' (strip settings.worker_dashboard_path)) in
      if is_text settings.worker_dashboard_password && builds
      then some ("/" <> (if is_text name then name else "dashboard"))
      else none
