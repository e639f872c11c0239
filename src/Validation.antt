-- ===== src/Validation.antt =====
-- src/validation.py: the host allowlist and the guard of the URLs of a job. `urlparse`, `str.lower`
-- and the vendored `ssrf.validate_hostname` are parameters.
pub mod Policy
use file_scanner.Base.{
  String, Bool, true, false, not, ◌||◌, Option, none, some, List, [], ◌∷◌, map, contains,
  is_nonempty, if◌then◌else◌, Result, ok, err, ◌>>=◌, ◌>>◌, raise_if, ◌<>◌,
}
use file_scanner.Base.Text.{is_text, comma_list}
use file_scanner.Download.{Fault, ssrf}

-- `urlparse(url).hostname`, with the `ValueError` of a malformed URL as a fault; `str.lower()`; and
-- `validate_hostname`, which raises `SSRFValidationError`.
pub record Hosts : Type 0 where
  pub hostname : String → Result Fault (Option String)
  pub lower : String → String
  pub validate_hostname : String → Result Fault (Unit {0})

pub record Policed : Type 0 where
  pub allowed_url_hosts : String
  pub testing : Bool

-- `(hostname or "")`
abbrev pub host_text : Option String → String
host_text none = ""
host_text (some h) = h

module _ (hosts : Hosts) (s : Policed) where
  -- The allowlist, trimmed and in lower case.
  abbrev pub allowed : List String
  allowed = map hosts.lower (comma_list s.allowed_url_hosts)

  -- host_allowed
  unfoldable pub host_allowed : String → Bool
  unfolding comma_list
  host_allowed hostname =
      not (is_text s.allowed_url_hosts)
      || not (is_nonempty allowed)
      || contains allowed (hosts.lower hostname)

  -- The guard of the webhook's host.
  pub check_webhook : String → Result Fault (Unit {0})
  check_webhook webhook_url = do
    webhook_host ← hosts.hostname webhook_url
    raise_if (not (is_text (host_text webhook_host)))
        (ssrf "invalid webhook_url (missing hostname)")
    hosts.validate_hostname (host_text webhook_host)

  -- assert_scannable. A webhook URL that is absent is empty.
  unfoldable pub assert_scannable : String → String → Result Fault (Unit {0})
  unfolding host_allowed check_webhook
  assert_scannable url webhook_url = do
    parsed ← hosts.hostname url
    raise_if (not (is_text (host_text parsed))) (ssrf "invalid url (missing hostname)")
    raise_if (not (host_allowed (host_text parsed)))
        (ssrf ("host " <> host_text parsed <> " not allowed"))
    if s.testing then ok tt else do
      hosts.validate_hostname (host_text parsed)
      if is_text webhook_url then check_webhook webhook_url else ok tt
