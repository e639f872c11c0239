-- ===== src/Auth/Requests.antt =====
-- src/app.py: `_authenticate`, the gate of the two scan endpoints and of the job status, and
-- `verify_prometheus`, the gate of the metrics.
use Prim.Native.Nat.{◌-◌}
use Prim.Native.Char.{code}
use file_scanner.Base.{
  ℕ, ◌+◌, ◌*◌, String, ◌<>◌, Bool, true, false, not, ◌&&◌, ◌||◌, Option, none, some, length, ltb,
  leb, nat_eq, if◌then◌else◌, Result, ok, err, raise_if, ◌>>=◌, ◌>>◌, ◌==◌, starts_with,
}
use file_scanner.Base.Dict.{Dict, get}
use file_scanner.Base.Text.{is_text, strip}
use file_scanner.Base.Chars.{drop_chars, is_ascii}
use file_scanner.Base.Value.{Value}
use file_scanner.Encryption.{Bytes}
use file_scanner.Auth.{Library, JwtSettings, JwtError, unhashable}
use file_scanner.Auth.Tokens.{request_target, decode, check_binding}

-- JSON_MAX_BODY_SIZE
abbrev pub json_max_body_size : ℕ
json_max_body_size = 64 * 1024

-- What the gates read of a request. An absent header is `none`, and headers are decoded as latin-1.
pub record HttpRequest : Type 0 where
  pub method : String
  pub path : String
  pub query : String
  pub content_length : Option String
  pub authorization : Option String
  pub body : Bytes

-- An HTTPException with its status, or an exception that nothing catches.
pub data Denied : Type 0 where
  denied : ℕ → Denied
  crashed : Denied

-- A latin-1 character of which `isdigit` holds: a decimal digit, or a superscript, which is no digit
-- of `int`.
abbrev superscript : ℕ → Bool
superscript c = nat_eq c 178 || nat_eq c 179 || nat_eq c 185

abbrev decimal_digit : ℕ → Bool
decimal_digit c = leb b'0' c && leb c b'9'

abbrev digits_only : String → Bool
digits_only String.[] = true
digits_only (String.◌∷◌ c s) = (decimal_digit (code c) || superscript (code c)) && digits_only s

-- s.isdigit()
abbrev is_digits : String → Bool
is_digits s = is_text s && digits_only s

digits_from : ℕ → String → Option ℕ
digits_from n String.[] = some n
digits_from n (String.◌∷◌ c s) =
    if decimal_digit (code c) then digits_from (10 * n + (code c - b'0')) s else none

-- int(s) of digits, where `none` is a ValueError
unfoldable pub int_of : String → Option ℕ
unfolding digits_from
int_of s = digits_from 0 s

abbrev pub header : Option String → String
header none = ""
header (some s) = s

abbrev over_cap : Option ℕ → Result Denied (Unit {0})
over_cap none = err crashed
over_cap (some n) = raise_if (ltb json_max_body_size n) (denied 413)

-- The check of the Content-Length header.
abbrev pub check_length : Option String → Result Denied (Unit {0})
check_length none = ok tt
check_length (some cl) = if is_digits cl then over_cap (int_of cl) else ok tt

-- `except jwt_auth.JWTError as exc: raise HTTPException(401, …)`
abbrev pub unauthorized : {A : Type 0} → Result JwtError A → Result Denied A
unauthorized (ok a) = ok a
unauthorized (err unhashable) = err crashed
unauthorized (err why) = err (denied 401)

-- `payload["iss"]`
abbrev pub identity : {F : Type 0} → Option (Value F) → Result Denied (Value F)
identity none = err crashed
identity (some iss) = ok iss

-- The token of the Authorization header.
abbrev pub bearer_token : HttpRequest → String
bearer_token request = strip (drop_chars 7 (header request.authorization))

-- The body is read, and its length checked, only if it is to be bound.
abbrev pub check_body : Bool → Bytes → Result Denied (Unit {0})
check_body bind_body body =
    raise_if (bind_body && ltb json_max_body_size (length body)) (denied 413)

-- The checks before any token is read.
abbrev pub gates : HttpRequest → Bool → Result Denied (Unit {0})
gates request bind_body =
    (if bind_body then check_length request.content_length else ok tt)
    >> raise_if (not (starts_with (header request.authorization) "Bearer ")) (denied 401)

module _ {F : Type 0} (lib : Library F) (settings : JwtSettings) (issuers : Dict lib.Public) where
  abbrev pub bound : HttpRequest → Bool → Dict (Value F) → Result Denied (Unit {0})
  bound request bind_body payload =
      let target = request_target request.method request.path request.query in
      check_body bind_body request.body
      >> unauthorized (
          check_binding lib payload target.0 target.1
            (if bind_body then some request.body else none) bind_body)

  abbrev pub identified : HttpRequest → Bool → Dict (Value F) → Result Denied (Value F)
  identified request bind_body payload =
      bound request bind_body payload >> identity (get "iss" payload)

  -- The `try` of `_authenticate`.
  abbrev pub verify_token : HttpRequest → Bool → Result Denied (Value F)
  verify_token request bind_body =
      unauthorized (decode lib settings issuers none none none none (bearer_token request))
      >>= identified request bind_body

  -- _authenticate
  unfoldable pub authenticate : HttpRequest → Bool → Result Denied (Value F)
  unfolding decode check_binding
  authenticate request bind_body = gates request bind_body >> verify_token request bind_body

  -- auth_sync and auth_async
  abbrev pub auth_sync : HttpRequest → Result Denied (Value F)
  auth_sync request = authenticate request false

  abbrev pub auth_async : HttpRequest → Result Denied (Value F)
  auth_async request = authenticate request true

-- hmac.compare_digest of two texts, where `none` is the TypeError of a text that is not ASCII
unfoldable pub compare_digest : String → String → Option Bool
compare_digest a b = if is_ascii a && is_ascii b then some (a == b) else none

abbrev same_key : Option Bool → Result Denied (Unit {0})
same_key none = err crashed
same_key (some equal) = raise_if (not equal) (denied 401)

-- verify_prometheus
unfoldable pub verify_prometheus : String → Option String → Result Denied (Unit {0})
unfolding compare_digest
verify_prometheus prometheus_api_key authorization =
    if is_text prometheus_api_key
    then same_key (compare_digest (header authorization) ("Bearer " <> prometheus_api_key))
    else ok tt
