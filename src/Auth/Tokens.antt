-- ===== src/Auth/Tokens.antt =====
-- src/jwt_auth.py: signing a token, verifying one, and what a token binds.
use file_scanner.Base.{
  ℕ, suc, ◌+◌, String, ◌<>◌, Bool, true, false, not, ◌&&◌, Option, none, some, [], ◌∷◌, is_nonempty,
  is_some, ltb, nat_eq, if◌then◌else◌, Result, ok, err, raise_if, ◌>>=◌, ◌>>◌,
}
use file_scanner.Base.Dict.{Dict, get, set, update}
use file_scanner.Base.Text.{is_text}
use file_scanner.Base.Chars.{upper}
use file_scanner.Base.Value.{
  is_str, ℤ, pos, negsuc, Value, bool, int, float, str, arr, obj, nil, cons, fields,
}
use file_scanner.Encryption.{Bytes}
use file_scanner.Auth.{
  Failure, expired_signature, invalid_audience, missing_required_claim, invalid_algorithm,
  invalid_signature, other_failure, Library, JwtSettings, JwtError, no_signing_key, malformed_token,
  token_expired, wrong_audience, missing_claim, algorithm_not_allowed, bad_signature, invalid_token,
  lifetime_exceeds, htm_mismatch, htu_mismatch, bh_mismatch, unknown_issuer, unhashable,
}
use file_scanner.Auth.Keys.{b64url_encode}

-- The `except` clauses of `decode`.
abbrev jwt_error : Failure → JwtError
jwt_error expired_signature = token_expired
jwt_error invalid_audience = wrong_audience
jwt_error missing_required_claim = missing_claim
jwt_error invalid_algorithm = algorithm_not_allowed
jwt_error invalid_signature = bad_signature
jwt_error other_failure = invalid_token

-- `exp - iat > most` of two ints
abbrev later_than : ℤ → ℤ → ℕ → Bool
later_than (pos e) (pos i) most = ltb (i + most) e
later_than (pos e) (negsuc i) most = ltb most (e + suc i)
later_than (negsuc e) (pos i) most = false
later_than (negsuc e) (negsuc i) most = ltb (e + most) i

-- A number without a fraction, where a bool is an int.
abbrev as_int : {F : Type 0} → Value F → Option ℤ
as_int (int n) = some n
as_int (bool false) = some (pos 0)
as_int (bool true) = some (pos 1)
as_int _ = none

-- `isinstance(v, (int, float))`
abbrev is_number : {F : Type 0} → Option (Value F) → Bool
is_number (some (int n)) = true
is_number (some (float x)) = true
is_number (some (bool b)) = true
is_number _ = false

abbrev or_default : {A : Type 0} → Option A → A → A
or_default none a = a
or_default (some b) a = b

-- request_target
unfoldable pub request_target : String → String → String → String × String
request_target method path query =
    (upper method, path <> (if is_text query then "?" <> query else ""))

-- Without a key id there is no header for it.
abbrev pub kid : String → Option String
kid s = if is_text s then some s else none

-- `body or b""`
abbrev pub body_or_empty : Option Bytes → Bytes
body_or_empty none = []
body_or_empty (some body) = body

module _ {F : Type 0} (lib : Library F) where
  open lib use {
    Public, Private, public_key, to_jwk, sha256, unverified, verified, signed, float_exceeds,
  }

  abbrev exceeds_at : Option ℤ → Option ℤ → Value F → Value F → ℕ → Bool
  exceeds_at (some e) (some i) x y most = later_than e i most
  exceeds_at _ _ x y most = float_exceeds x y most

  abbrev exceeds : Option (Value F) → Option (Value F) → ℕ → Bool
  exceeds (some x) (some y) most = exceeds_at (as_int x) (as_int y) x y most
  exceeds _ _ most = false

  -- The cap on `exp - iat`, of claims that are numbers.
  unfoldable pub too_long : Dict (Value F) → ℕ → Bool
  too_long claims most =
      let iat = get "iat" claims in
      let exp = get "exp" claims in
      not (nat_eq most 0) && is_number iat && is_number exp && exceeds exp iat most

  abbrev pub known : String → Option Public → Result JwtError Public
  known iss none = err (unknown_issuer (some iss))
  known iss (some key) = ok key

  -- `keys.get(iss)` of the claim, where None and a number are no key of the dict.
  abbrev pub issuer_key : Dict Public → Option (Value F) → Result JwtError Public
  issuer_key keys (some (str iss)) = known iss (get iss keys)
  issuer_key keys (some (arr vs)) = err unhashable
  issuer_key keys (some (obj fs)) = err unhashable
  issuer_key keys _ = err (unknown_issuer none)

  abbrev pub checked : Result Failure (Dict (Value F)) → ℕ → Result JwtError (Dict (Value F))
  checked (err why) most = err (jwt_error why)
  checked (ok claims) most = raise_if (too_long claims most) lifetime_exceeds >> ok claims

  abbrev pub decode_with :
      Dict Public
      → String
      → ℕ
      → ℕ
      → String
      → Option (Dict (Value F))
      → Result JwtError (Dict (Value F))
  decode_with keys audience max_age leeway token none = err malformed_token
  decode_with keys audience max_age leeway token (some shown) =
      issuer_key keys (get "iss" shown) >>= λ key.
      checked (verified key audience leeway token) max_age

  -- decode, of which `loaded` is `_ISSUER_KEYS`
  unfoldable pub decode :
      JwtSettings
      → Dict Public
      → Option (Dict Public)
      → Option String
      → Option ℕ
      → Option ℕ
      → String
      → Result JwtError (Dict (Value F))
  unfolding too_long
  decode settings loaded issuer_keys audience max_age leeway token =
      decode_with (or_default issuer_keys loaded) (or_default audience settings.jwt_audience)
        (or_default max_age settings.jwt_max_age) (or_default leeway settings.jwt_leeway) token
        (unverified token)

  -- body_hash
  unfoldable pub body_hash : Bytes → String
  unfolding b64url_encode
  body_hash raw = b64url_encode lib (sha256 raw)

  -- check_binding
  unfoldable pub check_binding :
      Dict (Value F) → String → String → Option Bytes → Bool → Result JwtError (Unit {0})
  unfolding body_hash
  check_binding payload method htu body require_body =
      raise_if (not (is_str (get "htm" payload) method)) htm_mismatch
      >> raise_if (not (is_str (get "htu" payload) htu)) htu_mismatch
      >> raise_if (require_body && not (is_str (get "bh" payload) (body_hash (body_or_empty body))))
          bh_mismatch

  abbrev encode_with : JwtSettings → Dict (Value F) → Option Private → Result JwtError String
  encode_with settings payload none = err no_signing_key
  encode_with settings payload (some key) = ok (signed key (kid settings.jwt_signing_kid) payload)

  abbrev or_key : Option Private → Option Private → Option Private
  or_key none loaded = loaded
  or_key (some key) loaded = some key

  -- encode, of which `loaded` is `_PRIVATE_KEY`
  unfoldable pub encode :
      JwtSettings → Option Private → Dict (Value F) → Option Private → Result JwtError String
  encode settings loaded payload private_key =
      encode_with settings payload (or_key private_key loaded)

  -- What `sign_webhook` signs, `issued` seconds after the epoch.
  abbrev pub webhook_claims : JwtSettings → String → Bytes → ℕ → Dict (Value F)
  webhook_claims settings webhook_url body issued =
      ("iss", str settings.jwt_issuer)
      ∷ ("aud", str webhook_url)
      ∷ ("iat", int (pos issued))
      ∷ ("exp", int (pos (issued + settings.jwt_max_age)))
      ∷ ("htm", str "POST")
      ∷ ("htu", str webhook_url)
      ∷ ("bh", str (body_hash body))
      ∷ []

  -- sign_webhook
  unfoldable pub sign_webhook :
      JwtSettings → Option Private → String → Bytes → ℕ → Result JwtError (Option String)
  unfolding encode
  sign_webhook settings loaded webhook_url body issued =
      if not (is_some loaded)
      then ok none
      else encode settings loaded (webhook_claims settings webhook_url body issued) none
        >>= λ token. ok (some token)

  abbrev named : JwtSettings → Dict (Value F) → Dict (Value F)
  named settings jwk =
      if is_text settings.jwt_signing_kid then set "kid" (str settings.jwt_signing_kid) jwk else jwk

  -- public_jwk
  unfoldable pub public_jwk : JwtSettings → Option Private → Dict (Value F)
  public_jwk settings none = []
  public_jwk settings (some key) =
      named settings
        (update (to_jwk (public_key key)) (("use", str "sig") ∷ ("alg", str "EdDSA") ∷ []))

  -- jwks
  unfoldable pub jwks : JwtSettings → Option Private → Dict (Value F)
  unfolding public_jwk
  jwks settings loaded =
      let jwk = public_jwk settings loaded in
      ("keys", arr (if is_nonempty jwk then cons (obj (fields jwk)) nil else nil)) ∷ []
