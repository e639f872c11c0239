-- ===== src/Auth.antt =====
-- src/jwt_auth.py: the keys that the service loads, its tokens, and what a token binds. PyJWT,
-- the Ed25519 keys, base64 and SHA-256 are parameters.
pub mod Keys
pub mod Tokens
pub mod Requests
pub mod Issuers
pub mod Minting
pub mod Binding
pub mod Callbacks
use file_scanner.Base.{ℕ, String, Bool, Option, Result}
use file_scanner.Base.Dict.{Dict}
use file_scanner.Base.Value.{Value}
use file_scanner.Encryption.{Bytes}

-- The classes of PyJWTError that `decode` tells apart.
pub data Failure : Type 0 where
  expired_signature invalid_audience missing_required_claim : Failure
  invalid_algorithm invalid_signature other_failure : Failure

-- What the code calls. Of `jwt.decode`, `unverified` is the call without a signature check, where
-- `none` is a PyJWTError, and `verified` the call with a key, an audience and a leeway. `signed` is
-- `jwt.encode` with a key and a key id. In `b64decode`, `none` is a `binascii.Error`, and
-- `float_exceeds` is `exp - iat > most` of two numbers, one of which is a float.
pub record Library (F : Type 0) : Type 1 where
  pub Public : Type 0
  pub Private : Type 0
  pub public_of : Bytes → Public
  pub private_of : Bytes → Private
  pub public_key : Private → Public
  pub to_jwk : Public → Dict (Value F)
  pub b64decode : String → Option Bytes
  pub b64encode : Bytes → String
  pub sha256 : Bytes → Bytes
  pub unverified : String → Option (Dict (Value F))
  pub verified : Public → String → ℕ → String → Result Failure (Dict (Value F))
  pub signed : Private → Option String → Dict (Value F) → String
  pub float_exceeds : Value F → Value F → ℕ → Bool

pub record JwtSettings : Type 0 where
  pub jwt_signing_key : String
  pub jwt_signing_kid : String
  pub jwt_issuer : String
  pub jwt_issuer_keys : String
  pub jwt_audience : String
  pub jwt_max_age : ℕ
  pub jwt_leeway : ℕ

-- JWTError, with a constructor for each place that raises it, and the TypeError of a dict looked up
-- under a list or a dict.
pub data JwtError : Type 0 where
  no_signing_key malformed_token token_expired wrong_audience missing_claim : JwtError
  algorithm_not_allowed bad_signature invalid_token lifetime_exceeds : JwtError
  htm_mismatch htu_mismatch bh_mismatch : JwtError
  unknown_issuer : Option String → JwtError
  unhashable : JwtError

-- _PRIVATE_KEY and _ISSUER_KEYS
pub record LoadedKeys (Public Private : Type 0) : Type 0 where
  pub private : Option Private
  pub issuers : Dict Public
