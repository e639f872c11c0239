-- ===== src/Tests/Tokens.antt =====
-- Callers, their tokens and the requests that carry them.
use file_scanner.Auth.Callbacks.{callback_claims, deliver_webhook-check_binding}
use file_scanner.Tasks.{Webhook}
use file_scanner.Tasks.Callback.{Request, responded, delivered, deliver_webhook}
use file_scanner.Base.{
  ◌≤◌, ◌+◌, ◌<>◌, ◌↔◌, ◌>>=◌, false, ℕ, zero, suc, String, ◌≡◌, refl, inr, true, false, none, some,
  [], ◌∷◌, if◌then◌else◌, ok, err, ◌==◌, arith,
}
use file_scanner.Base.Dict.{update, Dict, get, set}
use file_scanner.Base.Text.{strip, split}
use file_scanner.Base.Chars.{upper, rstrip_char, has_char, before, after, is_ascii}
use file_scanner.Base.Value.{cons, obj, fields, arr, nil, Value, str, int, pos}
use file_scanner.Encryption.{Bytes}
use file_scanner.Auth.{Library, JwtSettings}
use file_scanner.Auth.Keys.{
  load_keys, load_private, key_of, no_separator, b64url_encode, b64url_decode, load_issuers,
}
use file_scanner.Auth.Tokens.{
  jwks, public_jwk, check_binding, decode, too_long, body_hash, sign_webhook, encode,
  request_target,
}
use file_scanner.Auth.Requests.{
  HttpRequest, authenticate, int_of, compare_digest, verify_prometheus, denied, crashed,
}
use file_scanner.Auth.Binding.{authenticate-Vouched, decode-lifetime, Vouched}
use file_scanner.Auth.Issuers.{new_issuer_main, load_issuers-new_issuer_main}
use file_scanner.Auth.Minting.{mint_main, mint_main-authenticate, prints}

abbrev key_of_32 : ℕ → Bytes
key_of_32 zero = []
key_of_32 (suc n) = 7 ∷ key_of_32 n

-- The claims of a token for a POST with a body.
abbrev pub minted : Dict (Value ℕ)
minted =
    ("iss", str "drive")
    ∷ ("aud", str "file-scanner")
    ∷ ("iat", int (pos 1000))
    ∷ ("exp", int (pos 1300))
    ∷ ("htm", str "POST")
    ∷ ("htu", str "/api/v2.0/scan-async?categories=malware")
    ∷ ("bh", str "abc")
    ∷ []

-- One key, one token and one digest.
abbrev pub jwt : Library ℕ
jwt = record {
  Public = ℕ;
  Private = ℕ;
  public_of = λ raw. 1;
  private_of = λ raw. 1;
  public_key = λ key. key;
  to_jwk = λ key. [];
  b64decode = λ s.
      if s == "abc="
      then some (key_of_32 32)
      else if s == "own=="
      then some (key_of_32 32)
      else none;
  b64encode = λ raw. "abc=";
  sha256 = λ raw. raw;
  unverified = λ token. if token == "h.p.s" then some minted else none;
  verified = λ key audience leeway token. ok minted;
  signed = λ key kid claims. "h.p.s";
  float_exceeds = λ exp iat most. false;
}

abbrev pub jwt_settings : JwtSettings
jwt_settings = record {
  jwt_signing_key = "abc";
  jwt_signing_kid = "";
  jwt_issuer = "file-scanner";
  jwt_issuer_keys = "drive:abc";
  jwt_audience = "file-scanner";
  jwt_max_age = 300;
  jwt_leeway = 60;
}

abbrev pub issuers : Dict ℕ
issuers = ("drive", 1) ∷ []

abbrev pub posted : HttpRequest
posted = record {
  method = "post";
  path = "/api/v2.0/scan-async";
  query = "categories=malware";
  content_length = some "2";
  authorization = some "Bearer h.p.s";
  body = b'{' ∷ b'}' ∷ [];
}

mint_main-authenticate_example :
    (mint_main jwt
        (λ file. some (b'{' ∷ b'}' ∷ []))
        1000
        ("mint-token.py" ∷ "own" ∷ "drive" ∷ "Post" ∷ "/api/v2.0/scan-async?categories=malware"
          ∷ "body.json" ∷ [])
      ≡ prints "h.p.s")
    × (authenticate jwt jwt_settings issuers posted true ≡ ok (str "drive"))
unfolding b64url_encode upper strip get int_of rstrip_char request_target
mint_main-authenticate_example =
    mint_main-authenticate jwt jwt_settings issuers (λ file. some (b'{' ∷ b'}' ∷ [])) 1000 1000
      "mint-token.py" "own" "drive" "Post" "/api/v2.0/scan-async?categories=malware"
      (some "body.json") (key_of_32 32) posted refl (inr (omega arith)) (omega arith) (omega arith)
      refl refl refl refl (λ issued expiry aud iat exp begun lasts. refl) refl refl refl refl
      (inr (refl, omega arith))

authenticated : authenticate jwt jwt_settings issuers posted true ≡ ok (str "drive")
unfolding authenticate decode too_long upper strip get int_of body_hash request_target rstrip_char
authenticated = refl

authenticate-Vouched_example : Vouched jwt jwt_settings issuers posted true (str "drive")
authenticate-Vouched_example =
    authenticate-Vouched jwt jwt_settings issuers posted true (str "drive") authenticated

decoded_minted : decode jwt jwt_settings issuers none none none none "h.p.s" ≡ ok minted
unfolding decode too_long get
decoded_minted = refl

iat_minted : get "iat" minted ≡ some (int (pos 1000))
unfolding get
iat_minted = refl

exp_minted : get "exp" minted ≡ some (int (pos 1300))
unfolding get
exp_minted = refl

decode-lifetime_example : 1300 ≤ 1000 + 300
decode-lifetime_example =
    decode-lifetime jwt jwt_settings issuers "h.p.s" minted 1000 1300
      (λ h. absurd (omega (arith, h))) decoded_minted iat_minted exp_minted

-- A receiver that accepts what is posted, with the token of the configured key.
abbrev callback : Webhook ℕ
callback = record { target = "https://a"; payload = [] }

called_back :
    deliver_webhook {F = ℕ}
      (λ p. "{}")
      (λ url text. some "h.p.s")
      (λ r. responded false none)
      callback
    ≡ delivered
unfolding deliver_webhook
called_back = refl

signs_callback :
    (url text : String) → sign_webhook jwt jwt_settings (some 1) url [] 5 ≡ ok (some "h.p.s")
unfolding sign_webhook encode
signs_callback url text = refl

deliver_webhook-check_binding_example :
    (r : Request) × (responded false none ≡ responded false none)
    × (r.target ≡ "https://a")
    × (r.body ≡ "{}")
    × (r.authorization ≡ some ("Bearer " <> "h.p.s"))
    × ((check_binding jwt
            (callback_claims jwt jwt_settings (λ text. []) 5 r.target r.body)
            "POST"
            "https://b"
            (some [])
            true
          ≡ ok tt)
        ↔ (r.target ≡ "https://b") × (body_hash jwt [] ≡ body_hash jwt []))
deliver_webhook-check_binding_example =
    deliver_webhook-check_binding jwt jwt_settings (λ text. []) 5 1 (λ p. "{}")
      (λ url text. some "h.p.s") (λ r. responded false none) callback "https://b" [] signs_callback
      called_back

-- A name with blanks around it is registered without them, beside the issuers that are there.
load_issuers-new_issuer_main_example :
    (load_issuers jwt "my app:abc" ≡ ok (("my app", 1) ∷ []))
    × (load_issuers jwt ("drive:abc" <> "," <> "my app:abc")
        ≡ (load_issuers jwt "drive:abc" >>= λ keys. ok (set "my app" 1 keys)))
unfolding new_issuer_main strip rstrip_char b64url_encode b64url_decode has_char
load_issuers-new_issuer_main_example =
    load_issuers-new_issuer_main jwt (key_of_32 32) (key_of_32 32) "new-issuer.py" " my app " "abc"
      "my app:abc" "drive:abc" refl refl refl refl refl refl

no_separator_test : load_issuers jwt "drive:abc, docs" ≡ err (no_separator "docs")
unfolding load_issuers split strip has_char before after key_of b64url_decode set
no_separator_test = refl

-- A token whose issuer is a list is not a 401: the lookup of the key raises.
abbrev listed_issuer : Library ℕ
listed_issuer = record jwt { unverified = λ token. some (("iss", arr nil) ∷ []) }

unhashable_issuer_test : authenticate listed_issuer jwt_settings issuers posted true ≡ err crashed
unfolding authenticate decode strip get int_of
unhashable_issuer_test = refl

too_large_test :
    authenticate jwt jwt_settings issuers (record posted { content_length = some "65537" }) true
    ≡ err (denied 413)
unfolding authenticate int_of
too_large_test = refl

-- A header that is not ASCII is no 401 either.
metrics_test :
    (verify_prometheus "k" (some "Bearer k") ≡ ok tt)
    × (verify_prometheus "k" none ≡ err (denied 401))
    × (verify_prometheus "k" (some "é") ≡ err crashed)
unfolding verify_prometheus compare_digest is_ascii
metrics_test = (refl, refl, refl)

-- The service with a signing key and one issuer, and its key set.
keys_test :
    load_keys jwt jwt_settings ≡ ok (record { private = some 1; issuers = ("drive", 1) ∷ [] })
unfolding load_keys load_private load_issuers split strip has_char before after key_of b64url_decode
    set
keys_test = refl

jwks_test :
    (jwks jwt (record jwt_settings { jwt_signing_kid = "2026" }) (some 1)
      ≡ (
        "keys",
        arr (
            cons
              (obj (fields (("use", str "sig") ∷ ("alg", str "EdDSA") ∷ ("kid", str "2026") ∷ [])))
              nil),
      )
        ∷ [])
    × (jwks jwt jwt_settings none ≡ ("keys", arr nil) ∷ [])
unfolding jwks public_jwk set update
jwks_test = (refl, refl)
