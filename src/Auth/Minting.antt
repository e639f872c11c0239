-- ===== src/Auth/Minting.antt =====
-- deploy/scripts/mint-token.py, which mints a caller's token for one request, and `_authenticate`
-- of src/app.py, which reads it.
use Prim.Native.String.{count}
use text.Mathlib.TextLemmas.{cons-append, nil-append, length-cons}
use file_scanner.Base.{
  ℕ, ◌+◌, ◌≤◌, ◌<◌, ap, sym, inl, inr, String, ◌<>◌, ◌≡◌, refl, Bool, true, false, Option, none,
  some, List, [], ◌∷◌, ◌++◌, length, nat_eq, if◌then◌else◌, ok, arith, is_some, eq_refl, ◌⊎◌,
}
use mathlib.Core.Path.{subst}
use text.Mathlib.TextPositions.{starts_with-append}
use file_scanner.Base.Dict.{Dict, get}
use file_scanner.Base.Chars.{upper, drop_chars}
use file_scanner.Base.Text.{strip}
use file_scanner.Base.Value.{Value, str, int, pos}
use file_scanner.Encryption.{Bytes}
use file_scanner.Auth.{Library, JwtSettings}
use file_scanner.Auth.Keys.{b64url_encode}
use file_scanner.Auth.Tokens.{request_target, body_hash, decode, check_binding, too_long}
use file_scanner.Auth.Requests.{
  bearer_token, gates, bound, HttpRequest, check_length, authenticate, json_max_body_size,
}

-- The script exits with a code, raises, or prints a token.
pub data Minted : Type 0 where
  exits : ℕ → Minted
  raises : Minted
  prints : String → Minted

module _ {F : Type 0} (lib : Library F) where
  abbrev mint_claims : String → String → String → ℕ → Dict (Value F)
  mint_claims iss method htu now =
      ("iss", str iss)
      ∷ ("aud", str "file-scanner")
      ∷ ("iat", int (pos now))
      ∷ ("exp", int (pos (now + 300)))
      ∷ ("htm", str (upper method))
      ∷ ("htu", str htu)
      ∷ []

  -- The `bh` claim of the body file, where there is one.
  abbrev with_body : Dict (Value F) → Option Bytes → Dict (Value F)
  with_body claims none = claims
  with_body claims (some body) = claims ++ ("bh", str (b64url_encode lib (lib.sha256 body))) ∷ []

  abbrev mint : Option Bytes → Dict (Value F) → Minted
  mint none claims = raises
  mint (some raw) claims =
      if nat_eq (length raw) 32
      then prints (lib.signed (lib.private_of raw) none claims)
      else raises

  abbrev mint_bound : String → Dict (Value F) → Option Bytes → Minted
  mint_bound private_key claims none = raises
  mint_bound private_key claims (some body) =
      mint (lib.b64decode (private_key <> "==")) (with_body claims (some body))

  -- main, `now` seconds after the epoch, with the files that it can open
  pub mint_main : (String → Option Bytes) → ℕ → List String → Minted
  unfolding b64url_encode upper
  mint_main opens now (script ∷ private_key ∷ iss ∷ method ∷ htu ∷ []) =
      mint (lib.b64decode (private_key <> "==")) (mint_claims iss method htu now)
  mint_main opens now (script ∷ private_key ∷ iss ∷ method ∷ htu ∷ body_file ∷ []) =
      mint_bound private_key (mint_claims iss method htu now) (opens body_file)
  mint_main opens now _ = exits 2

-- The optional argument, and the bytes of its file.
abbrev pub listed : Option String → List String
listed none = []
listed (some file) = file ∷ []

abbrev pub opened : (String → Option Bytes) → Option String → Option Bytes
opened opens none = none
opened opens (some file) = opens file

drop_chars-append : (s t : String) → drop_chars (count s) (s <> t) ≡ t
drop_chars-append String.[] t = nil-append t
drop_chars-append (String.◌∷◌ c s) t =
    rw (cons-append c s t, length-cons c s) (drop_chars-append s t)

module _ {F : Type 0} (lib : Library F) (settings : JwtSettings) (issuers : Dict lib.Public) where
  -- What the service reads of the claims that are minted.
  minted-bound :
      (iss method htu : String) (now : ℕ) (body : Option Bytes)
      → (settings.jwt_max_age ≡ 0) ⊎ (300 ≤ settings.jwt_max_age)
      → let claims = with_body lib (mint_claims lib iss method htu now) body in
        (get "iss" claims ≡ some (str iss))
        × (too_long lib claims settings.jwt_max_age ≡ false)
        × (check_binding lib claims (upper method) htu body (is_some body) ≡ ok tt)
  unfolding get too_long check_binding body_hash
  minted-bound iss method htu now none h =
      (refl, ground (arith, h), ground (arith, eq_refl (upper method), eq_refl htu))
  minted-bound iss method htu now (some body) h = (
    refl,
    ground (arith, h),
    ground
        (arith, eq_refl (upper method), eq_refl htu, eq_refl (b64url_encode lib (lib.sha256 body))),
  )

  read_token :
      (token : String) (claims : Dict (Value F)) (iss : String) (key : lib.Public)
      → lib.unverified token ≡ some claims
      → get "iss" claims ≡ some (str iss)
      → get iss issuers ≡ some key
      → lib.verified key settings.jwt_audience settings.jwt_leeway token ≡ ok claims
      → too_long lib claims settings.jwt_max_age ≡ false
      → decode lib settings issuers none none none none token ≡ ok claims
  unfolding decode
  read_token token claims iss key seen says stands valid short =
      rw (seen) (rw (says) (rw (stands) (rw (valid) (rw (short) refl))))

  bearer_token_lem :
      (request : HttpRequest) (token : String)
      → request.authorization ≡ some ("Bearer " <> token)
      → strip token ≡ token
      → bearer_token request ≡ token
  bearer_token_lem request token carries whole =
      rw (carries) (rw (drop_chars-append "Bearer " token) whole)

  -- A body that is to be bound is within the cap of the endpoint.
  abbrev pub IsWithinCap : HttpRequest → Bool → Type 0
  IsWithinCap request bind_body =
      (bind_body ≡ false)
      ⊎ (check_length request.content_length ≡ ok tt) × (length request.body ≤ json_max_body_size)

  gates-ok :
      (request : HttpRequest) (token : String) (bind_body : Bool)
      → request.authorization ≡ some ("Bearer " <> token)
      → IsWithinCap request bind_body
      → gates request bind_body ≡ ok tt
  gates-ok request token true carries (inl h) = cc
  gates-ok request token true carries (inr (fits, small)) =
      rw (fits, carries) (rw (starts_with-append "Bearer " token) refl)
  gates-ok request token false carries fits =
      rw (carries) (rw (starts_with-append "Bearer " token) refl)

  bound-accepts :
      (request : HttpRequest) (claims : Dict (Value F)) (method htu : String) (bind_body : Bool)
      → request_target request.method request.path request.query ≡ (method, htu)
      → IsWithinCap request bind_body
      → check_binding lib claims method htu
          (if bind_body then some request.body else none)
          bind_body
        ≡ ok tt
      → bound lib settings issuers request bind_body claims ≡ ok tt
  bound-accepts request claims method htu true target (inl h) binds = cc
  bound-accepts request claims method htu true target (inr (fits, small)) binds =
      rw (target) (rw (binds) (ground (arith, small)))
  bound-accepts request claims method htu false target small binds = rw (target) (rw (binds) refl)

  sent-accepted :
      (request : HttpRequest) (opens : String → Option Bytes) (file : Option String)
      (claims : Dict (Value F)) (method htu : String)
      → opened opens file ≡ (if is_some file then some request.body else none)
      → check_binding lib claims
          (upper method)
          htu
          (opened opens file)
          (is_some (opened opens file))
        ≡ ok tt
      → check_binding lib claims
          (upper method)
          htu
          (if is_some file then some request.body else none)
          (is_some file)
        ≡ ok tt
  sent-accepted request opens none claims method htu sends binds = binds
  sent-accepted request opens (some f) claims method htu sends binds =
      subst (λ body. check_binding lib claims (upper method) htu body (is_some body) ≡ ok tt) sends
        binds

  mint_main-prints :
      (opens : String → Option Bytes) (now : ℕ) (script private_key iss method htu : String)
      (file : Option String) (raw : Bytes) (request : HttpRequest)
      → lib.b64decode (private_key <> "==") ≡ some raw
      → length raw ≡ 32
      → opened opens file ≡ (if is_some file then some request.body else none)
      → mint_main lib opens now (script ∷ private_key ∷ iss ∷ method ∷ htu ∷ listed file)
        ≡ prints (
            lib.signed
              (lib.private_of raw)
              none
              (with_body lib (mint_claims lib iss method htu now) (opened opens file)))
  unfolding mint_main
  mint_main-prints opens now script private_key iss method htu none raw request decodes size sends =
      rw (decodes) (rw (size) refl)
  mint_main-prints opens now script private_key iss method htu (some file) raw request decodes size
        sends =
      rw (sends) (rw (decodes) (rw (size) refl))

  -- What PyJWT documents of a signed token: at the time `clock` it gives the claims back under the
  -- public key if they are for that audience, were issued by then and have not expired, with the
  -- leeway in both directions.
  abbrev pub Verifies : lib.Private → ℕ → Dict (Value F) → Type 0
  Verifies key clock claims =
      (issued expiry : ℕ)
      → get "aud" claims ≡ some (str settings.jwt_audience)
      → get "iat" claims ≡ some (int (pos issued))
      → get "exp" claims ≡ some (int (pos expiry))
      → issued ≤ clock + settings.jwt_leeway
      → clock < expiry + settings.jwt_leeway
      → lib.verified (lib.public_key key) settings.jwt_audience settings.jwt_leeway
          (lib.signed key none claims)
        ≡ ok claims

  minted-timely :
      (iss method htu : String) (now : ℕ) (body : Option Bytes)
      → settings.jwt_audience ≡ "file-scanner"
      → let claims = with_body lib (mint_claims lib iss method htu now) body in
        (get "aud" claims ≡ some (str settings.jwt_audience))
        × (get "iat" claims ≡ some (int (pos now)))
        × (get "exp" claims ≡ some (int (pos (now + 300))))
  unfolding get
  minted-timely iss method htu now none h = (ap (λ t. some (str t)) (sym h), refl, refl)
  minted-timely iss method htu now (some body) h = (ap (λ t. some (str t)) (sym h), refl, refl)

  -- With a caller's key of 32 bytes and the arguments for a request, the script prints a token, and
  -- the service accepts the request that carries it within 300 seconds, as the caller's: without a
  -- body file at an endpoint that does not bind the body, with one at an endpoint that does. This is
  -- with the audience left at its default, the caller's public key among the issuers, a `jwt_max_age`
  -- that is off or at least 300, a token with no blanks around it, a request of that method and target,
  -- whose body is that of the file and within the cap where it is bound, and PyJWT giving the claims
  -- back that were signed, for their audience and in their time.
  pub mint_main-authenticate :
      (opens : String → Option Bytes) (now clock : ℕ) (script private_key iss method htu : String)
      (file : Option String) (raw : Bytes) (request : HttpRequest)
      → settings.jwt_audience ≡ "file-scanner"
      → (settings.jwt_max_age ≡ 0) ⊎ (300 ≤ settings.jwt_max_age)
      → now ≤ clock
      → clock < now + 300
      → lib.b64decode (private_key <> "==") ≡ some raw
      → length raw ≡ 32
      → get iss issuers ≡ some (lib.public_key (lib.private_of raw))
      → let claims = with_body lib (mint_claims lib iss method htu now) (opened opens file) in
        let token = lib.signed (lib.private_of raw) none claims in
        lib.unverified token ≡ some claims
        → Verifies (lib.private_of raw) clock claims
        → strip token ≡ token
        → request.authorization ≡ some ("Bearer " <> token)
        → request_target request.method request.path request.query ≡ (upper method, htu)
        → opened opens file ≡ (if is_some file then some request.body else none)
        → IsWithinCap request (is_some file)
        → (mint_main lib opens now (script ∷ private_key ∷ iss ∷ method ∷ htu ∷ listed file)
            ≡ prints token)
          × (authenticate lib settings issuers request (is_some file) ≡ ok (str iss))
  unfolding authenticate
  mint_main-authenticate opens now clock script private_key iss method htu file raw request default
        lives issued lasts decodes size stands seen valid whole carries target sends fits =
      let claims = with_body lib (mint_claims lib iss method htu now) (opened opens file) in
      let token = lib.signed (lib.private_of raw) none claims in
      let (says, short, binds) = minted-bound iss method htu now (opened opens file) lives in
      let (aud, iat, exp) = minted-timely iss method htu now (opened opens file) default in
      let verified = valid now (now + 300) aud iat exp (omega arith) (omega arith) in
      (
        mint_main-prints opens now script private_key iss method htu file raw request decodes size
            sends,
        rw
            (
              gates-ok request token (is_some file) carries fits,
              bearer_token_lem request token carries whole,
              read_token token claims iss _ seen says stands verified short,
              bound-accepts request claims (upper method) htu (is_some file) target fits
                  (sent-accepted request opens file claims method htu sends binds),
              says,
            )
            refl,
      )
