-- ===== src/Auth/Binding.antt =====
-- src/jwt_auth.py and `_authenticate` of src/app.py: what a verified token says of its request.
use file_scanner.Base.{
  ℕ, ◌≤◌, String, ◌≡◌, ◌⊎◌, refl, Bool, true, false, Option, none, some, length, ltb, Result, ok,
  err, raise_if, arith, >>=-eq-ok, Option-cases, inl, inr, ◌≢◌, ◌+◌,
}
use file_scanner.Base.Dict.{Dict, get}
use file_scanner.Base.Chars.{upper}
use file_scanner.Base.Value.{is_str_lem, int, pos, Value, str}
use file_scanner.Encryption.{Bytes}
use file_scanner.Auth.{Library, JwtSettings, JwtError, Failure, lifetime_exceeds}
use file_scanner.Auth.Tokens.{
  known, request_target, decode, decode_with, checked, too_long, body_hash, body_or_empty,
  check_binding, issuer_key,
}
use file_scanner.Auth.Requests.{
  HttpRequest, authenticate, bearer_token, bound, check_body, unauthorized, identity, identified,
  verify_token, gates, denied, json_max_body_size,
}

raise_if-eq-ok : {X : Type 0} (t : Bool) (x : X) → raise_if t x ≡ ok tt → t ≡ false
raise_if-eq-ok true x h = cc
raise_if-eq-ok false x h = refl

unauthorized-eq-ok : {A : Type 0} (r : Result JwtError A) (a : A) → unauthorized r ≡ ok a → r ≡ ok a
unauthorized-eq-ok (ok b) a h = ground (arith, h)
unauthorized-eq-ok (err e) a h = absurd (ground (arith, h))

identity-ok :
    {F : Type 0} (o : Option (Value F)) (who : Value F) → identity o ≡ ok who → o ≡ some who
identity-ok none who h = absurd (ground (arith, h))
identity-ok (some v) who h = ground (arith, h)

module _ {F : Type 0} (lib : Library F) where
  check_binding-ok :
      (claims : Dict (Value F)) (method htu : String) (body : Option Bytes) (require_body : Bool)
      → check_binding lib claims method htu body require_body ≡ ok tt
      → (get "htm" claims ≡ some (str method))
        × (get "htu" claims ≡ some (str htu))
        × ((require_body ≡ false)
            ⊎ (get "bh" claims ≡ some (str (body_hash lib (body_or_empty body)))))
  unfolding check_binding
  check_binding-ok claims method htu body require_body h = ground (
    arith,
    is_str_lem (get "htm" claims) method,
    is_str_lem (get "htu" claims) htu,
    is_str_lem (get "bh" claims) (body_hash lib (body_or_empty body)),
  )

  known-ok :
      (iss : String) (found : Option lib.Public) (key : lib.Public)
      → known lib iss found ≡ ok key
      → found ≡ some key
  known-ok iss none key h = absurd (ground (arith, h))
  known-ok iss (some k) key h = ground (arith, h)

  issuer_key-ok :
      (keys : Dict lib.Public) (o : Option (Value F)) (key : lib.Public)
      → issuer_key lib keys o ≡ ok key
      → (iss : String) × (o ≡ some (str iss)) × (get iss keys ≡ some key)
  issuer_key-ok keys (some (str iss)) key h = (iss, refl, known-ok iss (get iss keys) key h)
  issuer_key-ok keys none key h = absurd (ground (arith, h))
  issuer_key-ok keys (some v) key h = absurd (ground (arith, h))

  checked-ok :
      (r : Result Failure (Dict (Value F))) (most : ℕ) (claims : Dict (Value F))
      → checked lib r most ≡ ok claims
      → (r ≡ ok claims) × (too_long lib claims most ≡ false)
  checked-ok (err why) most claims h = absurd (ground (arith, h))
  checked-ok (ok c) most claims h =
      let (_, short, returns) =
        >>=-eq-ok (raise_if (too_long lib c most) lifetime_exceeds) (λ _. ok c) h in
      let same : c ≡ claims = ground (arith, returns) in
      (
        ground (arith, returns),
        rw (← same) (raise_if-eq-ok (too_long lib c most) lifetime_exceeds short),
      )

  module _ (settings : JwtSettings) (issuers : Dict lib.Public) where
    -- What stands behind the caller `who` of a request.
    abbrev pub Vouched : HttpRequest → Bool → Value F → Type 0
    Vouched request bind_body who =
        (shown claims : Dict (Value F)) × (iss : String) × (key : lib.Public) × (lib.unverified
            (bearer_token request)
          ≡ some shown)
        × (get "iss" shown ≡ some (str iss))
        × (get iss issuers ≡ some key)
        × (lib.verified key settings.jwt_audience settings.jwt_leeway (bearer_token request)
            ≡ ok claims)
        × (too_long lib claims settings.jwt_max_age ≡ false)
        × (get "htm" claims ≡ some (str (upper request.method)))
        × (get "htu" claims
            ≡ some (str (request_target request.method request.path request.query).1))
        × ((bind_body ≡ false)
            ⊎ (length request.body ≤ json_max_body_size)
              × (get "bh" claims ≡ some (str (body_hash lib request.body))))
        × (get "iss" claims ≡ some who)

    decoded :
        (token : String) (claims shown : Dict (Value F))
        → lib.unverified token ≡ some shown
        → decode_with lib issuers settings.jwt_audience settings.jwt_max_age settings.jwt_leeway
            token
            (some shown)
          ≡ ok claims
        → (shown : Dict (Value F)) × (iss : String) × (key : lib.Public) × (lib.unverified token
            ≡ some shown)
          × (get "iss" shown ≡ some (str iss))
          × (get iss issuers ≡ some key)
          × (lib.verified key settings.jwt_audience settings.jwt_leeway token ≡ ok claims)
          × (too_long lib claims settings.jwt_max_age ≡ false)
    decoded token claims shown seen h =
        let (key, looked, verifies) = >>=-eq-ok (issuer_key lib issuers (get "iss" shown)) _ h in
        let (iss, says, stands) = issuer_key-ok issuers (get "iss" shown) key looked in
        let (valid, short) = checked-ok _ settings.jwt_max_age claims verifies in
        (shown, iss, key, seen, says, stands, valid, short)

    decode-ok :
        (token : String) (claims : Dict (Value F))
        → decode lib settings issuers none none none none token ≡ ok claims
        → (shown : Dict (Value F)) × (iss : String) × (key : lib.Public) × (lib.unverified token
            ≡ some shown)
          × (get "iss" shown ≡ some (str iss))
          × (get iss issuers ≡ some key)
          × (lib.verified key settings.jwt_audience settings.jwt_leeway token ≡ ok claims)
          × (too_long lib claims settings.jwt_max_age ≡ false)
    unfolding decode
    decode-ok token claims h = elim (Option-cases (lib.unverified token)) [
      | inl lost ↦ absurd (ground (arith, h, lost))
      | inr (shown, seen) ↦ decoded token claims shown seen (ground (arith, h, seen))
    ]

    bound-ok :
        (request : HttpRequest) (bind_body : Bool) (claims : Dict (Value F))
        → bound lib settings issuers request bind_body claims ≡ ok tt
        → (get "htm" claims ≡ some (str (upper request.method)))
          × (get "htu" claims
              ≡ some (str (request_target request.method request.path request.query).1))
          × ((bind_body ≡ false)
              ⊎ (length request.body ≤ json_max_body_size)
                × (get "bh" claims ≡ some (str (body_hash lib request.body))))
    unfolding request_target
    bound-ok request true claims h =
        let target = request_target request.method request.path request.query in
        let (_, small, binds) =
          >>=-eq-ok (check_body true request.body)
            (λ _.
              unauthorized (check_binding lib claims target.0 target.1 (some request.body) true))
            h in
        let (htm, htu, bh) =
          check_binding-ok claims target.0 target.1 (some request.body) true
            (unauthorized-eq-ok _ tt binds) in
        (
          htm,
          htu,
          inr (
            ground (
              arith,
              raise_if-eq-ok (ltb json_max_body_size (length request.body)) (denied 413) small,
            ),
            ground (arith, bh),
          ),
        )
    bound-ok request false claims h =
        let target = request_target request.method request.path request.query in
        let (htm, htu, _) =
          check_binding-ok claims target.0 target.1 none false (unauthorized-eq-ok _ tt h) in
        (htm, htu, inl refl)

    -- A request that is authenticated carries a token of claims that PyJWT verified under the key
    -- configured for the issuer that the token names. By the cap on their lifetime they are not too
    -- long, they name the method and the target of the request and, where the body is to be bound,
    -- the hash of its body, which is then at most 64 KiB. The caller is the `iss` of the claims.
    pub authenticate-Vouched :
        (request : HttpRequest) (bind_body : Bool) (who : Value F)
        → authenticate lib settings issuers request bind_body ≡ ok who
        → Vouched request bind_body who
    unfolding authenticate
    authenticate-Vouched request bind_body who h =
        let (_, _, verifies) =
          >>=-eq-ok (gates request bind_body)
            (λ _. verify_token lib settings issuers request bind_body) h in
        let (claims, decodes, rest) =
          >>=-eq-ok
            (unauthorized (decode lib settings issuers none none none none (bearer_token request)))
            (identified lib settings issuers request bind_body) verifies in
        let (_, binds, names) =
          >>=-eq-ok (bound lib settings issuers request bind_body claims)
            (λ _. identity (get "iss" claims)) rest in
        let (shown, iss, key, seen, says, stands, valid, short) =
          decode-ok (bearer_token request) claims (unauthorized-eq-ok _ claims decodes) in
        let (htm, htu, bh) = bound-ok request bind_body claims binds in
        (
          shown,
          claims,
          iss,
          key,
          seen,
          says,
          stands,
          valid,
          short,
          htm,
          htu,
          bh,
          identity-ok (get "iss" claims) who names,
        )

    -- Claims that `decode` returns are of a token that lives no longer than `jwt_max_age`, where the
    -- setting is not 0 and both times are ints since the epoch.
    pub decode-lifetime :
        (token : String) (claims : Dict (Value F)) (issued expires : ℕ)
        → settings.jwt_max_age ≢ 0
        → decode lib settings issuers none none none none token ≡ ok claims
        → get "iat" claims ≡ some (int (pos issued))
        → get "exp" claims ≡ some (int (pos expires))
        → expires ≤ issued + settings.jwt_max_age
    unfolding too_long
    decode-lifetime token claims issued expires on h iat exp =
        let short = (decode-ok token claims h).7 in ground (arith, short, iat, exp)
