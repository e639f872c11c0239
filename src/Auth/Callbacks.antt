-- ===== src/Auth/Callbacks.antt =====
-- src/tasks.py, `deliver_webhook`, with the tokens of src/jwt_auth.py: what a receiver can check.
-- The encoding of a text as bytes is a parameter.
use file_scanner.Base.{
  eq_iff, false, ℕ, String, ◌<>◌, ◌≡◌, ◌↔◌, refl, ap, ◌∙◌, true, false, Option, none, some, ok,
  arith,
}
use file_scanner.Base.Dict.{Dict, get}
use file_scanner.Base.Value.{Value}
use file_scanner.Encryption.{Bytes}
use file_scanner.Auth.{Library, JwtSettings}
use file_scanner.Auth.Tokens.{
  too_long, encode, kid, webhook_claims, body_hash, check_binding, sign_webhook,
}
use file_scanner.Tasks.{Webhook}
use file_scanner.Tasks.Callback.{
  Request, Posted, responded, delivered, bearer, deliver_webhook, deliver_webhook-delivered,
}

module _ {F : Type 0} (lib : Library F) (settings : JwtSettings) where
  -- A webhook is signed under the configured key, with claims that live for `jwt_max_age`; a
  -- receiver that checks their binding accepts a POST exactly for the URL and a body of the hash
  -- that were signed.
  pub sign_webhook-check_binding :
      (loaded : Option lib.Private) (url seen_url : String) (body seen_body : Bytes) (now : ℕ)
      (token : String)
      → sign_webhook lib settings loaded url body now ≡ ok (some token)
      → let claims = webhook_claims lib settings url body now in
        (key : lib.Private) × (loaded ≡ some key)
        × (token ≡ lib.signed key (kid settings.jwt_signing_kid) claims)
        × (too_long lib claims settings.jwt_max_age ≡ false)
        × ((check_binding lib claims "POST" seen_url (some seen_body) true ≡ ok tt)
            ↔ (url ≡ seen_url) × (body_hash lib body ≡ body_hash lib seen_body))
  unfolding sign_webhook encode check_binding too_long get
  sign_webhook-check_binding none url seen_url body seen_body now token h =
      absurd (ground (arith, h))
  sign_webhook-check_binding (some key) url seen_url body seen_body now token h = (
    key,
    refl,
    ground (arith, h),
    ground arith,
    ground (arith, eq_iff url seen_url, eq_iff (body_hash lib body) (body_hash lib seen_body)),
  )

module _ {F : Type 0} (lib : Library F) (settings : JwtSettings) (utf8 : String → Bytes)
    (now : ℕ) where
  -- The claims that go with a result.
  abbrev pub callback_claims : String → String → Dict (Value F)
  callback_claims url text = webhook_claims lib settings url (utf8 text) now

  abbrev token_of : lib.Private → String → String → String
  token_of key url text = lib.signed key (kid settings.jwt_signing_kid) (callback_claims url text)

  signed_lem :
      (key : lib.Private) (url text : String)
      → sign_webhook lib settings (some key) url (utf8 text) now ≡ ok (some (token_of key url text))
  unfolding sign_webhook encode
  signed_lem key url text = refl

  -- With a signing key loaded, and `sign_webhook` as the signer of what is posted, a result that
  -- counts as delivered was answered by the target itself, and carried a token under that key; a
  -- receiver that checks the token's binding accepts it exactly for the target's URL and for a body
  -- of the same hash as the one posted.
  pub deliver_webhook-check_binding :
      (key : lib.Private) (dumps : Dict (Value F) → String) (sign : String → String → Option String)
      (post : Request → Posted) (w : Webhook F) (seen_url : String) (seen_body : Bytes)
      → ((url text : String)
          → sign_webhook lib settings (some key) url (utf8 text) now ≡ ok (sign url text))
      → deliver_webhook dumps sign post w ≡ delivered
      → (r : Request) × (post r ≡ responded false none)
        × (r.target ≡ w.target)
        × (r.body ≡ dumps w.payload)
        × (r.authorization
            ≡ some (
                "Bearer "
                <> lib.signed key (kid settings.jwt_signing_kid) (callback_claims r.target r.body)))
        × ((check_binding lib
                (callback_claims r.target r.body)
                "POST"
                seen_url
                (some seen_body)
                true
              ≡ ok tt)
            ↔ (r.target ≡ seen_url) × (body_hash lib (utf8 r.body) ≡ body_hash lib seen_body))
  deliver_webhook-check_binding key dumps sign post w seen_url seen_body signs h =
      let (r, answered, target, body, auth) = deliver_webhook-delivered dumps sign post w h in
      let is : sign r.target r.body ≡ some (token_of key r.target r.body) =
        ground (arith, signs r.target r.body, signed_lem key r.target r.body) in
      let bound =
        sign_webhook-check_binding lib settings (some key) r.target seen_url (utf8 r.body) seen_body
          now (token_of key r.target r.body) (signed_lem key r.target r.body) in
      (r, answered, target, body, auth ∙ ap bearer is, bound.4)
