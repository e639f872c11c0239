-- ===== src/Validation/Policy.antt =====
-- src/validation.py, what `assert_scannable` lets through.
use file_scanner.Base.{
  ◌⊎◌, inl, inr, Bool-cases, ◌&&◌, ◌||◌, sym, ◌∙◌, if◌then◌else◌, String, ◌≡◌, refl, sym, ap, ◌∙◌,
  Bool, true, false, not, Option, none, some, arith, Result, ok, ◌>>◌, raise_if, >>=-eq-ok,
  is_nonempty, contains,
}
use file_scanner.Base.Text.{is_text}
use file_scanner.Download.{Fault, ssrf}
use file_scanner.Validation.{
  Hosts, Policed, allowed, host_text, host_allowed, check_webhook, assert_scannable,
}

raise_if-ok :
    (b : Bool) (e : Fault) (k : Result Fault (Unit {0}))
    → (raise_if b e >> k) ≡ ok tt
    → (b ≡ false) × (k ≡ ok tt)
raise_if-ok true e k h = cc
raise_if-ok false e k h = (refl, h)

host_text_lem :
    (o : Option String)
    → is_text (host_text o) ≡ true
    → (host : String) × (o ≡ some host) × (is_text host ≡ true)
host_text_lem none h = cc
host_text_lem (some host) h = (host, refl, h)

module _ (hosts : Hosts) (s : Policed) where
  -- A URL whose host passes the guard.
  abbrev pub Guarded : String → Type 0
  Guarded url =
      (host : String) × (hosts.hostname url ≡ ok (some host))
      × (is_text host ≡ true)
      × (hosts.validate_hostname host ≡ ok tt)

  -- A host on the allowlist, if there is one that names a host.
  abbrev pub is_listed : String → Bool
  is_listed host =
      not (is_text s.allowed_url_hosts && is_nonempty (allowed hosts s))
      || contains (allowed hosts s) (hosts.lower host)

  allowed_lem : (host : String) → host_allowed hosts s host ≡ true → is_listed host ≡ true
  unfolding host_allowed
  allowed_lem host h = ground (arith, h)

  check_webhook-Guarded :
      (webhook_url : String) → check_webhook hosts s webhook_url ≡ ok tt → Guarded webhook_url
  unfolding check_webhook
  check_webhook-Guarded webhook_url h =
      let (parsed, is_parsed, more) = >>=-eq-ok (hosts.hostname webhook_url) _ h in
      let (named, guarded) =
        raise_if-ok (not (is_text (host_text parsed)))
          (ssrf "invalid webhook_url (missing hostname)") _ more in
      let (host, same, texts) = host_text_lem parsed (ground (arith, named)) in
      (host, cc (is_parsed, same), texts, cc (guarded, ap host_text same))

  -- The guard of both hosts, outside of tests.
  live :
      (host webhook_url : String)
      → s.testing ≡ false
      → (if s.testing
          then ok tt
          else hosts.validate_hostname host
            >> (if is_text webhook_url then check_webhook hosts s webhook_url else ok tt))
        ≡ ok tt
      → (hosts.validate_hostname host ≡ ok tt)
        × ((is_text webhook_url ≡ false) ⊎ Guarded webhook_url)
  live host webhook_url off h =
      let guarded : (hosts.validate_hostname host
            >> (if is_text webhook_url then check_webhook hosts s webhook_url else ok tt))
          ≡ ok tt =
        ground (arith, off, h) in
      let (_, first, second) = >>=-eq-ok (hosts.validate_hostname host) _ guarded in
      (
        cc (first),
        elim (Bool-cases (is_text webhook_url)) [
          | inl given ↦ inr (check_webhook-Guarded webhook_url (ground (arith, given, second)))
          | inr given ↦ inl given
        ],
      )

  -- Outside of tests, a job that the policy lets through has a URL with a host, which is on the
  -- allowlist if there is one, and which the guard accepts; and the guard accepts the host of its
  -- webhook, if it has one.
  pub assert_scannable-ok :
      (url webhook_url : String)
      → s.testing ≡ false
      → assert_scannable hosts s url webhook_url ≡ ok tt
      → (host : String) × (hosts.hostname url ≡ ok (some host))
        × (is_text host ≡ true)
        × (is_listed host ≡ true)
        × (hosts.validate_hostname host ≡ ok tt)
        × ((is_text webhook_url ≡ false) ⊎ Guarded webhook_url)
  unfolding assert_scannable
  assert_scannable-ok url webhook_url off h =
      let (parsed, is_parsed, more) = >>=-eq-ok (hosts.hostname url) _ h in
      let (named, rest) = raise_if-ok (not (is_text (host_text parsed))) _ _ more in
      let (listed, last) = raise_if-ok (not (host_allowed hosts s (host_text parsed))) _ _ rest in
      let (host, same, texts) = host_text_lem parsed (ground (arith, named)) in
      let guarded = live host webhook_url off (
        ap
          (λ o.
            if s.testing
            then ok tt
            else hosts.validate_hostname (host_text o)
              >> (if is_text webhook_url then check_webhook hosts s webhook_url else ok tt))
          (sym same)
        ∙ last) in
      (
        host,
        cc (is_parsed, same),
        texts,
        allowed_lem host (ground (arith, listed, ap host_text same)),
        guarded.0,
        guarded.1,
      )
