-- ===== src/Dashboard/Guarded.antt =====
-- src/dashboard.py: what a request that reaches the dashboard has shown.
use file_scanner.Base.{
  String, ◌≡◌, ◌⊎◌, inl, inr, refl, Bool, true, false, not, ◌&&◌, ◌||◌, Option, none, some, List,
  any, is_nonempty, if◌then◌else◌, Result, ok, err, >>=-eq-ok, starts_with, eq_iff, arith,
  Bool-cases,
}
use file_scanner.Base.Dict.{Dict, get}
use file_scanner.Base.Text.{is_text}
use file_scanner.Base.Chars.{before, after, drop_chars}
use file_scanner.Auth.Requests.{compare_digest, header}
use file_scanner.Dashboard.{
  DashboardSettings, Decoded, decoded, undecodable, not_ascii, Addresses, GuardedReply, deny,
  passed, client_ip, allowed_networks, in_some, ip_allowed, digest, compared, credentials,
  authorized, of_test, guard,
}

digest-true : (x y : String) → digest (compare_digest x y) ≡ ok true → x ≡ y
unfolding compare_digest
digest-true x y h = ground (arith, h, eq_iff x y)

of_test-passed :
    {A : Type 0} (test : Result String Bool) (status message : String) (next : GuardedReply A)
    (x : A)
    → of_test test (deny status message) next ≡ passed x
    → (test ≡ ok true) × (next ≡ passed x)
of_test-passed (ok true) status message next x h = (refl, h)
of_test-passed (ok false) status message next x h = absurd (ground (arith, h))
of_test-passed (err why) status message next x h = absurd (ground (arith, h))

module _ (settings : DashboardSettings) (a : Addresses) where
  -- The peer of a request is on the allowlist, or there is none.
  abbrev pub Admitted : Dict String → Type 0
  Admitted environ =
      (nets : List a.Network) × (allowed_networks settings a ≡ ok nets)
      × ((is_nonempty nets ≡ false)
          ⊎ ((ip : a.Address) × (a.ip_address (header (client_ip settings environ)) ≡ some ip)
              × (any (a.member ip) nets ≡ true)))

  -- The request has sent the configured password, and the configured user if there is one.
  abbrev pub Authenticated : Dict String → Type 0
  Authenticated environ =
      (is_text settings.worker_dashboard_password ≡ true)
      × ((sent : String) × (a.b64decode (drop_chars 6 (header (get "HTTP_AUTHORIZATION" environ)))
            ≡ decoded sent)
          × (after b':' sent ≡ settings.worker_dashboard_password)
          × ((is_text settings.worker_dashboard_user ≡ false)
              ⊎ (before b':' sent ≡ settings.worker_dashboard_user)))

  in_some-member :
      (nets : List a.Network) (o : Option a.Address)
      → in_some settings a nets o ≡ true
      → (ip : a.Address) × (o ≡ some ip) × (any (a.member ip) nets ≡ true)
  in_some-member nets none h = absurd (ground (arith, h))
  in_some-member nets (some ip) h = (ip, refl, h)

  ip_allowed-Admitted :
      (environ : Dict String)
      → ip_allowed settings a (client_ip settings environ) ≡ ok true
      → Admitted environ
  unfolding ip_allowed
  ip_allowed-Admitted environ h =
      let peer = a.ip_address (header (client_ip settings environ)) in
      let (nets, listed, tested) =
        >>=-eq-ok (allowed_networks settings a)
          (λ nets. ok (not (is_nonempty nets) || in_some settings a nets peer)) h in
      (
        nets,
        listed,
        elim (Bool-cases (is_nonempty nets)) [
          | inl some_net ↦ inr (in_some-member nets peer (ground (arith, tested, some_net)))
          | inr no_net ↦ inl no_net
        ],
      )

  compared-true :
      (user password : String)
      → compared settings a user password ≡ ok true
      → (password ≡ settings.worker_dashboard_password)
        × ((is_text settings.worker_dashboard_user ≡ false)
            ⊎ (user ≡ settings.worker_dashboard_user))
  compared-true user password h =
      let (ok_password, same, rest) =
        >>=-eq-ok (digest (compare_digest password settings.worker_dashboard_password)) _ h in
      let (ok_user, same_user, both) =
        >>=-eq-ok
          (if is_text settings.worker_dashboard_user
            then digest (compare_digest user settings.worker_dashboard_user)
            else ok true)
          (λ u. ok (u && ok_password)) rest in
      (
        digest-true password settings.worker_dashboard_password (ground (arith, same, both)),
        elim (Bool-cases (is_text settings.worker_dashboard_user)) [
          | inl named ↦ inr (
              digest-true user settings.worker_dashboard_user
                (ground (arith, same_user, both, named)))
          | inr unnamed ↦ inl unnamed
        ],
      )

  credentials-true :
      (sent : Decoded)
      → credentials settings a sent ≡ ok true
      → (text : String) × (sent ≡ decoded text)
        × (after b':' text ≡ settings.worker_dashboard_password)
        × ((is_text settings.worker_dashboard_user ≡ false)
            ⊎ (before b':' text ≡ settings.worker_dashboard_user))
  credentials-true (decoded text) h =
      let (password, user) = compared-true (before b':' text) (after b':' text) h in
      (text, refl, password, user)
  credentials-true undecodable h = absurd (ground (arith, h))
  credentials-true not_ascii h = absurd (ground (arith, h))

  authorized-Authenticated :
      (environ : Dict String)
      → authorized settings a (get "HTTP_AUTHORIZATION" environ) ≡ ok true
      → Authenticated environ
  unfolding authorized
  authorized-Authenticated environ h =
      let sent = header (get "HTTP_AUTHORIZATION" environ) in
      elim (Bool-cases (is_text settings.worker_dashboard_password && starts_with sent "Basic ")) [
        | inl both ↦ (ground (arith, both), credentials-true _ (ground (arith, h, both)))
        | inr either ↦ absurd (ground (arith, h, either))
      ]

  -- A request reaches the dashboard, which then answers it, only if its peer is on the allowlist or
  -- there is none, a password is configured, and the request has sent it, with the user if one is
  -- configured.
  pub guard-passed :
      {A : Type 0} (app : Dict String → A) (environ : Dict String) (answered : A)
      → guard settings a app environ ≡ passed answered
      → Admitted environ × Authenticated environ × (answered ≡ app environ)
  unfolding guard
  guard-passed app environ answered h =
      let (listed, rest) =
        of_test-passed (ip_allowed settings a (client_ip settings environ)) _ _ _ answered h in
      let (known, same) =
        of_test-passed (authorized settings a (get "HTTP_AUTHORIZATION" environ)) _ _ _ answered
          rest in
      (ip_allowed-Admitted environ listed, authorized-Authenticated environ known, cc same)
