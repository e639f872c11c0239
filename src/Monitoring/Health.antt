-- ===== src/Monitoring/Health.antt =====
-- src/app.py: what the healthcheck answers.
use file_scanner.Base.{
  String, ◌≡◌, refl, sym, ap, ◌∙◌, Bool, true, false, ◌↔◌, inl, inr, List, [], ◌∷◌, All, all,
  if◌then◌else◌, Result, ok, err, arith, Bool-cases,
}
use file_scanner.Base.Dict.{Dict}
use file_scanner.Scanner.Registry.{
  Engine, Backends, Registered, Loaded, Raised, key_error, type_error, value_error, runtime_error,
  Reg, give, follow, get_scanner,
}
use file_scanner.Scanner.Registry.Resolve.{resolve_scanners}
use file_scanner.Scanner.Registry.Cache.{
  Coherent, Settles, get_scanner-Settles, get_scanner-answer, resolve_scanners-cache,
}
use file_scanner.Scanner.Registry.Selection.{Ready, resolve_scanners-ok}
use file_scanner.Scanner.Run.Order.{follow_returned}
use file_scanner.Monitoring.{status, ping_all, of_ping, healthcheck}

ok_names : {xs ys : List String} → ◌≡◌ {A = Result Raised (List String)} (ok xs) (ok ys) → xs ≡ ys
ok_names h = cc h

module _ {F : Type 0} (b : Backends F) (loads : String → Loaded) (s : Registered)
    (pings : String → Bool) where
  ping_all-Ready :
      (ns : List String) (ready : All (Ready b) ns) (cache : Dict (Engine F))
      → Coherent b cache
      → (ping_all b loads s pings ns cache).0 ≡ ok (all pings ns)
  unfolding ping_all Settles
  ping_all-Ready [] ready cache co = refl
  ping_all-Ready (n ∷ ns) ((e, known), ready) cache co =
      let next : Engine F → Reg F Bool =
        λ e. if pings n then ping_all b loads s pings ns else give (ok false) in
      let later = (get_scanner b n cache).1 in
      let rest = ping_all-Ready ns ready later (get_scanner-Settles b n cache co).1 in
      ap (λ t. t.0)
        (follow_returned next (get_scanner b n cache) (get_scanner-answer b n e cache co known))
      ∙ elim (Bool-cases (pings n)) [ inl up ↦ rw (up) rest | inr down ↦ rw (down) refl ]

  -- The default selection is accepted, and each of its scanners pings.
  abbrev pub Reachable : Dict (Engine F) → Type 0
  Reachable cache =
      (names : List String) × ((resolve_scanners b loads s [] [] cache).0 ≡ ok names)
      × (all pings names ≡ true)

  of_ping-raised : (e : Raised) → of_ping b loads s pings (err e) ≡ status 200 → ⊥
  of_ping-raised (key_error n) h = ground (arith, h)
  of_ping-raised type_error h = ground (arith, h)
  of_ping-raised (value_error p) h = ground (arith, h)
  of_ping-raised (runtime_error p) h = ground (arith, h)

  of_ping-up : (up : Bool) → (of_ping b loads s pings (ok up) ≡ status 200) ↔ (up ≡ true)
  of_ping-up true = ground arith
  of_ping-up false = ground arith

  probed :
      (p : Result Raised (List String) × Dict (Engine F))
      → ((names : List String) → p.0 ≡ ok names → All (Ready b) names)
      → Coherent b p.1
      → (of_ping b loads s pings (follow (ping_all b loads s pings) p).0 ≡ status 200)
        ↔ ((names : List String) × (p.0 ≡ ok names) × (all pings names ≡ true))
  probed (err e, cache) ready co =
      ((λ h. absurd (of_ping-raised e h)), λ (names, h, up). absurd (ground (arith, h)))
  probed (ok names, cache) ready co =
      let pinged = ping_all-Ready names (ready names refl) cache co in
      (
        (λ h. (
          names,
          refl,
          (of_ping-up (all pings names)).0 (ap (of_ping b loads s pings) (sym pinged) ∙ h),
        )),
        λ (others, same, up).
            ap (of_ping b loads s pings) pinged
            ∙ (of_ping-up (all pings names)).1 (ap (all pings) (ok_names same) ∙ up),
      )

  -- The healthcheck answers 200 exactly if the default selection is accepted and every scanner of it
  -- answers a ping, whichever backends have been built before.
  pub healthcheck-Reachable :
      (cache : Dict (Engine F))
      → Coherent b cache
      → ((healthcheck b loads s pings cache).0 ≡ status 200) ↔ Reachable cache
  unfolding healthcheck
  healthcheck-Reachable cache co =
      probed (resolve_scanners b loads s [] [] cache)
        (λ names h. (resolve_scanners-ok b loads s [] [] names cache co h).2)
        (resolve_scanners-cache b loads s [] [] cache co).1
