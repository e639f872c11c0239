-- ===== src/Monitoring/Freshness.antt =====
-- src/metrics.py: how often the versions of the scanners are looked up.
use mathlib.Core.Path.{subst}
use file_scanner.Base.{
  ◌⊎◌, ap, ℕ, ◌+◌, ◌*◌, ◌≤◌, String, ◌≡◌, refl, ◌∙◌, Option, List, [], ◌∷◌, arith, Bool-cases, inl,
  inr,
}
use file_scanner.Monitoring.{
  Versioned, raises, no_version, versioned, Gauges, signature_refresh_ttl, set_gauges, refresh_each,
  is_fresh, refresh_signatures,
}

-- Each scrape asks nothing, or it asks all of `names` and comes the limit after the last that did,
-- the first after `last`.
abbrev pub Spaced : (names : List String) (second last : ℕ) → List (ℕ × List String) → Type 0
Spaced names second last [] = Unit
Spaced names second last ((now, asked) ∷ scraped) =
    (asked ≡ []) × Spaced names second last scraped
    ⊎ (asked ≡ names)
      × (last + signature_refresh_ttl * second ≤ now)
      × Spaced names second now scraped

module _ {F : Type 0} (second : ℕ) (float_text : String → Option F)
    (version_of : String → Versioned) (names : List String) where
  -- The scrapes at some times, each with the scanners that it asks for their version.
  unfoldable pub scrapes : List ℕ → Gauges F → List (ℕ × List String)
  scrapes [] g = []
  scrapes (now ∷ times) g =
      let scrape = refresh_signatures second float_text version_of now names g in
      (now, scrape.1) ∷ scrapes times scrape.0

  set_gauges-last :
      (name : String) (v : Versioned) (g : Gauges F)
      → (set_gauges second float_text version_of name v g).last_signature_refresh
        ≡ g.last_signature_refresh
  set_gauges-last name raises g = refl
  set_gauges-last name no_version g = refl
  set_gauges-last name (versioned info) g = ground arith

  refresh_each-last :
      (ns : List String) (g : Gauges F)
      → ((refresh_each second float_text version_of ns g).0.last_signature_refresh
          ≡ g.last_signature_refresh)
        × ((refresh_each second float_text version_of ns g).1 ≡ ns)
  unfolding refresh_each
  refresh_each-last [] g = (refl, refl)
  refresh_each-last (n ∷ ns) g =
      let (last, asked) =
        refresh_each-last ns (set_gauges second float_text version_of n (version_of n) g) in
      (last ∙ set_gauges-last n (version_of n) g, ap (λ t. n ∷ t) asked)

  -- However often the metrics are scraped, a scrape that asks any scanner for its version asks all of
  -- them once, and comes 300 seconds at least after the one before that did, or after the time that
  -- the gauges start with.
  pub scrapes-Spaced :
      (times : List ℕ) (g : Gauges F)
      → 1 ≤ second
      → Spaced names second g.last_signature_refresh (scrapes times g)
  unfolding scrapes refresh_signatures
  scrapes-Spaced [] g h = tt
  scrapes-Spaced (now ∷ times) g h =
      elim (Bool-cases (is_fresh second float_text version_of now g)) [
        | inl fresh ↦ rw (fresh) (inl (refl, scrapes-Spaced times g h))
        | inr old ↦
            let started = record g { last_signature_refresh = now } in
            let again = refresh_each second float_text version_of names started in
            let (last, asked) = refresh_each-last names started in
            rw (old) (
              inr (
                asked,
                ground (arith, old, h),
                subst (λ t. Spaced names second t (scrapes times again.0)) last
                    (scrapes-Spaced times again.0 h),
              ))
      ]
