-- ===== src/Engines/Polling.antt =====
-- src/scanners/jcop.py: the loop of `_analyse` ends.
use file_scanner.Base.{
  ℕ, zero, suc, ◌+◌, ◌*◌, ◌≤◌, String, ◌≡◌, refl, true, false, Option, none, some, is_some, arith,
  Bool-cases, inl, inr, ltb, Result, ok, err, ◌-◌,
}
use file_scanner.Base.Dict.{Dict}
use file_scanner.Base.Value.{Value}
use file_scanner.Encryption.{Bytes}
use file_scanner.Engines.{Rendering}
use file_scanner.Engines.Jcop.{
  Response, Service, JcopSettings, Step, done, raised, failed, unforeseen, poll, Ended, of_round,
  round, submit, of_lookup, of_ended, go_on, turn, poll_until, first_step, analyse, jcop_scan,
}

-- The clock does not go back, and a sleep takes its time.
pub record Monotonic {F W : Type 0} (service : Service F W) : Type 0 where
  pub sleep_takes : (n : ℕ) (w : W) → service.now w + n ≤ service.now (service.sleep n w)
  pub lookup_later : (key : String) (w : W) → service.now w ≤ service.now (service.lookup key w).1
  pub post_later :
      (content : Bytes) (time : ℕ) (w : W)
      → service.now w ≤ service.now (service.post content time w).1

module _ {F W : Type 0} (r : Rendering F) (service : Service F W) (settings : JcopSettings)
    (clock : Monotonic service) (pauses : 1 ≤ settings.jcop_poll_interval) where
  open service use {now}

  round-later :
      (key : String) (w : W)
      → now w + settings.jcop_poll_interval ≤ now (round r service settings key w).1
  round-later key w = omega (
    arith,
    clock.sleep_takes settings.jcop_poll_interval w,
    clock.lookup_later key (service.sleep settings.jcop_poll_interval w),
  )

  -- Two numbers of rounds that are enough give the same end.
  abbrev Same :
      (polls others : String → W → Option (Ended r service settings) × W)
      → Step (Dict (Value F))
      → W
      → Type 0
  Same polls others step w =
      (go_on r service settings polls step w ≡ go_on r service settings others step w)
      × (is_some (go_on r service settings polls step w).0 ≡ true)

  go_on-Same :
      (polls others : String → W → Option (Ended r service settings) × W)
      (step : Step (Dict (Value F))) (w : W)
      → ((key : String) → (polls key w ≡ others key w) × (is_some (polls key w).0 ≡ true))
      → Same polls others step w
  go_on-Same polls others (done content) w h = (refl, refl)
  go_on-Same polls others (raised why) w h = (refl, refl)
  go_on-Same polls others (poll key) w h = h key

  abbrev Ends : (f g deadline : ℕ) → String → W → Type 0
  Ends f g deadline key w =
      (poll_until r service settings (suc f) deadline key w
        ≡ poll_until r service settings (suc g) deadline key w)
      × (is_some (poll_until r service settings (suc f) deadline key w).0 ≡ true)

  poll_until-suc :
      (f deadline : ℕ) (key : String) (w : W)
      → poll_until r service settings (suc f) deadline key w
        ≡ turn r service settings
            (ltb (now w) deadline)
            (poll_until r service settings f deadline)
            key
            w
  unfolding poll_until
  poll_until-suc f deadline key w = refl

  out_of_time :
      (f g deadline : ℕ) (key : String) (w : W)
      → ltb (now w) deadline ≡ false
      → Ends f g deadline key w
  out_of_time f g deadline key w late =
      rw (poll_until-suc f deadline key w, poll_until-suc g deadline key w, late) (refl, refl)

  one_round :
      (f g deadline : ℕ) (key : String) (w : W)
      → ltb (now w) deadline ≡ true
      → Same
          (poll_until r service settings (suc f) deadline)
          (poll_until r service settings (suc g) deadline)
          (of_round r key (round r service settings key w).0)
          (round r service settings key w).1
      → Ends (suc f) (suc g) deadline key w
  one_round f g deadline key w early same =
      rw (poll_until-suc (suc f) deadline key w, poll_until-suc (suc g) deadline key w, early) same

  poll_until-Ends :
      (f g deadline : ℕ) (key : String) (w : W)
      → deadline ≤ now w + f * settings.jcop_poll_interval
      → deadline ≤ now w + g * settings.jcop_poll_interval
      → Ends f g deadline key w
  poll_until-Ends zero g deadline key w h k = out_of_time zero g deadline key w (ground (arith, h))
  poll_until-Ends (suc f) zero deadline key w h k =
      out_of_time (suc f) zero deadline key w (ground (arith, k))
  poll_until-Ends (suc f) (suc g) deadline key w h k = elim (Bool-cases (ltb (now w) deadline)) [
    | inl early ↦
        let later = round-later key w in
        let next = (round r service settings key w).1 in
        one_round f g deadline key w early (
          go_on-Same _ _ (of_round r key (round r service settings key w).0) next (λ again.
            poll_until-Ends f g deadline again next (omega (arith, later, h))
              (omega (arith, later, k))))
    | inr late ↦ out_of_time (suc f) (suc g) deadline key w late
  ]

  submit-later :
      (content : Bytes) (deadline : ℕ) (w : W)
      → now w ≤ now (submit r service settings content deadline w).1
  submit-later content deadline w = ground (arith, clock.post_later content (deadline - now w) w)

  of_lookup-later :
      (key : String) (content : Bytes) (deadline : ℕ) (found : Result String (Response F)) (w : W)
      → now w ≤ now (of_lookup r service settings key content deadline found w).1
  of_lookup-later key content deadline (err why) w = omega arith
  of_lookup-later key content deadline (ok response) w =
      ground (arith, submit-later content deadline w)

  of_ended-some :
      (ended : Option (Ended r service settings))
      → is_some ended ≡ true
      → is_some (of_ended r ended) ≡ true
  of_ended-some none h = h
  of_ended-some (some (ok content)) h = refl
  of_ended-some (some (err (failed why))) h = refl
  of_ended-some (some (err (unforeseen why))) h = refl

  ticks-le-rounds : (n : ℕ) → n ≤ n * settings.jcop_poll_interval
  ticks-le-rounds zero = omega arith
  ticks-le-rounds (suc n) = omega (arith, ticks-le-rounds n)

  -- With a clock that does not go back, sleeps that take their time and a poll interval of a tick at
  -- least, a scan always ends: with a verdict, a ScannerError or another exception. The loop takes at
  -- most a round more than there are poll intervals in the submit timeout.
  pub jcop_scan-ends :
      (content : Bytes) (w : W) (rounds : ℕ)
      → settings.jcop_submit_timeout ≤ rounds * settings.jcop_poll_interval
      → let deadline = now w + settings.jcop_submit_timeout in
        let first = first_step r service settings content deadline w in
        (is_some (jcop_scan r service settings content w).0 ≡ true)
        × (analyse r service settings content w
            ≡ go_on r service settings
                (poll_until r service settings (suc rounds) deadline)
                first.0
                first.1)
  unfolding jcop_scan analyse
  jcop_scan-ends content w rounds h =
      let deadline = now w + settings.jcop_submit_timeout in
      let first = first_step r service settings content deadline w in
      let found = service.lookup (service.sha256_hex content) w in
      let later : now w ≤ now first.1 = omega (
        arith,
        clock.lookup_later (service.sha256_hex content) w,
        of_lookup-later (service.sha256_hex content) content deadline found.0 found.1,
      ) in
      let same =
        go_on-Same (poll_until r service settings (suc settings.jcop_submit_timeout) deadline)
          (poll_until r service settings (suc rounds) deadline) first.0 first.1
          (λ key.
            poll_until-Ends settings.jcop_submit_timeout rounds deadline key first.1
              (omega (arith, later, ticks-le-rounds settings.jcop_submit_timeout))
              (omega (arith, later, h))) in
      (of_ended-some _ same.1, same.0)
