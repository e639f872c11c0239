-- ===== src/Journey/Interleaving/Draining.antt =====
-- src/tasks.py, a worker that runs the waiting messages one after the other.
use file_scanner.Base.{
  ℕ, zero, suc, ◌<◌, ◌+◌, ◌-◌, ◌≡◌, Bool, true, false, List, [], ◌∷◌, ◌++◌, some, ltb,
}
use file_scanner.Base.Dict.{Dict}
use file_scanner.Base.Value.{Value, Floats}
use file_scanner.Tasks.{ScanArgs, Attempt, World, Ending, returned, raised, max_retries}
use file_scanner.Tasks.Scan.{scan_task}
use file_scanner.Web.{Service}
use file_scanner.Journey.{Worker, deployed}
use file_scanner.Journey.Interleaving.{Message, System, Reach}

-- The attempts that some messages have left.
abbrev pub left : {F : Type 0} → List (Message F) → ℕ
left [] = 0
left (m ∷ ms) = (suc max_retries - m.retries) + left ms

-- dramatiq's answer to an exception, where `again` says that retries are left.
abbrev requeued : {F : Type 0} → Bool → Message F → List (Message F) → List (Message F)
requeued true m ms = ms ++ record m { retries = suc m.retries } ∷ []
requeued false m ms = ms

module _ (fl : Floats) (d : Service fl.F) (worker : Worker fl.F) where
  open fl use {F}

  abbrev settled :
      Message F
      → List (Message F)
      → System F d.backend.S
      → Ending × World F d.backend.S
      → System F d.backend.S
  settled m ms s (returned, w) = record s { scans = ms; store = w.store; webhooks = w.webhooks }
  settled m ms s (raised why, w) = record s {
    scans = requeued (ltb m.retries max_retries) m ms;
    store = w.store;
    webhooks = w.webhooks;
  }

  -- A worker runs the first message that waits. It meets `a`, in a process that is `own`.
  abbrev run_first :
      Attempt F
      → World F d.backend.S
      → List (Message F)
      → System F d.backend.S
      → System F d.backend.S
  run_first a own [] s = s
  run_first a own (m ∷ ms) s = settled m ms s (
      scan_task fl (deployed d worker) m.args (record a { retries = some m.retries })
        (record own { store = s.store; webhooks = s.webhooks }))

  -- It does so a number of times.
  pub work :
      ℕ → (ℕ → Attempt F) → (ℕ → World F d.backend.S) → System F d.backend.S → System F d.backend.S
  work zero met own s = s
  work (suc n) met own s = work n met own (run_first (met n) (own n) s.scans s)

  -- A step of the worker: some attempt is used up, and no job is added.
  abbrev Nearer :
      d.backend.S → List (Message F) → System F d.backend.S → System F d.backend.S → Type 0
  Nearer from ms s t =
      Reach fl d worker from t × (left t.scans < left ms) × (t.accepted ≡ s.accepted)

  -- What `n` more messages lead to from `s`.
  abbrev Drained :
      d.backend.S
      → ℕ
      → (ℕ → Attempt F)
      → (ℕ → World F d.backend.S)
      → System F d.backend.S
      → List (ScanArgs F)
      → Type 0
  Drained from n met own s accepted =
      let t = work n met own s in
      Reach fl d worker from t × (t.scans ≡ []) × (t.accepted ≡ accepted)
