-- ===== src/Broker/Consumption.antt =====
-- src/worker.py against src/tasks.py and src/health.py: which actors a worker runs.
use file_scanner.Base.{
  inr, String, ◌≡◌, refl, ap, ◌∙◌, true, false, ◌||◌, none, List, [], ◌∷◌, ◌++◌, arith, contains,
  All, if◌then◌else◌, Result, ok, err, ◌==◌, Bool-cases, eq_refl, inl,
}
use file_scanner.Base.Text.{is_text}
use file_scanner.Scanner.Registry.{Registered, Backends, Loaded}
use file_scanner.Scanner.Registry.Validate.{validate_registry}
use file_scanner.Monitoring.{WorkerEnv, build_argv, words, or_value}
use file_scanner.Broker.{WorkerSettings, actors, ping_queue, start_worker, Raised}

-- What the command line takes for `--queues`, which stands last: the arguments behind it.
unfoldable pub consumed : List String → List String
consumed [] = []
consumed (a ∷ args) = let rest = consumed args in if a == "--queues" then args else rest

-- The settings are not taken for that option.
abbrev pub IsPlain : WorkerEnv → Type 0
IsPlain e =
    ((or_value e.worker_processes "2" == "--queues") ≡ false)
    × ((or_value e.worker_threads "8" == "--queues") ≡ false)
    × ((or_value e.worker_watch "" == "--queues") ≡ false)

-- The queues that the environment names.
abbrev pub named_queues : WorkerEnv → List String
named_queues e = words (or_value e.worker_queues "webhooks scans")

consumed-build_argv :
    (e : WorkerEnv)
    → IsPlain e
    → consumed (build_argv e) ≡ named_queues e ++ ping_queue e.hostname ∷ []
unfolding build_argv consumed
consumed-build_argv e (processes, threads, watch) =
    elim (Bool-cases (is_text (or_value e.worker_watch ""))) [
      | inl t ↦ rw (t) (rw (processes) (rw (threads) (rw (watch) refl)))
      | inr t ↦ rw (t) (rw (processes) (rw (threads) refl))
    ]

contains-append_one :
    (xs : List String) (x q : String) → contains (xs ++ x ∷ []) q ≡ (contains xs q || q == x)
contains-append_one [] x q = ground arith
contains-append_one (y ∷ xs) x q = ground (arith, contains-append_one xs x q)

default_queues : words "webhooks scans" ≡ "webhooks" ∷ "scans" ∷ []
unfolding words
default_queues = refl

module _ {F : Type 0} (b : Backends F) (loads : String → Loaded) (s : Registered) where
  start_worker-ok :
      (e : WorkerEnv) (argv : List String)
      → start_worker b loads s e ≡ ok argv
      → ((validate_registry b loads s []).0 ≡ ok tt) × (argv ≡ build_argv e)
  unfolding start_worker
  start_worker-ok e argv h = from_check (validate_registry b loads s []).0 h
    where
      from_check :
          (r : Result Raised (Unit {0}))
          → elim r [ ok _ ↦ ok (build_argv e) | err raised ↦ err raised ] ≡ ok argv
          → (r ≡ ok tt) × (argv ≡ build_argv e)
      from_check (ok tt) g = (refl, cc g)
      from_check (err raised) g = cc

  -- A worker starts only with a registry that passes the check at boot. Whatever WORKER_QUEUES says it
  -- consumes the queues that the variable names and the queue of its own container, where the actor of
  -- the probe is; with the variable unset, it consumes the queue of every actor.
  pub start_worker-consumed :
      (settings : WorkerSettings) (e : WorkerEnv) (argv : List String)
      → IsPlain e
      → start_worker b loads s e ≡ ok argv
      → ((validate_registry b loads s []).0 ≡ ok tt)
        × ((q : String)
            → contains (consumed argv) q
              ≡ (contains (named_queues e) q || q == ping_queue e.hostname))
        × (e.worker_queues ≡ none
            → All (λ a. contains (consumed argv) a.queue_name ≡ true) (actors settings e.hostname))
  unfolding actors
  start_worker-consumed settings e argv plain h =
      let (valid, is) = start_worker-ok e argv h in
      let all_queues : (q : String)
          → contains (consumed argv) q
            ≡ (contains (named_queues e) q || q == ping_queue e.hostname) =
        λ q.
          ap (λ t. contains (consumed t) q) is
          ∙ ap (λ t. contains t q) (consumed-build_argv e plain)
          ∙ contains-append_one (named_queues e) (ping_queue e.hostname) q in
      (
        valid,
        all_queues,
        λ unset.
            let named : named_queues e ≡ "webhooks" ∷ "scans" ∷ [] =
              ap (λ t. words (or_value t "webhooks scans")) unset ∙ default_queues in
            (
              all_queues "webhooks" ∙ ground (arith, named),
              (
                all_queues "scans" ∙ ground (arith, named),
                (
                  all_queues (ping_queue e.hostname)
                      ∙ ground (arith, eq_refl (ping_queue e.hostname)),
                  tt,
                ),
              ),
            ),
      )
