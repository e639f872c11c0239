-- ===== src/Journey/Interleaving/Conservation.antt =====
-- src/app.py and src/tasks.py in any order: that the workers keep the invariant too, and
-- what it comes to.
use mathlib.Core.Path.{subst}
use mathlib.Core.List.{append-nil}
use file_scanner.Base.{
  ◌<◌, suc, ◌≤◌, ◌+◌, String, ◌≡◌, refl, sym, ap, ◌∙◌, inl, inr, List, [], ◌∷◌, ◌++◌, count,
  count-append, count-middle, All-snoc, All-middle, Mem-snoc, Mem-last, some, if◌then◌else◌, All,
  Memᴰ, arith, Bool-cases,
}
use file_scanner.Base.Dict.{Dict}
use file_scanner.Base.Text.{is_text}
use file_scanner.Base.Value.{Value, Floats}
use file_scanner.Results.{Wrapper, wrapper, Stores, record_result}
use file_scanner.Wire.{serialize}
use file_scanner.Tasks.{World, Webhook, max_retries}
use file_scanner.Tasks.Shapes.{Shaped}
use file_scanner.Tasks.Reporting.{Delivered, Reports}
use file_scanner.Tasks.Attempts.{scan_task-Reports, retries_exhausted_lem}
use file_scanner.Web.{Service, queued}
use file_scanner.Journey.{Worker, deployed}
use file_scanner.Journey.Interleaving.{
  Message, System, Step, sends, seeds_pending, returns, runs_again, dies, Reach, start, later,
  Report, hook_of,
}
use file_scanner.Journey.Interleaving.Soundness.{
  Sound, Sound-sent, Sound-seeds_pending, Stored-record_result, hooks-append,
}

module _ (fl : Floats) (d : Service fl.F) (worker : Worker fl.F) where
  open fl use {F}

  -- A webhook that is queued, as the end of the job.
  hook_of_lem :
      (r : Report fl d worker) (hs : List (Webhook F))
      → (if is_text r.job.webhook_url
          then hs
            ++ record {
              target = r.job.webhook_url;
              payload = serialize fl r.result r.job.wire_version;
            }
              ∷ []
          else hs)
        ≡ hs ++ hook_of fl d worker r
  hook_of_lem r hs = elim (Bool-cases (is_text r.job.webhook_url)) [
    | inl t ↦ ground (arith, t)
    | inr t ↦ ground (arith, t, append-nil hs)
  ]

  Sound-returns :
      (laws : Stores d.backend) (reports : List (Report fl d worker)) (s : System F d.backend.S)
      (before : List (Message F)) (m : Message F) (after : List (Message F))
      (w w' : World F d.backend.S)
      → Sound fl d worker reports s
      → s.scans ≡ before ++ m ∷ after
      → w.store ≡ s.store
      → w.webhooks ≡ s.webhooks
      → Delivered fl (deployed d worker) m.args w w'
      → (more : List (Report fl d worker)) × Sound fl d worker more
          (record s { scans = before ++ after; store = w'.store; webhooks = w'.webhooks })
  Sound-returns laws reports s before m after w w' h split es ew (result, recorded, hooked, shape) =
      let r : Report fl d worker = record { job = m.args; result = result } in
      let (known, waits) =
        All-middle (λ n. Memᴰ n.args s.accepted) before m after
          (subst (All (λ n. Memᴰ n.args s.accepted)) split h.waiting) in
      (
        reports ++ r ∷ [],
        record {
          told =
              hooked
              ∙ hook_of_lem r w.webhooks
              ∙ ap (λ hs. hs ++ hook_of fl d worker r) (ew ∙ h.told)
              ∙ sym (hooks-append fl d worker reports r);
          shaped = All-snoc (λ q. Shaped fl q.job q.result) reports r h.shaped shape;
          once = λ p.
              h.once p
              ∙ ap (λ ms. count (λ n. p n.args) ms + count (λ q. p q.job) reports) split
              ∙ ground (
                arith,
                count-middle (λ n. p n.args) before m after,
                count-append (λ q. p q.job) reports (r ∷ []),
              );
          one_id = h.one_id;
          in_budget =
              (All-middle (λ n. n.retries ≤ max_retries) before m after
                (subst (All (λ n. n.retries ≤ max_retries)) split h.in_budget)).1;
          waiting = waits;
          seeding = h.seeding;
          stored = λ key v held.
              Stored-record_result fl d worker laws reports (reports ++ r ∷ []) s m.args result
                known (inr (Mem-last reports r)) (λ q e. Mem-snoc reports r e) h.stored key v
                (ap
                    (λ t. d.backend.get_result key (
                      record_result d.backend d.worker_result_ttl m.args.job_id m.args.api_client
                        result t))
                    (sym es)
                  ∙ ap (d.backend.get_result key) (sym recorded)
                  ∙ held);
        },
      )

  -- A message that waits on, whose attempt changed nothing.
  Sound-runs_again :
      (reports : List (Report fl d worker)) (s : System F d.backend.S) (before : List (Message F))
      (m : Message F) (after : List (Message F)) (w w' : World F d.backend.S)
      → Sound fl d worker reports s
      → s.scans ≡ before ++ m ∷ after
      → w'.store ≡ s.store
      → w'.webhooks ≡ s.webhooks
      → m.retries < max_retries
      → Sound fl d worker reports (record s {
        scans = (before ++ after) ++ record m { retries = suc m.retries } ∷ [];
        store = w'.store;
        webhooks = w'.webhooks;
      })
  Sound-runs_again reports s before m after w w' h split es ew left =
      let again : Message F = record m { retries = suc m.retries } in
      let (known, waits) =
        All-middle (λ n. Memᴰ n.args s.accepted) before m after
          (subst (All (λ n. Memᴰ n.args s.accepted)) split h.waiting) in
      record {
        told = ew ∙ h.told;
        shaped = h.shaped;
        once = λ p.
            h.once p
            ∙ ap (λ ms. count (λ n. p n.args) ms + count (λ q. p q.job) reports) split
            ∙ ground (
              arith,
              count-middle (λ n. p n.args) before m after,
              count-append (λ n. p n.args) (before ++ after) (again ∷ []),
            );
        one_id = h.one_id;
        in_budget =
            All-snoc (λ n. n.retries ≤ max_retries) (before ++ after) again
              (All-middle (λ n. n.retries ≤ max_retries) before m after
                (subst (All (λ n. n.retries ≤ max_retries)) split h.in_budget)).1
              (omega arith);
        waiting = All-snoc (λ n. Memᴰ n.args s.accepted) (before ++ after) again waits known;
        seeding = h.seeding;
        stored = λ key v held. h.stored key v (ap (d.backend.get_result key) (sym es) ∙ held);
      }

  Sound-Step :
      (laws : Stores d.backend) (reports : List (Report fl d worker)) (s t : System F d.backend.S)
      → Sound fl d worker reports s
      → Step fl d worker s t
      → (more : List (Report fl d worker)) × Sound fl d worker more t
  Sound-Step laws reports s t h
        (sends path job_id username body names w code reply took named fresh) =
      (
        reports,
        Sound-sent fl d worker reports s (queued fl d path job_id username body names) h fresh,
      )
  Sound-Step laws reports s t h (seeds_pending before args after split) =
      (reports, Sound-seeds_pending fl d worker laws reports s before args after h split)
  Sound-Step laws reports s t h (returns before m after a w w' split es ew ran) =
      Sound-returns laws reports s before m after w w' h split es ew (
        subst (Reports fl (deployed d worker) m.args (some m.retries) w) ran (
          scan_task-Reports fl (deployed d worker) m.args (record a { retries = some m.retries })
            w))
  Sound-Step laws reports s t h (runs_again before m after a w w' why split es ew ran left) =
      let (same_store, same_hooks, _) =
        subst (Reports fl (deployed d worker) m.args (some m.retries) w) ran (
          scan_task-Reports fl (deployed d worker) m.args (record a { retries = some m.retries })
            w) in
      (
        reports,
        Sound-runs_again reports s before m after w w' h split (same_store ∙ es) (same_hooks ∙ ew)
            left,
      )
  Sound-Step laws reports s t h (dies before m after a w w' why split es ew ran spent) =
      let (_, _, more) = subst (Reports fl (deployed d worker) m.args (some m.retries) w) ran (
        scan_task-Reports fl (deployed d worker) m.args (record a { retries = some m.retries })
          w) in
      absurd (cc (more, retries_exhausted_lem m.retries spent))

  -- The invariant holds in every state that the service comes to from a store without records.
  pub Sound-Reach :
      (laws : Stores d.backend) (from : d.backend.S) (s : System F d.backend.S)
      → ((key : String) (w : Wrapper (Dict (Value F)))
          → d.backend.get_result key from ≡ wrapper w
          → ⊥)
      → Reach fl d worker from s
      → (reports : List (Report fl d worker)) × Sound fl d worker reports s
  Sound-Reach laws from s none_yet start = (
    [],
    record {
      told = refl;
      shaped = tt;
      once = λ p. refl;
      one_id = λ id. omega arith;
      in_budget = tt;
      waiting = tt;
      seeding = tt;
      stored = λ key w held. absurd (none_yet key w held);
    },
  )
  Sound-Reach laws from s none_yet (later {s = before} reach step) =
      let (reports, h) = Sound-Reach laws from before none_yet reach in
      Sound-Step laws reports before s h step
