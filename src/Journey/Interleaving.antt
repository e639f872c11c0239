-- ===== src/Journey/Interleaving.antt =====
-- src/app.py and src/tasks.py as processes that run in any order: each step is what one of them does
-- to the store and the queues that all share. A message is taken off the queue when its attempt is
-- over; that a crashed worker's message runs again is left out.
pub mod Soundness
pub mod Conservation
pub mod Polls
pub mod Draining
use file_scanner.Base.{
  ℕ, suc, ◌≤◌, ◌<◌, String, ◌≡◌, true, false, List, [], ◌∷◌, ◌++◌, count, Option, some, ok, ◌==◌,
  if◌then◌else◌, Bool,
}
use file_scanner.Base.Dict.{Dict}
use file_scanner.Base.Text.{is_text}
use file_scanner.Base.Value.{Value, Floats, str}
use file_scanner.Scanner.Registry.Resolve.{resolve_scanners}
use file_scanner.Results.{pending, record_result}
use file_scanner.Wire.{serialize}
use file_scanner.Tasks.{ScanArgs, Attempt, World, Webhook, returned, raised, max_retries}
use file_scanner.Tasks.Scan.{scan_task}
use file_scanner.Web.{answer, ScanAsyncRequest, Service, State, seeded, queued, scan_async}
use file_scanner.Journey.{Worker, deployed}

-- A message of scan_task, with the retries behind it.
pub record Message (F : Type 0) : Type 0 where
  pub args : ScanArgs F
  pub retries : ℕ

-- What is shared: the store, the messages of scan_task that wait, and all messages of deliver_webhook
-- that were queued. `seeds` are the jobs that an endpoint has sent and not recorded as pending yet,
-- `accepted` all jobs that were sent.
pub record System (F S : Type 0) : Type 0 where
  pub store : S
  pub scans : List (Message F)
  pub seeds : List (ScanArgs F)
  pub webhooks : List (Webhook F)
  pub accepted : List (ScanArgs F)

-- The jobs of an id.
abbrev pub with_id : {F : Type 0} → String → ScanArgs F → Bool
with_id job_id a = a.job_id == job_id

module _ (fl : Floats) (d : Service fl.F) (worker : Worker fl.F) where
  open fl use {F}

  -- The pending record, from the job's own arguments.
  abbrev pub pending_record : ScanArgs F → Dict (Value F)
  pending_record a =
      ("job_id", str a.job_id)
      ∷ ("status", str pending)
      ∷ ("filename", a.filename)
      ∷ ("metadata", a.metadata)
      ∷ []

  -- A job once more in the queue.
  abbrev pub sent : ScanArgs F → System F d.backend.S → System F d.backend.S
  sent args s = record s {
    scans = s.scans ++ record { args = args; retries = 0 } ∷ [];
    seeds = args ∷ s.seeds;
    accepted = args ∷ s.accepted;
  }

  -- One step of one process, from `s` on.
  pub data Step (s : System F d.backend.S) : System F d.backend.S → Type 0 where
    -- An endpoint sends a job for a request that it answers, under an id that no job had before.
    sends :
        (path job_id username : String) (body : ScanAsyncRequest F) (names : List String)
        (w : State F d.backend.S) (code : ℕ) (reply : Dict (Value F))
        → (scan_async fl d path job_id username body (λ v. v) w).0 ≡ answer code reply
        → (resolve_scanners d.backends d.loads d.registered body.categories body.scanners w.cache).0
          ≡ ok names
        → count (with_id job_id) s.accepted ≡ 0
        → Step s (sent (queued fl d path job_id username body names) s)
    -- It records the job as pending, some time later.
    seeds_pending :
        (before : List (ScanArgs F)) (args : ScanArgs F) (after : List (ScanArgs F))
        → s.seeds ≡ before ++ args ∷ after
        → Step s (record s {
          seeds = before ++ after;
          store =
              record_result d.backend d.worker_result_ttl args.job_id args.api_client
                (pending_record args)
                s.store;
        })
    -- A worker runs any message that waits, with memory and files of its own, and the task returns.
    returns :
        (before : List (Message F)) (m : Message F) (after : List (Message F)) (a : Attempt F)
        (w w' : World F d.backend.S)
        → s.scans ≡ before ++ m ∷ after
        → w.store ≡ s.store
        → w.webhooks ≡ s.webhooks
        → scan_task fl (deployed d worker) m.args (record a { retries = some m.retries }) w
          ≡ (returned, w')
        → Step s (record s { scans = before ++ after; store = w'.store; webhooks = w'.webhooks })
    -- The task raises, and dramatiq queues the message again.
    runs_again :
        (before : List (Message F)) (m : Message F) (after : List (Message F)) (a : Attempt F)
        (w w' : World F d.backend.S) (why : String)
        → s.scans ≡ before ++ m ∷ after
        → w.store ≡ s.store
        → w.webhooks ≡ s.webhooks
        → scan_task fl (deployed d worker) m.args (record a { retries = some m.retries }) w
          ≡ (raised why, w')
        → m.retries < max_retries
        → Step s (record s {
          scans = (before ++ after) ++ record m { retries = suc m.retries } ∷ [];
          store = w'.store;
          webhooks = w'.webhooks;
        })
    -- The task raises with its retries spent, and the message is a dead letter.
    dies :
        (before : List (Message F)) (m : Message F) (after : List (Message F)) (a : Attempt F)
        (w w' : World F d.backend.S) (why : String)
        → s.scans ≡ before ++ m ∷ after
        → w.store ≡ s.store
        → w.webhooks ≡ s.webhooks
        → scan_task fl (deployed d worker) m.args (record a { retries = some m.retries }) w
          ≡ (raised why, w')
        → max_retries ≤ m.retries
        → Step s (record s { scans = before ++ after; store = w'.store; webhooks = w'.webhooks })

  -- The service at its start, on the store `s`.
  abbrev pub at_start : d.backend.S → System F d.backend.S
  at_start s = record { store = s; scans = []; seeds = []; webhooks = []; accepted = [] }

  -- The states that any order of steps comes to.
  pub data Reach (from : d.backend.S) : System F d.backend.S → Type 0 where
    start : Reach from (at_start from)
    later : {s t : System F d.backend.S} → Reach from s → Step s t → Reach from t

  -- The end of a job: what is stored for it and told to its webhook.
  pub record Report : Type 0 where
    pub job : ScanArgs F
    pub result : Dict (Value F)

  abbrev pub hook_of : Report → List (Webhook F)
  hook_of r =
      if is_text r.job.webhook_url
      then record { target = r.job.webhook_url; payload = serialize fl r.result r.job.wire_version }
        ∷ []
      else []

  -- The webhooks of some reports, in their order.
  abbrev pub hooks : List Report → List (Webhook F)
  hooks [] = []
  hooks (r ∷ rs) = hook_of r ++ hooks rs
