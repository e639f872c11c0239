-- ===== src/Journey/Interleaving/Soundness.antt =====
-- src/app.py and src/tasks.py in any order: the invariant of the store and the queues,
-- and that the endpoints keep it.
use mathlib.Core.Path.{subst}
use mathlib.Core.List.{append-nil, append_assoc}
use file_scanner.Base.{
  ◌≤◌, ◌+◌, String, ◌≡◌, refl, sym, ap, ◌∙◌, ◌⊎◌, inl, inr, Bool, List, [], ◌∷◌, ◌++◌, count,
  count-append, All-map, All-snoc, All-middle, All, Memᴰ, arith, eq_iff,
}
use file_scanner.Base.Dict.{Dict}
use file_scanner.Base.Value.{Value, Floats}
use file_scanner.Results.{Wrapper, wrapper, Stores, record_result}
use file_scanner.Results.Ownership.{get_result-record_result}
use file_scanner.Tasks.{ScanArgs, max_retries}
use file_scanner.Tasks.Shapes.{Shaped}
use file_scanner.Web.{ScanAsyncRequest, Service, seeded, queued}
use file_scanner.Journey.{Worker}
use file_scanner.Journey.Interleaving.{
  System, sent, Report, hooks, hook_of, with_id, pending_record,
}

module _ (fl : Floats) (d : Service fl.F) (worker : Worker fl.F) where
  open fl use {F}

  -- A record that the store may hold: of a job that was accepted, under the name of its caller, and
  -- either pending or what was reported of the job.
  abbrev pub Stored :
      List (Report fl d worker) → List (ScanArgs F) → String → Wrapper (Dict (Value F)) → Type 0
  Stored reports accepted key w =
      (job : ScanArgs F) × Memᴰ job accepted
      × (key ≡ job.job_id)
      × (w.owner ≡ job.api_client)
      × ((w.payload ≡ pending_record fl d worker job)
          ⊎ Memᴰ {A = Report fl d worker} (record { job = job; result = w.payload }) reports)

  -- What holds after any steps, where `reports` are the ends of the jobs in their order.
  pub record Sound (reports : List (Report fl d worker)) (s : System F d.backend.S) : Type 0 where
    pub told : s.webhooks ≡ hooks fl d worker reports
    pub shaped : All (λ r. Shaped fl r.job r.result) reports
    pub once :
        (p : ScanArgs F → Bool)
        → count p s.accepted ≡ count (λ m. p m.args) s.scans + count (λ r. p r.job) reports
    pub one_id : (job_id : String) → count (with_id job_id) s.accepted ≤ 1
    pub in_budget : All (λ m. m.retries ≤ max_retries) s.scans
    pub waiting : All (λ m. Memᴰ m.args s.accepted) s.scans
    pub seeding : All (λ a. Memᴰ a s.accepted) s.seeds
    pub stored :
        (key : String) (w : Wrapper (Dict (Value F)))
        → d.backend.get_result key s.store ≡ wrapper w
        → Stored reports s.accepted key w

  -- What scan_async records is the pending record of the job that it sends.
  seeded-queued :
      (path job_id username : String) (body : ScanAsyncRequest F) (names : List String)
      → seeded fl d job_id body
        ≡ pending_record fl d worker (queued fl d path job_id username body names)
  seeded-queued path job_id username body names = refl

  -- The webhooks of a report that is added.
  pub hooks-append :
      (rs : List (Report fl d worker)) (r : Report fl d worker)
      → hooks fl d worker (rs ++ r ∷ []) ≡ hooks fl d worker rs ++ hook_of fl d worker r
  hooks-append [] r = append-nil (hook_of fl d worker r)
  hooks-append (q ∷ rs) r =
      ap (λ hs. hook_of fl d worker q ++ hs) (hooks-append rs r)
      ∙ sym (append_assoc (hook_of fl d worker q) (hooks fl d worker rs) (hook_of fl d worker r))

  -- A job that is sent keeps the invariant, if its id is new.
  pub Sound-sent :
      (reports : List (Report fl d worker)) (s : System F d.backend.S) (args : ScanArgs F)
      → Sound reports s
      → count (with_id args.job_id) s.accepted ≡ 0
      → Sound reports (sent fl d worker args s)
  Sound-sent reports s args h fresh = record {
    told = h.told;
    shaped = h.shaped;
    once = λ p. ground (
      arith,
      h.once p,
      count-append (λ m. p m.args) s.scans (record { args = args; retries = 0 } ∷ []),
    );
    one_id = λ id. ground (arith, h.one_id id, fresh, eq_iff args.job_id id);
    in_budget = All-snoc (λ m. m.retries ≤ max_retries) s.scans _ h.in_budget (omega arith);
    waiting =
        All-snoc (λ m. Memᴰ m.args (args ∷ s.accepted)) s.scans _
          (All-map (λ m. Memᴰ m.args s.accepted) _ (λ m e. Memᴰ.tail e) s.scans h.waiting)
          (Memᴰ.head refl);
    seeding =
        (Memᴰ.head refl, All-map (λ a. Memᴰ a s.accepted) _ (λ a e. Memᴰ.tail e) s.seeds h.seeding);
    stored = λ key w held.
        let (job, known, is, owner, what) = h.stored key w held in
        (job, Memᴰ.tail known, is, owner, what);
  }

  -- A record that is made keeps what was there, for the other jobs.
  pub Stored-record_result :
      (laws : Stores d.backend) (reports more : List (Report fl d worker))
      (s : System F d.backend.S) (job : ScanArgs F) (payload : Dict (Value F))
      → Memᴰ job s.accepted
      → (payload ≡ pending_record fl d worker job)
        ⊎ Memᴰ {A = Report fl d worker} (record { job = job; result = payload }) more
      → ((r : Report fl d worker) → Memᴰ r reports → Memᴰ r more)
      → ((key : String) (w : Wrapper (Dict (Value F)))
          → d.backend.get_result key s.store ≡ wrapper w
          → Stored reports s.accepted key w)
      → (key : String) (w : Wrapper (Dict (Value F)))
      → d.backend.get_result key
          (record_result d.backend d.worker_result_ttl job.job_id job.api_client payload s.store)
        ≡ wrapper w
      → Stored more s.accepted key w
  Stored-record_result laws reports more s job payload known what grows stored key w held =
      elim (get_result-record_result d.backend d.worker_result_ttl laws job.job_id job.api_client
        key payload s.store w held) [
          | inl (same, made) ↦ (
            job,
            known,
            same,
            ap (λ v. v.owner) made,
            subst
                (λ v.
                  (v ≡ pending_record fl d worker job)
                  ⊎ Memᴰ {A = Report fl d worker} (record { job = job; result = v }) more)
                (sym (ap (λ v. v.payload) made)) what,
          )
          | inr kept ↦
              let (other, accepted, same, owner, was) = stored key w kept in
              (
                other,
                accepted,
                same,
                owner,
                elim was [
                  | inl e ↦ inl e
                  | inr m ↦ inr (grows (record { job = other; result = w.payload }) m)
                ],
              )
        ]

  -- So does a pending record, whenever it is made.
  pub Sound-seeds_pending :
      (laws : Stores d.backend) (reports : List (Report fl d worker)) (s : System F d.backend.S)
      (before : List (ScanArgs F)) (args : ScanArgs F) (after : List (ScanArgs F))
      → Sound reports s
      → s.seeds ≡ before ++ args ∷ after
      → Sound reports (record s {
        seeds = before ++ after;
        store =
            record_result d.backend d.worker_result_ttl args.job_id args.api_client
              (pending_record fl d worker args)
              s.store;
      })
  Sound-seeds_pending laws reports s before args after h split =
      let (known, rest) =
        All-middle (λ a. Memᴰ a s.accepted) before args after
          (subst (All (λ a. Memᴰ a s.accepted)) split h.seeding) in
      record {
        told = h.told;
        shaped = h.shaped;
        once = h.once;
        one_id = h.one_id;
        in_budget = h.in_budget;
        waiting = h.waiting;
        seeding = rest;
        stored =
            Stored-record_result laws reports reports s args (pending_record fl d worker args) known
              (inl refl) (λ r m. m) h.stored;
      }
