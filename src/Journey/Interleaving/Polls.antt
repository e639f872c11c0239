-- ===== src/Journey/Interleaving/Polls.antt =====
-- src/app.py and src/tasks.py in any order: what a poll in the middle of it is answered.
use mathlib.Core.Path.{subst}
use file_scanner.Base.{
  ℕ, ◌≤◌, String, ◌≡◌, refl, sym, ap, ◌∙◌, ◌⊎◌, inl, inr, Bool, true, false, List, [], ◌∷◌, ◌++◌,
  count, All, Memᴰ, arith, eq_refl, ◌==◌, All-map,
}
use file_scanner.Base.Dict.{Dict}
use file_scanner.Base.Value.{Value, Floats}
use file_scanner.Auth.{Library, JwtSettings}
use file_scanner.Auth.Requests.{HttpRequest}
use file_scanner.Results.{Wrapper, wrapper, Stores}
use file_scanner.Wire.{serialize, of_path}
use file_scanner.Tasks.{ScanArgs, Webhook}
use file_scanner.Tasks.Shapes.{Shaped}
use file_scanner.Web.{answer, Service, State}
use file_scanner.Web.Routes.{VouchedFor, get_job, get_job-owner}
use file_scanner.Journey.{Worker}
use file_scanner.Journey.Interleaving.{
  System, Reach, Report, hooks, hook_of, with_id, pending_record,
}
use file_scanner.Journey.Interleaving.Conservation.{Sound-Reach}

count_positive :
    {A : Type 0} (p : A → Bool) {x : A} (xs : List A) → Memᴰ x xs → p x ≡ true → 1 ≤ count p xs
count_positive p [] m h = elim m [ ]
count_positive p (y ∷ ys) (Memᴰ.head e) h = ground (arith, sym (ap p e) ∙ h)
count_positive p (y ∷ ys) (Memᴰ.tail m) h = ground (arith, count_positive p ys m h)

Mem-All : {A : Type 0} (P : A → Type 0) {x : A} (xs : List A) → All P xs → Memᴰ x xs → P x
Mem-All P [] h m = elim m [ ]
Mem-All P (y ∷ ys) (h, hs) (Memᴰ.head e) = subst P (sym e) h
Mem-All P (y ∷ ys) (h, hs) (Memᴰ.tail m) = Mem-All P ys hs m

Mem-append : {A : Type 0} {x : A} (xs ys : List A) → Memᴰ x ys → Memᴰ x (xs ++ ys)
Mem-append [] ys m = m
Mem-append (z ∷ zs) ys m = Memᴰ.tail (Mem-append zs ys m)

All-Mem : {A : Type 0} (xs ys : List A) → All (λ x. Memᴰ x (xs ++ ys)) xs
All-Mem [] ys = tt
All-Mem (x ∷ xs) ys =
    (Memᴰ.head refl, All-map (λ z. Memᴰ z (xs ++ ys)) _ (λ z m. Memᴰ.tail m) xs (All-Mem xs ys))

module _ (fl : Floats) (d : Service fl.F) (worker : Worker fl.F) where
  open fl use {F}

  hook_of-hooks :
      (reports : List (Report fl d worker)) (r : Report fl d worker)
      → Memᴰ r reports
      → All (λ h. Memᴰ h (hooks fl d worker reports)) (hook_of fl d worker r)
  hook_of-hooks [] r m = elim m [ ]
  hook_of-hooks (q ∷ rs) r (Memᴰ.head e) =
      subst (λ t. All (λ h. Memᴰ h (hooks fl d worker (q ∷ rs))) (hook_of fl d worker t)) (sym e)
        (All-Mem (hook_of fl d worker q) (hooks fl d worker rs))
  hook_of-hooks (q ∷ rs) r (Memᴰ.tail m) =
      All-map (λ h. Memᴰ h (hooks fl d worker rs)) _
        (λ h e. Mem-append (hook_of fl d worker q) (hooks fl d worker rs) e) (hook_of fl d worker r)
        (hook_of-hooks rs r m)

  -- What a poll may be answered for a job: that it is pending, or the terminal result that its
  -- webhook was queued with, if it has one.
  abbrev pub PendingOrEnded : ScanArgs F → Dict (Value F) → List (Webhook F) → Type 0
  PendingOrEnded job stored webhooks =
      (stored ≡ pending_record fl d worker job)
      ⊎ Shaped fl job stored
        × All (λ h. Memᴰ h webhooks) (hook_of fl d worker (record { job = job; result = stored }))

  module _ (lib : Library F) (settings : JwtSettings) (issuers : Dict lib.Public) where
    -- In every state that the service comes to, in any order of its steps, from a store that holds no
    -- records: a poll that is answered is a 200 for the one job that was accepted under this id, its
    -- token is vouched for the poll and names the caller of that job, and the answer, in the version
    -- of the poll's path, is that the job is pending or its terminal result, of a documented shape,
    -- with which its webhook was queued, if it has one.
    pub get_job-Reach :
        (laws : Stores d.backend) (from : d.backend.S) (s : System F d.backend.S)
        (request : HttpRequest) (job_id : String) (web : State F d.backend.S) (code : ℕ)
        (reply : Dict (Value F))
        → ((key : String) (w : Wrapper (Dict (Value F)))
            → d.backend.get_result key from ≡ wrapper w
            → ⊥)
        → Reach fl d worker from s
        → get_job fl d lib settings issuers request job_id (record web { store = s.store })
          ≡ answer code reply
        → (job : ScanArgs F) × (stored : Dict (Value F)) × Memᴰ job s.accepted
          × (job_id ≡ job.job_id)
          × (count (with_id job_id) s.accepted ≡ 1)
          × VouchedFor fl d lib settings issuers request false job.api_client
          × (code ≡ 200)
          × (reply ≡ serialize fl stored (of_path request.path))
          × PendingOrEnded job stored s.webhooks
    get_job-Reach laws from s request job_id web code reply none_yet reach h =
        let (reports, sound) = Sound-Reach fl d worker laws from s none_yet reach in
        let (username, stored, vouched, held, is, body) =
          get_job-owner fl d lib settings issuers request job_id (record web { store = s.store })
            code reply h in
        let (job, known, same, owner, what) = sound.stored job_id _ held in
        (
          job,
          stored,
          known,
          same,
          ground (
            arith,
            sound.one_id job_id,
            count_positive (with_id job_id) s.accepted known
                (ap (λ t. job.job_id == t) same ∙ eq_refl job.job_id),
          ),
          subst (VouchedFor fl d lib settings issuers request false) owner vouched,
          is,
          body,
          elim what [
            | inl e ↦ inl e
            | inr m ↦ inr (
              Mem-All (λ r. Shaped fl r.job r.result) reports sound.shaped m,
              subst
                  (λ ws.
                    All (λ w. Memᴰ w ws)
                      (hook_of fl d worker (record { job = job; result = stored })))
                  (sym sound.told)
                  (hook_of-hooks reports (record { job = job; result = stored }) m),
            )
          ],
        )
