-- ===== src/Results/Ownership.antt =====
-- src/results.py, polls of what is recorded.
use file_scanner.Base.{
  ℕ, String, ◌≡◌, ◌⊎◌, sym, ◌∙◌, Option-cases, inl, inr, true, none, some, arith, eq_iff,
  Bool-cases, if◌then◌else◌, ◌==◌, ◌*◌,
}
use file_scanner.Results.{
  Found, missing, unreadable, foreign, wrapper, Wrapper, Backend, Stores, enabled, owned,
  record_result, fetch,
}

owned_lem :
    {V : Type 0} (who : String) (o : Found V) (v : V)
    → owned who o ≡ some v
    → o ≡ wrapper (record { owner = who; payload = v })
owned_lem who (wrapper w) v h = ground (arith, h, eq_iff w.owner who)
owned_lem who missing v h = cc
owned_lem who (unreadable why) v h = cc
owned_lem who foreign v h = cc

module _ {V : Type 0} (b : Backend V) (worker_result_ttl : ℕ) where
  -- What a poll returns is what is stored for the job under the caller's own name.
  pub fetch-owner :
      (job_id who : String) (s : b.S) (v : V)
      → fetch b worker_result_ttl job_id who s ≡ some v
      → (enabled worker_result_ttl ≡ true)
        × (b.get_result job_id s ≡ wrapper (record { owner = who; payload = v }))
  unfolding fetch
  fetch-owner job_id who s v h = elim (Bool-cases (enabled worker_result_ttl)) [
    | inl on ↦ (on, owned_lem who (b.get_result job_id s) v (ground (arith, on, h)))
    | inr off ↦ absurd (ground (arith, off, h))
  ]

  -- A record that the backend stores is what its owner polls from then on, and no one else; a poll
  -- of another job answers as before.
  pub fetch-record_result :
      (laws : Stores b) (job_id who other_job caller : String) (payload : V) (s s' : b.S)
      → enabled worker_result_ttl ≡ true
      → b.store_result job_id
          (record { owner = who; payload = payload })
          (worker_result_ttl * 1000)
          s
        ≡ some s'
      → fetch b worker_result_ttl other_job caller
          (record_result b worker_result_ttl job_id who payload s)
        ≡ (if other_job == job_id
            then (if who == caller then some payload else none)
            else fetch b worker_result_ttl other_job caller s)
  unfolding fetch record_result
  fetch-record_result laws job_id who other_job caller payload s s' on stored = ground (
    arith,
    on,
    stored,
    eq_iff other_job job_id,
    laws.read_back job_id (record { owner = who; payload = payload }) (worker_result_ttl * 1000) s
        s' stored,
    laws.keeps job_id other_job (record { owner = who; payload = payload })
        (worker_result_ttl * 1000) s s' stored,
  )

  -- What is stored for a job after a record was made is that record, or was there before.
  pub get_result-record_result :
      (laws : Stores b) (job_id who key : String) (payload : V) (s : b.S) (w : Wrapper V)
      → b.get_result key (record_result b worker_result_ttl job_id who payload s) ≡ wrapper w
      → (key ≡ job_id) × (w ≡ record { owner = who; payload = payload })
        ⊎ (b.get_result key s ≡ wrapper w)
  unfolding record_result
  get_result-record_result laws job_id who key payload s w h =
      let made : Wrapper V = record { owner = who; payload = payload } in
      elim (Bool-cases (enabled worker_result_ttl)) [
        | inr off ↦ inr (ground (arith, off, h))
        | inl on ↦ elim (Option-cases (b.store_result job_id made (worker_result_ttl * 1000) s)) [
          | inl lost ↦ inr (ground (arith, on, lost, h))
          | inr (s', took) ↦
              let held : b.get_result key s' ≡ wrapper w = ground (arith, on, took, h) in
              elim (Bool-cases (key == job_id)) [
                | inl same ↦
                    let is : key ≡ job_id = ground (arith, same, eq_iff key job_id) in
                    let back = laws.read_back job_id made (worker_result_ttl * 1000) s s' took in
                    inl (is, cc (held, is, back))
                | inr other ↦ inr (
                    sym (laws.keeps job_id key made (worker_result_ttl * 1000) s s' took other)
                    ∙ held)
              ]
        ]
      ]
