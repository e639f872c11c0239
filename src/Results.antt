-- ===== src/Results.antt =====
-- src/results.py: the store that a caller polls for a job. dramatiq's result backend is a parameter:
-- a state with what it writes and reads under a key message, here its job id.
pub mod Ownership
use file_scanner.Base.{
  ℕ, ◌*◌, String, ◌≡◌, Bool, true, false, not, Option, none, some, ltb, if◌then◌else◌, ◌==◌,
}

-- A stored wrapper, `{"owner": owner, "record": payload}`.
pub record Wrapper (V : Type 0) : Type 0 where
  pub owner : String
  pub payload : V

-- What `get_result` does: it raises `ResultMissing` or anything else, or returns a value that is
-- not a dict, or one that is.
pub data Found (V : Type 0) : Type 0 where
  missing : Found V
  unreadable : String → Found V
  foreign : Found V
  wrapper : Wrapper V → Found V

-- The backend. `store_result` gives `none` if it raises; its number is the TTL in milliseconds.
pub record Backend (V : Type 0) : Type 1 where
  pub S : Type 0
  pub store_result : String → Wrapper V → ℕ → S → Option S
  pub get_result : String → S → Found V

-- What dramatiq documents of it, while no TTL runs out: a result that was stored is read back under
-- its own key, and other keys keep theirs.
pub record Stores {V : Type 0} (b : Backend V) : Type 0 where
  pub read_back :
      (key : String) (w : Wrapper V) (ttl : ℕ) (s s' : b.S)
      → b.store_result key w ttl s ≡ some s'
      → b.get_result key s' ≡ wrapper w
  pub keeps :
      (key other : String) (w : Wrapper V) (ttl : ℕ) (s s' : b.S)
      → b.store_result key w ttl s ≡ some s'
      → (other == key) ≡ false
      → b.get_result other s' ≡ b.get_result other s

-- PENDING, DONE, ERROR
abbrev pub pending : String
pending = "pending"

abbrev pub done : String
done = "done"

abbrev pub error_status : String
error_status = "error"

-- enabled, of WORKER_RESULT_TTL
unfoldable pub enabled : ℕ → Bool
enabled worker_result_ttl = ltb 0 worker_result_ttl

abbrev kept {ℓ} : {A : Type ℓ} → A → Option A → A
kept old none = old
kept old (some new) = new

-- `wrapper.get("owner") != owner`
abbrev owned : {V : Type 0} → String → Found V → Option V
owned o (wrapper w) = if w.owner == o then some w.payload else none
owned o _ = none

module _ {V : Type 0} (b : Backend V) (worker_result_ttl : ℕ) where
  -- record. A failure to store is swallowed.
  unfoldable pub record_result : String → String → V → b.S → b.S
  unfolding enabled
  record_result job_id who payload s =
      if enabled worker_result_ttl
      then kept s (
          b.store_result job_id (record { owner = who; payload = payload })
            (worker_result_ttl * 1000) s)
      else s

  -- fetch
  unfoldable pub fetch : String → String → b.S → Option V
  unfolding enabled
  fetch job_id who s = if enabled worker_result_ttl then owned who (b.get_result job_id s) else none
