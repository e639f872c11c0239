-- ===== src/Tasks.antt =====
-- src/tasks.py, the jobs: `scan_task` and how it reports. What an attempt meets outside (the URL
-- policy, the server's answer, the backends, the clock) is its `Attempt`; what it changes is a
-- `World`: the result store, the queue of webhooks, the counted results and the files on disk.
pub mod Scan
pub mod Callback
pub mod Shapes
pub mod Reporting
pub mod Attempts
pub mod Cleanup
pub mod Faults
pub mod Secrecy
pub mod Transparency
use Prim.Native.Nat.{max}
use file_scanner.Base.{
  ℕ, suc, ◌-◌, String, ◌<>◌, ◌≡◌, Bool, true, false, not, ◌&&◌, Option, none, some, List, [], ◌∷◌,
  ◌++◌, ltb, leb, is_some, contains, filter, if◌then◌else◌, Result, ok, err, ◌==◌, ◌>>=◌, ◌>>◌,
  raise_if,
}
use file_scanner.Base.Dict.{Dict, update, set}
use file_scanner.Base.Text.{is_text}
use file_scanner.Base.Value.{Value, Floats, ℤ, pos, negsuc, str}
use file_scanner.Encryption.{Crypto, Bytes}
use file_scanner.Download.{
  Limits, Fault, file, decryption, ssrf, request, unexpected, declared_over, Body, EncryptionParams,
  wire_cap, write_plaintext, write_decrypted, plan_job,
}
use file_scanner.Scanner.{ScannerResult}
use file_scanner.Scanner.Report.{all_errored, report_dict}
use file_scanner.Scanner.Registry.{Registered, Engine, Backends, Raised}
use file_scanner.Scanner.Run.{run_scanners}
use file_scanner.Results.{Backend, record_result, done, error_status}
use file_scanner.Validation.{Hosts, Policed, assert_scannable}
use file_scanner.Wire.{serialize}

abbrev pub max_retries : ℕ
max_retries = 2

-- The response of the server, with `int(declared)` where it is a number.
pub record Response : Type 0 where
  pub status_error : Option String
  pub content_length : Option ℤ
  pub body : Body

-- The arguments of `scan_task`, without the scanners. An absent webhook URL is empty.
pub record ScanArgs (F : Type 0) : Type 0 where
  pub job_id : String
  pub url : String
  pub scanners : List String
  pub filename : Value F
  pub webhook_url : String
  pub metadata : Value F
  pub api_client : String
  pub encryption_params : Option EncryptionParams
  pub wire_version : String

-- The settings, and what does not change from one attempt to the next. `says` is `str(exc)`.
pub record Deployment (F : Type 0) : Type 1 where
  pub limits : Limits
  pub registered : Registered
  pub policed : Policed
  pub crypto : Crypto
  pub worker_result_ttl : ℕ
  pub backend : Backend (Dict (Value F))
  pub says : Fault → String
  pub says_raised : Raised → String

-- One run of the task. `retries` is none outside a worker.
pub record Attempt (F : Type 0) : Type 0 where
  pub retries : Option ℕ
  pub hosts : Hosts
  pub response : Result Fault Response
  pub backends : Backends F
  pub clock : String → F
  pub reopened : Bytes → Result String Bytes
  pub path : String

-- A queued `deliver_webhook`.
pub record Webhook (F : Type 0) : Type 0 where
  pub target : String
  pub payload : Dict (Value F)

pub record World (F S : Type 0) : Type 0 where
  pub store : S
  pub webhooks : List (Webhook F)
  pub counts : List (ScannerResult F)
  pub files : List String
  pub cache : Dict (Engine F)

-- How an attempt ends: it returns, or raises and dramatiq retries it.
pub data Ending : Type 0 where
  returned : Ending
  raised : String → Ending

-- How the `try` block of `scan_task` ends.
pub data Tried (F : Type 0) : Type 0 where
  stopped : Ending → Tried F
  reported : List (ScannerResult F) → Tried F

-- _retries_exhausted
pub retries_exhausted : Option ℕ → Bool
retries_exhausted none = true
retries_exhausted (some n) = leb max_retries n

-- `if declared and declared > wire_cap`
abbrev declared_too_large : ℕ → Option ℤ → Result Fault (Unit {0})
declared_too_large most (some (pos n)) =
    if ltb most n then err (file (declared_over n most)) else ok tt
declared_too_large most _ = ok tt

abbrev pub is_ok {ℓ} : {A : Type ℓ} → Result Fault A → Bool
is_ok (ok a) = true
is_ok (err e) = false

abbrev raise_status : Option String → Result Fault (Unit {0})
raise_status none = ok tt
raise_status (some why) = err (request why)

abbrev content_of : Result Fault (ℕ × Bytes) → Result Fault Bytes
content_of (ok (read, content)) = ok content
content_of (err e) = err e

-- The writer that the parameters ask for.
abbrev write_file : Crypto → Limits → Option EncryptionParams → Body → Result Fault Bytes
write_file crypto limits none body = content_of (write_plaintext limits body)
write_file crypto limits (some enc) body = content_of (write_decrypted crypto limits enc body)

module _ {F : Type 0} (d : Deployment F) (args : ScanArgs F) where
  -- `scan_task` up to the writers.
  unfoldable pub accept : Attempt F → Result Fault Response
  unfolding assert_scannable
  accept a = do
    assert_scannable a.hosts d.policed args.url args.webhook_url
    response ← a.response
    raise_status response.status_error
    declared_too_large (wire_cap d.limits.max_url_size args.encryption_params)
        response.content_length
    ok response

  -- The content of the file once it is downloaded.
  unfoldable pub download : Attempt F → Result Fault Bytes
  unfolding accept write_plaintext write_decrypted
  download a = do
    response ← accept a
    write_file d.crypto d.limits args.encryption_params response.body

  -- Whether a writer comes to open the file.
  abbrev opens_file : Option EncryptionParams → Bool
  opens_file none = true
  opens_file (some enc) = is_ok (plan_job d.crypto d.limits enc)

  -- `with … open(file_path, "wb")` in the writers
  abbrev pub open_file : Attempt F → List String → List String
  open_file a files =
      if is_ok (accept a) && opens_file args.encryption_params then a.path ∷ files else files

  -- `finally`: `file_path` is set once the policy has passed.
  abbrev pub clean_up : Attempt F → List String → List String
  clean_up a files =
      if is_ok (assert_scannable a.hosts d.policed args.url args.webhook_url)
      then filter (λ f. not (f == a.path)) files
      else files

  -- The result dict that `scan_task` starts with.
  abbrev pub started : Dict (Value F)
  started =
      ("job_id", str args.job_id) ∷ ("filename", args.filename) ∷ ("metadata", args.metadata) ∷ []
