-- ===== src/Download/Accepted.antt =====
-- src/app.py, the validation of `ScanEncryption`, and the checks of src/tasks.py on what it accepts.
use Prim.Native.String.{count}
use file_scanner.Base.{
  ℕ, ◌+◌, String, ◌≡◌, ◌↔◌, refl, Bool, true, false, not, ◌&&◌, some, leb, ◌==◌, Result, ok, err,
  arith,
}
use file_scanner.Base.Chars.{has_char}
use file_scanner.Base.Value.{ℤ, pos, negsuc}
use file_scanner.Encryption.{
  DecryptionError, Bytes, Crypto, scheme, overhead_per_chunk, matches_fragment, decode_key,
}
use file_scanner.Download.{EncryptionParams, Limits, Job, decryption, plan_job}

-- ScanEncryption, of which an absent scheme has its default.
pub record ScanEncryption : Type 0 where
  pub scheme_name : String
  pub key : String
  pub chunk_size : ℤ
  pub file_id : String
  pub parts : ℤ

-- `ge` and `le` of an int
abbrev within : ℕ → ℕ → ℤ → Bool
within low high (pos n) = leb low n && leb n high
within low high (negsuc n) = false

abbrev is_natural : ℤ → Bool
is_natural (pos n) = true
is_natural (negsuc n) = false

-- The constraints of the fields, and `_known_scheme`. The pattern is the one of the encryption, but
-- its end is the end of the text.
unfoldable pub valid_encryption : Limits → ScanEncryption → Bool
unfolding matches_fragment has_char
valid_encryption limits enc =
    enc.scheme_name == scheme
    && (leb 43 (count enc.key) && leb (count enc.key) 44)
    && (matches_fragment enc.key && not (has_char 10 enc.key))
    && within limits.encryption_min_chunk_size limits.encryption_max_chunk_size enc.chunk_size
    && (leb 1 (count enc.file_id) && leb (count enc.file_id) 255)
    && is_natural enc.parts

-- model_dump
abbrev pub model_dump : ScanEncryption → EncryptionParams
model_dump enc = record {
  scheme_param = some enc.scheme_name;
  key = some enc.key;
  chunk_size = some enc.chunk_size;
  file_id = some enc.file_id;
  parts = some enc.parts;
}

module _ (crypto : Crypto) (limits : Limits) where
  abbrev of_fields : (s k f : String) (size count : ℤ) → EncryptionParams
  of_fields s k f size count =
      model_dump
        (record { scheme_name = s; key = k; file_id = f; chunk_size = size; parts = count })

  refused :
      (s k f : String) (size total : ℤ) (e : DecryptionError) (job : Job)
      → (s == scheme) ≡ true
      → decode_key crypto k ≡ err e
      → plan_job crypto limits (of_fields s k f size total) ≡ ok job
      → ⊥
  unfolding plan_job
  refused s k f size total e job known is plans =
      let fails : plan_job crypto limits (of_fields s k f size total) ≡ err (decryption e) =
        rw (known) (rw (is) refl) in
      absurd (ground (arith, fails, plans))

  abbrev job_of : Bytes → String → (size total : ℕ) → Job
  job_of raw f size total = record {
    crypto = crypto;
    aes_key = raw;
    file = f;
    total = total;
    blob_size = size + overhead_per_chunk;
    plain_cap = limits.max_url_size;
  }

  plans :
      (s k f : String) (size total : ℕ) (raw : Bytes)
      → (s == scheme) ≡ true
      → within limits.encryption_min_chunk_size limits.encryption_max_chunk_size (pos size) ≡ true
      → decode_key crypto k ≡ ok raw
      → plan_job crypto limits (of_fields s k f (pos size) (pos total))
        ≡ ok (job_of raw f size total)
  unfolding plan_job
  plans s k f size total raw known fits is = rw (known) (rw (is) (rw (fits) refl))

  planned :
      (s k f : String) (size total : ℤ)
      → (s == scheme) ≡ true
      → within limits.encryption_min_chunk_size limits.encryption_max_chunk_size size ≡ true
      → is_natural total ≡ true
      → (r : Result DecryptionError Bytes) → decode_key crypto k ≡ r
      → ((job : Job) × (plan_job crypto limits (of_fields s k f size total) ≡ ok job))
        ↔ ((raw : Bytes) × (r ≡ ok raw))
  unfolding plan_job
  planned s k f (negsuc n) total known fits natural r is = absurd (ground (arith, fits))
  planned s k f (pos n) (negsuc m) known fits natural r is = absurd (ground (arith, natural))
  planned s k f (pos n) (pos m) known fits natural (err e) is = (
    (λ (job, planned_). absurd (refused s k f (pos n) (pos m) e job known is planned_)),
    λ (raw, h). absurd (ground (arith, h)),
  )
  planned s k f (pos n) (pos m) known fits natural (ok raw) is =
      ((λ _. (raw, refl)), λ _. (job_of raw f n m, plans s k f n m raw known fits is))

  -- For parameters that the request's validation accepted, the worker's checks before it opens the
  -- file fail only for the key: they pass exactly if it decodes to a key of the length of AES-256.
  pub plan_job-valid_encryption :
      (enc : ScanEncryption)
      → valid_encryption limits enc ≡ true
      → ((job : Job) × (plan_job crypto limits (model_dump enc) ≡ ok job))
        ↔ ((raw : Bytes) × (decode_key crypto enc.key ≡ ok raw))
  unfolding plan_job valid_encryption
  plan_job-valid_encryption enc h =
      planned enc.scheme_name enc.key enc.file_id enc.chunk_size enc.parts (ground (arith, h))
        (ground (arith, h)) (ground (arith, h)) (decode_key crypto enc.key) refl
