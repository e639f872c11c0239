-- ===== src/Tasks/Transparency.antt =====
-- src/tasks.py, `scan_task` on a file that its caller encrypted, against the plain file.
use file_scanner.Base.{
  ℕ, String, ◌≡◌, ◌≤◌, ◌<◌, ap, ◌∙◌, sym, false, Option, none, some, Result, ok, ◌>>=◌, length,
  contains,
}
use file_scanner.Base.Value.{Floats}
use file_scanner.Encryption.{Bytes, iv_bytes, decode_key}
use file_scanner.Download.{Fault, EncryptionParams, write_plaintext}
use file_scanner.Download.Streaming.{chunks_of, IsTimely, bytes_of}
use file_scanner.Download.Chunks.{join}
use file_scanner.Download.Sealing.{Sealer, seal_all}
use file_scanner.Download.RoundTrip.{sent_params, write_decrypted-sealed}
use file_scanner.Tasks.{
  Response, ScanArgs, Deployment, Attempt, World, accept, download, write_file, content_of,
}
use file_scanner.Tasks.Scan.{scan_task}
use file_scanner.Tasks.Secrecy.{with_params, scan_task-with_params}

-- The parameters that go with a file which is sealed in chunks of `size` bytes.
abbrev pub sealed_params : String → String → ℕ → Bytes → EncryptionParams
sealed_params fragment file size plain =
    sent_params fragment file size (length (chunks_of (length plain) size plain))

module _ (fl : Floats) (d : Deployment fl.F) (args : ScanArgs fl.F) where
  open fl use {F}

  download-accepted :
      (params : Option EncryptionParams) (a : Attempt F) (response : Response)
      → accept d (with_params args params) a ≡ ok response
      → download d (with_params args params) a ≡ write_file d.crypto d.limits params response.body
  unfolding download
  download-accepted params a response h =
      ap (λ r. r >>= λ (x : Response). write_file d.crypto d.limits params x.body) h

  -- A file that its caller encrypted, chunk by chunk and each at its position, and declared as it is,
  -- is scanned and reported exactly as the plain file is from a server that sends that, in all that a
  -- job changes: the store, the webhooks, the counts, the files on disk and the cache; and the job
  -- ends the same way. Both responses are accepted, and the plain file is within the limit.
  pub scan_task-sealed :
      (s : Sealer d.crypto) (key : Bytes) (ivs : ℕ → Bytes) (fragment file : String) (size : ℕ)
      (plain : Bytes) (a : Attempt F) (w : World F d.backend.S) (other : Result Fault Response)
      (sealed unsealed : Response) (read : ℕ)
      → ((n : ℕ) → length (ivs n) ≡ iv_bytes)
      → decode_key d.crypto fragment ≡ ok key
      → 0 < size
      → d.limits.encryption_min_chunk_size ≤ size
      → size ≤ d.limits.encryption_max_chunk_size
      → length plain ≤ d.limits.max_url_size
      → accept d (with_params args (some (sealed_params fragment file size plain))) a ≡ ok sealed
      → IsTimely sealed.body
      → bytes_of sealed.body
        ≡ join (
            seal_all d.crypto s key ivs file
              (length (chunks_of (length plain) size plain))
              1
              (chunks_of (length plain) size plain))
      → accept d (with_params args none) (record a { response = other }) ≡ ok unsealed
      → write_plaintext d.limits unsealed.body ≡ ok (read, plain)
      → contains w.files a.path ≡ false
      → scan_task fl d (with_params args (some (sealed_params fragment file size plain))) a w
        ≡ scan_task fl d (with_params args none) (record a { response = other }) w
  scan_task-sealed s key ivs fragment file size plain a w other sealed unsealed read fresh decoded
        room low high fits taken timely sent plainly written new =
      let params = some (sealed_params fragment file size plain) in
      let opened : write_file d.crypto d.limits params sealed.body ≡ ok plain = ap content_of (
        write_decrypted-sealed d.crypto s d.limits key ivs fragment file size plain sealed.body
          fresh decoded room low high fits timely sent) in
      let copied : write_file d.crypto d.limits none unsealed.body ≡ ok plain =
        ap content_of written in
      scan_task-with_params fl d args params none a other w
        (download-accepted params a sealed taken
          ∙ opened
          ∙ sym (download-accepted none (record a { response = other }) unsealed plainly ∙ copied))
        new
