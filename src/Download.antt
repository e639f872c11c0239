-- ===== src/Download.antt =====
-- src/tasks.py, the download half: `_wire_cap`, `_check_limits`, `_write_plaintext` and
-- `_write_decrypted`. A body is the sequence of pieces that `iter_content` yields; with each stands
-- whether the total-time budget was over when `_check_limits` read the clock. A writer returns the
-- bytes read and the content of the file. That it fails means that the file is removed.
pub mod Draining
pub mod Streaming
pub mod Caps
pub mod Chunks
pub mod Sealing
pub mod RoundTrip
pub mod Accepted
use Prim.Native.Nat.{max}
use file_scanner.Base.{
  ℕ, zero, suc, ◌+◌, ◌-◌, ◌*◌, ◌/◌, String, ◌<>◌, Bool, true, false, not, ◌&&◌, ◌||◌, Option, none,
  some, List, [], ◌∷◌, ◌++◌, length, take, drop, leb, ltb, nat_eq, is_nonempty, if◌then◌else◌,
  Result, ok, err, ◌>>=◌, ◌>>◌, ◌==◌,
}
use file_scanner.Base.Value.{ℤ, pos, negsuc}
use file_scanner.Encryption.{
  Bytes, Crypto, DecryptionError, unsupported_scheme, invalid_params, chunk_size_out_of_range,
  invalid_parts, wrong_count, scheme, overhead_per_chunk, decode_key, decrypt_chunk,
}

-- What the writers read of the settings.
pub record Limits : Type 0 where
  pub max_url_size : ℕ
  pub encryption_min_chunk_size : ℕ
  pub encryption_max_chunk_size : ℕ

-- A constructor for each place that raises `FileError`.
pub data FileError : Type 0 where
  download_timeout : FileError
  streamed_over : ℕ → FileError
  plaintext_over : ℕ → FileError
  declared_over : ℕ → ℕ → FileError

-- The exceptions that `scan_task` tells apart, before and during the download.
pub data Fault : Type 0 where
  file : FileError → Fault
  decryption : DecryptionError → Fault
  ssrf : String → Fault
  request : String → Fault
  unexpected : String → Fault

pub data Body : Type 0 where
  finished : Body
  broken : String → Body
  piece : (late : Bool) → Bytes → Body → Body

-- `encryption_params`, where `none` stands for a key that is missing or, of a number, that `int`
-- does not take. The scheme has a default.
pub record EncryptionParams : Type 0 where
  pub scheme_param : Option String
  pub key : Option String
  pub chunk_size : Option ℤ
  pub file_id : Option String
  pub parts : Option ℤ

abbrev room_for : ℕ → ℕ → ℕ
room_for most chunk_size = most + max 1 ((most + chunk_size - 1) / chunk_size) * overhead_per_chunk

-- _wire_cap, with `max_url_size` as its first argument.
pub wire_cap : ℕ → Option EncryptionParams → ℕ
wire_cap most none = most
wire_cap most (some enc) = elim enc.chunk_size [
  | some (pos (suc n)) ↦ room_for most (suc n)
  | _ ↦ most
]

-- _check_limits
unfoldable pub check_limits : Bool → ℕ → ℕ → Result Fault (Unit {0})
check_limits late read most =
    if late
    then err (file download_timeout)
    else if ltb most read
    then err (file (streamed_over most))
    else ok tt

-- The loop of `_write_plaintext`.
unfoldable pub write_from : ℕ → ℕ → Bytes → Body → Result Fault (ℕ × Bytes)
unfolding check_limits
write_from most read content finished = ok (read, content)
write_from most read content (broken why) = err (request why)
write_from most read content (piece late chunk rest) = do
  let read' = read + length chunk
  check_limits late read' most
  write_from most read' (content ++ chunk) rest

-- _write_plaintext
unfoldable pub write_plaintext : Limits → Body → Result Fault (ℕ × Bytes)
unfolding write_from
write_plaintext limits response = write_from limits.max_url_size 0 [] response

-- What the decrypting loop keeps between two pieces.
pub record Progress : Type 0 where
  pub buffer : Bytes
  pub part_number : ℕ
  pub written : ℕ
  pub content : Bytes

-- The variables before the loop.
abbrev pub start : Progress
start = record { buffer = []; part_number = 0; written = 0; content = [] }

-- The arguments that stay the same in the loop.
pub record Job : Type 0 where
  pub crypto : Crypto
  pub aes_key : Bytes
  pub file : String
  pub total : ℕ
  pub blob_size : ℕ
  pub plain_cap : ℕ

abbrev lift : Result DecryptionError Bytes → Result Fault Bytes
lift (ok plain) = ok plain
lift (err e) = err (decryption e)

module _ (j : Job) where
  -- `_write_plain` and what goes before it: decrypt one chunk, count it and write it.
  pub take_chunk : Bytes → Bytes → Progress → Result Fault Progress
  take_chunk blob rest st = do
    plain ← lift (decrypt_chunk j.crypto j.aes_key blob j.file (st.part_number + 1) j.total)
    let written' = st.written + length plain
    if ltb j.plain_cap written'
        then err (file (plaintext_over j.plain_cap))
        else ok (record {
          buffer = rest;
          part_number = st.part_number + 1;
          written = written';
          content = st.content ++ plain;
        })

  -- `while len(buffer) >= blob_size`. The fuel is at least the length of the buffer.
  pub drain : ℕ → Progress → Result Fault Progress
  drain zero st = ok st
  drain (suc fuel) st = elim (leb j.blob_size (length st.buffer)) [
    | true ↦ take_chunk (take j.blob_size st.buffer) (drop j.blob_size st.buffer) st >>= drain fuel
    | false ↦ ok st
  ]

  -- `buffer.extend(chunk)` and the inner loop.
  pub feed : Bytes → Progress → Result Fault Progress
  feed chunk st = drain (length (st.buffer ++ chunk)) (record st { buffer = st.buffer ++ chunk })

  -- `if buffer:` after the loop: the tail may be shorter than a chunk.
  pub flush : Progress → Result Fault Progress
  flush st = if is_nonempty st.buffer then take_chunk st.buffer [] st else ok st

  -- The loop of `_write_decrypted` over the response.
  pub decrypt_from : ℕ → ℕ → Progress → Body → Result Fault (ℕ × Progress)
  unfolding check_limits
  decrypt_from most read st finished = do st' ← flush st; ok (read, st')
  decrypt_from most read st (broken why) = err (request why)
  decrypt_from most read st (piece late chunk rest) = do
    let read' = read + length chunk
    check_limits late read' most
    st' ← feed chunk st
    decrypt_from most read' st' rest

  -- From opening the file to the guard against truncation.
  pub decrypt_body : ℕ → Body → Result Fault (ℕ × Bytes)
  unfolding decrypt_from feed flush drain take_chunk
  decrypt_body most response = do
    (read, st) ← decrypt_from most 0 start response
    if nat_eq st.part_number j.total
        then ok (read, st.content)
        else err (decryption (wrong_count j.total st.part_number))

-- `scheme not in SCHEMES`, with the default of `enc.get`.
abbrev known_scheme : Option String → Result Fault (Unit {0})
known_scheme none = ok tt
known_scheme (some s) = if s == scheme then ok tt else err (decryption (unsupported_scheme s))

abbrev needed {ℓ} : {A : Type ℓ} → Option A → Result Fault A
needed none = err (decryption invalid_params)
needed (some a) = ok a

abbrev chunk_in_range : Limits → ℤ → Result Fault ℕ
chunk_in_range limits (negsuc n) = err (decryption (chunk_size_out_of_range (negsuc n)))
chunk_in_range limits (pos n) =
    if leb limits.encryption_min_chunk_size n && leb n limits.encryption_max_chunk_size
    then ok n
    else err (decryption (chunk_size_out_of_range (pos n)))

abbrev counted : ℤ → Result Fault ℕ
counted (pos n) = ok n
counted (negsuc n) = err (decryption (invalid_parts (negsuc n)))

-- The checks of `_write_decrypted` before it opens the file.
pub plan_job : Crypto → Limits → EncryptionParams → Result Fault Job
plan_job crypto limits enc = do
  known_scheme enc.scheme_param
  fragment ← needed enc.key
  aes_key ← lift (decode_key crypto fragment)
  file_id ← needed enc.file_id
  size ← needed enc.chunk_size
  count ← needed enc.parts
  chunk_size ← chunk_in_range limits size
  parts ← counted count
  ok (record {
    crypto = crypto;
    aes_key = aes_key;
    file = file_id;
    total = parts;
    blob_size = chunk_size + overhead_per_chunk;
    plain_cap = limits.max_url_size;
  })

-- _write_decrypted
unfoldable pub write_decrypted :
    Crypto → Limits → EncryptionParams → Body → Result Fault (ℕ × Bytes)
unfolding plan_job decrypt_body
write_decrypted crypto limits enc response = do
  job ← plan_job crypto limits enc
  decrypt_body job (wire_cap limits.max_url_size (some enc)) response
