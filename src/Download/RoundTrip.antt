-- ===== src/Download/RoundTrip.antt =====
-- src/tasks.py, `_write_decrypted`, against the layout of src/encryption.py.

use file_scanner.Base.{
  ℕ, zero, suc, ◌+◌, ◌≤◌, ◌<◌, ◌≡◌, refl, ap, some, String, arith, length, ok, none, ◌*◌, ◌∙◌,
}
use file_scanner.Base.Value.{pos}
use file_scanner.Encryption.{Bytes, Crypto, iv_bytes}
use file_scanner.Download.{
  Job, Body, EncryptionParams, wire_cap, write_decrypted, Limits, pos, decode_key, decrypt_body,
  start, plan_job,
}
use file_scanner.Download.Streaming.{chunks_of, IsTimely, bytes_of, decrypt_body-chunks}
use file_scanner.Download.Chunks.{join, count-le-ceil, join-chunks_of, chunks_of-nonempty}
use file_scanner.Download.Sealing.{
  Sealer, seal_all, sealed_all, decrypt_all-sealed, chunks_of-sealed, length-join_sealed,
}

module _ (j : Job) (s : Sealer j.crypto) (ivs : ℕ → Bytes)
    (fresh : (n : ℕ) → length (ivs n) ≡ iv_bytes) where
  -- A sealed file is decrypted to itself.
  decrypt_body-sealed :
      (most size : ℕ) (plain : Bytes) (body : Body)
      → 0 < size
      → j.blob_size ≡ size + 28
      → j.total ≡ length (chunks_of (length plain) size plain)
      → length plain ≤ j.plain_cap
      → IsTimely body
      → bytes_of body ≡ join (sealed_all j s ivs fresh 1 (chunks_of (length plain) size plain))
      → length (bytes_of body) ≤ most
      → decrypt_body j most body ≡ ok (length (bytes_of body), plain)
  decrypt_body-sealed most size plain body room blob count fits timely sent short =
      let plains = chunks_of (length plain) size plain in
      let wire = join (sealed_all j s ivs fresh 1 plains) in
      let whole = join-chunks_of size room (length plain) plain (omega arith) in
      let cut : chunks_of (length wire) j.blob_size wire ≡ sealed_all j s ivs fresh 1 plains =
        ap (λ n. chunks_of (length wire) n wire) blob
        ∙ chunks_of-sealed j s ivs fresh (length plain) (length wire) 1 size plain room
            (omega arith) (omega arith) in
      let opened =
        decrypt_all-sealed j s ivs fresh plains start
          (chunks_of-nonempty size room (length plain) plain) refl (rw whole (omega arith)) in
      decrypt_body-chunks j (omega arith) most body timely short
      ∙ rw (sent, cut, opened, whole) (ground arith)

-- The parameters that the caller sends with a sealed file.
abbrev pub sent_params : String → String → ℕ → ℕ → EncryptionParams
sent_params fragment file size total = record {
  scheme_param = none;
  key = some fragment;
  chunk_size = some (pos size);
  file_id = some file;
  parts = some (pos total);
}

-- The room that `_wire_cap` leaves is enough for every file of at most `max_url_size` bytes.
wire_cap-fits :
    (most size : ℕ) (plain : Bytes) (enc : EncryptionParams)
    → enc.chunk_size ≡ some (pos size)
    → 0 < size
    → length plain ≤ most
    → length plain + length (chunks_of (length plain) size plain) * 28 ≤ wire_cap most (some enc)
unfolding wire_cap
wire_cap-fits most zero plain enc declared room fits = elim room [ ]
wire_cap-fits most (suc size) plain enc declared room fits =
    rw declared
      (omega (arith, count-le-ceil (suc size) room most (length plain) plain (omega arith) fits))

-- A file of at most `max_url_size` bytes that its caller encrypted, chunk by chunk and each at its
-- position, and declared as it is, comes to the scanners as it was, however the network cuts it:
-- the checks accept the parameters, the wire cap has room, and no chunk is refused.
pub write_decrypted-sealed :
    (c : Crypto) (s : Sealer c) (limits : Limits) (key : Bytes) (ivs : ℕ → Bytes)
    (fragment file : String) (size : ℕ) (plain : Bytes) (body : Body)
    → ((n : ℕ) → length (ivs n) ≡ iv_bytes)
    → decode_key c fragment ≡ ok key
    → 0 < size
    → limits.encryption_min_chunk_size ≤ size
    → size ≤ limits.encryption_max_chunk_size
    → length plain ≤ limits.max_url_size
    → IsTimely body
    → bytes_of body
      ≡ join (
          seal_all c s key ivs file
            (length (chunks_of (length plain) size plain))
            1
            (chunks_of (length plain) size plain))
    → write_decrypted c limits
        (sent_params fragment file size (length (chunks_of (length plain) size plain)))
        body
      ≡ ok (length (bytes_of body), plain)
unfolding write_decrypted
write_decrypted-sealed c s limits key ivs fragment file size plain body fresh decoded room low high
      fits timely sent =
    let total = length (chunks_of (length plain) size plain) in
    let j : Job = record {
      crypto = c;
      aes_key = key;
      file = file;
      total = total;
      blob_size = size + 28;
      plain_cap = limits.max_url_size;
    } in
    let enc = sent_params fragment file size total in
    let planned : plan_job c limits enc ≡ ok j = unfold plan_job in ground arith in
    let room_left = wire_cap-fits limits.max_url_size size plain enc refl room fits in
    rw planned (
      decrypt_body-sealed j s ivs fresh (wire_cap limits.max_url_size (some enc)) size plain body
        room refl refl fits timely sent
        (rw sent (
          omega (
            arith,
            length-join_sealed j s ivs fresh 1 (chunks_of (length plain) size plain),
            ap length (join-chunks_of size room (length plain) plain (omega arith)),
          ))))
