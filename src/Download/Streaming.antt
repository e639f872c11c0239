-- ===== src/Download/Streaming.antt =====
-- src/tasks.py, `_write_decrypted` against a reading of the whole file.
use file_scanner.Base.{
  ℕ, zero, suc, ◌+◌, ◌≤◌, ◌<◌, ◌≡◌, refl, sym, ◌∙◌, true, false, List, [], ◌∷◌, ◌++◌, arith, length,
  take, drop, leb, nat_eq, if◌then◌else◌, is_nonempty, Result, ok, err, ◌>>=◌, Bool-cases, inl, inr,
  length-append, length-drop, take_all, drop_all,
}
use native.Mathlib.Nat.{add-zero, add_assoc, zero-add}
use mathlib.Core.List.{append-nil}
use file_scanner.Encryption.{Bytes}
use file_scanner.Download.{
  Body, finished, broken, piece, Progress, Job, Fault, decryption, wrong_count, take_chunk, drain,
  feed, flush, decrypt_from, decrypt_body, check_limits, start,
}
use file_scanner.Download.Draining.{
  Result-cases, >>=-assoc, >>=-ok, extend, buffer-take_chunk, drain_more, drain_done, drain-short,
  feed-append,
}

-- All the bytes of a body.
abbrev pub bytes_of : Body → Bytes
bytes_of finished = []
bytes_of (broken why) = []
bytes_of (piece late chunk rest) = chunk ++ bytes_of rest

-- A body that ends well, with the clock within the budget at each piece.
abbrev pub IsTimely : Body → Type 0
IsTimely finished = Unit
IsTimely (broken why) = ⊥
IsTimely (piece late chunk rest) = (late ≡ false) × IsTimely rest

-- The chunks of a file: `n` bytes each, the last with what is left.
abbrev pub chunks_of : ℕ → ℕ → Bytes → List Bytes
chunks_of zero n bytes = []
chunks_of (suc fuel) n [] = []
chunks_of (suc fuel) n (b ∷ bytes) = take n (b ∷ bytes) ∷ chunks_of fuel n (drop n (b ∷ bytes))

-- Decrypting the chunks in order.
abbrev pub decrypt_all : Job → Progress → List Bytes → Result Fault Progress
decrypt_all j st [] = ok st
decrypt_all j st (blob ∷ blobs) = take_chunk j blob [] st >>= λ st'. decrypt_all j st' blobs

-- The guard against truncation.
abbrev pub count_checked : Job → ℕ → Progress → Result Fault (ℕ × Bytes)
count_checked j read st =
    if nat_eq st.part_number j.total
    then ok (read, st.content)
    else err (decryption (wrong_count j.total st.part_number))

pub chunks_of-nil : (f n : ℕ) → chunks_of f n [] ≡ []
chunks_of-nil zero n = refl
chunks_of-nil (suc f) n = refl

module _ (j : Job) (room : 0 < j.blob_size) where
  feed_nothing : (st : Progress) → length st.buffer < j.blob_size → feed j [] st ≡ ok st
  unfolding feed
  feed_nothing st short = rw append-nil (drain_done j (length st.buffer) st (ground arith))

  feed-short : (c : Bytes) (st s : Progress) → feed j c st ≡ ok s → length s.buffer < j.blob_size
  unfolding feed
  feed-short c st s h = drain-short j room (length (st.buffer ++ c)) (extend st c) s (omega arith) h

  decrypt_from-feed :
      (most read : ℕ) (st : Progress) (body : Body)
      → IsTimely body
      → length st.buffer < j.blob_size
      → read + length (bytes_of body) ≤ most
      → decrypt_from j most read st body
        ≡ (feed j (bytes_of body) st >>= flush j >>= λ s. ok (read + length (bytes_of body), s))
  unfolding decrypt_from
  decrypt_from-feed most read st finished timely short fits = rw (feed_nothing, add-zero)
  decrypt_from-feed most read st (broken why) timely short fits = elim timely [ ]
  decrypt_from-feed most read st (piece late chunk rest) (on_time, timely) short fits =
      let total = length-append {0} chunk (bytes_of rest) in
      let passed : check_limits late (read + length chunk) most ≡ ok tt =
        unfold check_limits in ground (arith, total) in
      rw (passed, feed-append j room chunk (bytes_of rest) st)
        (elim (Result-cases (feed j chunk st)) [
          | inr (e, failed) ↦ rw failed
          | inl (s, fed) ↦
              let later =
                decrypt_from-feed most (read + length chunk) s rest timely
                  (feed-short chunk st s fed) (omega (arith, total)) in
              rw (fed, later, total, add_assoc read (length chunk) (length (bytes_of rest)))
        ])

  take_chunk-rest :
      (blob rest : Bytes) (st st' : Progress)
      → st.part_number ≡ st'.part_number
      → st.written ≡ st'.written
      → st.content ≡ st'.content
      → take_chunk j blob rest st
        ≡ (take_chunk j blob [] st' >>= λ s. ok (record s { buffer = rest }))
  unfolding take_chunk
  take_chunk-rest blob rest st st' p w c = ground arith

  abbrev holding : Bytes → Progress → Progress
  holding bytes st = record st { buffer = bytes }

  take_first :
      (st : Progress)
      → leb j.blob_size (length st.buffer) ≡ true
      → (f : ℕ)
      → ((s : Progress)
          → s.buffer ≡ []
          → (drain j f (holding (drop j.blob_size st.buffer) s) >>= flush j)
            ≡ decrypt_all j s (chunks_of f j.blob_size (drop j.blob_size st.buffer)))
      → (drain j (suc f) st >>= flush j) ≡ (
          take_chunk j (take j.blob_size st.buffer) [] (holding [] st) >>= λ s.
          decrypt_all j s (chunks_of f j.blob_size (drop j.blob_size st.buffer)))
  take_first st more f later =
      let blob = take j.blob_size st.buffer in
      let rest = drop j.blob_size st.buffer in
      rw (drain_more j f st more, take_chunk-rest blob rest st (holding [] st) refl refl refl)
        (elim (Result-cases (take_chunk j blob [] (holding [] st))) [
          | inr (e, failed) ↦ rw failed
          | inl (s, taken) ↦
              rw taken (later s (buffer-take_chunk j blob [] (holding [] st) s taken))
        ])

  take_last :
      (st : Progress)
      → leb j.blob_size (length st.buffer) ≡ false
      → is_nonempty st.buffer ≡ true
      → (f : ℕ) → (drain j f st >>= flush j) ≡ take_chunk j st.buffer [] (holding [] st)
  unfolding flush take_chunk
  take_last st short some_left f = rw (drain_done j f st short, some_left)

  -- Emptying the buffer is decrypting its chunks.
  drain-flush :
      (f : ℕ) (buffer : Bytes) (st : Progress)
      → length buffer ≤ f
      → st.buffer ≡ []
      → (drain j f (holding buffer st) >>= flush j)
        ≡ decrypt_all j st (chunks_of f j.blob_size buffer)
  drain-flush zero [] st hf empty = unfold drain flush in ground arith
  drain-flush zero (b ∷ bs) st hf empty = absurd (omega arith)
  drain-flush (suc f) [] st hf empty =
      rw (drain_done j (suc f) (holding [] st) (ground arith)) (unfold flush in ground arith)
  drain-flush (suc f) (b ∷ bs) st hf empty =
      let all_bytes = b ∷ bs in
      let same : holding [] st ≡ st = ground arith in
      elim (Bool-cases (leb j.blob_size (length all_bytes))) [
        | inr short ↦ rw (
          take_last (holding all_bytes st) short refl (suc f),
          take_all j.blob_size all_bytes (ground arith),
          drop_all j.blob_size all_bytes (ground arith),
          chunks_of-nil f j.blob_size,
          >>=-ok,
          same,
        )
        | inl more ↦ rw same at (
            take_first (holding all_bytes st) more f (λ s none_left.
              drain-flush f (drop j.blob_size all_bytes) s
                (ground (arith, length-drop j.blob_size all_bytes)) none_left))
      ]

  feed-flush :
      (bytes : Bytes)
      → (feed j bytes start >>= flush j)
        ≡ decrypt_all j start (chunks_of (length bytes) j.blob_size bytes)
  unfolding feed
  feed-flush bytes = drain-flush (length bytes) bytes start (omega arith) refl

  -- A body that ends well, in time and within the wire cap, gives what decrypting the chunks of its
  -- bytes in order gives, and the same error if one of them fails, however it was cut in pieces.
  pub decrypt_body-chunks :
      (most : ℕ) (body : Body)
      → IsTimely body
      → length (bytes_of body) ≤ most
      → decrypt_body j most body ≡ (
          decrypt_all j start (chunks_of (length (bytes_of body)) j.blob_size (bytes_of body))
          >>= count_checked j (length (bytes_of body)))
  unfolding decrypt_body
  decrypt_body-chunks most body timely fits =
      rw
        (
          decrypt_from-feed most 0 start body timely room (omega arith),
          feed-flush (bytes_of body),
          zero-add,
        )
        (>>=-assoc
          (decrypt_all j start (chunks_of (length (bytes_of body)) j.blob_size (bytes_of body))) _
          _)

  -- Two bodies of the same bytes that end well, in time and within the wire cap, have the same
  -- outcome, however the network cut each in pieces.
  pub decrypt_body-pieces :
      (most : ℕ) (body other : Body)
      → IsTimely body
      → IsTimely other
      → bytes_of body ≡ bytes_of other
      → length (bytes_of body) ≤ most
      → decrypt_body j most body ≡ decrypt_body j most other
  decrypt_body-pieces most body other timely timely' same fits =
      decrypt_body-chunks most body timely fits
      ∙ rw same (sym (decrypt_body-chunks most other timely' (rw same at fits)))
