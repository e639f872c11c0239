-- ===== src/Download/Sealing.antt =====
-- The layout of src/encryption.py as a caller writes it, and how `_write_decrypted` of src/tasks.py
-- takes it apart.
use mathlib.Core.List.{append_assoc, append-nil}
use file_scanner.Base.{
  ℕ, zero, suc, ◌+◌, ◌≤◌, ◌<◌, ◌≡◌, refl, ap, true, some, String, List, [], ◌∷◌, ◌++◌, arith,
  length, take, drop, is_nonempty, leb, ok, length-append, drop_all, Bool-cases, inl, inr,
  length-take, length-drop, take-append_exact, drop-append_exact, All, ◌⊎◌, ◌*◌,
}
use file_scanner.Encryption.{Bytes, Crypto, iv_bytes, chunk_aad, decrypt_chunk}
use file_scanner.Download.{Progress, Job, take_chunk}
use file_scanner.Download.Streaming.{chunks_of, chunks_of-nil, decrypt_all}
use file_scanner.Download.Chunks.{join, chunks_of-append}

-- AES-256-GCM as the caller has it: what it encrypts is decrypted under the same key, IV and
-- additional data, and is longer by the tag.
pub record Sealer (c : Crypto) : Type 0 where
  pub gcm_encrypt : Bytes → Bytes → Bytes → String → Bytes
  pub opens :
      (key iv plain : Bytes) (aad : String)
      → c.gcm_decrypt key iv (gcm_encrypt key iv plain aad) aad ≡ some plain
  pub grows :
      (key iv plain : Bytes) (aad : String)
      → length (gcm_encrypt key iv plain aad) ≡ length plain + 16

-- What the caller sends: for each chunk of the file its IV, and the chunk encrypted at its position.
module _ (c : Crypto) (s : Sealer c) (key : Bytes) (ivs : ℕ → Bytes) (file : String)
    (total : ℕ) where
  abbrev seal : ℕ → Bytes → Bytes
  seal n plain = ivs n ++ s.gcm_encrypt key (ivs n) plain (chunk_aad file n total)

  abbrev pub seal_all : ℕ → List Bytes → List Bytes
  seal_all n [] = []
  seal_all n (plain ∷ plains) = seal n plain ∷ seal_all (n + 1) plains

module _ (j : Job) (s : Sealer j.crypto) (ivs : ℕ → Bytes)
    (fresh : (n : ℕ) → length (ivs n) ≡ iv_bytes) where
  abbrev sealed : ℕ → Bytes → Bytes
  sealed = seal j.crypto s j.aes_key ivs j.file j.total

  abbrev pub sealed_all : ℕ → List Bytes → List Bytes
  sealed_all = seal_all j.crypto s j.aes_key ivs j.file j.total

  length-sealed : (n : ℕ) (plain : Bytes) → length (sealed n plain) ≡ length plain + 28
  length-sealed n plain = rw (length-append, fresh n, s.grows) (omega arith)

  nonempty-length : (plain : Bytes) → is_nonempty plain ≡ true → 0 < length plain
  nonempty-length [] h = cc
  nonempty-length (b ∷ plain) h = omega arith

  nonempty_of_length : (bytes : Bytes) → 0 < length bytes → is_nonempty bytes ≡ true
  nonempty_of_length [] h = absurd (omega arith)
  nonempty_of_length (b ∷ bytes) h = refl

  decrypt_chunk-sealed :
      (n : ℕ) (plain : Bytes)
      → is_nonempty plain ≡ true
      → decrypt_chunk j.crypto j.aes_key (sealed n plain) j.file n j.total ≡ ok plain
  unfolding decrypt_chunk
  decrypt_chunk-sealed n plain some_left =
      let body = s.gcm_encrypt j.aes_key (ivs n) plain (chunk_aad j.file n j.total) in
      ground (
        arith,
        take-append_exact iv_bytes (ivs n) body (fresh n),
        drop-append_exact iv_bytes (ivs n) body (fresh n),
        s.opens j.aes_key (ivs n) plain (chunk_aad j.file n j.total),
        length-sealed n plain,
        nonempty-length plain some_left,
      )

  take_chunk-sealed :
      (plain : Bytes) (st : Progress)
      → is_nonempty plain ≡ true
      → st.written + length plain ≤ j.plain_cap
      → take_chunk j (sealed (st.part_number + 1) plain) [] st
        ≡ ok (record {
          buffer = [];
          part_number = st.part_number + 1;
          written = st.written + length plain;
          content = st.content ++ plain;
        })
  unfolding take_chunk
  take_chunk-sealed plain st some_left fits =
      rw (decrypt_chunk-sealed (st.part_number + 1) plain some_left) (ground arith)

  pub decrypt_all-sealed :
      (plains : List Bytes) (st : Progress)
      → All (λ c. is_nonempty c ≡ true) plains
      → st.buffer ≡ []
      → st.written + length (join plains) ≤ j.plain_cap
      → decrypt_all j st (sealed_all (st.part_number + 1) plains)
        ≡ ok (record {
          buffer = [];
          part_number = st.part_number + length plains;
          written = st.written + length (join plains);
          content = st.content ++ join plains;
        })
  decrypt_all-sealed [] st full empty fits = ground (arith, append-nil st.content)
  decrypt_all-sealed (plain ∷ plains) st (here, later) empty fits =
      let total = length-append {0} plain (join plains) in
      let st' : Progress = record {
        buffer = [];
        part_number = st.part_number + 1;
        written = st.written + length plain;
        content = st.content ++ plain;
      } in
      rw
        (
          take_chunk-sealed plain st here (omega (arith, total)),
          decrypt_all-sealed plains st' later refl (omega (arith, total)),
        )
        (ground (arith, total, append_assoc st.content plain (join plains)))

  sealed-shape :
      (f n size : ℕ) (plain : Bytes)
      → (length (sealed n (take size plain)) ≡ size + 28)
        ⊎ ((length (sealed n (take size plain)) ≤ size + 28)
            × (join (sealed_all (n + 1) (chunks_of f size (drop size plain))) ≡ []))
  sealed-shape f n size plain = elim (Bool-cases (leb size (length plain))) [
    | inl full ↦ inl (ground (arith, length-sealed n (take size plain), length-take size plain))
    | inr last ↦ inr (
      ground (arith, length-sealed n (take size plain), length-take size plain),
      rw (drop_all size plain (ground arith), chunks_of-nil f size),
    )
  ]

  nonempty-sealed : (n : ℕ) (plain : Bytes) → is_nonempty (sealed n plain) ≡ true
  nonempty-sealed n plain =
      nonempty_of_length (sealed n plain) (omega (arith, length-sealed n plain))

  -- The bytes on the wire split in the chunks that were sealed.
  pub chunks_of-sealed :
      (f g n size : ℕ) (plain : Bytes)
      → 0 < size
      → length plain ≤ f
      → length (join (sealed_all n (chunks_of f size plain))) ≤ g
      → chunks_of g (size + 28) (join (sealed_all n (chunks_of f size plain)))
        ≡ sealed_all n (chunks_of f size plain)
  chunks_of-sealed zero g n size plain room h k = chunks_of-nil g (size + 28)
  chunks_of-sealed (suc f) g n size [] room h k = chunks_of-nil g (size + 28)
  chunks_of-sealed (suc f) zero n size (b ∷ plain) room h k = absurd (
      omega (
        arith,
        length-sealed n (take size (b ∷ plain)),
        length-append {0} (sealed n (take size (b ∷ plain)))
            (join (sealed_all (n + 1) (chunks_of f size (drop size (b ∷ plain))))),
      ))
  chunks_of-sealed (suc f) (suc g) n size (b ∷ plain) room h k =
      let first = take size (b ∷ plain) in
      let rest = drop size (b ∷ plain) in
      let tail = join (sealed_all (n + 1) (chunks_of f size rest)) in
      let long = length-sealed n first in
      let total = length-append {0} (sealed n first) tail in
      let shape : (length (sealed n first) ≡ size + 28)
          ⊎ ((length (sealed n first) ≤ size + 28) × (tail ≡ [])) =
        sealed-shape f n size (b ∷ plain) in
      rw (chunks_of-append g (size + 28) (sealed n first) tail (nonempty-sealed n first) shape) (
        ap (λ t. sealed n first ∷ t)
          (chunks_of-sealed f g (n + 1) size rest room
            (ground (arith, length-drop size (b ∷ plain))) (omega arith)))

  pub length-join_sealed :
      (n : ℕ) (plains : List Bytes)
      → length (join (sealed_all n plains)) ≡ length (join plains) + length plains * 28
  length-join_sealed n [] = omega arith
  length-join_sealed n (plain ∷ plains) = omega (
    arith,
    length-join_sealed (n + 1) plains,
    length-sealed n plain,
    length-append {0} (sealed n plain) (join (sealed_all (n + 1) plains)),
    length-append {0} plain (join plains),
  )
