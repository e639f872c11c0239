-- ===== src/Engines/Framing.antt =====
-- src/scanners/exav.py, `_ExavClient.exinstream`: the frames in which a file is sent. Bytes are
-- numbers below 256, and `sendall` appends to what has been sent.
use Prim.Native.Nat.{ℕ, zero, suc, ◌/◌, ◌%◌, ◌*◌, ◌+◌, ◌≤◌, ◌<◌}
use file_scanner.Base.{
  ◌≡◌, refl, sym, ap, ◌∙◌, true, inl, inr, Bool-cases, Option, none, some, [], ◌∷◌, ◌++◌, length,
  take, drop, is_nonempty, nat_eq, ltb, if◌then◌else◌, arith,
}
use mathlib.Core.List.{append_assoc, append-nil}
use file_scanner.Base.{
  length-take, length-drop, take-append-drop, take-append_exact, drop-append_exact, length-append,
}
use file_scanner.Encryption.{Bytes}

-- _STREAM_CHUNK
abbrev stream_chunk : ℕ
stream_chunk = 1024

-- struct.pack(b"!L", n) of a number below 2 ** 32
abbrev pack : ℕ → Bytes
pack n = n / 16777216 ∷ n / 65536 % 256 ∷ n / 256 % 256 ∷ n % 256 ∷ []

-- The rounds of the loop, until `read` has nothing more to return.
send_chunks : ℕ → Bytes → Bytes → Bytes
send_chunks zero content sent = sent
send_chunks (suc fuel) content sent =
    let chunk = take stream_chunk content in
    let next =
      send_chunks fuel (drop stream_chunk content) (sent ++ (pack (length chunk) ++ chunk)) in
    if is_nonempty chunk then next else sent

-- exinstream, after the command: every round reads a byte at least.
unfoldable pub exinstream : Bytes → Bytes
unfolding send_chunks
exinstream content = send_chunks (suc (length content)) content [] ++ pack 0

-- The number that four bytes stand for.
abbrev unpack : ℕ → ℕ → ℕ → ℕ → ℕ
unpack a b c d = a * 16777216 + b * 65536 + c * 256 + d

abbrev prepend : Bytes → Option Bytes → Option Bytes
prepend chunk none = none
prepend chunk (some more) = some (chunk ++ more)

-- What a daemon reads that takes INSTREAM frames: a length, that many bytes, and so on up to a length
-- of 0. `none` is a stream that ends before.
pub receive : ℕ → Bytes → Option Bytes
receive (suc fuel) (a ∷ b ∷ c ∷ d ∷ rest) =
    let n = unpack a b c d in
    let more = receive fuel (drop n rest) in
    if nat_eq n 0 then some [] else if ltb (length rest) n then none else prepend (take n rest) more
receive fuel sent = none

-- What the loop adds to what has been sent.
frames : ℕ → Bytes → Bytes
frames zero content = []
frames (suc fuel) content =
    let chunk = take stream_chunk content in
    let next = frames fuel (drop stream_chunk content) in
    if is_nonempty chunk then pack (length chunk) ++ (chunk ++ next) else []

send_chunks-frames :
    (fuel : ℕ) (content sent : Bytes) → send_chunks fuel content sent ≡ sent ++ frames fuel content
unfolding send_chunks frames
send_chunks-frames zero content sent = sym (append-nil sent)
send_chunks-frames (suc fuel) content sent =
    let chunk = take stream_chunk content in
    let next = frames fuel (drop stream_chunk content) in
    let head = pack (length chunk) ++ chunk in
    elim (Bool-cases (is_nonempty chunk)) [
      | inl h ↦ rw (h) (
          send_chunks-frames fuel (drop stream_chunk content) (sent ++ head)
          ∙ append_assoc sent head next
          ∙ ap (λ t. sent ++ t) (append_assoc (pack (length chunk)) chunk next))
      | inr h ↦ rw (h) (sym (append-nil sent))
    ]

unpack-pack :
    (n : ℕ) → n ≤ 1024 → unpack (n / 16777216) (n / 65536 % 256) (n / 256 % 256) (n % 256) ≡ n
unpack-pack n h = omega arith

nonempty-length : (xs : Bytes) → is_nonempty xs ≡ true → 1 ≤ length xs
nonempty-length [] h = absurd (ground (arith, h))
nonempty-length (x ∷ xs) h = omega arith

receive-frame :
    (fuel : ℕ) (chunk rest content : Bytes)
    → length chunk ≤ 1024
    → is_nonempty chunk ≡ true
    → receive fuel rest ≡ some content
    → receive (suc fuel) (pack (length chunk) ++ (chunk ++ rest)) ≡ some (chunk ++ content)
unfolding receive
receive-frame fuel chunk rest content small some_left next =
    let size = unpack-pack (length chunk) small in
    rw (size) (
      rw
        (
          take-append_exact (length chunk) chunk rest refl,
          drop-append_exact (length chunk) chunk rest refl,
          next,
        )
        (ground (arith, length-append chunk rest, nonempty-length chunk some_left)))

frames-step :
    (fuel b : ℕ) (bytes : Bytes)
    → let chunk = take stream_chunk (b ∷ bytes) in
      frames (suc fuel) (b ∷ bytes)
      ≡ pack (length chunk) ++ (chunk ++ frames fuel (drop stream_chunk (b ∷ bytes)))
unfolding frames
frames-step fuel b bytes = refl

receive-end : (f g : ℕ) → receive (suc f) (frames (suc g) [] ++ pack 0) ≡ some []
unfolding receive frames
receive-end f g = refl

receive-frames :
    (f g : ℕ) (content : Bytes)
    → length content ≤ f
    → length content ≤ g
    → receive (suc f) (frames (suc g) content ++ pack 0) ≡ some content
receive-frames f g [] h k = receive-end f g
receive-frames zero g (b ∷ bytes) h k = absurd (omega arith)
receive-frames (suc f) zero (b ∷ bytes) h k = absurd (omega arith)
receive-frames (suc f) (suc g) (b ∷ bytes) h k =
    let chunk = take stream_chunk (b ∷ bytes) in
    let left = drop stream_chunk (b ∷ bytes) in
    let short : length left ≤ length bytes = omega (arith, length-drop 1024 (b ∷ bytes)) in
    rw
      (
        frames-step (suc g) b bytes,
        append_assoc (pack (length chunk)) (chunk ++ frames (suc g) left) (pack 0),
        append_assoc chunk (frames (suc g) left) (pack 0),
      )
      (receive-frame (suc f) chunk (frames (suc g) left ++ pack 0) left
          (omega (arith, length-take 1024 (b ∷ bytes))) refl
          (receive-frames f g left (omega arith) (omega arith))
        ∙ ap some (take-append-drop stream_chunk (b ∷ bytes)))

-- A daemon that reads the frames of a file has the file's bytes, of any length, and stops at the end
-- of the stream, whatever number of rounds above the file's length it may take.
pub receive-exinstream :
    (rounds : ℕ) (content : Bytes)
    → length content < rounds
    → receive rounds (exinstream content) ≡ some content
unfolding exinstream
receive-exinstream zero content h = absurd (omega arith)
receive-exinstream (suc rounds) content h =
    rw (send_chunks-frames (suc (length content)) content [])
      (receive-frames rounds (length content) content (omega arith) (omega arith))
