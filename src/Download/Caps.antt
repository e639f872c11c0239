-- ===== src/Download/Caps.antt =====
-- src/tasks.py, what `_write_plaintext` lets onto the disk.
use mathlib.Core.List.{append_assoc, append-nil}
use file_scanner.Encryption.{Bytes}
use file_scanner.Base.{>>=-eq-ok}
use file_scanner.Base.{
  ℕ, ◌+◌, ◌≤◌, ◌≡◌, refl, ap, ◌∙◌, Bool, true, false, [], ◌++◌, length, length-append, arith, ok,
}
use file_scanner.Download.{
  Bytes, Body, finished, broken, piece, Limits, check_limits, write_from, write_plaintext,
}
use file_scanner.Download.Streaming.{bytes_of, IsTimely}

check_limits-ok :
    (late : Bool) (read most : ℕ)
    → check_limits late read most ≡ ok tt
    → (late ≡ false) × (read ≤ most)
unfolding check_limits
check_limits-ok true read most h = cc
check_limits-ok false read most h = (refl, ground (arith, h))

write_from-ok :
    (most read : ℕ) (content : Bytes) (body : Body) (r : ℕ) (c : Bytes)
    → read ≤ most
    → write_from most read content body ≡ ok (r, c)
    → IsTimely body
      × (c ≡ content ++ bytes_of body)
      × (r ≡ read + length (bytes_of body))
      × (r ≤ most)
unfolding write_from
write_from-ok most read content finished r c le h =
    (tt, cc (h, append-nil content), ground (arith, h), ground (arith, h, le))
write_from-ok most read content (broken why) r c le h = cc
write_from-ok most read content (piece late chunk rest) r c le h =
    let (_, checked, more) =
      >>=-eq-ok (check_limits late (read + length chunk) most)
        (λ _. write_from most (read + length chunk) (content ++ chunk) rest) h in
    let (on_time, fits) = check_limits-ok late (read + length chunk) most (cc (checked)) in
    let (timely, written, counted, bounded) =
      write_from-ok most (read + length chunk) (content ++ chunk) rest r c fits more in
    (
      (on_time, timely),
      written ∙ append_assoc content chunk (bytes_of rest),
      counted ∙ omega (arith, length-append chunk (bytes_of rest)),
      bounded,
    )

-- A plain download that succeeds is the whole body, as it came, no longer than `max_url_size`, and
-- came within the time budget; the bytes that are reported as read are its length.
pub write_plaintext-ok :
    (limits : Limits) (response : Body) (read : ℕ) (content : Bytes)
    → write_plaintext limits response ≡ ok (read, content)
    → IsTimely response
      × (content ≡ bytes_of response)
      × (read ≡ length content)
      × (length content ≤ limits.max_url_size)
unfolding write_plaintext
write_plaintext-ok limits response read content h =
    let (timely, written, counted, bounded) =
      write_from-ok limits.max_url_size 0 [] response read content (omega arith) h in
    (
      timely,
      written,
      omega (arith, counted, ap length written),
      omega (arith, counted, bounded, ap length written),
    )
