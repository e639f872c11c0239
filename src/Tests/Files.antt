-- ===== src/Tests/Files.antt =====
-- A file of three bytes, plain and encrypted in two chunks.
use file_scanner.Download.Accepted.{
  ScanEncryption, valid_encryption, model_dump, plan_job-valid_encryption,
}
use file_scanner.Base.Value.{pos}
use file_scanner.Base.Chars.{has_char}
use file_scanner.Base.{
  ◌↔◌, true, err, ap, ◌∙◌, drop, ◌-◌, ◌≤◌, String, ◌≡◌, refl, false, some, [], ◌∷◌, ◌++◌, arith,
  length, take, length-append, take-append_exact, ok, ◌>>=◌,
}
use file_scanner.Encryption.{Bytes, Crypto, key_length, decode_key, matches_fragment}
use file_scanner.Download.{
  plan_job, Limits, Body, piece, finished, Job, start, decrypt_body, write_plaintext, write_from,
  check_limits, write_decrypted,
}
use file_scanner.Download.Streaming.{
  chunks_of, decrypt_all, count_checked, decrypt_body-chunks, decrypt_body-pieces, IsTimely,
}
use file_scanner.Download.Chunks.{join}
use file_scanner.Download.Sealing.{Sealer, seal_all}
use file_scanner.Download.RoundTrip.{sent_params, write_decrypted-sealed}
use file_scanner.Download.Caps.{write_plaintext-ok}

abbrev pub zeros_12 : Bytes
zeros_12 = 0 ∷ 0 ∷ 0 ∷ 0 ∷ 0 ∷ 0 ∷ 0 ∷ 0 ∷ 0 ∷ 0 ∷ 0 ∷ 0 ∷ []

abbrev tag : Bytes
tag = 0 ∷ 0 ∷ 0 ∷ 0 ∷ zeros_12

abbrev pub zero_key : Bytes
zero_key = tag ++ tag

-- Encryption that only adds the tag, and any text as the zero key.
abbrev pub plain_crypto : Crypto
plain_crypto = record {
  b64decode = λ s. some zero_key;
  gcm_decrypt = λ key iv blob aad. some (take (length blob - 16) blob);
}

abbrev pub plain_sealer : Sealer plain_crypto
plain_sealer = record {
  gcm_encrypt = λ key iv plain aad. plain ++ tag;
  opens = λ key iv plain aad. ap some (
      ap (λ n. take n (plain ++ tag)) (omega (arith, length-append plain tag))
      ∙ take-append_exact (length plain) plain tag refl);
  grows = λ key iv plain aad. length-append plain tag;
}

abbrev pub limits : Limits
limits = record { max_url_size = 4; encryption_min_chunk_size = 1; encryption_max_chunk_size = 8 }

abbrev pub plain : Bytes
plain = 1 ∷ 2 ∷ 3 ∷ []

abbrev pub fragment : String
fragment = "AAAAAAAAAAAAAAAAAAAAAAAAAAAAAAAAAAAAAAAAAAA"

pub fragment_key : decode_key plain_crypto fragment ≡ ok zero_key
unfolding decode_key matches_fragment
fragment_key = refl

abbrev wire : Bytes
wire =
    join (seal_all plain_crypto plain_sealer zero_key (λ n. zeros_12) "f" 2 1 (chunks_of 3 2 plain))

abbrev in_one : Body
in_one = piece false wire finished

abbrev pub in_two : Body
in_two = piece false (take 7 wire) (piece false (drop 7 wire) finished)

write_decrypted-sealed_example :
    write_decrypted plain_crypto limits (sent_params fragment "f" 2 2) in_two
    ≡ ok (length wire, plain)
write_decrypted-sealed_example =
    write_decrypted-sealed plain_crypto plain_sealer limits zero_key (λ n. zeros_12) fragment "f" 2
      plain in_two (λ n. refl) fragment_key (omega arith) (omega arith) (omega arith) (omega arith)
      (refl, (refl, tt)) refl

abbrev job : Job
job = record {
  crypto = plain_crypto;
  aes_key = zero_key;
  file = "f";
  total = 2;
  blob_size = 30;
  plain_cap = 4;
}

decrypt_body-pieces_example : decrypt_body job 100 in_one ≡ decrypt_body job 100 in_two
decrypt_body-pieces_example =
    decrypt_body-pieces job (omega arith) 100 in_one in_two (refl, tt) (refl, (refl, tt)) refl
      (omega arith)

decrypt_body-chunks_example :
    decrypt_body job 100 in_two
    ≡ (decrypt_all job start (chunks_of 59 30 wire) >>= count_checked job 59)
decrypt_body-chunks_example =
    decrypt_body-chunks job (omega arith) 100 in_two (refl, (refl, tt)) (omega arith)

plain_written : write_plaintext limits (piece false plain finished) ≡ ok (3, plain)
unfolding write_plaintext write_from check_limits
plain_written = refl

write_plaintext-ok_example :
    IsTimely (piece false plain finished)
    × (plain ≡ plain)
    × (3 ≡ length plain)
    × (length plain ≤ 4)
write_plaintext-ok_example =
    write_plaintext-ok limits (piece false plain finished) 3 plain plain_written

abbrev sent : ScanEncryption
sent = record {
  scheme_name = "aes-256-gcm-chunked-v1";
  key = fragment;
  chunk_size = pos 2;
  file_id = "f";
  parts = pos 2;
}

plan_job-valid_encryption_example :
    ((job : Job) × (plan_job plain_crypto limits (model_dump sent) ≡ ok job))
    ↔ ((raw : Bytes) × (decode_key plain_crypto fragment ≡ ok raw))
unfolding valid_encryption matches_fragment has_char
plan_job-valid_encryption_example = plan_job-valid_encryption plain_crypto limits sent refl

-- A key of 44 characters without padding is accepted, and is a byte too long for the worker.
abbrev long_key : ScanEncryption
long_key = record sent { key = "AAAAAAAAAAAAAAAAAAAAAAAAAAAAAAAAAAAAAAAAAAAA" }

long_key_test :
    (valid_encryption limits long_key ≡ true)
    × (decode_key (record plain_crypto { b64decode = λ s. some (0 ∷ zero_key) }) long_key.key
        ≡ err (key_length 33))
unfolding valid_encryption matches_fragment has_char decode_key
long_key_test = (refl, refl)
