-- ===== src/Encryption.antt =====
-- src/encryption.py. AES-GCM and base64 are parameters; bytes are lists of numbers.
use Prim.Native.Nat.{ℕ, ◌+◌, ◌-◌, ◌%◌}
use Prim.Native.Char.{code}
use Prim.Native.String.{count}
use file_scanner.Base.{
  String, ◌<>◌, Bool, true, false, ◌&&◌, ◌||◌, Option, none, some, List, length, take, drop, leb,
  nat_eq, if◌then◌else◌, Result, ok, err, ◌==◌,
}
use file_scanner.Base.Text.{decimal}
use file_scanner.Base.Value.{ℤ}

abbrev pub Bytes : Type 0
Bytes = List ℕ

-- What the code calls: `base64.urlsafe_b64decode`, where `none` is a `binascii.Error`, and
-- `AESGCM(key).decrypt(iv, body, aad)`, where `none` is an `InvalidTag`.
pub record Crypto : Type 0 where
  pub b64decode : String → Option Bytes
  pub gcm_decrypt : Bytes → Bytes → Bytes → String → Option Bytes

-- A constructor for each place that raises `DecryptionError`, with the values it names.
pub data DecryptionError : Type 0 where
  unsupported_scheme : String → DecryptionError
  not_url_safe : DecryptionError
  key_length : ℕ → DecryptionError
  invalid_params : DecryptionError
  chunk_size_out_of_range : ℤ → DecryptionError
  invalid_parts : ℤ → DecryptionError
  chunk_too_short : ℕ → ℕ → DecryptionError
  not_authentic : ℕ → DecryptionError
  wrong_count : ℕ → ℕ → DecryptionError

abbrev pub scheme : String
scheme = "aes-256-gcm-chunked-v1"

abbrev pub iv_bytes : ℕ
iv_bytes = 12

abbrev gcm_tag_bytes : ℕ
gcm_tag_bytes = 16

abbrev pub key_bytes : ℕ
key_bytes = 32

abbrev pub overhead_per_chunk : ℕ
overhead_per_chunk = iv_bytes + gcm_tag_bytes

abbrev in_alphabet : ℕ → Bool
in_alphabet c =
    (leb b'A' c && leb c b'Z')
    || (leb b'a' c && leb c b'z')
    || (leb b'0' c && leb c b'9')
    || nat_eq c b'_'
    || nat_eq c b'-'

-- What may follow the padding: the end, or one newline at the end, which `$` allows.
abbrev at_end : String → Bool
at_end String.[] = true
at_end (String.◌∷◌ c s) = nat_eq (code c) 10 && s == ""

abbrev after_pad : String → Bool
after_pad String.[] = true
after_pad (String.◌∷◌ c s) = if nat_eq (code c) b'=' then at_end s else at_end (String.◌∷◌ c s)

matches_tail : String → Bool
matches_tail String.[] = true
matches_tail (String.◌∷◌ c s) =
    let rest = matches_tail s in
    if in_alphabet (code c)
    then rest
    else if nat_eq (code c) b'='
    then after_pad s
    else at_end (String.◌∷◌ c s)

-- _FRAGMENT_RE.match: `^[A-Za-z0-9_-]+={0,2}$`
unfoldable pub matches_fragment : String → Bool
unfolding matches_tail
matches_fragment String.[] = false
matches_fragment (String.◌∷◌ c s) = in_alphabet (code c) && matches_tail s

-- `"=" * n` for the three values of `-len(fragment) % 4` that base64 allows, and one more.
abbrev pads : ℕ → String
pads n = if nat_eq n 0 then "" else if nat_eq n 1 then "=" else if nat_eq n 2 then "==" else "==="

-- The additional data of a chunk, before it is encoded.
unfoldable pub chunk_aad : String → ℕ → ℕ → String
unfolding decimal
chunk_aad file_id part_number parts = file_id <> ":" <> decimal part_number <> ":" <> decimal parts

module _ (c : Crypto) where
  -- decode_key. A `binascii.Error` of `b64decode` is a `ValueError`, which the only caller turns
  -- into the error for invalid parameters.
  unfoldable pub decode_key : String → Result DecryptionError Bytes
  unfolding matches_fragment
  decode_key fragment =
      if matches_fragment fragment
      then elim (c.b64decode (fragment <> pads ((4 - count fragment % 4) % 4))) [
        | none ↦ err invalid_params
        | some raw ↦ if nat_eq (length raw) key_bytes then ok raw else err (key_length (length raw))
      ]
      else err not_url_safe

  -- decrypt_chunk
  unfoldable pub decrypt_chunk : Bytes → Bytes → String → ℕ → ℕ → Result DecryptionError Bytes
  decrypt_chunk key blob file_id part_number parts =
      if leb (length blob) overhead_per_chunk
      then err (chunk_too_short part_number (length blob))
      else elim (c.gcm_decrypt key (take iv_bytes blob) (drop iv_bytes blob)
          (chunk_aad file_id part_number parts)) [
            | none ↦ err (not_authentic part_number)
            | some plain ↦ ok plain
          ]
