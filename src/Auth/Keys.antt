-- ===== src/Auth/Keys.antt =====
-- src/jwt_auth.py, the keys loaded at import: `_load_private` and `_load_issuers`.
use Prim.Native.String.{count}
use file_scanner.Base.{
  ℕ, String, ◌<>◌, ◌%◌, not, Option, none, some, List, [], ◌∷◌, length, nat_eq, if◌then◌else◌,
  Result, ok, err, ◌>>=◌,
}
use file_scanner.Base.Dict.{Dict, set}
use file_scanner.Base.Text.{is_text, strip, split}
use file_scanner.Base.Chars.{has_char, before, after, rstrip_char}
use file_scanner.Encryption.{Bytes}
use file_scanner.Auth.{Library, JwtSettings, LoadedKeys}

abbrev pub key_bytes : ℕ
key_bytes = 32

-- Why the keys do not load: the entry without a separator, the text that is not base64, the length
-- of a key that is not 32 bytes long.
pub data Unloadable : Type 0 where
  no_separator : String → Unloadable
  not_base64 : String → Unloadable
  key_length : ℕ → Unloadable

-- "=" * (-n % 4)
abbrev padding : ℕ → String
padding n =
    let r = n % 4 in
    if nat_eq r 0 then "" else if nat_eq r 1 then "===" else if nat_eq r 2 then "==" else "="

abbrev of_bytes : Bytes → Result Unloadable Bytes
of_bytes raw = if nat_eq (length raw) key_bytes then ok raw else err (key_length (length raw))

abbrev of_decoded : String → Option Bytes → Result Unloadable Bytes
of_decoded fragment none = err (not_base64 fragment)
of_decoded fragment (some raw) = of_bytes raw

module _ {F : Type 0} (lib : Library F) where
  open lib use {Public, Private, b64decode, b64encode, public_of, private_of}

  -- _b64url_encode
  unfoldable pub b64url_encode : Bytes → String
  b64url_encode raw = rstrip_char b'=' (b64encode raw)

  -- _b64url_decode
  unfoldable pub b64url_decode : String → Option Bytes
  b64url_decode segment = b64decode (segment <> padding (count segment))

  -- _key_bytes
  unfoldable pub key_of : String → Result Unloadable Bytes
  unfolding b64url_decode
  key_of fragment = of_decoded (strip fragment) (b64url_decode (strip fragment))

  -- _load_private
  unfoldable pub load_private : JwtSettings → Result Unloadable (Option Private)
  unfolding key_of
  load_private settings =
      if not (is_text settings.jwt_signing_key)
      then ok none
      else key_of settings.jwt_signing_key >>= λ raw. ok (some (private_of raw))

  abbrev pub registered : String → Dict Public → Result Unloadable (Dict Public)
  registered entry keys =
      if not (has_char b':' entry)
      then err (no_separator entry)
      else key_of (after b':' entry) >>= λ raw.
          ok (set (strip (before b':' entry)) (public_of raw) keys)

  -- One round of the loop of `_load_issuers`.
  abbrev pub load_entry : String → Dict Public → Result Unloadable (Dict Public)
  load_entry raw_entry keys =
      let entry = strip raw_entry in if not (is_text entry) then ok keys else registered entry keys

  unfoldable pub load_entries : List String → Dict Public → Result Unloadable (Dict Public)
  load_entries [] keys = ok keys
  load_entries (raw_entry ∷ rest) keys =
      load_entry raw_entry keys >>= λ more. load_entries rest more

  -- _load_issuers
  unfoldable pub load_issuers : String → Result Unloadable (Dict Public)
  unfolding load_entries
  load_issuers jwt_issuer_keys = load_entries (split b',' jwt_issuer_keys) []

  -- The module's constants at import.
  unfoldable pub load_keys : JwtSettings → Result Unloadable (LoadedKeys Public Private)
  unfolding load_private load_issuers
  load_keys settings = load_private settings >>= λ private.
      load_issuers settings.jwt_issuer_keys >>= λ issuers.
      ok (record { private = private; issuers = issuers })
