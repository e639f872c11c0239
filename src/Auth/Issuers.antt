-- ===== src/Auth/Issuers.antt =====
-- deploy/scripts/new-issuer.py, which prints the keys of a new caller, and `_load_issuers` of
-- src/jwt_auth.py, which loads them.
use text.Mathlib.TextLemmas.{cons-append, nil-append}
use file_scanner.Base.{
  ℕ, String, ◌<>◌, ◌≡◌, refl, ap, ◌∙◌, true, false, not, ◌||◌, some, List, [], ◌∷◌, ◌++◌, length,
  if◌then◌else◌, Result, ok, err, ◌>>=◌, ◌==◌, starts_with, arith, ◌⊎◌, inl, inr,
}
use file_scanner.Base.Dict.{Dict, set}
use file_scanner.Base.Text.{is_text, strip, split}
use file_scanner.Base.Chars.{has_char}
use file_scanner.Base.TextLaws.{
  split-append, split_of_none, before-append, after-append, has_char-append, first_blank,
  first_blank-strip, strip_idem, strip-append, text-append,
}
use file_scanner.Encryption.{Bytes}
use file_scanner.Auth.{Library}
use file_scanner.Auth.Keys.{
  b64url_encode, b64url_decode, key_of, load_entry, load_entries, load_issuers,
}

-- What the script does: it exits with a code, or it prints a signing key, or the private key and the
-- fragment of a new issuer.
pub data Printed : Type 0 where
  exits : ℕ → Printed
  signing_key : String → Printed
  new_issuer : (private : String) → (fragment : String) → Printed

module _ {F : Type 0} (lib : Library F) (private_bytes public_bytes : Bytes) where
  abbrev issuer_keys : String → Printed
  issuer_keys iss =
      if has_char b':' iss || has_char b',' iss
      then exits 2
      else new_issuer (b64url_encode lib private_bytes)
          (iss <> ":" <> b64url_encode lib public_bytes)

  abbrev for_name : String → Printed
  for_name name =
      if not (is_text (strip name)) || starts_with name "-"
      then exits 2
      else issuer_keys (strip name)

  -- main, with the bytes of the key that it generates
  unfoldable pub new_issuer_main : List String → Printed
  unfolding b64url_encode
  new_issuer_main (script ∷ name ∷ []) =
      if name == "--signing-key"
      then signing_key (b64url_encode lib private_bytes)
      else for_name name
  new_issuer_main _ = exits 2

Result-cases : {X R : Type 0} (r : Result X R) → ((x : X) × (r ≡ err x)) ⊎ ((a : R) × (r ≡ ok a))
Result-cases (err x) = inl (x, refl)
Result-cases (ok a) = inr (a, refl)

colon-append : (t : String) → ":" <> t ≡ String.◌∷◌ ":" t
colon-append t = cons-append ":" "" t ∙ ap (String.◌∷◌ ":") (nil-append t)

has_colon : (s t : String) → has_char b':' (s <> String.◌∷◌ ":" t) ≡ true
unfolding has_char
has_colon s t = has_char-append b':' s (String.◌∷◌ ":" t) ∙ ground arith

comma-append : (t : String) → "," <> t ≡ String.◌∷◌ "," t
comma-append t = cons-append "," "" t ∙ ap (String.◌∷◌ ",") (nil-append t)

module _ {F : Type 0} (lib : Library F) where
  load_entries-append :
      (xs ys : List String) (keys : Dict lib.Public)
      → load_entries lib (xs ++ ys) keys
        ≡ (load_entries lib xs keys >>= λ more. load_entries lib ys more)
  unfolding load_entries
  load_entries-append [] ys keys = refl
  load_entries-append (x ∷ xs) ys keys = elim (Result-cases (load_entry lib x keys)) [
    | inl (why, raises) ↦ rw (raises) refl
    | inr (more, returns) ↦ rw (returns) (load_entries-append xs ys more)
  ]

  strip-fragment :
      (iss public : String)
      → first_blank iss ≡ false
      → is_text iss ≡ true
      → strip public ≡ public
      → is_text public ≡ true
      → strip (iss <> ":" <> public) ≡ iss <> ":" <> public
  strip-fragment iss public h u k v =
      strip-append iss (":" <> public) h u (strip-append ":" public refl refl k v)
        (rw (colon-append public) refl)

  load_entry-fragment :
      (iss public : String) (raw : Bytes) (keys : Dict lib.Public)
      → strip iss ≡ iss
      → is_text iss ≡ true
      → has_char b':' iss ≡ false
      → strip public ≡ public
      → is_text public ≡ true
      → key_of lib public ≡ ok raw
      → load_entry lib (iss <> ":" <> public) keys ≡ ok (set iss (lib.public_of raw) keys)
  load_entry-fragment iss public raw keys s u no_colon k v decodes =
      let blank : first_blank iss ≡ false = rw (← s) (first_blank-strip iss) in
      rw (strip-fragment iss public blank u k v) (
        rw (colon-append public) (
          rw
            (
              text-append iss (String.◌∷◌ ":" public) refl,
              has_colon iss public,
              after-append b':' ":" iss public refl no_colon,
              decodes,
              before-append b':' ":" iss public refl no_colon,
              s,
            )
            refl))

  key_of-public :
      (public : String) (raw : Bytes)
      → strip public ≡ public
      → length raw ≡ 32
      → b64url_decode lib public ≡ some raw
      → key_of lib public ≡ ok raw
  unfolding key_of
  key_of-public public raw s size decodes = rw (s) (rw (decodes) (rw (size) refl))

  loaded_alone :
      (iss public : String) (raw : Bytes)
      → strip iss ≡ iss
      → is_text iss ≡ true
      → has_char b':' iss ≡ false
      → has_char b',' iss ≡ false
      → strip public ≡ public
      → is_text public ≡ true
      → has_char b',' public ≡ false
      → key_of lib public ≡ ok raw
      → let fragment = iss <> ":" <> public in
        (keys : Dict lib.Public)
        → load_entries lib (split b',' fragment) keys ≡ ok (set iss (lib.public_of raw) keys)
  unfolding load_entries has_char
  loaded_alone iss public raw s u no_colon no_comma k v none_in decodes keys =
      let fragment = iss <> ":" <> public in
      let alone : split b',' fragment ≡ fragment ∷ [] = split_of_none b',' fragment (
        has_char-append b',' iss (":" <> public)
        ∙ rw (no_comma, colon-append public, none_in) refl) in
      rw (alone) (rw (load_entry-fragment iss public raw keys s u no_colon k v decodes) refl)

  printed-issuer :
      (private_bytes public_bytes : Bytes) (script name private fragment : String)
      → new_issuer_main lib private_bytes public_bytes (script ∷ name ∷ [])
        ≡ new_issuer private fragment
      → (fragment ≡ strip name <> ":" <> b64url_encode lib public_bytes)
        × (is_text (strip name) ≡ true)
        × (has_char b':' (strip name) ≡ false)
        × (has_char b',' (strip name) ≡ false)
  unfolding new_issuer_main
  printed-issuer private_bytes public_bytes script name private fragment h =
      (ground (arith, h), ground (arith, h), ground (arith, h), ground (arith, h))

  -- With the fragment that the script prints for a name, alone or after a comma at the end of the
  -- keys that are there, the service loads the public key that was generated under the stripped
  -- name, beside the keys that it loaded before; it fails to load where it failed before. This is of
  -- 32 bytes whose base64 has no comma, is what strip() leaves, and decodes to them.
  pub load_issuers-new_issuer_main :
      (private_bytes public_bytes : Bytes) (script name private fragment existing : String)
      → let public = b64url_encode lib public_bytes in
        new_issuer_main lib private_bytes public_bytes (script ∷ name ∷ [])
          ≡ new_issuer private fragment
        → length public_bytes ≡ 32
        → strip public ≡ public
        → is_text public ≡ true
        → has_char b',' public ≡ false
        → b64url_decode lib public ≡ some public_bytes
        → (load_issuers lib fragment ≡ ok ((strip name, lib.public_of public_bytes) ∷ []))
          × (load_issuers lib (existing <> "," <> fragment) ≡ (
              load_issuers lib existing >>= λ keys.
              ok (set (strip name) (lib.public_of public_bytes) keys)))
  unfolding load_issuers set
  load_issuers-new_issuer_main private_bytes public_bytes script name private fragment existing h
        size s v no_comma decodes =
      let public = b64url_encode lib public_bytes in
      let (text, named, no_colon, no_commas) =
        printed-issuer private_bytes public_bytes script name private fragment h in
      let loads =
        loaded_alone (strip name) public public_bytes (strip_idem name) named no_colon no_commas s v
          no_comma (key_of-public public public_bytes s size decodes) in
      rw (text) (
        loads [],
        rw
            (
              comma-append (strip name <> ":" <> public),
              split-append b',' "," existing (strip name <> ":" <> public) refl,
              load_entries-append (split b',' existing) (split b',' (strip name <> ":" <> public))
                  [],
            )
            (elim (Result-cases (load_entries lib (split b',' existing) [])) [
              | inl (why, raises) ↦ rw (raises) refl
              | inr (keys, returns) ↦ rw (returns) (loads keys)
            ]),
      )
