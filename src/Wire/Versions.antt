-- ===== src/Wire/Versions.antt =====
-- src/wire.py, `of_path` and the stamp of `serialize`.

use text.Mathlib.TextLemmas.{append_inj}
use text.Mathlib.TextEquality.{starts_with_iff}
use text.Mathlib.TextPositions.{starts_with-append}
use file_scanner.Base.{
  sym, true, ap, ◌∙◌, if◌then◌else◌, String, ◌<>◌, ◌≡◌, refl, false, some, ◌≢◌, arith, inl, inr,
  starts_with, eq_iff, Bool-cases,
}
use file_scanner.Base.Dict.{Dict, get, get-set}
use file_scanner.Base.Value.{Value, str, Floats}
use file_scanner.Wire.{v1, v2, of_path, serialize}

prefixes-ne : ◌≢◌ {A = String} "/api/v2.0/" "/api/v1.0/"
prefixes-ne = ground (arith, eq_iff "/api/v2.0/" "/api/v1.0/")

no_v2 : (s : String) → starts_with ("/api/v1.0/" <> s) "/api/v2.0/" ≡ false
no_v2 s = elim (Bool-cases (starts_with ("/api/v1.0/" <> s) "/api/v2.0/")) [
  | inl h ↦
      let (u, e) = (starts_with_iff ("/api/v1.0/" <> s) "/api/v2.0/").0 h in
      absurd (prefixes-ne (append_inj e refl).0)
  | inr h ↦ h
]

no_v2_path : (s : String) → starts_with s "/api/v1.0/" ≡ true → starts_with s "/api/v2.0/" ≡ false
no_v2_path s h =
    let (u, e) = (starts_with_iff s "/api/v1.0/").0 h in
    ap (λ t. starts_with t "/api/v2.0/") (sym e) ∙ no_v2 u

-- A path below one of the two prefixes is answered in that prefix's version, whatever follows, and
-- every other path in the current version.
of_path_lem :
    (s : String)
    → (of_path ("/api/v1.0/" <> s) ≡ v1)
      × (of_path ("/api/v2.0/" <> s) ≡ v2)
      × (of_path s ≡ (if starts_with s "/api/v1.0/" then v1 else v2))
unfolding of_path
of_path_lem s = (
  rw (no_v2 s, starts_with-append "/api/v1.0/" s),
  rw (starts_with-append "/api/v2.0/" s),
  ground (arith, no_v2_path s),
)

module _ (fl : Floats) where
  open fl use {F}

  -- Every serialised payload says the version that it is in, and a v2 payload is otherwise the
  -- canonical one.
  pub serialize_stamped :
      (p : Dict (Value F)) (version k : String)
      → (get "api_version" (serialize fl p version) ≡ some (str version))
        × (version ≢ v1 → k ≢ "api_version" → get k (serialize fl p version) ≡ get k p)
  unfolding serialize
  serialize_stamped p version k = (
    rw get-set,
    λ old other. rw get-set (ground (arith, eq_iff version v1, eq_iff "api_version" k)),
  )
