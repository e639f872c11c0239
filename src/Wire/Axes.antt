-- ===== src/Wire/Axes.antt =====
-- src/wire.py, `to_v1`: the scalar of each axis, for any payload and for a report of the scanners.
use file_scanner.Base.{
  String, ◌≡◌, refl, true, ◌||◌, Option, none, some, [], ◌∷◌, arith, if◌then◌else◌, ◌==◌, eq_iff,
  is_some, not,
}
use file_scanner.Base.Dict.{Dict, get, set, without, NodupKeys, get-set, setdefault, get-setdefault}
use file_scanner.Base.Value.{Value, str, obj, Fields, entries, Floats}
use file_scanner.Wire.{says, scalar, add_axes, set_reason, qualify, to_v1}

module _ {F : Type 0} where
  -- What the loop leaves at a key: the scalar of its verdict, or what was there.
  abbrev pub axis : Option (Value F) → Option (Value F) → Option (Value F)
  axis (some (obj v)) old = some (scalar (entries v))
  axis _ old = old

  pub get-add_axes :
      (c : String) (out vs : Dict (Value F))
      → NodupKeys vs
      → get c (add_axes out vs) ≡ axis (get c vs) (get c out)
  unfolding get add_axes
  get-add_axes c out [] u = refl
  get-add_axes c out ((k, obj v) ∷ more) (fresh, u) = ground (
    arith,
    get-add_axes c (set k (scalar (entries v)) out) more u,
    get-set c k (scalar (entries v)) out,
    eq_iff k c,
  )
  get-add_axes c out ((k, v) ∷ more) (fresh, u) =
      ground (arith, get-add_axes c out more u, eq_iff k c)

module _ (fl : Floats) where
  open fl use {F}

  -- `error` is set by default, and nothing else is touched.
  pub get-set_reason :
      (c : String) (m : Option (Value F)) (out : Dict (Value F))
      → (is_some (get c out) || not ("error" == c)) ≡ true
      → get c (set_reason fl m out) ≡ get c out
  unfolding set_reason
  get-set_reason c none out h = refl
  get-set_reason c (some w) out h = ground (arith, get-setdefault c "error" w out)

  -- The qualifying pair is set by default: it replaces nothing.
  pub get-qualify :
      (c : String) (m : Option (Value F)) (out : Dict (Value F))
      → is_some (get c out) ≡ true
      → get c (qualify fl m out) ≡ get c out
  unfolding qualify
  get-qualify c (some (obj v)) out h =
      let s : Value F =
        str (if says "partial" (get "kind" (entries v)) then "file" else "transient") in
      ground (
        arith,
        get-set_reason c (get "reason" (entries v)) (setdefault "error_kind" s out),
        get-setdefault c "error_kind" s out,
      )
  get-qualify c none out h = refl
  get-qualify c (some v) out h = refl

  -- An axis that the canonical payload has a verdict for is, in v1, the scalar of that verdict,
  -- whatever else the payload holds.
  pub get-to_v1_axis :
      (p : Dict (Value F)) (vs v : Fields F) (c : String)
      → get "verdicts" p ≡ some (obj vs)
      → NodupKeys (entries vs)
      → get c (entries vs) ≡ some (obj v)
      → get c (to_v1 fl p) ≡ some (scalar (entries v))
  unfolding to_v1
  get-to_v1_axis p vs v c has u at = ground (
    arith,
    get-qualify c (get "malware" (entries vs)) (add_axes (without "verdicts" p) (entries vs)),
    get-add_axes c (without "verdicts" p) (entries vs) u,
  )
