-- ===== src/Wire/Envelope.antt =====
-- src/wire.py, `to_v1` and the job envelope.
use file_scanner.Base.{
  String, ◌≡◌, ◌≢◌, refl, true, ◌||◌, none, some, [], ◌∷◌, arith, if◌then◌else◌, eq_iff, is_some,
}
use file_scanner.Base.Dict.{Dict, get, without, setdefault, NodupKeys, get-without, get-setdefault}
use file_scanner.Base.Value.{Value, str, obj, Fields, entries, Floats}
use file_scanner.Wire.{says, add_axes, qualify, to_v1}
use file_scanner.Wire.Axes.{get-add_axes, get-set_reason, get-qualify}

module _ (fl : Floats) where
  open fl use {F}

  without_absent : (k : String) (d : Dict (Value F)) → get k d ≡ none → without k d ≡ d
  unfolding get without
  without_absent k [] h = refl
  without_absent k ((j, v) ∷ d) h = ground (arith, without_absent k d)

  -- A payload that no scanner has answered for is v1 already.
  to_v1_unscanned : (p : Dict (Value F)) → get "verdicts" p ≡ none → to_v1 fl p ≡ p
  unfolding to_v1
  to_v1_unscanned p h = rw (h, without_absent "verdicts" p h)

  -- What the envelope says is kept in v1: every key of the payload that is neither `verdicts` nor
  -- the name of a category.
  pub get-to_v1_envelope :
      (p : Dict (Value F)) (vs : Fields F) (k : String)
      → get "verdicts" p ≡ some (obj vs)
      → NodupKeys (entries vs)
      → k ≢ "verdicts"
      → get k (entries vs) ≡ none
      → is_some (get k p) ≡ true
      → get k (to_v1 fl p) ≡ get k p
  unfolding to_v1
  get-to_v1_envelope p vs k has u other free at = ground (
    arith,
    get-qualify fl k (get "malware" (entries vs)) (add_axes (without "verdicts" p) (entries vs)),
    get-add_axes k (without "verdicts" p) (entries vs) u,
    get-without k "verdicts" p,
    eq_iff "verdicts" k,
  )

  -- Where no category is named `error_kind`, a malware axis without an answer is qualified in v1: by the envelope's own `error_kind` if it
  -- has one, else by `file` for a partial scan and by `transient` for a failed one.
  error_kind-to_v1 :
      (p : Dict (Value F)) (vs v : Fields F)
      → get "verdicts" p ≡ some (obj vs)
      → NodupKeys (entries vs)
      → get "error_kind" (entries vs) ≡ none
      → get "malware" (entries vs) ≡ some (obj v)
      → (says "partial" (get "kind" (entries v)) || says "error" (get "kind" (entries v))) ≡ true
      → get "error_kind" (to_v1 fl p) ≡ (
          if is_some (get "error_kind" p)
          then get "error_kind" p
          else some (str (if says "partial" (get "kind" (entries v)) then "file" else "transient")))
  unfolding to_v1 qualify
  error_kind-to_v1 p vs v has u free at lost =
      let out = add_axes (without "verdicts" p) (entries vs) in
      let s : Value F =
        str (if says "partial" (get "kind" (entries v)) then "file" else "transient") in
      rw (has, at, lost)
        (ground (
          arith,
          get-set_reason fl "error_kind" (get "reason" (entries v)) (setdefault "error_kind" s out),
          get-setdefault "error_kind" "error_kind" s out,
          get-add_axes "error_kind" (without "verdicts" p) (entries vs) u,
          get-without "error_kind" "verdicts" p,
        ))
