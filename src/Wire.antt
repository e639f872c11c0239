-- ===== src/Wire.antt =====
-- src/wire.py: the two shapes of a result on the wire. A payload is a dict of JSON values.
pub mod Versions
pub mod Axes
pub mod Envelope
pub mod Answers
use file_scanner.Base.{
  String, Bool, true, false, ◌||◌, Option, none, some, List, [], ◌∷◌, if◌then◌else◌, ◌==◌,
  starts_with, is_nonempty, nat_eq, not,
}
use file_scanner.Base.Dict.{Dict, get, set, setdefault, without}
use file_scanner.Base.Text.{is_text}
use file_scanner.Base.Value.{
  ℤ, pos, negsuc, Value, null, bool, int, float, str, arr, obj, Items, nil, cons, Fields, end,
  field, entries, Floats,
}

abbrev pub v1 : String
v1 = "v1.0"

abbrev pub v2 : String
v2 = "v2.0"

abbrev prefixes : List (String × String)
prefixes = ("/api/v2.0/", v2) ∷ ("/api/v1.0/", v1) ∷ []

version_among : List (String × String) → String → String
version_among [] path = v2
version_among ((prefix, version) ∷ more) path =
    let rest = version_among more path in if starts_with path prefix then version else rest

-- of_path
pub of_path : String → String
unfolding version_among
of_path path = version_among prefixes path

module _ {F : Type 0} where
  -- `verdict.get("kind") == w`
  abbrev pub says : String → Option (Value F) → Bool
  says w (some (str s)) = s == w
  says w _ = false

  -- `score if score is not None else v`
  abbrev or_else_value : Option (Value F) → Value F → Value F
  or_else_value none v = v
  or_else_value (some null) v = v
  or_else_value (some w) v = w

  -- _scalar
  unfoldable pub scalar : Dict (Value F) → Value F
  scalar verdict =
      let kind = get "kind" verdict in
      let score = get "score" verdict in
      if says "malware" kind
      then bool true
      else if says "flagged" kind
      then or_else_value score (bool true)
      else if says "clean" kind
      then or_else_value score (bool false)
      else null

  -- The loop of `to_v1` over the verdicts.
  unfoldable pub add_axes : Dict (Value F) → Dict (Value F) → Dict (Value F)
  add_axes out [] = out
  add_axes out ((category, obj verdict) ∷ more) =
      add_axes (set category (scalar (entries verdict)) out) more
  add_axes out (_ ∷ more) = add_axes out more

module _ (fl : Floats) where
  open fl use {F, truthy}

  -- The truth of a JSON value.
  unfoldable is_true : Value F → Bool
  is_true null = false
  is_true (bool b) = b
  is_true (int (pos n)) = not (nat_eq n 0)
  is_true (int (negsuc n)) = true
  is_true (float x) = truthy x
  is_true (str s) = is_text s
  is_true (arr nil) = false
  is_true (arr (cons v vs)) = true
  is_true (obj end) = false
  is_true (obj (field k v fs)) = true

  -- `if malware.get("reason"): out.setdefault("error", …)`
  pub set_reason : Option (Value F) → Dict (Value F) → Dict (Value F)
  unfolding is_true
  set_reason none out = out
  set_reason (some reason) out = if is_true reason then setdefault "error" reason out else out

  -- The pair that qualifies a `None` on the malware axis.
  unfoldable pub qualify : Option (Value F) → Dict (Value F) → Dict (Value F)
  qualify (some (obj malware)) out =
      let kind = get "kind" (entries malware) in
      if says "partial" kind || says "error" kind
      then set_reason (get "reason" (entries malware))
          (setdefault "error_kind" (str (if says "partial" kind then "file" else "transient")) out)
      else out
  qualify _ out = out

  unfoldable pub downgrade : Option (Value F) → Dict (Value F) → Dict (Value F)
  downgrade (some (obj verdicts)) out =
      qualify (get "malware" (entries verdicts)) (add_axes out (entries verdicts))
  downgrade _ out = out

  -- to_v1
  unfoldable pub to_v1 : Dict (Value F) → Dict (Value F)
  unfolding downgrade
  to_v1 payload = downgrade (get "verdicts" payload) (without "verdicts" payload)

  -- serialize
  unfoldable pub serialize : Dict (Value F) → String → Dict (Value F)
  serialize payload version =
      set "api_version" (str version) (if version == v1 then to_v1 payload else payload)
