-- ===== src/Engines.antt =====
-- src/scanners: the three backends behind the registry's names. What a daemon or service answers is
-- a parameter, and the exceptions of a client library are values.
pub mod Clamav
pub mod Exav
pub mod Framing
pub mod Jcop
pub mod Polling
pub mod Clean
pub mod Responses
pub mod Analysis
pub mod Clearance
use Prim.Native.Nat.{zero}
use file_scanner.Base.{String, Bool, Option, none, some, if◌then◌else◌}
use file_scanner.Base.Text.{is_text}
use file_scanner.Base.Value.{
  ℤ, pos, negsuc, Value, null, bool, int, float, str, arr, obj, nil, cons, end, field,
}

-- What the backends do with the values of a decoded JSON text: the truth of a float and whether it
-- is 413, and the text of a value that is no text.
pub record Rendering (F : Type 0) : Type 0 where
  pub truthy : F → Bool
  pub is_413 : F → Bool
  pub rendered : Value F → String

module _ {F : Type 0} (r : Rendering F) where
  -- The truth of `content.get(k)`.
  abbrev pub truth : Option (Value F) → Bool
  truth none = Bool.false
  truth (some null) = Bool.false
  truth (some (bool b)) = b
  truth (some (int (pos zero))) = Bool.false
  truth (some (int n)) = Bool.true
  truth (some (float x)) = r.truthy x
  truth (some (str s)) = is_text s
  truth (some (arr nil)) = Bool.false
  truth (some (arr (cons v vs))) = Bool.true
  truth (some (obj end)) = Bool.false
  truth (some (obj (field k v fs))) = Bool.true

  -- A value as text, where a text stands for itself.
  abbrev pub text : Value F → String
  text (str s) = s
  text v = r.rendered v

  -- `content.get(k)` where it is put in a verdict: None stays None.
  abbrev pub optional_text : Option (Value F) → Option String
  optional_text none = none
  optional_text (some null) = none
  optional_text (some v) = some (text v)

  abbrev text_of : Option (Value F) → String
  text_of none = ""
  text_of (some v) = text v

  -- `content.get(k) or default`
  abbrev pub or_text : Option (Value F) → String → String
  or_text v default = if truth v then text_of v else default
