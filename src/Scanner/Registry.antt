-- ===== src/Scanner/Registry.antt =====
-- src/scanner.py, the registry: `get_scanner` and its cache, the category map, the resolution of a
-- request's selection, and the check at boot. The settings are an argument, `json.loads` and the
-- backends' constructors are parameters, and the cache is passed on as a state.
pub mod Resolve
pub mod Validate
pub mod Cache
pub mod Selection
pub mod Boot
pub mod Declared
pub mod Accepting
use file_scanner.Base.{
  ℕ, String, Bool, true, false, not, ◌&&◌, Option, none, some, List, [], ◌∷◌, ◌++◌, contains,
  filter, or_list, is_nonempty, ltb, any, if◌then◌else◌, Result, ok, err, is_some, ◌==◌,
}
use file_scanner.Base.Text.{is_text, strip, comma_list}
use file_scanner.Base.Dict.{Dict, get, set}
use file_scanner.Scanner.{Verdict}

-- What the settings say of the registry.
pub record Registered : Type 0 where
  pub default_scanners : Option String
  pub default_categories : String
  pub advisory_names : Option String
  pub max_url_size : ℕ
  pub max_upload_size : ℕ

-- What `scan` does: it returns, raises `ScannerError`, or raises anything else.
pub data Scanned (F : Type 0) : Type 0 where
  verdict : Verdict F → Scanned F
  scanner_error : String → Scanned F
  crashed : String → Scanned F

-- A backend that is built. A file is its bytes.
pub record Engine (F : Type 0) : Type 0 where
  pub category : String
  pub scored : Bool
  pub scan : List ℕ → Scanned F

-- What the three constructors give: a backend, or the message of a `RuntimeError`.
pub record Backends (F : Type 0) : Type 0 where
  pub clamav : Result String (Engine F)
  pub exav : Result String (Engine F)
  pub jcop : Result String (Engine F)

-- `json.loads`: an object has a list of names for each category, or `none` for what `list` does not
-- take.
pub data Loaded : Type 0 where
  malformed : String → Loaded
  other : Loaded
  object : Dict (Option (List String)) → Loaded

pub data Problem : Type 0 where
  not_json : String → Problem
  not_an_object : Problem
  unknown_category : String → Problem
  no_scanners : Problem
  unknown_scanner : String → Problem
  not_configured : String → String → Problem
  empty_category : String → Problem
  wrong_category : String → String → Problem
  mixed : String → Problem
  unknown_default : String → Problem
  unknown_advisory : String → Problem
  undecidable : ℕ → Problem
  no_workers : Problem

pub data Raised : Type 0 where
  key_error : String → Raised
  type_error : Raised
  runtime_error : Problem → Raised
  value_error : Problem → Raised

-- CLAMAV_MAX_FILE_BYTES = 2**31 - 3
abbrev pub clamav_max_file_bytes : ℕ
clamav_max_file_bytes = 2147483645

-- A call that reads and fills the cache of backends.
abbrev pub Reg : Type 0 → Type 0 → Type 0
Reg F A = Dict (Engine F) → Result Raised A × Dict (Engine F)

module _ {F : Type 0} where
  abbrev pub give : {A : Type 0} → Result Raised A → Reg F A
  give r cache = (r, cache)

  abbrev pub follow :
      {A B : Type 0}
      → (A → Reg F B)
      → Result Raised A × Dict (Engine F)
      → Result Raised B × Dict (Engine F)
  follow f (ok a, cache) = f a cache
  follow f (err e, cache) = (err e, cache)

  infixl 5 ◌>>=◌ ◌>>◌
  abbrev pub ◌>>=◌ : {A B : Type 0} → Reg F A → (A → Reg F B) → Reg F B
  (m >>= f) cache = follow f (m cache)

  abbrev pub ◌>>◌ : {B : Type 0} → Reg F (Unit {0}) → Reg F B → Reg F B
  m >> k = m >>= λ _. k

  -- `if b: raise e`
  abbrev pub refuse : Bool → Raised → Reg F (Unit {0})
  refuse true e = give (err e)
  refuse false e = give (ok tt)

  -- _BUILDERS
  abbrev pub builders : Backends F → Dict (Result String (Engine F))
  builders b = ("clamav", b.clamav) ∷ ("exav", b.exav) ∷ ("jcop", b.jcop) ∷ []

  -- `name in _BUILDERS`
  abbrev pub is_known : Backends F → String → Bool
  is_known b name = is_some (get name (builders b))

  -- `_cache[name] = _BUILDERS[name]()`
  abbrev pub store : String → Option (Result String (Engine F)) → Reg F (Engine F)
  store name none cache = (err (key_error name), cache)
  store name (some (err why)) cache = (err (runtime_error (not_configured name why)), cache)
  store name (some (ok e)) cache = (ok e, set name e cache)

  -- get_scanner
  unfoldable pub get_scanner : Backends F → String → Reg F (Engine F)
  get_scanner b name cache = elim (get name cache) [
    | some e ↦ (ok e, cache)
    | none ↦ store name (get name (builders b)) cache
  ]

abbrev lists : Dict (Option (List String)) → Result Raised (Dict (List String))
lists [] = ok []
lists ((c, none) ∷ d) = err type_error
lists ((c, some names) ∷ d) = elim (lists d) [ ok rest ↦ ok ((c, names) ∷ rest) | err e ↦ err e ]

abbrev map_of : Loaded → Result Raised (Dict (List String))
map_of (malformed why) = err (runtime_error (not_json why))
map_of other = err (runtime_error not_an_object)
map_of (object d) = lists d

abbrev pub or_empty : Option String → String
or_empty none = ""
or_empty (some s) = s

-- category_map
unfoldable pub category_map : (String → Loaded) → Registered → Result Raised (Dict (List String))
category_map loads s =
    let raw = strip (or_empty s.default_scanners) in
    if is_text raw then map_of (loads raw) else ok []

module _ (s : Registered) where
  -- _default_categories
  unfoldable pub default_categories_list : List String
  default_categories_list = comma_list s.default_categories

  -- advisory_scanners
  unfoldable pub advisory_scanners : List String
  advisory_scanners = comma_list (or_empty s.advisory_names)

  -- deciding_scanners
  pub deciding_scanners : List String → List String
  deciding_scanners names = or_list (filter (λ n. not (contains advisory_scanners n)) names) names

  -- assert_size_cap_decidable
  unfoldable pub assert_size_cap_decidable : List String → ℕ → Result Raised (Unit {0})
  unfolding deciding_scanners
  assert_size_cap_decidable names most =
      if ltb clamav_max_file_bytes most && contains (deciding_scanners names) "clamav"
      then err (value_error (undecidable most))
      else ok tt
