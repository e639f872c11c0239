-- ===== src/Scanner/Registry/Validate.antt =====
-- src/scanner.py, `validate_registry`: the check of the registry at boot.
use file_scanner.Base.{
  ℕ, String, Bool, true, false, not, ◌&&◌, List, [], ◌∷◌, contains, is_nonempty, ltb, any,
  if◌then◌else◌, Result, ok, err, is_some, ◌==◌,
}
use file_scanner.Base.Dict.{Dict, get}
use file_scanner.Scanner.Registry.{
  Registered, Backends, Loaded, unknown_scanner, empty_category, wrong_category, mixed,
  unknown_default, unknown_advisory, undecidable, Raised, runtime_error, clamav_max_file_bytes, Reg,
  give, ◌>>=◌, ◌>>◌, refuse, get_scanner, category_map, default_categories_list, advisory_scanners,
  deciding_scanners, is_known,
}

module _ {F : Type 0} (b : Backends F) where
  -- The loop of `validate_registry` over the names of a category.
  unfoldable pub check_category : String → List String → Reg F (Unit {0})
  check_category c [] = give (ok tt)
  check_category c (n ∷ ns) = do
    refuse (not (is_known b n)) (runtime_error (unknown_scanner n))
    e ← get_scanner b n
    refuse (not (e.category == c)) (runtime_error (wrong_category n c))
    check_category c ns

  -- `{get_scanner(name).scored for name in names}`: whether a True and whether a False is in it.
  unfoldable pub scored_set : List String → Reg F (Bool × Bool)
  scored_set [] = give (ok (false, false))
  scored_set (n ∷ ns) = do
    e ← get_scanner b n
    rest ← scored_set ns
    give (ok (if e.scored then (true, rest.1) else (rest.0, true)))

  unfoldable pub check_map : Dict (List String) → Reg F (Unit {0})
  unfolding check_category scored_set
  check_map [] = give (ok tt)
  check_map ((c, names) ∷ d) = do
    refuse (not (is_nonempty names)) (runtime_error (empty_category c))
    check_category c names
    axis ← scored_set names
    refuse (axis.0 && axis.1) (runtime_error (mixed c))
    check_map d

  unfoldable pub check_defaults : Dict (List String) → List String → Result Raised (Unit {0})
  check_defaults m [] = ok tt
  check_defaults m (c ∷ cs) =
      let rest = check_defaults m cs in
      if is_some (get c m) then rest else err (runtime_error (unknown_default c))

  pub check_advisory : List String → Result Raised (Unit {0})
  check_advisory [] = ok tt
  check_advisory (n ∷ ns) =
      let rest = check_advisory ns in
      if is_known b n then rest else err (runtime_error (unknown_advisory n))

  -- `clamav_decides`
  abbrev pub clamav_decides : Registered → Dict (List String) → Bool
  clamav_decides s m = any (λ entry. contains (deciding_scanners s entry.1) "clamav") m

  -- The body of the loop over MAX_URL_SIZE and MAX_UPLOAD_SIZE.
  abbrev pub check_size : Bool → ℕ → Reg F (Unit {0})
  check_size decides most =
      refuse (ltb clamav_max_file_bytes most && decides) (runtime_error (undecidable most))

  -- validate_registry
  unfoldable pub validate_registry : (String → Loaded) → Registered → Reg F (Unit {0})
  unfolding check_map check_defaults check_advisory
  validate_registry loads s = do
    m ← give (category_map loads s)
    check_map m
    give (check_defaults m (default_categories_list s))
    give (check_advisory (advisory_scanners s))
    check_size (clamav_decides s m) s.max_url_size
    check_size (clamav_decides s m) s.max_upload_size
