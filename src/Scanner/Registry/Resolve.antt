-- ===== src/Scanner/Registry/Resolve.antt =====
-- src/scanner.py, `resolve_scanners`: the scanners of a request.
use file_scanner.Base.{
  ◌||◌, String, not, none, some, List, [], ◌∷◌, ◌++◌, contains, is_nonempty, if◌then◌else◌, Result,
  ok, err, Option,
}
use file_scanner.Base.Dict.{Dict, get}
use file_scanner.Scanner.Registry.{
  Registered, Engine, Backends, Loaded, unknown_category, no_scanners, unknown_scanner, Raised,
  runtime_error, value_error, Reg, give, ◌>>=◌, ◌>>◌, refuse, get_scanner, category_map,
  default_categories_list, is_known,
}

-- `names.extend(cat_map[cat])`, before what the rest of the categories gives.
abbrev pub extend :
    String → Option (List String) → Result Raised (List String) → Result Raised (List String)
extend c none rest = err (value_error (unknown_category c))
extend c (some names) (ok rest) = ok (names ++ rest)
extend c (some names) (err e) = err e

unfoldable pub expand : Dict (List String) → List String → Result Raised (List String)
expand m [] = ok []
expand m (c ∷ cs) = extend c (get c m) (expand m cs)

-- `list(dict.fromkeys(names))`, with what it has seen.
unfoldable pub fromkeys : List String → List String → List String
fromkeys seen [] = seen
fromkeys seen (n ∷ ns) = fromkeys (if contains seen n then seen else seen ++ n ∷ []) ns

-- `except RuntimeError as exc: raise ValueError(…)`
abbrev pub unavailable {ℓ} : {A : Type ℓ} → Result Raised A → Result Raised A
unavailable (ok a) = ok a
unavailable (err (runtime_error p)) = err (value_error p)
unavailable (err e) = err e

-- `names.extend(scanners or [])` and the removal of duplicates
abbrev pub join_scanners : List String → Result Raised (List String) → Result Raised (List String)
join_scanners scanners (ok names) = ok (fromkeys [] (names ++ scanners))
join_scanners scanners (err e) = err e

abbrev pub choose :
    List String → List String → Result Raised (Dict (List String)) → Result Raised (List String)
choose categories scanners (ok m) = join_scanners scanners (expand m categories)
choose categories scanners (err e) = err e

module _ (s : Registered) where
  -- The categories of the request, or the default ones if it names nothing.
  abbrev pub selected : List String → List String → List String
  selected categories scanners =
      if is_nonempty categories || is_nonempty scanners
      then categories
      else default_categories_list s

  -- The names of the request, before the test that they can run.
  unfoldable pub requested :
      (String → Loaded) → List String → List String → Result Raised (List String)
  unfolding expand fromkeys
  requested loads categories scanners =
      choose (selected categories scanners) scanners (category_map loads s)

module _ {F : Type 0} (b : Backends F) where
  abbrev pub available : String → Reg F (Engine F)
  available name cache = let got = get_scanner b name cache in (unavailable got.0, got.1)

  -- The loop of `resolve_scanners` over the names.
  unfoldable pub check_names : List String → Reg F (Unit {0})
  check_names [] = give (ok tt)
  check_names (n ∷ ns) = do
    refuse (not (is_known b n)) (value_error (unknown_scanner n))
    _ ← available n
    check_names ns

  -- resolve_scanners. A list that is `None` is empty.
  unfoldable pub resolve_scanners :
      (String → Loaded) → Registered → List String → List String → Reg F (List String)
  unfolding check_names
  resolve_scanners loads s categories scanners = do
    names ← give (requested s loads categories scanners)
    refuse (not (is_nonempty names)) (value_error no_scanners)
    check_names names
    give (ok names)
