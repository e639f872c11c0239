-- ===== src/Scanner/Registry/Accepting.antt =====
-- src/scanner.py, `resolve_scanners` after `validate_registry`: which requests are accepted.

use file_scanner.Base.{
  String, ◌≡◌, refl, sym, ap, ◌∙◌, Bool, true, Option, none, some, List, [], ◌∷◌, ◌++◌, arith,
  Bool-cases, Option-cases, inl, inr, All, all, contains, is_nonempty, is_some, Result, ok, err,
  ◌↔◌,
}
use file_scanner.Base.Dict.{Dict, get}
use file_scanner.Scanner.Registry.{
  Registered, Engine, Backends, Loaded, Raised, give, category_map, default_categories_list,
}
use file_scanner.Scanner.Registry.Resolve.{
  unavailable, available, check_names, resolve_scanners, requested, selected, expand, fromkeys,
  extend, choose,
}
use file_scanner.Scanner.Registry.Validate.{validate_registry, check_defaults}
use file_scanner.Scanner.Registry.Cache.{Coherent, Settles, available-Settles, get_scanner-answer}
use file_scanner.Scanner.Registry.Selection.{Ready, join_lem, resolve_scanners_lem}
use file_scanner.Scanner.Registry.Boot.{validate_registry_lem}
use file_scanner.Scanner.Registry.Declared.{Declares, OnAxis, check_map-Declares, Declares-get}
use file_scanner.Scanner.Run.Order.{follow_returned}

module _ {F : Type 0} (b : Backends F) where
  -- Names that are known and configured pass the test.
  check_names-ok :
      (ns : List String) (cache : Dict (Engine F))
      → All (Ready b) ns
      → Coherent b cache
      → (check_names b ns cache).0 ≡ ok tt
  unfolding check_names Settles
  check_names-ok [] cache ready co = refl
  check_names-ok (n ∷ ns) cache ((e, known), ready) co =
      let found : (available b n cache).0 ≡ ok e =
        ap (λ r. unavailable r) (get_scanner-answer b n e cache co known) in
      rw (known) (
        ap (λ t. t.0) (follow_returned (λ _. check_names b ns) (available b n cache) found)
        ∙ check_names-ok ns (available b n cache).1 ready (available-Settles b n cache co).1)

All-append {κ} :
    {A : Type 0} (P : A → Type κ) (xs ys : List A) → All P xs → All P ys → All P (xs ++ ys)
All-append P [] ys h g = g
All-append P (x ∷ xs) ys (p, h) g = (p, All-append P xs ys h g)

fromkeys-All :
    (P : String → Type 0) (seen ns : List String) → All P seen → All P ns → All P (fromkeys seen ns)
unfolding fromkeys
fromkeys-All P seen [] h g = h
fromkeys-All P seen (n ∷ ns) h (p, g) = elim (Bool-cases (contains seen n)) [
  | inl old ↦ rw old (fromkeys-All P seen ns h g)
  | inr new ↦ rw new (fromkeys-All P (seen ++ n ∷ []) ns (All-append P seen (n ∷ []) h (p, tt)) g)
]

nonempty-append_left :
    {A : Type 0} (xs ys : List A) → is_nonempty xs ≡ true → is_nonempty (xs ++ ys) ≡ true
nonempty-append_left [] ys h = cc
nonempty-append_left (x ∷ xs) ys h = refl

fromkeys-seen :
    (seen ns : List String) → is_nonempty seen ≡ true → is_nonempty (fromkeys seen ns) ≡ true
unfolding fromkeys
fromkeys-seen seen [] h = h
fromkeys-seen seen (n ∷ ns) h = elim (Bool-cases (contains seen n)) [
  | inl old ↦ rw old (fromkeys-seen seen ns h)
  | inr new ↦ rw new (fromkeys-seen (seen ++ n ∷ []) ns (nonempty-append_left seen (n ∷ []) h))
]

fromkeys-nonempty : (ns : List String) → is_nonempty ns ≡ true → is_nonempty (fromkeys [] ns) ≡ true
unfolding fromkeys
fromkeys-nonempty [] h = cc
fromkeys-nonempty (n ∷ ns) h = fromkeys-seen (n ∷ []) ns refl

-- Every category of the list is one of the map.
abbrev pub AllKnown : Dict (List String) → List String → Type 0
AllKnown m cs = all (λ c. is_some (get c m)) cs ≡ true

extend-known :
    (c : String) (o : Option (List String)) (r : Result Raised (List String)) (names : List String)
    → extend c o r ≡ ok names
    → (part : List String) × (rest : List String) × (o ≡ some part) × (r ≡ ok rest)
extend-known c none r names h = cc
extend-known c (some part) (ok rest) names h = (part, rest, refl, refl)
extend-known c (some part) (err e) names h = cc

expand-known :
    (m : Dict (List String)) (cs names : List String) → expand m cs ≡ ok names → AllKnown m cs
unfolding expand
expand-known m [] names h = refl
expand-known m (c ∷ cs) names h =
    let (part, rest, here, later) = extend-known c (get c m) (expand m cs) names h in
    ground (arith, here, expand-known m cs rest later)

check_defaults-known :
    {F : Type 0} (b : Backends F) (m : Dict (List String)) (cs : List String)
    → check_defaults b m cs ≡ ok tt
    → AllKnown m cs
unfolding check_defaults
check_defaults-known b m [] h = refl
check_defaults-known b m (c ∷ cs) h = elim (Bool-cases (is_some (get c m))) [
  | inl here ↦ ground (arith, here, check_defaults-known b m cs (ground (arith, h, here)))
  | inr gone ↦ absurd (ground (arith, h, gone))
]

module _ {F : Type 0} (b : Backends F) (m : Dict (List String))
    (declared : All (λ entry. Declares b entry.0 entry.1) m) where
  OnAxis-Ready :
      (c : String) (axis : Bool) (ns : List String) → All (OnAxis b c axis) ns → All (Ready b) ns
  OnAxis-Ready c axis [] h = tt
  OnAxis-Ready c axis (n ∷ ns) ((e, known, _, _), h) = ((e, known), OnAxis-Ready c axis ns h)

  -- The names that known categories list are built, and there is one if there is a category.
  expand-Ready :
      (cs : List String)
      → AllKnown m cs
      → (names : List String) × (expand m cs ≡ ok names)
        × All (Ready b) names
        × (is_nonempty cs ≡ true → is_nonempty names ≡ true)
  unfolding expand
  expand-Ready [] h = ([], refl, tt, λ g. g)
  expand-Ready (c ∷ cs) h = elim (Option-cases (get c m)) [
    | inl gone ↦ absurd (ground (arith, h, gone))
    | inr (part, found) ↦
        let (names, later, ready, _) = expand-Ready cs (ground (arith, h)) in
        let (filled, (axis, listed)) = Declares-get b m c part declared found in
        (
          part ++ names,
          rw (found) (rw (later) refl),
          All-append (Ready b) part names (OnAxis-Ready c axis part listed) ready,
          λ _. nonempty-append_left part names filled,
        )
  ]

module _ {F : Type 0} (b : Backends F) (loads : String → Loaded) (s : Registered) where
  -- A selection that can be run is accepted.
  resolve_scanners-accepts :
      (categories ns : List String) (cache : Dict (Engine F))
      → requested s loads categories [] ≡ ok ns
      → is_nonempty ns ≡ true
      → All (Ready b) ns
      → Coherent b cache
      → (resolve_scanners b loads s categories [] cache).0 ≡ ok ns
  unfolding resolve_scanners
  resolve_scanners-accepts categories ns cache asked some_name ready co = rw (asked) (
      rw (some_name) (
        ap (λ t. t.0)
          (follow_returned (λ _. give (ok ns)) (check_names b ns cache)
            (check_names-ok b ns cache ready co))))

  requested-known :
      (categories names : List String) (m : Dict (List String))
      → category_map loads s ≡ ok m
      → expand m (selected s categories []) ≡ ok names
      → requested s loads categories [] ≡ ok (fromkeys [] (names ++ []))
  unfolding requested
  requested-known categories names m mapped expanded = rw (mapped) (rw (expanded) refl)

  requested-ok :
      (categories ns : List String) (m : Dict (List String))
      → category_map loads s ≡ ok m
      → requested s loads categories [] ≡ ok ns
      → (names : List String) × (expand m (selected s categories []) ≡ ok names)
        × (ns ≡ fromkeys [] (names ++ []))
  unfolding requested
  requested-ok categories ns m mapped h =
      join_lem [] ns (expand m (selected s categories []))
        (sym (ap (choose (selected s categories []) []) mapped) ∙ h)

  nothing_expanded :
      (m : Dict (List String)) (cs names : List String)
      → expand m cs ≡ ok names
      → is_nonempty (fromkeys [] (names ++ [])) ≡ true
      → is_nonempty cs ≡ true
  unfolding expand fromkeys
  nothing_expanded m [] names h g = absurd (ground (arith, h, g))
  nothing_expanded m (c ∷ cs) names h g = refl

  -- Once the configuration passed the check at boot, a request for categories alone is accepted
  -- exactly if there is a category that it selects and each one is known; the default categories are
  -- all known.
  pub validate_registry-accepts :
      (cache : Dict (Engine F))
      → Coherent b cache
      → (validate_registry b loads s cache).0 ≡ ok tt
      → (m : Dict (List String)) × (category_map loads s ≡ ok m)
        × AllKnown m (default_categories_list s)
        × ((categories : List String) (later : Dict (Engine F))
            → Coherent b later
            → ((names : List String) × ((resolve_scanners b loads s categories [] later).0
                  ≡ ok names))
              ↔ (is_nonempty (selected s categories []) ≡ true)
                × AllKnown m (selected s categories []))
  validate_registry-accepts cache co valid =
      let (m, mapped, checked, _, _, defaults) = validate_registry_lem b loads s cache valid in
      let declared = check_map-Declares b m cache co checked in
      (
        m,
        mapped,
        check_defaults-known b m (default_categories_list s) defaults,
        λ categories later co'. (
          (λ (ns, h).
              let (asked, some_name, _) =
                resolve_scanners_lem b loads s categories [] ns later co' h in
              let (names, expanded, is) = requested-ok categories ns m mapped asked in
              (
                nothing_expanded m (selected s categories []) names expanded
                    (ap is_nonempty (sym is) ∙ some_name),
                expand-known m (selected s categories []) names expanded,
              )),
          λ (some_category, known).
              let (names, expanded, ready, filled) =
                expand-Ready b m declared (selected s categories []) known in
              (
                fromkeys [] (names ++ []),
                resolve_scanners-accepts categories (fromkeys [] (names ++ [])) later
                    (requested-known categories names m mapped expanded)
                    (fromkeys-nonempty (names ++ [])
                      (nonempty-append_left names [] (filled some_category)))
                    (fromkeys-All (Ready b) [] (names ++ []) tt
                      (All-append (Ready b) names [] ready tt))
                    co',
              ),
        ),
      )
