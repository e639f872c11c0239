-- ===== src/Scanner/Registry/Boot.antt =====
-- src/scanner.py, `validate_registry` and the requests that follow.
use file_scanner.Scanner.Registry.Resolve.{selected}
use file_scanner.Base.{eq_refl, sym, Result}
use file_scanner.Base.{
  String, ◌≡◌, refl, ap, ◌∙◌, Bool, true, false, not, ◌||◌, ◌&&◌, Option, none, some, List, [], ◌∷◌,
  arith, eq_iff, Bool-cases, contains, any, is_nonempty, filter, or_list, ◌⊎◌, inl, inr,
}
use file_scanner.Scanner.Registry.{
  Registered, Engine, Backends, Loaded, Raised, runtime_error, undecidable, give, ◌>>◌, refuse,
  category_map, clamav_max_file_bytes, default_categories_list, assert_size_cap_decidable,
}
use file_scanner.Scanner.Registry.Validate.{
  check_map, check_defaults, check_advisory, check_size, clamav_decides, validate_registry,
}
use file_scanner.Scanner.Registry.Cache.{Coherent}
use file_scanner.Scanner.Registry.Resolve.{resolve_scanners}
use file_scanner.Scanner.Registry.Selection.{follow-ok, refuse-ok, resolve_scanners-ok}
use file_scanner.Base.{ltb, ok}
use file_scanner.Base.Dict.{Dict, get}
use file_scanner.Scanner.Registry.{Registered, deciding_scanners, advisory_scanners}
use file_scanner.Scanner.Registry.Selection.{in_entry}

contains-filter :
    (p : String → Bool) (xs : List String) (x : String)
    → contains (filter p xs) x ≡ (contains xs x && p x)
contains-filter p [] x = refl
contains-filter p (y ∷ xs) x = ground (arith, contains-filter p xs x, eq_iff x y)

any-contains :
    (p : String → Bool) (xs : List String) (x : String)
    → contains xs x ≡ true
    → p x ≡ true
    → any p xs ≡ true
any-contains p [] x h g = cc
any-contains p (y ∷ xs) x h g = ground (arith, any-contains p xs x, eq_iff x y, h, g)

any-subset :
    (p : String → Bool) (xs ys : List String)
    → ((x : String) → contains xs x ≡ true → contains ys x ≡ true)
    → any p ys ≡ false
    → any p xs ≡ false
any-subset p [] ys h g = refl
any-subset p (x ∷ xs) ys h g = ground (
  arith,
  any-contains p ys x,
  h x,
  eq_refl x,
  any-subset p xs ys (λ y k. h y (ground (arith, k))) g,
  g,
)

is_nonempty-filter : (p : String → Bool) (xs : List String) → is_nonempty (filter p xs) ≡ any p xs
is_nonempty-filter p [] = refl
is_nonempty-filter p (x ∷ xs) = ground (arith, is_nonempty-filter p xs)

or_list-cases {ℓ} :
    {A : Type ℓ} (xs ys : List A)
    → ((is_nonempty xs ≡ true) × (or_list xs ys ≡ xs))
      ⊎ ((is_nonempty xs ≡ false) × (or_list xs ys ≡ ys))
or_list-cases [] ys = inr (refl, refl)
or_list-cases (x ∷ xs) ys = inl (refl, refl)

module _ (s : Registered) where
  abbrev is_deciding : String → Bool
  is_deciding n = not (contains (advisory_scanners s) n)

  -- A name decides if it is not advisory, or all names are.
  contains-deciding_scanners :
      (names : List String) (x : String)
      → contains (deciding_scanners s names) x
        ≡ (contains names x && (is_deciding x || not (any is_deciding names)))
  unfolding deciding_scanners
  contains-deciding_scanners names x = elim (or_list-cases (filter is_deciding names) names) [
    | inl (h, e) ↦
        ap (λ t. contains t x) e
        ∙ ground
            (arith, h, is_nonempty-filter is_deciding names, contains-filter is_deciding names x)
    | inr (h, e) ↦
        ap (λ t. contains t x) e ∙ ground (arith, h, is_nonempty-filter is_deciding names)
  ]

  -- Whom a list lets decide decides in each part of the list that names it.
  deciding-part :
      (part names : List String) (x : String)
      → ((y : String) → contains part y ≡ true → contains names y ≡ true)
      → contains part x ≡ true
      → contains (deciding_scanners s names) x ≡ true
      → contains (deciding_scanners s part) x ≡ true
  deciding-part part names x sub h g =
      contains-deciding_scanners part x
      ∙ ground
          (arith, h, g, contains-deciding_scanners names x, any-subset is_deciding part names sub)

  in_entry_lem :
      (x : String) (o : Option (List String))
      → in_entry x o ≡ true
      → (part : List String) × (o ≡ some part) × (contains part x ≡ true)
  in_entry_lem x none h = cc
  in_entry_lem x (some part) h = (part, refl, h)

  -- The category of a name that a selection of categories alone holds.
  pub find_category :
      (m : Dict (List String)) (cs : List String) (x : String)
      → any (λ c. in_entry x (get c m)) cs ≡ true
      → (c : String) × (part : List String) × (get c m ≡ some part)
        × (contains cs c ≡ true)
        × (contains part x ≡ true)
  find_category m [] x h = cc
  find_category m (c ∷ cs) x h = elim (Bool-cases (in_entry x (get c m))) [
    | inl here ↦
        let found = in_entry_lem x (get c m) here in
        (c, found.0, found.1, ground (arith, eq_refl c), found.2)
    | inr gone ↦
        let rest = find_category m cs x (ground (arith, gone, h)) in
        (rest.0, rest.1, rest.2, ground (arith, rest.3), rest.4)
  ]

  any-get :
      (m : Dict (List String)) (p : List String → Bool) (c : String) (part : List String)
      → get c m ≡ some part
      → p part ≡ true
      → any (λ entry. p entry.1) m ≡ true
  unfolding get
  any-get [] p c part h g = cc
  any-get ((k, ns) ∷ m) p c part h g = ground (arith, any-get m p c part, h, g)

  pub any-entry :
      (m : Dict (List String)) (cs : List String) (c x : String) (part : List String)
      → get c m ≡ some part
      → contains cs c ≡ true
      → contains part x ≡ true
      → any (λ d. in_entry x (get d m)) cs ≡ true
  any-entry m cs c x part h g k =
      any-contains (λ d. in_entry x (get d m)) cs c g (ap (in_entry x) h ∙ k)

pub ok-injective : {A : Type 0} {a a' : A} → ◌≡◌ {A = Result Raised A} (ok a) (ok a') → a ≡ a'
ok-injective h = cc

refuse-false :
    {F : Type 0} (t : Bool) (e : Raised) (cache : Dict (Engine F))
    → (refuse t e cache).0 ≡ ok tt
    → t ≡ false
refuse-false true e cache h = cc
refuse-false false e cache h = refl

-- The sizes that `validate_registry` accepted.
pub validate_registry_lem :
    {F : Type 0} (b : Backends F) (loads : String → Loaded) (s : Registered)
    (cache : Dict (Engine F))
    → (validate_registry b loads s cache).0 ≡ ok tt
    → (m : Dict (List String)) × (category_map loads s ≡ ok m)
      × ((check_map b m cache).0 ≡ ok tt)
      × ((ltb clamav_max_file_bytes s.max_url_size && clamav_decides b s m) ≡ false)
      × ((ltb clamav_max_file_bytes s.max_upload_size && clamav_decides b s m) ≡ false)
      × (check_defaults b m (default_categories_list s) ≡ ok tt)
unfolding validate_registry
validate_registry_lem {F = F} b loads s cache h =
    let url = λ (m : Dict (List String)). check_size b (clamav_decides b s m) s.max_url_size in
    let upload =
      λ (m : Dict (List String)). check_size b (clamav_decides b s m) s.max_upload_size in
    let third = λ (m : Dict (List String)).
      give (check_advisory b (advisory_scanners s)) >> (url m >> upload m) in
    let second = λ (m : Dict (List String)).
      give {F = F} (check_defaults b m (default_categories_list s)) >> third m in
    let picked = follow-ok (λ m. check_map b m >> second m) (category_map loads s, cache) h in
    let m = picked.0 in
    let mapped = follow-ok (λ _. second m) (check_map b m cache) picked.2 in
    let known =
      follow-ok (λ _. third m)
        (check_defaults b m (default_categories_list s), (check_map b m cache).1) mapped.2 in
    let named =
      follow-ok (λ _. url m >> upload m)
        (check_advisory b (advisory_scanners s), (check_map b m cache).1) known.2 in
    let sized =
      refuse-ok (ltb clamav_max_file_bytes s.max_url_size && clamav_decides b s m)
        (runtime_error (undecidable s.max_url_size)) (upload m) (check_map b m cache).1 named.2 in
    (m, picked.1, cc (mapped.1), sized.0, refuse-false _ _ _ sized.1, cc (known.1))

module _ {F : Type 0} (b : Backends F) (loads : String → Loaded) (s : Registered) where
  clamav_decides-names :
      (m : Dict (List String)) (cs names : List String)
      → ((x : String) → contains names x ≡ (any (λ c. in_entry x (get c m)) cs || false))
      → contains (deciding_scanners s names) "clamav" ≡ true
      → clamav_decides b s m ≡ true
  clamav_decides-names m cs names same h =
      let named : any (λ c. in_entry "clamav" (get c m)) cs ≡ true =
        ground (arith, contains-deciding_scanners s names "clamav", h, same "clamav") in
      let found = find_category s m cs "clamav" named in
      any-get s m (λ part. contains (deciding_scanners s part) "clamav") found.0 found.1 found.2
        (deciding-part s found.1 names "clamav"
          (λ y k. same y ∙ ground (arith, any-entry s m cs found.0 y found.1 found.2 found.3 k))
          found.4 h)

  -- Once the configuration passed the check at boot, no request for categories alone is refused
  -- for its size: clamav never decides one where more may come in than it can scan.
  pub validate_registry-decidable :
      (categories names : List String) (cache later : Dict (Engine F))
      → (validate_registry b loads s cache).0 ≡ ok tt
      → Coherent b later
      → (resolve_scanners b loads s categories [] later).0 ≡ ok names
      → (assert_size_cap_decidable s names s.max_url_size ≡ ok tt)
        × (assert_size_cap_decidable s names s.max_upload_size ≡ ok tt)
  unfolding assert_size_cap_decidable
  validate_registry-decidable categories names cache later valid co h =
      let boot = validate_registry_lem b loads s cache valid in
      let chosen = resolve_scanners-ok b loads s categories [] names later co h in
      let m = chosen.3.0 in
      let same : boot.0 ≡ m = ok-injective (sym boot.1 ∙ chosen.3.1) in
      let by_clamav : contains (deciding_scanners s names) "clamav" ≡ true
          → clamav_decides b s m ≡ true =
        clamav_decides-names m (selected s categories []) names chosen.3.2 in
      (
        ground (arith, boot.3, ap (clamav_decides b s) same, by_clamav),
        ground (arith, boot.4, ap (clamav_decides b s) same, by_clamav),
      )
