-- ===== src/Scanner/Registry/Selection.antt =====
-- src/scanner.py, what `resolve_scanners` answers a request with.
use mathlib.Core.Path.{subst}
use file_scanner.Base.{
  String, ◌≡◌, refl, sym, ap, ◌∙◌, Bool, true, false, not, ◌||◌, Option, none, some, List, [], ◌∷◌,
  ◌++◌, arith, eq_iff, Result, ok, err, Bool-cases, contains, any, All, is_nonempty, inl, inr,
}
use file_scanner.Base.Dict.{Dict, get}
use file_scanner.Scanner.Registry.{
  Registered, Engine, Backends, Loaded, Raised, value_error, Reg, give, ◌>>=◌, ◌>>◌, follow, refuse,
  builders, is_known, category_map, key_error, type_error, runtime_error, unknown_scanner,
  no_scanners,
}
use file_scanner.Scanner.Registry.Resolve.{
  unavailable, available, check_names, resolve_scanners, requested, selected, expand, fromkeys,
  extend, choose, join_scanners,
}
use file_scanner.Scanner.Registry.Cache.{Coherent, Settles, get_scanner-ready, available-Settles}

-- No name stands twice.
abbrev pub Distinct : List String → Type 0
Distinct [] = Unit
Distinct (x ∷ xs) = (contains xs x ≡ false) × Distinct xs

contains-append :
    (xs ys : List String) (x : String) → contains (xs ++ ys) x ≡ (contains xs x || contains ys x)
contains-append [] ys x = refl
contains-append (y ∷ xs) ys x = ground (arith, contains-append xs ys x)

append-Distinct :
    (xs : List String) (x : String) → Distinct xs → contains xs x ≡ false → Distinct (xs ++ x ∷ [])
append-Distinct [] x d h = (refl, tt)
append-Distinct (y ∷ xs) x (n, d) h = (
  contains-append xs (x ∷ []) y ∙ ground (arith, n, h, eq_iff x y, eq_iff y x),
  append-Distinct xs x d (ground (arith, h)),
)

fromkeys-Distinct : (seen ns : List String) → Distinct seen → Distinct (fromkeys seen ns)
unfolding fromkeys
fromkeys-Distinct seen [] d = d
fromkeys-Distinct seen (n ∷ ns) d = elim (Bool-cases (contains seen n)) [
  | inl h ↦ rw h (fromkeys-Distinct seen ns d)
  | inr h ↦ rw h (fromkeys-Distinct (seen ++ n ∷ []) ns (append-Distinct seen n d h))
]

contains-fromkeys :
    (seen ns : List String) (x : String)
    → contains (fromkeys seen ns) x ≡ (contains seen x || contains ns x)
unfolding fromkeys
contains-fromkeys seen [] x = ground arith
contains-fromkeys seen (n ∷ ns) x = ground (
  arith,
  contains-fromkeys seen ns x,
  contains-fromkeys (seen ++ n ∷ []) ns x,
  contains-append seen (n ∷ []) x,
  eq_iff x n,
)

-- `x in ns` for the names of a category, if it has any.
abbrev pub in_entry : String → Option (List String) → Bool
in_entry x none = false
in_entry x (some ns) = contains ns x

extend_lem :
    (c x : String) (o : Option (List String)) (r : Result Raised (List String))
    (names : List String) (more : Bool)
    → ((rest : List String) → r ≡ ok rest → contains rest x ≡ more)
    → extend c o r ≡ ok names
    → contains names x ≡ (in_entry x o || more)
extend_lem c x none r names more ih h = cc
extend_lem c x (some ns) (err e) names more ih h = cc
extend_lem c x (some ns) (ok rest) names more ih h = cc (h, contains-append ns rest x, ih rest refl)

contains-expand :
    (m : Dict (List String)) (cs names : List String) (x : String)
    → expand m cs ≡ ok names
    → contains names x ≡ any (λ c. in_entry x (get c m)) cs
unfolding expand
contains-expand m [] names x h = ground (arith, h)
contains-expand m (c ∷ cs) names x h =
    extend_lem c x (get c m) (expand m cs) names _ (λ rest. contains-expand m cs rest x) h

-- What a call that returned did.
module _ {F : Type 0} {A B : Type 0} where
  pub follow-ok :
      (f : A → Reg F B) (p : Result Raised A × Dict (Engine F))
      → {r : B} → (follow f p).0 ≡ ok r
      → (a : A) × (p.0 ≡ ok a) × ((f a p.1).0 ≡ ok r)
  follow-ok f (ok a, c) h = (a, refl, h)
  follow-ok f (err e, c) h = cc

pub refuse-ok :
    {F B : Type 0} (t : Bool) (e : Raised) (k : Reg F B) (cache : Dict (Engine F))
    → {r : B} → ((refuse t e >> k) cache).0 ≡ ok r
    → (t ≡ false) × ((k cache).0 ≡ ok r)
refuse-ok true e k cache h = cc
refuse-ok false e k cache h = (refl, h)

unavailable-ok {ℓ} : {A : Type ℓ} (r : Result Raised A) → {a : A} → unavailable r ≡ ok a → r ≡ ok a
unavailable-ok (ok a) h = h
unavailable-ok (err (key_error _)) h = cc
unavailable-ok (err type_error) h = cc
unavailable-ok (err (runtime_error _)) h = cc
unavailable-ok (err (value_error _)) h = cc

module _ {F : Type 0} (b : Backends F) where
  -- A backend that is known and configured.
  abbrev pub Ready : String → Type 0
  Ready n = (e : Engine F) × (get n (builders b) ≡ some (ok e))

  check_names-Ready :
      (ns : List String) (cache : Dict (Engine F))
      → Coherent b cache
      → (check_names b ns cache).0 ≡ ok tt
      → All Ready ns
  unfolding check_names Settles
  check_names-Ready [] cache co h = tt
  check_names-Ready (n ∷ ns) cache co h =
      let known =
        refuse-ok (not (is_known b n)) (value_error (unknown_scanner n))
          (available b n >>= λ _. check_names b ns) cache h in
      let built = follow-ok (λ _. check_names b ns) (available b n cache) known.1 in
      (
        (built.0, get_scanner-ready b n built.0 cache co (unavailable-ok _ built.1)),
        check_names-Ready ns (available b n cache).1 (available-Settles b n cache co).1 built.2,
      )

pub join_lem :
    (scanners names : List String) (r : Result Raised (List String))
    → join_scanners scanners r ≡ ok names
    → (found : List String) × (r ≡ ok found) × (names ≡ fromkeys [] (found ++ scanners))
join_lem scanners names (ok found) h = (found, refl, cc h)
join_lem scanners names (err e) h = cc

choose_lem :
    (categories scanners names : List String) (r : Result Raised (Dict (List String)))
    → choose categories scanners r ≡ ok names
    → (m : Dict (List String)) × (r ≡ ok m)
      × Distinct names
      × ((x : String)
          → contains names x ≡ (any (λ c. in_entry x (get c m)) categories || contains scanners x))
choose_lem categories scanners names (err e) h = cc
choose_lem categories scanners names (ok m) h =
    let found = join_lem scanners names (expand m categories) h in
    (
      m,
      refl,
      subst Distinct (sym found.2) (fromkeys-Distinct [] (found.0 ++ scanners) tt),
      λ x.
          ap (λ t. contains t x) found.2
          ∙ contains-fromkeys [] (found.0 ++ scanners) x
          ∙ contains-append found.0 scanners x
          ∙ ap (λ t. t || contains scanners x) (contains-expand m categories found.0 x found.1),
    )

-- What is asked for in the request was what the call returned, after its tests.
pub resolve_scanners_lem :
    {F : Type 0} (b : Backends F) (loads : String → Loaded) (s : Registered)
    (categories scanners names : List String) (cache : Dict (Engine F))
    → Coherent b cache
    → (resolve_scanners b loads s categories scanners cache).0 ≡ ok names
    → (requested s loads categories scanners ≡ ok names)
      × (is_nonempty names ≡ true)
      × All (Ready b) names
unfolding resolve_scanners
resolve_scanners_lem b loads s categories scanners names cache co h =
    let go = λ (ns : List String). check_names b ns >> give (ok ns) in
    let picked =
      follow-ok (λ ns. refuse (not (is_nonempty ns)) (value_error no_scanners) >> go ns)
        (requested s loads categories scanners, cache) h in
    let some_name =
      refuse-ok (not (is_nonempty picked.0)) (value_error no_scanners) (go picked.0) cache
        picked.2 in
    let ran = follow-ok (λ _. give (ok picked.0)) (check_names b picked.0 cache) some_name.1 in
    let same : picked.0 ≡ names = cc (ran.2) in
    (
      picked.1 ∙ ap (λ t. ok t) same,
      subst (λ t. is_nonempty t ≡ true) same (ground (arith, some_name.0)),
      subst (All (Ready b)) same (check_names-Ready b picked.0 cache co ran.1),
    )

-- With a cache that holds what the builders give, a selection that `resolve_scanners` accepts is not
-- empty, has no name twice, and has backends that are known and configured. A name is in it exactly if the request names it or one of its
-- categories lists it; the categories are the default ones if the request names nothing.
pub resolve_scanners-ok :
    {F : Type 0} (b : Backends F) (loads : String → Loaded) (s : Registered)
    (categories scanners names : List String) (cache : Dict (Engine F))
    → Coherent b cache
    → (resolve_scanners b loads s categories scanners cache).0 ≡ ok names
    → (is_nonempty names ≡ true)
      × Distinct names
      × All (Ready b) names
      × ((m : Dict (List String)) × (category_map loads s ≡ ok m)
          × ((x : String)
              → contains names x ≡ (
                  any (λ c. in_entry x (get c m)) (selected s categories scanners)
                  || contains scanners x)))
unfolding requested
resolve_scanners-ok b loads s categories scanners names cache co h =
    let found = resolve_scanners_lem b loads s categories scanners names cache co h in
    let chosen =
      choose_lem (selected s categories scanners) scanners names (category_map loads s) found.0 in
    (found.1, chosen.2, found.2, (chosen.0, chosen.1, chosen.3))
