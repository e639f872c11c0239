-- ===== src/Scanner/Run/Covering.antt =====
-- src/scanner.py, from `validate_registry` to `ScanReport.verdicts`: the categories that a report
-- answers for.
use mathlib.Core.Path.{subst}
use file_scanner.Base.{
  String, ◌≡◌, refl, sym, ap, ◌∙◌, Bool, true, false, ◌||◌, none, some, List, [], ◌∷◌, arith,
  Bool-cases, Option-cases, inl, inr, All, any, map, contains, is_nonempty, is_some, Result, ok,
  eq_refl, eq_iff, ◌==◌, if◌then◌else◌, ℕ,
}
use file_scanner.Base.Dict.{Dict, get}
use file_scanner.Base.Value.{Floats}
use file_scanner.Scanner.{ScannerResult}
use file_scanner.Scanner.Report.{verdicts}
use file_scanner.Scanner.Report.Grouping.{get-verdicts}
use file_scanner.Scanner.Registry.{Registered, Engine, Backends, Loaded}
use file_scanner.Scanner.Registry.Resolve.{resolve_scanners, selected}
use file_scanner.Scanner.Registry.Validate.{validate_registry}
use file_scanner.Scanner.Registry.Cache.{Coherent}
use file_scanner.Scanner.Registry.Selection.{in_entry, resolve_scanners-ok}
use file_scanner.Scanner.Registry.Boot.{
  validate_registry_lem, find_category, any-entry, ok-injective,
}
use file_scanner.Scanner.Registry.Declared.{Declares, OnAxis, check_map-Declares, Declares-get}
use file_scanner.Scanner.Registry.Accepting.{AllKnown, validate_registry-accepts}
use file_scanner.Scanner.Run.{run_scanners}
use file_scanner.Scanner.Run.Order.{IsAnswer, run_scanners-resolved}

some_if {ℓ} : {A : Type ℓ} (t : Bool) (a : A) → is_some (if t then some a else none) ≡ t
some_if true a = refl
some_if false a = refl

same_truth : (a b : Bool) → (a ≡ true → b ≡ true) → (b ≡ true → a ≡ true) → a ≡ b
same_truth true b to from = sym (to refl)
same_truth false true to from = from refl
same_truth false false to from = refl

All-contains :
    (P : String → Type 0) (xs : List String) (x : String) → All P xs → contains xs x ≡ true → P x
All-contains P [] x h g = cc
All-contains P (y ∷ xs) x (p, h) g = elim (Bool-cases (x == y)) [
  | inl same ↦ subst P (sym ((eq_iff x y).0 same)) p
  | inr other ↦ All-contains P xs x h (ground (arith, g, other))
]

first_of : (xs : List String) → is_nonempty xs ≡ true → (x : String) × (contains xs x ≡ true)
first_of [] h = cc
first_of (x ∷ xs) h = (x, ground (arith, eq_refl x))

known_part :
    (m : Dict (List String)) (cs : List String) (c : String)
    → AllKnown m cs
    → contains cs c ≡ true
    → (part : List String) × (get c m ≡ some part)
known_part m [] c h g = cc
known_part m (k ∷ cs) c h g = elim (Bool-cases (c == k)) [
  | inl same ↦ elim (Option-cases (get c m)) [
    | inl gone ↦
        let k_is : k ≡ c = sym ((eq_iff c k).0 same) in
        absurd (ground (arith, h, ap (λ x. get x m) k_is, gone))
    | inr found ↦ found
  ]
  | inr other ↦ known_part m cs c (ground (arith, h)) (ground (arith, g, other))
]

module _ {F : Type 0} (P : ScannerResult F → Type 0) where
  -- A result that passes a test.
  any-result :
      (p : ScannerResult F → Bool) (rs : List (ScannerResult F))
      → All P rs
      → any p rs ≡ true
      → (r : ScannerResult F) × P r
        × (p r ≡ true)
        × (contains (map (λ x. x.scanner) rs) r.scanner ≡ true)
  any-result p [] h g = cc
  any-result p (r ∷ rs) (here, h) g = elim (Bool-cases (p r)) [
    | inl yes_ ↦ (r, here, yes_, ground (arith, eq_refl r.scanner))
    | inr no_ ↦
        let (x, at, passes, named) = any-result p rs h (ground (arith, g, no_)) in
        (x, at, passes, ground (arith, named))
  ]

  -- The result of a scanner.
  named_result :
      (rs : List (ScannerResult F)) (n : String)
      → All P rs
      → contains (map (λ x. x.scanner) rs) n ≡ true
      → (r : ScannerResult F) × P r
        × (r.scanner ≡ n)
        × ((p : ScannerResult F → Bool) → p r ≡ true → any p rs ≡ true)
  named_result [] n h g = cc
  named_result (r ∷ rs) n (here, h) g = elim (Bool-cases (n == r.scanner)) [
    | inl same ↦ (r, here, sym ((eq_iff n r.scanner).0 same), λ p passes. ground (arith, passes))
    | inr other ↦
        let (x, at, named, any_) = named_result rs n h (ground (arith, g, other)) in
        (x, at, named, λ p passes. ground (arith, any_ p passes))
  ]

module _ {F : Type 0} (b : Backends F) (s : Registered) (clock : String → F)
    (content : Result String (List ℕ)) where
  -- The category of an answer is the one that its engine declares.
  answer-category :
      (r : ScannerResult F) (c : String) (axis : Bool)
      → IsAnswer b s clock content r
      → OnAxis b c axis r.scanner
      → r.category ≡ c
  unfolding IsAnswer
  answer-category r c axis (e, known, is) (e', known', declared, _) =
      let same : e ≡ e' = cc (known, known') in
      ap (λ x. x.category) is ∙ ap (λ x. x.category) same ∙ declared

  module _ (m : Dict (List String)) (declared : All (λ entry. Declares b entry.0 entry.1) m)
      (cs names : List String)
      (same : (x : String)
        → contains names x ≡ (any (λ c. in_entry x (get c m)) cs || contains [] x))
      (rs : List (ScannerResult F)) (named : map (λ r. r.scanner) rs ≡ names)
      (answers : All (IsAnswer b s clock content) rs) where
    -- A result is of a category that was selected.
    result-selected : (c : String) → any (λ r. r.category == c) rs ≡ true → contains cs c ≡ true
    result-selected c h =
        let (r, answer, is, listed) =
          any-result (IsAnswer b s clock content) (λ r. r.category == c) rs answers h in
        let held = ap (λ t. contains t r.scanner) (sym named) ∙ listed in
        let (k, part, found, chosen, within) =
          find_category s m cs r.scanner (ground (arith, same r.scanner, held)) in
        let (_, (axis, all_declared)) = Declares-get b m k part declared found in
        let k_is : r.category ≡ k =
          answer-category r k axis answer
            (All-contains (OnAxis b k axis) part r.scanner all_declared within) in
        subst (λ x. contains cs x ≡ true) (sym k_is ∙ (eq_iff r.category c).0 is) chosen

    -- A category that was selected has a result.
    selected-result :
        (c : String) → AllKnown m cs → contains cs c ≡ true → any (λ r. r.category == c) rs ≡ true
    selected-result c known chosen =
        let (part, found) = known_part m cs c known chosen in
        let (filled, (axis, all_declared)) = Declares-get b m c part declared found in
        let (n, within) = first_of part filled in
        let listed : contains names n ≡ true =
          ground (arith, same n, any-entry s m cs c n part found chosen within) in
        let (r, answer, is, any_) =
          named_result (IsAnswer b s clock content) rs n answers
            (ap (λ t. contains t n) named ∙ listed) in
        let on_axis =
          subst (OnAxis b c axis) (sym is)
            (All-contains (OnAxis b c axis) part n all_declared within) in
        any_ (λ r. r.category == c)
          ((eq_iff r.category c).1 (answer-category r c axis answer on_axis))

module _ (fl : Floats) (b : Backends fl.F) (s : Registered) (clock : String → fl.F)
    (content : Result String (List ℕ)) where
  -- Once the configuration passed the check at boot, the report of an accepted request for categories
  -- alone has a verdict for exactly the categories that it selects, which are the default ones if it
  -- names none, whatever the backends and the file do.
  pub run_scanners-verdicts :
      (loads : String → Loaded) (categories names : List String)
      (cache before later : Dict (Engine fl.F))
      → Coherent b cache
      → Coherent b before
      → Coherent b later
      → (validate_registry b loads s cache).0 ≡ ok tt
      → (resolve_scanners b loads s categories [] before).0 ≡ ok names
      → (rs : List (ScannerResult fl.F)) × ((run_scanners b s clock content names later).0 ≡ ok rs)
        × ((c : String) → is_some (get c (verdicts fl rs)) ≡ contains (selected s categories []) c)
  run_scanners-verdicts loads categories names cache before later co co' co'' valid chosen =
      let cs = selected s categories [] in
      let (m, mapped, checked, _, _, _) = validate_registry_lem b loads s cache valid in
      let declared = check_map-Declares b m cache co checked in
      let (m', mapped', _, accepts) = validate_registry-accepts b loads s cache co valid in
      let known' = ((accepts categories before co').0 (names, chosen)).1 in
      let (_, _, _, (m'', mapped'', same'')) =
        resolve_scanners-ok b loads s categories [] names before co' chosen in
      let known = subst (λ x. AllKnown x cs) (ok-injective (sym mapped' ∙ mapped)) known' in
      let same =
        subst
          (λ x.
            (n : String) → contains names n ≡ (any (λ c. in_entry n (get c x)) cs || contains [] n))
          (ok-injective (sym mapped'' ∙ mapped)) same'' in
      let (rs, ran, _, named, answers) =
        run_scanners-resolved b s clock content loads categories [] names before later co' co''
          chosen in
      (
        rs,
        ran,
        λ c.
            ap is_some (get-verdicts fl rs c)
            ∙ some_if (any (λ r. r.category == c) rs) _
            ∙ same_truth (any (λ r. r.category == c) rs) (contains cs c)
                (result-selected b s clock content m declared cs names same rs named answers c)
                (selected-result b s clock content m declared cs names same rs named answers c
                  known),
      )
