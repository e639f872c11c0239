-- ===== src/Scanner/Registry/Declared.antt =====
-- src/scanner.py, `validate_registry`: what the engines of a category that it accepted declare.
use mathlib.Core.Path.{subst}
use file_scanner.Base.{
  String, ◌≡◌, refl, ap, ◌∙◌, Bool, true, false, not, ◌&&◌, some, List, [], ◌∷◌, arith, Bool-cases,
  inl, inr, All, is_nonempty, Result, ok, ◌==◌, eq_iff, if◌then◌else◌,
}
use file_scanner.Base.Dict.{Dict, get}
use file_scanner.Scanner.Registry.{
  Engine, Backends, Raised, Reg, runtime_error, unknown_scanner, wrong_category, empty_category,
  mixed, give, ◌>>=◌, ◌>>◌, refuse, builders, is_known, get_scanner,
}
use file_scanner.Scanner.Registry.Validate.{check_category, scored_set, check_map}
use file_scanner.Scanner.Registry.Cache.{
  Coherent, Settles, give-Settles, refuse-Settles, >>=-Settles, get_scanner-Settles,
  get_scanner-ready,
}
use file_scanner.Scanner.Registry.Selection.{follow-ok, refuse-ok}

ok_bools : {x y : Bool × Bool} → ◌≡◌ {A = Result Raised (Bool × Bool)} (ok x) (ok y) → x ≡ y
ok_bools h = cc

own_axis :
    (scored : Bool) (rest : Bool × Bool)
    → let axis : Bool × Bool = if scored then (true, rest.1) else (rest.0, true) in
      (if scored then axis.0 else axis.1) ≡ true
own_axis true rest = refl
own_axis false rest = refl

module _ {F : Type 0} (b : Backends F) where
  -- The engine of a name, by the category that it declares.
  abbrev pub Under : String → String → Type 0
  Under c n = (e : Engine F) × (get n (builders b) ≡ some (ok e)) × (e.category ≡ c)

  -- The same, with whether it is scored.
  abbrev pub OnAxis : String → Bool → String → Type 0
  OnAxis c axis n =
      (e : Engine F) × (get n (builders b) ≡ some (ok e)) × (e.category ≡ c) × (e.scored ≡ axis)

  abbrev pub Declares : String → List String → Type 0
  Declares c names = (is_nonempty names ≡ true) × ((axis : Bool) × All (OnAxis c axis) names)

  check_category-Settles : (c : String) (ns : List String) → Settles b (check_category b c ns)
  unfolding check_category
  check_category-Settles c [] = give-Settles b (ok tt)
  check_category-Settles c (n ∷ ns) = >>=-Settles b _ _ (refuse-Settles b _ _) λ _.
      >>=-Settles b _ _ (get_scanner-Settles b n)
        λ e. >>=-Settles b _ _ (refuse-Settles b _ _) λ _. check_category-Settles c ns

  scored_set-Settles : (ns : List String) → Settles b (scored_set b ns)
  unfolding scored_set
  scored_set-Settles [] = give-Settles b (ok (false, false))
  scored_set-Settles (n ∷ ns) =
      >>=-Settles b _ _ (get_scanner-Settles b n)
        λ e. >>=-Settles b _ _ (scored_set-Settles ns) λ rest. give-Settles b _

  check_category-Under :
      (c : String) (ns : List String) (cache : Dict (Engine F))
      → Coherent b cache
      → (check_category b c ns cache).0 ≡ ok tt
      → All (Under c) ns
  unfolding check_category Settles
  check_category-Under c [] cache co h = tt
  check_category-Under c (n ∷ ns) cache co h =
      let checked : Engine F → Reg F (Unit {0}) = λ e.
        refuse (not (e.category == c)) (runtime_error (wrong_category n c))
        >> check_category b c ns in
      let known =
        refuse-ok (not (is_known b n)) (runtime_error (unknown_scanner n))
          (get_scanner b n >>= checked) cache h in
      let (e, built, next) = follow-ok checked (get_scanner b n cache) known.1 in
      let right =
        refuse-ok (not (e.category == c)) (runtime_error (wrong_category n c))
          (check_category b c ns) (get_scanner b n cache).1 next in
      (
        (e, get_scanner-ready b n e cache co built, ground (arith, right.0, eq_iff e.category c)),
        check_category-Under c ns (get_scanner b n cache).1 (get_scanner-Settles b n cache co).1
            right.1,
      )

  -- What the set of a category says of a name in it.
  abbrev Seen : Bool × Bool → String → Type 0
  Seen axis n =
      (e : Engine F) × (get n (builders b) ≡ some (ok e))
      × ((if e.scored then axis.0 else axis.1) ≡ true)

  Seen-more :
      (scored : Bool) (axis : Bool × Bool) (ns : List String)
      → All (Seen axis) ns
      → All (Seen (if scored then (true, axis.1) else (axis.0, true))) ns
  Seen-more scored axis [] h = tt
  Seen-more scored axis (n ∷ ns) ((e, built, in_set), h) =
      ((e, built, ground (arith, in_set)), Seen-more scored axis ns h)

  scored_set-Seen :
      (ns : List String) (cache : Dict (Engine F)) (axis : Bool × Bool)
      → Coherent b cache
      → (scored_set b ns cache).0 ≡ ok axis
      → All (Seen axis) ns
  unfolding scored_set Settles
  scored_set-Seen [] cache axis co h = tt
  scored_set-Seen (n ∷ ns) cache axis co h =
      let joined : Engine F → Bool × Bool → Reg F (Bool × Bool) =
        λ e rest. give (ok (if e.scored then (true, rest.1) else (rest.0, true))) in
      let (e, built, next) =
        follow-ok (λ e. scored_set b ns >>= joined e) (get_scanner b n cache) h in
      let (rest, seen, all_in) =
        follow-ok (joined e) (scored_set b ns (get_scanner b n cache).1) next in
      let later =
        scored_set-Seen ns (get_scanner b n cache).1 rest (get_scanner-Settles b n cache co).1
          seen in
      subst (λ x. All (Seen x) (n ∷ ns)) (ok_bools all_in)
        (
          (e, get_scanner-ready b n e cache co built, own_axis e.scored rest),
          Seen-more e.scored rest ns later,
        )

  on_axis :
      (c : String) (axis : Bool × Bool) (ns : List String)
      → (axis.0 && axis.1) ≡ false
      → All (Under c) ns
      → All (Seen axis) ns
      → All (OnAxis c axis.0) ns
  on_axis c axis [] h under seen = tt
  on_axis c axis (n ∷ ns) h ((e, built, declared), under) ((e', built', in_set), seen) =
      let same : e ≡ e' = cc (built, built') in
      (
        (e, built, declared, ap (λ x. x.scored) same ∙ ground (arith, h, in_set)),
        on_axis c axis ns h under seen,
      )

  -- What `check_map` accepted: no category is empty, and each of its engines is built, declares it,
  -- and is scored as the others of it are.
  pub check_map-Declares :
      (m : Dict (List String)) (cache : Dict (Engine F))
      → Coherent b cache
      → (check_map b m cache).0 ≡ ok tt
      → All (λ entry. Declares entry.0 entry.1) m
  unfolding check_map Settles
  check_map-Declares [] cache co h = tt
  check_map-Declares ((c, names) ∷ d) cache co h =
      let tested : Bool × Bool → Reg F (Unit {0}) =
        λ axis. refuse (axis.0 && axis.1) (runtime_error (mixed c)) >> check_map b d in
      let filled =
        refuse-ok (not (is_nonempty names)) (runtime_error (empty_category c))
          (check_category b c names >> (scored_set b names >>= tested)) cache h in
      let (_, listed, next) =
        follow-ok (λ _. scored_set b names >>= tested) (check_category b c names cache) filled.1 in
      let after = (check_category b c names cache).1 in
      let co' = (check_category-Settles c names cache co).1 in
      let (axis, seen, rest) = follow-ok tested (scored_set b names after) next in
      let single =
        refuse-ok (axis.0 && axis.1) (runtime_error (mixed c)) (check_map b d)
          (scored_set b names after).1 rest in
      (
        (
          ground (arith, filled.0),
          (
            axis.0,
            on_axis c axis names single.0 (check_category-Under c names cache co (cc (listed)))
                (scored_set-Seen names after axis co' seen),
          ),
        ),
        check_map-Declares d (scored_set b names after).1 (scored_set-Settles names after co').1
            single.1,
      )

  pub Declares-get :
      (m : Dict (List String)) (c : String) (names : List String)
      → All (λ entry. Declares entry.0 entry.1) m
      → get c m ≡ some names
      → Declares c names
  unfolding get
  Declares-get [] c names h g = cc
  Declares-get ((k, ns) ∷ m) c names (here, h) g = elim (Bool-cases (k == c)) [
    | inl same ↦
        let k_is : k ≡ c = (eq_iff k c).0 same in
        let ns_is : ns ≡ names = ground (arith, g, same) in
        subst (λ x. Declares x names) k_is (subst (Declares k) ns_is here)
    | inr other ↦ Declares-get m c names h (ground (arith, g, other))
  ]
