-- ===== src/Scanner/Run/Order.antt =====
-- src/scanner.py, `run_scanners`, after `resolve_scanners`.
use file_scanner.Scanner.Registry.Resolve.{resolve_scanners}
use file_scanner.Base.{true, map, is_nonempty}
use file_scanner.Scanner.Run.{run_scanners}
use file_scanner.Scanner.Registry.Selection.{resolve_scanners-ok}
use mathlib.Core.Path.{subst}
use file_scanner.Base.{
  ℕ, String, ◌≡◌, refl, sym, ap, some, List, [], ◌∷◌, All, contains, Result, ok, err,
}
use file_scanner.Base.Dict.{Dict, get}
use file_scanner.Scanner.{ScannerResult}
use file_scanner.Scanner.Registry.{
  Loaded, Reg, follow, give, Registered, Engine, Backends, Raised, builders, advisory_scanners,
  get_scanner,
}
use file_scanner.Scanner.Registry.Cache.{Coherent, Settles, get_scanner-Settles, get_scanner-answer}
use file_scanner.Scanner.Registry.Selection.{Ready}
use file_scanner.Scanner.Run.{
  from_scan, scan_opened, result_of, run_one, run_each, collect, counted,
}

pub follow_returned :
    {F A B : Type 0} (f : A → Reg F B) {a : A} (p : Result Raised A × Dict (Engine F))
    → p.0 ≡ ok a
    → follow f p ≡ f a p.1
follow_returned f (ok a, cache) h = cc h
follow_returned f (err e, cache) h = cc

module _ {F : Type 0} (b : Backends F) (s : Registered) (clock : String → F)
    (file : Result String (List ℕ)) where
  -- The result of each name, from its own backend and the file alone.
  abbrev pub alone : (ns : List String) → All (Ready b) ns → List (ScannerResult F)
  alone [] tt = []
  alone (n ∷ ns) ((e, _), ready) =
      result_of (contains (advisory_scanners s) n) (clock n) n e (from_scan (scan_opened e file))
      ∷ alone ns ready

  run_one_lem :
      (n : String) (e : Engine F) (cache : Dict (Engine F))
      → Coherent b cache
      → get n (builders b) ≡ some (ok e)
      → ((run_one b s clock file n cache).0
          ≡ ok (
              result_of
                (contains (advisory_scanners s) n)
                (clock n)
                n
                e
                (from_scan (scan_opened e file))))
        × Coherent b (run_one b s clock file n cache).1
  unfolding run_one Settles
  run_one_lem n e cache co known =
      let given : Engine F → Result Raised (ScannerResult F) = λ a. ok (
        result_of (contains (advisory_scanners s) n) (clock n) n a
          (from_scan (scan_opened a file))) in
      let answer : Engine F → Reg F (ScannerResult F) = λ a. give (given a) in
      let same =
        follow_returned answer (get_scanner b n cache) (get_scanner-answer b n e cache co known) in
      (
        ap (λ t. t.0) same,
        subst (λ t. Coherent b t.1) (sym same) (get_scanner-Settles b n cache co).1,
      )

  run_each_lem :
      (ns : List String) (ready : All (Ready b) ns) (cache : Dict (Engine F))
      → Coherent b cache
      → (collect (run_each b s clock file ns cache).0 ≡ ok (alone ns ready))
        × (counted (run_each b s clock file ns cache).0 ≡ alone ns ready)
        × Coherent b (run_each b s clock file ns cache).1
  unfolding run_each
  run_each_lem [] ready cache co = (refl, refl, co)
  run_each_lem (n ∷ ns) ((e, known), ready) cache co =
      let one = run_one_lem n e cache co known in
      let rest = run_each_lem ns ready (run_one b s clock file n cache).1 one.1 in
      (rw one.0 (rw rest.0 refl), rw one.0 (rw rest.1 refl), rest.2)

  -- A result is what the backend of its name makes of the file: its verdict, or an `error` if it
  -- raised, under the name's category, scoring and standing.
  unfoldable pub IsAnswer : ScannerResult F → Type 0
  IsAnswer r =
      (e : Engine F) × (get r.scanner (builders b) ≡ some (ok e))
      × (r
          ≡ result_of (contains (advisory_scanners s) r.scanner) (clock r.scanner) r.scanner e
              (from_scan (scan_opened e file)))

  alone-IsAnswer : (ns : List String) (ready : All (Ready b) ns) → All IsAnswer (alone ns ready)
  unfolding IsAnswer
  alone-IsAnswer [] ready = tt
  alone-IsAnswer (n ∷ ns) ((e, known), ready) = ((e, known, refl), alone-IsAnswer ns ready)

  map-alone :
      (ns : List String) (ready : All (Ready b) ns) → map (λ r. r.scanner) (alone ns ready) ≡ ns
  map-alone [] ready = refl
  map-alone (n ∷ ns) ((e, known), ready) = ap (λ t. n ∷ t) (map-alone ns ready)

  run_scanners-Ready :
      (ns : List String) (ready : All (Ready b) ns) (cache : Dict (Engine F))
      → is_nonempty ns ≡ true
      → Coherent b cache
      → ((run_scanners b s clock file ns cache).0 ≡ ok (alone ns ready))
        × ((run_scanners b s clock file ns cache).1 ≡ alone ns ready)
  unfolding run_scanners
  run_scanners-Ready [] ready cache some_name co = cc
  run_scanners-Ready (n ∷ ns) ready cache some_name co =
      let ran = run_each_lem (n ∷ ns) ready cache co in (ran.0, ran.1)

  -- On a selection that `resolve_scanners` accepted, `run_scanners` returns, whatever the backends
  -- and the file do: one result for each name, in the order of the names, each the answer of its own
  -- backend. A backend that raises has an `error` result and changes no other. Each result is
  -- counted once.
  pub run_scanners-resolved :
      (loads : String → Loaded) (categories scanners names : List String)
      (cache later : Dict (Engine F))
      → Coherent b cache
      → Coherent b later
      → (resolve_scanners b loads s categories scanners cache).0 ≡ ok names
      → (rs : List (ScannerResult F)) × ((run_scanners b s clock file names later).0 ≡ ok rs)
        × ((run_scanners b s clock file names later).1 ≡ rs)
        × (map (λ r. r.scanner) rs ≡ names)
        × All IsAnswer rs
  run_scanners-resolved loads categories scanners names cache later co co' h =
      let chosen = resolve_scanners-ok b loads s categories scanners names cache co h in
      let ran = run_scanners-Ready names chosen.2 later chosen.0 co' in
      (alone names chosen.2, ran.0, ran.1, map-alone names chosen.2, alone-IsAnswer names chosen.2)
