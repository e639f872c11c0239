-- ===== src/Tests/Boot.antt =====
-- Requests for categories alone, after the check at boot.
use file_scanner.Base.{String, ℕ, ◌≡◌, ◌↔◌, List, [], ok, contains, is_nonempty, is_some, true}
use file_scanner.Base.Dict.{Dict, get}
use file_scanner.Scanner.{ScannerResult}
use file_scanner.Scanner.Report.{verdicts}
use file_scanner.Scanner.Registry.{Engine, category_map, default_categories_list}
use file_scanner.Scanner.Registry.Resolve.{selected, resolve_scanners}
use file_scanner.Scanner.Registry.Cache.{Coherent, nil-Coherent}
use file_scanner.Scanner.Registry.Accepting.{AllKnown, validate_registry-accepts}
use file_scanner.Scanner.Run.{run_scanners}
use file_scanner.Scanner.Run.Covering.{run_scanners-verdicts}
use file_scanner.Tests.{floats}
use file_scanner.Tests.Registry.{backends, settings, loads, both, resolved, booted}

validate_registry-accepts_example :
    (m : Dict (List String)) × (category_map loads settings ≡ ok m)
    × AllKnown m (default_categories_list settings)
    × ((categories : List String) (later : Dict (Engine ℕ))
        → Coherent backends later
        → ((names : List String) × ((resolve_scanners backends loads settings categories [] later).0
              ≡ ok names))
          ↔ (is_nonempty (selected settings categories []) ≡ true)
            × AllKnown m (selected settings categories []))
validate_registry-accepts_example =
    validate_registry-accepts backends loads settings [] (nil-Coherent backends) booted

run_scanners-verdicts_example :
    (rs : List (ScannerResult ℕ)) × ((run_scanners backends settings (λ name. 1) (ok []) both []).0
      ≡ ok rs)
    × ((c : String) → is_some (get c (verdicts floats rs)) ≡ contains (selected settings [] []) c)
run_scanners-verdicts_example =
    run_scanners-verdicts floats backends settings (λ name. 1) (ok []) loads [] both [] [] []
      (nil-Coherent backends) (nil-Coherent backends) (nil-Coherent backends) booted resolved
