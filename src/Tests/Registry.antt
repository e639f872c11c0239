-- ===== src/Tests/Registry.antt =====
-- A deployment with exav and an advisory clamav, and a store in memory.

use file_scanner.Scanner.Registry.Selection.{in_entry}
use file_scanner.Base.{◌||◌}
use file_scanner.Base.Text.{strip, comma_list}
use file_scanner.Scanner.Registry.{get_scanner, default_categories_list, advisory_scanners}
use file_scanner.Scanner.Registry.Resolve.{requested}
use file_scanner.Base.Dict.{get-set}
use file_scanner.Base.{
  eq_iff, ℕ, String, ◌≡◌, refl, true, false, Option, none, some, List, [], ◌∷◌, arith, All, map,
  any, contains, is_nonempty, ok, err,
}
use file_scanner.Base.Dict.{Dict, get, set}
use file_scanner.Scanner.{clean, ScannerResult}
use file_scanner.Scanner.Registry.{
  Registered, Engine, Backends, Loaded, object, verdict, crashed, category_map,
  assert_size_cap_decidable,
}
use file_scanner.Scanner.Registry.Resolve.{resolve_scanners}
use file_scanner.Scanner.Registry.Cache.{
  Coherent, nil-Coherent, set-Coherent, resolve_scanners-cache,
}
use file_scanner.Scanner.Registry.Selection.{Distinct, Ready, resolve_scanners-ok}
use file_scanner.Scanner.Registry.Validate.{validate_registry}
use file_scanner.Scanner.Registry.Boot.{validate_registry-decidable}
use file_scanner.Scanner.Run.{run_scanners}
use file_scanner.Scanner.Run.Order.{IsAnswer, run_scanners-resolved}
use file_scanner.Results.{Wrapper, Found, missing, wrapper, Backend, Stores}

abbrev finds : Engine ℕ
finds = record {
  category = "malware";
  scored = false;
  scan = λ content. verdict (record { kind = clean; reason = none; score = none; location = none });
}

abbrev breaks : Engine ℕ
breaks = record { category = "malware"; scored = false; scan = λ content. crashed "no socket" }

abbrev pub backends : Backends ℕ
backends = record { clamav = ok breaks; exav = ok finds; jcop = err "no credentials" }

abbrev pub settings : Registered
settings = record {
  default_scanners = some "{}";
  default_categories = "malware";
  advisory_names = some "clamav";
  max_url_size = 4;
  max_upload_size = 4;
}

abbrev pub both : List String
both = "clamav" ∷ "exav" ∷ []

abbrev pub loads : String → Loaded
loads raw = object (("malware", some both) ∷ [])

pub resolved : (resolve_scanners backends loads settings [] [] []).0 ≡ ok both
unfolding resolve_scanners requested category_map strip default_categories_list comma_list get
    get_scanner set
resolved = refl

pub booted : (validate_registry backends loads settings []).0 ≡ ok tt
unfolding validate_registry category_map strip get get_scanner set default_categories_list
    comma_list advisory_scanners
booted = refl

resolve_scanners-ok_example :
    (is_nonempty both ≡ true)
    × Distinct both
    × All (Ready backends) both
    × ((m : Dict (List String)) × (category_map loads settings ≡ ok m)
        × ((x : String)
            → contains both x
              ≡ (any (λ c. in_entry x (get c m)) ("malware" ∷ []) || contains [] x)))
unfolding default_categories_list comma_list strip
resolve_scanners-ok_example =
    resolve_scanners-ok backends loads settings [] [] both [] (nil-Coherent backends) resolved

-- A cache that holds exav, which was built for an earlier request.
abbrev warm : Dict (Engine ℕ)
warm = set "exav" finds []

warm-Coherent : Coherent backends warm
unfolding get
warm-Coherent = set-Coherent backends "exav" finds [] refl (nil-Coherent backends)

warm_test : get "exav" warm ≡ some finds
unfolding get set
warm_test = refl

resolve_scanners-cache_example :
    ((resolve_scanners backends loads settings [] [] warm).0
      ≡ (resolve_scanners backends loads settings [] [] []).0)
    × Coherent backends (resolve_scanners backends loads settings [] [] warm).1
resolve_scanners-cache_example =
    resolve_scanners-cache backends loads settings [] [] warm warm-Coherent

validate_registry-decidable_example :
    (assert_size_cap_decidable settings both 4 ≡ ok tt)
    × (assert_size_cap_decidable settings both 4 ≡ ok tt)
validate_registry-decidable_example =
    validate_registry-decidable backends loads settings [] both [] [] booted (nil-Coherent backends)
      resolved

run_scanners-resolved_example :
    (rs : List (ScannerResult ℕ)) × ((run_scanners backends settings
        (λ n. 1)
        (ok (7 ∷ []))
        both
        []).0
      ≡ ok rs)
    × ((run_scanners backends settings (λ n. 1) (ok (7 ∷ [])) both []).1 ≡ rs)
    × (map (λ r. r.scanner) rs ≡ both)
    × All (IsAnswer backends settings (λ n. 1) (ok (7 ∷ []))) rs
run_scanners-resolved_example =
    run_scanners-resolved backends settings (λ n. 1) (ok (7 ∷ [])) loads [] [] both [] []
      (nil-Coherent backends) (nil-Coherent backends) resolved

-- A store that keeps everything.
abbrev look : {V : Type 0} → Option (Wrapper V) → Found V
look none = missing
look (some w) = wrapper w

abbrev pub memory : (V : Type 0) → Backend V
memory V = record {
  S = Dict (Wrapper V);
  store_result = λ key w ttl s. some (set key w s);
  get_result = λ key s. look (get key s);
}

pub memory-Stores : (V : Type 0) → Stores (memory V)
memory-Stores V = record {
  read_back = λ key w ttl s s' h. ground (arith, h, get-set key key w s, eq_iff key key);
  keeps = λ key other w ttl s s' h ne.
      ground (arith, h, ne, get-set other key w s, eq_iff other key, eq_iff key other);
}
