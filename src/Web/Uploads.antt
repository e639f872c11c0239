-- ===== src/Web/Uploads.antt =====
-- src/app.py, the endpoint `scan`, over src/scanner.py and src/wire.py: what an answer to an upload
-- says.
use mathlib.Core.Path.{subst}
use file_scanner.Base.{
  ℕ, ◌≤◌, String, ◌≡◌, refl, sym, ap, ◌∙◌, ◌⊎◌, inl, inr, Bool, true, false, not, Option, some,
  List, [], ◌∷◌, map, arith, length, ltb, any, All, All-map, contains, is_nonempty, ◌==◌, eq_iff,
  eq_refl, Bool-cases, ok, if◌then◌else◌,
}
use file_scanner.Base.Dict.{Dict, get, get-set}
use file_scanner.Base.Value.{Value, Floats, obj, fields}
use file_scanner.Encryption.{Bytes}
use file_scanner.Scanner.{ScannerResult, CategoryVerdict, is_error}
use file_scanner.Scanner.Report.{verdict_of, verdicts, verdict_dict, verdict_dicts, report_dict}
use file_scanner.Scanner.Report.Grouping.{of_category, get-verdicts}
use file_scanner.Scanner.Report.Summary.{all_errored-informative}
use file_scanner.Scanner.Registry.{
  Registered, Engine, clamav_max_file_bytes, deciding_scanners, assert_size_cap_decidable,
}
use file_scanner.Scanner.Registry.Cache.{Coherent, resolve_scanners-cache}
use file_scanner.Scanner.Registry.Resolve.{resolve_scanners}
use file_scanner.Scanner.Registry.Selection.{resolve_scanners-ok}
use file_scanner.Scanner.Run.Order.{IsAnswer, run_scanners-resolved}
use file_scanner.Wire.{v1, to_v1, of_path, serialize}
use file_scanner.Wire.Answers.{v1_scalar, to_v1-report, get-verdict_dicts}
use file_scanner.Web.{answer, split_query, is_refused, Service, scan}
use file_scanner.Web.Endpoints.{scan-Answered}

decidable-cases :
    (s : Registered) (names : List String) (most : ℕ)
    → is_refused (assert_size_cap_decidable s names most) ≡ false
    → (most ≤ clamav_max_file_bytes) ⊎ (contains (deciding_scanners s names) "clamav" ≡ false)
unfolding assert_size_cap_decidable
decidable-cases s names most h = elim (Bool-cases (ltb clamav_max_file_bytes most)) [
  | inl over ↦ inr (ground (arith, over, h))
  | inr within ↦ inl (ground (arith, within))
]

own_category :
    {F : Type 0} (rs : List (ScannerResult F))
    → All (λ r. any (λ q. q.category == r.category) rs ≡ true) rs
own_category [] = tt
own_category (r ∷ rs) = (
  ground (arith, eq_refl r.category),
  All-map (λ q. any (λ p. p.category == q.category) rs ≡ true) _ (λ q h. ground (arith, h)) rs
      (own_category rs),
)

nonempty_map :
    {F : Type 0} (rs : List (ScannerResult F)) (names : List String)
    → map (λ r. r.scanner) rs ≡ names
    → is_nonempty names ≡ true
    → is_nonempty rs ≡ true
nonempty_map [] names named h = ap is_nonempty named ∙ h
nonempty_map (r ∷ rs) names named h = refl

module _ (fl : Floats) where
  open fl use {F}

  -- What a caller reads of the verdict `v` of the category `c`: in v1 its scalar, unless the version
  -- has its key, in v2 its dict among the verdicts.
  abbrev pub Reads : String → Dict (Value F) → String → CategoryVerdict F → Type 0
  Reads version reply c v =
      ((version == v1) ≡ true) × ((c ≡ "api_version") ⊎ (get c reply ≡ some (v1_scalar fl v)))
      ⊎ ((version == v1) ≡ false)
        × ((axes : Dict (Value F)) × (get "verdicts" reply ≡ some (obj (fields axes)))
            × (get c axes ≡ some (obj (fields (verdict_dict fl v)))))

  serialized_as :
      (p : Dict (Value F)) (version k : String) (old : Bool)
      → (version == v1) ≡ old
      → ("api_version" == k) ≡ false
      → get k (serialize fl p version) ≡ get k (if old then to_v1 fl p else p)
  unfolding serialize
  serialized_as p version k old is other =
      rw get-set (rw (other) (ap (λ t. get k (if t then to_v1 fl p else p)) is))

  report-Reads :
      (rs : List (ScannerResult F)) (version c : String)
      → any (λ r. r.category == c) rs ≡ true
      → Reads version
          (serialize fl (report_dict fl rs) version)
          c
          (verdict_of fl (of_category c rs))
  unfolding report_dict get
  report-Reads rs version c ran =
      let at : get c (verdicts fl rs) ≡ some (verdict_of fl (of_category c rs)) =
        get-verdicts fl rs c ∙ ground (arith, ran) in
      elim (Bool-cases (version == v1)) [
        | inl old ↦ inl (
          old,
          elim (Bool-cases ("api_version" == c)) [
            | inl same ↦ inl (ground (arith, same, eq_iff "api_version" c))
            | inr other ↦ inr (
                serialized_as (report_dict fl rs) version c true old other
                ∙ to_v1-report fl rs c (verdict_of fl (of_category c rs)) at)
          ],
        )
        | inr new ↦ inr (
          new,
          (
            verdict_dicts fl (verdicts fl rs),
            serialized_as (report_dict fl rs) version "verdicts" false new refl,
            get-verdict_dicts fl c (verdicts fl rs) ∙ ground (arith, at),
          ),
        )
      ]

  module _ (d : Service F) where
    -- What an upload is answered: the limit that it is within is one up to which the deciding
    -- scanners decide; `rs` has one result for each selected scanner, in order, which is the answer of
    -- its own backend to the content; some result is not an error; and the reply gives the verdict of
    -- each category that a scanner ran on.
    abbrev pub Reported :
        String → Bytes → List String → List (ScannerResult F) → ℕ → Dict (Value F) → Type 0
    Reported path content names rs code reply =
        (code ≡ 200)
        × (length content ≤ d.registered.max_upload_size)
        × ((d.registered.max_upload_size ≤ clamav_max_file_bytes)
            ⊎ (contains (deciding_scanners d.registered names) "clamav" ≡ false))
        × (map (λ r. r.scanner) rs ≡ names)
        × All (IsAnswer d.backends d.registered d.clock (ok content)) rs
        × (any (λ r. not (is_error r.kind)) rs ≡ true)
        × All
            (λ r. Reads (of_path path) reply r.category (verdict_of fl (of_category r.category rs)))
            rs

    -- From a cache that holds what the builders give, an answer to an upload is a 200; the upload is
    -- within the size limit, which is one that clamav can scan, if it is among the scanners that
    -- decide; each selected scanner has run on it, or failed, and one at least did not fail; and the
    -- answer gives for each category of theirs the verdict of that category's results, in v1 as the
    -- documented scalar, unless the category is named `api_version`, and in v2 as its dict.
    pub scan-Reported :
        (path : String) (categories scanners : Option String) (content : Bytes)
        (cache : Dict (Engine F)) (code : ℕ) (reply : Dict (Value F))
        → Coherent d.backends cache
        → (scan fl d path categories scanners content cache).0 ≡ answer code reply
        → (names : List String) × (rs : List (ScannerResult F)) × ((resolve_scanners d.backends
              d.loads d.registered
              (split_query categories)
              (split_query scanners)
              cache).0
            ≡ ok names)
          × Reported path content names rs code reply
    scan-Reported path categories scanners content cache code reply co h =
        let chosen =
          resolve_scanners d.backends d.loads d.registered (split_query categories)
            (split_query scanners) cache in
        let (names, rs, is, small, decided, ran, informs, status, body) =
          scan-Answered fl d path categories scanners content cache code reply h in
        let later =
          (resolve_scanners-cache d.backends d.loads d.registered (split_query categories)
            (split_query scanners) cache co).1 in
        let (rs', ran', _, named, answers) =
          run_scanners-resolved d.backends d.registered d.clock (ok content) d.loads
            (split_query categories) (split_query scanners) names cache chosen.1 co later is in
        let same : rs' ≡ rs = cc (ran', ran) in
        let in_order : map (λ r. r.scanner) rs ≡ names =
          subst (λ qs. map (λ r. r.scanner) qs ≡ names) same named in
        let chosen_some =
          (resolve_scanners-ok d.backends d.loads d.registered (split_query categories)
            (split_query scanners) names cache co is).0 in
        (
          names,
          rs,
          is,
          (
            status,
            small,
            decidable-cases d.registered names d.registered.max_upload_size decided,
            in_order,
            subst (All (IsAnswer d.backends d.registered d.clock (ok content))) same answers,
            all_errored-informative fl rs (nonempty_map rs names in_order chosen_some) informs,
            All-map (λ r. any (λ q. q.category == r.category) rs ≡ true) _
                (λ r ran_on.
                  subst
                    (λ t.
                      Reads (of_path path) t r.category (verdict_of fl (of_category r.category rs)))
                    (sym body) (report-Reads rs (of_path path) r.category ran_on))
                rs (own_category rs),
          ),
        )
