-- ===== src/Scanner/Report/Precedence.antt =====
-- src/scanner.py, `ScanReport.verdicts` and the two rules of its comment, precedence and scope.
use Prim.Native.Nat.{max}
use file_scanner.Base.{
  ℕ, ◌≡◌, refl, inl, inr, Bool, false, not, ◌&&◌, ◌||◌, List, [], ◌∷◌, arith, any, all,
  if◌then◌else◌, find?_cases, find?_cases_with, nonempty-filter, or-filter, all-not, any_congr,
  head?-filter, find?-filter, any-filter, Bool-cases, is_nonempty,
}
use file_scanner.Base.Value.{Floats}
use file_scanner.Scanner.{
  Kind, clean, malware, flagged, partial, error, is_malware, is_flagged, is_error, is_partial,
  is_detection, ScannerResult, incomplete,
}
use file_scanner.Scanner.Report.{
  deciding, blocker, top_detection, unread_verdict, discrete_verdict, scored_verdict, verdict_of,
}

-- The precedence of the comment, as a number.
abbrev pub severity : Kind → ℕ
severity clean = 0
severity partial = 1
severity error = 2
severity flagged = 3
severity malware = 4

-- The precedence as a ladder of tests.
abbrev ladder : Bool → Bool → Bool → Bool → Kind
ladder m f e p =
    if m then malware else if f then flagged else if e then error else if p then partial else clean

module _ {F : Type 0} where
  -- The scope of the comment: a detection counts from any scanner, the rest from the deciding ones,
  -- which are all scanners where all are advisory.
  abbrev pub counts : Bool → ScannerResult F → Bool
  counts solo r = is_detection r.kind || not r.advisory || solo

  abbrev worst_from : Bool → List (ScannerResult F) → ℕ
  worst_from solo [] = 0
  worst_from solo (r ∷ rs) = max (if counts solo r then severity r.kind else 0) (worst_from solo rs)

  abbrev pub worst : List (ScannerResult F) → ℕ
  worst rs = worst_from (all (λ r. r.advisory) rs) rs

  abbrev pub any_malware : List (ScannerResult F) → Bool
  any_malware = any (λ r. is_malware r.kind)

  abbrev any_flagged : List (ScannerResult F) → Bool
  any_flagged = any (λ r. is_flagged r.kind)

  abbrev any_error : List (ScannerResult F) → Bool
  any_error = any (λ r. is_error r.kind)

  abbrev any_partial : List (ScannerResult F) → Bool
  any_partial = any (λ r. is_partial r.kind)

  pub any-detection :
      (rs : List (ScannerResult F))
      → any (λ r. is_detection r.kind) rs ≡ (any_malware rs || any_flagged rs)
  any-detection [] = refl
  any-detection (r ∷ rs) = ground (arith, any-detection rs)

  any-incomplete :
      (rs : List (ScannerResult F)) → any incomplete rs ≡ (any_error rs || any_partial rs)
  any-incomplete [] = refl
  any-incomplete (r ∷ rs) = ground (arith, any-incomplete rs)

  any-deciding :
      (p : ScannerResult F → Bool) (rs : List (ScannerResult F))
      → any p (deciding rs) ≡ any (λ r. (not r.advisory || all (λ r. r.advisory) rs) && p r) rs
  unfolding deciding
  any-deciding p rs = elim (Bool-cases (any (λ r. not r.advisory) rs)) [
    | inl some_decide ↦
        rw (or-filter, some_decide, any-filter, all-not, some_decide)
          (any_congr _ _ (λ r. ground arith) rs)
    | inr all_advise ↦ rw (or-filter, all_advise, all-not) (any_congr _ _ (λ r. ground arith) rs)
  ]

  -- The maximum over the results is the first rung of the ladder that holds.
  worst_from-ladder :
      (solo : Bool) (rs : List (ScannerResult F))
      → worst_from solo rs
        ≡ severity (
            ladder
              (any_malware rs)
              (any_flagged rs)
              (any (λ r. (not r.advisory || solo) && is_error r.kind) rs)
              (any (λ r. (not r.advisory || solo) && is_partial r.kind) rs))
  worst_from-ladder solo [] = refl
  worst_from-ladder solo (r ∷ rs) = ground (arith, worst_from-ladder solo rs)

  blocker_kind :
      (rs : List (ScannerResult F))
      → (unread_verdict (blocker rs)).kind
        ≡ ladder false false (any_error (deciding rs)) (any_partial (deciding rs))
  unfolding blocker unread_verdict
  blocker_kind rs = ground (
    arith,
    find?-filter (λ r. is_error r.kind) incomplete (λ r h. ground arith) (deciding rs),
    head?-filter incomplete (deciding rs),
    find?_cases (λ r. is_error r.kind) (deciding rs),
    find?_cases incomplete (deciding rs),
    any-incomplete (deciding rs),
  )

  discrete_kind :
      (rs : List (ScannerResult F))
      → (discrete_verdict rs).kind
        ≡ ladder
            (any_malware rs)
            (any_flagged rs)
            (any_error (deciding rs))
            (any_partial (deciding rs))
  unfolding discrete_verdict top_detection
  discrete_kind rs = ground (
    arith,
    find?-filter (λ r. is_malware r.kind) (λ r. is_detection r.kind) (λ r h. ground arith) rs,
    head?-filter (λ r. is_detection r.kind) rs,
    find?_cases (λ r. is_malware r.kind) rs,
    find?_cases_with (λ r. is_detection r.kind) (λ r. is_malware r.kind) rs,
    any-detection rs,
    blocker_kind rs,
  )

module _ (fl : Floats) where
  open fl use {F}

  scored_kind :
      (rs : List (ScannerResult F))
      → (scored_verdict fl rs).kind
        ≡ ladder false (any_flagged rs) (any_error (deciding rs)) (any_partial (deciding rs))
  unfolding scored_verdict unread_verdict
  scored_kind rs = ground (arith, nonempty-filter (λ r. is_flagged r.kind) rs, blocker_kind rs)

  pub verdict_of_kind :
      (rs : List (ScannerResult F))
      → (verdict_of fl rs).kind
        ≡ ladder
            (any_malware rs && not (is_nonempty rs && all (λ r. r.scored) rs))
            (any_flagged rs)
            (any_error (deciding rs))
            (any_partial (deciding rs))
  unfolding verdict_of
  verdict_of_kind rs = ground (arith, discrete_kind rs, scored_kind rs)

  -- The verdict of a category is its worst result, in the order malware, flagged, error, partial,
  -- clean, where a detection counts from every scanner and the other words only from the deciding
  -- ones. It holds of a discrete axis, and of a scored one on which no scanner reported malware.
  pub verdict_of-worst :
      (rs : List (ScannerResult F))
      → (all (λ r. r.scored) rs && any_malware rs) ≡ false
      → severity (verdict_of fl rs).kind ≡ worst rs
  verdict_of-worst rs h = ground (
    arith,
    verdict_of_kind rs,
    worst_from-ladder (all (λ r. r.advisory) rs) rs,
    any-deciding (λ r. is_error r.kind) rs,
    any-deciding (λ r. is_partial r.kind) rs,
  )
