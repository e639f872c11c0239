-- ===== src/Scanner/Report/Summary.antt =====
-- src/scanner.py, `ScanReport.malware` and `all_errored`, against the verdicts of the categories.
use file_scanner.Base.{
  ◌≡◌, refl, Bool, true, false, ◌&&◌, List, [], ◌∷◌, arith, any, all, is_nonempty, all-append, All,
  not, ◌++◌, ◌∙◌, any-append, any-filter, Bool-cases, inl, inr,
}
use file_scanner.Base.Dict.{Dict}
use file_scanner.Base.Value.{Floats}
use file_scanner.Scanner.{
  Kind, error, is_malware, is_error, is_detection, ScannerResult, CategoryVerdict,
}
use file_scanner.Scanner.Report.{
  report_malware, report_detected, group_from, by_category, deciding, all_deciding, all_errored,
  verdict_of, verdicts_of, verdicts,
}
use file_scanner.Scanner.Report.Precedence.{verdict_of_kind, any-detection}
use file_scanner.Scanner.Report.Grouping.{
  any_group, any-group_from, AreNonempty, group_from-AreNonempty,
}

detection_no_error : (k : Kind) → (is_detection k && is_error k) ≡ false
detection_no_error k = ground arith

any_and :
    {F : Type 0} (p : ScannerResult F → Bool) (g : List (ScannerResult F))
    → any p g ≡ false
    → any (λ r. not r.advisory && p r) g ≡ false
any_and p [] h = refl
any_and p (r ∷ rs) h = ground (arith, any_and p rs)

no_detection :
    {F : Type 0} (rs : List (ScannerResult F))
    → any (λ r. not (is_error r.kind)) rs ≡ false
    → any (λ r. is_detection r.kind) rs ≡ false
no_detection [] h = refl
no_detection (r ∷ rs) h = ground (arith, no_detection rs, detection_no_error r.kind)

all_errors :
    {F : Type 0} (rs : List (ScannerResult F))
    → any (λ r. not (is_error r.kind)) rs ≡ false
    → all (λ r. is_error r.kind) rs ≡ true
all_errors [] h = refl
all_errors (r ∷ rs) h = ground (arith, all_errors rs)

nonempty_any :
    {F : Type 0} (rs : List (ScannerResult F)) → is_nonempty rs ≡ true → any (λ r. true) rs ≡ true
nonempty_any [] h = h
nonempty_any (r ∷ rs) h = refl

nonempty_group :
    {F : Type 0} (d : Dict (List (ScannerResult F)))
    → any_group (λ r. true) d ≡ true
    → is_nonempty d ≡ true
nonempty_group [] h = h
nonempty_group (g ∷ d) h = refl

nonempty_left :
    {A : Type 0} (xs ys : List A) → is_nonempty xs ≡ true → is_nonempty (xs ++ ys) ≡ true
nonempty_left [] ys h = cc
nonempty_left (x ∷ xs) ys h = refl

module _ (fl : Floats) where
  open fl use {F}

  -- A test of the verdicts of a report.
  abbrev pub any_verdict : (Kind → Bool) → Dict (CategoryVerdict F) → Bool
  any_verdict p = any (λ (_, v). p v.kind)

  -- A scored scanner that reports `malware` says a word that its axis has no use for.
  abbrev misspoken : ScannerResult F → Bool
  misspoken r = r.scored && is_malware r.kind

  misspoken_lem :
      (rs : List (ScannerResult F))
      → (all (λ r. r.scored) rs
          && any (λ r. is_malware r.kind) rs
          && is_nonempty rs
          && not (any misspoken rs))
        ≡ false
  misspoken_lem [] = refl
  misspoken_lem (r ∷ []) = ground arith
  misspoken_lem (r ∷ r' ∷ rs) = ground (arith, misspoken_lem (r' ∷ rs))

  verdict_of-malware :
      (rs : List (ScannerResult F))
      → any misspoken rs ≡ false
      → is_malware (verdict_of fl rs).kind ≡ any (λ r. is_malware r.kind) rs
  verdict_of-malware rs h = ground (arith, verdict_of_kind fl rs, misspoken_lem rs)

  verdicts_of-malware :
      (d : Dict (List (ScannerResult F)))
      → any_group misspoken d ≡ false
      → any_verdict is_malware (verdicts_of fl d) ≡ any_group (λ r. is_malware r.kind) d
  unfolding verdicts_of
  verdicts_of-malware [] h = refl
  verdicts_of-malware ((c, g) ∷ d) h = ground (arith, verdicts_of-malware d, verdict_of-malware g)

  -- Where no scored scanner says malware, the report says malware exactly when some category's
  -- verdict is malware.
  pub report_malware-verdicts :
      (rs : List (ScannerResult F))
      → any misspoken rs ≡ false
      → report_malware rs ≡ any_verdict is_malware (verdicts fl rs)
  unfolding report_malware verdicts by_category
  report_malware-verdicts rs h = ground (
    arith,
    verdicts_of-malware (group_from [] rs),
    any-group_from misspoken [] rs,
    any-group_from (λ r. is_malware r.kind) [] rs,
  )

  any_of_all :
      (p : ScannerResult F → Bool) (rs : List (ScannerResult F))
      → is_nonempty rs ≡ true
      → all p rs ≡ true
      → any p rs ≡ true
  any_of_all p [] h k = cc
  any_of_all p (r ∷ rs) h k = ground arith

  nonempty-deciding :
      (g : List (ScannerResult F)) → is_nonempty g ≡ true → is_nonempty (deciding g) ≡ true
  unfolding deciding
  nonempty-deciding g h = ground arith

  nonempty-verdicts_of :
      (d : Dict (List (ScannerResult F)))
      → is_nonempty (all_deciding d) ≡ true
      → is_nonempty (verdicts_of fl d) ≡ true
  unfolding all_deciding verdicts_of
  nonempty-verdicts_of [] h = h
  nonempty-verdicts_of ((c, g) ∷ d) h = refl

  -- All results of a group that decide have failed, none has detected anything.
  verdict_of-error :
      (g : List (ScannerResult F))
      → is_nonempty g ≡ true
      → any (λ r. is_detection r.kind) g ≡ false
      → all (λ r. is_error r.kind) (deciding g) ≡ true
      → (verdict_of fl g).kind ≡ error
  verdict_of-error g h no_hit failed = ground (
    arith,
    verdict_of_kind fl g,
    any-detection g,
    any_of_all (λ r. is_error r.kind) (deciding g) (nonempty-deciding g h),
  )

  verdicts_of-error :
      (d : Dict (List (ScannerResult F)))
      → AreNonempty d
      → any_group (λ r. is_detection r.kind) d ≡ false
      → all (λ r. is_error r.kind) (all_deciding d) ≡ true
      → All (λ (_, v). v.kind ≡ error) (verdicts_of fl d)
  unfolding verdicts_of all_deciding
  verdicts_of-error [] h no_hit failed = tt
  verdicts_of-error ((c, g) ∷ d) (here, later) no_hit failed = (
    verdict_of-error g here (ground arith)
        (ground (arith, all-append (λ r. is_error r.kind) (deciding g) (all_deciding d))),
    verdicts_of-error d later (ground arith)
        (ground (arith, all-append (λ r. is_error r.kind) (deciding g) (all_deciding d))),
  )

  -- A report that is retried, or answered by 503, has an `error` for the verdict of every category,
  -- and at least one category: nothing that is dropped says anything about the file.
  pub all_errored-verdicts :
      (rs : List (ScannerResult F))
      → all_errored rs ≡ true
      → All (λ (_, v). v.kind ≡ error) (verdicts fl rs) × (is_nonempty (verdicts fl rs) ≡ true)
  unfolding all_errored verdicts by_category report_detected
  all_errored-verdicts rs h = (
    verdicts_of-error (group_from [] rs) (group_from-AreNonempty [] rs tt)
        (ground (arith, any-group_from (λ r. is_detection r.kind) [] rs)) (ground arith),
    nonempty-verdicts_of (group_from [] rs) (ground arith),
  )

  any-deciding_le :
      (p : ScannerResult F → Bool) (g : List (ScannerResult F))
      → any p g ≡ false
      → any p (deciding g) ≡ false
  unfolding deciding
  any-deciding_le p g h = ground (arith, h, any-filter p (λ r. not r.advisory) g, any_and p g)

  any-all_deciding :
      (p : ScannerResult F → Bool) (d : Dict (List (ScannerResult F)))
      → any_group p d ≡ false
      → any p (all_deciding d) ≡ false
  unfolding all_deciding
  any-all_deciding p [] h = refl
  any-all_deciding p ((c, g) ∷ d) h =
      any-append p (deciding g) (all_deciding d)
      ∙ ground (arith, h, any-deciding_le p g, any-all_deciding p d)

  nonempty-all_deciding :
      (d : Dict (List (ScannerResult F)))
      → AreNonempty d
      → is_nonempty d ≡ true
      → is_nonempty (all_deciding d) ≡ true
  unfolding all_deciding
  nonempty-all_deciding [] each h = cc
  nonempty-all_deciding ((c, g) ∷ d) (here, later) h =
      nonempty_left (deciding g) (all_deciding d) (nonempty-deciding g here)

  -- A report that is not dropped has a result that is not an error.
  pub all_errored-informative :
      (rs : List (ScannerResult F))
      → is_nonempty rs ≡ true
      → all_errored rs ≡ false
      → any (λ r. not (is_error r.kind)) rs ≡ true
  unfolding all_errored by_category report_detected
  all_errored-informative rs some_result h =
      elim (Bool-cases (any (λ r. not (is_error r.kind)) rs)) [
        | inl informs ↦ informs
        | inr none ↦
            let grouped = group_from [] rs in
            let no_other : any (λ r. not (is_error r.kind)) (all_deciding grouped) ≡ false =
              any-all_deciding (λ r. not (is_error r.kind)) grouped
                (any-group_from (λ r. not (is_error r.kind)) [] rs ∙ ground (arith, none)) in
            let filled : is_nonempty grouped ≡ true =
              nonempty_group grouped
                (any-group_from (λ r. true) [] rs ∙ ground (arith, nonempty_any rs some_result)) in
            absurd (
              ground (
                arith,
                h,
                no_detection rs none,
                all_errors (all_deciding grouped) no_other,
                nonempty-all_deciding grouped (group_from-AreNonempty [] rs tt) filled,
              ))
      ]
