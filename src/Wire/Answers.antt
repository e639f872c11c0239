-- ===== src/Wire/Answers.antt =====
-- src/wire.py over src/scanner.py: what a v1 caller reads of a report.
use file_scanner.Base.{
  String, ◌≡◌, refl, true, false, ◌&&◌, Option, none, some, List, [], ◌∷◌, arith, ◌==◌, eq_iff, all,
  any, ap, ◌∙◌,
}
use file_scanner.Base.Dict.{Dict, get, NodupKeys}
use file_scanner.Base.Value.{Value, null, bool, float, obj, entries, fields, Floats}
use file_scanner.Scanner.{
  Kind, clean, malware, flagged, partial, error, ScannerResult, CategoryVerdict,
}
use file_scanner.Scanner.Report.{
  file_under, group_from, by_category, verdicts_of, verdicts, verdict_of, verdict_dict,
  verdict_dicts, report_dict,
}
use file_scanner.Scanner.Report.Precedence.{worst, verdict_of-worst, any_malware}
use file_scanner.Scanner.Report.Grouping.{
  of_category, get-verdicts, get-file_under, get-verdicts_of,
}
use file_scanner.Wire.{scalar, to_v1}
use file_scanner.Wire.Axes.{get-to_v1_axis}

module _ {F : Type 0} where
  file_under-NodupKeys :
      (c : String) (r : ScannerResult F) (d : Dict (List (ScannerResult F)))
      → NodupKeys d
      → NodupKeys (file_under c r d)
  unfolding file_under get
  file_under-NodupKeys c r [] u = (refl, tt)
  file_under-NodupKeys c r ((k, g) ∷ d) (fresh, u) =
      ground (arith, file_under-NodupKeys c r d u, get-file_under k c r d, eq_iff k c, eq_iff c k)

  group_from-NodupKeys :
      (d : Dict (List (ScannerResult F))) (rs : List (ScannerResult F))
      → NodupKeys d
      → NodupKeys (group_from d rs)
  unfolding group_from
  group_from-NodupKeys d [] u = u
  group_from-NodupKeys d (r ∷ rs) u =
      group_from-NodupKeys (file_under r.category r d) rs (file_under-NodupKeys r.category r d u)

  pub entries-fields : (d : Dict (Value F)) → entries (fields d) ≡ d
  entries-fields [] = refl
  entries-fields ((k, v) ∷ d) = ap (λ e. (k, v) ∷ e) (entries-fields d)

module _ (fl : Floats) where
  open fl use {F, round4}

  -- The table of the module's comment.
  abbrev pub v1_scalar : CategoryVerdict F → Value F
  v1_scalar v = elim v.kind [
    | clean ↦ elim v.score [ none ↦ bool false | some s ↦ float (round4 s) ]
    | malware ↦ bool true
    | flagged ↦ elim v.score [ none ↦ bool true | some s ↦ float (round4 s) ]
    | partial ↦ null
    | error ↦ null
  ]

  scalar_by_field :
      (k : Kind) (score : Option F) (reason location : Option String)
      → let v : CategoryVerdict F = record {
        kind = k;
        reason = reason;
        score = score;
        location = location;
      } in
        scalar (verdict_dict fl v) ≡ v1_scalar v
  unfolding scalar verdict_dict get
  scalar_by_field clean none none none = refl
  scalar_by_field clean none (some r) none = refl
  scalar_by_field flagged none none none = refl
  scalar_by_field flagged none (some r) none = refl
  scalar_by_field _ _ _ _ = refl

  scalar-verdict_dict : (v : CategoryVerdict F) → scalar (verdict_dict fl v) ≡ v1_scalar v
  scalar-verdict_dict v = scalar_by_field v.kind v.score v.reason v.location

  pub get-verdict_dicts :
      (c : String) (d : Dict (CategoryVerdict F))
      → get c (verdict_dicts fl d)
        ≡ elim (get c d) [ none ↦ none | some v ↦ some (obj (fields (verdict_dict fl v))) ]
  unfolding get
  get-verdict_dicts c [] = refl
  get-verdict_dicts c ((k, v) ∷ d) = ground (arith, get-verdict_dicts c d)

  verdict_dicts-NodupKeys :
      (d : Dict (List (ScannerResult F)))
      → NodupKeys d
      → NodupKeys (verdict_dicts fl (verdicts_of fl d))
  unfolding verdicts_of
  verdict_dicts-NodupKeys [] u = tt
  verdict_dicts-NodupKeys ((k, g) ∷ d) (fresh, u) = (
    ground (arith, get-verdict_dicts k (verdicts_of fl d), get-verdicts_of fl k d),
    verdict_dicts-NodupKeys d u,
  )

  report-NodupKeys : (rs : List (ScannerResult F)) → NodupKeys (verdict_dicts fl (verdicts fl rs))
  unfolding verdicts by_category
  report-NodupKeys rs = verdict_dicts-NodupKeys (group_from [] rs) (group_from-NodupKeys [] rs tt)

  -- A v1 caller reads, for each category of a report, the scalar of the table for its verdict.
  pub to_v1-report :
      (rs : List (ScannerResult F)) (c : String) (v : CategoryVerdict F)
      → get c (verdicts fl rs) ≡ some v
      → get c (to_v1 fl (report_dict fl rs)) ≡ some (v1_scalar v)
  unfolding report_dict get
  to_v1-report rs c v at =
      let axes = verdict_dicts fl (verdicts fl rs) in
      get-to_v1_axis fl (report_dict fl rs) (fields axes) (fields (verdict_dict fl v)) c refl
        (rw entries-fields (report-NodupKeys rs)) (rw (entries-fields, get-verdict_dicts, at))
      ∙ ap some (rw entries-fields (scalar-verdict_dict v))

  -- A v1 caller that reads `False` for a category that a scanner ran on has a file that every
  -- scanner that counts for the category found clean. It holds of a discrete axis, and of a scored
  -- one on which no scanner reported malware.
  pub v1_false-worst :
      (rs : List (ScannerResult F)) (c : String)
      → (all (λ r. r.scored) (of_category c rs) && any_malware (of_category c rs)) ≡ false
      → any (λ r. r.category == c) rs ≡ true
      → get c (to_v1 fl (report_dict fl rs)) ≡ some (bool false)
      → worst (of_category c rs) ≡ 0
  v1_false-worst rs c spoken ran read = ground (
    arith,
    get-verdicts fl rs c,
    to_v1-report rs c (verdict_of fl (of_category c rs)),
    verdict_of-worst fl (of_category c rs),
  )
