-- ===== src/Scanner/Report/Grouping.antt =====
-- src/scanner.py, `ScanReport._by_category` and the loop of `ScanReport.verdicts`.
use mathlib.Core.List.{append_assoc, append-nil}
use file_scanner.Base.{
  String, ◌≡◌, refl, Bool, true, ◌||◌, Option, none, some, List, [], ◌∷◌, ◌++◌, arith, any, filter,
  is_nonempty, if◌then◌else◌, ◌==◌, eq_iff, any-append, All, nonempty-filter, ap, sym,
}
use file_scanner.Base.Dict.{Dict, get}
use file_scanner.Base.Value.{Floats}
use file_scanner.Scanner.{ScannerResult}
use file_scanner.Scanner.Report.{
  file_under, group_from, by_category, verdict_of, verdicts_of, verdicts,
}

module _ {F : Type 0} where
  -- The results of one category.
  abbrev pub of_category : String → List (ScannerResult F) → List (ScannerResult F)
  of_category c = filter (λ r. r.category == c)

  abbrev joined :
      Option (List (ScannerResult F)) → List (ScannerResult F) → Option (List (ScannerResult F))
  joined none [] = none
  joined none (r ∷ rs) = some (r ∷ rs)
  joined (some g) rs = some (g ++ rs)

  pub get-file_under :
      (c k : String) (r : ScannerResult F) (d : Dict (List (ScannerResult F)))
      → get c (file_under k r d) ≡ (if k == c then joined (get c d) (r ∷ []) else get c d)
  unfolding get file_under
  get-file_under c k r [] = ground arith
  get-file_under c k r ((j, g) ∷ d) =
      ground (arith, get-file_under c k r d, eq_iff j k, eq_iff j c, eq_iff k c)

  joined-joined :
      (o : Option (List (ScannerResult F))) (r : ScannerResult F) (rs : List (ScannerResult F))
      → joined (joined o (r ∷ [])) rs ≡ joined o (r ∷ rs)
  joined-joined none r rs = refl
  joined-joined (some g) r rs = ap some (append_assoc g (r ∷ []) rs)

  joined-nil : (o : Option (List (ScannerResult F))) → joined o [] ≡ o
  joined-nil none = refl
  joined-nil (some g) = ap some (append-nil g)

  get-group_from :
      (c : String) (d : Dict (List (ScannerResult F))) (rs : List (ScannerResult F))
      → get c (group_from d rs) ≡ joined (get c d) (of_category c rs)
  unfolding group_from
  get-group_from c d [] = sym (joined-nil (get c d))
  get-group_from c d (r ∷ rs) = ground (
    arith,
    get-group_from c (file_under r.category r d) rs,
    get-file_under c r.category r d,
    joined-joined (get c d) r (of_category c rs),
  )

  -- Any test of the results can be made group by group.
  abbrev pub any_group : (ScannerResult F → Bool) → Dict (List (ScannerResult F)) → Bool
  any_group p = any (λ (_, g). any p g)

  any-file_under :
      (p : ScannerResult F → Bool) (c : String) (r : ScannerResult F)
      (d : Dict (List (ScannerResult F)))
      → any_group p (file_under c r d) ≡ (any_group p d || p r)
  unfolding file_under
  any-file_under p c r [] = ground arith
  any-file_under p c r ((k, g) ∷ d) =
      ground (arith, any-file_under p c r d, any-append p g (r ∷ []))

  pub any-group_from :
      (p : ScannerResult F → Bool) (d : Dict (List (ScannerResult F))) (rs : List (ScannerResult F))
      → any_group p (group_from d rs) ≡ (any_group p d || any p rs)
  unfolding group_from
  any-group_from p d [] = ground arith
  any-group_from p d (r ∷ rs) =
      ground
        (arith, any-group_from p (file_under r.category r d) rs, any-file_under p r.category r d)

  abbrev pub AreNonempty : Dict (List (ScannerResult F)) → Type 0
  AreNonempty = All (λ (_, g). is_nonempty g ≡ true)

  nonempty-append :
      (g : List (ScannerResult F)) (r : ScannerResult F) → is_nonempty (g ++ r ∷ []) ≡ true
  nonempty-append [] r = refl
  nonempty-append (x ∷ g) r = refl

  file_under-AreNonempty :
      (c : String) (r : ScannerResult F) (d : Dict (List (ScannerResult F)))
      → AreNonempty d
      → AreNonempty (file_under c r d)
  unfolding file_under
  file_under-AreNonempty c r [] h = (refl, tt)
  file_under-AreNonempty c r ((k, g) ∷ d) h =
      ground (arith, file_under-AreNonempty c r d h.1, nonempty-append g r)

  pub group_from-AreNonempty :
      (d : Dict (List (ScannerResult F))) (rs : List (ScannerResult F))
      → AreNonempty d
      → AreNonempty (group_from d rs)
  unfolding group_from
  group_from-AreNonempty d [] h = h
  group_from-AreNonempty d (r ∷ rs) h =
      group_from-AreNonempty (file_under r.category r d) rs
        (file_under-AreNonempty r.category r d h)

module _ (fl : Floats) where
  open fl use {F}

  pub get-verdicts_of :
      (c : String) (d : Dict (List (ScannerResult F)))
      → get c (verdicts_of fl d) ≡ elim (get c d) [ none ↦ none | some g ↦ some (verdict_of fl g) ]
  unfolding get verdicts_of
  get-verdicts_of c [] = refl
  get-verdicts_of c ((k, g) ∷ d) = ground (arith, get-verdicts_of c d)

  -- A report has a verdict for exactly the categories of its results, and a category's verdict is
  -- the one that its own results, in their order, give alone.
  pub get-verdicts :
      (rs : List (ScannerResult F)) (c : String)
      → get c (verdicts fl rs)
        ≡ (if any (λ r. r.category == c) rs then some (verdict_of fl (of_category c rs)) else none)
  unfolding verdicts by_category get
  get-verdicts rs c = ground (
    arith,
    get-verdicts_of c (group_from [] rs),
    get-group_from c [] rs,
    nonempty-filter (λ r. r.category == c) rs,
  )
