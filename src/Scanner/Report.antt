-- ===== src/Scanner/Report.antt =====
-- src/scanner.py, `ScanReport`: the verdict of each category from the results of its scanners.
pub mod Precedence
pub mod Grouping
pub mod Summary
use file_scanner.Base.{
  ℕ, String, Bool, true, false, not, ◌&&◌, ◌||◌, Option, none, some, List, [], ◌∷◌, ◌++◌, map, any,
  all, filter, find?, head?, or_list, is_nonempty, if◌then◌else◌, ◌==◌, is_some,
}
use file_scanner.Base.Dict.{Dict, get}
use file_scanner.Base.Value.{
  Value, Floats, null, bool, float, str, arr, obj, entries, fields, items,
}
use file_scanner.Scanner.{
  Kind, clean, malware, flagged, partial, error, is_malware, is_flagged, is_error, is_detection,
  word, ScannerResult, CategoryVerdict, incomplete,
}

module _ {F : Type 0} where
  -- ScanReport.malware, over the field `results`
  unfoldable pub report_malware : List (ScannerResult F) → Bool
  report_malware rs = any (λ r. is_malware r.kind) rs

  -- ScanReport.detected
  unfoldable pub report_detected : List (ScannerResult F) → Bool
  report_detected rs = any (λ r. is_detection r.kind) rs

  -- `grouped.setdefault(result.category, []).append(result)`
  unfoldable pub file_under :
      String → ScannerResult F → Dict (List (ScannerResult F)) → Dict (List (ScannerResult F))
  file_under c r [] = (c, r ∷ []) ∷ []
  file_under c r ((k, g) ∷ d) =
      let rest = file_under c r d in if k == c then (k, g ++ r ∷ []) ∷ d else (k, g) ∷ rest

  unfoldable pub group_from :
      Dict (List (ScannerResult F)) → List (ScannerResult F) → Dict (List (ScannerResult F))
  group_from grouped [] = grouped
  group_from grouped (r ∷ rs) = group_from (file_under r.category r grouped) rs

  -- ScanReport._by_category
  unfoldable pub by_category : List (ScannerResult F) → Dict (List (ScannerResult F))
  unfolding group_from
  by_category rs = group_from [] rs

  -- ScanReport._deciding
  unfoldable pub deciding : List (ScannerResult F) → List (ScannerResult F)
  deciding rs = or_list (filter (λ r. not r.advisory) rs) rs

  -- The deciding results of every category, one after the other.
  unfoldable pub all_deciding : Dict (List (ScannerResult F)) → List (ScannerResult F)
  all_deciding [] = []
  all_deciding ((_, g) ∷ d) = deciding g ++ all_deciding d

  -- ScanReport.all_errored
  unfoldable pub all_errored : List (ScannerResult F) → Bool
  all_errored rs =
      if report_detected rs
      then false
      else is_nonempty (all_deciding (by_category rs))
        && all (λ r. is_error r.kind) (all_deciding (by_category rs))

  -- `next((r for r in unfinished if r.kind == "error"), unfinished[0] if unfinished else None)`
  abbrev blocker_of : List (ScannerResult F) → Option (ScannerResult F)
  blocker_of unfinished = elim (find? (λ r. is_error r.kind) unfinished) [
    | some r ↦ some r
    | none ↦ head? unfinished
  ]

  unfoldable pub blocker : List (ScannerResult F) → Option (ScannerResult F)
  unfolding deciding
  blocker rs = blocker_of (filter incomplete (deciding rs))

  abbrev plain : Kind → Option String → CategoryVerdict F
  plain k reason = record { kind = k; reason = reason; score = none; location = none }

  -- The scores that are not None.
  abbrev scores : List (ScannerResult F) → List F
  scores [] = []
  scores (r ∷ rs) = elim r.score [ none ↦ scores rs | some s ↦ s ∷ scores rs ]

  -- The discrete branch: the detection to report, a malware before a flag.
  unfoldable pub top_detection : List (ScannerResult F) → Option (ScannerResult F)
  top_detection rs = elim (find? (λ r. is_malware r.kind) (filter (λ r. is_detection r.kind) rs)) [
    | some r ↦ some r
    | none ↦ head? (filter (λ r. is_detection r.kind) rs)
  ]

  -- `elif blocker: … else: CategoryVerdict("clean")`
  unfoldable pub unread_verdict : Option (ScannerResult F) → CategoryVerdict F
  unread_verdict (some b) = plain b.kind b.reason
  unread_verdict none = plain clean none

  unfoldable pub discrete_verdict : List (ScannerResult F) → CategoryVerdict F
  discrete_verdict rs = elim (top_detection rs) [
    | some top ↦ record {
      kind = top.kind;
      reason = top.reason;
      score = none;
      location = top.location;
    }
    | none ↦ unread_verdict (blocker rs)
  ]

module _ (fl : Floats) where
  open fl use {F, gt, truthy, zero_f, round4}

  -- max(…): the first of the greatest.
  abbrev max_from : F → List F → F
  max_from best [] = best
  max_from best (s ∷ ss) = max_from (if gt s best then s else best) ss

  -- `max(scores, default=d)`
  abbrev max_score : Option F → List F → Option F
  max_score d [] = d
  max_score d (s ∷ ss) = some (max_from s ss)

  -- `r.score or 0.0`
  abbrev key_of : ScannerResult F → F
  key_of r = elim r.score [ none ↦ zero_f | some s ↦ if truthy s then s else zero_f ]

  -- `max(hits, key=…)`
  abbrev max_hit : ScannerResult F → List (ScannerResult F) → ScannerResult F
  max_hit best [] = best
  max_hit best (r ∷ rs) = max_hit (if gt (key_of r) (key_of best) then r else best) rs

  -- The scored branch.
  pub scored_verdict : List (ScannerResult F) → CategoryVerdict F
  scored_verdict rs = elim (filter (λ r. is_flagged r.kind) rs) [
    | h ∷ hits ↦
        let top = max_hit h hits in
        record {
          kind = flagged;
          reason = top.reason;
          score = max_score top.score (scores rs);
          location = none;
        }
    | [] ↦ elim (blocker rs) [
      | some b ↦ plain b.kind b.reason
      | none ↦ record {
        kind = clean;
        reason = none;
        score = max_score none (scores rs);
        location = none;
      }
    ]
  ]

  -- The body of the loop of `ScanReport.verdicts`.
  unfoldable pub verdict_of : List (ScannerResult F) → CategoryVerdict F
  verdict_of rs =
      if is_nonempty rs && all (λ r. r.scored) rs then scored_verdict rs else discrete_verdict rs

  unfoldable pub verdicts_of : Dict (List (ScannerResult F)) → Dict (CategoryVerdict F)
  verdicts_of [] = []
  verdicts_of ((c, g) ∷ d) = (c, verdict_of g) ∷ verdicts_of d

  -- ScanReport.verdicts
  unfoldable pub verdicts : List (ScannerResult F) → Dict (CategoryVerdict F)
  unfolding verdicts_of
  verdicts rs = verdicts_of (by_category rs)

  abbrev opt_str : String → Option String → Dict (Value F) → Dict (Value F)
  opt_str k none d = d
  opt_str k (some s) d = (k, str s) ∷ d

  abbrev opt_score : Option F → Dict (Value F) → Dict (Value F)
  opt_score none d = d
  opt_score (some s) d = ("score", float (round4 s)) ∷ d

  -- CategoryVerdict.as_dict
  unfoldable pub verdict_dict : CategoryVerdict F → Dict (Value F)
  verdict_dict v =
      ("kind", str (word v.kind))
      ∷ opt_score v.score (opt_str "reason" v.reason (opt_str "location" v.location []))

  -- ScannerResult.as_dict
  unfoldable pub result_dict : ScannerResult F → Dict (Value F)
  result_dict r =
      let rest = opt_score r.score (opt_str "reason" r.reason (opt_str "location" r.location [])) in
      ("scanner", str r.scanner)
      ∷ ("category", str r.category)
      ∷ ("kind", str (word r.kind))
      ∷ ("time", float (round4 r.time))
      ∷ (if r.advisory then ("advisory", bool true) ∷ rest else rest)

  abbrev pub verdict_dicts : Dict (CategoryVerdict F) → Dict (Value F)
  verdict_dicts [] = []
  verdict_dicts ((c, v) ∷ d) = (c, obj (fields (verdict_dict v))) ∷ verdict_dicts d

  -- ScanReport.as_dict
  unfoldable pub report_dict : List (ScannerResult F) → Dict (Value F)
  report_dict rs =
      ("verdicts", obj (fields (verdict_dicts (verdicts rs))))
      ∷ ("scanners", arr (items (map (λ r. obj (fields (result_dict r))) rs)))
      ∷ []
