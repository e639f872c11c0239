-- ===== src/Tests/Reports.antt =====
-- Reports of three scanners, in both versions.
use Prim.Native.Nat.{ℕ}
use file_scanner.Base.{ℕ, String, ◌≡◌, refl, Bool, true, false, none, some, List, [], ◌∷◌}
use file_scanner.Base.Dict.{get, without, set}
use file_scanner.Base.Value.{Fields, str, bool, field, end}
use file_scanner.Scanner.Report.{
  report_detected, all_deciding, by_category, group_from, file_under, deciding, verdicts_of,
  discrete_verdict, top_detection, verdict_dict, unread_verdict, blocker,
}
use file_scanner.Wire.{downgrade, add_axes, qualify}
use file_scanner.Scanner.{Kind, clean, malware, error, is_malware, ScannerResult, CategoryVerdict}
use file_scanner.Scanner.Report.{report_malware, all_errored, verdict_of, verdicts, report_dict}
use file_scanner.Scanner.Report.Precedence.{severity, worst, verdict_of-worst}
use file_scanner.Scanner.Report.Grouping.{of_category}
use file_scanner.Scanner.Report.Summary.{any_verdict, report_malware-verdicts}
use file_scanner.Wire.{to_v1, scalar}
use file_scanner.Wire.Answers.{to_v1-report, v1_false-worst}
use file_scanner.Tests.{floats}

abbrev answer : String → String → Kind → Bool → ScannerResult ℕ
answer name category k is_advisory = record {
  scanner = name;
  category = category;
  kind = k;
  reason = some "Eicar";
  score = none;
  location = none;
  time = 3;
  scored = false;
  advisory = is_advisory;
}

-- clamav could not read the file, exav found it clean, and jcop, which is advisory, knows it.
abbrev infected : List (ScannerResult ℕ)
infected =
    answer "clamav" "malware" error false
    ∷ answer "exav" "malware" clean false
    ∷ answer "jcop" "malware" malware true
    ∷ []

abbrev sound : List (ScannerResult ℕ)
sound = answer "clamav" "malware" clean false ∷ answer "jcop" "malware" error true ∷ []

abbrev down : List (ScannerResult ℕ)
down = answer "clamav" "malware" error false ∷ answer "jcop" "malware" clean true ∷ []

verdict_of-worst_example : severity (verdict_of floats infected).kind ≡ 4
verdict_of-worst_example = verdict_of-worst floats infected refl

report_malware-verdicts_example : true ≡ any_verdict floats is_malware (verdicts floats infected)
unfolding report_malware
report_malware-verdicts_example = report_malware-verdicts floats infected refl

down_errored : all_errored down ≡ true
unfolding all_errored report_detected all_deciding by_category group_from file_under deciding
down_errored = refl

abbrev found : CategoryVerdict ℕ
found = record { kind = malware; reason = some "Eicar"; score = none; location = none }

infected_verdict : get "malware" (verdicts floats infected) ≡ some found
unfolding get verdicts verdicts_of verdict_of discrete_verdict top_detection by_category group_from
    file_under
infected_verdict = refl

to_v1-report_example : get "malware" (to_v1 floats (report_dict floats infected)) ≡ some (bool true)
to_v1-report_example = to_v1-report floats infected "malware" found infected_verdict

sound_read : get "malware" (to_v1 floats (report_dict floats sound)) ≡ some (bool false)
unfolding to_v1 downgrade get set without report_dict verdict_dict verdicts verdicts_of verdict_of
    discrete_verdict top_detection unread_verdict blocker deciding by_category group_from file_under
    add_axes qualify scalar
sound_read = refl

v1_false-worst_example : worst (of_category "malware" sound) ≡ 0
v1_false-worst_example = v1_false-worst floats sound "malware" refl refl sound_read

abbrev lost : Fields ℕ
lost = field "kind" (str "partial") (field "reason" (str "encrypted") end)
