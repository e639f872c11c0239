-- ===== src/Scanner.antt =====
-- src/scanner.py: the verdict of one scanner, its result in a report, and the verdict of a category.
pub mod Registry
pub mod Report
pub mod Run
use Prim.Native.String.{String}
use file_scanner.Base.{Bool, true, false, ◌||◌, Option, none, some}

-- The five words of a result. A scanner's own verdict uses the first four.
pub data Kind : Type 0 where
  clean malware flagged partial error : Kind

-- `kind == "…"`, a test for each word that the code compares with.
abbrev pub is_malware : Kind → Bool
is_malware malware = true
is_malware _ = false

abbrev pub is_flagged : Kind → Bool
is_flagged flagged = true
is_flagged _ = false

abbrev pub is_error : Kind → Bool
is_error error = true
is_error _ = false

abbrev pub is_partial : Kind → Bool
is_partial partial = true
is_partial _ = false

-- The word of a kind, as it stands in a response.
abbrev pub word : Kind → String
word clean = "clean"
word malware = "malware"
word flagged = "flagged"
word partial = "partial"
word error = "error"

-- `kind in ("malware", "flagged")`
abbrev pub is_detection : Kind → Bool
is_detection k = is_malware k || is_flagged k

module _ (F : Type 0) where
  pub record Verdict : Type 0 where
    pub kind : Kind
    pub reason : Option String
    pub score : Option F
    pub location : Option String

  pub record ScannerResult : Type 0 where
    pub scanner : String
    pub category : String
    pub kind : Kind
    pub reason : Option String
    pub score : Option F
    pub location : Option String
    pub time : F
    pub scored : Bool
    pub advisory : Bool

  pub record CategoryVerdict : Type 0 where
    pub kind : Kind
    pub reason : Option String
    pub score : Option F
    pub location : Option String

module _ {F : Type 0} where
  -- The helpers that the backends build their verdicts by.
  unfoldable pub clean_verdict : Verdict F
  clean_verdict = record { kind = clean; reason = none; score = none; location = none }

  unfoldable pub malware_verdict : Option String → Verdict F
  malware_verdict signature = record {
    kind = malware;
    reason = signature;
    score = none;
    location = none;
  }

  unfoldable pub partial_verdict : String → Verdict F
  partial_verdict tag = record { kind = partial; reason = some tag; score = none; location = none }

  -- ScannerResult.incomplete
  abbrev pub incomplete : ScannerResult F → Bool
  incomplete r = is_error r.kind || is_partial r.kind
