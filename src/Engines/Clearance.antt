-- ===== src/Engines/Clearance.antt =====
-- src/scanners under src/scanner.py: the backends as the registry builds them, and what a clean
-- result stands on.
use mathlib.Core.Path.{subst}
use file_scanner.Base.{
  String, ◌≡◌, ◌⊎◌, inl, inr, refl, sym, ap, ◌∙◌, Bool, true, false, Option, some, List, ◌∷◌, All,
  if◌then◌else◌, Result, ok, err, ◌>>=◌, >>=-eq-ok, [], arith, eq_iff, Bool-cases,
}
use file_scanner.Base.Dict.{Dict, get}
use file_scanner.Base.Text.{is_text}
use file_scanner.Base.Value.{Value, str, bool}
use file_scanner.Encryption.{Bytes}
use file_scanner.Scanner.{Kind, clean, ScannerResult}
use file_scanner.Scanner.Registry.{Engine, Backends, builders, Registered}
use file_scanner.Scanner.Run.{run_scanners}
use file_scanner.Scanner.Registry.{Loaded}
use file_scanner.Scanner.Registry.Cache.{Coherent}
use file_scanner.Scanner.Registry.Resolve.{resolve_scanners}
use file_scanner.Scanner.Run.Order.{IsAnswer, run_scanners-resolved}
use file_scanner.Engines.{Rendering}
use file_scanner.Engines.Clamav.{
  Endpoint, Pools, Instream, replied, clamav_client, instream_of, clamav_engine,
}
use file_scanner.Engines.Exav.{exav_built, Exinstream, line, Json, dict, exinstream_of, exav_engine}
use file_scanner.Engines.Clamav.{pool_member}
use file_scanner.Engines.Clean.{
  or_crashed, kind_of, clamav_scan-clean, exav_scan-clean, jcop_scan-clean,
}
use file_scanner.Engines.Jcop.{Service, JcopSettings, jcop_init, jcop_scan}
use file_scanner.Engines.Responses.{IsFinished}
use file_scanner.Engines.Analysis.{analyse-IsFinished}

module _ {F W : Type 0} (r : Rendering F) (service : Service F W) (start : Bytes → W) where
  -- JcopScanner, over a service in the state it has when a scan starts
  abbrev jcop_built : JcopSettings → Engine F
  jcop_built s = record {
    category = "malware";
    scored = false;
    scan = λ content. or_crashed (jcop_scan r service s content (start content)).0;
  }

  unfoldable pub jcop_engine : JcopSettings → Result String (Engine F)
  unfolding jcop_init jcop_scan
  jcop_engine settings = jcop_init settings >>= λ s. ok (jcop_built s)

abbrev is_clean : Kind → Bool
is_clean clean = true
is_clean _ = false

is_clean_lem : (k : Kind) → is_clean k ≡ true → k ≡ clean
is_clean_lem clean h = refl
is_clean_lem k h = absurd (ground (arith, h))

All-map :
    {A : Type 0} {P Q : A → Type 0} → ((a : A) → P a → Q a) → (xs : List A) → All P xs → All Q xs
All-map f [] tt = tt
All-map f (x ∷ xs) (h, hs) = (f x h, All-map f xs hs)

ok_inj : {X A : Type 0} {a b : A} → ◌≡◌ {A = Result X A} (ok a) (ok b) → a ≡ b
ok_inj h = cc h

if_ok :
    {A : Type 0} (t : Bool) (a e : A) (why : String) → (if t then ok a else err why) ≡ ok e → a ≡ e
if_ok true a e why h = ok_inj h
if_ok false a e why h = cc

found-cases :
    {A : Type 0} (name : String) (a b c x : A)
    → get name (("clamav", a) ∷ ("exav", b) ∷ ("jcop", c) ∷ []) ≡ some x
    → (name ≡ "clamav") × (a ≡ x) ⊎ (name ≡ "exav") × (b ≡ x) ⊎ (name ≡ "jcop") × (c ≡ x)
unfolding get
found-cases name a b c x h =
    ground (arith, h, eq_iff "clamav" name, eq_iff "exav" name, eq_iff "jcop" name)

module _ {F W : Type 0} (r : Rendering F) (pools : Pools) (instream : Endpoint → Bytes → Instream)
    (loads : String → Json F) (daemons : Endpoint → Bytes → Exinstream) (service : Service F W)
    (start : Bytes → W) (settings : JcopSettings) where
  -- What `_build_clamav`, `_build_exav` and `_build_jcop` give.
  abbrev pub built : Backends F
  built = record {
    clamav = ok (clamav_engine pools instream);
    exav = exav_engine r pools loads daemons;
    jcop = jcop_engine r service start settings;
  }

  -- An engine of that name said that this file is clean: clamd replied OK, exav replied a dict of
  -- the status OK, or JCOP replied a 200 to a GET under a key of this file, with a dict in which the
  -- analysis is done and `is_malware` is false.
  abbrev Cleared : String → Bytes → Type 0
  Cleared name content =
      (name ≡ "clamav")
        × ((reason : Option String) × (instream_of instream (clamav_client pools) content
              ≡ replied "OK" reason))
      ⊎ (name ≡ "exav")
        × ((raw : String) × (d : Dict (Value F)) × (exinstream_of r daemons
                (pool_member pools pools.exav_hosts) content
              ≡ line raw)
            × (loads raw ≡ dict d)
            × (get "status" d ≡ some (str "OK")))
      ⊎ (name ≡ "jcop")
        × ((s : JcopSettings) × (d : Dict (Value F)) × (jcop_init settings ≡ ok s)
            × IsFinished r service content d
            × (get "is_malware" d ≡ some (bool false)))

  builders-cases :
      (name : String) (e : Engine F)
      → get name (builders built) ≡ some (ok e)
      → (name ≡ "clamav")
          × (◌≡◌ {A = Result String (Engine F)} (ok (clamav_engine pools instream)) (ok e))
        ⊎ (name ≡ "exav") × (exav_engine r pools loads daemons ≡ ok e)
        ⊎ (name ≡ "jcop") × (jcop_engine r service start settings ≡ ok e)
  builders-cases name e h = found-cases name _ _ _ (ok e) h

  answers-clamav :
      (e : Engine F) (content : Bytes)
      → clamav_engine pools instream ≡ e
      → kind_of (e.scan content) ≡ clean
      → (reason : Option String) × (instream_of instream (clamav_client pools) content
          ≡ replied "OK" reason)
  unfolding clamav_engine
  answers-clamav e content h k =
      clamav_scan-clean F (instream_of instream (clamav_client pools) content)
        (subst (λ x. kind_of (x.scan content) ≡ clean) (sym h) k)

  answers-exav :
      (e : Engine F) (content : Bytes)
      → exav_engine r pools loads daemons ≡ ok e
      → kind_of (e.scan content) ≡ clean
      → (raw : String) × (d : Dict (Value F)) × (exinstream_of r daemons
            (pool_member pools pools.exav_hosts)
            content
          ≡ line raw)
        × (loads raw ≡ dict d)
        × (get "status" d ≡ some (str "OK"))
  unfolding exav_engine
  answers-exav e content h k =
      let built_ = if_ok (is_text pools.exav_hosts) (exav_built r pools loads daemons) e _ h in
      exav_scan-clean r loads (exinstream_of r daemons (pool_member pools pools.exav_hosts) content)
        (subst (λ x. kind_of (x.scan content) ≡ clean) (sym built_) k)

  answers-jcop :
      (e : Engine F) (content : Bytes)
      → jcop_engine r service start settings ≡ ok e
      → kind_of (e.scan content) ≡ clean
      → (s : JcopSettings) × (d : Dict (Value F)) × (jcop_init settings ≡ ok s)
        × IsFinished r service content d
        × (get "is_malware" d ≡ some (bool false))
  unfolding jcop_engine
  answers-jcop e content h k =
      let (s, init, built_) =
        >>=-eq-ok (jcop_init settings) (λ s. ok (jcop_built r service start s)) h in
      let (d, ended, says) =
        jcop_scan-clean r service s content (start content)
          (subst (λ x. kind_of (x.scan content) ≡ clean) (sym (ok_inj built_)) k) in
      (s, d, init, analyse-IsFinished r service s content (start content) d ended, says)

  IsAnswer-Cleared :
      (s : Registered) (clock : String → F) (content : Bytes) (result : ScannerResult F)
      → IsAnswer built s clock (ok content) result
      → result.kind ≡ clean
      → Cleared result.scanner content
  unfolding IsAnswer
  IsAnswer-Cleared s clock content result (e, known, is) cleared =
      let says : kind_of (e.scan content) ≡ clean = sym (ap (λ x. x.kind) is) ∙ cleared in
      elim (builders-cases result.scanner e known) [
        | inl (name, h) ↦ inl (name, answers-clamav e content (ok_inj h) says)
        | inr (inl (name, h)) ↦ inr (inl (name, answers-exav e content h says))
        | inr (inr (name, h)) ↦ inr (inr (name, answers-jcop e content h says))
      ]

  -- The result is not a clean one, or an engine said so.
  abbrev pub Warranted : Bytes → ScannerResult F → Type 0
  Warranted content result = (is_clean result.kind ≡ false) ⊎ Cleared result.scanner content

  IsAnswer-Warranted :
      (s : Registered) (clock : String → F) (content : Bytes) (result : ScannerResult F)
      → IsAnswer built s clock (ok content) result
      → Warranted content result
  IsAnswer-Warranted s clock content result answers = elim (Bool-cases (is_clean result.kind)) [
    | inl cleared ↦
        inr (IsAnswer-Cleared s clock content result answers (is_clean_lem result.kind cleared))
    | inr other ↦ inl other
  ]

  -- With caches that hold what the builders give, on an accepted selection, the scan of a file returns a report in which every clean result is
  -- warranted: clamd replied OK to the file, exav replied a dict of the status OK, or JCOP replied a
  -- 200 to a GET under the hash of the file, or under the id that it gave for the file, with a dict in
  -- which `done` holds and `is_malware` is false. Whatever else an engine or its client does, the
  -- result is not clean.
  pub run_scanners-Warranted :
      (s : Registered) (clock : String → F) (content : Bytes) (names_of : String → Loaded)
      (categories scanners names : List String) (cache later : Dict (Engine F))
      → Coherent built cache
      → Coherent built later
      → (resolve_scanners built names_of s categories scanners cache).0 ≡ ok names
      → (rs : List (ScannerResult F)) × ((run_scanners built s clock (ok content) names later).0
          ≡ ok rs)
        × All (Warranted content) rs
  run_scanners-Warranted s clock content names_of categories scanners names cache later co co' h =
      let (rs, ran, _, _, answers) =
        run_scanners-resolved built s clock (ok content) names_of categories scanners names cache
          later co co' h in
      (rs, ran, All-map (IsAnswer-Warranted s clock content) rs answers)
