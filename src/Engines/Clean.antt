-- ===== src/Engines/Clean.antt =====
-- src/scanners: what the answer of an engine is when its scan says clean.

use file_scanner.Base.{
  String, ◌≡◌, inl, inr, refl, ap, true, false, Option, none, some, ok, err, arith, eq_iff,
  Bool-cases, starts_with,
}
use file_scanner.Base.Dict.{Dict, get}
use file_scanner.Base.Value.{is_str_lem, Value, str, bool}
use file_scanner.Encryption.{Bytes}
use file_scanner.Scanner.{Kind, clean, clean_verdict, malware_verdict, partial_verdict}
use file_scanner.Scanner.Registry.{Scanned, crashed}
use file_scanner.Scanner.Run.{from_scan}
use file_scanner.Engines.{Rendering}
use file_scanner.Engines.Clamav.{
  Instream, replied, connection_error, stream_closed, no_reply, clamav_scan, of_reply,
  error_verdict,
}
use file_scanner.Engines.Exav.{
  Exinstream, of_json, line, not_scanned, Json, dict, not_json, no_dict, exav_scan, parse_verdict,
  of_data,
}
use file_scanner.Engines.Jcop.{
  Service, JcopSettings, failed, unforeseen, jcop_scan, jcop_verdict, is_bool, analyse, Ended,
  of_ended,
}

-- What a scan without an end would be. The loop of a scan ends, by `jcop_scan-ends`.
abbrev pub or_crashed : {F : Type 0} → Option (Scanned F) → Scanned F
or_crashed none = crashed "no end"
or_crashed (some scanned) = scanned

abbrev pub kind_of : {F : Type 0} → Scanned F → Kind
kind_of scanned = (from_scan scanned).kind

module _ (F : Type 0) where
  of_reply-clean :
      (status : String) (reason : Option String)
      → kind_of {F = F} (of_reply status reason) ≡ clean
      → status ≡ "OK"
  unfolding error_verdict partial_verdict malware_verdict
  of_reply-clean status reason h = ground (arith, h, eq_iff status "OK")

  pub clamav_scan-clean :
      (i : Instream)
      → kind_of {F = F} (clamav_scan i) ≡ clean
      → (reason : Option String) × (i ≡ replied "OK" reason)
  unfolding clamav_scan
  clamav_scan-clean (replied status reason) h =
      (reason, ap (λ t. replied t reason) (of_reply-clean status reason h))
  clamav_scan-clean (connection_error why) h = absurd (ground (arith, h))
  clamav_scan-clean (stream_closed why) h = absurd (ground (arith, h))
  clamav_scan-clean (Instream.raised why) h = absurd (ground (arith, h))
  clamav_scan-clean no_reply h = absurd (ground (arith, h))

module _ {F : Type 0} (r : Rendering F) where
  of_data-clean :
      (d : Dict (Value F)) → kind_of (of_data r d) ≡ clean → get "status" d ≡ some (str "OK")
  unfolding of_data partial_verdict
  of_data-clean d h = ground (arith, h, is_str_lem (get "status" d) "OK")

  of_json-clean :
      (j : Json F)
      → kind_of (of_json r j) ≡ clean
      → (d : Dict (Value F)) × (j ≡ dict d) × (get "status" d ≡ some (str "OK"))
  of_json-clean not_json h = absurd (ground (arith, h))
  of_json-clean no_dict h = absurd (ground (arith, h))
  of_json-clean (dict d) h = (d, refl, of_data-clean d h)

  pub exav_scan-clean :
      (loads : String → Json F) (i : Exinstream)
      → kind_of (exav_scan r loads i) ≡ clean
      → (raw : String) × (d : Dict (Value F)) × (i ≡ line raw)
        × (loads raw ≡ dict d)
        × (get "status" d ≡ some (str "OK"))
  unfolding exav_scan parse_verdict
  exav_scan-clean loads (not_scanned why) h = absurd (ground (arith, h))
  exav_scan-clean loads (Exinstream.raised why) h = absurd (ground (arith, h))
  exav_scan-clean loads (line raw) h = elim (Bool-cases (starts_with raw "UNKNOWN COMMAND")) [
    | inl old ↦ absurd (ground (arith, h, old))
    | inr new ↦
        let said = of_json-clean (loads raw) (ground (arith, h, new)) in
        (raw, said.0, refl, said.1, said.2)
  ]

  is_malware_lem : (o : Option (Value F)) → is_bool r false o ≡ true → o ≡ some (bool false)
  is_malware_lem none h = absurd (ground (arith, h))
  is_malware_lem (some (bool b)) h = ground (arith, h)
  is_malware_lem (some v) h = absurd (ground (arith, h))

  jcop_verdict-clean :
      (d : Dict (Value F))
      → (jcop_verdict r d).kind ≡ clean
      → get "is_malware" d ≡ some (bool false)
  unfolding jcop_verdict clean_verdict malware_verdict partial_verdict
  jcop_verdict-clean d h = ground (arith, h, is_malware_lem (get "is_malware" d))

  module _ {W : Type 0} (service : Service F W) (settings : JcopSettings) where
    of_ended-clean :
        (ended : Option (Ended r service settings))
        → kind_of (or_crashed (of_ended r ended)) ≡ clean
        → (d : Dict (Value F)) × (ended ≡ some (ok d)) × (get "is_malware" d ≡ some (bool false))
    of_ended-clean none h = absurd (ground (arith, h))
    of_ended-clean (some (err (failed why))) h = absurd (ground (arith, h))
    of_ended-clean (some (err (unforeseen why))) h = absurd (ground (arith, h))
    of_ended-clean (some (ok d)) h = (d, refl, jcop_verdict-clean d h)

    pub jcop_scan-clean :
        (content : Bytes) (w : W)
        → kind_of (or_crashed (jcop_scan r service settings content w).0) ≡ clean
        → (d : Dict (Value F)) × ((analyse r service settings content w).0 ≡ some (ok d))
          × (get "is_malware" d ≡ some (bool false))
    unfolding jcop_scan
    jcop_scan-clean content w h = of_ended-clean (analyse r service settings content w).0 h
