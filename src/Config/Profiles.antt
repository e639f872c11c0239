-- ===== src/Config/Profiles.antt =====
-- src/config.py: what the profiles set, whatever the environment says.
use mathlib.Core.Path.{subst}
use file_scanner.Base.{
  String, ◌≡◌, refl, sym, ap, ◌∙◌, true, false, not, ◌⊎◌, inl, inr, Option, none, some, List, [],
  ◌∷◌, contains, if◌then◌else◌, ok, ◌==◌, arith, eq_iff, is_some, Bool-cases,
}
use file_scanner.Base.Dict.{Dict, get, set, update}
use file_scanner.Config.{
  Setting, flag, profile_only, drop_env_keys, Sources, customise_sources, static_sources,
  settings_fields, eager_fields, tested_fields, Model, configs, config_name, get_settings,
  looked_up,
}

-- A field has the value of the first source with it, or its default.
abbrev pub first_value : List (Dict Setting) → Dict Setting → String → Option Setting
first_value [] defaults k = get k defaults
first_value (source ∷ rest) defaults k =
    let later = first_value rest defaults k in
    if is_some (get k source) then get k source else later

distinct :
    (j k : String) (drop : List String)
    → contains drop k ≡ true
    → contains drop j ≡ false
    → (j == k) ≡ false
distinct j k drop h kept = elim (Bool-cases (j == k)) [
  | inr other ↦ other
  | inl same ↦
      let equal : j ≡ k = ground (arith, same, eq_iff j k) in
      absurd (ground (arith, h, kept, ap (contains drop) equal))
]

get-drop_env_keys :
    (k : String) (drop : List String) (source : Dict Setting)
    → contains drop k ≡ true
    → get k (drop_env_keys drop source) ≡ none
unfolding drop_env_keys get
get-drop_env_keys k drop [] h = refl
get-drop_env_keys k drop ((j, v) ∷ source) h = elim (Bool-cases (contains drop j)) [
  | inl dropped ↦ rw (dropped) (get-drop_env_keys k drop source h)
  | inr kept ↦
      let other : (j == k) ≡ false = distinct j k drop h kept in
      rw (kept) (rw (other) (get-drop_env_keys k drop source h))
]

profile_only-cases :
    (k : String) → contains profile_only k ≡ true → (k ≡ "testing") ⊎ (k ≡ "worker_eager")
profile_only-cases k h = ground (arith, h, eq_iff k "testing", eq_iff k "worker_eager")

-- What holds of the two flags.
of_flags :
    (P : String → Type 0)
    → P "testing"
    → P "worker_eager"
    → (k : String) → contains profile_only k ≡ true
    → P k
of_flags P testing eager k h = elim (profile_only-cases k h) [
  | inl same ↦ subst P (sym same) testing
  | inr same ↦ subst P (sym same) eager
]

found-cases :
    {A : Type 0} (name : String) (a b c d x : A)
    → get name (
        ("config.ProductionConfig", a)
        ∷ ("config.TestConfig", b)
        ∷ ("config.CiConfig", c)
        ∷ ("config.LocalConfig", d)
        ∷ [])
      ≡ some x
    → ((name == "config.ProductionConfig") ≡ true) × (a ≡ x)
      ⊎ ((name == "config.ProductionConfig") ≡ false) × ((b ≡ x) ⊎ (c ≡ x) ⊎ (d ≡ x))
unfolding get
found-cases name a b c d x h =
    ground (arith, h, eq_iff "config.ProductionConfig" name, eq_iff name "config.ProductionConfig")

looked_up-ok :
    (model : Model) (s : Sources) (environ : Dict String) (o : Option (String → Option Setting))
    (settings : String → Option Setting)
    → looked_up model s environ o ≡ ok settings
    → o ≡ some settings
looked_up-ok model s environ none settings h = cc
looked_up-ok model s environ (some x) settings h = cc

module _ (model : Model) (s : Sources) (environ : Dict String)
    (law : (sources : List (Dict Setting)) (defaults : Dict Setting) (k : String)
      → model sources defaults k ≡ first_value sources defaults k)
    (no_init : s.init ≡ []) (no_dotenv : s.dotenv ≡ []) (no_secret : s.file_secret ≡ []) where
  production-flag :
      (k : String)
      → contains profile_only k ≡ true
      → model (customise_sources s) settings_fields k ≡ some (flag false)
  unfolding customise_sources get
  production-flag k kept =
      law (customise_sources s) settings_fields k
      ∙ rw (no_init, no_dotenv, no_secret)
          (rw (get-drop_env_keys k profile_only s.env kept)
            (of_flags (λ k. get k settings_fields ≡ some (flag false)) refl refl k kept))

  static-flag :
      (fields : Dict Setting) (k : String)
      → get k fields ≡ some (flag true)
      → model (static_sources s) fields k ≡ some (flag true)
  unfolding get
  static-flag fields k h = law (static_sources s) fields k ∙ rw (no_init) h

  tested-flag :
      (clamav_hosts k : String)
      → contains profile_only k ≡ true
      → model (static_sources s) (update settings_fields (tested_fields environ clamav_hosts)) k
        ≡ some (flag true)
  unfolding get update set
  tested-flag clamav_hosts k kept = static-flag _ k (
      of_flags
        (λ k.
          get k (update settings_fields (tested_fields environ clamav_hosts)) ≡ some (flag true))
        refl refl k kept)

  local-flag :
      (k : String)
      → contains profile_only k ≡ true
      → model (static_sources s) (update settings_fields (eager_fields "localhost:3310")) k
        ≡ some (flag true)
  unfolding get update set
  local-flag k kept = static-flag _ k (
      of_flags
        (λ k. get k (update settings_fields (eager_fields "localhost:3310")) ≡ some (flag true))
        refl refl k kept)

  -- The two flags that change safety-relevant behaviour are off in the production profile and on in
  -- the others, whatever the environment sets: also if it sets them. This is with nothing from a
  -- dotenv file, a directory of secrets or arguments, and with a field that has the value of the
  -- first source with it or else its default.
  pub get_settings-profile_only :
      (settings : String → Option Setting) (k : String)
      → get_settings model s environ ≡ ok settings
      → contains profile_only k ≡ true
      → settings k ≡ some (flag (not (config_name model s environ == "config.ProductionConfig")))
  unfolding get_settings configs
  get_settings-profile_only settings k h kept =
      elim (found-cases (config_name model s environ) _ _ _ _ settings
        (looked_up-ok model s environ _ settings h)) [
          | inl (production, same) ↦
              rw (production) (ap (λ f. f k) (sym same) ∙ production-flag k kept)
          | inr (other, inl same) ↦
              rw (other) (ap (λ f. f k) (sym same) ∙ tested-flag "clamav:3310" k kept)
          | inr (other, inr (inl same)) ↦
              rw (other) (ap (λ f. f k) (sym same) ∙ tested-flag "localhost:3310" k kept)
          | inr (other, inr (inr same)) ↦ rw (other) (ap (λ f. f k) (sym same) ∙ local-flag k kept)
        ]
