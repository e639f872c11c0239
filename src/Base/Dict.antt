-- ===== src/Base/Dict.antt =====
-- Python's dict with string keys, in insertion order.
use Prim.Native.String.{String}
use mathlib.Core.Path.{◌≡◌, refl}
use mathlib.Core.Bool.{false, not, ◌&&◌}
use mathlib.Core.Option.{Option, none, some}
use mathlib.Core.List.{List, [], ◌∷◌}
use native.Mathlib.Omega.{arith}
use text.Mathlib.Text.{◌==◌}
use text.Mathlib.TextEquality.{eq_iff}
use file_scanner.Base.Tests.{if◌then◌else◌, is_some}

abbrev pub Dict {ℓ} : Type ℓ → Type ℓ
Dict V = List (String × V)

module _ {ℓ} {V : Type ℓ} where
  -- d.get(k)
  unfoldable pub get : String → Dict V → Option V
  get k [] = none
  get k ((j, v) ∷ d) = let rest = get k d in if j == k then some v else rest

  -- d[k] = v
  unfoldable pub set : String → V → Dict V → Dict V
  set k v [] = (k, v) ∷ []
  set k v ((j, w) ∷ d) = let rest = set k v d in if j == k then (j, v) ∷ d else (j, w) ∷ rest

  -- d.setdefault(k, v)
  abbrev pub setdefault : String → V → Dict V → Dict V
  setdefault k v d = if is_some (get k d) then d else set k v d

  -- d.update(e)
  unfoldable pub update : Dict V → Dict V → Dict V
  update d [] = d
  update d ((k, v) ∷ e) = update (set k v d) e

  -- {k: v for k, v in d.items() if k != drop}
  unfoldable pub without : String → Dict V → Dict V
  without k [] = []
  without k ((j, v) ∷ d) = let rest = without k d in if j == k then rest else (j, v) ∷ rest

  abbrev pub NodupKeys : Dict V → Type 0
  NodupKeys [] = Unit
  NodupKeys ((k, _) ∷ d) = (is_some (get k d) ≡ false) × NodupKeys d

  pub get-set :
      (j k : String) (v : V) (d : Dict V) → get j (set k v d) ≡ (if k == j then some v else get j d)
  unfolding get set
  get-set j k v [] = refl
  get-set j k v ((i, w) ∷ d) = ground (arith, get-set j k v d, eq_iff i k, eq_iff i j, eq_iff k j)

  pub get-setdefault :
      (j k : String) (v : V) (d : Dict V)
      → get j (setdefault k v d) ≡ (if k == j && not (is_some (get j d)) then some v else get j d)
  get-setdefault j k v d = ground (arith, get-set j k v d, eq_iff k j)

  pub get-without :
      (j k : String) (d : Dict V) → get j (without k d) ≡ (if k == j then none else get j d)
  unfolding get without
  get-without j k [] = ground arith
  get-without j k ((i, w) ∷ d) =
      ground (arith, get-without j k d, eq_iff i k, eq_iff i j, eq_iff k j)

  -- Two updates in a row: the last value set for a key is the one that is read.
  get-update :
      (j : String) (d e : Dict V)
      → NodupKeys e
      → get j (update d e) ≡ (if is_some (get j e) then get j e else get j d)
  unfolding update get
  get-update j d [] u = refl
  get-update j d ((k, v) ∷ e) (fresh, u) =
      ground (arith, get-update j (set k v d) e u, get-set j k v d, eq_iff k j)

pub get-nil {ℓ} : {V : Type ℓ} (k : String) → get {V = V} k [] ≡ none
unfolding get
get-nil k = refl

pub ruleset dict_laws = (get-set, get-without, get-nil)
