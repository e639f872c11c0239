-- ===== src/Base/Value.antt =====
-- The values of a decoded JSON text, with the floats left abstract.
use Prim.Native.Nat.{ℕ}
use Prim.Native.String.{String}
use mathlib.Core.Path.{◌≡◌}
use mathlib.Core.Bool.{Bool, true, false}
use mathlib.Core.Option.{Option, none, some}
use text.Mathlib.Text.{◌==◌}
use text.Mathlib.TextEquality.{eq_iff}
use native.Mathlib.Omega.{arith}
use mathlib.Core.List.{List, [], ◌∷◌}
use file_scanner.Base.Dict.{Dict}

-- `negsuc n` is -(n + 1).
pub data ℤ : Type 0 where
  pos : ℕ → ℤ
  negsuc : ℕ → ℤ

mutual
  pub data Value (F : Type 0) : Type 0 where
    null : Value F
    bool : Bool → Value F
    int : ℤ → Value F
    float : F → Value F
    str : String → Value F
    arr : Items F → Value F
    obj : Fields F → Value F

  pub data Items (F : Type 0) : Type 0 where
    nil : Items F
    cons : Value F → Items F → Items F

  pub data Fields (F : Type 0) : Type 0 where
    end : Fields F
    field : String → Value F → Fields F → Fields F

module _ {F : Type 0} where
  -- The entries of a dict value, in order, and back.
  abbrev pub entries : Fields F → Dict (Value F)
  entries end = []
  entries (field k v fs) = (k, v) ∷ entries fs

  abbrev pub fields : Dict (Value F) → Fields F
  fields [] = end
  fields ((k, v) ∷ d) = field k v (fields d)

  abbrev pub items : List (Value F) → Items F
  items [] = nil
  items (v ∷ vs) = cons v (items vs)

-- What the program does with floats: Python's `>` between two of them, truth, `0.0`, and
-- `round(x, 4)`. No property of the arithmetic is assumed.
pub record Floats : Type 1 where
  pub F : Type 0
  pub gt : F → F → Bool
  pub truthy : F → Bool
  pub zero_f : F
  pub round4 : F → F

-- `d.get(k) == text`
abbrev pub is_str : {F : Type 0} → Option (Value F) → String → Bool
is_str (some (str s)) text = s == text
is_str _ text = false

pub is_str_lem :
    {F : Type 0} (o : Option (Value F)) (t : String) → is_str o t ≡ true → o ≡ some (str t)
is_str_lem (some (str s)) t h = ground (arith, eq_iff s t)
is_str_lem none t h = cc
is_str_lem (some v) t h = absurd (ground (arith, h))
