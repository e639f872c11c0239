-- ===== src/Base/Raising.antt =====
-- A call that returns or raises. `X` is what it may raise.
use mathlib.Core.Path.{◌≡◌, refl}
use mathlib.Core.Bool.{Bool, true, false}

pub data Result {ℓ κ} (X : Type ℓ) (R : Type κ) : Type (ℓ ⊔ κ) where
  ok : R → Result X R
  err : X → Result X R

-- `if test: raise x`
abbrev pub raise_if {ℓ} : {X : Type ℓ} → Bool → X → Result X (Unit {0})
raise_if false x = ok tt
raise_if true x = err x

infixl 5 ◌>>=◌ ◌>>◌
-- What follows a call, on its value.
abbrev pub ◌>>=◌ {ℓ κ} : {X : Type ℓ} {R S : Type κ} → Result X R → (R → Result X S) → Result X S
err x >>= next = err x
ok r >>= next = next r

-- What follows a statement.
abbrev pub ◌>>◌ {ℓ} : {X : Type ℓ} {S : Type 0} → Result X (Unit {0}) → Result X S → Result X S
statement >> next = statement >>= λ _. next

-- Calls in a row that return: the first has returned, and the second on its value.
pub >>=-eq-ok {ℓ κ} :
    {X : Type ℓ} {R S : Type κ} (call : Result X R) (next : R → Result X S) {s : S}
    → (call >>= next) ≡ ok s
    → (r : R) × (call ≡ ok r) × (next r ≡ ok s)
>>=-eq-ok (err x) next returns = cc
>>=-eq-ok (ok r) next returns = (r, refl, returns)
