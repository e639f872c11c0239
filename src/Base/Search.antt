-- ===== src/Base/Search.antt =====
-- Laws of `any`, `find?` and `filter` over Boolean tests.
use mathlib.Core.Path.{◌≡◌, refl}
use mathlib.Core.Logic.{◌⊎◌, inl}
use mathlib.Core.Bool.{Bool, true, false, not, ◌&&◌, ◌||◌}
use mathlib.Core.Option.{none, some}
use mathlib.Core.List.{List, [], ◌∷◌, ◌++◌}
use native.Mathlib.Omega.{arith}
use file_scanner.Base.Lists.{any, all, filter, find?, head?, or_list, is_nonempty}
use file_scanner.Base.Tests.{if◌then◌else◌}

module _ {ℓ} {A : Type ℓ} where
  -- A search either finds nothing, and then no element passes, or finds an element that passes.
  pub find?_cases :
      (p : A → Bool) (xs : List A)
      → (find? p xs ≡ none) × (any p xs ≡ false)
        ⊎ ((a : A) × (find? p xs ≡ some a) × (p a ≡ true) × (any p xs ≡ true))
  find?_cases p [] = inl (refl, refl)
  find?_cases p (x ∷ xs) = ground (arith, find?_cases p xs)

  -- The element found passes a second test only if some element does.
  pub find?_cases_with :
      (p q : A → Bool) (xs : List A)
      → (find? p xs ≡ none) × (any p xs ≡ false)
        ⊎ ((a : A) × (find? p xs ≡ some a)
            × (p a ≡ true)
            × (any p xs ≡ true)
            × ((q a && not (any q xs)) ≡ false))
  find?_cases_with p q [] = inl (refl, refl)
  find?_cases_with p q (x ∷ xs) = ground (arith, find?_cases_with p q xs)

  pub nonempty-filter : (p : A → Bool) (xs : List A) → is_nonempty (filter p xs) ≡ any p xs
  nonempty-filter p [] = refl
  nonempty-filter p (x ∷ xs) = ground (arith, nonempty-filter p xs)

  pub head?-filter : (p : A → Bool) (xs : List A) → head? (filter p xs) ≡ find? p xs
  head?-filter p [] = refl
  head?-filter p (x ∷ xs) = ground (arith, head?-filter p xs)

  pub find?-filter :
      (p q : A → Bool)
      → ((a : A) → p a ≡ true → q a ≡ true)
      → (xs : List A) → find? p (filter q xs) ≡ find? p xs
  find?-filter p q h [] = refl
  find?-filter p q h (x ∷ xs) = ground (arith, h x, find?-filter p q h xs)

  pub any-append : (p : A → Bool) (xs ys : List A) → any p (xs ++ ys) ≡ (any p xs || any p ys)
  any-append p [] ys = refl
  any-append p (x ∷ xs) ys = ground (arith, any-append p xs ys)

  pub all-append : (p : A → Bool) (xs ys : List A) → all p (xs ++ ys) ≡ (all p xs && all p ys)
  all-append p [] ys = refl
  all-append p (x ∷ xs) ys = ground (arith, all-append p xs ys)

  pub filter-append :
      (p : A → Bool) (xs ys : List A) → filter p (xs ++ ys) ≡ filter p xs ++ filter p ys
  filter-append p [] ys = refl
  filter-append p (x ∷ xs) ys = ground (arith, filter-append p xs ys)

  pub any-filter : (p q : A → Bool) (xs : List A) → any p (filter q xs) ≡ any (λ a. q a && p a) xs
  any-filter p q [] = refl
  any-filter p q (x ∷ xs) = ground (arith, any-filter p q xs)

  pub any_congr : (p q : A → Bool) → ((a : A) → p a ≡ q a) → (xs : List A) → any p xs ≡ any q xs
  any_congr p q h [] = refl
  any_congr p q h (x ∷ xs) = cc (h x, any_congr p q h xs)

  pub or-filter :
      (p : A → Bool) (xs ys : List A)
      → or_list (filter p xs) ys ≡ (if any p xs then filter p xs else ys)
  or-filter p [] ys = refl
  or-filter p (x ∷ xs) ys = ground (arith, or-filter p xs ys)

  pub all-not : (p : A → Bool) (xs : List A) → all p xs ≡ not (any (λ a. not (p a)) xs)
  all-not p [] = refl
  all-not p (x ∷ xs) = ground (arith, all-not p xs)
