-- ===== src/Base/TextLaws.antt =====
-- Laws of `split`, `strip`, `before` and `after`.
use Prim.Native.Nat.{ℕ}
use Prim.Native.Char.{Char, code}
use Prim.Native.String.{String, ◌++◌ as ◌<>◌}
use mathlib.Core.Path.{◌≡◌, refl}
use mathlib.Core.Logic.{◌≢◌}
use mathlib.Core.Bool.{false, ◌||◌}
use mathlib.Core.List.{List, [], ◌∷◌, ◌++◌}
use native.Mathlib.Omega.{arith}
use text.Mathlib.TextLemmas.{nil-append, cons-append}
use file_scanner.Base.Text.{split, push_front}
use file_scanner.Base.Text.{is_space, is_text, lstrip, rstrip, strip}
use file_scanner.Base.Tests.{Bool-cases}
use mathlib.Core.Logic.{inl, inr}
use mathlib.Core.Bool.{Bool, true, not, ◌&&◌}
use file_scanner.Base.Chars.{has_char, before, after}

push_front-append :
    (c : Char) (ps qs : List String) → ps ≢ [] → push_front c (ps ++ qs) ≡ push_front c ps ++ qs
push_front-append c [] qs h = absurd (h refl)
push_front-append c (p ∷ ps) qs h = refl

split-nonempty : (sep : ℕ) (s : String) → split sep s ≢ []
unfolding split
split-nonempty sep String.[] h = absurd (ground (arith, h))
split-nonempty sep (String.◌∷◌ c s) h = absurd (ground (arith, h))

-- Two texts joined by the separator have the entries of both.
pub split-append :
    (sep : ℕ) (c : Char) (s t : String)
    → code c ≡ sep
    → split sep (s <> String.◌∷◌ c t) ≡ split sep s ++ split sep t
unfolding split
split-append sep c String.[] t h = rw (nil-append (String.◌∷◌ c t)) (ground (arith, h))
split-append sep c (String.◌∷◌ d s) t h = rw (cons-append d s (String.◌∷◌ c t)) (
    ground (
      arith,
      split-append sep c s t h,
      split-nonempty sep s,
      push_front-append d (split sep s) (split sep t),
    ))

-- A text without the separator is one entry.
pub split_of_none : (sep : ℕ) (s : String) → has_char sep s ≡ false → split sep s ≡ s ∷ []
unfolding split has_char
split_of_none sep String.[] h = refl
split_of_none sep (String.◌∷◌ d s) h = ground (arith, split_of_none sep s)

pub before-append :
    (sep : ℕ) (c : Char) (s t : String)
    → code c ≡ sep
    → has_char sep s ≡ false
    → before sep (s <> String.◌∷◌ c t) ≡ s
unfolding before has_char
before-append sep c String.[] t h none_in = rw (nil-append (String.◌∷◌ c t)) (ground arith)
before-append sep c (String.◌∷◌ d s) t h none_in =
    rw (cons-append d s (String.◌∷◌ c t)) (ground (arith, before-append sep c s t h))

pub after-append :
    (sep : ℕ) (c : Char) (s t : String)
    → code c ≡ sep
    → has_char sep s ≡ false
    → after sep (s <> String.◌∷◌ c t) ≡ t
unfolding after has_char
after-append sep c String.[] t h none_in = rw (nil-append (String.◌∷◌ c t)) (ground arith)
after-append sep c (String.◌∷◌ d s) t h none_in =
    rw (cons-append d s (String.◌∷◌ c t)) (ground (arith, after-append sep c s t h))

pub has_char-append :
    (sep : ℕ) (s t : String) → has_char sep (s <> t) ≡ (has_char sep s || has_char sep t)
unfolding has_char
has_char-append sep String.[] t = rw (nil-append t) refl
has_char-append sep (String.◌∷◌ d s) t =
    rw (cons-append d s t) (ground (arith, has_char-append sep s t))

-- The text begins with a blank.
abbrev pub first_blank : String → Bool
first_blank String.[] = false
first_blank (String.◌∷◌ c s) = is_space (code c)

lstrip_fixed : (s : String) → first_blank s ≡ false → lstrip s ≡ s
unfolding lstrip
lstrip_fixed String.[] h = refl
lstrip_fixed (String.◌∷◌ c s) h = ground (arith, h)

first_blank-lstrip : (s : String) → first_blank (lstrip s) ≡ false
unfolding lstrip
first_blank-lstrip String.[] = refl
first_blank-lstrip (String.◌∷◌ c s) = elim (Bool-cases (is_space (code c))) [
  | inl h ↦ rw h (first_blank-lstrip s)
  | inr h ↦ rw h h
]

first_blank-rstrip : (s : String) → first_blank s ≡ false → first_blank (rstrip s) ≡ false
unfolding rstrip
first_blank-rstrip String.[] h = refl
first_blank-rstrip (String.◌∷◌ c s) h = rw h h

rstrip_idem : (s : String) → rstrip (rstrip s) ≡ rstrip s
unfolding rstrip
rstrip_idem String.[] = refl
rstrip_idem (String.◌∷◌ c s) = elim (Bool-cases (is_space (code c) && not (is_text (rstrip s)))) [
  | inl h ↦ rw h refl
  | inr h ↦ rw h (rw (rstrip_idem s) (rw h refl))
]

pub text-append : (s t : String) → is_text t ≡ true → is_text (s <> t) ≡ true
text-append String.[] t h = rw (nil-append t) h
text-append (String.◌∷◌ c s) t h = rw (cons-append c s t) refl

rstrip-append : (s t : String) → is_text (rstrip t) ≡ true → rstrip (s <> t) ≡ s <> rstrip t
unfolding rstrip
rstrip-append String.[] t h = rw (nil-append t, nil-append (rstrip t)) refl
rstrip-append (String.◌∷◌ c s) t h =
    rw (cons-append c s t, cons-append c s (rstrip t), rstrip-append s t h)
      (ground (arith, text-append s (rstrip t) h))

-- What strip() leaves begins with no blank, and strip() changes nothing there.
pub first_blank-strip : (s : String) → first_blank (strip s) ≡ false
unfolding strip
first_blank-strip s = first_blank-rstrip (lstrip s) (first_blank-lstrip s)

pub strip_idem : (s : String) → strip (strip s) ≡ strip s
unfolding strip
strip_idem s = rw (lstrip_fixed (strip s) (first_blank-strip s)) (rstrip_idem (lstrip s))

-- A text that begins with no blank, before one that strip() leaves as it is and that is not empty.
pub strip-append :
    (s t : String)
    → first_blank s ≡ false
    → is_text s ≡ true
    → strip t ≡ t
    → is_text t ≡ true
    → strip (s <> t) ≡ s <> t
unfolding strip
strip-append String.[] t h u k v = cc
strip-append (String.◌∷◌ c s) t h u k v =
    let kept : rstrip t ≡ t = rw (← k) (rstrip_idem (lstrip t)) in
    rw (lstrip_fixed (String.◌∷◌ c s <> t) (rw (cons-append c s t) h))
      (rw (rstrip-append (String.◌∷◌ c s) t (rw kept v)) (rw kept refl))
