-- ===== src/Base/Middle.antt =====
-- Elements of lists: how many pass a test, taking one out of the middle, and adding one at the end.
use mathlib.Core.Path.{◌≡◌, refl, ap, ◌∙◌}
use mathlib.Core.Bool.{Bool}
use mathlib.Core.List.{List, [], ◌∷◌, ◌++◌, Memᴰ}
use native.Mathlib.Omega.{arith}
use Prim.Native.Nat.{ℕ, ◌+◌}
use file_scanner.Base.Lists.{filter, length, length-append, All}
use file_scanner.Base.Search.{filter-append}

-- How many elements pass a test.
abbrev pub count : {A : Type 0} → (A → Bool) → List A → ℕ
count p xs = length (filter p xs)

pub count-append :
    {A : Type 0} (p : A → Bool) (xs ys : List A) → count p (xs ++ ys) ≡ count p xs + count p ys
count-append p xs ys = ap length (filter-append p xs ys) ∙ length-append (filter p xs) (filter p ys)

-- An element out of the middle of a list.
pub count-middle :
    {A : Type 0} (p : A → Bool) (before : List A) (x : A) (after : List A)
    → count p (before ++ x ∷ after) ≡ count p (x ∷ []) + count p (before ++ after)
count-middle p before x after = ground (
  arith,
  count-append p before (x ∷ after),
  count-append p before after,
  count-append p (x ∷ []) after,
)

pub All-map :
    {A : Type 0} (P Q : A → Type 0) → ((x : A) → P x → Q x) → (xs : List A) → All P xs → All Q xs
All-map P Q f [] h = tt
All-map P Q f (x ∷ xs) (h, hs) = (f x h, All-map P Q f xs hs)

pub All-snoc :
    {A : Type 0} (P : A → Type 0) (xs : List A) (x : A) → All P xs → P x → All P (xs ++ x ∷ [])
All-snoc P [] x hs h = (h, tt)
All-snoc P (y ∷ ys) x (g, gs) h = (g, All-snoc P ys x gs h)

pub All-middle :
    {A : Type 0} (P : A → Type 0) (before : List A) (x : A) (after : List A)
    → All P (before ++ x ∷ after)
    → P x × All P (before ++ after)
All-middle P [] x after h = h
All-middle P (y ∷ ys) x after (g, gs) = let (h, hs) = All-middle P ys x after gs in (h, (g, hs))

pub Mem-snoc : {A : Type 0} {x : A} (xs : List A) (y : A) → Memᴰ x xs → Memᴰ x (xs ++ y ∷ [])
Mem-snoc [] y m = elim m [ ]
Mem-snoc (z ∷ zs) y (Memᴰ.head e) = Memᴰ.head e
Mem-snoc (z ∷ zs) y (Memᴰ.tail m) = Memᴰ.tail (Mem-snoc zs y m)

pub Mem-last : {A : Type 0} (xs : List A) (y : A) → Memᴰ y (xs ++ y ∷ [])
Mem-last [] y = Memᴰ.head refl
Mem-last (z ∷ zs) y = Memᴰ.tail (Mem-last zs y)
