-- ===== src/Base/Text.antt =====
-- Python's str methods that the program calls, over the native text.
use Prim.Native.Nat.{ℕ, zero, suc, ◌/◌, ◌%◌}
use Prim.Native.Char.{Char, code}
use Prim.Native.String.{String, ◌++◌ as ◌<>◌}
use mathlib.Core.Path.{◌≡◌, refl}
use mathlib.Core.Bool.{Bool, true, false, not, ◌&&◌, ◌||◌}
use mathlib.Core.List.{List, [], ◌∷◌}
use file_scanner.Base.Tests.{leb, ltb, nat_eq, if◌then◌else◌}

-- The truth of a str: it has a character.
abbrev pub is_text : String → Bool
is_text String.[] = false
is_text (String.◌∷◌ c s) = true

-- str.isspace of one character: the code points that str.strip() drops.
abbrev pub is_space : ℕ → Bool
is_space c =
    (leb 9 c && leb c 13)
    || (leb 28 c && leb c 32)
    || nat_eq c 133
    || nat_eq c 160
    || nat_eq c 5760
    || (leb 8192 c && leb c 8202)
    || nat_eq c 8232
    || nat_eq c 8233
    || nat_eq c 8239
    || nat_eq c 8287
    || nat_eq c 12288

unfoldable pub lstrip : String → String
lstrip String.[] = ""
lstrip (String.◌∷◌ c s) = let rest = lstrip s in if is_space (code c) then rest else String.◌∷◌ c s

-- A blank tail goes, and blanks before a character that stays do not.
unfoldable pub rstrip : String → String
rstrip String.[] = ""
rstrip (String.◌∷◌ c s) =
    let rest = rstrip s in if is_space (code c) && not (is_text rest) then "" else String.◌∷◌ c rest

-- str.strip()
unfoldable pub strip : String → String
unfolding lstrip rstrip
strip s = rstrip (lstrip s)

abbrev pub push_front : Char → List String → List String
push_front c [] = String.◌∷◌ c "" ∷ []
push_front c (p ∷ ps) = String.◌∷◌ c p ∷ ps

-- str.split(sep) of a one-character separator: never empty.
unfoldable pub split : ℕ → String → List String
split sep String.[] = "" ∷ []
split sep (String.◌∷◌ c s) =
    let rest = split sep s in if nat_eq (code c) sep then "" ∷ rest else push_front c rest

-- `[c.strip() for c in raw.split(",") if c.strip()]`
abbrev stripped : List String → List String
stripped [] = []
stripped (p ∷ ps) =
    let rest = stripped ps in let s = strip p in if is_text s then s ∷ rest else rest

unfoldable pub comma_list : String → List String
unfolding strip split
comma_list raw = stripped (split b',' raw)

abbrev digit : ℕ → String
digit n =
    if nat_eq n 0
    then "0"
    else if nat_eq n 1
    then "1"
    else if nat_eq n 2
    then "2"
    else if nat_eq n 3
    then "3"
    else if nat_eq n 4
    then "4"
    else if nat_eq n 5
    then "5"
    else if nat_eq n 6
    then "6"
    else if nat_eq n 7
    then "7"
    else if nat_eq n 8
    then "8"
    else "9"

decimal_from : ℕ → ℕ → String
decimal_from zero n = ""
decimal_from (suc fuel) n =
    let front = decimal_from fuel (n / 10) in if ltb n 10 then digit n else front <> digit (n % 10)

-- str(n): a number has fewer digits than `suc n`.
unfoldable pub decimal : ℕ → String
unfolding decimal_from
decimal n = decimal_from (suc n) n

decimal_test : decimal 2140 <> decimal 7 <> decimal 0 ≡ "214070"
unfolding decimal
decimal_test = refl

-- str.strip() drops the blanks of both ends, and a comma list has no empty entry.
comma_list_test : comma_list " exav , ,jcop,\tmy av " ≡ "exav" ∷ "jcop" ∷ "my av" ∷ []
unfolding comma_list
comma_list_test = refl
