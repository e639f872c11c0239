-- ===== src/Base/Chars.antt =====
-- More of Python's str methods: those that look for one character or change the case.
use Prim.Native.Nat.{ℕ, zero, suc, ◌-◌}
use Prim.Native.Char.{Char, code}
use Prim.Native.String.{String, ◌++◌ as ◌<>◌, char_at}
use mathlib.Core.Path.{◌≡◌, refl}
use mathlib.Core.Bool.{Bool, true, false, not, ◌&&◌, ◌||◌}
use text.Mathlib.Text.{find?}
use file_scanner.Base.Tests.{leb, nat_eq, is_some, if◌then◌else◌}
use file_scanner.Base.Text.{is_text}

-- `c in s` of one character
unfoldable pub has_char : ℕ → String → Bool
has_char c String.[] = false
has_char c (String.◌∷◌ d s) = nat_eq (code d) c || has_char c s

-- s.partition(c)[0], which is s.split(c, 1)[0]
unfoldable pub before : ℕ → String → String
before c String.[] = ""
before c (String.◌∷◌ d s) =
    let rest = before c s in if nat_eq (code d) c then "" else String.◌∷◌ d rest

-- s.partition(c)[2], and s.split(c, 1)[1] where there is a c
unfoldable pub after : ℕ → String → String
after c String.[] = ""
after c (String.◌∷◌ d s) = let rest = after c s in if nat_eq (code d) c then s else rest

-- s.rstrip(c)
unfoldable pub rstrip_char : ℕ → String → String
rstrip_char c String.[] = ""
rstrip_char c (String.◌∷◌ d s) =
    let rest = rstrip_char c s in
    if nat_eq (code d) c && not (is_text rest) then "" else String.◌∷◌ d rest

-- s.lstrip(c)
unfoldable pub lstrip_char : ℕ → String → String
lstrip_char c String.[] = ""
lstrip_char c (String.◌∷◌ d s) =
    let rest = lstrip_char c s in if nat_eq (code d) c then rest else String.◌∷◌ d s

-- s.replace(c, r) of two characters
unfoldable pub replace_char : ℕ → Char → String → String
replace_char c r String.[] = ""
replace_char c r (String.◌∷◌ d s) =
    String.◌∷◌ (if nat_eq (code d) c then r else d) (replace_char c r s)

-- s[n:]
abbrev pub drop_chars : ℕ → String → String
drop_chars zero s = s
drop_chars (suc n) String.[] = ""
drop_chars (suc n) (String.◌∷◌ d s) = drop_chars n s

-- s.isascii()
unfoldable pub is_ascii : String → Bool
is_ascii String.[] = true
is_ascii (String.◌∷◌ d s) = leb (code d) 127 && is_ascii s

upper_of : Char → Char
upper_of d =
    if leb b'a' (code d) && leb (code d) b'z'
    then char_at "ABCDEFGHIJKLMNOPQRSTUVWXYZ" (code d - b'a')
    else d

lower_of : Char → Char
lower_of d =
    if leb b'A' (code d) && leb (code d) b'Z'
    then char_at "abcdefghijklmnopqrstuvwxyz" (code d - b'A')
    else d

-- s.upper(), of ASCII text
unfoldable pub upper : String → String
unfolding upper_of
upper String.[] = ""
upper (String.◌∷◌ d s) = String.◌∷◌ (upper_of d) (upper s)

-- s.lower(), of ASCII text
unfoldable pub lower : String → String
unfolding lower_of
lower String.[] = ""
lower (String.◌∷◌ d s) = String.◌∷◌ (lower_of d) (lower s)

-- `t in s`
abbrev pub has_text : String → String → Bool
has_text t s = is_some (find? s t)

case_test : upper "post-2" <> lower "No Space" ≡ "POST-2no space"
unfolding upper lower
case_test = refl

partition_test :
    before b':' "drive:k:1" <> after b':' "drive:k:1" <> before b':' "d" <> after b':' "d"
    ≡ "drivek:1d"
unfolding before after
partition_test = refl

trimmed_test : rstrip_char b'/' "/a/b//" <> lstrip_char b'/' "//c" ≡ "/a/bc"
unfolding rstrip_char lstrip_char
trimmed_test = refl
