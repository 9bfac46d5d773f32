-- ===== src/Prelude/Text.antt =====
-- The texts that the program builds and takes apart: decimal numbers, prefixes, splits.
use Prim.Native.Nat.{ℕ, zero, suc, ◌-◌, ◌/◌, ◌%◌}
use Prim.Native.Char.{Char, code}
use Prim.Native.String.{String, [], ◌∷◌, len}
use mathlib.Core.Bool.{Bool, true, false, not, ◌&&◌, ◌||◌}
use mathlib.Core.Option.{Option, none, some}
use udhyam_msme_extractor.Prelude.Tests.{◌==◌, ltb, leb, if◌then◌else◌, str_eq}

-- `not s` of a text
abbrev pub is_blank : String → Bool
is_blank s = str_eq s []

unfoldable pub digit : ℕ → Char
digit d =
    if d == 0
    then "0"
    else if d == 1
    then "1"
    else if d == 2
    then "2"
    else if d == 3
    then "3"
    else if d == 4
    then "4"
    else if d == 5
    then "5"
    else if d == 6
    then "6"
    else if d == 7
    then "7"
    else if d == 8
    then "8"
    else "9"

-- the decimal digits of `n` in front of a text; the first number bounds how many there are
unfoldable pub digits : ℕ → ℕ → String → String
digits zero n s = digit (n % 10) ∷ s
digits (suc f) n s =
    let more = digits f (n / 10) (digit (n % 10) ∷ s) in
    if ltb n 10 then digit (n % 10) ∷ s else more

-- `str(n)`
unfoldable pub to_str : ℕ → String
unfolding digits digit
to_str n = digits n n []

-- `s.startswith(t)`
unfoldable pub starts_with : String → String → Bool
starts_with s [] = true
starts_with [] (d ∷ t) = false
starts_with (c ∷ s) (d ∷ t) = code c == code d && starts_with s t

-- the text up to the first character that passes the test, and the rest from there
unfoldable pub split_at : (Char → Bool) → String → String × String
split_at p [] = ([], [])
split_at p (c ∷ s) = let rest = split_at p s in if p c then ([], c ∷ s) else (c ∷ rest.0, rest.1)

-- `s.lstrip("/")`
unfoldable pub lstrip_slash : String → String
lstrip_slash [] = []
lstrip_slash (c ∷ s) = let rest = lstrip_slash s in if code c == b'/' then rest else c ∷ s

-- `s.rstrip("/")`, from the back
rstrip_slash : String → String
rstrip_slash [] = []
rstrip_slash (c ∷ s) =
    let rest = rstrip_slash s in if code c == b'/' && str_eq rest [] then [] else c ∷ rest

-- `s.strip("/")`
unfoldable pub strip_slash : String → String
unfolding rstrip_slash lstrip_slash
strip_slash s = rstrip_slash (lstrip_slash s)

-- `Path(s).name`: what stands behind the last slash
after_slash : String → String → String
after_slash name [] = name
after_slash name (c ∷ s) = after_slash (if code c == b'/' then s else name) s

unfoldable pub file_name : String → String
unfolding after_slash
file_name s = after_slash s s

has_dot : String → Bool
has_dot [] = false
has_dot (c ∷ s) = code c == b'.' || has_dot s

-- `Path(name).stem` and `Path(name).suffix` of a name that does not begin or end with a dot
unfoldable pub split_suffix : String → String × String
unfolding has_dot
split_suffix [] = ([], [])
split_suffix (c ∷ s) =
    let rest = split_suffix s in
    if code c == b'.' && not (has_dot s) then ([], c ∷ s) else (c ∷ rest.0, rest.1)

-- `s.lower()` and `s.upper()` of an ASCII text
lower_char : Char → Char
lower_char c =
    if code c == b'A'
    then "a"
    else if code c == b'B'
    then "b"
    else if code c == b'C'
    then "c"
    else if code c == b'D'
    then "d"
    else if code c == b'E'
    then "e"
    else if code c == b'F'
    then "f"
    else if code c == b'G'
    then "g"
    else if code c == b'H'
    then "h"
    else if code c == b'I'
    then "i"
    else if code c == b'J'
    then "j"
    else if code c == b'K'
    then "k"
    else if code c == b'L'
    then "l"
    else if code c == b'M'
    then "m"
    else if code c == b'N'
    then "n"
    else if code c == b'O'
    then "o"
    else if code c == b'P'
    then "p"
    else if code c == b'Q'
    then "q"
    else if code c == b'R'
    then "r"
    else if code c == b'S'
    then "s"
    else if code c == b'T'
    then "t"
    else if code c == b'U'
    then "u"
    else if code c == b'V'
    then "v"
    else if code c == b'W'
    then "w"
    else if code c == b'X'
    then "x"
    else if code c == b'Y'
    then "y"
    else if code c == b'Z'
    then "z"
    else c

unfoldable pub lower : String → String
unfolding lower_char
lower [] = []
lower (c ∷ s) = lower_char c ∷ lower s

upper_char : Char → Char
upper_char c =
    if code c == b'a'
    then "A"
    else if code c == b'b'
    then "B"
    else if code c == b'c'
    then "C"
    else if code c == b'd'
    then "D"
    else if code c == b'e'
    then "E"
    else if code c == b'f'
    then "F"
    else if code c == b'g'
    then "G"
    else if code c == b'h'
    then "H"
    else if code c == b'i'
    then "I"
    else if code c == b'j'
    then "J"
    else if code c == b'k'
    then "K"
    else if code c == b'l'
    then "L"
    else if code c == b'm'
    then "M"
    else if code c == b'n'
    then "N"
    else if code c == b'o'
    then "O"
    else if code c == b'p'
    then "P"
    else if code c == b'q'
    then "Q"
    else if code c == b'r'
    then "R"
    else if code c == b's'
    then "S"
    else if code c == b't'
    then "T"
    else if code c == b'u'
    then "U"
    else if code c == b'v'
    then "V"
    else if code c == b'w'
    then "W"
    else if code c == b'x'
    then "X"
    else if code c == b'y'
    then "Y"
    else if code c == b'z'
    then "Z"
    else c

unfoldable pub upper : String → String
unfolding upper_char
upper [] = []
upper (c ∷ s) = upper_char c ∷ upper s

-- `s[:n]`
unfoldable pub take : ℕ → String → String
take zero s = []
take (suc n) [] = []
take (suc n) (c ∷ s) = c ∷ take n s

-- the ASCII white space
unfoldable pub is_space : Char → Bool
is_space c = code c == 32 || (leb 9 (code c) && leb (code c) 13)

unfoldable pub lstrip : String → String
lstrip [] = []
lstrip (c ∷ s) = let rest = lstrip s in if is_space c then rest else c ∷ s

unfoldable pub rstrip : String → String
rstrip [] = []
rstrip (c ∷ s) = let rest = rstrip s in if is_space c && str_eq rest [] then [] else c ∷ rest

-- `s.strip()`
unfoldable pub strip : String → String
unfolding is_space lstrip rstrip
strip s = rstrip (lstrip s)

drop_prefix : String → String → Option String
drop_prefix s [] = some s
drop_prefix [] (d ∷ t) = none
drop_prefix (c ∷ s) (d ∷ t) = let rest = drop_prefix s t in if code c == code d then rest else none

-- `s.split(marker, 1)[1]`, or none where `marker not in s`
unfoldable pub after_marker : String → String → Option String
unfolding drop_prefix
after_marker [] marker = drop_prefix [] marker
after_marker (c ∷ s) marker =
    let later = after_marker s marker in
    elim (drop_prefix (c ∷ s) marker) [ some rest ↦ some rest | none ↦ later ]

-- `s.replace(" ", "_")`
unfoldable pub underscored : String → String
underscored [] = []
underscored (c ∷ s) = (if code c == 32 then "_" else c) ∷ underscored s

unfoldable pub pad : ℕ → String → String
pad zero s = s
pad (suc n) s = "0" ∷ pad n s

-- `f"{n:0wd}"`
unfoldable pub pad_to : ℕ → ℕ → String
unfolding pad to_str
pad_to w n = pad (w - len (to_str n)) (to_str n)

-- `f"{n:05d}"`
unfoldable pub pad_five : ℕ → String
unfolding pad_to
pad_five n = pad_to 5 n
