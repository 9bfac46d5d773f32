-- ===== src/Prelude/Numerals.antt =====
-- Python's `int(s)` of an ASCII text.
pub mod Read
use Prim.Native.Nat.{ℕ, zero, suc, ◌+◌, ◌-◌, ◌*◌}
use Prim.Native.Char.{Char, code}
use Prim.Native.String.{String, [], ◌∷◌}
use mathlib.Core.Path.{◌≡◌, refl}
use mathlib.Core.Bool.{Bool, true, false, ◌&&◌}
use mathlib.Core.Option.{Option, none, some}
use udhyam_msme_extractor.Prelude.Tests.{◌==◌, leb, if◌then◌else◌}
use udhyam_msme_extractor.Prelude.Int.{ℤ, pos, negsuc}
use udhyam_msme_extractor.Prelude.Text.{strip}

-- The digits read so far and whether a digit must follow: one underscore may stand between digits.
read_digits : ℕ → Bool → String → Option ℕ
read_digits n true [] = none
read_digits n false [] = some n
read_digits n need (c ∷ s) =
    let digit = read_digits (n * 10 + (code c - b'0')) false s in
    let underscore : Option ℕ = elim need [ true ↦ none | false ↦ read_digits n true s ] in
    if leb b'0' (code c) && leb (code c) b'9'
    then digit
    else if code c == b'_'
    then underscore
    else none

positive : Option ℕ → Option ℤ
positive none = none
positive (some n) = some (pos n)

negative : Option ℕ → Option ℤ
negative none = none
negative (some zero) = some (pos 0)
negative (some (suc n)) = some (negsuc n)

unfoldable pub signed : String → Option ℤ
unfolding read_digits positive negative
signed [] = none
signed (c ∷ s) =
    if code c == b'-'
    then negative (read_digits 0 true s)
    else if code c == b'+'
    then positive (read_digits 0 true s)
    else positive (read_digits 0 true (c ∷ s))

-- none for the ValueError
unfoldable pub parse_int : String → Option ℤ
unfolding strip signed
parse_int s = signed (strip s)

parse_int_runs : parse_int " -1_20\n" ≡ some (negsuc 119)
unfolding parse_int
parse_int_runs = refl

parse_int_refuses : parse_int "1__2" ≡ none
unfolding parse_int
parse_int_refuses = refl
