-- ===== src/Web/Dates/Periods.antt =====
-- The text of a period reads back as the period.
use Prim.Native.Char.{code}
use Prim.Native.String.{String, [], ◌∷◌, ◌++◌}
use text.Mathlib.TextLemmas.{nil-append, cons-append}
use udhyam_msme_extractor.Prelude.{◌≡◌, refl, some, ℕ, ◌==◌, false, arith}
use udhyam_msme_extractor.Prelude.Text.{split_at, pad_to}
use udhyam_msme_extractor.Prelude.Numerals.Read.{AllDigits, pad_to-AllDigits, parse_int-pad_to}
use udhyam_msme_extractor.Web.Dates.{period_text, parse_period, second_part, both_parts}

abbrev hyphen_split : String → String × String
hyphen_split = split_at (λ c. code c == b'-')

split-digits : (s : String) → AllDigits s → hyphen_split s ≡ (s, [])
unfolding split_at
split-digits [] h = refl
split-digits (c ∷ s) h =
    let e : code c == b'-' ≡ false = ground (arith, h) in rw (e, split-digits s h.2) refl

split-hyphen :
    (s rest : String) → AllDigits s → hyphen_split (s ++ ("-" ++ rest)) ≡ (s, "-" ++ rest)
unfolding split_at
split-hyphen [] rest h = rw (nil-append, cons-append) refl
split-hyphen (c ∷ s) rest h =
    let e : code c == b'-' ≡ false = ground (arith, h) in
    rw (cons-append, e, split-hyphen s rest h.2) refl

-- `_next_periods` reads the text that it writes for a month as that month.
pub parse_period-period_text :
    (year month : ℕ) → parse_period (period_text (year, month)) ≡ some (year, month)
unfolding parse_period period_text second_part both_parts
parse_period-period_text year month =
    rw
      (
        split-hyphen (pad_to 4 year) (pad_to 2 month) (pad_to-AllDigits 4 year),
        cons-append,
        nil-append,
        split-digits (pad_to 2 month) (pad_to-AllDigits 2 month),
        parse_int-pad_to 4 year,
        both_parts,
        parse_int-pad_to 2 month,
      )
      refl
