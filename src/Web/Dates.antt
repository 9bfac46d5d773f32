-- ===== src/Web/Dates.antt =====
-- The dates of main.py: `_next_schedule_date`, `_next_periods` and `strftime("%d-%b-%Y")`.
pub mod Periods
pub mod Schedule
use Prim.Native.Char.{code}
use Prim.Native.String.{String, [], ◌∷◌, ◌++◌}
use udhyam_msme_extractor.Prelude.{
  Option, none, some, List, [], ◌∷◌, map, ℕ, zero, suc, ◌+◌, ◌==◌, ltb, leb, if◌then◌else◌,
}
use udhyam_msme_extractor.Prelude.Int.{ℤ, pos, negsuc}
use udhyam_msme_extractor.Prelude.Text.{split_at, pad_to}
use udhyam_msme_extractor.Prelude.Numerals.{parse_int}
use udhyam_msme_extractor.Web.Values.{DateTime}

-- `last.replace(year=…, month=…, day=…, hour=0, minute=0, second=0, microsecond=0)`; none for the
-- ValueError after the year 9999
midnight : ℕ → ℕ → ℕ → Option DateTime
midnight year month day =
    if leb year 9999
    then some record {
      year = year;
      month = month;
      day = day;
      hour = 0;
      minute = 0;
      second = 0;
      microsecond = 0;
    }
    else none

unfoldable pub next_schedule_date : DateTime → Option DateTime
unfolding midnight
next_schedule_date last =
    if ltb last.day 15
    then midnight last.year last.month 15
    else if last.month == 12
    then midnight (last.year + 1) 1 1
    else midnight last.year (last.month + 1) 1

-- the loop of `_next_periods`
unfoldable pub periods_after : ℕ → ℕ → ℕ → List (ℕ × ℕ)
periods_after zero year month = []
periods_after (suc count) year month =
    let turn = periods_after count (year + 1) 1 in
    let same = periods_after count year (month + 1) in
    if ltb 12 (month + 1) then (year + 1, 1) ∷ turn else (year, month + 1) ∷ same

-- `f"{year:04d}-{month:02d}"`
unfoldable pub period_text : ℕ × ℕ → String
unfolding pad_to
period_text (year, month) = pad_to 4 year ++ ("-" ++ pad_to 2 month)

-- both numbers; a part that has a hyphen of its own was a third part
both_parts : Option ℤ → String × String → Option (ℕ × ℕ)
both_parts (some (pos year)) (month, []) = elim (parse_int month) [
  | some (pos m) ↦ some (year, m)
  | _ ↦ none
]
both_parts _ _ = none

second_part : String × String → Option (ℕ × ℕ)
unfolding both_parts split_at
second_part (year, []) = none
second_part (year, hyphen ∷ rest) =
    both_parts (parse_int year) (split_at (λ c. code c == b'-') rest)

-- `year, month = (int(p) for p in last_period.split("-"))`; none for the ValueError
unfoldable pub parse_period : String → Option (ℕ × ℕ)
unfolding second_part split_at
parse_period text = second_part (split_at (λ c. code c == b'-') text)

unfoldable pub next_periods : String → ℕ → Option (List String)
unfolding parse_period periods_after period_text
next_periods last_period count = elim (parse_period last_period) [
  | some (year, month) ↦ some (map period_text (periods_after count year month))
  | none ↦ none
]

month_name : ℕ → String
month_name m =
    if m == 1
    then "Jan"
    else if m == 2
    then "Feb"
    else if m == 3
    then "Mar"
    else if m == 4
    then "Apr"
    else if m == 5
    then "May"
    else if m == 6
    then "Jun"
    else if m == 7
    then "Jul"
    else if m == 8
    then "Aug"
    else if m == 9
    then "Sep"
    else if m == 10
    then "Oct"
    else if m == 11
    then "Nov"
    else "Dec"

-- `d.strftime("%d-%b-%Y")` in the C locale
unfoldable pub strftime : DateTime → String
unfolding month_name pad_to
strftime d = pad_to 2 d.day ++ ("-" ++ (month_name d.month ++ ("-" ++ pad_to 4 d.year)))
