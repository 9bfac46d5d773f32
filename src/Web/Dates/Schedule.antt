-- ===== src/Web/Dates/Schedule.antt =====
-- The next scheduled date and the next periods against the calendar.
use udhyam_msme_extractor.Prelude.{
  String, ◌≡◌, refl, ◌⊎◌, inl, inr, ◌≤◌, ◌<◌, ◌+◌, ◌*◌, ◌==◌, ltb, leb, Bool-cases, Option, none,
  some, List, [], ◌∷◌, map, ℕ, zero, suc, arith, All,
}
use udhyam_msme_extractor.Web.Values.{DateTime}
use udhyam_msme_extractor.Web.Dates.Periods.{parse_period-period_text}
use udhyam_msme_extractor.Web.Dates.{
  next_schedule_date, periods_after, midnight, parse_period, period_text, next_periods,
}

-- a year, a month and a day as the number YYYYMMDD
abbrev pub date_number : DateTime → ℕ
date_number d = d.year * 10000 + d.month * 100 + d.day

abbrev pub IsDate : DateTime → Type 0
IsDate d = (1 ≤ d.month) × (d.month ≤ 12) × (1 ≤ d.day) × (d.day ≤ 31)

-- the first or the fifteenth of a month
abbrev pub IsScheduled : DateTime → Type 0
IsScheduled d = IsDate d × ((d.day ≡ 1) ⊎ (d.day ≡ 15))

-- `date` is the first scheduled day after `last`.
abbrev pub IsNext : DateTime → DateTime → Type 0
IsNext last date =
    IsScheduled date
    × (date_number last < date_number date)
    × ((d : DateTime)
        → IsScheduled d
        → date_number last < date_number d
        → date_number date ≤ date_number d)

abbrev pub IsNextOf : DateTime → Option DateTime → Type 0
IsNextOf last none = 9999 ≤ last.year
IsNextOf last (some date) = IsNext last date

IsNextOf-midnight :
    (last : DateTime) (year month day : ℕ)
    → last.year ≤ year
    → year ≤ last.year + 1
    → IsNext last record {
      year = year;
      month = month;
      day = day;
      hour = 0;
      minute = 0;
      second = 0;
      microsecond = 0;
    }
    → IsNextOf last (midnight year month day)
unfolding midnight
IsNextOf-midnight last year month day h k n = elim (Bool-cases (leb year 9999)) [
  | inl e ↦ rw e n
  | inr e ↦ rw e (ground (arith, e, k))
]

abbrev at_midnight : ℕ → ℕ → ℕ → DateTime
at_midnight year month day = record {
  year = year;
  month = month;
  day = day;
  hour = 0;
  minute = 0;
  second = 0;
  microsecond = 0;
}

IsNext-fifteenth :
    (last : DateTime)
    → IsDate last
    → last.day < 15
    → IsNext last (at_midnight last.year last.month 15)
IsNext-fifteenth last v h =
    ((omega (arith, v), inr refl), omega (arith, h), λ d s lt. omega (arith, s, lt, v))

IsNext-new_year :
    (last : DateTime)
    → IsDate last
    → 15 ≤ last.day
    → last.month ≡ 12
    → IsNext last (at_midnight (last.year + 1) 1 1)
IsNext-new_year last v h e =
    ((omega arith, inl refl), omega (arith, v, e), λ d s lt. omega (arith, s, lt, v, e, h))

IsNext-first :
    (last : DateTime)
    → IsDate last
    → 15 ≤ last.day
    → last.month < 12
    → IsNext last (at_midnight last.year (last.month + 1) 1)
IsNext-first last v h lt =
    ((omega (arith, lt), inl refl), omega (arith, v), λ d s after. omega (arith, s, after, v, h))

-- For every date, `_next_schedule_date` gives the first 1st or 15th after its day; it raises, the
-- year being too large for Python, only after the year 9998.
pub next_schedule_date-IsNextOf :
    (last : DateTime) → IsDate last → IsNextOf last (next_schedule_date last)
unfolding next_schedule_date
next_schedule_date-IsNextOf last v = elim (Bool-cases (ltb last.day 15)) [
  | inl early ↦ rw early (
      IsNextOf-midnight last last.year last.month 15 (omega arith) (omega arith)
        (IsNext-fifteenth last v (ground (arith, early))))
  | inr late ↦
      let late' : 15 ≤ last.day = ground (arith, late) in
      elim (Bool-cases (last.month == 12)) [
        | inl e ↦
            rw (late, e)
              (IsNextOf-midnight last (last.year + 1) 1 1 (omega arith) (omega arith)
                (IsNext-new_year last v late' (ground (arith, e))))
        | inr e ↦
            rw (late, e)
              (IsNextOf-midnight last last.year (last.month + 1) 1 (omega arith) (omega arith)
                (IsNext-first last v late' (ground (arith, e, v))))
      ]
]

-- the months counted from the year 0
abbrev pub month_number : ℕ × ℕ → ℕ
month_number (year, month) = year * 12 + month

abbrev pub IsMonth : ℕ × ℕ → Type 0
IsMonth (year, month) = (1 ≤ month) × (month ≤ 12)

abbrev pub count_from : ℕ → ℕ → List ℕ
count_from n zero = []
count_from n (suc count) = suc n ∷ count_from (suc n) count

abbrev pub Follows : ℕ × ℕ → ℕ → List (ℕ × ℕ) → Type 0
Follows last count periods =
    (map month_number periods ≡ count_from (month_number last) count) × All IsMonth periods

Follows-cons :
    (year month year' month' count : ℕ) (rest : List (ℕ × ℕ))
    → month_number (year', month') ≡ suc (month_number (year, month))
    → IsMonth (year', month')
    → Follows (year', month') count rest
    → Follows (year, month) (suc count) ((year', month') ∷ rest)
Follows-cons year month year' month' count rest e m h = (rw (h.0, e) refl, (m, h.1))

periods_after-Follows :
    (count year month : ℕ)
    → IsMonth (year, month)
    → Follows (year, month) count (periods_after count year month)
unfolding periods_after
periods_after-Follows zero year month m = (refl, tt)
periods_after-Follows (suc count) year month m = elim (Bool-cases (ltb 12 (month + 1))) [
  | inl turn ↦
      let e : month ≡ 12 = ground (arith, turn, m) in
      rw turn (
        Follows-cons year month (year + 1) 1 count _ (omega (arith, e)) (omega arith)
          (periods_after-Follows count (year + 1) 1 (omega arith)))
  | inr same ↦
      let le : month + 1 ≤ 12 = ground (arith, same, m) in
      rw same (
        Follows-cons year month year (month + 1) count _ (omega arith) (omega (arith, le))
          (periods_after-Follows count year (month + 1) (omega (arith, le))))
]

read_back : (periods : List (ℕ × ℕ)) → map parse_period (map period_text periods) ≡ map some periods
read_back [] = refl
read_back ((year, month) ∷ periods) =
    rw (parse_period-period_text year month, read_back periods) refl

-- Where the last period reads as a month of the calendar, `_next_periods` gives a list of texts. Read
-- as the function reads a period, they are the `count` months that follow it one by one, each a month
-- of the calendar again.
pub next_periods-Follows :
    (last_period : String) (count year month : ℕ)
    → parse_period last_period ≡ some (year, month)
    → IsMonth (year, month)
    → (texts : List String) × (periods : List (ℕ × ℕ)) × (next_periods last_period count
        ≡ some texts)
      × (map parse_period texts ≡ map some periods)
      × Follows (year, month) count periods
unfolding next_periods
next_periods-Follows last_period count year month e m = (
  map period_text (periods_after count year month),
  periods_after count year month,
  rw (next_periods, e) refl,
  read_back (periods_after count year month),
  periods_after-Follows count year month m,
)
