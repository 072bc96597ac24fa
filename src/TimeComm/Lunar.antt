-- ===== src/TimeComm/Lunar.antt =====
-- `SolarDay2LunarDay` of src/timecomm.c: the table of the lunar months, searched by nested loops.
-- `GetTimet` calls the C library's `mktime`, and is a parameter.
pub mod Calendar
pub mod Days
use tdm.Base.{
  ℕ, zero, suc, ◌+◌, ◌-◌, ◌*◌, ◌/◌, ◌%◌, ◌^◌, Bool, true, false, ◌||◌, Option, none, some, List, [],
  ◌∷◌, ◌++◌, ◌==◌, ltb, leb, if◌then◌else◌,
}
use tdm.Base.Int.{ℤ, pos, negsuc, ◌-ℤ◌}
use tdm.Text.{negate, format}

-- `gaiDateTable`.
unfoldable pub date_table : List ℕ
date_table =
    24402 ∷ 3730 ∷ 3366 ∷ 13614 ∷ 2647 ∷ 35542 ∷ 858 ∷ 1749 ∷ 23401 ∷ 1865 ∷ 1683 ∷ 19099 ∷ 1323
    ∷ 2651 ∷ 10926 ∷ 1386 ∷ 32213 ∷ 2980 ∷ 2889 ∷ 23891 ∷ 2709 ∷ 1325 ∷ 17757 ∷ 2741 ∷ 39850 ∷ 1490
    ∷ 3493 ∷ 61098 ∷ 3402 ∷ 3221 ∷ 19102 ∷ 1366 ∷ 2773 ∷ 10970 ∷ 1746 ∷ 26469 ∷ 1829 ∷ 1611 ∷ 22103
    ∷ 3243 ∷ 1370 ∷ 13678 ∷ 2902 ∷ 48978 ∷ 2898 ∷ 2853 ∷ 60715 ∷ 2635 ∷ 1195 ∷ 21179 ∷ 1453 ∷ 2922
    ∷ 11690 ∷ 3474 ∷ 32421 ∷ 3365 ∷ 2645 ∷ 55901 ∷ 1206 ∷ 1461 ∷ 14038 ∷ []

-- `leap` and `leapShift` of an entry of the table.
abbrev pub leap_of : ℕ → ℕ
leap_of entry = let leap = entry / 2 ^ 12 in if leb leap 12 then leap else leap % 8

abbrev pub leap_shift_of : ℕ → ℕ
leap_shift_of entry = if leb (entry / 2 ^ 12) 12 then 0 else 1

-- A loop that has found `iResult`, or that goes on with what is left of `iDayLeave`.
pub data Search : Type 0 where
  found : ℕ → Search
  left : ℕ → Search

abbrev pub pack : ℕ → ℕ → ℕ → ℕ → ℕ
pack loop month day leap_bit = loop * 2 ^ 9 + month * 2 ^ 5 + day + 1 + leap_bit * 2 ^ 21

abbrev pub else_search : Search → (ℕ → Search) → Search
else_search (found r) next = found r
else_search (left d) next = next d

-- One test of `iDayLeave < count`.
abbrev pub try_month : ℕ → ℕ → ℕ → ℕ → ℕ → Search
try_month loop month leap_bit count day =
    if ltb day count then found (pack loop month day leap_bit) else left (day - count)

-- The inner loop, with `rounds` months to go; `bits` is `bigSmallDist`.
unfoldable pub month_loop : ℕ → ℕ → ℕ → ℕ → ℕ → ℕ → ℕ → Search
month_loop zero loop month leap shift bits day = left day
month_loop (suc rounds) loop month leap shift bits day =
    let count = if month == leap then bits % 2 + 29 - shift else bits % 2 + 29 in
    else_search (try_month loop month 0 count day) (λ d.
      else_search (if month == leap then try_month loop month 1 (29 + shift) d else left d)
        (λ e. month_loop rounds loop (month + 1) leap shift (bits / 2) e))

-- The outer loop over the rest of the table, from `iLoop`.
unfoldable pub year_loop : ℕ → List ℕ → ℕ → Search
year_loop loop [] day = left day
year_loop loop (entry ∷ entries) day =
    else_search (month_loop 12 loop 1 (leap_of entry) (leap_shift_of entry) entry day)
      (λ d. year_loop (loop + 1) entries d)

-- The text of `iResult`.
unfoldable pub print_lunar : ℕ → List ℕ
print_lunar r =
    format 4 (pos (r / 2 ^ 9 % 2 ^ 12))
    ++ format 2 (pos (r / 2 ^ 5 % 2 ^ 4))
    ++ format 2 (pos (r % 2 ^ 5))
    ++ format 1 (pos (r / 2 ^ 21 % 2))

abbrev pub printed : Search → Option (List ℕ)
printed (found r) = some (print_lunar r)
printed (left d) = none

unfoldable pub lunar_of_day_left : ℤ → Option (List ℕ)
lunar_of_day_left (negsuc n) = none
lunar_of_day_left (pos d) = if ltb 22295 d then none else printed (year_loop 0 date_table d)

-- `GetTimet(solarDay) / (24 * 3600)`, towards zero.
abbrev pub days_of : ℤ → ℤ
days_of (pos t) = pos (t / 86400)
days_of (negsuc t) = negate (suc t / 86400)

unfoldable pub solar_day_to_lunar_day : (List ℕ → ℤ) → List ℕ → Option (List ℕ)
solar_day_to_lunar_day timet solar_day = lunar_of_day_left (days_of (timet solar_day) -ℤ pos 7330)
