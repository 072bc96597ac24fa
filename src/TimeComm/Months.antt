-- ===== src/TimeComm/Months.antt =====
-- `AddMonths` and `DiffMonths` of src/timecomm.c.
pub mod Clamp
pub mod Shift
pub mod Valid
use tdm.Base.{
  ℕ, zero, suc, ◌+◌, ◌-◌, ◌*◌, ◌/◌, ◌%◌, Bool, true, false, not, ◌&&◌, ◌||◌, Option, none, some,
  List, [], ◌∷◌, ◌++◌, ◌==◌, leb, if◌then◌else◌, length, take, drop, get_elem?,
}
use tdm.Base.Int.{ℤ, pos, negsuc, ◌+ℤ◌, ◌-ℤ◌, ◌*ℤ◌, pos_part, neg_part, leb_ℤ, ltb_ℤ, eqb_ℤ}
use tdm.Text.{is_digit, negate, atoi, format}

-- Division of an `int` by a positive constant, towards zero.
abbrev pub quot : ℤ → ℕ → ℤ
quot (pos n) k = pos (n / k)
quot (negsuc n) k = negate (suc n / k)

-- `Months`: the days of each month; February is looked up only outside a leap year.
abbrev pub month_table : List ℕ
month_table = 31 ∷ 28 ∷ 31 ∷ 30 ∷ 31 ∷ 30 ∷ 31 ∷ 31 ∷ 30 ∷ 31 ∷ 30 ∷ 31 ∷ []

-- `iYear%4==0 && iYear%100!=0 || iYear%400==0`; a remainder is zero whatever the sign.
abbrev pub is_leap : ℤ → Bool
is_leap y =
    let n = pos_part y + neg_part y in (((n % 4) == 0) && not ((n % 100) == 0)) || ((n % 400) == 0)

-- `iYear` and `iMonth`.
pub record YearMonth : Type 0 where
  pub year : ℤ
  pub month : ℤ

-- One round of each loop.
abbrev pub next_month : YearMonth → YearMonth
next_month d =
    let m = d.month +ℤ pos 1 in
    if eqb_ℤ m (pos 13)
    then record { year = d.year +ℤ pos 1; month = pos 1 }
    else record { year = d.year; month = m }

abbrev pub previous_month : YearMonth → YearMonth
previous_month d =
    let m = d.month -ℤ pos 1 in
    if eqb_ℤ m (pos 0)
    then record { year = d.year -ℤ pos 1; month = pos 12 }
    else record { year = d.year; month = m }

unfoldable pub repeat : ℕ → (YearMonth → YearMonth) → YearMonth → YearMonth
repeat zero f d = d
repeat (suc n) f d = repeat n f (f d)

abbrev pub shift : ℤ → YearMonth → YearMonth
shift (pos n) d = repeat n next_month d
shift (negsuc n) d = repeat (suc n) previous_month d

-- `Months[iMonth-1]`, which is there for the months 1 to 12.
abbrev pub table_days : ℤ → Option ℕ
table_days (pos zero) = none
table_days (pos (suc m)) = get_elem? month_table m
table_days (negsuc m) = none

abbrev pub at_most : ℕ → ℤ → ℤ
at_most k d = if ltb_ℤ (pos k) d then pos k else d

abbrev pub at_most_found : Option ℕ → ℤ → Option ℤ
at_most_found none d = none
at_most_found (some k) d = some (at_most k d)

-- The day in the month that the date lands in.
abbrev pub clamp_day : YearMonth → ℤ → Option ℤ
clamp_day d day =
    if eqb_ℤ d.month (pos 2) && is_leap d.year
    then some (at_most 29 day)
    else if eqb_ℤ d.month (pos 2)
    then some (at_most 28 day)
    else at_most_found (table_days d.month) day

abbrev pub print_day : YearMonth → Option ℤ → Option (List ℕ)
print_day d none = none
print_day d (some day) = some (format 4 d.year ++ format 2 d.month ++ format 2 day)

-- `sDate[6]!=0`, and `atoi(sDate+6)`; without a day it is 0.
abbrev pub day_of : List ℕ → ℤ
day_of [] = pos 0
day_of (c ∷ cs) = atoi (c ∷ cs)

abbrev pub parse : List ℕ → YearMonth
parse s = record { year = quot (atoi (take 6 s)) 100; month = atoi (drop 4 (take 6 s)) }

-- The month, and the day if there was one; `none` for a read outside `Months`.
unfoldable pub land : YearMonth → ℤ → Option (List ℕ)
land d day =
    if ltb_ℤ (pos 0) day
    then print_day d (clamp_day d day)
    else some (format 4 d.year ++ format 2 d.month)

-- `AddMonths` on a text of at least six characters.
unfoldable pub add_months : List ℕ → ℤ → Option (List ℕ)
add_months s (pos zero) = some s
add_months s (pos (suc n)) = land (shift (pos (suc n)) (parse s)) (day_of (drop 6 s))
add_months s (negsuc n) = land (shift (negsuc n) (parse s)) (day_of (drop 6 s))

unfoldable pub diff_months : List ℕ → List ℕ → ℤ
diff_months begin end =
    ((atoi (take 4 end) -ℤ atoi (take 4 begin)) *ℤ pos 12)
    +ℤ (atoi (take 2 (drop 4 end)) -ℤ atoi (take 2 (drop 4 begin)))

abbrev pub all_digits : List ℕ → Bool
all_digits [] = true
all_digits (c ∷ cs) = is_digit c && all_digits cs

abbrev pub is_within : Option ℕ → ℤ → Bool
is_within none d = false
is_within (some k) d = not (leb_ℤ d (pos 0) || ltb_ℤ (pos k) d)

-- The tests of `IsDateExt` on the numbers; `Months` is read for a month from 1 to 12 only.
abbrev pub is_valid : ℤ → ℤ → ℤ → Bool
is_valid y m d =
    if eqb_ℤ y (pos 0)
    then false
    else if ltb_ℤ m (pos 1) || ltb_ℤ (pos 12) m
    then false
    else if is_leap y && eqb_ℤ m (pos 2)
    then is_within (some 29) d
    else is_within (table_days m) d

-- `IsDateExt`.
unfoldable pub is_date_ext : List ℕ → Bool
is_date_ext s =
    if not (length s == 8)
    then false
    else if not (all_digits s)
    then false
    else is_valid (atoi (take 4 s)) (atoi (take 2 (drop 4 s))) (atoi (take 2 (drop 6 s)))
