-- ===== src/TimeComm/Months/Clamp.antt =====
-- What `AddMonths` returns for a valid date, and `DiffMonths` of the two.
use tdm.Base.{
  ℕ, zero, suc, ◌+◌, ◌*◌, ◌%◌, ◌≤◌, ◌<◌, ◌≡◌, ◌≢◌, refl, ap, ap₂, ◌∙◌, Bool, true, false, ◌||◌,
  some, List, ◌++◌, ◌==◌, arith, if◌then◌else◌, drop, min,
}
use tdm.Base.Int.{ℤ, pos, negsuc, ◌+ℤ◌, ◌-ℤ◌, ◌*ℤ◌, pos_part, neg_part, ltb_ℤ}
use tdm.Text.{}
use tdm.Text.Numbers.{two, four, format-two, format-four, atoi-two, atoi-four, atoi-six}
use tdm.TimeComm.Months.{
  YearMonth, shift, is_leap, clamp_day, print_day, parse, day_of, at_most, land, add_months,
  diff_months,
}
use tdm.TimeComm.Months.Shift.{IsMonth, at, shift_months}

-- The Gregorian rule: every fourth year, but of the full centuries every fourth only.
abbrev pub has_leap_day : ℕ → Bool
has_leap_day y = if (y % 400) == 0 then true else if (y % 100) == 0 then false else (y % 4) == 0

pub is_leap_lem : (y : ℕ) → is_leap (pos y) ≡ has_leap_day y
is_leap_lem y = ground arith

-- The length of a month in the Gregorian calendar.
abbrev pub days_in_month : ℕ → ℕ → ℕ
days_in_month y m =
    if m == 2
    then (if has_leap_day y then 29 else 28)
    else if ((m == 4) || (m == 6)) || ((m == 9) || (m == 11))
    then 30
    else 31

-- The text of a date.
abbrev pub date : ℕ → ℕ → ℕ → List ℕ
date y m d = (four y ++ two m) ++ two d

at_most_lem : (k d : ℕ) → at_most k (pos d) ≡ pos (min d k)
at_most_lem k d = ground arith

clamp_february :
    (leap : Bool) (d : ℕ)
    → (if leap then some (at_most 29 (pos d)) else some (at_most 28 (pos d)))
      ≡ some (pos (min d (if leap then 29 else 28)))
clamp_february true d = ap some (at_most_lem 29 d)
clamp_february false d = ap some (at_most_lem 28 d)

clamp_day_lem :
    (m y d : ℕ) → IsMonth m → clamp_day (at y m) (pos d) ≡ some (pos (min d (days_in_month y m)))
clamp_day_lem zero y d h = absurd (omega (arith, h))
clamp_day_lem (suc zero) y d h = ap some (at_most_lem 31 d)
clamp_day_lem (suc (suc zero)) y d h = rw (is_leap_lem y) (clamp_february (has_leap_day y) d)
clamp_day_lem (suc (suc (suc zero))) y d h = ap some (at_most_lem 31 d)
clamp_day_lem (suc (suc (suc (suc zero)))) y d h = ap some (at_most_lem 30 d)
clamp_day_lem (suc (suc (suc (suc (suc zero))))) y d h = ap some (at_most_lem 31 d)
clamp_day_lem (suc (suc (suc (suc (suc (suc zero)))))) y d h = ap some (at_most_lem 30 d)
clamp_day_lem (suc (suc (suc (suc (suc (suc (suc zero))))))) y d h = ap some (at_most_lem 31 d)
clamp_day_lem (suc (suc (suc (suc (suc (suc (suc (suc zero)))))))) y d h =
    ap some (at_most_lem 31 d)
clamp_day_lem (suc (suc (suc (suc (suc (suc (suc (suc (suc zero))))))))) y d h =
    ap some (at_most_lem 30 d)
clamp_day_lem (suc (suc (suc (suc (suc (suc (suc (suc (suc (suc zero)))))))))) y d h =
    ap some (at_most_lem 31 d)
clamp_day_lem (suc (suc (suc (suc (suc (suc (suc (suc (suc (suc (suc zero))))))))))) y d h =
    ap some (at_most_lem 30 d)
clamp_day_lem (suc (suc (suc (suc (suc (suc (suc (suc (suc (suc (suc (suc zero)))))))))))) y d h =
    ap some (at_most_lem 31 d)
clamp_day_lem (suc (suc (suc (suc (suc (suc (suc (suc (suc (suc (suc (suc (suc m))))))))))))) y d
      h =
    absurd (omega arith)

parse-date : (y m d : ℕ) → y < 10000 → IsMonth m → parse (date y m d) ≡ at y m
parse-date y m d hy h =
    let six = atoi-six y m hy (omega arith) in
    let month = atoi-two m (omega arith) in rw (six, month) (ap (λ k. at k m) (omega arith))

day_of-date : (y m d : ℕ) → d < 100 → day_of (drop 6 (date y m d)) ≡ pos d
day_of-date y m d h = atoi-two d h

print-date :
    (y m d : ℕ)
    → y < 10000
    → IsMonth m
    → d < 100
    → print_day (at y m) (some (pos d)) ≡ some (date y m d)
print-date y m d hy h hd =
    let fy = format-four y hy in
    let fm = format-two m (omega arith) in let fd = format-two d hd in rw (fy, fm, fd) refl

pub days_bound : (y m : ℕ) → (28 ≤ days_in_month y m) × (days_in_month y m ≤ 31)
days_bound y m = ground arith

add_months-land :
    (n : ℤ) (y m d : ℕ) (to : YearMonth)
    → y < 10000
    → IsMonth m
    → (1 ≤ d) × (d ≤ 31)
    → n ≢ pos 0
    → shift n (at y m) ≡ to
    → add_months (date y m d) n ≡ land to (pos d)
unfolding add_months
add_months-land (pos zero) y m d to hy h hd ne e = absurd (ne refl)
add_months-land (pos (suc n)) y m d to hy h hd ne e =
    ap₂ land (ap (shift (pos (suc n))) (parse-date y m d hy h) ∙ e)
      (day_of-date y m d (omega arith))
add_months-land (negsuc n) y m d to hy h hd ne e =
    ap₂ land (ap (shift (negsuc n)) (parse-date y m d hy h) ∙ e) (day_of-date y m d (omega arith))

land_day : (to : YearMonth) (d : ℕ) → 1 ≤ d → land to (pos d) ≡ print_day to (clamp_day to (pos d))
unfolding land
land_day to d h = let there : ltb_ℤ (pos 0) (pos d) ≡ true = ground arith in rw there refl

difference :
    (n : ℤ) (y m y' m' : ℕ)
    → y' * 12 + m' + neg_part n ≡ y * 12 + m + pos_part n
    → ((pos y' -ℤ pos y) *ℤ pos 12) +ℤ (pos m' -ℤ pos m) ≡ n
unfolding ◌+ℤ◌ ◌-ℤ◌ ◌*ℤ◌
difference n y m y' m' e = ground arith

diff_months-date :
    (n : ℤ) (y m d y' m' d' : ℕ)
    → y < 10000
    → IsMonth m
    → y' < 10000
    → IsMonth m'
    → y' * 12 + m' + neg_part n ≡ y * 12 + m + pos_part n
    → diff_months (date y m d) (date y' m' d') ≡ n
unfolding diff_months
diff_months-date n y m d y' m' d' hy h hy' h' e =
    let fy = atoi-four y hy in
    let fy' = atoi-four y' hy' in
    let fm = atoi-two m (omega arith) in
    let fm' = atoi-two m' (omega arith) in rw (fy, fy', fm, fm') (difference n y m y' m' e)

-- `AddMonths` of a text `yyyymmdd` with a month from 1 to 12 and a day from 1 to 31, and of a number
-- of months, not 0, that leads to the month `m'` of a year `y'` before 10000, is the text of that
-- month with the same day, or with the last day of that month if it is shorter; `DiffMonths` of the
-- two texts is that number of months.
pub add_months-date :
    (n : ℤ) (y m d y' m' : ℕ)
    → y < 10000
    → IsMonth m
    → (1 ≤ d) × (d ≤ 31)
    → n ≢ pos 0
    → y' < 10000
    → IsMonth m'
    → y' * 12 + m' + neg_part n ≡ y * 12 + m + pos_part n
    → (add_months (date y m d) n ≡ some (date y' m' (min d (days_in_month y' m'))))
      × (diff_months (date y m d) (date y' m' (min d (days_in_month y' m'))) ≡ n)
add_months-date n y m d y' m' hy h hd ne hy' h' e =
    let day = min d (days_in_month y' m') in
    let (low, high) = days_bound y' m' in
    (
      add_months-land n y m d (at y' m') hy h hd ne (shift_months n y m y' m' h h' e)
          ∙ land_day (at y' m') d hd.0
          ∙ ap (print_day (at y' m')) (clamp_day_lem m' y' d h')
          ∙ print-date y' m' day hy' h' (omega arith),
      diff_months-date n y m d y' m' day hy h hy' h' e,
    )
