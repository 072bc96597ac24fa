-- ===== src/TimeComm/Lunar/Calendar.antt =====
-- The lunar calendar as one list of months, in which the nested loops search day by day.
use tdm.Base.{
  ℕ, zero, suc, ◌+◌, ◌-◌, ◌/◌, ◌%◌, ◌≡◌, refl, sym, ap, ◌∙◌, inl, inr, List, [], ◌∷◌, ◌++◌, ◌==◌,
  ltb, if◌then◌else◌, Bool-cases,
}
use tdm.Base.Int.{}
use tdm.Text.{}
use tdm.TimeComm.Lunar.{
  leap_of, leap_shift_of, Search, found, left, pack, else_search, try_month, month_loop, year_loop,
}

-- A month of the calendar: the number of its year, its own, 1 for a leap month, and its length.
pub record LunarMonth : Type 0 where
  pub year : ℕ
  pub month : ℕ
  pub leap : ℕ
  pub days : ℕ

abbrev pub plain : ℕ → ℕ → ℕ → LunarMonth
plain year month days = record { year = year; month = month; leap = 0; days = days }

-- The months of a year from `month` on; a leap month follows the month whose number it has.
unfoldable pub months_of : ℕ → ℕ → ℕ → ℕ → ℕ → ℕ → List LunarMonth
months_of zero year month leap shift bits = []
months_of (suc rounds) year month leap shift bits =
    let rest = months_of rounds year (month + 1) leap shift (bits / 2) in
    if month == leap
    then plain year month (bits % 2 + 29 - shift)
      ∷ record { year = year; month = month; leap = 1; days = 29 + shift }
      ∷ rest
    else plain year month (bits % 2 + 29) ∷ rest

unfoldable pub calendar : ℕ → List ℕ → List LunarMonth
calendar year [] = []
calendar year (entry ∷ entries) =
    months_of 12 year 1 (leap_of entry) (leap_shift_of entry) entry ++ calendar (year + 1) entries

-- Counting the days off, month by month.
unfoldable pub find_day : List LunarMonth → ℕ → Search
find_day [] day = left day
find_day (m ∷ ms) day =
    let rest = find_day ms (day - m.days) in
    if ltb day m.days then found (pack m.year m.month day m.leap) else rest

find_day-append :
    (ms ns : List LunarMonth) (day : ℕ)
    → find_day (ms ++ ns) day ≡ else_search (find_day ms day) (find_day ns)
unfolding find_day
find_day-append [] ns day = refl
find_day-append (m ∷ ms) ns day = elim (Bool-cases (ltb day m.days)) [
  | inl e ↦ rw e refl
  | inr e ↦ rw e (find_day-append ms ns (day - m.days))
]

-- One plain month, then what `next` does.
find_plain :
    (year month days day : ℕ) (next : ℕ → Search) (ms : List LunarMonth)
    → ((d : ℕ) → next d ≡ find_day ms d)
    → else_search (try_month year month 0 days day) next ≡ find_day (plain year month days ∷ ms) day
unfolding find_day
find_plain year month days day next ms h = elim (Bool-cases (ltb day days)) [
  | inl e ↦ rw e refl
  | inr e ↦ rw e (h (day - days))
]

-- A month, its leap month, then what `next` does.
find_leap :
    (year month days extra day : ℕ) (next : ℕ → Search) (ms : List LunarMonth)
    → ((d : ℕ) → next d ≡ find_day ms d)
    → else_search
        (try_month year month 0 days day)
        (λ d. else_search (try_month year month 1 extra d) next)
      ≡ find_day
          (plain year month days
            ∷ record { year = year; month = month; leap = 1; days = extra }
            ∷ ms)
          day
unfolding find_day
find_leap year month days extra day next ms h = elim (Bool-cases (ltb day days)) [
  | inl e ↦ rw e refl
  | inr e ↦ rw e (elim (Bool-cases (ltb (day - days) extra)) [
    | inl f ↦ rw f refl
    | inr f ↦ rw f (h (day - days - extra))
  ])
]

month_loop_lem :
    (rounds year month leap shift bits day : ℕ)
    → month_loop rounds year month leap shift bits day
      ≡ find_day (months_of rounds year month leap shift bits) day
unfolding month_loop months_of find_day
month_loop_lem zero year month leap shift bits day = refl
month_loop_lem (suc rounds) year month leap shift bits day = elim (Bool-cases (month == leap)) [
  | inl e ↦ rw e (
      find_leap year month (bits % 2 + 29 - shift) (29 + shift) day _ _
        (month_loop_lem rounds year (month + 1) leap shift (bits / 2)))
  | inr e ↦ rw e (
      find_plain year month (bits % 2 + 29) day _ _
        (month_loop_lem rounds year (month + 1) leap shift (bits / 2)))
]

else_same :
    (s : Search) (f g : ℕ → Search) → ((d : ℕ) → f d ≡ g d) → else_search s f ≡ else_search s g
else_same (found r) f g h = refl
else_same (left d) f g h = h d

pub year_loop_lem :
    (entries : List ℕ) (year day : ℕ)
    → year_loop year entries day ≡ find_day (calendar year entries) day
unfolding year_loop calendar find_day
year_loop_lem [] year day = refl
year_loop_lem (entry ∷ entries) year day =
    let ms = months_of 12 year 1 (leap_of entry) (leap_shift_of entry) entry in
    ap (λ r. else_search r (λ d. year_loop (year + 1) entries d))
      (month_loop_lem 12 year 1 (leap_of entry) (leap_shift_of entry) entry day)
    ∙ else_same (find_day ms day) _ _ (λ d. year_loop_lem entries (year + 1) d)
    ∙ sym (find_day-append ms (calendar (year + 1) entries) day)
