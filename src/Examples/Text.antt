-- ===== src/Examples/Text.antt =====
-- Bytes as hexadecimal digits, dates, spans of time, and frames.
use tdm.Base.{
  ℕ, ◌%◌, ◌≤◌, ◌<◌, ◌≢◌, ◌≡◌, ◌↔◌, ◌⊎◌, refl, true, false, none, some, List, [], ◌∷◌, ◌++◌, length,
  min, arith,
}
use tdm.Base.Int.{ℤ, pos, negsuc, ◌≤ℤ◌}
use tdm.Hex.{str2hex, hex_string, hex2string}
use tdm.Hex.Digits.{}
use tdm.Hex.RoundTrip.{str2hex-hex2string}
use tdm.TimeComm.Months.{add_months, diff_months, is_date_ext}
use tdm.TimeComm.Months.Clamp.{date, days_in_month, add_months-date}
use tdm.TimeComm.Months.Valid.{IsDay, AllDigits, is_date_ext_iff}
use tdm.TimeComm.Lunar.{date_table, lunar_of_day_left}
use tdm.TimeComm.Lunar.Calendar.{calendar}
use tdm.TimeComm.Lunar.Days.{Position, print_month, lunar_of_day_left-calendar}
use tdm.TimeComm.Intervals.{get_time_intersection, get_time_union}
use tdm.TimeComm.Intervals.Overlap.{Within, get_time_intersection-Within, get_time_union-Within}
use tdm.Trim.{all_trim, trim_loop, trim_step}
use tdm.Trim.InPlace.{trim_left, trim_right, all_trim_lem}
use tdm.TimeComm.Intervals.{}
use tdm.TimeComm.Months.{all_digits}
use tdm.TimeComm.Checks.{is_date}
use tdm.TimeComm.Checks.Ranges.{is_date_iff}
use tdm.TimeComm.Checks.Precision.{}
use tdm.Refusal.{Allocation}
use tdm.Refusal.Report.{}
use tdm.Frames.{}
use tdm.Frames.Packing.{}
use tdm.Frames.Web.{}

str2hex-hex2string_example :
    let text = hex_string (18 ∷ 171 ∷ []) in
    (hex2string (18 ∷ 171 ∷ []) 2 ≡ record { dst = text ++ 0 ∷ []; ret = 4 })
    × (length text ≡ 4)
    × (str2hex text 4 ≡ record { dst = 18 ∷ 171 ∷ []; ret = 1 })
str2hex-hex2string_example = str2hex-hex2string 18 (171 ∷ []) (omega arith, (omega arith, tt))

-- From 31 January 2024, one month on, and two back.
add_months-date_example :
    (add_months (date 2024 1 31) (pos 1) ≡ some (date 2024 2 (min 31 (days_in_month 2024 2))))
    × (diff_months (date 2024 1 31) (date 2024 2 (min 31 (days_in_month 2024 2))) ≡ pos 1)
add_months-date_example =
    add_months-date (pos 1) 2024 1 31 2024 2 (omega arith) (omega arith, omega arith)
      (omega arith, omega arith) (λ e. absurd cc) (omega arith) (omega arith, omega arith) refl

is_date_ext_iff_example :
    (is_date_ext (date 1900 2 28) ≡ true
      → (length (date 1900 2 28) ≡ 8) × AllDigits (date 1900 2 28))
    × ((is_date_ext (date 1900 2 29) ≡ true) ↔ IsDay 1900 2 29)
is_date_ext_iff_example =
    is_date_ext_iff (date 1900 2 28) 1900 2 29 (omega arith) (omega arith) (omega arith)

lunar_of_day_left-calendar_example :
    (((400 < 22295)
        × ((p : Position (calendar 0 date_table) 400) × (lunar_of_day_left (pos 400)
              ≡ some (print_month p.at p.k))))
      ⊎ ((22295 ≤ 400) × (lunar_of_day_left (pos 400) ≡ none)))
    × (lunar_of_day_left (negsuc 400) ≡ none)
lunar_of_day_left-calendar_example = lunar_of_day_left-calendar 400

-- A clock that reads a text of one character as that many seconds.
abbrev clock : List ℕ → ℤ
clock [] = pos 0
clock (c ∷ cs) = pos c

abbrev show : ℤ → List ℕ
show (pos n) = n ∷ []
show (negsuc n) = []

abbrev second : ℕ → List ℕ
second n = n ∷ []

get_time_intersection-Within_example :
    (((get_time_intersection clock show (second 9) (second 2) (second 5) (second 12) true true).ret
        ≡ true)
      × (((pos 9 ≢ pos 2) × (pos 5 ≢ pos 12))
          × ((from to : ℤ) × ((get_time_intersection clock show
                    (second 9)
                    (second 2)
                    (second 5)
                    (second 12)
                    true
                    true
                  ≡ record { ret = true; begin_time = some (show from); end_time = some (show to) })
                × ((from ≤ℤ to)
                    × ((x : ℤ)
                        → ((from ≤ℤ x) × (x ≤ℤ to))
                          ↔ (Within x (pos 9) (pos 2) × Within x (pos 5) (pos 12))))))))
    ⊎ (((get_time_intersection clock show
            (second 9)
            (second 2)
            (second 5)
            (second 12)
            true
            true).ret
          ≡ false)
        × (((x : ℤ) → ¬ (Within x (pos 9) (pos 2) × Within x (pos 5) (pos 12)))
            ⊎ ((pos 9 ≡ pos 2) ⊎ (pos 5 ≡ pos 12))))
get_time_intersection-Within_example =
    get_time_intersection-Within clock show (second 9) (second 2) (second 5) (second 12)

get_time_union-Within_example :
    (((get_time_union clock show (second 9) (second 2) (second 5) (second 12) true true).ret ≡ true)
      × ((from to : ℤ) × ((get_time_union clock show
                (second 9)
                (second 2)
                (second 5)
                (second 12)
                true
                true
              ≡ record { ret = true; begin_time = some (show from); end_time = some (show to) })
            × ((x : ℤ)
                → ((from ≤ℤ x) × (x ≤ℤ to))
                  ↔ (Within x (pos 9) (pos 2) ⊎ Within x (pos 5) (pos 12))))))
    ⊎ (((get_time_union clock show (second 9) (second 2) (second 5) (second 12) true true).ret
          ≡ false)
        × ((x : ℤ) → ¬ (Within x (pos 9) (pos 2) × Within x (pos 5) (pos 12))))
get_time_union-Within_example =
    get_time_union-Within clock show (second 9) (second 2) (second 5) (second 12)

abbrev spaced : List ℕ
spaced = 32 ∷ 32 ∷ b'a' ∷ 32 ∷ b'b' ∷ 32 ∷ []

spaced_trimmed : all_trim spaced ≡ b'a' ∷ 32 ∷ b'b' ∷ []
unfolding all_trim trim_loop trim_step
spaced_trimmed = refl

all_trim_lem_example : all_trim spaced ≡ trim_right (trim_left spaced)
all_trim_lem_example = all_trim_lem spaced

abbrev midnight : List ℕ
midnight = b'0' ∷ b'0' ∷ []

abbrev six_digits : List ℕ
six_digits = b'2' ∷ b'0' ∷ b'2' ∷ b'4' ∷ b'0' ∷ b'2' ∷ []

is_date_iff_example :
    ((is_date (date 2024 2 31 ++ midnight) ≡ true) ↔ (
      ((length midnight % 2 ≡ 0) × (all_digits midnight ≡ true))
      × (((1900 ≤ 2024) × (2024 ≤ 2999)) × (((1 ≤ 2) × (2 ≤ 12)) × ((1 ≤ 31) × (31 ≤ 31))))))
    × ((is_date six_digits ≡ false) × ((s : List ℕ) → is_date s ≡ true → AllDigits s))
is_date_iff_example =
    is_date_iff 2024 2 31 midnight six_digits (omega arith) (omega arith) (omega arith)
      (omega arith)

abbrev allocation : Allocation
allocation = record { result = pos 0; factory_flag = pos 0; server_info = b'1' ∷ b'0' ∷ [] }
