-- ===== src/TimeComm/Months/Valid.antt =====
-- `IsDateExt` accepts the dates of the calendar, which `AddMonths` stays among.
use tdm.Base.{
  ℕ, zero, suc, ◌+◌, ◌*◌, ◌≤◌, ◌<◌, ◌≡◌, ◌≢◌, refl, sym, subst, ◌↔◌, ◌⊎◌, inl, inr, true, ◌||◌,
  false, some, List, [], ◌∷◌, length, ◌==◌, Bool-cases, arith, if◌then◌else◌, min,
}
use tdm.Base.Int.{ℤ, pos, pos_part, neg_part, ltb_ℤ}
use tdm.Text.{}
use tdm.Text.Numbers.{atoi-two, atoi-four}
use tdm.TimeComm.Months.{table_days, is_valid, all_digits, is_date_ext, add_months}
use tdm.TimeComm.Months.Shift.{IsMonth}
use tdm.TimeComm.Months.Clamp.{
  date, days_in_month, days_bound, add_months-date, has_leap_day, is_leap_lem,
}

-- A day of the calendar.
abbrev pub IsDay : ℕ → ℕ → ℕ → Type 0
IsDay y m d = (1 ≤ y) × (IsMonth m × ((1 ≤ d) × (d ≤ days_in_month y m)))

digits_date : (y m d : ℕ) → all_digits (date y m d) ≡ true
digits_date y m d = ground arith

is_date_ext_numbers :
    (y m d : ℕ)
    → y < 10000
    → m < 100
    → d < 100
    → is_date_ext (date y m d) ≡ is_valid (pos y) (pos m) (pos d)
unfolding is_date_ext
is_date_ext_numbers y m d hy hm hd =
    let all = digits_date y m d in
    let fy = atoi-four y hy in
    let fm = atoi-two m hm in let fd = atoi-two d hd in rw (all, fy, fm, fd) refl

abbrev plain_days : ℕ → ℕ
plain_days m =
    if m == 2 then 28 else if ((m == 4) || (m == 6)) || ((m == 9) || (m == 11)) then 30 else 31

table_lem : (m : ℕ) → IsMonth m → table_days (pos m) ≡ some (plain_days m)
table_lem zero h = absurd (omega arith)
table_lem (suc zero) h = refl
table_lem (suc (suc zero)) h = refl
table_lem (suc (suc (suc zero))) h = refl
table_lem (suc (suc (suc (suc zero)))) h = refl
table_lem (suc (suc (suc (suc (suc zero))))) h = refl
table_lem (suc (suc (suc (suc (suc (suc zero)))))) h = refl
table_lem (suc (suc (suc (suc (suc (suc (suc zero))))))) h = refl
table_lem (suc (suc (suc (suc (suc (suc (suc (suc zero)))))))) h = refl
table_lem (suc (suc (suc (suc (suc (suc (suc (suc (suc zero))))))))) h = refl
table_lem (suc (suc (suc (suc (suc (suc (suc (suc (suc (suc zero)))))))))) h = refl
table_lem (suc (suc (suc (suc (suc (suc (suc (suc (suc (suc (suc zero))))))))))) h = refl
table_lem (suc (suc (suc (suc (suc (suc (suc (suc (suc (suc (suc (suc zero)))))))))))) h = refl
table_lem (suc (suc (suc (suc (suc (suc (suc (suc (suc (suc (suc (suc (suc m))))))))))))) h =
    absurd (omega arith)

on_month : (y m d : ℕ) → IsMonth m → (is_valid (pos y) (pos m) (pos d) ≡ true) ↔ IsDay y m d
on_month y m d h = elim (Bool-cases (has_leap_day y)) [
  | inl e ↦ rw (table_lem m h, is_leap_lem y, e) (λ x. ground arith, λ x. ground arith)
  | inr e ↦ rw (table_lem m h, is_leap_lem y, e) (λ x. ground arith, λ x. ground arith)
]

off_month :
    (y m d : ℕ) → (m < 1) ⊎ (12 < m) → (is_valid (pos y) (pos m) (pos d) ≡ true) ↔ IsDay y m d
off_month y m d h =
    let out : (ltb_ℤ (pos m) (pos 1) || ltb_ℤ (pos 12) (pos m)) ≡ true = ground arith in
    rw out (λ x. ground arith, λ x. absurd (omega (arith, x.1.0)))

is_valid_iff : (y m d : ℕ) → (is_valid (pos y) (pos m) (pos d) ≡ true) ↔ IsDay y m d
is_valid_iff y m d = elim (month_or_not) [ inl h ↦ on_month y m d h | inr h ↦ off_month y m d h ]
  where
    month_or_not : IsMonth m ⊎ ((m < 1) ⊎ (12 < m))
    month_or_not = omega arith

-- Every character is one from `0` to `9`.
abbrev pub AllDigits : List ℕ → Type 0
AllDigits [] = Unit
AllDigits (c ∷ cs) = ((48 ≤ c) × (c ≤ 57)) × AllDigits cs

pub all_digits-AllDigits : (s : List ℕ) → all_digits s ≡ true → AllDigits s
all_digits-AllDigits [] h = tt
all_digits-AllDigits (c ∷ cs) h = (ground arith, all_digits-AllDigits cs (ground arith))

is_date_ext-digits : (s : List ℕ) → is_date_ext s ≡ true → (length s ≡ 8) × AllDigits s
unfolding is_date_ext
is_date_ext-digits s h = elim (Bool-cases (length s == 8)) [
  | inl e ↦ elim (Bool-cases (all_digits s)) [
    | inl a ↦ (ground arith, all_digits-AllDigits s a)
    | inr a ↦ absurd (let no : is_date_ext s ≡ false = rw (e, a) refl in cc)
  ]
  | inr e ↦ absurd (let no : is_date_ext s ≡ false = rw e refl in cc)
]

date_ext_iff :
    (y m d : ℕ) → y < 10000 → m < 100 → d < 100 → (is_date_ext (date y m d) ≡ true) ↔ IsDay y m d
date_ext_iff y m d hy hm hd =
    subst (λ b. (b ≡ true) ↔ IsDay y m d) (sym (is_date_ext_numbers y m d hy hm hd))
      (is_valid_iff y m d)

-- `IsDateExt` accepts only texts of eight digits; and on a text `yyyymmdd` of digits it accepts
-- exactly the days of the Gregorian calendar from the year 1 on.
pub is_date_ext_iff :
    (s : List ℕ) (y m d : ℕ)
    → y < 10000
    → m < 100
    → d < 100
    → (is_date_ext s ≡ true → (length s ≡ 8) × AllDigits s)
      × ((is_date_ext (date y m d) ≡ true) ↔ IsDay y m d)
is_date_ext_iff s y m d hy hm hd = (is_date_ext-digits s, date_ext_iff y m d hy hm hd)

-- `AddMonths` of a day of the calendar, and of a number of months, not 0, that leads to a month of a
-- year from 1 to 9999, returns a text that `IsDateExt` accepts.
pub is_date_ext-add_months :
    (n : ℤ) (y m d y' m' : ℕ)
    → y < 10000
    → IsDay y m d
    → n ≢ pos 0
    → (1 ≤ y') × (y' < 10000)
    → IsMonth m'
    → y' * 12 + m' + neg_part n ≡ y * 12 + m + pos_part n
    → (s : List ℕ) × ((add_months (date y m d) n ≡ some s) × (is_date_ext s ≡ true))
is_date_ext-add_months n y m d y' m' hy h ne hy' h' e =
    let day = min d (days_in_month y' m') in
    let b = days_bound y m in
    let b' = days_bound y' m' in
    (
      date y' m' day,
      (
        (add_months-date n y m d y' m' hy h.1.0 (h.1.1.0, omega arith) ne hy'.1 h' e).0,
        (date_ext_iff y' m' day hy'.1 (omega arith) (omega arith)).1
            (hy'.0, (h', (omega arith, omega arith))),
      ),
    )
