-- ===== src/TimeComm/Lunar/Days.antt =====
-- Where in the lunar calendar a day lies.
use tdm.Base.{
  ℕ, ◌+◌, ◌-◌, ◌/◌, ◌%◌, ◌^◌, ◌≤◌, ◌<◌, ◌≡◌, refl, ap, ap₂, ◌∙◌, subst, ◌⊎◌, inl, inr, Bool, true,
  false, ◌&&◌, none, some, List, [], ◌∷◌, ◌++◌, ltb, leb, arith, Bool-cases, ltb→lt,
}
use tdm.Base.Int.{pos, negsuc}
use tdm.Text.{format}
use tdm.TimeComm.Lunar.{date_table, found, left, pack, print_lunar, printed, lunar_of_day_left}
use tdm.TimeComm.Lunar.Calendar.{LunarMonth, months_of, calendar, find_day, year_loop_lem}

unfoldable pub total : List LunarMonth → ℕ
total [] = 0
total (m ∷ ms) = m.days + total ms

-- The day `k` of the month `m`, `day` days after the first of the list.
pub record Position (ms : List LunarMonth) (day : ℕ) : Type 0 where
  pub before : List LunarMonth
  pub at : LunarMonth
  pub after : List LunarMonth
  pub k : ℕ
  pub split : ms ≡ before ++ at ∷ after
  pub within : k < at.days
  pub count : day ≡ total before + k

position :
    (ms : List LunarMonth) (day : ℕ)
    → day < total ms
    → (p : Position ms day) × (find_day ms day ≡ found (pack p.at.year p.at.month p.k p.at.leap))
unfolding find_day total
position [] day h = absurd (omega arith)
position (m ∷ ms) day h = elim (Bool-cases (ltb day m.days)) [
  | inl e ↦ (
    record {
      before = [];
      at = m;
      after = ms;
      k = day;
      split = refl;
      within = ground arith;
      count = omega arith;
    },
    rw e refl,
  )
  | inr e ↦
      let (p, f) = position ms (day - m.days) (ground arith) in
      (
        record {
          before = m ∷ p.before;
          at = p.at;
          after = p.after;
          k = p.k;
          split = ap (λ r. m ∷ r) p.split;
          within = p.within;
          count = let c = p.count in ground arith;
        },
        rw e f,
      )
]

-- What fits in the bit fields of `iResult`.
abbrev fits : LunarMonth → Bool
fits m = (ltb m.year 4096 && ltb m.month 16) && (ltb m.leap 2 && leb m.days 30)

all_fit : List LunarMonth → Bool
all_fit [] = true
all_fit (m ∷ ms) = fits m && all_fit ms

calendar_fits : all_fit (calendar 0 date_table) ≡ true
unfolding all_fit calendar months_of date_table
calendar_fits = refl

pub total-calendar : total (calendar 0 date_table) ≡ 22295
unfolding total calendar months_of date_table
total-calendar = refl

fits_at :
    (before after : List LunarMonth) (m : LunarMonth)
    → all_fit (before ++ m ∷ after) ≡ true
    → fits m ≡ true
unfolding all_fit
fits_at [] after m h = ground arith
fits_at (b ∷ before) after m h = fits_at before after m (ground arith)

abbrev pub print_month : LunarMonth → ℕ → List ℕ
print_month m k =
    format 4 (pos m.year)
    ++ format 2 (pos m.month)
    ++ format 2 (pos (k + 1))
    ++ format 1 (pos m.leap)

fields :
    (y m k l : ℕ)
    → y < 4096
    → m < 16
    → l < 2
    → k < 30
    → ((pack y m k l / 2 ^ 9 % 2 ^ 12 ≡ y) × (pack y m k l / 2 ^ 5 % 2 ^ 4 ≡ m))
      × ((pack y m k l % 2 ^ 5 ≡ k + 1) × (pack y m k l / 2 ^ 21 % 2 ≡ l))
fields y m k l hy hm hl hk = ((omega arith, omega arith), (omega arith, omega arith))

unpack :
    (m : LunarMonth) (k : ℕ)
    → fits m ≡ true
    → k < m.days
    → print_lunar (pack m.year m.month k m.leap) ≡ print_month m k
unfolding print_lunar
unpack m k h lt =
    let ((y, n), (d, l)) =
      fields m.year m.month k m.leap (ground arith) (ground arith) (ground arith) (ground arith) in
    ap₂ (λ a b. a ++ b)
      (ap₂ (λ a b. a ++ b)
        (ap₂ (λ a b. a ++ b) (ap (λ x. format 4 (pos x)) y) (ap (λ x. format 2 (pos x)) n))
        (ap (λ x. format 2 (pos x)) d))
      (ap (λ x. format 1 (pos x)) l)

past_the_end :
    (ms : List LunarMonth) (day : ℕ) → total ms ≤ day → (d : ℕ) × (find_day ms day ≡ left d)
unfolding find_day total
past_the_end [] day h = (day, refl)
past_the_end (m ∷ ms) day h =
    let e : ltb day m.days ≡ false = ground arith in
    let (d, f) = past_the_end ms (day - m.days) (omega arith) in (d, rw e f)

-- On each of the 22295 days that the table covers, the search of `SolarDay2LunarDay` ends in one of
-- the months of the calendar that the table encodes, with a day of that month that counts, with the
-- lengths of all the months before it, the days since the calendar's first; what is printed is the
-- number of the year in the table, the month, the day and the mark of a leap month. On every later
-- day, and on every day before the first, it returns NULL.
pub lunar_of_day_left-calendar :
    (d : ℕ)
    → (((d < 22295)
          × ((p : Position (calendar 0 date_table) d) × (lunar_of_day_left (pos d)
                ≡ some (print_month p.at p.k))))
        ⊎ ((22295 ≤ d) × (lunar_of_day_left (pos d) ≡ none)))
      × (lunar_of_day_left (negsuc d) ≡ none)
unfolding lunar_of_day_left
lunar_of_day_left-calendar d = (within_or_past, refl)
  where
    within_or_past :
        ((d < 22295)
          × ((p : Position (calendar 0 date_table) d) × (lunar_of_day_left (pos d)
                ≡ some (print_month p.at p.k))))
        ⊎ ((22295 ≤ d) × (lunar_of_day_left (pos d) ≡ none))
    within_or_past = elim (Bool-cases (ltb d 22295)) [
      | inl e ↦
          let n = total-calendar in
          let (p, f) = position (calendar 0 date_table) d (ground arith) in
          let fit =
            fits_at p.before p.after p.at (subst (λ ms. all_fit ms ≡ true) p.split calendar_fits) in
          let low : ltb 22295 d ≡ false = ground arith in
          inl (
            ltb→lt d 22295 e,
            (
              p,
              rw low (
                  ap printed (year_loop_lem date_table 0 d ∙ f)
                  ∙ ap (λ t. some t) (unpack p.at p.k fit p.within)),
            ),
          )
      | inr e ↦
          let n = total-calendar in
          let (r, f) = past_the_end (calendar 0 date_table) d (ground arith) in
          inr (
            ground arith,
            elim (Bool-cases (ltb 22295 d)) [
              | inl h ↦ rw h refl
              | inr h ↦ rw h (ap printed (year_loop_lem date_table 0 d ∙ f))
            ],
          )
    ]
