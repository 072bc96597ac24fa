-- ===== src/TimeComm/Stamps/Fields.antt =====
-- The fields `GetTimetValid` lets through, and `AddMonth` by one month.
use tdm.Base.{
  ℕ, ◌+◌, ◌*◌, ◌≡◌, ◌⊎◌, refl, ap, ◌∙◌, Bool, true, false, ◌||◌, List, arith, Bool-cases, inl, inr,
}
use tdm.Base.Int.{
  ℤ, pos, negsuc, pos_part, neg_part, ◌+ℤ◌, ◌-ℤ◌, ◌*ℤ◌, ◌≤ℤ◌, leb_ℤ, +ℤ_parts, -ℤ_parts,
  eq_of_parts,
}
use tdm.TimeComm.Stamps.{
  Tm, two_at, tm_of, get_timet, outside, is_rejected, get_timet_valid, get_month_days,
  month_days_loop, total_days, add_month,
}

-- A number from 0 to `high`.
abbrev pub IsBetween : ℕ → ℤ → Type 0
IsBetween high x = (pos 0 ≤ℤ x) × (x ≤ℤ pos high)

-- The fields of a time: a year after 1900, months from 0 to 11, days up to 31, hours, minutes and
-- seconds of a clock.
abbrev pub IsClock : Tm → Type 0
IsClock tm =
    ((pos 1 ≤ℤ tm.tm_year) × (IsBetween 11 tm.tm_mon × IsBetween 31 tm.tm_mday))
    × (IsBetween 23 tm.tm_hour × (IsBetween 59 tm.tm_min × IsBetween 59 tm.tm_sec))

within : (high : ℕ) (x : ℤ) → outside high x ≡ false → IsBetween high x
within high x h = ground arith

neither : (a b : Bool) → (a || b) ≡ false → (a ≡ false) × (b ≡ false)
neither true b e = absurd cc
neither false b e = (refl, e)

positive : (tm : Tm) → leb_ℤ tm.tm_year (pos 0) ≡ false → pos 1 ≤ℤ tm.tm_year
positive tm h = ground arith

not_rejected : (tm : Tm) → is_rejected tm ≡ false → IsClock tm
not_rejected tm h =
    let (year, h1) = neither _ _ h in
    let (mon, h2) = neither _ _ h1 in
    let (mday, h3) = neither _ _ h2 in
    let (hour, h4) = neither _ _ h3 in
    let (min, sec) = neither _ _ h4 in
    (
      (positive tm year, (within 11 tm.tm_mon mon, within 31 tm.tm_mday mday)),
      (within 23 tm.tm_hour hour, (within 59 tm.tm_min min, within 59 tm.tm_sec sec)),
    )

-- Whatever the text and `mktime`, `GetTimetValid` returns -1, or the fields read are those of a clock,
-- in a year after 1900, and it returns what `GetTimet` returns.
pub get_timet_valid-IsClock :
    (mktime : Tm → ℤ) (s : List ℕ)
    → (get_timet_valid mktime s ≡ negsuc 0)
      ⊎ ((get_timet_valid mktime s ≡ get_timet mktime s) × IsClock (tm_of s))
unfolding get_timet_valid get_timet
get_timet_valid-IsClock mktime s = elim (Bool-cases (is_rejected (tm_of s))) [
  | inl e ↦ inl (rw e refl)
  | inr e ↦ inr (rw e refl, not_rejected (tm_of s) e)
]

total_days-none : (source day : ℤ) → total_days source day (pos 0, pos 0) ≡ pos 0 -ℤ day
total_days-none source day =
    let a = source -ℤ pos 0 in
    let b = pos 0 -ℤ a in
    let c = source -ℤ day in
    eq_of_parts (b +ℤ c) (pos 0 -ℤ day) (
      omega (
        arith,
        +ℤ_parts b c,
        -ℤ_parts (pos 0) a,
        -ℤ_parts source (pos 0),
        -ℤ_parts source day,
        -ℤ_parts (pos 0) day,
      ))

seconds_parts :
    (d : ℤ)
    → pos_part (d *ℤ pos 86400) + 86400 * neg_part d
      ≡ neg_part (d *ℤ pos 86400) + 86400 * pos_part d
unfolding ◌*ℤ◌
seconds_parts d = ground arith

back : (t day : ℤ) → t +ℤ (pos 0 -ℤ day) *ℤ pos 86400 ≡ t -ℤ day *ℤ pos 86400
back t day =
    let n = pos 0 -ℤ day in
    eq_of_parts (t +ℤ n *ℤ pos 86400) (t -ℤ day *ℤ pos 86400) (
      omega (
        arith,
        seconds_parts n,
        seconds_parts day,
        -ℤ_parts (pos 0) day,
        +ℤ_parts t (n *ℤ pos 86400),
        -ℤ_parts t (day *ℤ pos 86400),
      ))

-- Whatever `mktime`, `localtime` and `strftime` do, `AddMonth` by one month gives the time that many
-- days before the stamp as its day of the month says: the last day of the month before it, when
-- `mktime` counts days of 86400 seconds.
pub add_month-one :
    (mktime : Tm → ℤ) (localtime : ℤ → Tm × Bool) (strftime : Tm → List ℕ) (s : List ℕ)
    → add_month mktime localtime strftime s (pos 1) ≡ get_timet mktime s -ℤ two_at 6 s *ℤ pos 86400
unfolding add_month month_days_loop
add_month-one mktime localtime strftime s =
    let t = get_timet mktime s in
    let source = get_month_days mktime localtime strftime s in
    ap (λ d. t +ℤ d *ℤ pos 86400) (total_days-none source (two_at 6 s)) ∙ back t (two_at 6 s)
