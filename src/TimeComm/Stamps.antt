-- ===== src/TimeComm/Stamps.antt =====
-- Time stamps of src/timecomm.c: `GetTimet`, `GetTimetValid`, `GetTimetStr` and the functions that add
-- days, seconds and months. The C library's `mktime`, `localtime` and `strftime` are parameters. A stamp has 14
-- characters at least where the source reads so many.
pub mod Fields
use tdm.Base.{
  ℕ, zero, suc, ◌+◌, ◌-◌, ◌*◌, Bool, true, false, ◌||◌, List, [], ◌∷◌, ◌++◌, ltb, take, drop,
  length, if◌then◌else◌,
}
use tdm.Base.Int.{ℤ, pos, negsuc, ◌+ℤ◌, ◌-ℤ◌, ◌*ℤ◌, ltb_ℤ, leb_ℤ, eqb_ℤ}
use tdm.Text.{atoi, format}

-- `struct tm`.
pub record Tm : Type 0 where
  pub tm_year : ℤ
  pub tm_mon : ℤ
  pub tm_mday : ℤ
  pub tm_hour : ℤ
  pub tm_min : ℤ
  pub tm_sec : ℤ

-- The two characters at `i`, read.
abbrev pub two_at : ℕ → List ℕ → ℤ
two_at i s = atoi (take 2 (drop i s))

abbrev pub tm_of : List ℕ → Tm
tm_of s = record {
  tm_year = atoi (take 4 s) -ℤ pos 1900;
  tm_mon = two_at 4 s -ℤ pos 1;
  tm_mday = two_at 6 s;
  tm_hour = two_at 8 s;
  tm_min = two_at 10 s;
  tm_sec = two_at 12 s;
}

unfoldable pub get_timet : (Tm → ℤ) → List ℕ → ℤ
get_timet mktime s = mktime (tm_of s)

-- `x < 0 || x > high`.
abbrev pub outside : ℕ → ℤ → Bool
outside high x = ltb_ℤ x (pos 0) || ltb_ℤ (pos high) x

-- The tests of the fields, each of which returns -1.
abbrev pub is_rejected : Tm → Bool
is_rejected tm =
    leb_ℤ tm.tm_year (pos 0)
    || (outside 11 tm.tm_mon
        || (outside 31 tm.tm_mday
            || (outside 23 tm.tm_hour || (outside 59 tm.tm_min || outside 59 tm.tm_sec))))

unfoldable pub get_timet_valid : (Tm → ℤ) → List ℕ → ℤ
get_timet_valid mktime s = if is_rejected (tm_of s) then negsuc 0 else mktime (tm_of s)

-- `GetTimetStr`, where `localtime` gives a time and whether it is summer time; the parameter
-- `strftime` is the C library's with the format `%Y%m%d%H%M%S`.
unfoldable pub get_timet_str : (ℤ → Tm × Bool) → (Tm → List ℕ) → ℤ → List ℕ
get_timet_str localtime strftime t =
    strftime (if (localtime t).1 then (localtime (t -ℤ pos 3600)).0 else (localtime t).0)

abbrev pub zeros : List ℕ
zeros = b'0' ∷ b'0' ∷ b'0' ∷ b'0' ∷ b'0' ∷ b'0' ∷ []

-- `sTmpDate`.
abbrev pub stamp_of : List ℕ → List ℕ
stamp_of s = if ltb (length s) 14 then take 8 s ++ zeros else take 14 s

-- `AddDays`, `AddDaysModified` and `ReturnAddDays`: the stamp that is written or returned.
unfoldable pub add_days : (Tm → ℤ) → (ℤ → Tm × Bool) → (Tm → List ℕ) → List ℕ → ℤ → List ℕ
add_days mktime localtime strftime s day =
    get_timet_str localtime strftime (get_timet mktime (stamp_of s) +ℤ day *ℤ pos 86400)

-- `AddSeconds`, `AddSecondsModified` and `ReturnAddSeconds`.
unfoldable pub add_seconds : (Tm → ℤ) → (ℤ → Tm × Bool) → (Tm → List ℕ) → List ℕ → ℤ → List ℕ
add_seconds mktime localtime strftime s seconds =
    get_timet_str localtime strftime (get_timet mktime s +ℤ seconds)

-- `GetMonthDays`: the day before the first of the next month.
unfoldable pub get_month_days : (Tm → ℤ) → (ℤ → Tm × Bool) → (Tm → List ℕ) → List ℕ → ℤ
get_month_days mktime localtime strftime s = two_at 6 (
    add_days mktime localtime strftime
      (format 4 (atoi (take 4 s)) ++ (format 2 (two_at 4 s +ℤ pos 1) ++ b'0' ∷ b'1' ∷ []))
      (negsuc 0))

-- The loops of `AddMonth`, with `iTotalDay` and `iTargetMonthDay`; `turns` rounds from `iLoop` on in
-- steps of `step`. `days` is `GetMonthDays` of `sTmp`.
unfoldable pub month_days_loop : (ℤ → ℤ) → ℤ → ℕ → ℤ → ℤ → ℤ → ℤ × ℤ
month_days_loop days step zero i total target = (total, target)
month_days_loop days step (suc turns) i total target =
    month_days_loop days step turns (i +ℤ step) (total +ℤ days i) (days i)

-- `iTotalDay` after the loop.
abbrev pub total_days : ℤ → ℤ → ℤ × ℤ → ℤ
total_days source day r = (r.0 -ℤ (source -ℤ r.1)) +ℤ (source -ℤ day)

abbrev pub month_days_at : (Tm → ℤ) → (ℤ → Tm × Bool) → (Tm → List ℕ) → List ℕ → ℤ → ℤ
month_days_at mktime localtime strftime s i =
    get_month_days mktime localtime strftime
      (format 4 (atoi (take 4 s)) ++ format 2 (two_at 4 s +ℤ i))

-- `AddMonth`.
unfoldable pub add_month : (Tm → ℤ) → (ℤ → Tm × Bool) → (Tm → List ℕ) → List ℕ → ℤ → ℤ
add_month mktime localtime strftime s (pos zero) = get_timet mktime s
add_month mktime localtime strftime s (pos (suc n)) =
    let days = month_days_at mktime localtime strftime s in
    get_timet mktime s
    +ℤ total_days (get_month_days mktime localtime strftime s) (two_at 6 s)
        (month_days_loop days (pos 1) n (pos 1) (pos 0) (pos 0))
      *ℤ pos 86400
add_month mktime localtime strftime s (negsuc n) =
    let days = month_days_at mktime localtime strftime s in
    get_timet mktime s
    -ℤ total_days (get_month_days mktime localtime strftime s) (two_at 6 s)
        (month_days_loop days (negsuc 0) n (negsuc 0) (pos 0) (pos 0))
      *ℤ pos 86400
