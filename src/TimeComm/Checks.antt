-- ===== src/TimeComm/Checks.antt =====
-- `IsDate` and `IsValidDateExt` of src/timecomm.c.
pub mod Ranges
pub mod Precision
use tdm.Base.{
  ℕ, zero, suc, ◌%◌, Bool, true, false, not, ◌&&◌, ◌||◌, List, [], ◌∷◌, ◌++◌, ◌==◌, ltb, leb,
  if◌then◌else◌, length, take, drop,
}
use tdm.Base.Int.{ℤ}
use tdm.TimeComm.Months.{all_digits}
use tdm.TimeComm.Intervals.{IncludeMode, is_date_between_ext}

-- `strcmp(s, t) < 0`.
abbrev pub before : List ℕ → List ℕ → Bool
before [] [] = false
before [] (y ∷ ys) = true
before (x ∷ xs) [] = false
before (x ∷ xs) (y ∷ ys) = if ltb x y then true else if x == y then before xs ys else false

-- `strncmp(s, low, n) < 0 || strncmp(s, high, n) > 0`, for bounds of `n` characters.
abbrev pub out_of : ℕ → List ℕ → List ℕ → List ℕ → Bool
out_of n s low high = before (take n s) low || before high (take n s)

unfoldable pub is_date : List ℕ → Bool
is_date s =
    if not ((length s % 2) == 0) || ltb (length s) 4
    then false
    else if not (all_digits s)
    then false
    else if out_of 4 s (b'1' ∷ b'9' ∷ b'0' ∷ b'0' ∷ []) (b'2' ∷ b'9' ∷ b'9' ∷ b'9' ∷ [])
    then false
    else if out_of 2 (drop 4 s) (b'0' ∷ b'1' ∷ []) (b'1' ∷ b'2' ∷ [])
    then false
    else not (out_of 2 (drop 6 s) (b'0' ∷ b'1' ∷ []) (b'3' ∷ b'1' ∷ []))

-- `datePreMode`: `DPM_DAY` with the default branch, `DPM_HOUR`, `DPM_MIN`, `DPM_SEC`.
pub data DatePreMode : Type 0 where
  dpm_day dpm_hour dpm_min dpm_sec : DatePreMode

-- The characters that are kept, and the zeros put behind them.
abbrev pub kept_of : DatePreMode → ℕ
kept_of dpm_day = 8
kept_of dpm_hour = 10
kept_of dpm_min = 12
kept_of dpm_sec = 14

abbrev pub zeros_of : DatePreMode → List ℕ
zeros_of dpm_day = b'0' ∷ b'0' ∷ b'0' ∷ b'0' ∷ b'0' ∷ b'0' ∷ []
zeros_of dpm_hour = b'0' ∷ b'0' ∷ b'0' ∷ b'0' ∷ []
zeros_of dpm_min = b'0' ∷ b'0' ∷ []
zeros_of dpm_sec = []

abbrev pub cut : DatePreMode → List ℕ → List ℕ
cut mode s = take (kept_of mode) s ++ zeros_of mode

unfoldable pub is_valid_date_ext :
    (List ℕ → ℤ) → (ℤ → List ℕ) → List ℕ → List ℕ → List ℕ → IncludeMode → DatePreMode → Bool
is_valid_date_ext timet timet_str checked begin end include mode =
    is_date_between_ext timet timet_str (cut mode checked) (cut mode begin) (cut mode end) include
