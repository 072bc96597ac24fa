-- ===== src/TimeComm/Months/Shift.antt =====
-- The loops of `AddMonths` count months one by one, over the ends of the years.
use tdm.Base.{ℕ, zero, suc, ◌+◌, ◌*◌, ◌≤◌, ◌<◌, ◌≡◌, ap, ap₂, ◌∙◌, ◌⊎◌, inl, inr, arith}
use tdm.Base.Int.{ℤ, pos, negsuc, ◌+ℤ◌, ◌-ℤ◌, pos_part, neg_part}
use tdm.TimeComm.Months.{YearMonth, next_month, previous_month, repeat, shift}

abbrev pub IsMonth : ℕ → Type 0
IsMonth m = (1 ≤ m) × (m ≤ 12)

-- The month `m` of the year `y`.
abbrev pub at : ℕ → ℕ → YearMonth
at y m = record { year = pos y; month = pos m }

next-within : (y m : ℕ) → m < 12 → next_month (at y m) ≡ at y (suc m)
unfolding ◌+ℤ◌
next-within y m h = ground arith

next-over : (y : ℕ) → next_month (at y 12) ≡ at (suc y) 1
unfolding ◌+ℤ◌
next-over y = ground arith

previous-within : (y m : ℕ) → 1 ≤ m → previous_month (at y (suc m)) ≡ at y m
unfolding ◌-ℤ◌
previous-within y m h = ground arith

previous-over : (y : ℕ) → previous_month (at (suc y) 1) ≡ at y 12
unfolding ◌-ℤ◌
previous-over y = ground arith

same_month :
    (y m y' m' : ℕ) → IsMonth m → IsMonth m' → y * 12 + m ≡ y' * 12 + m' → at y m ≡ at y' m'
same_month y m y' m' h h' e = ap₂ at (omega arith) (omega arith)

repeat-next :
    (n y m y' m' : ℕ)
    → IsMonth m
    → IsMonth m'
    → y' * 12 + m' ≡ y * 12 + m + n
    → repeat n next_month (at y m) ≡ at y' m'
unfolding repeat
repeat-next zero y m y' m' h h' e = same_month y m y' m' h h' (omega arith)
repeat-next (suc n) y m y' m' h h' e = elim (year_ends) [
  | inl lt ↦
      ap (repeat n next_month) (next-within y m lt)
      ∙ repeat-next n y (suc m) y' m' (omega arith, omega arith) h' (omega arith)
  | inr eq ↦
      ap (λ k. repeat n next_month (next_month (at y k))) eq
      ∙ ap (repeat n next_month) (next-over y)
      ∙ repeat-next n (suc y) 1 y' m' (omega arith, omega arith) h' (omega arith)
]
  where
    year_ends : (m < 12) ⊎ (m ≡ 12)
    year_ends = omega arith

repeat-previous :
    (n y m y' m' : ℕ)
    → IsMonth m
    → IsMonth m'
    → y' * 12 + m' + n ≡ y * 12 + m
    → repeat n previous_month (at y m) ≡ at y' m'
unfolding repeat
repeat-previous zero y m y' m' h h' e = same_month y m y' m' h h' (omega arith)
repeat-previous (suc n) zero (suc zero) y' m' h h' e = absurd (omega arith)
repeat-previous (suc n) (suc y) (suc zero) y' m' h h' e =
    ap (repeat n previous_month) (previous-over y)
    ∙ repeat-previous n y 12 y' m' (omega arith, omega arith) h' (omega arith)
repeat-previous (suc n) y (suc (suc m)) y' m' h h' e =
    ap (repeat n previous_month) (previous-within y (suc m) (omega arith))
    ∙ repeat-previous n y (suc m) y' m' (omega arith, omega arith) h' (omega arith)
repeat-previous (suc n) y zero y' m' h h' e = absurd (omega arith)

-- A number of months that leads from one month to another does so in the loops.
pub shift_months :
    (n : ℤ) (y m y' m' : ℕ)
    → IsMonth m
    → IsMonth m'
    → y' * 12 + m' + neg_part n ≡ y * 12 + m + pos_part n
    → shift n (at y m) ≡ at y' m'
shift_months (pos n) y m y' m' h h' e = repeat-next n y m y' m' h h' (omega arith)
shift_months (negsuc n) y m y' m' h h' e = repeat-previous (suc n) y m y' m' h h' (omega arith)
