-- ===== src/TimeComm/Checks/Ranges.antt =====
-- What `IsDate` accepts.
use tdm.Base.{
  ℕ, ◌%◌, ◌≤◌, ◌<◌, ◌≡◌, refl, sym, ◌∙◌, ◌↔◌, inl, inr, Bool, true, false, not, ◌||◌, List, [], ◌∷◌,
  ◌++◌, ◌==◌, ltb, if◌then◌else◌, length, drop, drop-past, arith, Bool-cases,
}
use tdm.Text.{}
use tdm.Text.Numbers.{two, four}
use tdm.TimeComm.Months.{all_digits}
use tdm.TimeComm.Months.Clamp.{date}
use tdm.TimeComm.Months.Valid.{AllDigits, all_digits-AllDigits}
use tdm.TimeComm.Checks.{out_of, is_date}

year_range :
    (y : ℕ) (tail : List ℕ)
    → y < 10000
    → out_of 4 (four y ++ tail) (b'1' ∷ b'9' ∷ b'0' ∷ b'0' ∷ []) (b'2' ∷ b'9' ∷ b'9' ∷ b'9' ∷ [])
      ≡ (ltb y 1900 || ltb 2999 y)
year_range y tail h = ground arith

pair_range :
    (m k : ℕ) (tail : List ℕ)
    → m < 100
    → k < 100
    → out_of 2 (two m ++ tail) (b'0' ∷ b'1' ∷ []) (two k) ≡ (ltb m 1 || ltb k m)
pair_range m k tail h hk = ground arith

-- The tests of `IsDate`, in order.
verdict : (even short all year month day : Bool) → Bool
verdict even short all year month day =
    if not even || short
    then false
    else if not all
    then false
    else if year
    then false
    else if month
    then false
    else not day

is_date-verdict :
    (s : List ℕ)
    → is_date s
      ≡ verdict
          ((length s % 2) == 0)
          (ltb (length s) 4)
          (all_digits s)
          (out_of 4 s (b'1' ∷ b'9' ∷ b'0' ∷ b'0' ∷ []) (b'2' ∷ b'9' ∷ b'9' ∷ b'9' ∷ []))
          (out_of 2 (drop 4 s) (b'0' ∷ b'1' ∷ []) (b'1' ∷ b'2' ∷ []))
          (out_of 2 (drop 6 s) (b'0' ∷ b'1' ∷ []) (b'3' ∷ b'1' ∷ []))
unfolding is_date verdict
is_date-verdict s = refl

digits-date : (y m d : ℕ) (tail : List ℕ) → all_digits (date y m d ++ tail) ≡ all_digits tail
digits-date y m d tail = ground arith

verdict_same :
    (e s a y m d e' s' a' y' m' d' : Bool)
    → e ≡ e'
    → s ≡ s'
    → a ≡ a'
    → y ≡ y'
    → m ≡ m'
    → d ≡ d'
    → verdict e s a y m d ≡ verdict e' s' a' y' m' d'
verdict_same e s a y m d e' s' a' y' m' d' he hs ha hy hm hd = cc

-- The answer on a text that begins with a date.
numbers :
    (y m d : ℕ) (tail : List ℕ)
    → y < 10000
    → m < 100
    → d < 100
    → is_date (date y m d ++ tail)
      ≡ verdict
          ((length tail % 2) == 0)
          false
          (all_digits tail)
          (ltb y 1900 || ltb 2999 y)
          (ltb m 1 || ltb 12 m)
          (ltb d 1 || ltb 31 d)
numbers y m d tail hy hm hd =
    is_date-verdict (date y m d ++ tail)
    ∙ verdict_same _ _ _ _ _ _ _ _ _ _ _ _ (ground arith) (ground arith) (digits-date y m d tail)
        (year_range y (two m ++ two d ++ tail) hy)
        (pair_range m 12 (two d ++ tail) hm (omega arith)) (pair_range d 31 tail hd (omega arith))

no_day : (even short all year month : Bool) → verdict even short all year month true ≡ false
unfolding verdict
no_day even short all year month = ground arith

no_digits : (even short year month day : Bool) → verdict even short false year month day ≡ false
unfolding verdict
no_digits even short year month day = ground arith

odd_length : (short all year month day : Bool) → verdict false short all year month day ≡ false
unfolding verdict
odd_length short all year month day = refl

short_text : (s : List ℕ) → length s < 8 → is_date s ≡ false
short_text s h = elim (Bool-cases ((length s % 2) == 0)) [
  | inl even ↦
      let gone = drop-past 6 s (ground arith) in is_date-verdict s ∙ rw gone (no_day _ _ _ _ _)
  | inr odd ↦ is_date-verdict s ∙ rw odd (odd_length _ _ _ _ _)
]

is_date-AllDigits : (s : List ℕ) → is_date s ≡ true → AllDigits s
is_date-AllDigits s h = elim (Bool-cases (all_digits s)) [
  | inl a ↦ all_digits-AllDigits s a
  | inr a ↦ absurd (
      let no : is_date s ≡ false = is_date-verdict s ∙ rw a (no_digits _ _ _ _ _) in
      let clash : true ≡ false = sym h ∙ no in cc)
]

verdict-true :
    (even all year month day : Bool)
    → verdict even false all year month day ≡ true
    → ((even ≡ true) × (all ≡ true)) × ((year ≡ false) × ((month ≡ false) × (day ≡ false)))
unfolding verdict
verdict-true even all year month day h = ground arith

accepted :
    (even all year month day : Bool)
    → even ≡ true
    → all ≡ true
    → year ≡ false
    → month ≡ false
    → day ≡ false
    → verdict even false all year month day ≡ true
unfolding verdict
accepted even all year month day he ha hy hm hd = ground arith

-- A text shorter than eight characters is no date for `IsDate`, a text with a character that is no
-- digit is none, and one that begins with
-- `yyyymmdd` is a date exactly when it is a text of digits of even length, the year is from 1900 to
-- 2999, the month from 1 to 12 and the day from 1 to 31, whatever the month.
pub is_date_iff :
    (y m d : ℕ) (tail short : List ℕ)
    → y < 10000
    → m < 100
    → d < 100
    → length short < 8
    → ((is_date (date y m d ++ tail) ≡ true) ↔ (
        ((length tail % 2 ≡ 0) × (all_digits tail ≡ true))
        × (((1900 ≤ y) × (y ≤ 2999)) × (((1 ≤ m) × (m ≤ 12)) × ((1 ≤ d) × (d ≤ 31))))))
      × ((is_date short ≡ false) × ((s : List ℕ) → is_date s ≡ true → AllDigits s))
is_date_iff y m d tail short hy hm hd hs =
    let same = numbers y m d tail hy hm hd in
    (
      (
        λ yes.
            let ((e, a), (r, (n, k))) = verdict-true _ _ _ _ _ (sym same ∙ yes) in
            (
              (ground arith, a),
              (
                (ground arith, ground arith),
                ((ground arith, ground arith), (ground arith, ground arith)),
              ),
            ),
        λ ok.
            same
            ∙ accepted ((length tail % 2) == 0) (all_digits tail) _ _ _ (ground arith) ok.0.1
                (ground arith) (ground arith) (ground arith),
      ),
      (short_text short hs, is_date-AllDigits),
    )
