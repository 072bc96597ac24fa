-- ===== src/Text/Numbers.antt =====
-- Numbers of two and of four digits are printed and read back.
use tdm.Base.{
  ℕ, ◌+◌, ◌-◌, ◌*◌, ◌/◌, ◌%◌, ◌<◌, ◌≡◌, refl, ap, ◌∙◌, List, [], ◌∷◌, ◌++◌, ◌==◌, arith, true,
  false,
}
use tdm.Base.Int.{pos}
use tdm.Text.{is_digit, is_space, read_digits, atoi, digits, format}

-- The character of the lowest digit.
abbrev pub digit : ℕ → ℕ
digit n = b'0' + n % 10

abbrev pub two : ℕ → List ℕ
two n = digit (n / 10) ∷ digit n ∷ []

abbrev pub four : ℕ → List ℕ
four n = digit (n / 10 / 10 / 10) ∷ digit (n / 10 / 10) ∷ digit (n / 10) ∷ digit n ∷ []

pub format-two : (n : ℕ) → n < 100 → format 2 (pos n) ≡ two n
unfolding format digits
format-two n h = ground arith

pub format-four : (n : ℕ) → n < 10000 → format 4 (pos n) ≡ four n
unfolding format digits
format-four n h = ground arith

digit_is : (n : ℕ) → is_digit (digit n) ≡ true
digit_is n = ground arith

digit_value : (n : ℕ) → digit n - b'0' ≡ n % 10
digit_value n = omega arith

read_step :
    (m n : ℕ) (cs : List ℕ) → read_digits m (digit n ∷ cs) ≡ read_digits (m * 10 + n % 10) cs
unfolding read_digits
read_step m n cs = rw (digit_is n, digit_value n) refl

atoi-digit : (n : ℕ) (cs : List ℕ) → atoi (digit n ∷ cs) ≡ pos (read_digits 0 (digit n ∷ cs))
unfolding atoi
atoi-digit n cs =
    let s : is_space (digit n) ≡ false = ground arith in
    let m : (digit n == b'-') ≡ false = ground arith in
    let p : (digit n == b'+') ≡ false = ground arith in rw (s, m, p) refl

read_end : (m : ℕ) → read_digits m [] ≡ m
unfolding read_digits
read_end m = refl

pub atoi-two : (n : ℕ) → n < 100 → atoi (two n) ≡ pos n
atoi-two n h =
    atoi-digit (n / 10) (digit n ∷ [])
    ∙ ap pos (read_step 0 (n / 10) _ ∙ read_step _ n [] ∙ read_end _ ∙ omega arith)

pub atoi-four : (n : ℕ) → n < 10000 → atoi (four n) ≡ pos n
atoi-four n h =
    atoi-digit (n / 10 / 10 / 10) _
    ∙ ap pos (
        read_step 0 (n / 10 / 10 / 10) _
        ∙ read_step _ (n / 10 / 10) _
        ∙ read_step _ (n / 10) _
        ∙ read_step _ n []
        ∙ read_end _
        ∙ omega arith)

pub atoi-six : (y m : ℕ) → y < 10000 → m < 100 → atoi (four y ++ two m) ≡ pos (y * 100 + m)
atoi-six y m hy hm =
    atoi-digit (y / 10 / 10 / 10) _
    ∙ ap pos (
        read_step 0 (y / 10 / 10 / 10) _
        ∙ read_step _ (y / 10 / 10) _
        ∙ read_step _ (y / 10) _
        ∙ read_step _ y _
        ∙ read_step _ (m / 10) _
        ∙ read_step _ m []
        ∙ read_end _
        ∙ omega arith)
