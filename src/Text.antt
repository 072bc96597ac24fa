-- ===== src/Text.antt =====
-- What the C library's `atoi` and `sprintf` do for src/timecomm.c. A text is the list of its
-- characters before the terminating zero byte.
pub mod Numbers
use tdm.Base.{
  ℕ, zero, suc, ◌+◌, ◌-◌, ◌*◌, ◌/◌, ◌%◌, Bool, true, false, ◌&&◌, ◌||◌, List, [], ◌∷◌, ◌==◌, leb,
  if◌then◌else◌,
}
use tdm.Base.Int.{ℤ, pos, negsuc}

abbrev pub is_digit : ℕ → Bool
is_digit c = leb b'0' c && leb c b'9'

abbrev pub is_space : ℕ → Bool
is_space c = (c == 32) || (leb 9 c && leb c 13)

abbrev pub negate : ℕ → ℤ
negate zero = pos 0
negate (suc n) = negsuc n

-- The number the leading digits stand for, after `n`.
unfoldable pub read_digits : ℕ → List ℕ → ℕ
read_digits n [] = n
read_digits n (c ∷ cs) =
    let rest = read_digits (n * 10 + (c - b'0')) cs in if is_digit c then rest else n

abbrev pub read_signed : List ℕ → ℤ
read_signed [] = pos 0
read_signed (c ∷ cs) =
    if c == b'-'
    then negate (read_digits 0 cs)
    else if c == b'+'
    then pos (read_digits 0 cs)
    else pos (read_digits 0 (c ∷ cs))

-- `atoi`: white space, a sign, digits.
unfoldable pub atoi : List ℕ → ℤ
atoi [] = pos 0
atoi (c ∷ cs) = let rest = atoi cs in if is_space c then rest else read_signed (c ∷ cs)

-- The decimal digits of a number in front of a text, at least `width` of them. An `int` has at most
-- ten.
unfoldable pub digits : ℕ → ℕ → ℕ → List ℕ → List ℕ
digits zero width n after = after
digits (suc fuel) width n after =
    let longer = digits fuel (width - 1) (n / 10) ((b'0' + n % 10) ∷ after) in
    if (n == 0) && (width == 0) then after else longer

-- `sprintf` with the format `%0<width>d`; the sign counts as one of the characters.
unfoldable pub format : ℕ → ℤ → List ℕ
format width (pos n) = digits 10 width n []
format width (negsuc n) = b'-' ∷ digits 10 (width - 1) (suc n) []
