-- ===== src/Hex/RoundTrip.antt =====
-- Bytes survive being printed and read back, and so does a text up to the case of its letters.
use tdm.Base.{
  ℕ, ◌+◌, ◌-◌, ◌*◌, ◌/◌, ◌%◌, ◌<◌, ◌≡◌, refl, sym, subst, ap, ◌∙◌, true, false, Option, none, some,
  List, [], ◌∷◌, ◌++◌, map, length, arith, leb, take-all,
}
use tdm.Hex.{digit_value, Written, put, digit_pair, str2hex_loop, str2hex, hex_string, hex2string}
use tdm.Hex.Digits.{to_capital, digit_value_inv, digit_value-capital}

abbrev pub AllBytes : List ℕ → Type 0
AllBytes [] = Unit {0}
AllBytes (b ∷ bs) = (b < 256) × AllBytes bs

unread : (b : ℕ) → b < 256 → b / 16 % 16 * 16 + b % 16 ≡ b
unread b h = omega arith

str2hex_loop-hex_string :
    (b : ℕ) (bs : List ℕ) (left : ℕ)
    → AllBytes (b ∷ bs)
    → left ≡ 2 * length (b ∷ bs)
    → str2hex_loop (hex_string (b ∷ bs)) left ≡ record { dst = b ∷ bs; ret = 1 }
unfolding str2hex_loop hex_string digit_pair
str2hex_loop-hex_string b [] left h e =
    let hi = digit_value-capital (b / 16 % 16) (omega arith) in
    let lo = digit_value-capital (b % 16) (omega arith) in
    let last : leb left 2 ≡ true = ground arith in rw (hi, lo, last, unread b h.0) refl
str2hex_loop-hex_string b (c ∷ bs) left h e =
    let hi = digit_value-capital (b / 16 % 16) (omega arith) in
    let lo = digit_value-capital (b % 16) (omega arith) in
    let more : leb left 2 ≡ false = ground arith in
    let rest = str2hex_loop-hex_string c bs (left - 2) h.1 (omega arith) in
    rw (hi, lo, more, unread b h.0) (ap (put b) rest)

pub length-hex_string : (xs : List ℕ) → length (hex_string xs) ≡ 2 * length xs
unfolding hex_string
length-hex_string [] = refl
length-hex_string (x ∷ xs) = omega (arith, length-hex_string xs)

-- Printing any non-empty bytes by `Hex2String` gives two characters for each and a zero byte, and
-- `str2Hex` of those characters gives the bytes back, and succeeds.
pub str2hex-hex2string :
    (b : ℕ) (bs : List ℕ)
    → AllBytes (b ∷ bs)
    → let n = length (b ∷ bs) in
      let text = hex_string (b ∷ bs) in
      (hex2string (b ∷ bs) n ≡ record { dst = text ++ 0 ∷ []; ret = 2 * n })
      × (length text ≡ 2 * n)
      × (str2hex text (2 * n) ≡ record { dst = b ∷ bs; ret = 1 })
unfolding hex2string str2hex hex_string
str2hex-hex2string b bs h = (
  ap (λ r. record { dst = hex_string r ++ 0 ∷ []; ret = 2 * length (b ∷ bs) })
      (take-all (b ∷ bs) (length (b ∷ bs)) refl),
  length-hex_string (b ∷ bs),
  str2hex_loop-hex_string b bs (2 * length (b ∷ bs)) h refl,
)

two_digits :
    (x y : Option ℕ) (next : ℕ → Written)
    → (digit_pair x y next).ret ≡ 1
    → (h l : ℕ) × ((x ≡ some h) × (y ≡ some l))
unfolding digit_pair
two_digits none y next ok = absurd (omega (arith, ok))
two_digits (some h) none next ok = absurd (omega (arith, ok))
two_digits (some h) (some l) next ok = (h, l, (refl, refl))

digits_of_byte :
    (h l : ℕ) → h < 16 → l < 16 → ((h * 16 + l) / 16 % 16 ≡ h) × ((h * 16 + l) % 16 ≡ l)
digits_of_byte h l hh hl = (omega arith, omega arith)

-- A byte that two characters are read as is printed as their capitals.
hex_string-pair :
    (a c h l : ℕ)
    → digit_value a ≡ some h
    → digit_value c ≡ some l
    → (bs : List ℕ) → hex_string ((h * 16 + l) ∷ bs) ≡ to_capital a ∷ to_capital c ∷ hex_string bs
unfolding hex_string
hex_string-pair a c h l ea ec bs =
    let (ha, ga) = digit_value_inv a h ea in
    let (hc, gc) = digit_value_inv c l ec in
    let (d1, d2) = digits_of_byte h l ha hc in rw (d1, d2, ga, gc) refl

-- What the loop of `str2Hex` has read when it succeeds.
hex_string-str2hex_loop :
    (src : List ℕ) (left : ℕ)
    → length src ≡ left
    → (str2hex_loop src left).ret ≡ 1
    → (left % 2 ≡ 0)
    → hex_string (str2hex_loop src left).dst ≡ map to_capital src
unfolding str2hex_loop digit_pair hex_string
hex_string-str2hex_loop [] left e ok even = absurd (omega (arith, ok))
hex_string-str2hex_loop (a ∷ []) left e ok even = absurd (omega arith)
hex_string-str2hex_loop (a ∷ c ∷ []) left e ok even =
    let (h, l, (ea, ec)) = two_digits (digit_value a) (digit_value c) _ ok in
    let final : leb left 2 ≡ true = ground arith in
    rw (ea, ec, final) (hex_string-pair a c h l ea ec [])
hex_string-str2hex_loop (a ∷ c ∷ d ∷ src) left e ok even =
    let (h, l, (ea, ec)) = two_digits (digit_value a) (digit_value c) _ ok in
    let more : leb left 2 ≡ false = ground arith in
    let rest = str2hex_loop (d ∷ src) (left - 2) in
    let step : str2hex_loop (a ∷ c ∷ d ∷ src) left ≡ put (h * 16 + l) rest =
      rw (ea, ec, more) refl in
    let ok_rest : rest.ret ≡ 1 = subst (λ w. w.ret ≡ 1) step ok in
    let deep = hex_string-str2hex_loop (d ∷ src) (left - 2) (omega arith) ok_rest (omega arith) in
    subst (λ w. hex_string w.dst ≡ map to_capital (a ∷ c ∷ d ∷ src)) (sym step)
      (hex_string-pair a c h l ea ec rest.dst ∙ ap (λ r. to_capital a ∷ to_capital c ∷ r) deep)

-- When `str2Hex` succeeds on a text of which all the characters, an even number, are to be read,
-- the bytes it has written are printed as the same text with capital letters: no character is
-- left out, and none is misread.
pub hex_string-str2hex :
    (src : List ℕ)
    → length src % 2 ≡ 0
    → (str2hex src (length src)).ret ≡ 1
    → hex_string (str2hex src (length src)).dst ≡ map to_capital src
unfolding str2hex
hex_string-str2hex src even ok = hex_string-str2hex_loop src (length src) refl ok even
