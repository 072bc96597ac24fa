-- ===== src/Hex.antt =====
-- `str2Hex` and `Hex2String` of src/pravitelib.c: bytes and their two hexadecimal digits. A text is
-- the list of its characters before the terminating zero byte; a byte is a number below 256.
pub mod Digits
pub mod RoundTrip
use tdm.Base.{
  ℕ, zero, suc, ◌+◌, ◌-◌, ◌*◌, ◌/◌, ◌%◌, Bool, true, false, ◌||◌, Option, none, some, List, [], ◌∷◌,
  ◌++◌, ◌==◌, leb, if◌then◌else◌, take, get_or,
}

-- `List_Capital`, which is also `List` of `Hex2String`, and `List_Small`.
abbrev pub list_capital : List ℕ
list_capital =
    b'0' ∷ b'1' ∷ b'2' ∷ b'3' ∷ b'4' ∷ b'5' ∷ b'6' ∷ b'7' ∷ b'8' ∷ b'9' ∷ b'A' ∷ b'B' ∷ b'C' ∷ b'D'
    ∷ b'E' ∷ b'F' ∷ []

abbrev pub list_small : List ℕ
list_small =
    b'0' ∷ b'1' ∷ b'2' ∷ b'3' ∷ b'4' ∷ b'5' ∷ b'6' ∷ b'7' ∷ b'8' ∷ b'9' ∷ b'a' ∷ b'b' ∷ b'c' ∷ b'd'
    ∷ b'e' ∷ b'f' ∷ []

-- The inner loop of `str2Hex`: the first `j` at which either table has the character; `none` for
-- the end of the loop, `j == 16`.
unfoldable pub find_digit : ℕ → ℕ → List ℕ → List ℕ → Option ℕ
find_digit c j [] ss = none
find_digit c j (k ∷ ks) [] = none
find_digit c j (k ∷ ks) (s ∷ ss) =
    let later = find_digit c (j + 1) ks ss in if (c == k) || (c == s) then some j else later

unfoldable pub digit_value : ℕ → Option ℕ
unfolding find_digit
digit_value c = find_digit c 0 list_capital list_small

-- The bytes written to `dst`, and the return value.
pub record Written : Type 0 where
  pub dst : List ℕ
  pub ret : ℕ

abbrev pub put : ℕ → Written → Written
put b w = record { dst = b ∷ w.dst; ret = w.ret }

abbrev pub stop : ℕ → ℕ → Written
stop b r = record { dst = b ∷ []; ret = r }

-- The byte that two characters stand for, or what is written when one of them is no digit. The
-- first character is stored before the second is looked at.
unfoldable pub digit_pair : Option ℕ → Option ℕ → (ℕ → Written) → Written
digit_pair none lo next = stop 0 0
digit_pair (some h) none next = stop (h * 16) 0
digit_pair (some h) (some l) next = next (h * 16 + l)

-- The outer loop with `left` of the `src_len` characters to go. Its body runs once before the test.
-- The terminating zero byte is no digit, so the loop ends there at the latest.
unfoldable pub str2hex_loop : List ℕ → ℕ → Written
str2hex_loop [] left = stop 0 0
str2hex_loop (a ∷ []) left = digit_pair (digit_value a) none (λ b. stop b 1)
str2hex_loop (a ∷ c ∷ src) left =
    let rest = str2hex_loop src (left - 2) in
    digit_pair (digit_value a) (digit_value c) (λ b. if leb left 2 then stop b 1 else put b rest)

unfoldable pub str2hex : List ℕ → ℕ → Written
str2hex src src_len = str2hex_loop src src_len

-- The loop of `Hex2String` over the bytes.
unfoldable pub hex_string : List ℕ → List ℕ
hex_string [] = []
hex_string (b ∷ bs) =
    get_or list_capital (b / 16 % 16) 0 ∷ get_or list_capital (b % 16) 0 ∷ hex_string bs

-- With the terminating zero byte, and the return value.
unfoldable pub hex2string : List ℕ → ℕ → Written
hex2string src src_len = record { dst = hex_string (take src_len src) ++ 0 ∷ []; ret = 2 * src_len }
