-- ===== src/Hex/Digits.antt =====
-- The tables of src/pravitelib.c invert one another, but for the case of the letters.
use tdm.Base.{
  ℕ, zero, suc, ◌+◌, ◌-◌, ◌≤◌, ◌<◌, ◌≡◌, refl, subst, inl, inr, Bool, true, false, ◌&&◌, Option,
  none, some, ◌==◌, leb, ltb, if◌then◌else◌, get_or, arith, Bool-cases,
}
use tdm.Hex.{list_capital, digit_value}

-- A test that `count` numbers from `start` on pass.
passes : (ℕ → Bool) → (count start : ℕ) → Bool
passes test zero start = true
passes test (suc count) start =
    let others = passes test count (start + 1) in if test start then others else false

passed :
    (test : ℕ → Bool) (count start c : ℕ)
    → passes test count start ≡ true
    → start ≤ c
    → c < start + count
    → test c ≡ true
unfolding passes
passed test zero start c h lo hi = absurd (omega arith)
passed test (suc count) start c h lo hi = elim (Bool-cases (start == c)) [
  | inl at_start ↦ let e : start ≡ c = ground arith in subst (λ k. test k ≡ true) e (ground arith)
  | inr later ↦ passed test count (start + 1) c (ground arith) (ground arith) (omega arith)
]

-- A small letter from `a` to `f` as a capital one; every other character as it is.
unfoldable pub to_capital : ℕ → ℕ
to_capital c = if leb b'a' c && leb c b'f' then c - 32 else c

abbrev is_digit : Option ℕ → ℕ → Bool
is_digit none c = true
is_digit (some d) c = ltb d 16 && (get_or list_capital d 0 == to_capital c)

abbrev names : Option ℕ → ℕ → Bool
names none d = false
names (some e) d = e == d

value_table : passes (λ c. is_digit (digit_value c) c) 128 0 ≡ true
unfolding passes digit_value to_capital
value_table = refl

digit_table : passes (λ d. names (digit_value (get_or list_capital d 0)) d) 16 0 ≡ true
unfolding passes digit_value
digit_table = refl

digit_value-high : (c : ℕ) → 128 ≤ c → digit_value c ≡ none
unfolding digit_value
digit_value-high c h = ground arith

both_tests : (g d k : ℕ) → (ltb d 16 && (g == k)) ≡ true → (d < 16) × (g ≡ k)
both_tests g d k h = ground arith

is_digit_sound :
    (o : Option ℕ) (c d : ℕ)
    → is_digit o c ≡ true
    → o ≡ some d
    → (d < 16) × (get_or list_capital d 0 ≡ to_capital c)
is_digit_sound none c d h e = cc
is_digit_sound (some x) c d h e =
    let same : x ≡ d = cc in
    both_tests (get_or list_capital d 0) d (to_capital c)
      (subst (λ y. is_digit (some y) c ≡ true) same h)

names_sound : (o : Option ℕ) (d : ℕ) → names o d ≡ true → o ≡ some d
names_sound none d h = cc
names_sound (some e) d h = ground arith

-- A digit is printed as the capital of a character that is read as it.
pub digit_value_inv :
    (c d : ℕ) → digit_value c ≡ some d → (d < 16) × (get_or list_capital d 0 ≡ to_capital c)
digit_value_inv c d e = elim (Bool-cases (ltb c 128)) [
  | inl low ↦
      is_digit_sound (digit_value c) c d
        (passed (λ x. is_digit (digit_value x) x) 128 0 c value_table (omega arith) (ground arith))
        e
  | inr high ↦ absurd (let gone = digit_value-high c (ground arith) in cc)
]

pub digit_value-capital : (d : ℕ) → d < 16 → digit_value (get_or list_capital d 0) ≡ some d
digit_value-capital d lt = names_sound _ d (
    passed (λ x. names (digit_value (get_or list_capital x 0)) x) 16 0 d digit_table (omega arith)
      lt)
