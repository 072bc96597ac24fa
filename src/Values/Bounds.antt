-- ===== src/Values/Bounds.antt =====
-- What `Get_Key_Value` and `Find_Str_By_Key` write, for any text and any key.
use tdm.Base.{
  ℕ, ◌<◌, ◌≤◌, ◌≡◌, refl, sym, ap, ◌∙◌, true, false, Option, none, some, List, [], ◌∷◌, ◌++◌, ◌==◌,
  ltb, leb, length, arith, append_assoc, length-append, Bool-cases, inl, inr,
}
use tdm.Values.{
  starts, strstr, skip, upto, past, token, strtok_r, Reading, found, fails, overrun, copy_out,
  value_of, at_quote, at_colon, at_key, get_key_value, str_of, str_behind, str_at_key,
  find_str_by_key,
}
use tdm.Values.Search.{lacks}

-- `v` stands in `src`.
abbrev pub IsPart : List ℕ → List ℕ → Type 0
IsPart src v = (p : List ℕ) × (t : List ℕ) × (src ≡ p ++ (v ++ t))

-- What is found is a part of the text without a quote, not empty, and fits the destination; what is
-- returned otherwise is negative; and only a part of the text that is longer than the destination
-- is written past its end.
abbrev pub IsSafe : List ℕ → ℕ → Reading → Type 0
IsSafe src len (found v) =
    ((1 ≤ length v) × (length v ≤ len)) × ((lacks b'"' v ≡ true) × IsPart src v)
IsSafe src len (fails n) = 1 ≤ n
IsSafe src len overrun = len < length src

-- A text and its ends.
abbrev pub IsEnd : List ℕ → List ℕ → Type 0
IsEnd src t = (p : List ℕ) × (src ≡ p ++ t)

IsEnd-trans : {src t u : List ℕ} → IsEnd src t → IsEnd t u → IsEnd src u
IsEnd-trans {src} {t} {u} (p, e) (q, f) =
    (p ++ q, e ∙ ap (λ x. p ++ x) f ∙ sym (append_assoc p q u))

unsome : {t u : List ℕ} → some t ≡ some u → t ≡ u
unsome {t} {u} e = ap (λ o. elim o [ none ↦ t | some x ↦ x ]) e

strstr-IsEnd : (s key t : List ℕ) → strstr s key ≡ some t → IsEnd s t
unfolding strstr
strstr-IsEnd [] key t e = elim (Bool-cases (starts key [])) [
  | inl h ↦ let here : ◌≡◌ {A = Option (List ℕ)} (some []) (some t) = rw h at e in ([], unsome here)
  | inr h ↦ let gone : ◌≡◌ {A = Option (List ℕ)} none (some t) = rw h at e in absurd cc
]
strstr-IsEnd (c ∷ cs) key t e = elim (Bool-cases (starts key (c ∷ cs))) [
  | inl h ↦ let here : some (c ∷ cs) ≡ some t = rw h at e in ([], unsome here)
  | inr h ↦
      let later : strstr cs key ≡ some t = rw h at e in
      let (p, g) = strstr-IsEnd cs key t later in (c ∷ p, ap (λ x. c ∷ x) g)
]

skip-IsEnd : (d : ℕ) (s : List ℕ) → IsEnd s (skip d s)
skip-IsEnd d [] = ([], refl)
skip-IsEnd d (c ∷ cs) = elim (Bool-cases (c == d)) [
  | inl e ↦ let (p, h) = skip-IsEnd d cs in (c ∷ p, rw e (ap (λ x. c ∷ x) h))
  | inr e ↦ ([], rw e refl)
]

upto-IsPart : (d : ℕ) (s : List ℕ) → (t : List ℕ) × (s ≡ upto d s ++ t)
upto-IsPart d [] = ([], refl)
upto-IsPart d (c ∷ cs) = elim (Bool-cases (c == d)) [
  | inl e ↦ (c ∷ cs, rw e refl)
  | inr e ↦ let (t, h) = upto-IsPart d cs in (t, rw e (ap (λ x. c ∷ x) h))
]

upto-lacks : (d : ℕ) (s : List ℕ) → lacks d (upto d s) ≡ true
upto-lacks d [] = refl
upto-lacks d (c ∷ cs) = ground (arith, upto-lacks d cs)

skip-head : (d c : ℕ) (s cs : List ℕ) → skip d s ≡ c ∷ cs → (c == d) ≡ false
skip-head d c [] cs h = absurd cc
skip-head d c (x ∷ xs) cs h = elim (Bool-cases (x == d)) [
  | inl e ↦ let later : skip d xs ≡ c ∷ cs = rw e at h in skip-head d c xs cs later
  | inr e ↦
      let here : x ∷ xs ≡ c ∷ cs = rw e at h in
      let same : x ≡ c = ap (λ l. elim l [ [] ↦ x | y ∷ ys ↦ y ]) here in rw (sym same) e
]

length-part : (src v : List ℕ) → IsPart src v → length v ≤ length src
length-part src v (p, t, e) =
    omega (arith, ap length e, length-append p (v ++ t), length-append v t)

copy_out-IsSafe :
    (src v : List ℕ) (len : ℕ)
    → 1 ≤ length v
    → lacks b'"' v ≡ true
    → IsPart src v
    → IsSafe src len (copy_out len v)
copy_out-IsSafe src v len p l i = elim (Bool-cases (leb (length v) len)) [
  | inl e ↦ rw e ((p, ground arith), (l, i))
  | inr e ↦ rw e (ground (arith, length-part src v i))
]

-- A token of the text that `strtok_r` finds at the quotes.
abbrev IsToken : List ℕ → Option (List ℕ × List ℕ) → Type 0
IsToken src none = 1 ≤ 1
IsToken src (some t) = ((1 ≤ length t.0) × (lacks b'"' t.0 ≡ true)) × IsPart src t.0

upto-length : (d c : ℕ) (cs : List ℕ) → (c == d) ≡ false → 1 ≤ length (upto d (c ∷ cs))
upto-length d c cs h = rw h omega arith

IsEnd-IsPart : (src v s t : List ℕ) → IsEnd src s → s ≡ v ++ t → IsPart src v
IsEnd-IsPart src v s t (p, e) h = (p, t, e ∙ ap (λ x. p ++ x) h)

token-IsToken :
    (src s u : List ℕ) → IsEnd src s → skip b'"' s ≡ u → IsEnd src u → IsToken src (token b'"' u)
token-IsToken src s [] i h j = omega arith
token-IsToken src s (c ∷ cs) i h j =
    let (t, e) = upto-IsPart b'"' (c ∷ cs) in
    (
      (upto-length b'"' c cs (skip-head b'"' c s cs h), upto-lacks b'"' (c ∷ cs)),
      IsEnd-IsPart src (upto b'"' (c ∷ cs)) (c ∷ cs) t j e,
    )

strtok_r-IsToken : (src s : List ℕ) → IsEnd src s → IsToken src (strtok_r b'"' s)
unfolding strtok_r
strtok_r-IsToken src s i =
    token-IsToken src s (skip b'"' s) i refl (IsEnd-trans i (skip-IsEnd b'"' s))

value_of-IsSafe :
    (src : List ℕ) (len : ℕ) (o : Option (List ℕ × List ℕ))
    → IsToken src o
    → IsSafe src len (value_of len o)
value_of-IsSafe src len none i = omega arith
value_of-IsSafe src len (some t) ((p, l), i) = copy_out-IsSafe src t.0 len p l i

str_of-IsSafe :
    (src : List ℕ) (len : ℕ) (o : Option (List ℕ × List ℕ))
    → IsToken src o
    → IsSafe src len (str_of len o)
str_of-IsSafe src len none i = omega arith
str_of-IsSafe src len (some t) ((p, l), i) = copy_out-IsSafe src t.0 len p l i

-- What is left of the text after a search.
abbrev EndsIn : List ℕ → Option (List ℕ) → Type 0
EndsIn src o = (t : List ℕ) → o ≡ some t → IsEnd src t

search_on : {src s : List ℕ} (key : List ℕ) → IsEnd src s → EndsIn src (strstr s key)
search_on {src} {s} key i t e = IsEnd-trans i (strstr-IsEnd s key t e)

at_quote-IsSafe :
    (src : List ℕ) (len : ℕ) (o : Option (List ℕ)) → EndsIn src o → IsSafe src len (at_quote len o)
at_quote-IsSafe src len none h = omega arith
at_quote-IsSafe src len (some p) h =
    value_of-IsSafe src len (strtok_r b'"' p) (strtok_r-IsToken src p (h p refl))

at_colon-IsSafe :
    (src : List ℕ) (len : ℕ) (o : Option (List ℕ)) → EndsIn src o → IsSafe src len (at_colon len o)
at_colon-IsSafe src len none h = omega arith
at_colon-IsSafe src len (some p) h =
    at_quote-IsSafe src len (strstr p (b'"' ∷ [])) (search_on (b'"' ∷ []) (h p refl))

at_key-IsSafe :
    (src : List ℕ) (len : ℕ) (o : Option (List ℕ)) → EndsIn src o → IsSafe src len (at_key len o)
at_key-IsSafe src len none h = omega arith
at_key-IsSafe src len (some p) h =
    at_colon-IsSafe src len (strstr p (b':' ∷ [])) (search_on (b':' ∷ []) (h p refl))

past-IsEnd : (d : ℕ) (s : List ℕ) → IsEnd s (past d s)
past-IsEnd d [] = ([], refl)
past-IsEnd d (c ∷ cs) = elim (Bool-cases (c == d)) [
  | inl e ↦ (c ∷ [], rw e refl)
  | inr e ↦ let (p, h) = past-IsEnd d cs in (c ∷ p, rw e (ap (λ x. c ∷ x) h))
]

token-past : (d : ℕ) (s : List ℕ) (t : List ℕ × List ℕ) → token d s ≡ some t → IsEnd s t.1
token-past d [] t e = absurd cc
token-past d (c ∷ cs) t e =
    let same : past d (c ∷ cs) ≡ t.1 =
      ap (λ o. elim o [ none ↦ past d (c ∷ cs) | some x ↦ x.1 ]) e in
    rw (sym same) (past-IsEnd d (c ∷ cs))

strtok_r-past : (d : ℕ) (s : List ℕ) (t : List ℕ × List ℕ) → strtok_r d s ≡ some t → IsEnd s t.1
unfolding strtok_r
strtok_r-past d s t e = IsEnd-trans (skip-IsEnd d s) (token-past d (skip d s) t e)

str_behind-IsSafe :
    (src : List ℕ) (len : ℕ) (o : Option (List ℕ × List ℕ))
    → ((t : List ℕ × List ℕ) → o ≡ some t → IsEnd src t.1)
    → IsSafe src len (str_behind len o)
str_behind-IsSafe src len none h = omega arith
str_behind-IsSafe src len (some t) h =
    str_of-IsSafe src len (strtok_r b'"' t.1) (strtok_r-IsToken src t.1 (h t refl))

str_at_key-IsSafe :
    (src : List ℕ) (len : ℕ) (o : Option (List ℕ))
    → EndsIn src o
    → IsSafe src len (str_at_key len o)
str_at_key-IsSafe src len none h = omega arith
str_at_key-IsSafe src len (some p) h =
    str_behind-IsSafe src len (strtok_r b':' p)
      (λ t e. IsEnd-trans (h p refl) (strtok_r-past b':' p t e))

-- On every text shorter than 512 characters and every key, what `Get_Key_Value` and
-- `Find_Str_By_Key` find is a part of the text, not empty, without a quote, and no longer than the
-- destination; otherwise they return a negative number, or the text is longer than the destination
-- and a part of it is written past its end.
pub get_key_value-IsSafe :
    (src key : List ℕ) (len : ℕ)
    → length src < 512
    → IsSafe src len (get_key_value (some src) key len)
      × IsSafe src len (find_str_by_key (some src) key len)
unfolding get_key_value find_str_by_key
get_key_value-IsSafe src key len h = (value src refl, string)
  where
    found_at : EndsIn src (strstr src key)
    found_at = search_on key ([], refl)

    value : (s : List ℕ) → src ≡ s → IsSafe src len (get_key_value (some s) key len)
    value [] e = omega arith
    value (c ∷ cs) e =
        let fits : ltb (length (c ∷ cs)) 512 ≡ true = ground (arith, ap length e) in
        rw (fits, sym e) (at_key-IsSafe src len (strstr src key) found_at)

    string : IsSafe src len (find_str_by_key (some src) key len)
    string =
        let fits : ltb (length src) 1024 ≡ true = ground arith in
        rw fits (str_at_key-IsSafe src len (strstr src key) found_at)
