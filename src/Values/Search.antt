-- ===== src/Values/Search.antt =====
-- `strstr` finds the first occurrence, and `strtok_r` the text between two delimiters.
use tdm.Base.{
  ℕ, ◌≤◌, ◌≡◌, refl, sym, ap, ap₂, ◌∙◌, Bool, true, false, none, some, List, [], ◌∷◌, ◌++◌, ◌==◌,
  length, arith, if◌then◌else◌, Bool-cases, inl, inr,
}
use tdm.Values.{starts, strstr, skip, upto, past, token, strtok_r}

-- `lacks d s`: the character `d` is not in `s`.
abbrev pub lacks : ℕ → List ℕ → Bool
lacks d [] = true
lacks d (c ∷ cs) = if c == d then false else lacks d cs

pub lacks-append :
    (d : ℕ) (s t : List ℕ) → lacks d s ≡ true → lacks d t ≡ true → lacks d (s ++ t) ≡ true
lacks-append d [] t h g = g
lacks-append d (c ∷ cs) t h g = ground (arith, lacks-append d cs t)

starts-append : (key t : List ℕ) → starts key (key ++ t) ≡ true
starts-append [] t = refl
starts-append (k ∷ ks) t = ground (arith, starts-append ks t)

-- A text that ends before a character which the key lacks begins with the key only by itself.
starts-past :
    (d : ℕ) (key p t : List ℕ) → lacks d key ≡ true → starts key (p ++ d ∷ t) ≡ starts key p
starts-past d [] p t h = refl
starts-past d (k ∷ ks) [] t h = ground arith
starts-past d (k ∷ ks) (c ∷ cs) t h = ground (arith, starts-past d ks cs t)

strstr-here : (s key : List ℕ) → starts key s ≡ true → strstr s key ≡ some s
unfolding strstr
strstr-here [] key h = rw h refl
strstr-here (c ∷ cs) key h = rw h refl

strstr-there :
    (c : ℕ) (cs key : List ℕ) → starts key (c ∷ cs) ≡ false → strstr (c ∷ cs) key ≡ strstr cs key
unfolding strstr
strstr-there c cs key h = rw h refl

strstr-none-head :
    (c : ℕ) (cs key : List ℕ) → strstr (c ∷ cs) key ≡ none → starts key (c ∷ cs) ≡ false
unfolding strstr
strstr-none-head c cs key h = elim (Bool-cases (starts key (c ∷ cs))) [
  | inl e ↦ ground (arith, strstr-here (c ∷ cs) key e)
  | inr e ↦ e
]

strstr-none-tail : (c : ℕ) (cs key : List ℕ) → strstr (c ∷ cs) key ≡ none → strstr cs key ≡ none
strstr-none-tail c cs key h = sym (strstr-there c cs key (strstr-none-head c cs key h)) ∙ h

starts-nil : (key : List ℕ) → strstr [] key ≡ none → starts key [] ≡ false
unfolding strstr
starts-nil key h = ground arith

-- A key behind a character that it lacks is found there if it is not found before.
pub strstr-first :
    (d : ℕ) (key p t : List ℕ)
    → lacks d key ≡ true
    → strstr p key ≡ none
    → strstr (p ++ d ∷ (key ++ t)) key ≡ some (key ++ t)
strstr-first d key [] t h n =
    strstr-there d (key ++ t) key (starts-past d key [] (key ++ t) h ∙ starts-nil key n)
    ∙ strstr-here (key ++ t) key (starts-append key t)
strstr-first d key (c ∷ cs) t h n =
    strstr-there c (cs ++ d ∷ (key ++ t)) key
      (starts-past d key (c ∷ cs) (key ++ t) h ∙ strstr-none-head c cs key n)
    ∙ strstr-first d key cs t h (strstr-none-tail c cs key n)

pub strstr-char :
    (d : ℕ) (s t : List ℕ) → lacks d s ≡ true → strstr (s ++ d ∷ t) (d ∷ []) ≡ some (d ∷ t)
strstr-char d [] t h = strstr-here (d ∷ t) (d ∷ []) (starts-append (d ∷ []) t)
strstr-char d (c ∷ cs) t h =
    let differs : starts (d ∷ []) (c ∷ cs ++ d ∷ t) ≡ false = ground arith in
    let later : lacks d cs ≡ true = ground arith in
    strstr-there c (cs ++ d ∷ t) (d ∷ []) differs ∙ strstr-char d cs t later

upto-first : (d : ℕ) (s t : List ℕ) → lacks d s ≡ true → upto d (s ++ d ∷ t) ≡ s
upto-first d [] t h = ground arith
upto-first d (c ∷ cs) t h = ground (arith, upto-first d cs t)

past-first : (d : ℕ) (s t : List ℕ) → lacks d s ≡ true → past d (s ++ d ∷ t) ≡ t
past-first d [] t h = ground arith
past-first d (c ∷ cs) t h = ground (arith, past-first d cs t)

upto-all : (d : ℕ) (s : List ℕ) → lacks d s ≡ true → upto d s ≡ s
upto-all d [] h = refl
upto-all d (c ∷ cs) h = ground (arith, upto-all d cs)

past-all : (d : ℕ) (s : List ℕ) → lacks d s ≡ true → past d s ≡ []
past-all d [] h = refl
past-all d (c ∷ cs) h = ground (arith, past-all d cs)

skip-none : (d c : ℕ) (cs : List ℕ) → (c == d) ≡ false → skip d (c ∷ cs) ≡ c ∷ cs
skip-none d c cs h = rw h refl

-- Delimiters before the token are skipped.
pub strtok_r-skip : (d : ℕ) (s : List ℕ) → strtok_r d (d ∷ s) ≡ strtok_r d s
unfolding strtok_r
strtok_r-skip d s = let same : (d == d) ≡ true = ground arith in rw same refl

pub strtok_r-first :
    (d c : ℕ) (cs t : List ℕ)
    → lacks d (c ∷ cs) ≡ true
    → strtok_r d (c ∷ cs ++ d ∷ t) ≡ some (c ∷ cs, t)
unfolding strtok_r
strtok_r-first d c cs t h =
    let differs : (c == d) ≡ false = ground arith in
    ap (token d) (skip-none d c (cs ++ d ∷ t) differs)
    ∙ ap some (ap₂ (λ a b. (a, b)) (upto-first d (c ∷ cs) t h) (past-first d (c ∷ cs) t h))

pub strtok_r-last :
    (d c : ℕ) (cs : List ℕ) → lacks d (c ∷ cs) ≡ true → strtok_r d (c ∷ cs) ≡ some (c ∷ cs, [])
unfolding strtok_r
strtok_r-last d c cs h =
    let differs : (c == d) ≡ false = ground arith in
    ap (token d) (skip-none d c cs differs)
    ∙ ap some (ap₂ (λ a b. (a, b)) (upto-all d (c ∷ cs) h) (past-all d (c ∷ cs) h))

pub length-upto : (d : ℕ) (s : List ℕ) → length (upto d s) ≤ length s
length-upto d [] = omega arith
length-upto d (c ∷ cs) = ground (arith, length-upto d cs)

pub length-skip : (d : ℕ) (s : List ℕ) → length (skip d s) ≤ length s
length-skip d [] = omega arith
length-skip d (c ∷ cs) = ground (arith, length-skip d cs)
