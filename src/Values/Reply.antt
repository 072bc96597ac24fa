-- ===== src/Values/Reply.antt =====
-- `Data_Coing` on a reply of the server: four numbers, a bar, and an object in brackets.
use tdm.Base.{
  ℕ, zero, suc, ◌-◌, ◌<◌, ◌≤◌, ◌≡◌, refl, sym, ap, ◌∙◌, true, none, some, List, [], ◌∷◌, ◌++◌, leb,
  take, length, arith, length-append, Option-cases, inl, inr,
}
use tdm.Base.Int.{}
use tdm.Text.{atoi}
use tdm.Values.{
  skip, past, token, strtok_r, JsonDate, with_field, fields_loop, with_data, with_result, at_object,
  at_numbers, data_coing,
}
use tdm.Values.Search.{
  lacks, lacks-append, strtok_r-first, strtok_r-last, strtok_r-skip, length-skip,
}

field_round :
    (fuel i : ℕ) (s : List ℕ) (d : JsonDate) (t : List ℕ × List ℕ)
    → strtok_r b',' s ≡ some t
    → fields_loop (suc fuel) i s d ≡ fields_loop fuel (suc i) t.1 (with_field i (atoi t.0) d)
unfolding fields_loop
field_round fuel i s d t e =
    ap
      (λ o. elim o [ none ↦ d | some t ↦ fields_loop fuel (suc i) t.1 (with_field i (atoi t.0) d) ])
      e

field_end :
    (fuel i : ℕ) (s : List ℕ) (d : JsonDate) → strtok_r b',' s ≡ none → fields_loop fuel i s d ≡ d
unfolding fields_loop
field_end zero i s d e = refl
field_end (suc fuel) i s d e =
    ap
      (λ o. elim o [ none ↦ d | some t ↦ fields_loop fuel (suc i) t.1 (with_field i (atoi t.0) d) ])
      e

fields_done : (fuel i : ℕ) (d : JsonDate) → fields_loop fuel i [] d ≡ d
unfolding strtok_r
fields_done fuel i d = field_end fuel i [] d refl

length-past : (d c : ℕ) (cs : List ℕ) → length (past d (c ∷ cs)) < length (c ∷ cs)
length-past d c [] = ground arith
length-past d c (x ∷ xs) = ground (arith, length-past d x xs)

token_shorter :
    (d : ℕ) (s : List ℕ) (t : List ℕ × List ℕ) → token d s ≡ some t → length t.1 < length s
token_shorter d [] t e = absurd cc
token_shorter d (c ∷ cs) t e =
    let same : past d (c ∷ cs) ≡ t.1 =
      ap (λ o. elim o [ none ↦ past d (c ∷ cs) | some x ↦ x.1 ]) e in
    rw (sym same) (length-past d c cs)

strtok_r_shorter :
    (d : ℕ) (s : List ℕ) (t : List ℕ × List ℕ) → strtok_r d s ≡ some t → length t.1 < length s
unfolding strtok_r
strtok_r_shorter d s t e = omega (arith, token_shorter d (skip d s) t e, length-skip d s)

-- A round for each character is enough for the loop over the fields: further rounds change nothing.
fields_loop-enough :
    (f g i : ℕ) (s : List ℕ) (d : JsonDate)
    → length s ≤ f
    → length s ≤ g
    → fields_loop f i s d ≡ fields_loop g i s d
fields_loop-enough f g i [] d h k = fields_done f i d ∙ sym (fields_done g i d)
fields_loop-enough zero g i (c ∷ cs) d h k = absurd (omega arith)
fields_loop-enough (suc f) zero i (c ∷ cs) d h k = absurd (omega arith)
fields_loop-enough (suc f) (suc g) i (c ∷ cs) d h k = elim (Option-cases (strtok_r b',' (c ∷ cs))) [
  | inl e ↦ field_end (suc f) i (c ∷ cs) d e ∙ sym (field_end (suc g) i (c ∷ cs) d e)
  | inr (t, e) ↦
      let shorter = strtok_r_shorter b',' (c ∷ cs) t e in
      field_round f i (c ∷ cs) d t e
      ∙ fields_loop-enough f g (suc i) t.1 _ (omega arith) (omega arith)
      ∙ sym (field_round g i (c ∷ cs) d t e)
]

-- A field of the reply: not empty, without commas and bars.
abbrev pub IsField : List ℕ → Type 0
IsField s = (1 ≤ length s) × ((lacks b',' s ≡ true) × (lacks b'|' s ≡ true))

-- The text `head,type,num,result`.
abbrev pub header : List ℕ → List ℕ → List ℕ → List ℕ → List ℕ
header s t u v = s ++ b',' ∷ (t ++ b',' ∷ (u ++ b',' ∷ v))

pub token_first :
    (d : ℕ) (s t : List ℕ) → 1 ≤ length s → lacks d s ≡ true → strtok_r d (s ++ d ∷ t) ≡ some (s, t)
token_first d [] t p h = absurd (omega arith)
token_first d (x ∷ xs) t p h = strtok_r-first d x xs t h

field_first : (s t : List ℕ) → IsField s → strtok_r b',' (s ++ b',' ∷ t) ≡ some (s, t)
field_first s t (p, (c, b)) = token_first b',' s t p c

field_last : (s : List ℕ) → IsField s → strtok_r b',' s ≡ some (s, [])
field_last [] (p, (c, b)) = absurd (omega arith)
field_last (x ∷ xs) (p, (c, b)) = strtok_r-last b',' x xs c

-- The four numbers of the reply, in `d`.
abbrev pub with_numbers : List ℕ → List ℕ → List ℕ → List ℕ → JsonDate → JsonDate
with_numbers s t u v d = record d {
  head = atoi s;
  type = atoi t;
  para_num = atoi u;
  result = atoi v;
}

fields_loop-header :
    (fuel : ℕ) (s t u v : List ℕ) (d : JsonDate)
    → IsField s
    → IsField t
    → IsField u
    → IsField v
    → fields_loop (suc (suc (suc (suc fuel)))) 0 (header s t u v) d ≡ with_numbers s t u v d
fields_loop-header fuel s t u v d hs ht hu hv =
    field_round (suc (suc (suc fuel))) 0 _ d _ (field_first s _ hs)
    ∙ field_round (suc (suc fuel)) 1 _ _ _ (field_first t _ ht)
    ∙ field_round (suc fuel) 2 _ _ _ (field_first u v hu)
    ∙ field_round fuel 3 v _ _ (field_last v hv)
    ∙ fields_done fuel 4 _

take_prefix : (xs ys : List ℕ) → take (length xs) (xs ++ ys) ≡ xs
take_prefix [] ys = refl
take_prefix (x ∷ xs) ys = ap (λ r. x ∷ r) (take_prefix xs ys)

-- The object without its first and its last character, copied.
abbrev pub with_text : JsonDate → List ℕ → JsonDate
with_text d inner = record d { len = length inner; text = inner }

with_data-inner :
    (d : JsonDate) (c : ℕ) (inner : List ℕ) (x : ℕ)
    → length inner ≤ 512
    → with_data d (c ∷ (inner ++ x ∷ [])) ≡ some (with_text d inner)
with_data-inner d c [] x h = refl
with_data-inner d c (e ∷ es) x h =
    let size : length (es ++ x ∷ []) ≡ length (e ∷ es) = omega (arith, length-append es (x ∷ [])) in
    let fits : leb (length (e ∷ es)) 512 ≡ true = ground arith in
    rw (size, fits, take_prefix (e ∷ es) (x ∷ [])) refl

header-lacks :
    (s t u v : List ℕ)
    → IsField s
    → IsField t
    → IsField u
    → IsField v
    → lacks b'|' (header s t u v) ≡ true
header-lacks s t u v hs ht hu hv =
    lacks-append b'|' s _ hs.1.1
      (lacks-append b'|' t _ ht.1.1 (lacks-append b'|' u _ hu.1.1 hv.1.1))

length-header :
    (s t u v : List ℕ)
    → 1 ≤ length s
    → (n : ℕ) × (length (header s t u v) ≡ suc (suc (suc (suc n))))
length-header s t u v h =
    let rest = t ++ b',' ∷ (u ++ b',' ∷ v) in
    (
      length (header s t u v) - 4,
      omega (
        arith,
        length-append s (b',' ∷ rest),
        length-append t (b',' ∷ (u ++ b',' ∷ v)),
        length-append u (b',' ∷ v),
      ),
    )

-- The reply `head,type,num,result|[object`.
abbrev pub reply : List ℕ → List ℕ → List ℕ → List ℕ → List ℕ → List ℕ
reply s t u v object = header s t u v ++ b'|' ∷ b'[' ∷ object

data_coing_open :
    (s : List ℕ) (d : JsonDate) → 1 ≤ length s → data_coing s d ≡ at_numbers d (strtok_r b'|' s)
unfolding data_coing
data_coing_open [] d h = absurd (omega arith)
data_coing_open (c ∷ cs) d h = refl

-- On a reply `head,type,num,result|[object`, whose four numbers are not empty and have no comma and
-- no bar in them, and whose object has no further opening bracket and at most 512 characters between
-- its first and its last, `Data_Coing` reads the four numbers, copies the object without its first
-- and its last character, and returns the number `result`.
pub data_coing-reply :
    (s t u v : List ℕ) (c : ℕ) (inner : List ℕ) (x : ℕ) (d : JsonDate)
    → IsField s
    → IsField t
    → IsField u
    → IsField v
    → lacks b'[' (c ∷ (inner ++ x ∷ [])) ≡ true
    → length inner ≤ 512
    → data_coing (reply s t u v (c ∷ (inner ++ x ∷ []))) d
      ≡ some (with_text (with_numbers s t u v d) inner, atoi v)
data_coing-reply s t u v c inner x d hs ht hu hv l h =
    let (n, e) = length-header s t u v hs.0 in
    let text = c ∷ (inner ++ x ∷ []) in
    let numbers = with_numbers s t u v d in
    let long : 1 ≤ length (header s t u v) = omega arith in
    let longer : 1 ≤ length (reply s t u v text) =
      omega (arith, length-append (header s t u v) (b'|' ∷ b'[' ∷ text)) in
    data_coing_open (reply s t u v text) d longer
    ∙ ap (at_numbers d)
        (token_first b'|' (header s t u v) (b'[' ∷ text) long (header-lacks s t u v hs ht hu hv))
    ∙ ap (λ k. at_object (fields_loop k 0 (header s t u v) d) (strtok_r b'[' (b'[' ∷ text))) e
    ∙ ap (λ r. at_object r (strtok_r b'[' (b'[' ∷ text)))
        (fields_loop-header n s t u v d hs ht hu hv)
    ∙ ap (at_object numbers) (strtok_r-skip b'[' text ∙ strtok_r-last b'[' c (inner ++ x ∷ []) l)
    ∙ ap with_result (with_data-inner numbers c inner x h)
