-- ===== src/Trim/InPlace.antt =====
-- `AllTrim` in place leaves what a definition without a buffer gives.
use tdm.Base.{
  ℕ, zero, suc, ◌+◌, ◌-◌, ◌≤◌, ◌≡◌, refl, sym, ap, ◌∙◌, inl, inr, Bool, true, false, ◌&&◌, List, [],
  ◌∷◌, ◌++◌, ◌==◌, if◌then◌else◌, length, length-append, get_or, set, take, arith, Bool-cases,
  append-nil, append_assoc,
}
use tdm.Trim.{Trimming, trim_step, trim_loop, all_trim}

-- Without the spaces at the beginning.
unfoldable pub trim_left : List ℕ → List ℕ
trim_left [] = []
trim_left (c ∷ cs) = let rest = trim_left cs in if c == 32 then rest else c ∷ cs

abbrev is_nil : List ℕ → Bool
is_nil [] = true
is_nil (c ∷ cs) = false

-- Without the spaces at the end.
unfoldable pub trim_right : List ℕ → List ℕ
trim_right [] = []
trim_right (c ∷ cs) = let rest = trim_right cs in if (c == 32) && is_nil rest then [] else c ∷ rest

trim_right-space : (xs : List ℕ) → trim_right (xs ++ 32 ∷ []) ≡ trim_right xs
unfolding trim_right
trim_right-space [] = refl
trim_right-space (x ∷ xs) =
    ap (λ r. if (x == 32) && is_nil r then [] else x ∷ r) (trim_right-space xs)

never_nil : (x : ℕ) (xs : List ℕ) (c : ℕ) → is_nil (xs ++ c ∷ []) ≡ false
never_nil x [] c = refl
never_nil x (y ∷ xs) c = refl

trim_right-char :
    (xs : List ℕ) (c : ℕ) → (c == 32) ≡ false → trim_right (xs ++ c ∷ []) ≡ xs ++ c ∷ []
unfolding trim_right
trim_right-char [] c h = rw h refl
trim_right-char (x ∷ xs) c h =
    let none_gone = never_nil x xs c in
    let rest = trim_right-char xs c h in rw (rest, none_gone) (kept (x == 32))
  where
    kept : (b : Bool) → (if b && false then [] else x ∷ (xs ++ c ∷ [])) ≡ x ∷ (xs ++ c ∷ [])
    kept true = refl
    kept false = refl

-- A text without its last spaces is a first part of it.
take-trim_right : (xs ys : List ℕ) → take (length (trim_right xs)) (xs ++ ys) ≡ trim_right xs
unfolding trim_right
take-trim_right [] ys = refl
take-trim_right (x ∷ xs) ys = elim (Bool-cases ((x == 32) && is_nil (trim_right xs))) [
  | inl e ↦ rw e refl
  | inr e ↦ rw e (ap (λ r. x ∷ r) (take-trim_right xs ys))
]

read_at : (xs ys : List ℕ) (c : ℕ) (i : ℕ) → i ≡ length xs → get_or (xs ++ c ∷ ys) i 0 ≡ c
read_at [] ys c zero e = refl
read_at [] ys c (suc i) e = absurd (omega arith)
read_at (x ∷ xs) ys c zero e = absurd (omega arith)
read_at (x ∷ xs) ys c (suc i) e = read_at xs ys c i (omega arith)

write_at :
    (out : List ℕ) (j : ℕ) (js : List ℕ) (i c : ℕ)
    → i ≡ length out
    → set (out ++ j ∷ js) i c ≡ (out ++ c ∷ []) ++ js
write_at [] j js zero c e = refl
write_at [] j js (suc i) c e = absurd (omega arith)
write_at (x ∷ out) j js zero c e = absurd (omega arith)
write_at (x ∷ out) j js (suc i) c e = ap (λ r. x ∷ r) (write_at out j js i c (omega arith))

-- One write moves the text on over the `junk` between the text and what is still to be read.
shift_one :
    (out junk rest : List ℕ) (c i : ℕ)
    → i ≡ length out
    → (next : List ℕ) × ((set ((out ++ junk) ++ c ∷ rest) i c ≡ ((out ++ c ∷ []) ++ next) ++ rest)
        × (length next ≡ length junk))
shift_one out [] rest c i e = (
  [],
  (
    ap (λ r. set (r ++ c ∷ rest) i c) (append-nil out)
        ∙ write_at out c rest i c e
        ∙ ap (λ r. r ++ rest) (sym (append-nil (out ++ c ∷ []))),
    refl,
  ),
)
shift_one out (j ∷ js) rest c i e = (
  js ++ c ∷ [],
  (
    ap (λ r. set r i c) (append_assoc out (j ∷ js) (c ∷ rest))
        ∙ write_at out j (js ++ c ∷ rest) i c e
        ∙ ap (λ r. (out ++ c ∷ []) ++ r) (sym (append_assoc js (c ∷ []) rest))
        ∙ sym (append_assoc (out ++ c ∷ []) (js ++ c ∷ []) rest),
    length-append js (c ∷ []) ∙ omega arith,
  ),
)

-- The state of the loop after the first character that is no space: the text so far, and what is
-- still to be read.
record Moved (t : Trimming) (i : ℕ) (out rest : List ℕ) : Type 0 where
  junk : List ℕ
  seen : t.first_char ≡ true
  holds : t.buf ≡ (out ++ junk) ++ rest
  behind : length junk ≡ t.first_pos
  here : i ≡ length out + t.first_pos
  last : t.end_pos + 1 ≡ t.first_pos + length (trim_right out)
  after : t.first_pos ≤ t.end_pos

grown :
    (out : List ℕ) (c e f i : ℕ)
    → i ≡ length out + f
    → e + 1 ≡ f + length (trim_right out)
    → (if c == 32 then e else i) + 1 ≡ f + length (trim_right (out ++ c ∷ []))
grown out c e f i here last = elim (Bool-cases (c == 32)) [
  | inl space ↦
      let is_space : c ≡ 32 = ground arith in
      rw is_space (last ∙ ap (λ r. f + length r) (sym (trim_right-space out)))
  | inr char ↦
      rw (char, trim_right-char out c char) (omega (arith, here, length-append out (c ∷ [])))
]

step-Moved :
    (t : Trimming) (i c : ℕ) (out rest : List ℕ)
    → Moved t i out (c ∷ rest)
    → Moved (trim_step i t) (i + 1) (out ++ c ∷ []) rest
unfolding trim_step
step-Moved t i c out rest m =
    let (next, (written, same)) =
      shift_one out m.junk rest c (i - t.first_pos) (omega (arith, m.here)) in
    let read : get_or t.buf i 0 ≡ c =
      ap (λ b. get_or b i 0) m.holds
      ∙ read_at (out ++ m.junk) rest c i
          (omega (arith, m.here, m.behind, length-append out m.junk)) in
    let seen = m.seen in
    rw (seen, read)
      (record {
        junk = next;
        seen = refl;
        holds = ap (λ b. set b (i - t.first_pos) c) m.holds ∙ written;
        behind = same ∙ m.behind;
        here = omega (arith, m.here, length-append out (c ∷ []));
        last = grown out c t.end_pos t.first_pos i m.here m.last;
        after = ground (arith, m.after, m.here);
      })

abbrev text_of : Trimming → List ℕ
text_of t = if t.first_char then take (t.end_pos - t.first_pos + 1) t.buf else []

loop-Moved :
    (rest : List ℕ) (t : Trimming) (i : ℕ) (out : List ℕ)
    → Moved t i out rest
    → text_of (trim_loop (length rest) i t) ≡ trim_right (out ++ rest)
unfolding trim_loop
loop-Moved [] t i out m =
    let seen = m.seen in
    let count : t.end_pos - t.first_pos + 1 ≡ length (trim_right out) =
      omega (arith, m.last, m.after) in
    rw (seen, count)
      (ap (take (length (trim_right out))) (m.holds ∙ append-nil _)
        ∙ take-trim_right out m.junk
        ∙ ap trim_right (sym (append-nil out)))
loop-Moved (c ∷ rest) t i out m =
    loop-Moved rest (trim_step i t) (i + 1) (out ++ c ∷ []) (step-Moved t i c out rest m)
    ∙ ap trim_right (append_assoc out (c ∷ []) rest)

abbrev untouched : List ℕ → ℕ → Trimming
untouched buf spaces = record { buf = buf; first_char = false; end_pos = 0; first_pos = spaces }

step-space :
    (buf : List ℕ) (i f c : ℕ)
    → get_or buf i 0 ≡ c
    → (c == 32) ≡ true
    → trim_step i (untouched buf f) ≡ untouched buf (f + 1)
unfolding trim_step
step-space buf i f c read space = rw (read, space) refl

abbrev started : List ℕ → ℕ → ℕ → Trimming
started buf c f = record { buf = set buf 0 c; first_char = true; end_pos = f; first_pos = f }

step-char :
    (buf : List ℕ) (i f c : ℕ)
    → get_or buf i 0 ≡ c
    → (c == 32) ≡ false
    → trim_step i (untouched buf f) ≡ started buf c f
unfolding trim_step
step-char buf i f c read char = rw (read, char) refl

trim_left-cons :
    (c : ℕ) (rest : List ℕ) → trim_left (c ∷ rest) ≡ (if c == 32 then trim_left rest else c ∷ rest)
unfolding trim_left
trim_left-cons c rest = refl

started-Moved :
    (spaces rest : List ℕ) (c i : ℕ)
    → i ≡ length spaces
    → (c == 32) ≡ false
    → Moved (started (spaces ++ c ∷ rest) c i) (i + 1) (c ∷ []) rest
started-Moved spaces rest c i e char =
    let (next, (written, same)) = shift_one [] spaces rest c 0 refl in
    record {
      junk = next;
      seen = refl;
      holds = written;
      behind = same ∙ sym e;
      here = omega arith;
      last = ap (λ r. i + length r) (sym (trim_right-char [] c char));
      after = omega arith;
    }

-- While only spaces have been read, the buffer is as it was.
loop-spaces :
    (rest spaces : List ℕ) (i : ℕ)
    → i ≡ length spaces
    → text_of (trim_loop (length rest) i (untouched (spaces ++ rest) i))
      ≡ trim_right (trim_left rest)
unfolding trim_loop
loop-spaces [] spaces i e = unfold trim_right in unfold trim_left in refl
loop-spaces (c ∷ rest) spaces i e =
    let read = read_at spaces rest c i e in
    let go = λ (t : Trimming). text_of (trim_loop (length rest) (i + 1) t) in
    elim (Bool-cases (c == 32)) [
      | inl space ↦
          ap go (
            step-space (spaces ++ c ∷ rest) i i c read space
            ∙ ap (λ b. untouched b (i + 1)) (sym (append_assoc spaces (c ∷ []) rest)))
          ∙ loop-spaces rest (spaces ++ c ∷ []) (i + 1)
              (omega (arith, e, length-append spaces (c ∷ [])))
          ∙ ap trim_right (sym (trim_left-cons c rest ∙ rw space refl))
      | inr char ↦
          ap go (step-char (spaces ++ c ∷ rest) i i c read char)
          ∙ loop-Moved rest _ (i + 1) (c ∷ []) (started-Moved spaces rest c i e char)
          ∙ ap trim_right (sym (trim_left-cons c rest ∙ rw char refl))
    ]

-- `AllTrim`, which moves the text within its own buffer in one pass, leaves the text without the
-- spaces at its beginning and at its end, and with all those between.
pub all_trim_lem : (s : List ℕ) → all_trim s ≡ trim_right (trim_left s)
unfolding all_trim
all_trim_lem s = loop-spaces s [] 0 refl
