-- ===== src/Config/Lines.antt =====
-- `ReadString` on the lines of a file, written out.
use tdm.Base.{
  ℕ, ◌-◌, ◌≤◌, ◌≡◌, ◌≢◌, refl, ap, ◌∙◌, ◌⊎◌, inl, inr, Bool, true, false, none, some, List, [], ◌∷◌,
  ◌++◌, ◌==◌, arith,
}
use tdm.Trim.InPlace.{}
use tdm.Config.{
  is_blank, skip_blanks, lower, behind_word, behind, behind_brace, block_line, section_line,
  item_line, cut_at, is_some,
}
use tdm.Config.Search.{none_of, is_block_line}

-- Spaces and tabs.
abbrev pub AllBlank : List ℕ → Type 0
AllBlank [] = Unit
AllBlank (c ∷ cs) = ((c ≡ 32) ⊎ (c ≡ 9)) × AllBlank cs

-- Not a space and not a tab.
abbrev pub IsDark : ℕ → Type 0
IsDark c = (c ≢ 32) × (c ≢ 9)

skip_blanks_front :
    (bl : List ℕ) (c : ℕ) (cs : List ℕ)
    → AllBlank bl
    → IsDark c
    → skip_blanks (bl ++ c ∷ cs) ≡ c ∷ cs
skip_blanks_front [] c cs h d = let dark : is_blank c ≡ false = ground arith in rw dark refl
skip_blanks_front (b ∷ bl) c cs h d =
    let blank : is_blank b ≡ true = ground arith in rw blank (skip_blanks_front bl c cs h.1 d)

behind_word_self : (w rest : List ℕ) → behind_word w (w ++ rest) ≡ some rest
behind_word_self [] rest = refl
behind_word_self (c ∷ w) rest =
    let same : (lower c == lower c) ≡ true = ground arith in rw same (behind_word_self w rest)

-- A line whose first character, behind blanks, has a property.
abbrev pub IsLine : (ℕ → Type 0) → List ℕ → Type 0
IsLine P l =
    (bl : List ℕ) × ((c : ℕ) × ((cs : List ℕ) × ((AllBlank bl × (l ≡ bl ++ c ∷ cs))
          × (IsDark c × P c))))

abbrev pub AllLines : (ℕ → Type 0) → List (List ℕ) → Type 0
AllLines P [] = Unit
AllLines P (l ∷ ls) = IsLine P l × AllLines P ls

pub none_of-AllLines :
    (P : ℕ → Type 0) (p : List ℕ → Bool) (ls : List (List ℕ))
    → ((l : List ℕ) → IsLine P l → p l ≡ false)
    → AllLines P ls
    → none_of p ls ≡ true
none_of-AllLines P p [] fails all = refl
none_of-AllLines P p (l ∷ ls) fails all = rw (fails l all.0) (none_of-AllLines P p ls fails all.1)

-- The first character of a line, and what begins with another.
module _ (bl : List ℕ) (c : ℕ) (cs : List ℕ) (h : AllBlank bl) (d : IsDark c) where
  pub no_behind : (b : ℕ) → c ≢ b → behind b (skip_blanks (bl ++ c ∷ cs)) ≡ none
  no_behind b ne =
      let other : (c == b) ≡ false = ground arith in rw (skip_blanks_front bl c cs h d, other) refl

  pub no_brace : c ≢ b'{' → behind_brace (bl ++ c ∷ cs) ≡ none
  no_brace ne = rw (no_behind b'{' ne) refl

  pub no_section : (section : List ℕ) → c ≢ b'[' → section_line section (bl ++ c ∷ cs) ≡ none
  unfolding section_line
  no_section section ne = rw (no_behind b'[' ne) refl

  pub no_block : (block : List ℕ) → c ≢ b'{' → is_block_line block (bl ++ c ∷ cs) ≡ false
  unfolding is_block_line block_line
  no_block block ne = rw (no_brace ne) refl

  pub no_item :
      (w : ℕ) (ws : List ℕ)
      → (97 ≤ w) × (w ≤ 122)
      → (c ≢ w) × (c ≢ w - 32)
      → item_line (w ∷ ws) (bl ++ c ∷ cs) ≡ none
  unfolding item_line
  no_item w ws small ne =
      let other : (lower w == lower c) ≡ false = ground arith in
      rw (skip_blanks_front bl c cs h d, other) refl

pub block_is :
    (bl block tail : List ℕ)
    → AllBlank bl
    → is_block_line block (bl ++ b'{' ∷ b'$' ∷ (block ++ b'}' ∷ tail)) ≡ true
unfolding is_block_line block_line
block_is bl block tail h =
    rw
      (
        skip_blanks_front bl b'{' (b'$' ∷ (block ++ b'}' ∷ tail)) h (omega arith, omega arith),
        behind_word_self block (b'}' ∷ tail),
      )
      refl

pub section_is :
    (bl section tail : List ℕ)
    → AllBlank bl
    → is_some (section_line section (bl ++ b'[' ∷ (section ++ b']' ∷ tail))) ≡ true
unfolding section_line
section_is bl section tail h =
    rw
      (
        skip_blanks_front bl b'[' (section ++ b']' ∷ tail) h (omega arith, omega arith),
        behind_word_self section (b']' ∷ tail),
      )
      refl

pub item_is :
    (bl gap : List ℕ) (w : ℕ) (ws text : List ℕ)
    → AllBlank bl
    → AllBlank gap
    → (97 ≤ w) × (w ≤ 122)
    → item_line (w ∷ ws) (bl ++ w ∷ (ws ++ (gap ++ b'=' ∷ text))) ≡ some text
unfolding item_line
item_is bl gap w ws text h g small =
    rw
      (
        skip_blanks_front bl w (ws ++ (gap ++ b'=' ∷ text)) h (omega arith, omega arith),
        behind_word_self (w ∷ ws) (gap ++ b'=' ∷ text),
        skip_blanks_front gap b'=' text g (omega arith, omega arith),
      )
      refl

-- No `#`, and no end of a line.
abbrev pub IsPlainText : List ℕ → Type 0
IsPlainText [] = Unit
IsPlainText (c ∷ cs) = ((c ≢ b'#') × ((c ≢ 10) × (c ≢ 13))) × IsPlainText cs

-- The characters that end a text.
abbrev pub IsEnd : ℕ → Type 0
IsEnd k = (k ≡ b'#') ⊎ ((k ≡ 10) ⊎ (k ≡ 13))

cut_at_here : (k : ℕ) (v tail : List ℕ) → IsEnd k → IsPlainText v → cut_at k (v ++ k ∷ tail) ≡ v
cut_at_here k [] tail one h = let same : (k == k) ≡ true = ground arith in rw same refl
cut_at_here k (c ∷ v) tail one h =
    let other : (c == k) ≡ false = ground arith in
    rw other (ap (λ r. c ∷ r) (cut_at_here k v tail one h.1))

cut_at_all : (k : ℕ) (v : List ℕ) → IsEnd k → IsPlainText v → cut_at k v ≡ v
cut_at_all k [] one h = refl
cut_at_all k (c ∷ v) one h =
    let other : (c == k) ≡ false = ground arith in
    rw other (ap (λ r. c ∷ r) (cut_at_all k v one h.1))

cut_at_behind :
    (k d : ℕ) (v tail : List ℕ)
    → IsEnd k
    → d ≢ k
    → IsPlainText v
    → cut_at k (v ++ d ∷ tail) ≡ v ++ d ∷ cut_at k tail
cut_at_behind k d [] tail one ne h = let other : (d == k) ≡ false = ground arith in rw other refl
cut_at_behind k d (c ∷ v) tail one ne h =
    let other : (c == k) ≡ false = ground arith in
    rw other (ap (λ r. c ∷ r) (cut_at_behind k d v tail one ne h.1))

hash : IsEnd b'#'
hash = inl refl

pub value_cut :
    (d : ℕ) (v tail : List ℕ)
    → IsEnd d
    → IsPlainText v
    → cut_at 13 (cut_at 10 (cut_at b'#' (v ++ d ∷ tail))) ≡ v
value_cut d v tail (inl e) h = rw e (
    ap (λ x. cut_at 13 (cut_at 10 x)) (cut_at_here b'#' v tail hash h)
    ∙ ap (cut_at 13) (cut_at_all 10 v (inr (inl refl)) h)
    ∙ cut_at_all 13 v (inr (inr refl)) h)
value_cut d v tail (inr (inl e)) h = rw e (
    ap (λ x. cut_at 13 (cut_at 10 x)) (cut_at_behind b'#' 10 v tail hash (omega arith) h)
    ∙ ap (cut_at 13) (cut_at_here 10 v (cut_at b'#' tail) (inr (inl refl)) h)
    ∙ cut_at_all 13 v (inr (inr refl)) h)
value_cut d v tail (inr (inr e)) h = rw e (
    ap (λ x. cut_at 13 (cut_at 10 x)) (cut_at_behind b'#' 13 v tail hash (omega arith) h)
    ∙ ap (cut_at 13) (cut_at_behind 10 13 v (cut_at b'#' tail) (inr (inl refl)) (omega arith) h)
    ∙ cut_at_here 13 v (cut_at 10 (cut_at b'#' tail)) (inr (inr refl)) h)
