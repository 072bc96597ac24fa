-- ===== src/Config.antt =====
-- The reader of configuration files of src/pravitelib.c, `ReadString`. A file is the list of the lines
-- that `fgets` gives before the end of the file is met, each shorter than its buffer and ending in a
-- newline; what stands behind the last newline is not read.
pub mod Found
pub mod Lines
pub mod Search
use tdm.Base.{
  ℕ, zero, suc, ◌+◌, Bool, true, false, ◌&&◌, ◌||◌, Option, none, some, List, [], ◌∷◌, ◌==◌, leb,
  if◌then◌else◌,
}
use tdm.Trim.{all_trim}

infixl 5 ◌>>=◌
abbrev pub ◌>>=◌ {ℓ} : {A B : Type ℓ} → Option A → (A → Option B) → Option B
none >>= f = none
some a >>= f = f a

abbrev pub is_blank : ℕ → Bool
is_blank c = (c == 32) || (c == 9)

abbrev pub skip_blanks : List ℕ → List ℕ
skip_blanks [] = []
skip_blanks (c ∷ cs) = let rest = skip_blanks cs in if is_blank c then rest else c ∷ cs

abbrev pub lower : ℕ → ℕ
lower c = if leb 65 c && leb c 90 then c + 32 else c

-- What stands behind a word, if the text begins with it: `strncasecmp` with the word's length.
abbrev pub behind_word : List ℕ → List ℕ → Option (List ℕ)
behind_word [] s = some s
behind_word (w ∷ ws) [] = none
behind_word (w ∷ ws) (c ∷ cs) = if lower w == lower c then behind_word ws cs else none

-- What stands behind one character.
abbrev pub behind : ℕ → List ℕ → Option (List ℕ)
behind d [] = none
behind d (c ∷ cs) = if c == d then some cs else none

-- `{$`.
abbrev pub behind_brace : List ℕ → Option (List ℕ)
behind_brace line = do s ← behind b'{' (skip_blanks line); behind b'$' s

-- `{$block}` and `[section]`: the rest of such a line.
unfoldable pub block_line : List ℕ → List ℕ → Option (List ℕ)
block_line block line = do s ← behind_brace line; t ← behind_word block s; behind b'}' t

unfoldable pub section_line : List ℕ → List ℕ → Option (List ℕ)
section_line section line = do
  s ← behind b'[' (skip_blanks line)
  t ← behind_word section s
  behind b']' t

-- `item = text`: the text.
unfoldable pub item_line : List ℕ → List ℕ → Option (List ℕ)
item_line item line = do s ← behind_word item (skip_blanks line); behind b'=' (skip_blanks s)

-- The text before a character, all of it without one.
abbrev pub cut_at : ℕ → List ℕ → List ℕ
cut_at d [] = []
cut_at d (c ∷ cs) = let rest = cut_at d cs in if c == d then [] else c ∷ rest

-- The end of `ReadString`: a comment and the end of the line are cut off.
unfoldable pub item_value : List ℕ → List ℕ
item_value s = all_trim (cut_at 13 (cut_at 10 (cut_at b'#' s)))

abbrev pub is_some {ℓ} : {A : Type ℓ} → Option A → Bool
is_some none = false
is_some (some a) = true

abbrev pub found_or : Option (List ℕ) → Option (List ℕ) → Option (List ℕ)
found_or rest none = rest
found_or rest (some s) = some (item_value s)

-- The innermost loop.
unfoldable pub find_item : List ℕ → List (List ℕ) → Option (List ℕ)
find_item item [] = none
find_item item (l ∷ ls) =
    let rest = find_item item ls in
    if is_some (behind b'[' (skip_blanks l)) || is_some (behind_brace l)
    then none
    else found_or rest (item_line item l)

-- The loop behind the line of the block.
unfoldable pub find_section : List ℕ → List ℕ → List (List ℕ) → Option (List ℕ)
find_section section item [] = none
find_section section item (l ∷ ls) =
    let rest = find_section section item ls in
    if is_some (behind_brace l)
    then none
    else if is_some (section_line section l)
    then find_item item ls
    else rest

-- The outermost loop.
unfoldable pub find_block : List ℕ → List ℕ → List ℕ → List (List ℕ) → Option (List ℕ)
find_block block section item [] = none
find_block block section item (l ∷ ls) =
    let rest = find_block block section item ls in
    if is_some (block_line block l) then find_section section item ls else rest

-- `ReadString` of a file that is opened: `sResult` when it returns 1, `none` when it returns 0.
unfoldable pub read_string : List (List ℕ) → List ℕ → List ℕ → List ℕ → Option (List ℕ)
read_string lines block section item = find_block block section item lines
