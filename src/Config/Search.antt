-- ===== src/Config/Search.antt =====
-- `ReadString` finds the item of the section of the block, and only there.
use tdm.Base.{
  ℕ, ◌≡◌, refl, ap, ◌∙◌, Bool, true, false, ◌||◌, Option, none, some, List, [], ◌∷◌, ◌++◌, arith,
  if◌then◌else◌,
}
use tdm.Trim.{}
use tdm.Trim.InPlace.{trim_left, trim_right, all_trim_lem}
use tdm.Config.{
  skip_blanks, behind, behind_brace, block_line, section_line, item_line, cut_at, item_value,
  is_some, found_or, find_item, find_section, find_block, read_string,
}

-- A test fails on all lines of a list.
abbrev pub none_of : (List ℕ → Bool) → List (List ℕ) → Bool
none_of p [] = true
none_of p (l ∷ ls) = if p l then false else none_of p ls

-- The lines that end the search for an item, and those that it reads.
abbrev pub is_item_stop : List ℕ → List ℕ → Bool
is_item_stop item l =
    (is_some (behind b'[' (skip_blanks l)) || is_some (behind_brace l))
    || is_some (item_line item l)

-- The lines that end the search for a section, and the line of the section.
abbrev pub is_section_stop : List ℕ → List ℕ → Bool
is_section_stop section l = is_some (behind_brace l) || is_some (section_line section l)

none_of-head :
    (p : List ℕ → Bool) (l : List ℕ) (ls : List (List ℕ)) → none_of p (l ∷ ls) ≡ true → p l ≡ false
none_of-head p l ls h = ground arith

none_of-tail :
    (p : List ℕ → Bool) (l : List ℕ) (ls : List (List ℕ))
    → none_of p (l ∷ ls) ≡ true
    → none_of p ls ≡ true
none_of-tail p l ls h = ground arith

go_on :
    (stop : Bool) (o rest : Option (List ℕ))
    → (stop || is_some o) ≡ false
    → (if stop then none else found_or rest o) ≡ rest
go_on true o rest h = absurd cc
go_on false none rest h = refl
go_on false (some s) rest h = absurd cc

found_here :
    (stop : Bool) (o rest : Option (List ℕ)) (s : List ℕ)
    → stop ≡ false
    → o ≡ some s
    → (if stop then none else found_or rest o) ≡ some (item_value s)
found_here true o rest s h e = absurd cc
found_here false o rest s h e = ap (found_or rest) e

find_item-past :
    (item : List ℕ) (others rest : List (List ℕ))
    → none_of (is_item_stop item) others ≡ true
    → find_item item (others ++ rest) ≡ find_item item rest
unfolding find_item
find_item-past item [] rest h = refl
find_item-past item (l ∷ ls) rest h =
    go_on (is_some (behind b'[' (skip_blanks l)) || is_some (behind_brace l)) (item_line item l)
      (find_item item (ls ++ rest)) (none_of-head (is_item_stop item) l ls h)
    ∙ find_item-past item ls rest (none_of-tail (is_item_stop item) l ls h)

pass_by :
    (a b : Bool) (x y : Option (List ℕ))
    → (a || b) ≡ false
    → (if a then none else if b then x else y) ≡ y
pass_by true b x y h = absurd cc
pass_by false true x y h = absurd cc
pass_by false false x y h = refl

find_section-past :
    (section item : List ℕ) (others rest : List (List ℕ))
    → none_of (is_section_stop section) others ≡ true
    → find_section section item (others ++ rest) ≡ find_section section item rest
unfolding find_section
find_section-past section item [] rest h = refl
find_section-past section item (l ∷ ls) rest h =
    pass_by (is_some (behind_brace l)) (is_some (section_line section l)) _ _
      (none_of-head (is_section_stop section) l ls h)
    ∙ find_section-past section item ls rest (none_of-tail (is_section_stop section) l ls h)

unfoldable pub is_block_line : List ℕ → List ℕ → Bool
is_block_line block l = is_some (block_line block l)

find_block-past :
    (block section item : List ℕ) (others rest : List (List ℕ))
    → none_of (is_block_line block) others ≡ true
    → find_block block section item (others ++ rest) ≡ find_block block section item rest
unfolding find_block is_block_line
find_block-past block section item [] rest h = refl
find_block-past block section item (l ∷ ls) rest h =
    rw (none_of-head (is_block_line block) l ls h)
      (find_block-past block section item ls rest (none_of-tail (is_block_line block) l ls h))

block_found :
    (block section item b : List ℕ) (ls : List (List ℕ))
    → is_block_line block b ≡ true
    → find_block block section item (b ∷ ls) ≡ find_section section item ls
unfolding find_block is_block_line
block_found block section item b ls h = rw h refl

section_found :
    (section item s : List ℕ) (ls : List (List ℕ))
    → is_some (behind_brace s) ≡ false
    → is_some (section_line section s) ≡ true
    → find_section section item (s ∷ ls) ≡ find_item item ls
unfolding find_section
section_found section item s ls h f = chosen (is_some (behind_brace s)) _ _ _ h f
  where
    chosen :
        (a b : Bool) (x y : Option (List ℕ))
        → a ≡ false
        → b ≡ true
        → (if a then none else if b then x else y) ≡ x
    chosen true b x y h f = absurd cc
    chosen false true x y h f = refl
    chosen false false x y h f = absurd cc

item_found :
    (item i : List ℕ) (ls : List (List ℕ)) (text : List ℕ)
    → (is_some (behind b'[' (skip_blanks i)) || is_some (behind_brace i)) ≡ false
    → item_line item i ≡ some text
    → find_item item (i ∷ ls)
      ≡ some (trim_right (trim_left (cut_at 13 (cut_at 10 (cut_at b'#' text)))))
unfolding find_item item_value
item_found item i ls text h f =
    found_here _ (item_line item i) (find_item item ls) text h f ∙ ap some (all_trim_lem _)

-- In a file where the line `{$block}` comes first of its kind, then the line `[section]` before any
-- other block, then the line `item = text` before any other section or block and first of its kind,
-- `ReadString` finds the text up to a comment or the end of the line, without the spaces at its two
-- ends.
pub read_string-item :
    (block section item : List ℕ) (before between others rest : List (List ℕ)) (b s i text : List ℕ)
    → none_of (is_block_line block) before ≡ true
    → is_block_line block b ≡ true
    → none_of (is_section_stop section) between ≡ true
    → is_some (behind_brace s) ≡ false
    → is_some (section_line section s) ≡ true
    → none_of (is_item_stop item) others ≡ true
    → (is_some (behind b'[' (skip_blanks i)) || is_some (behind_brace i)) ≡ false
    → item_line item i ≡ some text
    → read_string (before ++ b ∷ (between ++ s ∷ (others ++ i ∷ rest))) block section item
      ≡ some (trim_right (trim_left (cut_at 13 (cut_at 10 (cut_at b'#' text)))))
unfolding read_string
read_string-item block section item before between others rest b s i text hb fb hs ns fs hi ni fi =
    find_block-past block section item before (b ∷ (between ++ s ∷ (others ++ i ∷ rest))) hb
    ∙ block_found block section item b (between ++ s ∷ (others ++ i ∷ rest)) fb
    ∙ find_section-past section item between (s ∷ (others ++ i ∷ rest)) hs
    ∙ section_found section item s (others ++ i ∷ rest) ns fs
    ∙ find_item-past item others (i ∷ rest) hi
    ∙ item_found item i rest text ni fi
