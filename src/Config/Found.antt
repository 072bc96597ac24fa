-- ===== src/Config/Found.antt =====
-- `ReadString` finds the item that is written in a file.
use tdm.Base.{ℕ, ◌-◌, ◌≤◌, ◌≡◌, ◌≢◌, refl, ap, ◌∙◌, false, ◌||◌, some, List, ◌∷◌, ◌++◌, arith}
use tdm.Trim.InPlace.{trim_left, trim_right}
use tdm.Config.{skip_blanks, behind, behind_brace, is_some, read_string}
use tdm.Config.Search.{is_item_stop, is_section_stop, is_block_line, read_string-item}
use tdm.Config.Lines.{
  AllBlank, IsLine, AllLines, IsPlainText, IsEnd, none_of-AllLines, no_behind, no_brace, no_section,
  no_block, no_item, block_is, section_is, item_is, value_cut,
}

-- The characters that a line may not begin with, behind blanks, to be passed over.
abbrev pub NotBlock : ℕ → Type 0
NotBlock c = c ≢ b'{'

abbrev pub NotHead : ℕ → Type 0
NotHead c = (c ≢ b'{') × (c ≢ b'[')

abbrev pub NotItem : ℕ → ℕ → Type 0
NotItem w c = NotHead c × ((c ≢ w) × (c ≢ w - 32))

block_passed : (block l : List ℕ) → IsLine NotBlock l → is_block_line block l ≡ false
block_passed block l (bl, (c, (cs, ((h, e), (d, ne))))) =
    ap (is_block_line block) e ∙ no_block bl c cs h d block ne

section_passed : (section l : List ℕ) → IsLine NotHead l → is_section_stop section l ≡ false
section_passed section l (bl, (c, (cs, ((h, e), (d, ne))))) =
    ap (is_section_stop section) e
    ∙ rw (no_brace bl c cs h d ne.0, no_section bl c cs h d section ne.1) refl

item_passed :
    (w : ℕ) (ws l : List ℕ)
    → (97 ≤ w) × (w ≤ 122)
    → IsLine (NotItem w) l
    → is_item_stop (w ∷ ws) l ≡ false
item_passed w ws l small (bl, (c, (cs, ((h, e), (d, ne))))) =
    ap (is_item_stop (w ∷ ws)) e
    ∙ rw
        (
          no_brace bl c cs h d ne.0.0,
          no_behind bl c cs h d b'[' ne.0.1,
          no_item bl c cs h d w ws small ne.1,
        )
        refl

section_open :
    (bl section tail : List ℕ)
    → AllBlank bl
    → is_some (behind_brace (bl ++ b'[' ∷ (section ++ b']' ∷ tail))) ≡ false
section_open bl section tail h =
    ap is_some
      (no_brace bl b'[' (section ++ b']' ∷ tail) h (omega arith, omega arith) (omega arith))

item_open :
    (bl : List ℕ) (w : ℕ) (cs : List ℕ)
    → AllBlank bl
    → (97 ≤ w) × (w ≤ 122)
    → (is_some (behind b'[' (skip_blanks (bl ++ w ∷ cs))) || is_some (behind_brace (bl ++ w ∷ cs)))
      ≡ false
item_open bl w cs h small =
    rw
      (
        no_behind bl w cs h (omega arith, omega arith) b'[' (omega arith),
        no_brace bl w cs h (omega arith, omega arith) (omega arith),
      )
      refl

-- The lines of the block, of the section and of the item; `tail` is what stands behind.
abbrev pub block_text : List ℕ → List ℕ → List ℕ → List ℕ
block_text bl block tail = bl ++ b'{' ∷ b'$' ∷ (block ++ b'}' ∷ tail)

abbrev pub section_text : List ℕ → List ℕ → List ℕ → List ℕ
section_text bl section tail = bl ++ b'[' ∷ (section ++ b']' ∷ tail)

abbrev pub item_text : List ℕ → List ℕ → List ℕ → List ℕ → List ℕ
item_text bl item gap text = bl ++ (item ++ (gap ++ b'=' ∷ text))

-- A file has lines of which none begins with `{`, the line `{$block}`, lines of which none begins with
-- `{` or `[`, the line `[section]`, lines of which none begins with `{`, `[` or the first letter of the
-- item in either case, the line `item = value`, which `#` or the end of the line ends, and any lines,
-- each line after blanks that may stand in front of it. For an item that begins with a small letter,
-- `ReadString` finds the value without the spaces at its two ends.
pub read_string-found :
    (block section : List ℕ) (w : ℕ) (ws : List ℕ) (before between others rest : List (List ℕ))
    (bl₁ bl₂ bl₃ gap tail₁ tail₂ value tail₃ : List ℕ) (end : ℕ)
    → (97 ≤ w) × (w ≤ 122)
    → AllLines NotBlock before
    → AllLines NotHead between
    → AllLines (NotItem w) others
    → AllBlank bl₁ × (AllBlank bl₂ × (AllBlank bl₃ × AllBlank gap))
    → IsEnd end
    → IsPlainText value
    → read_string
        (before
          ++ block_text bl₁ block tail₁
            ∷ (between
                ++ section_text bl₂ section tail₂
                  ∷ (others ++ item_text bl₃ (w ∷ ws) gap (value ++ end ∷ tail₃) ∷ rest)))
        block
        section
        (w ∷ ws)
      ≡ some (trim_right (trim_left value))
read_string-found block section w ws before between others rest bl₁ bl₂ bl₃ gap tail₁ tail₂ value
      tail₃ end small hb hs hi (b₁, (b₂, (b₃, g))) ends plain =
    let text = value ++ end ∷ tail₃ in
    read_string-item block section (w ∷ ws) before between others rest (block_text bl₁ block tail₁)
      (section_text bl₂ section tail₂) (item_text bl₃ (w ∷ ws) gap text) text
      (none_of-AllLines NotBlock (is_block_line block) before (block_passed block) hb)
      (block_is bl₁ block tail₁ b₁)
      (none_of-AllLines NotHead (is_section_stop section) between (section_passed section) hs)
      (section_open bl₂ section tail₂ b₂) (section_is bl₂ section tail₂ b₂)
      (none_of-AllLines (NotItem w) (is_item_stop (w ∷ ws)) others (λ l. item_passed w ws l small)
        hi)
      (item_open bl₃ w (ws ++ (gap ++ b'=' ∷ text)) b₃ small) (item_is bl₃ gap w ws text b₃ g small)
    ∙ ap (λ v. some (trim_right (trim_left v))) (value_cut end value tail₃ ends plain)
