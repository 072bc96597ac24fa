-- ===== src/Trim.antt =====
-- `AllTrim` of src/pravitelib.c, which moves a text within its own buffer. A text is the list of its
-- characters before the terminating zero byte.
pub mod InPlace
use tdm.Base.{
  ℕ, zero, suc, ◌+◌, ◌-◌, Bool, true, false, List, [], ◌∷◌, ◌==◌, if◌then◌else◌, length, get_or,
  set, take,
}

-- `sBuf`, `iFirstChar`, `iEndPos` and `iFirstPos`.
pub record Trimming : Type 0 where
  pub buf : List ℕ
  pub first_char : Bool
  pub end_pos : ℕ
  pub first_pos : ℕ

-- The body of the loop at `i`.
unfoldable pub trim_step : ℕ → Trimming → Trimming
trim_step i t =
    let c = get_or t.buf i 0 in
    if t.first_char
    then record {
      buf = set t.buf (i - t.first_pos) c;
      first_char = true;
      end_pos = if c == 32 then t.end_pos else i;
      first_pos = t.first_pos;
    }
    else if c == 32
    then record {
      buf = t.buf;
      first_char = false;
      end_pos = t.end_pos;
      first_pos = t.first_pos + 1;
    }
    else record {
      buf = set t.buf 0 c;
      first_char = true;
      end_pos = t.first_pos;
      first_pos = t.first_pos;
    }

-- The loop from `i` on, with a number of characters to go: no write reaches past `i`, so the zero byte
-- stays where it is.
unfoldable pub trim_loop : ℕ → ℕ → Trimming → Trimming
trim_loop zero i t = t
trim_loop (suc k) i t = trim_loop k (i + 1) (trim_step i t)

-- The text in the buffer after `AllTrim`.
unfoldable pub all_trim : List ℕ → List ℕ
all_trim s =
    let t =
      trim_loop (length s) 0 (record { buf = s; first_char = false; end_pos = 0; first_pos = 0 }) in
    if t.first_char then take (t.end_pos - t.first_pos + 1) t.buf else []
