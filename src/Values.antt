-- ===== src/Values.antt =====
-- The readers of values in a text of src/sock_base.c, with the functions of the C library that they
-- use. A text is the list of its characters before the terminating zero byte.
pub mod Search
pub mod Readers
pub mod Bounds
pub mod Reply
use tdm.Base.{
  ℕ, zero, suc, ◌+◌, ◌-◌, Bool, true, false, ◌&&◌, Option, none, some, List, [], ◌∷◌, ◌==◌, ltb,
  leb, take, length, if◌then◌else◌,
}
use tdm.Base.Int.{ℤ, pos, negsuc, ◌-ℤ◌}
use tdm.Text.{atoi}

-- Whether the second text begins with the first.
abbrev pub starts : List ℕ → List ℕ → Bool
starts [] s = true
starts (k ∷ ks) [] = false
starts (k ∷ ks) (c ∷ cs) = (k == c) && starts ks cs

-- `strstr`: the text from the first occurrence on.
unfoldable pub strstr : List ℕ → List ℕ → Option (List ℕ)
strstr [] key = if starts key [] then some [] else none
strstr (c ∷ cs) key =
    let rest = strstr cs key in if starts key (c ∷ cs) then some (c ∷ cs) else rest

abbrev pub skip : ℕ → List ℕ → List ℕ
skip d [] = []
skip d (c ∷ cs) = let rest = skip d cs in if c == d then rest else c ∷ cs

abbrev pub upto : ℕ → List ℕ → List ℕ
upto d [] = []
upto d (c ∷ cs) = let rest = upto d cs in if c == d then [] else c ∷ rest

abbrev pub past : ℕ → List ℕ → List ℕ
past d [] = []
past d (c ∷ cs) = let rest = past d cs in if c == d then cs else rest

-- `strtok_r` with one delimiter: the token and the text left for the next call.
abbrev pub token : ℕ → List ℕ → Option (List ℕ × List ℕ)
token d [] = none
token d (c ∷ cs) = some (upto d (c ∷ cs), past d (c ∷ cs))

unfoldable pub strtok_r : ℕ → List ℕ → Option (List ℕ × List ℕ)
strtok_r d s = token d (skip d s)

-- What a reader of a value does: it returns 0 with the value in `Dst`, returns a negative number, or
-- writes past the end of an array.
pub data Reading : Type 0 where
  found : List ℕ → Reading
  fails : ℕ → Reading
  overrun : Reading

abbrev pub copy_out : ℕ → List ℕ → Reading
copy_out len v = if leb (length v) len then found v else overrun

-- `Get_Key_Value` from the copy to `buff` on, a test of `p` at a time; `len` is the size of `Dst`.
abbrev pub value_of : ℕ → Option (List ℕ × List ℕ) → Reading
value_of len none = fails 5
value_of len (some t) = copy_out len t.0

abbrev pub at_quote : ℕ → Option (List ℕ) → Reading
at_quote len none = fails 4
at_quote len (some p) = value_of len (strtok_r b'"' p)

abbrev pub at_colon : ℕ → Option (List ℕ) → Reading
at_colon len none = fails 3
at_colon len (some p) = at_quote len (strstr p (b'"' ∷ []))

abbrev pub at_key : ℕ → Option (List ℕ) → Reading
at_key len none = fails 2
at_key len (some p) = at_colon len (strstr p (b':' ∷ []))

abbrev pub value_in : List ℕ → List ℕ → ℕ → Reading
value_in buff key len = at_key len (strstr buff key)

-- `char buff[512]`, `char Tmp[1024]`.
abbrev pub buff_size : ℕ
buff_size = 512

abbrev pub tmp_size : ℕ
tmp_size = 1024

-- `Src == NULL` is `none`.
unfoldable pub get_key_value : Option (List ℕ) → List ℕ → ℕ → Reading
get_key_value none key len = fails 1
get_key_value (some []) key len = fails 1
get_key_value (some (c ∷ cs)) key len =
    if ltb (length (c ∷ cs)) buff_size then value_in (c ∷ cs) key len else overrun

-- `Find_Str_By_Key` from the copy to `Tmp` on.
abbrev pub str_of : ℕ → Option (List ℕ × List ℕ) → Reading
str_of len none = fails 1
str_of len (some t) = copy_out len t.0

abbrev pub str_behind : ℕ → Option (List ℕ × List ℕ) → Reading
str_behind len none = fails 1
str_behind len (some t) = str_of len (strtok_r b'"' t.1)

abbrev pub str_at_key : ℕ → Option (List ℕ) → Reading
str_at_key len none = fails 1
str_at_key len (some p) = str_behind len (strtok_r b':' p)

abbrev pub str_in : List ℕ → List ℕ → ℕ → Reading
str_in tmp key len = str_at_key len (strstr tmp key)

unfoldable pub find_str_by_key : Option (List ℕ) → List ℕ → ℕ → Reading
find_str_by_key none key len = fails 1
find_str_by_key (some src) key len =
    if ltb (length src) tmp_size then str_in src key len else overrun

-- `Json_date`; `text` is what has been copied to `Data`.
pub record JsonDate : Type 0 where
  pub head : ℤ
  pub type : ℤ
  pub para_num : ℤ
  pub result : ℤ
  pub len : ℕ
  pub text : List ℕ

-- The `switch` on `i`.
abbrev pub with_field : ℕ → ℤ → JsonDate → JsonDate
with_field i n d =
    if i == 0
    then record d { head = n }
    else if i == 1
    then record d { type = n }
    else if i == 2
    then record d { para_num = n }
    else if i == 3
    then record d { result = n }
    else d

-- The inner `while`, on fuel; each token takes a character at least.
unfoldable pub fields_loop : ℕ → ℕ → List ℕ → JsonDate → JsonDate
fields_loop zero i s d = d
fields_loop (suc fuel) i s d = elim (strtok_r b',' s) [
  | none ↦ d
  | some t ↦ fields_loop fuel (suc i) t.1 (with_field i (atoi t.0) d)
]

-- The second round of `ret`: `p + 1` without its last character; a text of one character has nothing
-- behind it, so `Len` is -1 and the copy does not end; nor may it be longer than `char Data[512]`.
abbrev pub data_size : ℕ
data_size = 512

abbrev pub with_data : JsonDate → List ℕ → Option JsonDate
with_data d [] = none
with_data d (c ∷ []) = none
with_data d (c ∷ e ∷ cs) =
    if leb (length cs) data_size
    then some (record d { len = length cs; text = take (length cs) (e ∷ cs) })
    else none

-- `Data_Coing`, a call of `strtok_r` at a time: the fields and the value returned; `none` when it
-- writes past the end of `Data`.
abbrev pub with_result : Option JsonDate → Option (JsonDate × ℤ)
with_result none = none
with_result (some e) = some (e, e.result)

abbrev pub at_object : JsonDate → Option (List ℕ × List ℕ) → Option (JsonDate × ℤ)
at_object d none = some (d, d.result)
at_object d (some t) = with_result (with_data d t.0)

abbrev pub at_numbers : JsonDate → Option (List ℕ × List ℕ) → Option (JsonDate × ℤ)
at_numbers d none = some (d, d.result)
at_numbers d (some t) = at_object (fields_loop (length t.0) 0 t.0 d) (strtok_r b'[' t.1)

unfoldable pub data_coing : List ℕ → JsonDate → Option (JsonDate × ℤ)
data_coing [] d = some (d, negsuc 0)
data_coing (c ∷ cs) d = at_numbers d (strtok_r b'|' (c ∷ cs))
