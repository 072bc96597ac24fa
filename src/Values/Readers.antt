-- ===== src/Values/Readers.antt =====
-- `Get_Key_Value` and `Find_Str_By_Key` on the text of an object with quoted members.
use tdm.Base.{
  ℕ, ◌<◌, ◌≤◌, ◌≡◌, ◌≢◌, refl, sym, ap, ◌∙◌, true, none, some, List, [], ◌∷◌, ◌++◌, ltb, leb,
  length, arith, append_assoc, length-append,
}
use tdm.Values.{
  strstr, strtok_r, found, copy_out, value_of, at_quote, at_colon, at_key, value_in, str_of,
  str_behind, str_at_key, get_key_value, str_in, find_str_by_key,
}
use tdm.Values.Search.{
  lacks, lacks-append, strstr-first, strstr-char, strtok_r-skip, strtok_r-first,
}

-- From the closing quote of a key on: `":"value"` and the text behind it.
abbrev pub behind_key : List ℕ → List ℕ → List ℕ
behind_key value rest = b'"' ∷ b':' ∷ b'"' ∷ (value ++ b'"' ∷ rest)

-- The text `before"key":"value"rest`.
abbrev pub object : List ℕ → List ℕ → List ℕ → List ℕ → List ℕ
object before key value rest = before ++ b'"' ∷ (key ++ behind_key value rest)

get_key_value_open :
    (s key : List ℕ) (len : ℕ)
    → 0 < length s
    → length s < 512
    → get_key_value (some s) key len ≡ value_in s key len
unfolding get_key_value
get_key_value_open [] key len p h = absurd (omega arith)
get_key_value_open (c ∷ cs) key len p h =
    let fits : ltb (length (c ∷ cs)) 512 ≡ true = ground arith in rw fits refl

find_str_by_key_open :
    (s key : List ℕ) (len : ℕ)
    → length s < 1024
    → find_str_by_key (some s) key len ≡ str_in s key len
unfolding find_str_by_key
find_str_by_key_open s key len h =
    let fits : ltb (length s) 1024 ≡ true = ground arith in rw fits refl

copy_out-fits : (len : ℕ) (v : List ℕ) → length v ≤ len → copy_out len v ≡ found v
copy_out-fits len v h = let fits : leb (length v) len ≡ true = ground arith in rw fits refl

length-object : (before key value rest : List ℕ) → 0 < length (object before key value rest)
length-object before key value rest = omega (arith, length-append before _)

key_quote : (key t : List ℕ) → (key ++ b'"' ∷ []) ++ b':' ∷ t ≡ key ++ b'"' ∷ b':' ∷ t
key_quote key t = append_assoc key _ _

-- The colon behind a key.
colon-found :
    (key t : List ℕ)
    → lacks b':' key ≡ true
    → strstr (key ++ b'"' ∷ b':' ∷ t) (b':' ∷ []) ≡ some (b':' ∷ t)
colon-found key t h =
    ap (λ s. strstr s (b':' ∷ [])) (sym (key_quote key t))
    ∙ strstr-char b':' (key ++ b'"' ∷ []) t (lacks-append b':' key _ h refl)

-- What `value_in` and `str_in` do behind the key, whatever the value.
value_in-object :
    (before key value rest : List ℕ) (len : ℕ)
    → lacks b'"' key ≡ true
    → lacks b':' key ≡ true
    → strstr before key ≡ none
    → value_in (object before key value rest) key len
      ≡ value_of len (strtok_r b'"' (value ++ b'"' ∷ rest))
value_in-object before key value rest len q c n =
    let after = value ++ b'"' ∷ rest in
    ap (at_key len) (strstr-first b'"' key before (behind_key value rest) q n)
    ∙ ap (at_colon len) (colon-found key (b'"' ∷ after) c)
    ∙ ap (at_quote len) (strstr-char b'"' (b':' ∷ []) after refl)
    ∙ ap (value_of len) (strtok_r-skip b'"' after)

str_in-object :
    (before key value rest : List ℕ) (len : ℕ)
    → lacks b'"' key ≡ true
    → lacks b':' key ≡ true
    → strstr before key ≡ none
    → key ≢ []
    → str_in (object before key value rest) key len
      ≡ str_of len (strtok_r b'"' (value ++ b'"' ∷ rest))
str_in-object before [] value rest len q c n ne = absurd (ne refl)
str_in-object before (k ∷ ks) value rest len q c n ne =
    let after = value ++ b'"' ∷ rest in
    let quoted = lacks-append b':' (k ∷ ks) (b'"' ∷ []) c refl in
    ap (str_at_key len) (strstr-first b'"' (k ∷ ks) before (behind_key value rest) q n)
    ∙ ap (λ s. str_behind len (strtok_r b':' s)) (sym (key_quote (k ∷ ks) (b'"' ∷ after)))
    ∙ ap (str_behind len) (strtok_r-first b':' k (ks ++ b'"' ∷ []) (b'"' ∷ after) quoted)
    ∙ ap (str_of len) (strtok_r-skip b'"' after)

-- In an object text shorter than 512 characters, where a key without quotes and colons does not
-- occur before its member, and the value is a string that is not empty, has no quote in it and fits
-- the destination, `Get_Key_Value` and `Find_Str_By_Key` both find exactly that value.
pub get_key_value-object :
    (before key : List ℕ) (c : ℕ) (cs rest : List ℕ) (len : ℕ)
    → length (object before key (c ∷ cs) rest) < 512
    → lacks b'"' key ≡ true
    → lacks b':' key ≡ true
    → key ≢ []
    → strstr before key ≡ none
    → lacks b'"' (c ∷ cs) ≡ true
    → length (c ∷ cs) ≤ len
    → (get_key_value (some (object before key (c ∷ cs) rest)) key len ≡ found (c ∷ cs))
      × (find_str_by_key (some (object before key (c ∷ cs) rest)) key len ≡ found (c ∷ cs))
get_key_value-object before key c cs rest len h q d ne n v f = (
  get_key_value_open _ key len (length-object before key (c ∷ cs) rest) h
      ∙ value_in-object before key (c ∷ cs) rest len q d n
      ∙ ap (value_of len) (strtok_r-first b'"' c cs rest v)
      ∙ copy_out-fits len (c ∷ cs) f,
  find_str_by_key_open _ key len (omega arith)
      ∙ str_in-object before key (c ∷ cs) rest len q d n ne
      ∙ ap (str_of len) (strtok_r-first b'"' c cs rest v)
      ∙ copy_out-fits len (c ∷ cs) f,
)

-- When the value is the empty string instead, both find what stands between its closing quote and
-- the next quote of the text, if that is not empty and fits: a comma, for instance.
pub get_key_value_empty :
    (before key : List ℕ) (c : ℕ) (cs rest : List ℕ) (len : ℕ)
    → length (object before key [] (c ∷ cs ++ b'"' ∷ rest)) < 512
    → lacks b'"' key ≡ true
    → lacks b':' key ≡ true
    → key ≢ []
    → strstr before key ≡ none
    → lacks b'"' (c ∷ cs) ≡ true
    → length (c ∷ cs) ≤ len
    → (get_key_value (some (object before key [] (c ∷ cs ++ b'"' ∷ rest))) key len ≡ found (c ∷ cs))
      × (find_str_by_key (some (object before key [] (c ∷ cs ++ b'"' ∷ rest))) key len
          ≡ found (c ∷ cs))
get_key_value_empty before key c cs rest len h q d ne n v f =
    let next = c ∷ cs ++ b'"' ∷ rest in
    (
      get_key_value_open _ key len (length-object before key [] next) h
          ∙ value_in-object before key [] next len q d n
          ∙ ap (value_of len) (strtok_r-skip b'"' next ∙ strtok_r-first b'"' c cs rest v)
          ∙ copy_out-fits len (c ∷ cs) f,
      find_str_by_key_open _ key len (omega arith)
          ∙ str_in-object before key [] next len q d n ne
          ∙ ap (str_of len) (strtok_r-skip b'"' next ∙ strtok_r-first b'"' c cs rest v)
          ∙ copy_out-fits len (c ∷ cs) f,
    )
