-- ===== src/Deal/Minutes.antt =====
-- The minutes a device gets, from the text of the pool's answer.
use tdm.Base.{
  ℕ, ◌<◌, ◌≤◌, ◌≡◌, ◌≢◌, refl, ap, ◌∙◌, subst, true, false, ◌&&◌, none, some, List, [], ◌∷◌, ◌++◌,
  ◌==◌, ltb, length, arith, if◌then◌else◌, Bool-cases, inl, inr,
}
use tdm.Base.Int.{ℤ, pos, eqb_ℤ}
use tdm.Frames.{to_byte}
use tdm.Refusal.{recorded, sim_allocate_err}
use tdm.Text.{atoi}
use tdm.Values.{strstr, get_key_value}
use tdm.Values.Search.{lacks}
use tdm.Values.Readers.{object, get_key_value-object}
use tdm.Values.Reply.{IsField, reply, data_coing-reply}
use tdm.Deal.{
  zero_date, answer_of, get_deal_from_sim_pool_socket, deal_of, int_of, get_key_value_int, to_short,
  Deal, last_start_key, mins_remaining_key, deal_ends, deal_proc,
}

-- `text` has the member `"key":"value"`, and no earlier occurrence of the key; the value is short
-- enough for `Get_Key_Value_Int`.
abbrev pub IsMember : List ℕ → List ℕ → List ℕ → Type 0
IsMember text key value =
    (before : List ℕ) × (rest : List ℕ) × (((text ≡ object before key value rest)
        × (strstr before key ≡ none))
      × ((lacks b'"' value ≡ true) × ((1 ≤ length value) × (length value < 64))))

get_key_value_int-IsMember :
    (text key value : List ℕ)
    → IsMember text key value
    → lacks b'"' key ≡ true
    → lacks b':' key ≡ true
    → key ≢ []
    → length text < 512
    → get_key_value_int text key ≡ some (atoi value)
unfolding get_key_value_int
get_key_value_int-IsMember text key [] (before, rest, ((e, n), (q, (p, s)))) l c ne h =
    absurd (omega arith)
get_key_value_int-IsMember text key (v ∷ vs) (before, rest, ((e, n), (q, (p, s)))) l c ne h =
    let small : length (object before key (v ∷ vs) rest) < 512 = subst (λ t. length t < 512) e h in
    let fits : length (v ∷ vs) ≤ 64 = omega arith in
    let short : ltb (length (v ∷ vs)) 64 ≡ true = ground arith in
    ap (λ t. int_of (get_key_value (some t) key 64)) e
    ∙ ap int_of (get_key_value-object before key v vs rest 64 small l c ne n q fits).0
    ∙ rw short refl

-- The minutes for the argument `Type` of `Deal_Proc`, the result of the pool, and the numbers of
-- `lastStart` and `minsRemaining`.
abbrev pub minutes : ℕ → ℤ → ℤ → ℤ → ℕ
minutes type code last mins =
    if eqb_ℤ code (pos 0)
    then if (type == 0) && (to_byte last == 1) then 1440 else to_short mins
    else if eqb_ℤ code (pos 2)
    then 0
    else if type == 0
    then 1
    else 65535

-- An answer, read.
answer-reply :
    (s t u v : List ℕ) (c : ℕ) (inner : List ℕ) (x : ℕ)
    → IsField s
    → IsField t
    → IsField u
    → IsField v
    → lacks b'[' (c ∷ (inner ++ x ∷ [])) ≡ true
    → length inner < 512
    → get_deal_from_sim_pool_socket (some (reply s t u v (c ∷ (inner ++ x ∷ []))))
      ≡ some (atoi v, if eqb_ℤ (atoi v) (pos 0) then inner else [])
unfolding get_deal_from_sim_pool_socket
answer-reply s t u v c inner x hs ht hu hv l h =
    let fits : ltb (length inner) 512 ≡ true = ground arith in
    ap answer_of (data_coing-reply s t u v c inner x zero_date hs ht hu hv l (omega arith))
    ∙ rw fits refl

-- The fields of `Deal_Proc` after an answer with the two numbers in it.
deal_ends-minutes :
    (type : ℕ) (d : Deal) (code : ℤ) (inner : List ℕ) (last mins : ℤ)
    → d.minite_remain ≡ 0
    → get_key_value_int inner last_start_key ≡ some last
    → get_key_value_int inner mins_remaining_key ≡ some mins
    → (e : Deal) × ((deal_ends type d
            (deal_of d.allocation (some (code, if eqb_ℤ code (pos 0) then inner else [])))
          ≡ some e)
        × (e.minite_remain ≡ minutes type code last mins))
unfolding sim_allocate_err
deal_ends-minutes type d code inner last mins z l m = elim (Bool-cases (eqb_ℤ code (pos 0))) [
  | inl e ↦
      rw (e, l, m)
        (
          record d {
            last_start = to_byte last;
            minite_remain = if (type == 0) && (to_byte last == 1) then 1440 else to_short mins;
          },
          (refl, refl),
        )
  | inr e ↦ elim (Bool-cases (eqb_ℤ code (pos 2))) [
    | inl f ↦
        let g : eqb_ℤ code (pos 1) ≡ false = ground arith in
        rw (e, f, g) (record d { allocation = recorded 3 d.allocation }, (refl, z))
    | inr f ↦ elim (Bool-cases (eqb_ℤ code (pos 1))) [
      | inl g ↦
          rw (e, f, g)
            (
              record d {
                allocation = recorded 7 d.allocation;
                minite_remain = if type == 0 then 1 else 65535;
              },
              (refl, refl),
            )
      | inr g ↦
          rw (e, f, g)
            (
              record d {
                allocation = recorded 4 d.allocation;
                minite_remain = if type == 0 then 1 else 65535;
              },
              (refl, refl),
            )
    ]
  ]
]

-- The pool answers `head,type,num,result|[object`, with four fields that are not empty and have no
-- comma and no bar in them, and an object of fewer than 512 characters without a further bracket. If
-- the object has the members `lastStart` and `minsRemaining`, with values of fewer than 64 characters,
-- then `Deal_Proc` ends with these minutes: for the result 0 the number of `minsRemaining`, or 1440
-- when `Type` is 0 and `lastStart` is 1; for the result 2, out of service, none; for any other result
-- 1 when `Type` is 0 and otherwise 65535.
pub deal_proc-minutes :
    (s t u v : List ℕ) (c : ℕ) (inner : List ℕ) (x : ℕ) (last mins : List ℕ) (type : ℕ) (d : Deal)
    → IsField s
    → IsField t
    → IsField u
    → IsField v
    → lacks b'[' (c ∷ (inner ++ x ∷ [])) ≡ true
    → length inner < 512
    → IsMember inner last_start_key last
    → IsMember inner mins_remaining_key mins
    → (e : Deal) × ((deal_proc type (some (reply s t u v (c ∷ (inner ++ x ∷ [])))) d ≡ some e)
        × (e.minite_remain ≡ minutes type (atoi v) (atoi last) (atoi mins)))
unfolding deal_proc
deal_proc-minutes s t u v c inner x last mins type d hs ht hu hv l h il im =
    let z = record d { minite_remain = 0 } in
    let (e, (is, m)) =
      deal_ends-minutes type z (atoi v) inner (atoi last) (atoi mins) refl
        (get_key_value_int-IsMember inner last_start_key last il refl refl (λ e. absurd cc) h)
        (get_key_value_int-IsMember inner mins_remaining_key mins im refl refl (λ e. absurd cc)
          h) in
    (
      e,
      (
        ap (λ r. deal_ends type z (deal_of d.allocation r))
              (answer-reply s t u v c inner x hs ht hu hv l h)
            ∙ is,
        m,
      ),
    )
