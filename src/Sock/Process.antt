-- ===== src/Sock/Process.antt =====
-- `GetMsgFromProcess` keeps the bytes in order and never has more than were asked for.
use tdm.Base.{
  ℕ, ◌+◌, ◌≤◌, ◌≡◌, refl, sym, ap, ◌∙◌, subst, ◌⊎◌, inl, inr, Bool, false, ◌&&◌, List, [], ◌∷◌,
  ◌++◌, ◌==◌, ltb, length, length-append, arith, if◌then◌else◌, Bool-cases, append-nil,
  append_assoc,
}
use tdm.Sock.{
  running, returns, err_time_out, Received, chunk_of, Attempt, is_end, process_loop,
  get_msg_from_process,
}

-- `read` puts no more bytes in the buffer than it is asked for.
abbrev pub IsBounded : List Attempt → ℕ → ℕ → Type 0
IsBounded [] i len = Unit
IsBounded ((late, r) ∷ rs) i len =
    (i + length (chunk_of r) ≤ len) × IsBounded rs (i + length (chunk_of r)) len

abbrev pub given : List Attempt → List ℕ
given [] = []
given ((late, r) ∷ rs) = chunk_of r ++ given rs

-- What a run has made of the bytes `got`.
abbrev pub IsRead : List Attempt → List ℕ → ℕ → Received → Type 0
IsRead rs got len o =
    ((taken rest : List ℕ) × ((given rs ≡ taken ++ rest) × (o.bytes ≡ got ++ taken)))
    × ((length o.bytes ≤ len)
        × (((o.outcome ≡ running) × (length o.bytes ≡ length got + length (given rs)))
            ⊎ (((o.outcome ≡ err_time_out) × (o.bytes ≡ []))
                ⊎ (o.outcome ≡ returns (length o.bytes)))))

late_end :
    (rs : List Attempt) (got : List ℕ) (len : ℕ)
    → length got ≤ len
    → IsRead rs got len (record {
      bytes = got;
      outcome = if length got == 0 then err_time_out else returns (length got);
    })
late_end rs [] len h = (([], given rs, (refl, refl)), (h, inr (inl (refl, refl))))
late_end rs (b ∷ got) len h =
    let some_there : (length (b ∷ got) == 0) ≡ false = ground arith in
    rw some_there (([], given rs, (refl, sym (append-nil (b ∷ got)))), (h, inr (inr refl)))

stream_end :
    (rs : List Attempt) (got : List ℕ) (len : ℕ)
    → length got ≤ len
    → IsRead rs got len (record { bytes = got; outcome = returns (length got) })
stream_end rs got len h = (([], given rs, (refl, sym (append-nil got))), (h, inr (inr refl)))

-- A round that has put `bs` in the buffer.
passed_on :
    (a : Attempt) (bs : List ℕ) (rs : List Attempt) (got : List ℕ) (len : ℕ) (o : Received)
    → given (a ∷ rs) ≡ bs ++ given rs
    → IsRead rs (got ++ bs) len o
    → IsRead (a ∷ rs) got len o
passed_on a bs rs got len o s ((taken, rest, (b, t)), (le, how)) = (
  (
    bs ++ taken,
    rest,
    (s ∙ ap (λ x. bs ++ x) b ∙ sym (append_assoc bs taken rest), t ∙ append_assoc got bs taken),
  ),
  (le, counted how),
)
  where
    counted :
        ((o.outcome ≡ running) × (length o.bytes ≡ length (got ++ bs) + length (given rs)))
          ⊎ (((o.outcome ≡ err_time_out) × (o.bytes ≡ [])) ⊎ (o.outcome ≡ returns (length o.bytes)))
        → ((o.outcome ≡ running) × (length o.bytes ≡ length got + length (given (a ∷ rs))))
          ⊎ (((o.outcome ≡ err_time_out) × (o.bytes ≡ [])) ⊎ (o.outcome ≡ returns (length o.bytes)))
    counted (inl (r, e)) =
        let l = ap length s in
        inl (r, omega (arith, e, l, length-append bs (given rs), length-append got bs))
    counted (inr other) = inr other

process_loop-IsRead :
    (rs : List Attempt) (got : List ℕ) (len : ℕ) (limited : Bool)
    → IsBounded rs (length got) len
    → length got ≤ len
    → IsRead rs got len (process_loop rs got len limited)
unfolding process_loop
process_loop-IsRead [] got len limited h le =
    (([], [], (refl, sym (append-nil got))), (le, inl (refl, omega arith)))
process_loop-IsRead ((late, r) ∷ rs) got len limited h le =
    let more = got ++ chunk_of r in
    let sum = length-append got (chunk_of r) in
    let next =
      process_loop-IsRead rs more len limited (subst (λ i. IsBounded rs i len) (sym sum) h.1)
        (omega (arith, h.0, sum)) in
    elim (Bool-cases (late && limited)) [
      | inl e ↦ rw e (late_end ((late, r) ∷ rs) got len le)
      | inr e ↦ rw e (elim (Bool-cases (is_end r)) [
        | inl f ↦ rw f (stream_end ((late, r) ∷ rs) got len le)
        | inr f ↦ rw f (elim (Bool-cases (ltb (length more) len)) [
          | inl g ↦ rw g (passed_on (late, r) (chunk_of r) rs got len _ refl next)
          | inr g ↦ rw g (
              passed_on (late, r) (chunk_of r) rs got len _ refl
                (stream_end rs more len (omega (arith, h.0, sum))))
        ])
      ])
    ]

-- When `read` puts no more bytes in the buffer than it is asked for, the buffer of
-- `GetMsgFromProcess` holds a first part of what the process has given, in order, and at most as
-- many bytes as were asked for; the value returned is their number, or `ERR_TIME_OUT` when there are
-- none; and as long as it is running it holds all that has been given.
pub get_msg_from_process-IsRead :
    (rs : List Attempt) (len : ℕ) (limited : Bool)
    → IsBounded rs 0 len
    → IsRead rs [] len (get_msg_from_process rs len limited)
unfolding get_msg_from_process
get_msg_from_process-IsRead rs len limited h = process_loop-IsRead rs [] len limited h (omega arith)
