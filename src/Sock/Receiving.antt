-- ===== src/Sock/Receiving.antt =====
-- The receiving loop keeps the bytes in order and stops at the length that was asked for.
use tdm.Base.{
  ℕ, zero, suc, ◌+◌, ◌≤◌, ◌<◌, ◌≡◌, ◌≢◌, refl, sym, ap, ◌∙◌, subst, ◌⊎◌, inl, inr, Bool, true,
  false, ◌&&◌, ◌||◌, Option, none, some, List, [], ◌∷◌, ◌++◌, ◌==◌, ltb, lt→ltb, length,
  length-append, arith, if◌then◌else◌, Bool-cases, append-nil, append_assoc, replicate,
}
use tdm.Sock.{
  ready, timed_out, interrupted, failed, Outcome, running, returns, err_ioctl, err_select,
  err_time_out, err_recv, Round, wanted, nothing, chunk_of, Received, get_loop, get_msg_from_sock,
}

-- What `recv` documents, for one round at `iPos`: it puts no more bytes in the buffer than it is
-- asked for, and does not fail when it is asked for none.
abbrev pub Honest : Option ℕ → Option (List ℕ) → ℕ → ℕ → (ℕ → ℕ → Type 0) → Type 0
Honest none r i len next = Unit
Honest (some w) none i len next = 0 < wanted w (if len == 0 then w else len) i
Honest (some w) (some bs) i len next =
    let n = if len == 0 then w else len in (length bs ≤ wanted w n i) × next (i + length bs) n

-- For the rounds of a run.
abbrev pub IsHonest : List Round → ℕ → ℕ → Type 0
IsHonest [] i len = Unit
IsHonest ((s, (w, r)) ∷ rs) i len = Honest w r i len (IsHonest rs)

-- The bytes that the rounds put in the buffer, one chunk after the other.
abbrev pub stream : List Round → List ℕ
stream [] = []
stream ((s, (w, r)) ∷ rs) = chunk_of r ++ stream rs

-- What a run has made of the bytes `got`: a first part of the stream is behind them, and a run that
-- returns has as many as were asked for.
abbrev pub IsReceived : List Round → List ℕ → ℕ → Received → Type 0
IsReceived rs got len o =
    ((taken rest : List ℕ) × ((stream rs ≡ taken ++ rest) × (o.bytes ≡ got ++ taken)))
    × ((n : ℕ) → o.outcome ≡ returns n → (length o.bytes ≡ n) × ((len ≡ 0) ⊎ (len ≡ n)))

halted :
    (rs : List Round) (got : List ℕ) (len : ℕ) (o : Outcome)
    → ((n : ℕ) → o ≢ returns n)
    → IsReceived rs got len (record { bytes = got; outcome = o })
halted rs got len o h = (([], stream rs, (refl, sym (append-nil got))), λ n e. absurd (h n e))

asked_for : (len w : ℕ) → (len ≡ 0) ⊎ (len ≡ (if len == 0 then w else len))
asked_for len w = ground arith

-- A round that has put `bs` in the buffer, and what follows it.
kept :
    (r : Round) (bs : List ℕ) (rs : List Round) (got : List ℕ) (len n : ℕ) (o : Received)
    → stream (r ∷ rs) ≡ bs ++ stream rs
    → length (got ++ bs) ≤ n
    → (len ≡ 0) ⊎ (len ≡ n)
    → IsReceived rs (got ++ bs) n o
    → IsReceived (r ∷ rs) got len (
        if ltb (length (got ++ bs)) n then o else record { bytes = got ++ bs; outcome = returns n })
kept r bs rs got len n o s fits asked ((taken, rest, (b, t)), done) =
    elim (Bool-cases (ltb (length (got ++ bs)) n)) [
      | inl more ↦ rw more (
        (
          bs ++ taken,
          rest,
          (
            s ∙ ap (λ x. bs ++ x) b ∙ sym (append_assoc bs taken rest),
            t ∙ append_assoc got bs taken,
          ),
        ),
        λ k e. let d = done k e in (d.0, ground arith),
      )
      | inr all ↦
          rw all (
            (bs, stream rs, (s, refl)),
            λ k e. let same : n ≡ k = cc in (ground arith, ground arith),
          )
    ]

get_loop-IsReceived :
    (rs : List Round) (got : List ℕ) (len : ℕ) (forever : Bool)
    → IsHonest rs (length got) len
    → length got ≤ len
    → IsReceived rs got len (get_loop rs got len forever)
unfolding get_loop
get_loop-IsReceived [] got len f h le = halted [] got len running (λ n x. absurd cc)
get_loop-IsReceived ((timed_out, (w, r)) ∷ rs) got len f h le =
    halted ((timed_out, (w, r)) ∷ rs) got len err_time_out (λ n x. absurd cc)
get_loop-IsReceived ((interrupted, (w, r)) ∷ rs) got len f h le =
    halted ((interrupted, (w, r)) ∷ rs) got len err_select (λ n x. absurd cc)
get_loop-IsReceived ((failed, (w, r)) ∷ rs) got len f h le =
    halted ((failed, (w, r)) ∷ rs) got len err_select (λ n x. absurd cc)
get_loop-IsReceived ((ready, (none, r)) ∷ rs) got len f h le =
    halted ((ready, (none, r)) ∷ rs) got len err_ioctl (λ n x. absurd cc)
get_loop-IsReceived ((ready, (some w, none)) ∷ rs) got len f h le =
    let asked : ltb 0 (wanted w (if len == 0 then w else len) (length got)) ≡ true = lt→ltb _ _ h in
    rw asked (halted ((ready, (some w, none)) ∷ rs) got len err_recv (λ n x. absurd cc))
get_loop-IsReceived ((ready, (some w, some bs)) ∷ rs) got len f h le =
    let n = if len == 0 then w else len in
    let sum = length-append got bs in
    let fits : length (got ++ bs) ≤ n = ground (arith, h.0) in
    let next =
      get_loop-IsReceived rs (got ++ bs) n f (subst (λ i. IsHonest rs i n) (sym sum) h.1) fits in
    elim (Bool-cases (nothing (some bs) && (ltb 0 (wanted w n (length got)) || f))) [
      | inl e ↦ rw e (halted ((ready, (some w, some bs)) ∷ rs) got len err_recv (λ n x. absurd cc))
      | inr e ↦ rw e (
          kept (ready, (some w, some bs)) bs rs got len n (get_loop rs (got ++ bs) n f) refl fits
            (asked_for len w) next)
    ]

-- When each `recv` puts no more bytes in the buffer than it is asked for and never fails when it is
-- asked for none, the buffer of `GetMsgFromSock` holds a first part of what the socket has given, in
-- order, at every end of a run, errors included; and a value that is returned is the number of bytes
-- there, and the length asked for, unless that was 0.
pub get_msg_from_sock-stream :
    (rs : List Round) (len : ℕ) (forever : Bool)
    → IsHonest rs 0 len
    → ((rest : List ℕ) × (stream rs ≡ (get_msg_from_sock rs len forever).bytes ++ rest))
      × ((n : ℕ)
          → (get_msg_from_sock rs len forever).outcome ≡ returns n
          → (length (get_msg_from_sock rs len forever).bytes ≡ n) × ((len ≡ 0) ⊎ (len ≡ n)))
unfolding get_msg_from_sock
get_msg_from_sock-stream rs len f h =
    let ((taken, rest, (s, b)), done) = get_loop-IsReceived rs [] len f h (omega arith) in
    ((rest, s ∙ ap (λ x. x ++ rest) (sym b)), done)

-- What the system calls return once the other side has closed the connection.
abbrev pub closed : Round
closed = (ready, (some 0, some []))

spins :
    (n : ℕ) (got : List ℕ) (len : ℕ)
    → length got < len
    → get_loop (replicate n closed) got len false ≡ record { bytes = got; outcome = running }
unfolding get_loop
spins zero got len h = refl
spins (suc n) got len h =
    let whole : (len == 0) ≡ false = ground arith in
    let none_wanted : ltb 0 (wanted 0 len (length got)) ≡ false = ground arith in
    let more : ltb (length got) len ≡ true = ground arith in
    rw (whole, none_wanted, append-nil got, more) (spins n got len h)

-- Once the other side has closed the connection before the whole message, `GetMsgFromSock` with a
-- time limit never comes to an end, however many rounds it makes, and with none it fails at once.
pub get_loop-closed :
    (n : ℕ) (got : List ℕ) (len : ℕ)
    → length got < len
    → (get_loop (replicate n closed) got len false ≡ record { bytes = got; outcome = running })
      × (get_loop (replicate (suc n) closed) got len true
          ≡ record { bytes = got; outcome = err_recv })
unfolding get_loop
get_loop-closed n got len h = (spins n got len h, ground arith)
