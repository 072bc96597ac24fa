-- ===== src/Sock/Sending.antt =====
-- The sending loops send the buffer from its beginning, each byte once and in order.
use tdm.Base.{
  ℕ, zero, suc, ◌+◌, ◌≤◌, ◌<◌, ◌≡◌, ◌≢◌, refl, sym, ap, ◌∙◌, ◌⊎◌, inl, inr, List, [], ◌∷◌, ◌++◌,
  ltb, ltb→lt, take, drop, drop-past, length, arith, if◌then◌else◌, Bool-cases, append-nil,
  append_assoc,
}
use tdm.Sock.{
  Write, accepts, refuses, Select, ready, timed_out, interrupted, failed, Outcome, running, returns,
  err_send, err_select, err_time_out, Sent, end, after_chunk, put_loop, put_msg_to_process,
  put_sock_loop, put_msg_to_sock,
}

take-drop : (n : ℕ) (xs : List ℕ) → take n xs ++ drop n xs ≡ xs
take-drop zero xs = refl
take-drop (suc n) [] = refl
take-drop (suc n) (x ∷ xs) = ap (λ r. x ∷ r) (take-drop n xs)

drop_nil : (k : ℕ) → drop {A = ℕ} k [] ≡ []
drop_nil zero = refl
drop_nil (suc k) = refl

drop-drop : (i n : ℕ) (xs : List ℕ) → drop n (drop i xs) ≡ drop (i + n) xs
drop-drop zero n xs = ap (λ k. drop k xs) (omega arith)
drop-drop (suc i) n [] = drop_nil n ∙ sym (drop_nil (suc i + n))
drop-drop (suc i) n (x ∷ xs) =
    let e : suc i + n ≡ suc (i + n) = omega arith in
    drop-drop i n xs ∙ ap (λ k. drop k (x ∷ xs)) (sym e)

-- The buffer that is left at `i` has gone out whole, or a first part of it has.
abbrev pub IsDelivered : List ℕ → ℕ → Sent → Type 0
IsDelivered rest len s =
    ((s.outcome ≡ returns len) × (s.bytes ≡ rest))
    ⊎ (((n : ℕ) → s.outcome ≢ returns n) × ((unsent : List ℕ) × (s.bytes ++ unsent ≡ rest)))

stopped :
    (o : Outcome) (rest : List ℕ) (len : ℕ)
    → ((n : ℕ) → o ≢ returns n)
    → IsDelivered rest len (end o)
stopped o rest len h = inr (h, (rest, refl))

-- One round that sends a chunk, and the rounds after it.
chunk_sent :
    (n i len : ℕ) (buf : List ℕ) (s : Sent)
    → length buf ≡ len
    → IsDelivered (drop (i + n) buf) len s
    → IsDelivered
        (drop i buf)
        len
        (after_chunk (take n (drop i buf)) (if ltb (i + n) len then s else end (returns len)))
chunk_sent n i len buf s e h = elim (Bool-cases (ltb (i + n) len)) [
  | inl more ↦ rw more (glue (drop i buf) h)
  | inr all ↦
      let gone = drop-past (i + n) buf (ground arith) in
      rw all (inl (refl, append-nil _ ∙ whole (drop i buf) (drop-drop i n buf ∙ gone)))
]
  where
    whole : (rest : List ℕ) → drop n rest ≡ [] → take n rest ≡ rest
    whole rest g = sym (append-nil _) ∙ ap (λ r. take n rest ++ r) (sym g) ∙ take-drop n rest

    glue :
        (rest : List ℕ)
        → IsDelivered (drop (i + n) buf) len s
        → IsDelivered (drop i buf) len (after_chunk (take n (drop i buf)) s)
    glue rest (inl (o, b)) = inl (
      o,
      ap (λ r. take n (drop i buf) ++ r) (b ∙ sym (drop-drop i n buf)) ∙ take-drop n (drop i buf),
    )
    glue rest (inr (o, (u, b))) = inr (
      o,
      (
        u,
        append_assoc (take n (drop i buf)) s.bytes u
            ∙ ap (λ r. take n (drop i buf) ++ r) (b ∙ sym (drop-drop i n buf))
            ∙ take-drop n (drop i buf),
      ),
    )

put_loop-IsDelivered :
    (rs : List Write) (buf : List ℕ) (len i : ℕ)
    → length buf ≡ len
    → IsDelivered (drop i buf) len (put_loop rs buf len i)
unfolding put_loop
put_loop-IsDelivered [] buf len i e = stopped running _ len (λ n x. absurd (cc))
put_loop-IsDelivered (refuses ∷ rs) buf len i e = stopped err_send _ len (λ n x. absurd (cc))
put_loop-IsDelivered (accepts n ∷ rs) buf len i e =
    chunk_sent n i len buf _ e (put_loop-IsDelivered rs buf len (i + n) e)

put_sock_loop-IsDelivered :
    (rs : List (Select × Write)) (buf : List ℕ) (len i : ℕ)
    → length buf ≡ len
    → IsDelivered (drop i buf) len (put_sock_loop rs buf len i)
unfolding put_sock_loop
put_sock_loop-IsDelivered [] buf len i e = stopped running _ len (λ n x. absurd (cc))
put_sock_loop-IsDelivered ((failed, w) ∷ rs) buf len i e =
    stopped err_select _ len (λ n x. absurd (cc))
put_sock_loop-IsDelivered ((timed_out, w) ∷ rs) buf len i e =
    stopped err_time_out _ len (λ n x. absurd (cc))
put_sock_loop-IsDelivered ((ready, refuses) ∷ rs) buf len i e =
    stopped err_send _ len (λ n x. absurd (cc))
put_sock_loop-IsDelivered ((interrupted, refuses) ∷ rs) buf len i e =
    stopped err_send _ len (λ n x. absurd (cc))
put_sock_loop-IsDelivered ((ready, accepts n) ∷ rs) buf len i e =
    chunk_sent n i len buf _ e (put_sock_loop-IsDelivered rs buf len (i + n) e)
put_sock_loop-IsDelivered ((interrupted, accepts n) ∷ rs) buf len i e =
    chunk_sent n i len buf _ e (put_sock_loop-IsDelivered rs buf len (i + n) e)

-- `PutMsgToProcess` and `PutMsgToSock`, given the length of the buffer, either return that length
-- after sending the buffer once and in order, or return an error or go on after sending a first
-- part of it, however the system calls split it.
pub put_msg-IsDelivered :
    (ws : List Write) (rs : List (Select × Write)) (buf : List ℕ)
    → IsDelivered buf (length buf) (put_msg_to_process ws buf (length buf))
      × IsDelivered buf (length buf) (put_msg_to_sock rs buf (length buf))
unfolding put_msg_to_process put_msg_to_sock
put_msg-IsDelivered ws rs buf = (
  put_loop-IsDelivered ws buf (length buf) 0 refl,
  put_sock_loop-IsDelivered rs buf (length buf) 0 refl,
)

-- Every call takes a byte at least.
abbrev pub AllTake : List Write → Type 0
AllTake [] = Unit {0}
AllTake (refuses ∷ ws) = ⊥
AllTake (accepts n ∷ ws) = (1 ≤ n) × AllTake ws

put_loop_ends :
    (ws : List Write) (buf : List ℕ) (len i : ℕ)
    → AllTake ws
    → i < len
    → len ≤ i + length ws
    → (put_loop ws buf len i).outcome ≡ returns len
unfolding put_loop
put_loop_ends [] buf len i h lt enough = absurd (omega arith)
put_loop_ends (refuses ∷ ws) buf len i h lt enough = absurd h
put_loop_ends (accepts n ∷ ws) buf len i h lt enough = elim (Bool-cases (ltb (i + n) len)) [
  | inl more ↦ rw more (put_loop_ends ws buf len (i + n) h.1 (ltb→lt _ _ more) (omega arith))
  | inr all ↦ rw all refl
]

-- When every `write` takes a byte at least and the buffer is not empty, a run of as many rounds as
-- there are bytes ends, and `PutMsgToProcess` returns the length.
pub put_msg_to_process-ends :
    (ws : List Write) (b : ℕ) (bs : List ℕ)
    → AllTake ws
    → length (b ∷ bs) ≤ length ws
    → (put_msg_to_process ws (b ∷ bs) (length (b ∷ bs))).outcome ≡ returns (length (b ∷ bs))
unfolding put_msg_to_process
put_msg_to_process-ends ws b bs h enough =
    put_loop_ends ws (b ∷ bs) (length (b ∷ bs)) 0 h (omega arith) (omega arith)
