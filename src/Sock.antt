-- ===== src/Sock.antt =====
-- The loops of src/sock_base.c that send a buffer whole and receive one whole. What the system calls
-- return, round by round, is an argument: a list with an entry for each round, which must not be
-- shorter than the run; a loop that has used them all up is still running.
pub mod Sending
pub mod Receiving
pub mod Process
pub mod Opening
use tdm.Base.{
  ℕ, zero, suc, ◌+◌, ◌-◌, Bool, true, false, not, ◌&&◌, ◌||◌, Option, none, some, List, [], ◌∷◌,
  ◌++◌, ◌==◌, ltb, leb, take, drop, length, if◌then◌else◌,
}
use tdm.Base.Int.{ℤ, pos, negsuc}

-- What `write` or `send` returns: the number of bytes taken, or a negative number.
pub data Write : Type 0 where
  accepts : ℕ → Write
  refuses : Write

-- `select`: ready, the time is over, interrupted by a signal, or failed otherwise.
pub data Select : Type 0 where
  ready timed_out interrupted failed : Select

pub data Outcome : Type 0 where
  running err_select err_time_out err_send err_ioctl err_recv out_of_buffer : Outcome
  returns : ℕ → Outcome

-- The bytes that have gone out, and how the loop ended.
pub record Sent : Type 0 where
  pub bytes : List ℕ
  pub outcome : Outcome

abbrev pub end : Outcome → Sent
end o = record { bytes = []; outcome = o }

abbrev pub after_chunk : List ℕ → Sent → Sent
after_chunk chunk s = record { bytes = chunk ++ s.bytes; outcome = s.outcome }

-- `PutMsgToProcess` from `iPos` on.
unfoldable pub put_loop : List Write → List ℕ → ℕ → ℕ → Sent
put_loop [] buf len i = end running
put_loop (refuses ∷ rs) buf len i = end err_send
put_loop (accepts n ∷ rs) buf len i =
    let rest = put_loop rs buf len (i + n) in
    after_chunk (take n (drop i buf)) (if ltb (i + n) len then rest else end (returns len))

unfoldable pub put_msg_to_process : List Write → List ℕ → ℕ → Sent
put_msg_to_process rs buf len = put_loop rs buf len 0

-- `PutMsgToSock` from `iPos` on. An interrupted `select` goes on to `send` like a ready one.
unfoldable pub put_sock_loop : List (Select × Write) → List ℕ → ℕ → ℕ → Sent
put_sock_loop [] buf len i = end running
put_sock_loop ((failed, w) ∷ rs) buf len i = end err_select
put_sock_loop ((timed_out, w) ∷ rs) buf len i = end err_time_out
put_sock_loop ((s, refuses) ∷ rs) buf len i = end err_send
put_sock_loop ((s, accepts n) ∷ rs) buf len i =
    let rest = put_sock_loop rs buf len (i + n) in
    after_chunk (take n (drop i buf)) (if ltb (i + n) len then rest else end (returns len))

unfoldable pub put_msg_to_sock : List (Select × Write) → List ℕ → ℕ → Sent
put_msg_to_sock rs buf len = put_sock_loop rs buf len 0

-- A round of `GetMsgFromSock`: `select`, the bytes that `ioctl` finds waiting or its failure, and the
-- bytes that `recv` puts in the buffer or its failure.
abbrev pub Round : Type 0
Round = Select × (Option ℕ × Option (List ℕ))

-- `iCurDataLen`, at most what is still wanted.
abbrev pub wanted : ℕ → ℕ → ℕ → ℕ
wanted waiting len i = if ltb (len - i) waiting then len - i else waiting

-- `iRtn <= 0`.
abbrev pub nothing : Option (List ℕ) → Bool
nothing none = true
nothing (some []) = true
nothing (some (b ∷ bs)) = false

abbrev pub chunk_of : Option (List ℕ) → List ℕ
chunk_of none = []
chunk_of (some bs) = bs

-- `sBuf` up to `iPos`, and how the loop ended. `stray` is a position before the buffer.
pub data Position : Type 0 where
  at : List ℕ → Position
  stray : Position

pub record Received : Type 0 where
  pub bytes : List ℕ
  pub outcome : Outcome

abbrev pub but_last : List ℕ → List ℕ
but_last bs = take (length bs - 1) bs

-- `iPos += iRtn`; a failed `recv` returns -1.
abbrev pub advance : List ℕ → Option (List ℕ) → Position
advance got (some bs) = at (got ++ bs)
advance [] none = stray
advance (b ∷ bs) none = at (but_last (b ∷ bs))

-- One round, after which `next` goes on with the position and with `iLen`. `forever` is
-- `iTimeOut == 0`.
abbrev pub get_round :
    Select → Option ℕ → Option (List ℕ) → List ℕ → ℕ → Bool → (Position → ℕ → Received) → Received
get_round timed_out w r got len forever next = record { bytes = got; outcome = err_time_out }
get_round interrupted w r got len forever next = record { bytes = got; outcome = err_select }
get_round failed w r got len forever next = record { bytes = got; outcome = err_select }
get_round ready none r got len forever next = record { bytes = got; outcome = err_ioctl }
get_round ready (some w) r got len forever next =
    let n = if len == 0 then w else len in
    if nothing r && (ltb 0 (wanted w n (length got)) || forever)
    then record { bytes = got; outcome = err_recv }
    else next (advance got r) n

-- `GetMsgFromSock` with the bytes that it has.
unfoldable pub get_loop : List Round → List ℕ → ℕ → Bool → Received
get_loop [] got len forever = record { bytes = got; outcome = running }
get_loop ((s, (w, r)) ∷ rs) got len forever = get_round s w r got len forever (λ p n. elim p [
  | stray ↦ record { bytes = []; outcome = out_of_buffer }
  | at bs ↦
      (let rest = get_loop rs bs n forever in
        if ltb (length bs) n then rest else record { bytes = bs; outcome = returns n })
])

unfoldable pub get_msg_from_sock : List Round → ℕ → Bool → Received
get_msg_from_sock rs len forever = get_loop rs [] len forever

-- A round of `GetMsgFromProcess`: whether the time since the start is over the limit, and what `read`
-- gives, `none` for a negative value.
abbrev pub Attempt : Type 0
Attempt = Bool × Option (List ℕ)

-- `iRtn == 0`, the end of the stream.
abbrev pub is_end : Option (List ℕ) → Bool
is_end none = false
is_end (some []) = true
is_end (some (b ∷ bs)) = false

-- `GetMsgFromProcess` with the bytes that it has; `limited` is `iTimeOut != 0`. A negative value of
-- `read` counts as no bytes, since the descriptor does not block.
unfoldable pub process_loop : List Attempt → List ℕ → ℕ → Bool → Received
process_loop [] got len limited = record { bytes = got; outcome = running }
process_loop ((late, r) ∷ rs) got len limited =
    let more = got ++ chunk_of r in
    let rest = process_loop rs more len limited in
    if late && limited
    then record {
      bytes = got;
      outcome = if length got == 0 then err_time_out else returns (length got);
    }
    else if is_end r
    then record { bytes = got; outcome = returns (length got) }
    else if ltb (length more) len
    then rest
    else record { bytes = more; outcome = returns (length more) }

unfoldable pub get_msg_from_process : List Attempt → ℕ → Bool → Received
get_msg_from_process rs len limited = process_loop rs [] len limited
