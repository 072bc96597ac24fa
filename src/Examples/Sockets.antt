-- ===== src/Examples/Sockets.antt =====
-- A buffer sent in two parts, a message received in two parts, and connections.
use tdm.Base.{
  ℕ, ◌≡◌, ◌≢◌, ◌⊎◌, refl, Bool, true, false, none, some, List, [], ◌∷◌, ◌++◌, ◌==◌, if◌then◌else◌,
  replicate, arith,
}
use tdm.Sock.{
  Write, accepts, Select, ready, timed_out, Round, running, err_recv, put_msg_to_process,
  put_msg_to_sock, get_loop,
}
use tdm.Sock.Sending.{IsDelivered, put_msg-IsDelivered}
use tdm.Sock.{}
use tdm.Sock.Process.{}
use tdm.Sock.Receiving.{closed, get_loop-closed}
use tdm.Conn.{
  conn_new_cmd, conn_closed, Conn, Table, zeroed, conn_new, conn_free, closes, dispatches, reads,
  Accepted, fails, Read, hands, with_which, event_handler,
}
use tdm.Conn.Table.{IsIndexed, IsOpened, conn_new-IsOpened}
use tdm.Conn.Accept.{closed_for, event_handler-accept, event_handler-close}

abbrev message : List ℕ
message = 1 ∷ 2 ∷ 3 ∷ []

abbrev two_writes : List Write
two_writes = accepts 2 ∷ accepts 1 ∷ []

abbrev two_sends : List (Select × Write)
two_sends = (ready, accepts 2) ∷ (timed_out, accepts 1) ∷ []

put_msg-IsDelivered_example :
    IsDelivered message 3 (put_msg_to_process two_writes message 3)
    × IsDelivered message 3 (put_msg_to_sock two_sends message 3)
put_msg-IsDelivered_example = put_msg-IsDelivered two_writes two_sends message

abbrev three : ℕ
three = 3

abbrev two_rounds : List Round
two_rounds = (ready, (some 2, some (1 ∷ 2 ∷ []))) ∷ (ready, (some 9, some (3 ∷ []))) ∷ []

get_loop-closed_example :
    (get_loop (replicate 4 closed) (1 ∷ []) 3 false ≡ record { bytes = 1 ∷ []; outcome = running })
    × (get_loop (replicate 5 closed) (1 ∷ []) 3 true
        ≡ record { bytes = 1 ∷ []; outcome = err_recv })
get_loop-closed_example = get_loop-closed 4 (1 ∷ []) 3 (omega arith)

-- The listening connection alone, with descriptor 3.
abbrev listening : Table
listening i = if i == 3 then some (zeroed 3) else none

at_three :
    (i : ℕ) (c : Conn) (b : Bool)
    → (i == 3) ≡ b
    → (if b then some (zeroed 3) else none) ≡ some c
    → c.sfd ≡ i
at_three i c true e f = ground arith
at_three i c false e f = absurd cc

listening-IsIndexed : IsIndexed listening
listening-IsIndexed i c e = at_three i c (i == 3) refl e

conn_new-IsOpened_example :
    IsOpened listening 8 conn_new_cmd 18 1 (conn_new listening 8 conn_new_cmd 18 1 true 100 true)
    × (IsIndexed (conn_free listening (zeroed 3)) × (conn_free listening (zeroed 3) 3 ≡ none))
conn_new-IsOpened_example =
    conn_new-IsOpened listening 8 conn_new_cmd 18 1 true 100 true (zeroed 3) listening-IsIndexed

-- The device has closed its end.
abbrev ended : Read
ended = record { tag = none; temp = replicate 256 0 }

abbrev refused : List Accepted
refused = fails ∷ Accepted.accepts 7 false ∷ []

event_handler-accept_example :
    (event_handler 3 2 (zeroed 3) (refused ++ Accepted.accepts 8 true ∷ []) ended
      ≡ (with_which (zeroed 3) 2, (closed_for refused ++ dispatches 8 ∷ [], true)))
    × (event_handler 3 2 (zeroed 3) refused ended
        ≡ (with_which (zeroed 3) 2, (closed_for refused, false)))
event_handler-accept_example = event_handler-accept 2 (zeroed 3) refused [] 8 ended refl tt

-- A connection that is waiting for a command.
abbrev commanding : Conn
commanding = record {
  sfd = 8;
  state = conn_new_cmd;
  last_cmd_time = 100;
  ev_flags = 18;
  which = 0;
  item = 0;
  base = 1;
  added = true;
}

event_handler-close_example :
    let fd : ℕ = 8 in
    let r = event_handler 8 2 commanding [] ended in
    (r.1.1 ≡ true)
    × (((fd ≢ 8) × (((r.0.state ≡ conn_closed) × (r.0.added ≡ false)) × (r.1.0 ≡ closes 8 ∷ [])))
        ⊎ ((fd ≡ 8)
            × (((r.0.state ≡ conn_new_cmd) × (r.0.added ≡ true))
                × (((conn_new_cmd ≢ conn_new_cmd) × (r.1.0 ≡ []))
                    ⊎ ((conn_new_cmd ≡ conn_new_cmd) × (r.1.0 ≡ reads 8 ∷ hands [] ∷ []))))))
event_handler-close_example = event_handler-close 8 2 commanding [] ended (λ e. absurd cc)
