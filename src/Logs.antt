-- ===== src/Logs.antt =====
-- The senders of log lines of src/common.c: `ReConectJavaServer`, `Send_Logs_Data` and
-- `Send_Sim_Data`. What the system calls return is an argument; what the functions do to sockets is
-- kept in order.
pub mod Sockets
use tdm.Base.{
  ℕ, zero, suc, ◌+◌, Bool, true, false, Option, none, some, List, [], ◌∷◌, ◌++◌, leb, if◌then◌else◌,
}
use tdm.Base.Int.{ℤ, pos, negsuc, ltb_ℤ}

-- What is done to a socket. A line is sent on the one it names. One that is left behind was made and is
-- neither returned nor closed.
pub data Act : Type 0 where
  opened : ℤ → Act
  left_behind : ℤ → Act
  sent : ℤ → Act
  received : ℤ → Act
  closed : ℤ → Act

-- What `socket` returns and whether `connect` succeeds in `ConnectToServerTimeOut`, and what `send` and
-- `recv` return, the next time each is called.
pub record Answer : Type 0 where
  pub made : Option ℕ
  pub accepted : Bool
  pub sends : ℤ
  pub receives : ℤ

-- The descriptor afterwards and what was done.
abbrev pub Done : Type 0
Done = ℤ × List Act

abbrev pub after : List Act → Done → Done
after acts d = (d.0, acts ++ d.1)

unfoldable pub is_open : ℤ → Bool
is_open fd = ltb_ℤ (pos 0) fd

-- `ERR_SOCKET` and `ERR_CONNECT`.
abbrev pub err_socket : ℤ
err_socket = negsuc 11

abbrev pub err_connect : ℤ
err_connect = negsuc 15

-- `ConnectToServerTimeOut` of sock_base.c: what it returns. A `connect` that fails leaves the socket open,
-- and so do the callers with a socket 0.
unfoldable pub connect_to : Option ℕ → Bool → ℤ
connect_to none accepted = err_socket
connect_to (some fd) accepted = if accepted then pos fd else err_connect

abbrev pub connects : Answer → ℤ
connects a = connect_to a.made a.accepted

abbrev pub left_of : Option ℕ → List Act
left_of none = []
left_of (some fd) = left_behind (pos fd) ∷ []

abbrev pub acts_of_open : Answer → List Act
acts_of_open a = if is_open (connects a) then opened (connects a) ∷ [] else left_of a.made

-- `ReConectJavaServer`; it returns 0 when the descriptor afterwards is above 0, else -1.
unfoldable pub re_conect_java_server : Answer → ℤ → Done
re_conect_java_server a fd = if is_open fd then (fd, []) else (connects a, acts_of_open a)

-- `Close_Socket_Fd`.
abbrev pub close_fd : ℤ → Done
close_fd fd = if is_open fd then (pos 0, closed fd ∷ []) else (fd, [])

-- Behind a `send` that has succeeded.
abbrev pub receive_reply : Answer → ℤ → Done
receive_reply a fd = after (received fd ∷ []) (if is_open a.receives then (fd, []) else close_fd fd)

-- `Send_Logs_Data` from the label `lk`; `retry` is what follows a `send` that has failed, on the
-- descriptor that is left.
abbrev pub attempt : Answer → (ℤ → Done) → ℤ → Done
attempt a retry fd =
    let r = re_conect_java_server a fd in
    let c = close_fd r.0 in
    after r.1 (
      if is_open r.0
      then after (sent r.0 ∷ [])
          (if is_open a.sends then receive_reply a r.0 else after c.1 (retry c.0))
      else (r.0, []))

abbrev pub given_up : ℤ → Done
given_up fd = (fd, [])

-- `Send_Logs_Data`, with the answers to the first attempt and to the second.
unfoldable pub send_logs_data : Answer → Answer → ℤ → Done
send_logs_data a b fd = attempt a (attempt b given_up) fd

-- `num`: the place of a device in `Logs_Fd`, from the number of its `SN`.
abbrev pub socket_num : ℕ
socket_num = 10

-- `Send_Sim_Data`: what it returns, and what was done.
unfoldable pub send_sim_data : Answer → Done
send_sim_data a =
    let fd = connects a in
    if is_open fd
    then (if is_open a.sends
        then (a.receives, opened fd ∷ sent fd ∷ received fd ∷ closed fd ∷ [])
        else (negsuc 0, opened fd ∷ sent fd ∷ []))
    else (negsuc 0, acts_of_open a)

-- A thread that sends lines, one call after the other, on one of the sockets.
unfoldable pub send_lines : List (Answer × Answer) → ℤ → Done
send_lines [] fd = (fd, [])
send_lines ((a, b) ∷ rest) fd = let d = send_logs_data a b fd in after d.1 (send_lines rest d.0)
