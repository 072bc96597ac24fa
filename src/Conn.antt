-- ===== src/Conn.antt =====
-- Connections of src/TDM.c: the table `conns`, indexed by file descriptor, and what an event on a
-- connection does. What `calloc`, `event_add` and `accept` return is an argument, and so is the time.
pub mod Table
pub mod Accept
use tdm.Base.{ℕ, Bool, true, false, Option, none, some, List, [], ◌∷◌, ◌++◌, ◌==◌, if◌then◌else◌}
use tdm.Session.{text_in}

pub data ConnState : Type 0 where
  conn_listening conn_new_cmd conn_waiting conn_read conn_parse_cmd conn_write conn_nread :
      ConnState
  conn_swallow conn_closing conn_mwrite conn_closed : ConnState

-- `conn`; `base` is the event base that its event was last set on, `added` whether the event is added.
pub record Conn : Type 0 where
  pub sfd : ℕ
  pub state : ConnState
  pub last_cmd_time : ℕ
  pub ev_flags : ℕ
  pub which : ℕ
  pub item : ℕ
  pub base : ℕ
  pub added : Bool

abbrev pub Table : Type 0
Table = ℕ → Option Conn

abbrev pub write_conn : Table → ℕ → Option Conn → Table
write_conn conns i c j = if i == j then c else conns j

-- A connection fresh from `calloc`.
abbrev pub zeroed : ℕ → Conn
zeroed sfd = record {
  sfd = sfd;
  state = conn_listening;
  last_cmd_time = 0;
  ev_flags = 0;
  which = 0;
  item = 0;
  base = 0;
  added = false;
}

-- The connection that `conn_new` works on.
abbrev pub slot : Option Conn → ℕ → Bool → Option Conn
slot (some c) sfd allocated = some c
slot none sfd true = some (zeroed sfd)
slot none sfd false = none

-- The table after `conn_new` has filled in the connection, and what it returns.
abbrev pub fill : Table → ℕ → Option Conn → ConnState → ℕ → ℕ → ℕ → Bool → Table × Option Conn
fill conns sfd none init_state event_flags base now event_add_ok = (conns, none)
fill conns sfd (some c) init_state event_flags base now event_add_ok =
    let d : Conn = record {
      sfd = c.sfd;
      state = init_state;
      last_cmd_time = now;
      ev_flags = event_flags;
      which = c.which;
      item = c.item;
      base = base;
      added = event_add_ok;
    } in
    (write_conn conns sfd (some d), if event_add_ok then some d else none)

unfoldable pub conn_new :
    Table
    → ℕ
    → ConnState
    → ℕ
    → ℕ
    → (allocated : Bool) → (now : ℕ) → (event_add_ok : Bool) → Table × Option Conn
conn_new conns sfd init_state event_flags base allocated now event_add_ok =
    fill conns sfd (slot (conns sfd) sfd allocated) init_state event_flags base now event_add_ok

-- `conn_free`; the connection is in the slot of its descriptor.
unfoldable pub conn_free : Table → Conn → Table
conn_free conns c = write_conn conns c.sfd none

unfoldable pub conn_set_state : Conn → ConnState → Conn
conn_set_state c state = record {
  sfd = c.sfd;
  state = state;
  last_cmd_time = c.last_cmd_time;
  ev_flags = c.ev_flags;
  which = c.which;
  item = c.item;
  base = c.base;
  added = c.added;
}

-- `event_del` and `conn_cleanup`, which clears `item`.
abbrev pub cleaned : Conn → Conn
cleaned c = record {
  sfd = c.sfd;
  state = c.state;
  last_cmd_time = c.last_cmd_time;
  ev_flags = c.ev_flags;
  which = c.which;
  item = 0;
  base = c.base;
  added = false;
}

-- What the process does to the outside.
pub data Effect : Type 0 where
  closes dispatches reads : ℕ → Effect
  hands : List ℕ → Effect

unfoldable pub conn_close : Conn → Conn × List Effect
conn_close c = (conn_set_state (cleaned c) conn_closed, closes c.sfd ∷ [])

-- A call of `accept`: the descriptor it returns, and whether `setnonblocking` succeeds on it. After a
-- failed `accept` it is called on -1, and fails.
pub data Accepted : Type 0 where
  fails : Accepted
  accepts : ℕ → Bool → Accepted

-- The loop of `do_accept` on a listening connection, until `stop`: what it does, and whether it has
-- ended. The closing of -1 does nothing.
unfoldable pub accept_loop : List Accepted → List Effect × Bool
accept_loop [] = ([], false)
accept_loop (fails ∷ calls) = accept_loop calls
accept_loop (accepts sfd true ∷ calls) = (dispatches sfd ∷ [], true)
accept_loop (accepts sfd false ∷ calls) = let (es, b) = accept_loop calls in (closes sfd ∷ es, b)

-- What `Coding_With_Recv_Data` leaves of the bytes that a device has sent: the command, `none` for -1, at
-- the end of the stream too, and `TempBuf`.
pub record Read : Type 0 where
  pub tag : Option ℕ
  pub temp : List ℕ

-- `socket_read_cb`: the text in `TempBuf` is handed to a log thread by `conn_new_func_worker`; the test of
-- the command, with the `conn_close` on -1, is switched off by the preprocessor.
unfoldable pub socket_read_cb : Conn → Read → List Effect
socket_read_cb c got = reads c.sfd ∷ hands (text_in got.temp) ∷ []

unfoldable pub do_accept : Conn → List Accepted → Read → List Effect × Bool
do_accept c calls got = elim c.state [
  | conn_listening ↦ accept_loop calls
  | conn_new_cmd ↦ (socket_read_cb c got, true)
  | _ ↦ ([], true)
]

abbrev pub with_which : Conn → ℕ → Conn
with_which c which = record {
  sfd = c.sfd;
  state = c.state;
  last_cmd_time = c.last_cmd_time;
  ev_flags = c.ev_flags;
  which = which;
  item = c.item;
  base = c.base;
  added = c.added;
}

-- `event_handler` on the connection `c`: the connection after it, what it does, and whether it has
-- returned.
unfoldable pub event_handler : ℕ → ℕ → Conn → List Accepted → Read → Conn × (List Effect × Bool)
event_handler fd which c calls got =
    let d = with_which c which in
    let (e, es) = conn_close d in
    if fd == c.sfd then (d, do_accept d calls got) else (e, (es, true))
