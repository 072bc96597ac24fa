-- ===== src/Sock/Opening.antt =====
-- The functions of src/sock_base.c that make a socket. What the system calls return is an argument;
-- what is computed is the result and the descriptors closed on the way.
use tdm.Base.{
  ℕ, ◌≡◌, ◌≢◌, ◌⊎◌, refl, Bool, true, false, Option, none, some, List, [], ◌∷◌, inl, inr,
}

-- `ERR_SOCKET`, `ERR_BIND`, `ERR_LISTEN`, `ERR_CONNECT`, `ERR_ACCEPT`.
pub data Failure : Type 0 where
  err_socket err_bind err_listen err_connect err_accept : Failure

pub data Result : Type 0 where
  descriptor : ℕ → Result
  error : Failure → Result

-- The result, the descriptors closed, and how often the path of the socket is unlinked.
pub record Opened : Type 0 where
  pub result : Result
  pub closed : List ℕ
  pub unlinked : ℕ

abbrev pub gives : ℕ → ℕ → Opened
gives n fd = record { result = descriptor fd; closed = []; unlinked = n }

abbrev pub leaves : Failure → Opened
leaves e = record { result = error e; closed = []; unlinked = 0 }

abbrev pub closes_with : Failure → ℕ → ℕ → Opened
closes_with e n fd = record { result = error e; closed = fd ∷ []; unlinked = n }

-- A `socket` or an `accept` gives a descriptor or fails; the other calls succeed (`true`) or fail.

-- `ConnectToServer`.
unfoldable pub connect_to_server : Option ℕ → Bool → Opened
connect_to_server none connected = leaves err_socket
connect_to_server (some fd) false = leaves err_connect
connect_to_server (some fd) true = gives 0 fd

-- `ConnectToServerTimeOut`; a `setsockopt` that fails is only printed.
unfoldable pub connect_to_server_time_out : Option ℕ → Bool → Bool → Opened
connect_to_server_time_out none connected set = leaves err_socket
connect_to_server_time_out (some fd) false set = leaves err_connect
connect_to_server_time_out (some fd) true set = gives 0 fd

-- `CreateListenService`: `setsockopt`, `bind`, `listen`.
unfoldable pub create_listen_service : Option ℕ → Bool → Bool → Bool → Opened
create_listen_service none reused bound listens = leaves err_socket
create_listen_service (some fd) false bound listens = closes_with err_socket 0 fd
create_listen_service (some fd) true false listens = closes_with err_bind 0 fd
create_listen_service (some fd) true true false = closes_with err_listen 0 fd
create_listen_service (some fd) true true true = gives 0 fd

-- `AcceptConnection`, without the address of the client.
unfoldable pub accept_connection : Option ℕ → Bool → Opened
accept_connection none set = leaves err_accept
accept_connection (some fd) set = gives 0 fd

-- `ConnectToProcess`.
unfoldable pub connect_to_process : Option ℕ → Bool → Opened
connect_to_process none connected = leaves err_socket
connect_to_process (some fd) false = closes_with err_connect 0 fd
connect_to_process (some fd) true = gives 0 fd

-- `CreateListenProcess`: `bind`, `listen`; the path is unlinked before `bind` and after a failure.
unfoldable pub create_listen_process : Option ℕ → Bool → Bool → Opened
create_listen_process none bound listens = leaves err_socket
create_listen_process (some fd) false listens = closes_with err_bind 2 fd
create_listen_process (some fd) true false = closes_with err_listen 2 fd
create_listen_process (some fd) true true = gives 1 fd

-- `AcceptProcessConnection`.
unfoldable pub accept_process_connection : Option ℕ → Opened
accept_process_connection none = leaves err_accept
accept_process_connection (some fd) = gives 0 fd

-- The descriptor that was made is either returned or closed, once.
abbrev pub IsAccounted : Option ℕ → Opened → Type 0
IsAccounted none o = (o.closed ≡ []) × ((fd : ℕ) → o.result ≢ descriptor fd)
IsAccounted (some fd) o =
    ((o.result ≡ descriptor fd) × (o.closed ≡ []))
    ⊎ (((e : ℕ) → o.result ≢ descriptor e) × (o.closed ≡ fd ∷ []))

error_is : (e : Failure) (fd : ℕ) → error e ≢ descriptor fd
error_is e fd h = absurd cc

nothing_made : (e : Failure) → IsAccounted none (leaves e)
nothing_made e = (refl, error_is e)

returned : (fd n : ℕ) → IsAccounted (some fd) (gives n fd)
returned fd n = inl (refl, refl)

closed_again : (e : Failure) (n fd : ℕ) → IsAccounted (some fd) (closes_with e n fd)
closed_again e n fd = inr (error_is e, refl)

-- Whatever the system calls return, `CreateListenService`, `ConnectToProcess`, `CreateListenProcess`
-- and the two functions that accept a connection return the descriptor they made or close it and
-- return an error; of `ConnectToServer` and `ConnectToServerTimeOut` this holds when the socket is
-- not made or is connected, and they return an error and leave the socket open when it is not.
pub opening-IsAccounted :
    (o : Option ℕ) (fd : ℕ) (a b c : Bool)
    → (IsAccounted o (create_listen_service o a b c)
        × (IsAccounted o (connect_to_process o a)
            × (IsAccounted o (create_listen_process o a b)
                × (IsAccounted o (accept_connection o a)
                    × IsAccounted o (accept_process_connection o)))))
      × ((IsAccounted o (connect_to_server o true)
            × IsAccounted o (connect_to_server_time_out o true a))
          × ((connect_to_server (some fd) false ≡ leaves err_connect)
              × (connect_to_server_time_out (some fd) false a ≡ leaves err_connect)))
unfolding create_listen_service connect_to_process create_listen_process accept_connection
    accept_process_connection connect_to_server connect_to_server_time_out
opening-IsAccounted none fd a b c =
    let none_made = nothing_made err_socket in
    let none_taken = nothing_made err_accept in
    (
      (none_made, (none_made, (none_made, (none_taken, none_taken)))),
      ((none_made, none_made), (refl, refl)),
    )
opening-IsAccounted (some x) fd a b c = (
  (listen_service a b c, (process a, (listen_process a b, (returned x 0, returned x 0)))),
  ((returned x 0, returned x 0), (refl, refl)),
)
  where
    listen_service : (a b c : Bool) → IsAccounted (some x) (create_listen_service (some x) a b c)
    listen_service false b c = closed_again err_socket 0 x
    listen_service true false c = closed_again err_bind 0 x
    listen_service true true false = closed_again err_listen 0 x
    listen_service true true true = returned x 0

    process : (a : Bool) → IsAccounted (some x) (connect_to_process (some x) a)
    process false = closed_again err_connect 0 x
    process true = returned x 0

    listen_process : (a b : Bool) → IsAccounted (some x) (create_listen_process (some x) a b)
    listen_process false b = closed_again err_bind 2 x
    listen_process true false = closed_again err_listen 2 x
    listen_process true true = returned x 1
