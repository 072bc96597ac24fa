-- ===== src/Session.antt =====
-- The list of the devices' sessions of src/common.c, `Data_Fd.head`. A session stays at its position,
-- which stands for the pointer to it: sessions are only added, at the tail. The operations run under
-- `list_mutex`, all but the closing of the socket at the end of `Get_Node_By_SN`.
pub mod Lists
pub mod Table
pub mod Vpn
use tdm.Base.{
  ℕ, zero, suc, ◌+◌, ◌-◌, Bool, true, false, ◌&&◌, ◌||◌, Option, none, some, List, [], ◌∷◌, ◌++◌,
  ◌==◌, ltb, leb, take, drop, length, replicate, get_elem?, set, if◌then◌else◌,
}
use tdm.Base.Int.{ℤ, pos, negsuc, ltb_ℤ}
use tdm.Text.{atoi}

-- The fields of `Data_Spm` that the operations on the list use: the first 15 bytes of `SN`, the two
-- sockets, and the bytes of `vpnc` with `vpn_flag`.
pub record Session : Type 0 where
  pub sn : List ℕ
  pub socket_spm : ℤ
  pub fd1 : ℤ
  pub vpnc : List ℕ
  pub vpn_flag : ℕ

-- The number `atoll` reads; -1 wraps to a number past both ranges.
abbrev pub is_valid_number : ℤ → Bool
is_valid_number (pos n) =
    (ltb 172150210000000 n && ltb n 172150211000000)
    || (ltb 860172008100000 n && ltb n 860172009000000)
is_valid_number (negsuc n) = false

-- `Is_Valid_SN` of an `SN` that is not NULL.
unfoldable pub is_valid_sn : List ℕ → Bool
is_valid_sn sn = is_valid_number (atoi sn)

-- `memcmp` is 0.
abbrev pub same : List ℕ → List ℕ → Bool
same [] [] = true
same [] (y ∷ ys) = false
same (x ∷ xs) [] = false
same (x ∷ xs) (y ∷ ys) = (x == y) && same xs ys

abbrev pub next : Option ℕ → Option ℕ
next none = none
next (some i) = some (suc i)

-- The position of the first session with these 15 bytes.
unfoldable pub place_of : List Session → List ℕ → Option ℕ
place_of [] key = none
place_of (s ∷ ss) key = let rest = next (place_of ss key) in if same s.sn key then some 0 else rest

-- `get_data_list_by_SN`.
abbrev pub get_data_list_by_sn : List Session → List ℕ → Option ℕ
get_data_list_by_sn ss sn = place_of ss (take 15 sn)

-- `Close_Socket_Fd`: the descriptor afterwards, and the descriptors it closes.
abbrev pub close_socket_fd : ℤ → ℤ × List ℤ
close_socket_fd fd = if ltb_ℤ (pos 0) fd then (pos 0, fd ∷ []) else (fd, [])

-- `char vpnc[127]`.
abbrev pub vpnc_size : ℕ
vpnc_size = 127

-- A session of zero bytes with its `SN`; `Init_Data_Spm` sets `socket_spm` to -1.
abbrev pub blank_session : List ℕ → ℤ → Session
blank_session sn socket = record {
  sn = take 15 sn;
  socket_spm = socket;
  fd1 = pos 0;
  vpnc = replicate vpnc_size 0;
  vpn_flag = 0;
}

-- The list afterwards, the session returned, and the descriptors closed.
pub record Got : Type 0 where
  pub sessions : List Session
  pub node : Option ℕ
  pub closed : List ℤ

abbrev pub with_socket_closed : List Session → ℕ → Option Session → Got
with_socket_closed ss i none = record { sessions = ss; node = some i; closed = [] }
with_socket_closed ss i (some s) = record {
  sessions = set ss i (record s { socket_spm = (close_socket_fd s.socket_spm).0 });
  node = some i;
  closed = (close_socket_fd s.socket_spm).1;
}

-- The end of `Get_Node_By_SN`, on the list and the session found or made.
abbrev pub release_socket : List Session → Option ℕ → Got
release_socket ss none = record { sessions = ss; node = none; closed = [] }
release_socket ss (some i) = with_socket_closed ss i (get_elem? ss i)

-- The list and the session when none was found: made, unless `malloc` fails.
abbrev pub add_session : List Session → List ℕ → ℤ → Bool → List Session × Option ℕ
add_session ss sn socket allocated =
    if allocated then (ss ++ blank_session sn socket ∷ [], some (length ss)) else (ss, none)

abbrev pub find_or_add : List Session → List ℕ → ℤ → Bool → Option ℕ → List Session × Option ℕ
find_or_add ss sn socket allocated none = add_session ss sn socket allocated
find_or_add ss sn socket allocated (some i) = (ss, some i)

-- `Get_Node_By_SN`.
unfoldable pub get_node_by_sn : List Session → List ℕ → Bool → Got
get_node_by_sn ss sn allocated =
    let r = find_or_add ss sn (negsuc 0) allocated (get_data_list_by_sn ss sn) in
    if is_valid_sn sn
    then release_socket r.0 r.1
    else record { sessions = ss; node = none; closed = [] }

-- `memcpy(node->vpnc, vpn, strlen(vpn))`, where it fits.
abbrev pub write_vpn : List ℕ → ℕ → Session → Session
write_vpn vpn flag s = record s { vpnc = vpn ++ drop (length vpn) s.vpnc; vpn_flag = flag }

abbrev pub write_session : List Session → ℕ → List ℕ → ℕ → Option Session → List Session
write_session ss i vpn flag none = ss
write_session ss i vpn flag (some s) = set ss i (write_vpn vpn flag s)

abbrev pub write_found : List Session → List ℕ → ℕ → Option ℕ → List Session
write_found ss vpn flag none = ss
write_found ss vpn flag (some i) = write_session ss i vpn flag (get_elem? ss i)

-- `Set_Device_SN_VPN`; `none` when the name does not fit `vpnc` with its zero byte.
unfoldable pub set_device_sn_vpn : List Session → List ℕ → List ℕ → ℕ → Bool → Option (List Session)
set_device_sn_vpn ss sn vpn flag allocated =
    let r = find_or_add ss sn (pos 0) allocated (get_data_list_by_sn ss sn) in
    if ltb (length vpn) vpnc_size then some (write_found r.0 vpn flag r.1) else none

-- The text in an array: the bytes before the first zero.
abbrev pub text_in : List ℕ → List ℕ
text_in [] = []
text_in (c ∷ cs) = let rest = text_in cs in if c == 0 then [] else c ∷ rest

abbrev pub vpn_of : Option Session → Option (List ℕ)
vpn_of none = none
vpn_of (some s) =
    if ltb 10 (length (text_in s.vpnc)) && (s.vpn_flag == 1) then some (text_in s.vpnc) else none

abbrev pub vpn_at : List Session → Option ℕ → Option (List ℕ)
vpn_at ss none = none
vpn_at ss (some i) = vpn_of (get_elem? ss i)

-- `Get_VPN_From_SN_List`: what it copies to `vpn` when it returns 1, `none` when it returns 0.
unfoldable pub get_vpn_from_sn_list : List Session → List ℕ → Option (List ℕ)
get_vpn_from_sn_list ss sn = vpn_at ss (get_data_list_by_sn ss sn)
