-- ===== src/Spm/Requests.antt =====
-- The requests of a device that its SIM card answers, of src/TDM.c: `Coding_With_CMDTT` and
-- `Coding_With_SIMFILE_REQUEST`, and how `Coding_With_CMD_Data_Pool` comes to them.
use tdm.Base.{
  ℕ, zero, suc, ◌-◌, ◌%◌, Bool, Option, none, some, List, [], ◌∷◌, ◌++◌, ◌==◌, leb, take, drop,
  length, replicate, get_or, if◌then◌else◌,
}
use tdm.Base.Int.{ℤ, pos, negsuc}
use tdm.Config.{◌>>=◌}
use tdm.Frames.{SendFrame, bytes_of, tt_result_pack, member}
use tdm.Hex.{hex_string}
use tdm.Logs.{is_open}
use tdm.Receive.{}
use tdm.Spm.{
  Card, Calls, Act, disconnected, wrote, logged, set_sim_cards_status, pick_up_data_spm, Coded,
  exchanged,
}

-- `RecvBuf` as a frame.
abbrev pub recv_size : ℕ
recv_size = 520

abbrev pub received_frame : List ℕ → SendFrame
received_frame bytes = record {
  cmd_tag = get_or bytes 0 0;
  frame_size_l = get_or bytes 1 0;
  frame_size_h = get_or bytes 2 0;
  result = get_or bytes 3 0;
  frame_data = drop 4 (bytes ++ replicate (recv_size - length bytes) 0);
}

abbrev pub tag_result_cmdtt : ℕ
tag_result_cmdtt = 0x93

-- `write` of what `TT_Result_Pack` has packed.
abbrev pub written_frame : SendFrame × ℕ → Act
written_frame (f, n) = wrote (take n (bytes_of f))

unfoldable pub tt_frame : Option (List ℕ) → List ℕ → ℕ → ℕ → Act
tt_frame src bytes num cnt =
    written_frame (tt_result_pack src (received_frame bytes) num (pos tag_result_cmdtt) (pos cnt))

-- The codes of a reply of one byte: the card is bad; or its server cannot answer.
abbrev pub bad_card_codes : List ℕ
bad_card_codes = 1 ∷ 2 ∷ 3 ∷ 4 ∷ 6 ∷ 7 ∷ 8 ∷ []

abbrev pub failure_codes : List ℕ
failure_codes = 5 ∷ 9 ∷ 10 ∷ 11 ∷ []

-- An `int` of the other sign.
abbrev pub negated : ℕ → ℤ
negated zero = pos 0
negated (suc n) = negsuc n

-- The longest reply whose text fits `TT_buf` of `TT_Log_Pack_Data`, with its zero byte.
abbrev pub tt_buf_room : ℕ
tt_buf_room = 79

-- A reply of one byte: the card, and what is written and logged.
abbrev pub code_reply : Card → ℕ → Card × List Act
code_reply c code =
    let log = logged [] (negated code) in
    let cnt = get_or c.buff 0 0 in
    if member code bad_card_codes
    then (
      record c { result = 3 },
      set_sim_cards_status c.s_imsi ++ tt_frame none (code ∷ []) 1 cnt ∷ log ∷ [],
    )
    else if member code failure_codes
    then (c, tt_frame none (code ∷ []) 2 cnt ∷ log ∷ [])
    else (c, wrote (code ∷ []) ∷ log ∷ [])

-- The branches of `Coding_With_CMDTT` on what `Data_Coding_Spm` returns.
abbrev pub tt_reply : Card → List ℕ → Option (List ℕ) → Option (Card × List Act)
tt_reply c bytes none = some (c, tt_frame none bytes 1 (get_or c.buff 0 0) ∷ logged [] (pos 0) ∷ [])
tt_reply c bytes (some []) =
    some (c, tt_frame none bytes 1 (get_or c.buff 0 0) ∷ logged [] (pos 0) ∷ [])
tt_reply c bytes (some (code ∷ [])) = some (code_reply c code)
tt_reply c bytes (some (a ∷ b ∷ rest)) =
    let reply = a ∷ b ∷ rest in
    if leb (length reply) tt_buf_room
    then some (
      c,
      tt_frame (some reply) [] (length reply) (get_or c.buff 0 0)
          ∷ logged (hex_string reply) (pos (length reply))
          ∷ [],
    )
    else none

abbrev pub after_acts : List Act → Card × List Act → Card × List Act
after_acts acts (c, more) = (c, acts ++ more)

abbrev pub tt_answered : Coded → Option (Card × List Act)
tt_answered d = do r ← tt_reply d.card d.bytes d.reply; some (after_acts d.acts r)

abbrev pub tt_started : Card → Card
tt_started c = record c { tt_cnt = get_or c.buff 0 0; s_imsi = hex_string c.imsi }

-- `Coding_With_CMDTT`.
unfoldable pub coding_with_cmdtt : Calls → Card → Option (Card × List Act)
coding_with_cmdtt s c = do e ← pick_up_data_spm s (tt_started c); tt_answered (exchanged s e)

-- The end of `Coding_With_SIMFILE_REQUEST`; the answer must fit its buffer with a zero byte.
abbrev pub file_written : Coded → List ℕ → Option (Card × List Act)
file_written d reply =
    if leb 1024 (length reply)
    then none
    else if leb (length reply) 5
    then some (d.card, d.acts ++ set_sim_cards_status d.card.s_imsi)
    else some (d.card, d.acts ++ wrote reply ∷ [])

abbrev pub file_reply : Coded → Option (List ℕ) → Option (Card × List Act)
file_reply d none = file_written d []
file_reply d (some reply) = file_written d reply

-- `Coding_With_SIMFILE_REQUEST`.
unfoldable pub coding_with_simfile_request : Calls → Card → Option (Card × List Act)
coding_with_simfile_request s c = do
  e ← pick_up_data_spm s c
  (let d = exchanged s e in file_reply d d.reply)

-- The handlers of `Coding_With_Date`.
pub data Handler : Type 0 where
  access_auth simfile_request change_ip cmdtt hb new_hb cfmd local log_out low_vsim deal : Handler
  vpn_rqst vpn_cmd unhandled : Handler

-- The `switch` of `Coding_With_Date`.
unfoldable pub handler_of : ℕ → Handler
handler_of tag =
    if tag == 0x81
    then access_auth
    else if tag == 0x82
    then simfile_request
    else if tag == 0x02
    then change_ip
    else if tag == 0x83
    then cmdtt
    else if tag == 0x84
    then hb
    else if tag == 0x8B
    then new_hb
    else if tag == 0x85
    then cfmd
    else if tag == 0x87
    then local
    else if tag == 0x9C
    then log_out
    else if tag == 0x9F
    then low_vsim
    else if tag == 0xB0
    then deal
    else if tag == 0xA5
    then vpn_rqst
    else if tag == 0xA6
    then vpn_cmd
    else unhandled

-- `Close_Socket_Fd` on the connection of a card.
abbrev pub close_socket : Card → Card × List Act
close_socket c =
    if is_open c.socket_spm
    then (record c { socket_spm = pos 0 }, disconnected c.socket_spm ∷ [])
    else (c, [])

-- `Node_Data`.
pub record NodeData : Type 0 where
  pub node_tag : ℕ
  pub node_len : ℕ
  pub node_buff : List ℕ
  pub node_imsi : List ℕ

-- The request copied to the session; its `len` is an `unsigned char`.
abbrev pub with_request : NodeData → Card → Card
with_request n c = record c {
  cmd_tag = n.node_tag;
  len = n.node_len % 256;
  buff = n.node_buff;
  imsi = if get_or c.imsi 0 0 == 0x80 then c.imsi else take 9 n.node_imsi;
}

-- What `Coding_With_ACCESS_AUTH` stores of the answer of the pool, in the fields of `Card`.
pub record Stored : Type 0 where
  pub stored_imsi : List ℕ
  pub stored_s_imsi : List ℕ
  pub stored_ip : List ℕ
  pub stored_port : ℕ
  pub stored_sim_bank_id : ℕ
  pub stored_channel_id : ℕ
  pub stored_result : ℕ

abbrev pub with_stored : Stored → Card → Card
with_stored t c = record c {
  imsi = t.stored_imsi;
  s_imsi = t.stored_s_imsi;
  ip = t.stored_ip;
  port = t.stored_port;
  sim_bank_id = t.stored_sim_bank_id;
  channel_id = t.stored_channel_id;
  result = t.stored_result;
}

-- What happens around a request: the system calls of an exchange; what `Coding_With_ACCESS_AUTH` stores,
-- which the answer of the pool decides; whether a log-out comes more than 25 seconds after the one
-- before.
pub record Around : Type 0 where
  pub calls : Calls
  pub stored : Stored
  pub late : Bool

-- `Coding_With_Date`. Of the handlers that do not exchange anything with the card's server, this is
-- what they do to its connection, and to the fields of `Card`.
unfoldable pub coding_with_date : Handler → Around → Card → Option (Card × List Act)
coding_with_date cmdtt a c = coding_with_cmdtt a.calls c
coding_with_date simfile_request a c = coding_with_simfile_request a.calls c
coding_with_date access_auth a c =
    let closed = close_socket c in some (with_stored a.stored closed.0, closed.1)
coding_with_date cfmd a c = some (close_socket c)
coding_with_date log_out a c = some (if a.late then close_socket c else (c, []))
coding_with_date h a c = some (c, [])

-- `Coding_With_CMD_Data_Pool` for a device that has a session, which `Get_Node_By_SN` finds and whose
-- connection it closes.
unfoldable pub coding_with_cmd_data_pool : NodeData → Around → Card → Option (Card × List Act)
coding_with_cmd_data_pool n a c =
    let closed = close_socket c in
    do
      r ← coding_with_date (handler_of n.node_tag) a (with_request n closed.0)
      some (after_acts closed.1 r)

-- The requests of a device, one after the other.
unfoldable pub pool_requests : List (NodeData × Around) → Card → Option (Card × List Act)
pool_requests [] c = some (c, [])
pool_requests ((n, a) ∷ rest) c = do
  (d, acts) ← coding_with_cmd_data_pool n a c
  r ← pool_requests rest d
  some (after_acts acts r)
