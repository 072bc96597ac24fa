-- ===== src/Spm.antt =====
-- The exchange with the server of a SIM card, of src/TDM.c: `PickUp_Data_Spm` and `Data_Coding_Spm`,
-- with `Set_SimCards_Status` and `Get_Data_IP_SN` of src/common.c. `Requests` has the functions that
-- use it. What the system calls return is an
-- argument; what is done is kept in order. A run that writes behind an array gives `none`.
pub mod Requests
pub mod Replies
pub mod Answered
pub mod Sockets
pub mod Strays
pub mod Runs
use tdm.Base.{
  ℕ, zero, suc, ◌+◌, ◌-◌, Bool, true, false, not, ◌&&◌, ◌||◌, Option, none, some, List, [], ◌∷◌,
  ◌++◌, ◌==◌, ltb, leb, take, drop, length, replicate, get_or, if◌then◌else◌,
}
use tdm.Base.Int.{ℤ, pos, negsuc}
use tdm.Config.{◌>>=◌}
use tdm.Logs.{is_open}
use tdm.Receive.{copy, number_at}
use tdm.Session.{same}
use tdm.Sock.{Round, Outcome, returns, Received, get_msg_from_sock}

-- The fields of `Data_Spm` that the functions use; `port`, `sim_bank_id` and `channel_id` are those of
-- `node`, whose `IP` is printed from these four bytes.
pub record Card : Type 0 where
  pub socket_spm : ℤ
  pub cmd_tag : ℕ
  pub len : ℕ
  pub buff : List ℕ
  pub imsi : List ℕ
  pub s_imsi : List ℕ
  pub ip : List ℕ
  pub port : ℕ
  pub sim_bank_id : ℕ
  pub channel_id : ℕ
  pub tt_cnt : ℕ
  pub result : ℕ

-- What `ConnectToServerTimeOut` and `send` return, and the rounds of `GetMsgFromSock`.
pub record Calls : Type 0 where
  pub connects : ℤ
  pub sends : ℤ
  pub rounds : List Round

-- What is done: a connection to the card's server made, sent to, received from and closed; the card
-- reported as bad; a text written to the device; an exchange logged, with its length.
pub data Act : Type 0 where
  connected : ℤ → Act
  sent_to : ℤ → List ℕ → Act
  received_from : ℤ → Act
  disconnected : ℤ → Act
  reported : List ℕ → Act
  wrote : List ℕ → Act
  logged : List ℕ → ℤ → Act

-- `Set_SimCards_Status`; the request goes out with `Send_Sim_Data`.
abbrev pub set_sim_cards_status : List ℕ → List Act
set_sim_cards_status s_imsi =
    if same (take 18 s_imsi) (replicate 18 b'0') then [] else reported s_imsi ∷ []

-- The `Data_IP` at the end of a `TAG_CMDTT`, 12 bytes, when the length in the data is not the frame's.
abbrev pub has_data_ip : Card → Bool
has_data_ip c = (c.cmd_tag == 0x83) && (ltb c.len 6 || not (get_or c.buff 5 0 == c.len - 6))

abbrev pub data_ip_read : List ℕ → Card → Card
data_ip_read bytes c = record c {
  ip = take 4 bytes;
  port = number_at 2 (drop 4 bytes);
  sim_bank_id = get_or bytes 6 0;
  channel_id = get_or bytes 7 0;
  len = c.len - 12;
}

unfoldable pub with_data_ip : Card → Option Card
with_data_ip c =
    if has_data_ip c
    then (if leb 12 c.len then some (data_ip_read (drop (c.len - 12) c.buff) c) else none)
    else some c

-- A `char` as an `int` in memory, and an `unsigned char`.
abbrev pub signed_bytes : ℕ → List ℕ
signed_bytes b = b ∷ replicate 3 (if leb 128 b then 255 else 0)

abbrev pub unsigned_bytes : ℕ → List ℕ
unsigned_bytes b = b ∷ replicate 3 0

-- The 152 bytes of a `Tdm_to_Spm`; data that is longer than `buff` goes on over the two numbers behind
-- it, and from 136 bytes on behind the structure.
abbrev pub request_bytes : Card → List ℕ
request_bytes c =
    unsigned_bytes c.cmd_tag
    ++ (unsigned_bytes c.len
        ++ (take 9 c.imsi
            ++ copy (take c.len c.buff)
                (replicate 127 0 ++ (signed_bytes c.sim_bank_id ++ signed_bytes c.channel_id))))

unfoldable pub tdm_to_spm : Card → Option (List ℕ)
tdm_to_spm c = if leb c.len 135 then some (request_bytes c) else none

-- The card, what was done, and a text: the request picked up, or the answer to it.
abbrev pub Exchange : Type 0
Exchange = Card × (List Act × Option (List ℕ))

-- The connection in `PickUp_Data_Spm`, and whether it goes on. `Get_Data_IP_SN` does nothing and
-- returns 0.
unfoldable pub connect_spm : Calls → Card → Card × (List Act × Bool)
connect_spm s c =
    if is_open c.socket_spm || (c.port == 0)
    then (c, ([], true))
    else if is_open s.connects
    then (record c { socket_spm = s.connects }, (connected s.connects ∷ [], true))
    else (record c { socket_spm = pos 0 }, (set_sim_cards_status c.s_imsi, false))

abbrev pub picked : Card → List Act → List ℕ → Exchange
picked c acts request = (c, (acts, some request))

abbrev pub pick_up_on : Card × (List Act × Bool) → Option Exchange
pick_up_on (c, (acts, false)) = some (c, (acts, none))
pick_up_on (c, (acts, true)) = do request ← tdm_to_spm c; some (picked c acts request)

-- `PickUp_Data_Spm`, with the value it returns in `socket_spm`, where both callers store it; without a
-- request `sendbytes` is not set.
unfoldable pub pick_up_data_spm : Calls → Card → Option Exchange
pick_up_data_spm s c = do d ← with_data_ip c; pick_up_on (connect_spm s d)

-- What `GetMsgFromSock` returns, above 0.
abbrev pub whole_reply : Outcome → List ℕ → Option (List ℕ)
whole_reply (returns (suc n)) bytes = some bytes
whole_reply o bytes = none

-- The card afterwards, what was done, the reply of the card's server, `none` for an error, and the
-- bytes that are in the buffer.
pub record Coded : Type 0 where
  pub card : Card
  pub acts : List Act
  pub reply : Option (List ℕ)
  pub bytes : List ℕ

-- The end of `Data_Coding_Spm` after an error.
abbrev pub disconnect : Card → Card × List Act
disconnect c = (
  record c { socket_spm = negsuc 0 },
  if is_open c.socket_spm then disconnected c.socket_spm ∷ [] else [],
)

abbrev pub coded : Card → List Act → List ℕ → Option (List ℕ) → Coded
coded c acts bytes none = record {
  card = (disconnect c).0;
  acts = acts ++ (disconnect c).1;
  reply = none;
  bytes = bytes;
}
coded c acts bytes (some reply) = record {
  card = c;
  acts = acts;
  reply = some reply;
  bytes = bytes;
}

abbrev pub received_reply : Calls → Received
received_reply s = get_msg_from_sock s.rounds 0 false

-- `Data_Coding_Spm`.
unfoldable pub data_coding_spm : Calls → Card → List ℕ → Coded
data_coding_spm s c src =
    let r = received_reply s in
    let asked = sent_to c.socket_spm src in
    if is_open s.sends
    then coded c (asked ∷ received_from c.socket_spm ∷ []) r.bytes (whole_reply r.outcome r.bytes)
    else coded c (asked ∷ []) [] none

-- Without a request nothing is exchanged, and the buffer holds zeros.
abbrev pub exchanged : Calls → Exchange → Coded
exchanged s (c, (acts, none)) = record { card = c; acts = acts; reply = none; bytes = [] }
exchanged s (c, (acts, some request)) =
    let d = data_coding_spm s c request in
    record { card = d.card; acts = acts ++ d.acts; reply = d.reply; bytes = d.bytes }
