-- ===== src/Receive.antt =====
-- What the server does with the bytes a device has sent, `Coding_With_Recv_Data` of src/TDM.c and the
-- functions it calls before the request goes to a thread. The frames for
-- `Coding_With_Local_Socket` and `Coding_With_Out_Sql`, which go on to the device's session, are
-- `other` here; `Sessions` has what is written for them.
pub mod Answers
pub mod Sessions
use tdm.Base.{
  ℕ, zero, suc, ◌+◌, ◌-◌, ◌*◌, ◌^◌, ◌/◌, ◌%◌, Bool, true, false, not, ◌&&◌, ◌||◌, Option, none,
  some, List, [], ◌∷◌, ◌++◌, ◌==◌, ltb, leb, take, drop, length, replicate, get_or, if◌then◌else◌,
}
use tdm.Frames.{SendFrame, cmd_test, pick_up_web_data, tagged}
use tdm.Session.{is_valid_sn, text_in}
use tdm.Base.Int.{ℤ, pos, negsuc}
use tdm.Text.{digits, format}
use tdm.Values.{strstr}

-- `TD_ComProtocl_RecvFrame_t`; the data goes on to the end of the buffer. `in_front` are the two bytes of
-- the stack that lie in front of it.
pub record RecvFrame : Type 0 where
  pub in_front : List ℕ
  pub cmd_tag : ℕ
  pub frame_size : ℕ
  pub frame_data : List ℕ

-- The fields of `tmd_pthread` that are used: the 16 bytes of `SN`, `IMSI` and `num`.
pub record Para : Type 0 where
  pub sn : List ℕ
  pub imsi : List ℕ
  pub num : ℕ

-- `memcpy` to the front of an array.
abbrev pub copy : List ℕ → List ℕ → List ℕ
copy new old = new ++ drop (length new) old

-- `memcpy(para->SN, ..., 15)`, and with 16 bytes.
abbrev pub with_sn : ℕ → List ℕ → Para → Para
with_sn n bytes p = record p { sn = copy (take n bytes) p.sn }

-- `sprintf` to `SN`, with its zero byte; a text of 16 characters or more goes on behind the array.
abbrev pub print_sn : List ℕ → Para → Para
print_sn text p = record p { sn = copy (text ++ 0 ∷ []) p.sn }

-- Unsigned numbers in memory, the lowest byte first.
abbrev pub number_at : ℕ → List ℕ → ℕ
number_at zero bytes = 0
number_at (suc n) bytes = get_or bytes 0 0 + 256 * number_at n (drop 1 bytes)

-- What the functions leave: the thread's data, `TempBuf`, what is written to the device, and the
-- command, `none` for -1.
pub record Taken : Type 0 where
  pub para : Para
  pub temp : List ℕ
  pub writes : List (List ℕ)
  pub tag : Option ℕ

abbrev pub header_only : ℕ → ℕ → List ℕ
header_only tag result = tag ∷ 0 ∷ 0 ∷ result ∷ []

abbrev pub if_valid : Para → ℕ → Option ℕ
if_valid p tag = if is_valid_sn p.sn then some tag else none

-- The number of a `Deal_t`, printed with `%llu`.
abbrev pub deal_sn : List ℕ → List ℕ
deal_sn bytes = digits 20 1 (number_at 8 bytes) []

-- The `switch` of `Coding_With_CMD_Data_Pack`: the serial number, and what is written.
abbrev pub pack_para : ℕ → RecvFrame → Para → Para
pack_para tag r p =
    if tag == 0xB0 then print_sn (deal_sn r.frame_data) p else with_sn 15 r.frame_data p

abbrev pub pack_writes : ℕ → List (List ℕ)
pack_writes tag =
    if tag == 0xA6
    then header_only 0xA6 1 ∷ []
    else if tag == 0x9C
    then header_only 0x9C 0 ∷ []
    else []

-- `Coding_With_CMD_Data_Pack`, for the tags it is called with.
unfoldable pub coding_with_cmd_data_pack : RecvFrame → List ℕ → Para → ℕ → Taken
coding_with_cmd_data_pack r temp p tag =
    let q = pack_para tag r (record p { num = r.frame_size }) in
    record {
      para = q;
      temp = copy (take r.frame_size r.frame_data) temp;
      writes = pack_writes tag;
      tag = if_valid q tag;
    }

-- `Coding_With_HB_Socket`.
unfoldable pub coding_with_hb_socket : RecvFrame → List ℕ → Para → Taken
coding_with_hb_socket r temp p =
    let q = with_sn 15 (drop 9 r.frame_data) p in
    record {
      para = q;
      temp = copy (take r.frame_size r.frame_data) temp;
      writes = header_only 0x94 0 ∷ [];
      tag = if_valid q 0x84;
    }

-- `Coding_With_NewHB_Socket`; its caller keeps the command.
unfoldable pub coding_with_new_hb_socket : RecvFrame → List ℕ → Para → Taken
coding_with_new_hb_socket r temp p = record {
  para = record p { num = r.frame_size };
  temp = copy (take r.frame_size r.frame_data) temp;
  writes = header_only 0x9B 0 ∷ [];
  tag = some 0x8B;
}

-- `Coding_With_Frame_Data`; `DeviceSN` is at byte 24 of `AccessAuth_Def`.
unfoldable pub coding_with_frame_data : RecvFrame → List ℕ → Para → ℕ → Taken
coding_with_frame_data r temp p tag =
    let q = record p { num = r.frame_size } in
    record {
      para = if r.cmd_tag == 0x81 then with_sn 16 (drop 24 r.frame_data) q else q;
      temp = copy (take r.frame_size r.frame_data) temp;
      writes = [];
      tag = some tag;
    }

-- An `unsigned int` printed with `%d`.
abbrev pub as_int : ℕ → ℤ
as_int n = if ltb n (2 ^ 31) then pos n else negsuc (2 ^ 32 - 1 - n)

-- `860172%09d` and `172150%09d`.
abbrev pub device_sn : ℕ → List ℕ
device_sn n =
    if ltb n 210000000
    then b'8' ∷ b'6' ∷ b'0' ∷ b'1' ∷ b'7' ∷ b'2' ∷ format 9 (as_int n)
    else b'1' ∷ b'7' ∷ b'2' ∷ b'1' ∷ b'5' ∷ b'0' ∷ format 9 (as_int n)

-- The `Data_IP` at the end of the frame, 12 bytes; its `SN` is at byte 8, so that for a frame of less than
-- four bytes it is read from the header, and from the bytes in front of it.
abbrev pub last_sn : RecvFrame → ℕ
last_sn r = number_at 4 (
    drop r.frame_size
      (get_or r.in_front 0 0 ∷ get_or r.in_front 1 0 ∷ r.cmd_tag ∷ r.frame_size ∷ r.frame_data))

-- The conditions under which `Coding_With_TT_Data` takes the serial number from the frame.
abbrev pub is_anonymous : Para → Bool
is_anonymous p =
    ltb (length (text_in p.sn)) 10
    && ((get_or p.imsi 0 0 == 0x80)
        && (ltb 0x90 (get_or p.imsi 1 0) && leb (get_or p.imsi 1 0) 0x99))

abbrev pub tt_para : RecvFrame → List ℕ → Para → Para
tt_para r temp p =
    if is_anonymous p && (ltb p.num 6 || not (get_or temp 5 0 == p.num - 6))
    then print_sn (device_sn (last_sn r)) p
    else p

-- `Coding_With_TT_Data`; the frame without data has the tag `Web_SWAP_VUSIM`.
unfoldable pub coding_with_tt_data : RecvFrame → List ℕ → Para → Taken
coding_with_tt_data r temp p =
    let new = copy (take p.num (drop 9 r.frame_data)) temp in
    let q = tt_para r new (record p { imsi = take 9 r.frame_data }) in
    record {
      para = q;
      temp = new;
      writes = if is_valid_sn q.sn then [] else pick_up_web_data (tagged 0x09) 0 [] ∷ [];
      tag = some 0x83;
    }

-- The tags `Coding_With_CMD_Data_Pack` is called with.
abbrev pub is_packed : ℕ → Bool
is_packed tag =
    (tag == 0xA5)
    || ((tag == 0xA6) || ((tag == 0xB0) || ((tag == 0x9F) || ((tag == 0x9C) || (tag == 0x85)))))

pub data Reception : Type 0 where
  closed : Reception
  web : List ℕ → Reception
  unknown : Reception
  taken : Taken → Reception
  other : ℕ → Para → Reception
  overrun : Reception

abbrev pub kept_command : Para → List ℕ → ℕ → Taken
kept_command p temp tag = record { para = p; temp = temp; writes = []; tag = some tag }

-- The `switch` of `Coding_With_Recv_Data`.
abbrev pub by_tag : RecvFrame → List ℕ → Para → ℕ → Reception
by_tag r temp p tag =
    if (tag == 0x81) || (tag == 0x82)
    then taken (coding_with_frame_data r temp p tag)
    else if tag == 0x83
    then taken (coding_with_tt_data r temp p)
    else if tag == 0x8B
    then taken (coding_with_new_hb_socket r temp p)
    else if is_packed tag
    then taken (coding_with_cmd_data_pack r temp p tag)
    else if tag == 0x84
    then taken (coding_with_hb_socket r temp p)
    else if tag == 0x02
    then taken (kept_command p temp tag)
    else other tag p

abbrev pub received_tag : RecvFrame → List ℕ → Para → Option ℕ → Reception
received_tag r temp p none = unknown
received_tag r temp p (some tag) = by_tag r temp (record p { num = r.frame_size - 9 }) tag

-- `char buf[512]` with what was read in it, as a frame.
abbrev pub frame_in : (front bytes : List ℕ) → RecvFrame
frame_in front bytes = record {
  in_front = front;
  cmd_tag = get_or bytes 0 0;
  frame_size = get_or bytes 1 0;
  frame_data = drop 2 (bytes ++ replicate (512 - length bytes) 0);
}

abbrev pub frame_or_web : List ℕ → List ℕ → Para → Option (List ℕ) → Reception
frame_or_web front bytes p (some found) = web (text_in bytes)
frame_or_web front bytes p none =
    let r = frame_in front bytes in received_tag r bytes p (cmd_test r.cmd_tag)

-- `Coding_With_Recv_Data` on the bytes read, at most 512, behind the bytes `front` of the stack; `TempBuf` has room for 256.
unfoldable pub coding_with_recv_data : List ℕ → List ℕ → Para → Reception
coding_with_recv_data front [] p = closed
coding_with_recv_data front (b ∷ bs) p =
    if leb (length (b ∷ bs)) 256
    then frame_or_web front (b ∷ bs) p (strstr (text_in (b ∷ bs)) (b's' ∷ b'n' ∷ []))
    else overrun
