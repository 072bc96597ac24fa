-- ===== src/Frames.antt =====
-- Frames between the server and a device, of src/TDM.c: how they are packed, which commands of a
-- device are let through, and which frame a request of the web server sends. A frame is four bytes,
-- then its data; a byte is a number below 256.
pub mod Packing
pub mod Web
use tdm.Base.{
  ℕ, zero, suc, ◌+◌, ◌-◌, ◌*◌, ◌/◌, ◌%◌, Bool, true, false, ◌||◌, Option, none, some, List, [], ◌∷◌,
  ◌++◌, ◌==◌, ltb, leb, take, length, if◌then◌else◌,
}
use tdm.Base.Int.{ℤ, pos, negsuc, ltb_ℤ}

-- `TD_ComProtocl_SendFrame_t`.
pub record SendFrame : Type 0 where
  pub cmd_tag : ℕ
  pub frame_size_l : ℕ
  pub frame_size_h : ℕ
  pub result : ℕ
  pub frame_data : List ℕ

-- `memset(&para, 0, sizeof(para))`; the data is what has been copied to it.
abbrev pub blank_frame : SendFrame
blank_frame = record {
  cmd_tag = 0;
  frame_size_l = 0;
  frame_size_h = 0;
  result = 0;
  frame_data = [];
}

-- The first bytes of the structure, as a `write` sends them.
abbrev pub bytes_of : SendFrame → List ℕ
bytes_of f = f.cmd_tag ∷ f.frame_size_l ∷ f.frame_size_h ∷ f.result ∷ f.frame_data

-- `while(Result > 255) Result = Result - 256;`, on fuel.
unfoldable pub reduce : ℕ → ℕ → ℕ
reduce zero r = r
reduce (suc fuel) r = let rest = reduce fuel (r - 256) in if ltb 255 r then rest else r

-- An `int` stored in an `unsigned char`.
abbrev pub to_byte : ℤ → ℕ
to_byte (pos n) = n % 256
to_byte (negsuc n) = 255 - n % 256

abbrev pub reduce_int : ℤ → ℤ
reduce_int (pos n) = pos (reduce n n)
reduce_int (negsuc n) = negsuc n

-- `TT_Result_Pack` and `TT_Result_Pack1`: the frame and the value returned; `src` is `none` for NULL.
unfoldable pub tt_result_pack : Option (List ℕ) → SendFrame → ℕ → ℤ → ℤ → SendFrame × ℕ
tt_result_pack src dst num cmd result = (
  record {
    cmd_tag = to_byte cmd;
    frame_size_l = num % 256;
    frame_size_h = 0;
    result = to_byte (reduce_int result);
    frame_data = elim src [ none ↦ dst.frame_data | some bs ↦ take num bs ];
  },
  4 + num,
)

abbrev pub member : ℕ → List ℕ → Bool
member x [] = false
member x (y ∷ ys) = (x == y) || member x ys

-- The cases of `Cmd_Test`: `TAG_ACCESS_AUTH`, `TAG_SIMFILE_REQUEST`, `TAG_CMDTT`, `TAG_HB_NEW`,
-- `TAG_VPN_PROFILE_RQST`, `TAG_VPN_RELEASE_CMD`, `TAG_DEAL`, `TAG_LOW_VSIM`, `TAG_LOGOUT`, `TAG_CFMD`,
-- `TAG_LOCAL_STA`, `TAG_HB`, `TAG_AUTONET`, `TAG_GET_APN_INFO`, `TAG_ADN`, `TAG_IP`.
abbrev pub device_tags : List ℕ
device_tags =
    0x81 ∷ 0x82 ∷ 0x83 ∷ 0x8B ∷ 0xA5 ∷ 0xA6 ∷ 0xB0 ∷ 0x9F ∷ 0x9C ∷ 0x85 ∷ 0x87 ∷ 0x84 ∷ 0x9E ∷ 0x8A
    ∷ 0x86 ∷ 0x02 ∷ []

-- The tag, or `none` for -1.
unfoldable pub cmd_test : ℕ → Option ℕ
cmd_test tag = if leb tag 0 then none else if member tag device_tags then some tag else none

-- `PickUp_Web_Data`: what it writes to the socket of the device.
unfoldable pub pick_up_web_data : SendFrame → ℕ → List ℕ → List ℕ
pick_up_web_data para len src = bytes_of record {
  cmd_tag = para.cmd_tag;
  frame_size_l = len % 256;
  frame_size_h = para.frame_size_h;
  result = para.result;
  frame_data = take len src;
}

-- `Web_Rom_Log`, `Web_Loc_Log`.
abbrev pub log_types : List ℕ
log_types = 0x01 ∷ 0x02 ∷ []

-- `Web_Rom_Up`, `Web_Loc_Up`, `Web_Rom_Up_Apk`, `Web_Loc_Up_Apk`, `Web_Set_Up_Apk`, `Web_Roam_Up_Papk`,
-- `Web_MIP_Up`, and the numbers.
abbrev pub update_types : List ℕ
update_types =
    0x03 ∷ 0x04 ∷ 0x05 ∷ 0x06 ∷ 0x11 ∷ 0x12 ∷ 0x07 ∷ 110 ∷ 111 ∷ 112 ∷ 113 ∷ 114 ∷ 115 ∷ 116 ∷ 117
    ∷ 118 ∷ 119 ∷ 120 ∷ 121 ∷ 122 ∷ 123 ∷ 218 ∷ 219 ∷ 220 ∷ 221 ∷ 222 ∷ 223 ∷ []

-- The other cases, each with its tag: `Web_iMsg`, `Web_SPEED`, `Web_APN`, `Web_VPN`, `Web_AUTONET` with
-- the text of the request, `Web_SWAP_VUSIM`, `Web_Reinsert_Sim`, `Web_Remote_shutdown`, `Web_Wifi_PWD`
-- without data.
abbrev pub text_types : List (ℕ × ℕ)
text_types = (0x08, 0x99) ∷ (0x0A, 0x9A) ∷ (0x0B, 0x9D) ∷ (0x0F, 0xA3) ∷ (0x0C, 0x9E) ∷ []

abbrev pub bare_types : List (ℕ × ℕ)
bare_types = (0x09, 0x89) ∷ (0x0D, 0xA2) ∷ (0x0E, 0xA0) ∷ (0x10, 0xA1) ∷ []

abbrev pub tag_of : ℕ → List (ℕ × ℕ) → Option ℕ
tag_of t [] = none
tag_of t ((u, tag) ∷ rest) = if t == u then some tag else tag_of t rest

abbrev pub tagged : ℕ → SendFrame
tagged tag = record {
  cmd_tag = tag;
  frame_size_l = 0;
  frame_size_h = 0;
  result = 0;
  frame_data = [];
}

-- The end of the `switch`: the requests without data.
abbrev pub bare_request : Option ℕ → List (List ℕ)
bare_request none = []
bare_request (some tag) = pick_up_web_data (tagged tag) 0 [] ∷ []

abbrev pub text_request : Option ℕ → List ℕ → List (List ℕ) → List (List ℕ)
text_request none dst rest = rest
text_request (some tag) dst rest = pick_up_web_data (tagged tag) (length dst) dst ∷ []

-- The `switch` of `Client_Web_Manage`: what is written to the device. `dst` is the text of the request,
-- before its terminating zero byte; `type` and `num` are the two bytes of `Web_Data`.
unfoldable pub web_switch : ℕ → ℕ → List ℕ → List (List ℕ)
web_switch type num dst =
    if member type log_types
    then pick_up_web_data (tagged 0x41) 2 (type ∷ num ∷ []) ∷ []
    else if member type update_types
    then pick_up_web_data (tagged 0x8D) 2 (type ∷ num ∷ []) ∷ []
    else text_request (tag_of type text_types) dst (bare_request (tag_of type bare_types))

-- What is written to the web server, what to the device, and the value returned.
pub record Handled : Type 0 where
  pub to_web : List ℕ
  pub to_device : List (List ℕ)
  pub ret : ℤ

-- `Client_Web_Manage` once the request is read; `fd` is `fd1` of the device's node, 0 without a node.
unfoldable pub client_web_manage : ℤ → ℕ → ℕ → List ℕ → Handled
client_web_manage fd type num dst =
    if ltb_ℤ (pos 0) fd
    then record { to_web = b'o' ∷ b'k' ∷ 10 ∷ []; to_device = web_switch type num dst; ret = pos 0 }
    else record {
      to_web = b'f' ∷ b'a' ∷ b'i' ∷ b'l' ∷ b'd' ∷ 10 ∷ [];
      to_device = [];
      ret = negsuc 1;
    }
