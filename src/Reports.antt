-- ===== src/Reports.antt =====
-- The texts that src/common.c and src/TDM.c print for the server of the log lines and for the pool of
-- SIM cards: each is one `sprintf`. The time is an argument, and so is what `sprintf` prints for a null
-- pointer.
pub mod Flow
pub mod Rooms
use Prim.Native.Char.{code}
use Prim.Native.String.{String}
use tdm.Base.{
  ℕ, zero, suc, ◌+◌, ◌-◌, ◌^◌, ◌*◌, ◌%◌, Bool, true, false, List, [], ◌∷◌, ◌++◌, ◌==◌, ltb, take,
  drop, length, get_or, if◌then◌else◌,
}
use tdm.Base.Int.{ℤ, pos, negsuc}
use tdm.Hex.{hex_string}
use tdm.Receive.{number_at}
use tdm.Text.{digits, format}

-- The bytes of a text of ASCII characters.
abbrev pub codes : String → List ℕ
codes String.[] = []
codes (String.◌∷◌ c s) = code c ∷ codes s

-- The parts of a format: text, `%s`, `%d`, `%lld` and `%ld`.
pub data Piece : Type 0 where
  say : String → Piece
  str : List ℕ → Piece
  int : ℤ → Piece
  long : ℕ → Piece

abbrev pub piece_text : Piece → List ℕ
piece_text (say s) = codes s
piece_text (str t) = t
piece_text (int n) = format 1 n
piece_text (long n) = digits 20 1 n []

unfoldable pub printed : List Piece → List ℕ
printed [] = []
printed (p ∷ ps) = piece_text p ++ printed ps

-- An `unsigned int` as an `int`.
abbrev pub as_int : ℕ → ℤ
as_int n = if ltb n (2 ^ 31) then pos n else negsuc (2 ^ 32 - 1 - n)

-- `Heart_Log_Pack`, for the `HB_NEW_t` in these bytes.
abbrev pub heart_pieces : List ℕ → List ℕ → List ℕ → ℕ → List Piece
heart_pieces sn imsi hb time =
    say "45445445,2002,6|{'SN':'"
    ∷ str sn
    ∷ say "','location':'"
    ∷ int (pos (number_at 2 hb))
    ∷ say "."
    ∷ int (pos (get_or hb 2 0))
    ∷ say "."
    ∷ int (as_int (number_at 4 (drop 4 hb)))
    ∷ say "."
    ∷ int (as_int (number_at 4 (drop 8 hb)))
    ∷ say "','dayUsedFlow':'"
    ∷ int (as_int (number_at 4 (drop 12 hb)))
    ∷ say "','roamGStrenth':'"
    ∷ int (pos (get_or hb 3 0))
    ∷ say "','IMSI':'"
    ∷ str imsi
    ∷ say "','lastTime':'"
    ∷ long time
    ∷ say "'}&&"
    ∷ []

unfoldable pub heart_log_pack : List ℕ → List ℕ → List ℕ → ℕ → List ℕ
heart_log_pack sn imsi hb time = printed (heart_pieces sn imsi hb time)

-- `Local_Confirm_Pack`, for the number of `Version`.
abbrev pub confirm_pieces : List ℕ → List ℕ → ℤ → ℤ → List ℕ → ℕ → List Piece
confirm_pieces sn imsi version apk iccid time =
    say "45445445,2003,7|{'SN':'"
    ∷ str sn
    ∷ say "','version':'"
    ∷ int version
    ∷ say "','IMSI':'"
    ∷ str imsi
    ∷ say "','versionAPK':'"
    ∷ int apk
    ∷ say "','TTContext':'"
    ∷ str iccid
    ∷ say "','lastTime':'"
    ∷ long time
    ∷ say "'}&&"
    ∷ []

unfoldable pub local_confirm_pack : List ℕ → List ℕ → ℤ → ℤ → List ℕ → ℕ → List ℕ
local_confirm_pack sn imsi version apk iccid time =
    printed (confirm_pieces sn imsi version apk iccid time)

-- `TT_Log_Pack_Data`: the text; nothing is printed for a length that is not above 0.
abbrev pub tt_text : List ℕ → ℤ → List ℕ
tt_text buff (pos n) = hex_string (take n buff)
tt_text buff (negsuc n) = []

abbrev pub tt_pieces : List ℕ → ℕ → List ℕ → List ℕ → ℤ → ℕ → List Piece
tt_pieces sn cnt imsi buff len time =
    say "45445445,2005,7|{'SN':'"
    ∷ str sn
    ∷ say "','TTCnt':'"
    ∷ int (pos cnt)
    ∷ say "','IMSI':'"
    ∷ str (take 18 imsi)
    ∷ say "','TTContext':'"
    ∷ str (tt_text buff len)
    ∷ say "','ContextLen':'"
    ∷ int len
    ∷ say "','lastTime':'"
    ∷ long time
    ∷ say "'}&&"
    ∷ []

unfoldable pub tt_log_pack_data : List ℕ → ℕ → List ℕ → List ℕ → ℤ → ℕ → List ℕ
tt_log_pack_data sn cnt imsi buff len time = printed (tt_pieces sn cnt imsi buff len time)

-- `LOG_OUT_Log_Pack`; a number of zeros is printed as a null pointer.
abbrev pub zero_imsi : List ℕ
zero_imsi = codes "000000000000000000"

abbrev pub same_text : List ℕ → List ℕ → Bool
same_text [] [] = true
same_text [] (y ∷ ys) = false
same_text (x ∷ xs) [] = false
same_text (x ∷ xs) (y ∷ ys) = if x == y then same_text xs ys else false

abbrev pub log_out_pieces : List ℕ → List ℕ → List ℕ → ℕ → List Piece
log_out_pieces null_text sn imsi time =
    say "45445445,2006,3|{'SN':'"
    ∷ str sn
    ∷ say "','IMSI':'"
    ∷ str (if same_text imsi zero_imsi then null_text else imsi)
    ∷ say "','lastTime':'"
    ∷ long time
    ∷ say "'}&&"
    ∷ []

unfoldable pub log_out_log_pack : List ℕ → List ℕ → List ℕ → ℕ → List ℕ
log_out_log_pack null_text sn imsi time = printed (log_out_pieces null_text sn imsi time)

-- The text of `VPN_Log`.
abbrev pub vpn_pieces : List ℕ → List ℕ → ℤ → ℤ → ℤ → ℕ → List Piece
vpn_pieces sn vpn result num type time =
    say "45445445,2001,7|{'SN':'"
    ∷ str sn
    ∷ say "','type':'07','TTContext':'"
    ∷ str vpn
    ∷ say "','ContextLen':'"
    ∷ int type
    ∷ say "','gSta':'"
    ∷ int num
    ∷ say "','battery':'"
    ∷ int result
    ∷ say "','lastTime':'"
    ∷ long time
    ∷ say "'}&&"
    ∷ []

unfoldable pub vpn_log : List ℕ → List ℕ → ℤ → ℤ → ℤ → ℕ → List ℕ
vpn_log sn vpn result num type time = printed (vpn_pieces sn vpn result num type time)

-- The requests to the pool: `Set_SimCards_Status`, `Get_SpeedStr_From_Socket`,
-- `Set_Deal_From_SimPool`, `Deal_Proc` with `Type` and without.
unfoldable pub status_request : List ℕ → List ℕ
status_request imsi =
    printed (say "45445,1005,2|{'IMSI':'" ∷ str imsi ∷ say "','serverIp':''}&&" ∷ [])

unfoldable pub speed_request : List ℕ → ℕ → List ℕ
speed_request sn mcc =
    printed
      (say "45445445,3002,2|{'SN':'" ∷ str sn ∷ say "','MCC':'" ∷ int (pos mcc) ∷ say "'}&&" ∷ [])

unfoldable pub set_deal_request : List ℕ → ℤ → List ℕ
set_deal_request sn country =
    printed
      (say "45445445,3001,2|{'SN':'" ∷ str sn ∷ say "','MCC':'" ∷ int country ∷ say "'}&&" ∷ [])

abbrev pub typed_deal_pieces : List ℕ → ℤ → ℕ → List Piece
typed_deal_pieces sn mcc time =
    say "45445445,3003,3|{'SN':'"
    ∷ str sn
    ∷ say "','MCC':'"
    ∷ int mcc
    ∷ say "','nowtime':'"
    ∷ long time
    ∷ say "'}&&"
    ∷ []

-- `Web_IP`, `Web_Port`.
abbrev pub web_ip : String
web_ip = "218.17.107.11"

abbrev pub web_port : ℕ
web_port = 10162

abbrev pub plain_deal_pieces : List ℕ → ℤ → ℕ → List Piece
plain_deal_pieces sn mcc time =
    say "333,1001,12|{'SN':'"
    ∷ str sn
    ∷ say "','nowtime':'"
    ∷ long time
    ∷ say "','MCC':'"
    ∷ int mcc
    ∷ say
        "','MNC':'0','LAC':'0','CID':'0','Data':'0','firmWareVer':'0','firmWareAPKVer':'0','battery':'100','minsRemaining':'0','tdmIpPort':'"
    ∷ say web_ip
    ∷ say ":"
    ∷ int (pos web_port)
    ∷ say "','serverCode':'0'}&&"
    ∷ []

abbrev pub home_mcc : ℤ → ℤ
home_mcc (pos zero) = pos 460
home_mcc n = n

unfoldable pub deal_request : ℕ → List ℕ → ℤ → ℕ → List ℕ
deal_request type sn mcc time = printed (
    if type == 0
    then plain_deal_pieces sn (home_mcc mcc) time
    else typed_deal_pieces sn (home_mcc mcc) time)

-- The numbers of a request for access that `Login_Log_Pack_Data` prints; `battery` is a `char`.
pub record Login : Type 0 where
  pub login_mcc : ℕ
  pub mnc : ℤ
  pub lac : ℤ
  pub cid : ℤ
  pub data_used : ℤ
  pub firmware_ver : ℤ
  pub apk : ℕ
  pub login_battery : ℤ
  pub take_time : ℕ

abbrev pub login_pieces : List ℕ → Login → ℕ → List Piece
login_pieces sn l time =
    say "333,1001,12|{'SN':'"
    ∷ str sn
    ∷ say "','nowtime':'"
    ∷ long time
    ∷ say "','MCC':'"
    ∷ int (pos l.login_mcc)
    ∷ say "','MNC':'"
    ∷ int l.mnc
    ∷ say "','LAC':'"
    ∷ int l.lac
    ∷ say "','CID':'"
    ∷ int l.cid
    ∷ say "','Data':'"
    ∷ int l.data_used
    ∷ say "','firmWareVer':'"
    ∷ int l.firmware_ver
    ∷ say "','firmWareAPKVer':'"
    ∷ int (as_int l.apk)
    ∷ say "','battery':'"
    ∷ int l.login_battery
    ∷ say "','minsRemaining':'"
    ∷ int (pos l.take_time)
    ∷ say "','tdmIpPort':'"
    ∷ say web_ip
    ∷ say ":"
    ∷ int (pos web_port)
    ∷ say "','serverCode':'0'}&&"
    ∷ []

-- `Login_Log_Pack_Data`.
unfoldable pub login_log_pack_data : List ℕ → Login → ℕ → List ℕ
login_log_pack_data sn l time = printed (login_pieces sn l time)
