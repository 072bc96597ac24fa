-- ===== src/Handlers/Device.antt =====
-- The handlers of src/TDM.c that keep what a device reports or let it go: `Coding_With_HB`,
-- `Send_Change_IP`, `Coding_With_VPN_CMD` and `Coding_With_Low_Vsim`, and the log lines of
-- `Coding_With_NewHB` and `Coding_With_Local`.
use tdm.Base.{
  ℕ, Bool, ◌||◌, Option, none, some, List, [], ◌∷◌, ◌==◌, leb, take, drop, length, if◌then◌else◌,
}
use tdm.Base.Int.{pos, negsuc}
use tdm.Frames.{bytes_of, blank_frame, tt_result_pack}
use tdm.Hex.{hex_string}
use tdm.Receive.{copy, header_only}
use tdm.Reports.{heart_log_pack, vpn_log, set_deal_request}
use tdm.Reports.Flow.{local_log_pack}
use tdm.Session.{text_in}
use tdm.Text.{}

-- The fields of `Data_Spm` that the handlers use: `IMSI` with 9 bytes, `SN` with 16.
pub record Device : Type 0 where
  pub dev_sn : List ℕ
  pub dev_imsi : List ℕ
  pub dev_s_imsi : List ℕ
  pub dev_mcc : ℕ
  pub dev_version : ℕ
  pub dev_vpn_flag : ℕ
  pub dev_factory_flag : ℕ
  pub dev_result : ℕ
  pub dev_type : ℕ

-- A `Log_Data`, handed to the pool of threads.
pub record LogData : Type 0 where
  pub log_sn : List ℕ
  pub log_text : List ℕ
  pub log_len : ℕ

abbrev pub log_data : List ℕ → List ℕ → LogData
log_data sn text = record { log_sn = take 15 sn; log_text = text; log_len = length text }

-- The session, the texts written to the device, those sent to the pool of SIM cards, and the lines for
-- the log server.
pub record Served : Type 0 where
  pub device : Device
  pub writes : List (List ℕ)
  pub requests : List (List ℕ)
  pub lines : List LogData

abbrev pub serves : Device → Served
serves d = record { device = d; writes = []; requests = []; lines = [] }

-- `Coding_With_HB`: `heartBeatWithData_t` has `IMSI` in front and `SN` behind it.
abbrev pub heart_beat : List ℕ → Device → Device
heart_beat buff d = record d {
  dev_imsi = take 9 buff;
  dev_sn = copy (take 15 (drop 9 buff)) d.dev_sn;
  dev_s_imsi = hex_string (take 9 buff);
}

unfoldable pub coding_with_hb : ℕ → List ℕ → Device → Served
coding_with_hb len buff d = serves (if len == 0 then d else heart_beat buff d)

-- `Coding_With_NewHB`.
unfoldable pub coding_with_new_hb : ℕ → List ℕ → Device → Served
coding_with_new_hb time buff d = record (serves (record d { dev_type = 1 })) {
  lines =
      log_data d.dev_sn (heart_log_pack (text_in d.dev_sn) (text_in d.dev_s_imsi) buff time) ∷ [];
}

-- `Coding_With_Local`.
unfoldable pub coding_with_local : ℕ → List ℕ → Device → Served
coding_with_local time buff d = record (serves (record d { dev_type = 2 })) {
  lines =
      log_data d.dev_sn
        (local_log_pack (text_in d.dev_sn) (text_in d.dev_s_imsi) d.dev_version buff time)
      ∷ [];
}

-- `Send_Change_IP`: the pool is told of a device at home.
abbrev pub is_near : ℕ → Bool
is_near mcc = (mcc == 454) || ((mcc == 455) || (mcc == 460))

unfoldable pub send_change_ip : Device → Served
send_change_ip d = record {
  device = record d { dev_factory_flag = 0; dev_result = 0 };
  writes = header_only 0x02 0 ∷ [];
  requests =
      if is_near d.dev_mcc then set_deal_request (text_in d.dev_sn) (pos d.dev_mcc) ∷ [] else [];
  lines = [];
}

-- `Coding_With_VPN_CMD`: `Release_Vpn` has 16 bytes of `SN`, then 50 of `Vpn`; a text that
-- fills its array is read on to the end of the structure. `SetVPN_Status` does nothing; a name of at
-- most 5 characters is not logged.
abbrev pub released : ℕ → List ℕ → List ℕ → Device → Served
released time sn vpn d = record (serves (record d { dev_vpn_flag = 0 })) {
  writes = header_only 0xA6 0 ∷ [];
  lines = log_data sn (vpn_log sn vpn (pos 1) (pos 0) (pos 1) time) ∷ [];
}

unfoldable pub coding_with_vpn_cmd : ℕ → List ℕ → Device → Served
coding_with_vpn_cmd time buff d =
    let bytes = take 66 buff in
    let vpn = text_in (drop 16 bytes) in
    if leb (length vpn) 5
    then record (serves d) { writes = header_only 0xA6 0 ∷ [] }
    else released time (text_in bytes) vpn d

-- `Coding_With_Low_Vsim`: `Get_Low_simcards` returns -1; `Rqst_Low_Vsim` has 20 bytes.
unfoldable pub coding_with_low_vsim : ℕ → Device → Option Served
coding_with_low_vsim num d =
    let frame = tt_result_pack none blank_frame 0 (pos 0x9F) (negsuc 0) in
    if leb num 20 then some (record (serves d) { writes = bytes_of frame.0 ∷ [] }) else none
