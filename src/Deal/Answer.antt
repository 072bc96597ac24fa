-- ===== src/Deal/Answer.antt =====
-- The fields of `Data_Spm` that are read out of the answer of the pool to a log-in,
-- `Get_Data_From_Deal` of src/common.c and the readers it calls. The text fields are arrays of zero
-- bytes to begin with, and a text is copied to them without its zero byte. `IP`, `sIMSI` and
-- `IMSI` are written past their end by longer texts, and then there is no result; for the other arrays a
-- text of 63 characters that is too long is not told apart.
use tdm.Base.{
  ℕ, Bool, true, leb, Option, none, some, List, [], ◌∷◌, ◌++◌, ◌==◌, ltb, drop, length,
  if◌then◌else◌,
}
use tdm.Base.Int.{ℤ, pos}
use tdm.Config.{◌>>=◌}
use tdm.Deal.{get_key_value_int, to_short, last_start_key, mins_remaining_key}
use tdm.Deal.Keys.{
  if_test_key, order_type_key, if_roam_key, speed_type_key, file_update_key, apn_key, if_vpn_key,
  factory_flag_key, server_info_key, ip_and_port_key, slot_number_key, speed_str_key,
  sim_if_activated_key, vusim_active_num_key, imei_key, imsi_key, selnet_key,
}
use tdm.Frames.{to_byte}
use tdm.Refusal.{Allocation}
use tdm.Hex.{str2hex}
use tdm.Text.{atoi}
use tdm.Values.{Reading, found, fails, overrun, starts, get_key_value, strtok_r}

pub record Info : Type 0 where
  pub minite_remain : ℕ
  pub last_start : ℕ
  pub if_test : ℤ
  pub order_type : ℕ
  pub vpn : ℕ
  pub if_vpn : ℕ
  pub speed_str : List ℕ
  pub s_imsi : List ℕ
  pub imsi : List ℕ
  pub ip : List ℕ
  pub port : ℕ
  pub sim_bank_id : ℕ
  pub channel_id : ℕ
  pub apn : List ℕ
  pub is_apn : ℕ
  pub selnet : List ℕ
  pub is_net : ℕ
  pub if_roam : ℕ
  pub speed_type : ℕ
  pub need_file : ℕ
  pub imei : ℤ
  pub active_num : List ℕ
  pub active_flag : ℕ
  pub allocation : Allocation

-- A text copied over the one in an array.
abbrev pub overlay : List ℕ → List ℕ → List ℕ
overlay v old = v ++ drop (length v) old

-- `char Key[64]` with its zero byte.
abbrev pub key_in : List ℕ → List ℕ → Reading
key_in src key = get_key_value (some src) key 63

-- What a reader does with the value; a key that is not there changes nothing.
abbrev pub on_value : Reading → Info → (List ℕ → Info) → Option Info
on_value (found v) d f = some (f v)
on_value (fails n) d f = some d
on_value overrun d f = none

-- `Get_Key_Value_VPN`.
abbrev pub if_vpn_of : ℕ → ℕ → ℕ
if_vpn_of vpn old =
    if vpn == 0 then 0 else if vpn == 1 then 0x08 else if vpn == 2 then 0x10 else old

unfoldable pub get_key_value_vpn : List ℕ → List ℕ → Info → Option Info
get_key_value_vpn src key d = do
  n ← get_key_value_int src key
  some (record d { vpn = to_byte n; if_vpn = if_vpn_of (to_byte n) d.if_vpn })

-- `Get_Key_Value_Factory`; `serverInfo` is cleared before it is read.
abbrev pub server_info_in : Reading → Option (List ℕ)
server_info_in (found v) = some v
server_info_in (fails n) = some []
server_info_in overrun = none

abbrev pub with_server_info : Allocation → List ℕ → Allocation
with_server_info a v = record {
  result = a.result;
  factory_flag = if ltb (length v) 10 then pos 0 else pos 1;
  server_info = v;
}

abbrev pub with_factory : ℕ → Option (List ℕ) → Allocation → Option Allocation
with_factory flag v a =
    let read = v >>= (λ t. some (with_server_info a t)) in
    if flag == 1 then read else some (record a { factory_flag = pos flag })

unfoldable pub get_key_value_factory : List ℕ → List ℕ → List ℕ → Info → Option Info
get_key_value_factory src flag_key info_key d = do
  n ← get_key_value_int src flag_key
  a ← with_factory (to_byte n) (server_info_in (get_key_value (some src) info_key 127)) d.allocation
  some (record d { allocation = a })

-- The two parts of a value around a delimiter.
abbrev pub first_part : ℕ → List ℕ → Option (List ℕ × List ℕ)
first_part d v = strtok_r d v

abbrev pub second_of : ℕ → Option (List ℕ × List ℕ) → Option (List ℕ × List ℕ)
second_of d none = none
second_of d (some t) = strtok_r d t.1

abbrev pub text_or : List ℕ → Option (List ℕ × List ℕ) → List ℕ
text_or old none = old
text_or old (some t) = overlay t.0 old

abbrev pub number_or : ℕ → (ℤ → ℕ) → Option (List ℕ × List ℕ) → ℕ
number_or old narrow none = old
number_or old narrow (some t) = narrow (atoi t.0)

-- `char IP[16]`: an address has to fit with its zero byte.
abbrev pub address_room : ℕ
address_room = 15

abbrev pub part_fits : Option (List ℕ × List ℕ) → Bool
part_fits none = true
part_fits (some t) = leb (length t.0) address_room

-- The data afterwards, unless a text does not fit.
abbrev pub if_fits : Bool → Info → Option Info
if_fits fits d = if fits then some d else none

abbrev pub on_fitting : Reading → Info → (List ℕ → Bool) → (List ℕ → Info) → Option Info
on_fitting (found v) d fits f = if_fits (fits v) (f v)
on_fitting (fails n) d fits f = some d
on_fitting overrun d fits f = none

-- `Get_Key_Value_IPAndPort`; `none` when the address is written past `IP`.
unfoldable pub get_key_value_ip_and_port : List ℕ → List ℕ → Info → Option Info
get_key_value_ip_and_port src key d =
    on_fitting (key_in src key) d (λ v. part_fits (first_part b':' v))
      (λ v. record d {
        ip = text_or d.ip (first_part b':' v);
        port = number_or d.port to_short (second_of b':' (first_part b':' v));
      })

-- `Get_Key_Value_Str_Type`.
unfoldable pub get_key_value_str_type : List ℕ → List ℕ → Info → Option Info
get_key_value_str_type src key d = on_value (key_in src key) d (λ v. record d {
  sim_bank_id = number_or d.sim_bank_id to_byte (first_part b'-' v);
  channel_id = number_or d.channel_id to_byte (second_of b'-' (first_part b'-' v));
})

-- `Get_Key_Value_Str`: the text and the value returned.
abbrev pub long_text : ℕ → List ℕ → List ℕ → List ℕ × ℕ
long_text len old v = if ltb len (length v) then (overlay v old, 1) else (old, 0)

abbrev pub str_read : ℕ → List ℕ → Reading → Option (List ℕ × ℕ)
str_read len old (found v) = some (long_text len old v)
str_read len old (fails n) = some (old, 0)
str_read len old overrun = none

unfoldable pub get_key_value_str : List ℕ → List ℕ → List ℕ → ℕ → Option (List ℕ × ℕ)
get_key_value_str src key old len = str_read len old (key_in src key)

-- `Get_Key_Value_Vusim_Active_Flag`; the first two bytes of the Chinese for "no" are compared.
abbrev pub with_active_flag : Info → List ℕ → Info
with_active_flag d v = record d { active_flag = if starts (0xE5 ∷ 0x90 ∷ []) v then 1 else 0 }

abbrev pub with_active_num : Info → List ℕ → Info
with_active_num d v =
    if ltb 9 (length v)
    then record d { active_num = overlay v d.active_num }
    else record d { active_flag = 0 }

abbrev pub active_num_read : List ℕ → List ℕ → Info → Option Info
active_num_read src key d =
    if d.active_flag == 1 then on_value (key_in src key) d (with_active_num d) else some d

unfoldable pub get_key_value_vusim_active_flag : List ℕ → List ℕ → List ℕ → Info → Option Info
get_key_value_vusim_active_flag src flag_key num_key d = do
  e ← on_value (key_in src flag_key) d (with_active_flag d)
  active_num_read src num_key e

-- `Get_Key_Value_IMEI` and `Get_Key_Value_IMSI`, which leaves the digits in `sIMSI`.
unfoldable pub get_key_value_imei : List ℕ → List ℕ → Info → Option Info
get_key_value_imei src key d = on_value (key_in src key) d (λ v. record d { imei = atoi v })

-- `char sIMSI[18]` and `unsigned char IMSI[9]`, which two characters for each byte fill.
abbrev pub s_imsi_size : ℕ
s_imsi_size = 18

-- `Get_Key_Value_IMSI`; `none` when it writes past the arrays.
unfoldable pub get_key_value_imsi : List ℕ → List ℕ → Info → Option Info
get_key_value_imsi src key d =
    on_fitting (key_in src key) d (λ v. leb (length v) s_imsi_size)
      (λ v. record d {
        s_imsi = overlay v d.s_imsi;
        imsi = overlay (str2hex v (length v)).dst d.imsi;
      })

-- The numbers of `Get_Data_From_Deal`, in the order of the source.
abbrev pub numbers_read : List ℕ → Info → Option Info
numbers_read src d = do
  mins ← get_key_value_int src mins_remaining_key
  last ← get_key_value_int src last_start_key
  test ← get_key_value_int src if_test_key
  order ← get_key_value_int src order_type_key
  roam ← get_key_value_int src if_roam_key
  speed ← get_key_value_int src speed_type_key
  file ← get_key_value_int src file_update_key
  some (record d {
    minite_remain = to_short mins;
    last_start = to_byte last;
    if_test = test;
    order_type = to_byte order;
    if_roam = to_byte roam;
    speed_type = to_byte speed;
    need_file = to_byte file;
  })

abbrev pub with_apn : Info → List ℕ × ℕ → Info
with_apn d r = record d { apn = r.0; is_apn = r.1 }

abbrev pub with_selnet : Info → List ℕ × ℕ → Info
with_selnet d r = record d { selnet = r.0; is_net = if r.1 == 0 then d.is_net else 0x02 }

-- The end of `Get_Data_From_Deal`: `speedType`, and `Result` set to 0.
abbrev pub finished : Info → Info
finished d = record d {
  speed_type = if d.speed_type == 1 then 0x04 else d.speed_type;
  allocation = record {
    result = pos 0;
    factory_flag = d.allocation.factory_flag;
    server_info = d.allocation.server_info;
  };
}

-- `Get_Data_From_Deal`: the data, and `factoryFlag` as the value returned; `none` when a reader writes
-- past an array.
unfoldable pub get_data_from_deal : List ℕ → Info → Option (Info × ℤ)
get_data_from_deal src d0 = do
  d1 ← numbers_read src d0
  apn ← get_key_value_str src apn_key d1.apn 3
  d2 ← get_key_value_vpn src if_vpn_key (with_apn d1 apn)
  d3 ← get_key_value_factory src factory_flag_key server_info_key d2
  d4 ← get_key_value_ip_and_port src ip_and_port_key d3
  d5 ← get_key_value_str_type src slot_number_key d4
  speed ← get_key_value_str src speed_str_key d5.speed_str 4
  d6 ←
      get_key_value_vusim_active_flag src sim_if_activated_key vusim_active_num_key
        (record d5 { speed_str = speed.0 })
  d7 ← get_key_value_imei src imei_key d6
  d8 ← get_key_value_imsi src imsi_key d7
  net ← get_key_value_str src selnet_key d8.selnet 4
  some (finished (with_selnet d8 net), (finished (with_selnet d8 net)).allocation.factory_flag)
