-- ===== src/Deal/Keys.antt =====
-- The keys of the answer of the pool and the two addresses of src/common.c.
use tdm.Base.{ℕ, List, [], ◌∷◌}

-- `"ifTest"`.
abbrev pub if_test_key : List ℕ
if_test_key = b'i' ∷ b'f' ∷ b'T' ∷ b'e' ∷ b's' ∷ b't' ∷ []

-- `"orderType"`.
abbrev pub order_type_key : List ℕ
order_type_key = b'o' ∷ b'r' ∷ b'd' ∷ b'e' ∷ b'r' ∷ b'T' ∷ b'y' ∷ b'p' ∷ b'e' ∷ []

-- `"ifRoam"`.
abbrev pub if_roam_key : List ℕ
if_roam_key = b'i' ∷ b'f' ∷ b'R' ∷ b'o' ∷ b'a' ∷ b'm' ∷ []

-- `"speedType"`.
abbrev pub speed_type_key : List ℕ
speed_type_key = b's' ∷ b'p' ∷ b'e' ∷ b'e' ∷ b'd' ∷ b'T' ∷ b'y' ∷ b'p' ∷ b'e' ∷ []

-- `"fileUpdate"`.
abbrev pub file_update_key : List ℕ
file_update_key = b'f' ∷ b'i' ∷ b'l' ∷ b'e' ∷ b'U' ∷ b'p' ∷ b'd' ∷ b'a' ∷ b't' ∷ b'e' ∷ []

-- `"APN"`.
abbrev pub apn_key : List ℕ
apn_key = b'A' ∷ b'P' ∷ b'N' ∷ []

-- `"ifVPN"`.
abbrev pub if_vpn_key : List ℕ
if_vpn_key = b'i' ∷ b'f' ∷ b'V' ∷ b'P' ∷ b'N' ∷ []

-- `"factoryFlag"`.
abbrev pub factory_flag_key : List ℕ
factory_flag_key = b'f' ∷ b'a' ∷ b'c' ∷ b't' ∷ b'o' ∷ b'r' ∷ b'y' ∷ b'F' ∷ b'l' ∷ b'a' ∷ b'g' ∷ []

-- `"serverInfo"`.
abbrev pub server_info_key : List ℕ
server_info_key = b's' ∷ b'e' ∷ b'r' ∷ b'v' ∷ b'e' ∷ b'r' ∷ b'I' ∷ b'n' ∷ b'f' ∷ b'o' ∷ []

-- `"IPAndPort"`.
abbrev pub ip_and_port_key : List ℕ
ip_and_port_key = b'I' ∷ b'P' ∷ b'A' ∷ b'n' ∷ b'd' ∷ b'P' ∷ b'o' ∷ b'r' ∷ b't' ∷ []

-- `"slotNumber"`.
abbrev pub slot_number_key : List ℕ
slot_number_key = b's' ∷ b'l' ∷ b'o' ∷ b't' ∷ b'N' ∷ b'u' ∷ b'm' ∷ b'b' ∷ b'e' ∷ b'r' ∷ []

-- `"speedStr"`.
abbrev pub speed_str_key : List ℕ
speed_str_key = b's' ∷ b'p' ∷ b'e' ∷ b'e' ∷ b'd' ∷ b'S' ∷ b't' ∷ b'r' ∷ []

-- `"SIMIfActivated"`.
abbrev pub sim_if_activated_key : List ℕ
sim_if_activated_key =
    b'S' ∷ b'I' ∷ b'M' ∷ b'I' ∷ b'f' ∷ b'A' ∷ b'c' ∷ b't' ∷ b'i' ∷ b'v' ∷ b'a' ∷ b't' ∷ b'e' ∷ b'd'
    ∷ []

-- `"Vusim_Active_Num"`.
abbrev pub vusim_active_num_key : List ℕ
vusim_active_num_key =
    b'V' ∷ b'u' ∷ b's' ∷ b'i' ∷ b'm' ∷ b'_' ∷ b'A' ∷ b'c' ∷ b't' ∷ b'i' ∷ b'v' ∷ b'e' ∷ b'_' ∷ b'N'
    ∷ b'u' ∷ b'm' ∷ []

-- `"IMEI"`.
abbrev pub imei_key : List ℕ
imei_key = b'I' ∷ b'M' ∷ b'E' ∷ b'I' ∷ []

-- `"IMSI"`.
abbrev pub imsi_key : List ℕ
imsi_key = b'I' ∷ b'M' ∷ b'S' ∷ b'I' ∷ []

-- `"Selnet"`.
abbrev pub selnet_key : List ℕ
selnet_key = b'S' ∷ b'e' ∷ b'l' ∷ b'n' ∷ b'e' ∷ b't' ∷ []

-- `Test_IP` and `Master_IP`.
abbrev pub test_ip : List ℕ
test_ip =
    b'2' ∷ b'1' ∷ b'8' ∷ b'.' ∷ b'1' ∷ b'7' ∷ b'.' ∷ b'1' ∷ b'0' ∷ b'7' ∷ b'.' ∷ b'1' ∷ b'1' ∷ b':'
    ∷ b'1' ∷ b'1' ∷ b'1' ∷ b'1' ∷ b'1' ∷ b',' ∷ b'1' ∷ b'2' ∷ b'0' ∷ b'.' ∷ b'2' ∷ b'4' ∷ b'.'
    ∷ b'2' ∷ b'2' ∷ b'1' ∷ b'.' ∷ b'2' ∷ b'5' ∷ b'2' ∷ b':' ∷ b'8' ∷ b'0' ∷ b'7' ∷ b'0' ∷ b','
    ∷ b'1' ∷ b'2' ∷ b'0' ∷ b'.' ∷ b'2' ∷ b'4' ∷ b'.' ∷ b'2' ∷ b'2' ∷ b'1' ∷ b'.' ∷ b'2' ∷ b'5'
    ∷ b'2' ∷ b':' ∷ b'8' ∷ b'0' ∷ b'7' ∷ b'0' ∷ b',' ∷ b'D' ∷ b'O' ∷ b'M' ∷ b'A' ∷ b'I' ∷ b'N'
    ∷ b'N' ∷ b'A' ∷ b'M' ∷ b'E' ∷ b':' ∷ b't' ∷ b'e' ∷ b's' ∷ b't' ∷ b'.' ∷ b'e' ∷ b'a' ∷ b's'
    ∷ b'y' ∷ b'2' ∷ b'g' ∷ b'o' ∷ b'.' ∷ b'c' ∷ b'n' ∷ []

abbrev pub master_ip : List ℕ
master_ip =
    b'2' ∷ b'1' ∷ b'8' ∷ b'.' ∷ b'1' ∷ b'7' ∷ b'.' ∷ b'1' ∷ b'0' ∷ b'7' ∷ b'.' ∷ b'1' ∷ b'1' ∷ b':'
    ∷ b'1' ∷ b'1' ∷ b'1' ∷ b'1' ∷ b'3' ∷ b',' ∷ b'1' ∷ b'2' ∷ b'0' ∷ b'.' ∷ b'2' ∷ b'4' ∷ b'.'
    ∷ b'2' ∷ b'2' ∷ b'1' ∷ b'.' ∷ b'2' ∷ b'5' ∷ b'2' ∷ b':' ∷ b'8' ∷ b'0' ∷ b'7' ∷ b'0' ∷ b','
    ∷ b'1' ∷ b'2' ∷ b'0' ∷ b'.' ∷ b'2' ∷ b'4' ∷ b'.' ∷ b'2' ∷ b'2' ∷ b'1' ∷ b'.' ∷ b'2' ∷ b'5'
    ∷ b'2' ∷ b':' ∷ b'8' ∷ b'0' ∷ b'7' ∷ b'0' ∷ b',' ∷ b'D' ∷ b'O' ∷ b'M' ∷ b'A' ∷ b'I' ∷ b'N'
    ∷ b'N' ∷ b'A' ∷ b'M' ∷ b'E' ∷ b':' ∷ b't' ∷ b'e' ∷ b's' ∷ b't' ∷ b'.' ∷ b'e' ∷ b'a' ∷ b's'
    ∷ b'y' ∷ b'2' ∷ b'g' ∷ b'o' ∷ b'.' ∷ b'c' ∷ b'n' ∷ []
