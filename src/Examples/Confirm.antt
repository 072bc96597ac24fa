-- ===== src/Examples/Confirm.antt =====
-- A device that reports its SIM card.
use tdm.Base.{ℕ, ◌≡◌, refl, none, some, List, [], ◌∷◌, ◌++◌, replicate}
use tdm.Base.Int.{pos}
use tdm.Deal.{Deal, deal_proc, get_deal_from_sim_pool_socket}
use tdm.Frames.{tt_result_pack}
use tdm.Config.{◌>>=◌}
use tdm.Handlers.Device.{Device, send_change_ip, coding_with_low_vsim}
use tdm.Handlers.Confirm.{Confirming, Bill, read_bill, get_config_by_mcc, dealt, coding_with_cfmd}
use tdm.Handlers.Confirm.Confirmed.{IsConfirmed, coding_with_cfmd-IsConfirmed}
use tdm.Refusal.{sim_allocate_err}
use tdm.Reports.{codes, printed, set_deal_request}
use tdm.Text.{atoi, read_digits, format, digits}
use tdm.Values.{strtok_r, data_coing, fields_loop}

abbrev no_deal : Deal
no_deal = record {
  minite_remain = 0;
  last_start = 0;
  allocation = record { result = pos 0; factory_flag = pos 0; server_info = [] };
}

abbrev speed_text : List ℕ
speed_text = codes "128-256" ++ replicate 33 0

abbrev device : Confirming
device = record {
  deal = no_deal;
  threshold = 3;
  speed_str = speed_text;
  if_test = 1 ∷ 0 ∷ 0 ∷ 0 ∷ [];
  sn = replicate 16 0;
  s_imsi = [];
  version = 0;
  version_apk = 0;
  mcc = 0;
  state = 0;
  locale_flag = 0;
}

-- A device of the newer version that has begun, in the country 515.
abbrev report : List ℕ
report =
    codes "860172008123456"
    ++ 0 ∷ 0 ∷ (replicate 9 0x11 ++ (codes "1605041006" ++ 3 ∷ 2 ∷ 0 ∷ 0 ∷ replicate 28 0))

abbrev bill : Bill
bill = record {
  bill_sn = codes "860172008123456";
  action = 0;
  bill_imsi = replicate 9 0x11;
  bill_version = codes "1605041006";
  bill_mcc = 515;
  bill_apk = 0;
}

report_read : read_bill 68 report ≡ some bill
unfolding read_bill
report_read = refl

-- The pool has an error of its own, so that the device goes on without a number of minutes.
abbrev pool_error : List ℕ
pool_error = codes "1,2,3,9|[{}]"

abbrev dealt_deal : Deal
dealt_deal = record {
  minite_remain = 65535;
  last_start = 0;
  allocation = record { result = pos 4; factory_flag = pos 0; server_info = [] };
}

is_dealt : dealt 515 (some pool_error) no_deal ≡ some dealt_deal
unfolding deal_proc get_deal_from_sim_pool_socket data_coing fields_loop sim_allocate_err atoi
    read_digits strtok_r
is_dealt = refl

is_configured : get_config_by_mcc none speed_text ≡ some (speed_text, speed_text)
unfolding get_config_by_mcc
is_configured = refl

coding_with_cfmd-IsConfirmed_example :
    (r : Confirming × List ℕ) × ((coding_with_cfmd 68 report (some pool_error, none) device
        ≡ some r)
      × IsConfirmed bill dealt_deal device speed_text r)
coding_with_cfmd-IsConfirmed_example =
    coding_with_cfmd-IsConfirmed 68 report (some pool_error) none device bill dealt_deal speed_text
      speed_text report_read is_dealt is_configured refl

abbrev vpn_device : Device
vpn_device = record {
  dev_sn = codes "860172008123456" ++ 0 ∷ [];
  dev_imsi = replicate 9 0;
  dev_s_imsi = replicate 18 b'0';
  dev_mcc = 455;
  dev_version = 1605041006;
  dev_vpn_flag = 1;
  dev_factory_flag = 1;
  dev_result = 6;
  dev_type = 0;
}

-- A device at home is told to change its server, and one that asks for another card gets none.
ip_change_served :
    let s = send_change_ip vpn_device in
    (s.writes ≡ (2 ∷ 0 ∷ 0 ∷ 0 ∷ []) ∷ [])
    × (s.requests ≡ codes "45445445,3001,2|{'SN':'860172008123456','MCC':'455'}&&" ∷ [])
unfolding send_change_ip set_deal_request printed format digits
ip_change_served = (refl, refl)

low_vsim_served :
    (coding_with_low_vsim 20 vpn_device >>= λ s. some s.writes)
    ≡ some ((0x9F ∷ 0 ∷ 0 ∷ 255 ∷ []) ∷ [])
unfolding coding_with_low_vsim tt_result_pack
low_vsim_served = refl
