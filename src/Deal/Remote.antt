-- ===== src/Deal/Remote.antt =====
-- `Get_Deal_From_Remote` of src/common.c, which asks the pool for a card, and what a device at home is
-- told.
use tdm.Base.{
  Bool, List, Option, [], if◌then◌else◌, length, none, refl, some, true, ℕ, ◌+◌, ◌%◌, ◌==◌, ◌∷◌,
  ◌≡◌,
}
use tdm.Base.Int.{ℤ, pos, eqb_ℤ}
use tdm.Frames.{bytes_of, member}
use tdm.Refusal.{Allocation, ip_change, sim_allocate_err, pack_refusal}
use tdm.Deal.Keys.{test_ip, master_ip}
use tdm.Deal.{get_deal_from_sim_pool}
use tdm.Config.{◌>>=◌}
use tdm.Deal.Answer.{Info, overlay, get_data_from_deal}

-- `SIM_Allocate_Err(IpChange, para)`: the data and the value returned.
abbrev pub ip_changed : Info → Info × ℤ
ip_changed d = (
  record d { allocation = (sim_allocate_err ip_change d.allocation).0 },
  (sim_allocate_err ip_change d.allocation).1,
)

abbrev pub flag_tested : Info × ℤ → Info × ℤ
flag_tested r = if eqb_ℤ r.1 (pos 0) then (r.0, pos 0) else ip_changed r.0

abbrev pub deal_read : Info → Allocation × (ℤ × List ℕ) → Option (Info × ℤ)
deal_read d r =
    let e = record d { allocation = r.0 } in
    let read = get_data_from_deal r.1.1 e >>= (λ t. some (flag_tested t)) in
    if eqb_ℤ r.1.0 (pos 0) then read else some (e, r.1.0)

abbrev pub with_address : List ℕ → Info → Info
with_address text d = record d {
  allocation = record d.allocation { server_info = overlay text d.allocation.server_info };
}

-- `para->MCC`, an `unsigned short`; 0 in the request stands for 460.
abbrev pub short_mcc : ℕ → ℕ
short_mcc mcc = if mcc == 0 then 460 else mcc % 65536

-- The countries where the device is sent to another server.
abbrev pub is_home : ℕ → Bool
is_home mcc = member (short_mcc mcc) (454 ∷ 455 ∷ 460 ∷ [])

-- `Get_Deal_From_Remote` for the country code of the request.
unfoldable pub get_deal_from_remote : ℕ → Option (List ℕ) → Info → Option (Info × ℤ)
get_deal_from_remote mcc answer d =
    let sent = ip_changed (
      with_address test_ip
        (record d { allocation = record d.allocation { factory_flag = pos 1 } })) in
    let abroad = with_address master_ip d in
    let asked = get_deal_from_sim_pool abroad.allocation answer >>= deal_read abroad in
    if is_home mcc then some sent else asked

-- What `Get_Deal_From_Remote` leaves for a device that is sent to another server: the value returned,
-- and the frame that `AccessAuth_Result_Pack` makes of it, with the length.
abbrev pub IsSent : List ℕ → Option (Info × ℤ) → Type 0
IsSent info none = pos 0 ≡ pos 1
IsSent info (some r) =
    (r.1 ≡ pos 6)
    × ((bytes_of (pack_refusal r.0.allocation).0 ≡ 0x91 ∷ 1 ∷ 0 ∷ 0x32 ∷ 6 ∷ info)
        × ((pack_refusal r.0.allocation).1 ≡ 5 + length info))

-- For a request from one of the home countries, or without a country, `Get_Deal_From_Remote` returns
-- `IpChange` whatever the pool answers, and the frame for the device has that code and behind it the
-- addresses of the test server, over what the session held there.
pub get_deal_from_remote-IsSent :
    (mcc : ℕ) (answer : Option (List ℕ)) (d : Info)
    → is_home mcc ≡ true
    → IsSent (overlay test_ip d.allocation.server_info) (get_deal_from_remote mcc answer d)
unfolding get_deal_from_remote sim_allocate_err pack_refusal
get_deal_from_remote-IsSent mcc answer d h = rw h (refl, (refl, refl))
