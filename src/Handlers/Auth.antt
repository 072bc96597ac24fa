-- ===== src/Handlers/Auth.antt =====
-- A device's request for a SIM card, from the answer of the pool to the frame that is written:
-- `Coding_With_ACCESS_AUTH` and `AccessAuth_Result_Pack` of src/TDM.c, `SIM_Allocate_Proc` of
-- src/common.c.
pub mod Answered
use tdm.Base.{
  ℕ, suc, ◌%◌, ◌+◌, ◌<◌, ◌≡◌, ◌⊎◌, inl, inr, refl, sym, ap, ◌∙◌, subst, Bool, true, false, Option,
  none, some, List, [], ◌∷◌, ◌++◌, ◌==◌, length, take, take-all, length-append, if◌then◌else◌,
  Bool-cases, Option-cases, arith,
}
use tdm.Base.Int.{ℤ, pos, negsuc, eqb_ℤ, ltb_ℤ}
use tdm.Access.{result_bytes, set_data_ip, pack_success}
use tdm.Config.{◌>>=◌}
use tdm.Deal.{
  get_deal_from_sim_pool, get_deal_from_sim_pool_socket, deal_of, error_of, low_power,
  out_of_service, no_sim_usable,
}
use tdm.Deal.Answer.{
  Info, get_data_from_deal, numbers_read, get_key_value_str, get_key_value_vpn, with_apn,
  get_key_value_factory, get_key_value_ip_and_port, get_key_value_str_type,
  get_key_value_vusim_active_flag, get_key_value_imei, get_key_value_imsi,
}
use tdm.Deal.Remote.{
  get_deal_from_remote, is_home, with_address, ip_changed, flag_tested, deal_read,
}
use tdm.Deal.Keys.{
  master_ip, test_ip, apn_key, if_vpn_key, factory_flag_key, server_info_key, ip_and_port_key,
  slot_number_key, speed_str_key, sim_if_activated_key, vusim_active_num_key, imei_key, imsi_key,
  selnet_key,
}
use tdm.Frames.{SendFrame, bytes_of, member, to_byte}
use tdm.Receive.{number_at}
use tdm.Refusal.{Allocation, recorded, sim_allocate_err, pack_refusal}

-- `AccessAuth_Result_Pack`: the frame and its length; `none` when the address does not fit.
unfoldable pub access_auth_result_pack : Info → ℕ → Option (SendFrame × ℕ)
access_auth_result_pack d threshold =
    if ltb_ℤ (pos 0) d.allocation.result
    then some (pack_refusal d.allocation)
    else pack_success d threshold

-- `SIM_Allocate_Proc`: the country code stands at the front of `AccessAuth_Def`.
unfoldable pub sim_allocate_proc : List ℕ → Option (List ℕ) → Info → Option (Info × ℤ)
sim_allocate_proc buff answer d = get_deal_from_remote (number_at 4 buff) answer d

abbrev pub written : SendFrame × ℕ → List ℕ
written (f, n) = take n (bytes_of f)

-- What the session holds afterwards, and what is written; a descriptor of 0 stands for no device.
abbrev pub auth_answer : ℕ → ℤ → Info → Option (Info × List (List ℕ))
auth_answer threshold fd1 d =
    if eqb_ℤ fd1 (pos 0)
    then some (d, [])
    else access_auth_result_pack d threshold >>= λ f. some (d, written f ∷ [])

-- `Coding_With_ACCESS_AUTH`, for the request in `Buff` and the answer of the pool; `none` when a text is
-- written past an array.
unfoldable pub coding_with_access_auth :
    List ℕ → Option (List ℕ) → ℕ → ℤ → Info → Option (Info × List (List ℕ))
coding_with_access_auth buff answer threshold fd1 d =
    sim_allocate_proc buff answer d >>= λ r. auth_answer threshold fd1 r.0
