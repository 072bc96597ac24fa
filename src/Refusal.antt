-- ===== src/Refusal.antt =====
-- How a device is told that it gets no SIM card: `SIM_Allocate_Err` of src/common.c records the error,
-- and the branch of `AccessAuth_Result_Pack` of src/TDM.c for a positive result packs the frame.
pub mod Report
use tdm.Base.{
  ℕ, suc, ◌+◌, Bool, true, false, ◌&&◌, List, [], ◌∷◌, ◌++◌, ◌==◌, leb, if◌then◌else◌, length,
}
use tdm.Base.Int.{ℤ, pos, eqb_ℤ}
use tdm.Frames.{SendFrame, to_byte}

-- The fields of `Data_Spm` that the two functions use.
pub record Allocation : Type 0 where
  pub result : ℤ
  pub factory_flag : ℤ
  pub server_info : List ℕ

-- `IpChange` and `SockErr`; the codes are 1 to 8.
abbrev pub ip_change : ℕ
ip_change = 6

abbrev pub sock_err : ℕ
sock_err = 8

abbrev pub recorded : ℕ → Allocation → Allocation
recorded code a =
    if code == sock_err
    then record { result = pos sock_err; factory_flag = pos 1; server_info = a.server_info }
    else if leb 1 code && leb code 7
    then record { result = pos code; factory_flag = a.factory_flag; server_info = a.server_info }
    else a

-- The allocation after `SIM_Allocate_Err`, and the value returned.
unfoldable pub sim_allocate_err : ℕ → Allocation → Allocation × ℤ
sim_allocate_err code a = (recorded code a, (recorded code a).result)

-- The branch `Src->Result > 0` of `AccessAuth_Result_Pack`: the frame, and `dst_offset`.
unfoldable pub pack_refusal : Allocation → SendFrame × ℕ
pack_refusal a =
    let code = if eqb_ℤ a.result (pos sock_err) then ip_change else to_byte a.result in
    let info = if eqb_ℤ (pos 1) a.factory_flag then a.server_info else [] in
    (
      record {
        cmd_tag = 0x91;
        frame_size_l = 1;
        frame_size_h = 0;
        result = 0x32;
        frame_data = code ∷ info;
      },
      if eqb_ℤ (pos 1) a.factory_flag then 5 + length a.server_info else 5,
    )
