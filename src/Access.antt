-- ===== src/Access.antt =====
-- The frame for a device that gets a SIM card, the branch of `AccessAuth_Result_Pack` of src/TDM.c for
-- the result 0, with `Set_Dada_IP` of src/common.c.
pub mod Address
use tdm.Base.{
  ℕ, zero, suc, ◌+◌, ◌%◌, ◌/◌, Bool, true, false, Option, none, some, List, [], ◌∷◌, ◌++◌, ◌==◌,
  length, take, ltb, replicate, get_or, if◌then◌else◌,
}
use Prim.Native.Nat.{bit_and, bit_or}
use tdm.Base.Int.{ℤ, pos}
use tdm.Config.{◌>>=◌}
use tdm.Deal.{short_bytes}
use tdm.Deal.Answer.{Info}
use tdm.Frames.{SendFrame, to_byte}
use tdm.Text.{atoi}
use tdm.Values.{strtok_r}

-- The `while` of `Set_Dada_IP`, on fuel: the bytes of `para->ip`. A fifth number would be written
-- behind the array. Each number takes a character at least.
unfoldable pub set_data_ip_loop : ℕ → List ℕ → List ℕ
set_data_ip_loop zero s = []
set_data_ip_loop (suc fuel) s = elim (strtok_r b'.' s) [
  | none ↦ []
  | some t ↦ to_byte (atoi t.0) ∷ set_data_ip_loop fuel t.1
]

-- `Set_Dada_IP`; `none` when the text is written past `simip[20]`, or fills it without a zero byte.
unfoldable pub set_data_ip : List ℕ → Option (List ℕ)
set_data_ip ip = if ltb (length ip) 20 then some (set_data_ip_loop (length ip) ip) else none

-- `Unused[0]`.
abbrev pub flags_of : Info → ℕ
flags_of d = bit_and 0x1F (bit_or (bit_or (bit_or d.is_apn d.is_net) d.speed_type) d.if_vpn)

-- The 9 bytes of `IMSI`.
abbrev pub imsi_bytes : Info → List ℕ
imsi_bytes d = take 9 (d.imsi ++ replicate 9 0)

-- The `TD_Result_t`, 36 bytes; `threshold` is of `Data_Spm`.
abbrev pub result_bytes : Info → ℕ → List ℕ → List ℕ
result_bytes d threshold ip =
    d.need_file
    ∷ 0
    ∷ 0
    ∷ d.active_flag
    ∷ (if d.order_type == 2 then 0 else d.last_start)
    ∷ flags_of d
    ∷ d.if_roam
    ∷ (imsi_bytes d
        ++ (short_bytes threshold
            ++ (0 ∷ 0 ∷ short_bytes d.minite_remain
                ++ (0 ∷ 0 ∷ short_bytes d.port
                    ++ (d.sim_bank_id
                        ∷ d.channel_id
                        ∷ get_or ip 0 0
                        ∷ get_or ip 1 0
                        ∷ get_or ip 2 0
                        ∷ get_or ip 3 0
                        ∷ 6
                        ∷ 0
                        ∷ 0
                        ∷ 0
                        ∷ [])))))

-- The branch of `AccessAuth_Result_Pack`: the frame and the value returned.
abbrev pub success_frame : Info → ℕ → List ℕ → SendFrame × ℕ
success_frame d threshold ip = (
  record {
    cmd_tag = 0x91;
    frame_size_l = 36;
    frame_size_h = 0;
    result = 0x31;
    frame_data = result_bytes d threshold ip;
  },
  40,
)

unfoldable pub pack_success : Info → ℕ → Option (SendFrame × ℕ)
pack_success d threshold = do ip ← set_data_ip d.ip; some (success_frame d threshold ip)
