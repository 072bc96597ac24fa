-- ===== src/Handlers/Confirm.antt =====
-- What the server does when a device reports which SIM card it has taken: `Coding_With_CFMD` and
-- `Coding_With_CFMD_Soeckt` of src/TDM.c, with `Get_Config_By_MCC` and `Get_SpeedStr_From_Socket` of
-- src/common.c.
pub mod Confirmed
use tdm.Base.{
  ℕ, suc, ◌+◌, ◌-◌, ◌*◌, ◌/◌, ◌%◌, ◌^◌, ◌<◌, ◌≤◌, ◌≡◌, ◌≢◌, ◌⊎◌, inl, inr, refl, ap, ◌∙◌, subst,
  sym, Bool, true, false, not, ◌&&◌, ◌||◌, Option, none, some, List, [], ◌∷◌, ◌++◌, ◌==◌, ltb, leb,
  take, drop, length, replicate, get_or, if◌then◌else◌, arith, Bool-cases, length-append,
  length-replicate,
}
use tdm.Base.Int.{ℤ, pos, negsuc, eqb_ℤ}
use tdm.Config.{◌>>=◌}
use tdm.Deal.{Deal, deal_proc, short_bytes, get_deal_from_sim_pool_socket}
use tdm.Deal.Answer.{get_key_value_str}
use tdm.Deal.Keys.{speed_str_key}
use tdm.Frames.{bytes_of, blank_frame, tt_result_pack}
use tdm.Frames.Packing.{tt_result_pack-bytes}
use tdm.Hex.{hex_string}
use tdm.Receive.{copy, number_at}
use tdm.Session.{text_in}
use tdm.Text.{atoi}

-- The fields of `Data_Spm` that the two functions use; `threshold` is behind `minite_Remain`, and
-- `if_test` is the four bytes of `ifTest`.
pub record Confirming : Type 0 where
  pub deal : Deal
  pub threshold : ℕ
  pub speed_str : List ℕ
  pub if_test : List ℕ
  pub sn : List ℕ
  pub s_imsi : List ℕ
  pub version : ℕ
  pub version_apk : ℕ
  pub mcc : ℕ
  pub state : ℕ
  pub locale_flag : ℕ

-- `Tell_Server_Bill`, from its 68 bytes.
pub record Bill : Type 0 where
  pub bill_sn : List ℕ
  pub action : ℕ
  pub bill_imsi : List ℕ
  pub bill_version : List ℕ
  pub bill_mcc : ℕ
  pub bill_apk : ℕ

abbrev pub bill_size : ℕ
bill_size = 68

-- The first bytes of `Buff` in a structure of zeros; `none` when they do not fit it.
unfoldable pub read_bill : ℕ → List ℕ → Option Bill
read_bill len buff =
    let bytes = copy (take len buff) (replicate bill_size 0) in
    if leb len bill_size
    then some (record {
      bill_sn = take 15 bytes;
      action = get_or bytes 16 0;
      bill_imsi = take 9 (drop 17 bytes);
      bill_version = text_in (take 10 (drop 26 bytes));
      bill_mcc = number_at 4 (drop 36 bytes);
      bill_apk = number_at 4 (drop 44 bytes);
    })
    else none

-- The end of `Get_SpeedStr_From_Socket`: `Dst` has 256 bytes.
abbrev pub speed_read : List ℕ → ℤ × List ℕ → Option (List ℕ)
speed_read old (cnt, dst) =
    if not (eqb_ℤ cnt (pos 0))
    then some old
    else if ltb (length dst) 256
    then (get_key_value_str dst speed_str_key old 4 >>= λ r. some r.0)
    else none

-- `Get_SpeedStr_From_Socket`: the text in `speedStr`, for the answer of the pool.
unfoldable pub get_speed_str_from_socket : Option (List ℕ) → List ℕ → Option (List ℕ)
get_speed_str_from_socket answer old = do r ← get_deal_from_sim_pool_socket answer; speed_read old r

abbrev pub asked : List ℕ → List ℕ × List ℕ
asked text = (text, replicate 40 0)

-- `Get_Config_By_MCC`: `speedStr` afterwards, and the 40 bytes of the configuration. A text that has
-- to be asked for is not copied.
unfoldable pub get_config_by_mcc : Option (List ℕ) → List ℕ → Option (List ℕ × List ℕ)
get_config_by_mcc answer speed =
    if ltb 5 (length (text_in speed))
    then some (speed, copy (take 40 speed) (replicate 40 0))
    else (get_speed_str_from_socket answer speed >>= λ text. some (asked text))

-- `para->minite_Remain` and what is behind it.
abbrev pub minutes_of : Confirming → List ℕ
minutes_of c = short_bytes c.deal.minite_remain ++ short_bytes c.threshold

-- `Con_Data`, its first 40 bytes only for a new device, and `ifTest`.
abbrev pub with_config : ℕ → Confirming → List ℕ → List ℕ
with_config version c config =
    minutes_of c
    ++ (config
        ++ ((if leb 1601080936 version then [] else replicate 200 0)
            ++ (if leb 1605041005 version then take 4 c.if_test else [])))

-- `write` of what `TT_Result_Pack1` has packed.
abbrev pub tag_cfmd : ℕ
tag_cfmd = 0x85

unfoldable pub confirm_frame : List ℕ → List ℕ
confirm_frame content =
    bytes_of (tt_result_pack (some content) blank_frame (length content) (pos tag_cfmd) (pos 0)).0

-- `Vsim_Action_State` 0 and 2.
abbrev pub takes_config : ℕ → ℕ → Bool
takes_config state mcc = ((state == 0) || (state == 2)) && not (mcc == 0)

abbrev pub configured : ℕ → Confirming → List ℕ × List ℕ → Confirming × List ℕ
configured version c (speed, config) =
    (record c { speed_str = speed }, confirm_frame (with_config version c config))

-- Behind `Deal_Proc`.
unfoldable pub confirm_answer :
    ℕ → ℕ → ℕ → Option (List ℕ) → Confirming → Option (Confirming × List ℕ)
confirm_answer version mcc state answer c =
    if (c.deal.minite_remain == 0) || not (takes_config state mcc)
    then some (c, confirm_frame (minutes_of c))
    else (get_config_by_mcc answer c.speed_str >>= λ r. some (configured version c r))

abbrev pub dealt : ℕ → Option (List ℕ) → Deal → Option Deal
dealt mcc answer d = if mcc == 0 then some d else deal_proc 1 answer d

-- `Coding_With_CFMD_Soeckt`, with the two answers of the pool: the session, and what is written.
unfoldable pub coding_with_cfmd_socket :
    ℕ → ℕ → ℕ → Option (List ℕ) × Option (List ℕ) → Confirming → Option (Confirming × List ℕ)
coding_with_cfmd_socket version mcc state (of_deal, of_speed) c = do
  d ← dealt mcc of_deal c.deal
  confirm_answer version mcc state of_speed (record c { deal = d })

-- `atol` as an `unsigned int`.
abbrev pub unsigned : ℤ → ℕ
unsigned (pos n) = n % 2 ^ 32
unsigned (negsuc n) = 2 ^ 32 - 1 - n % 2 ^ 32

abbrev pub identified : Bill → Confirming → Confirming
identified b c = record c { sn = copy b.bill_sn c.sn; version = unsigned (atoi b.bill_version) }

-- The end of `Coding_With_CFMD`; the connection to the card is closed, and the report is logged.
abbrev pub confirmed : Bill → Confirming → Confirming
confirmed b c = record c {
  s_imsi = hex_string b.bill_imsi;
  version_apk = b.bill_apk;
  mcc = if b.bill_mcc == 0 then c.mcc else b.bill_mcc % 65536;
  state = b.action;
  locale_flag = if (b.action == 0) || (b.action == 2) then 1 else c.locale_flag;
}

abbrev pub confirmed_with : Bill → Confirming × List ℕ → Confirming × List ℕ
confirmed_with b (c, frame) = (confirmed b c, frame)

-- `Coding_With_CFMD` on the request in `Buff`.
unfoldable pub coding_with_cfmd :
    ℕ → List ℕ → Option (List ℕ) × Option (List ℕ) → Confirming → Option (Confirming × List ℕ)
coding_with_cfmd len buff answers c = do
  b ← read_bill len buff
  r ← coding_with_cfmd_socket (identified b c).version b.bill_mcc b.action answers (identified b c)
  some (confirmed_with b r)
