-- ===== src/Deal.antt =====
-- How the pool of SIM cards is asked for a device's subscription, in src/common.c, and the frame the
-- device gets for it, `Coding_With_Deal` and `Coding_With_CFMD_Soeckt` of src/TDM.c. The answer of the
-- pool is an argument: `none` when `Send_Sim_Data` returns 0, and else the text in `recvbuff`, which is
-- empty when the pool was not reached.
pub mod Keys
pub mod Minutes
pub mod Answer
pub mod Remote
use tdm.Base.{
  ℕ, zero, suc, ◌+◌, ◌-◌, ◌*◌, ◌/◌, ◌%◌, Bool, true, false, not, ◌&&◌, ◌||◌, Option, none, some,
  List, [], ◌∷◌, ◌++◌, ◌==◌, ltb, leb, length, take, replicate, if◌then◌else◌,
}
use tdm.Base.Int.{ℤ, pos, negsuc, eqb_ℤ}
use tdm.Frames.{SendFrame, to_byte, blank_frame, bytes_of, tt_result_pack}
use tdm.Refusal.{Allocation, sim_allocate_err}
use tdm.Text.{atoi}
use tdm.Values.{Reading, found, fails, overrun, get_key_value, JsonDate, data_coing}

-- `memset(&Data, 0, sizeof(Data))`.
abbrev pub zero_date : JsonDate
zero_date = record {
  head = pos 0;
  type = pos 0;
  para_num = pos 0;
  result = pos 0;
  len = 0;
  text = [];
}

-- `Data.Result` and the text copied to `Dst`; a text that fills `Data` has no end.
abbrev pub answer_of : Option (JsonDate × ℤ) → Option (ℤ × List ℕ)
answer_of none = none
answer_of (some r) =
    if ltb (length r.0.text) 512
    then some (r.0.result, if eqb_ℤ r.0.result (pos 0) then r.0.text else [])
    else none

-- `Get_Deal_From_SimPool_socket`; `none` when it writes past an array.
unfoldable pub get_deal_from_sim_pool_socket : Option (List ℕ) → Option (ℤ × List ℕ)
get_deal_from_sim_pool_socket none = some (pos 0, [])
get_deal_from_sim_pool_socket (some reply) = answer_of (data_coing reply zero_date)

-- `LowPower`, `OutOfService`, `NoSimUsable`.
abbrev pub low_power : ℕ
low_power = 7

abbrev pub out_of_service : ℕ
out_of_service = 3

abbrev pub no_sim_usable : ℕ
no_sim_usable = 4

-- The `switch` on `cnt`.
abbrev pub error_of : ℤ → ℕ
error_of cnt =
    if eqb_ℤ cnt (pos 1)
    then low_power
    else if eqb_ℤ cnt (pos 2)
    then out_of_service
    else no_sim_usable

-- The allocation afterwards, the value returned, and `Dst`.
abbrev pub deal_of : Allocation → Option (ℤ × List ℕ) → Option (Allocation × (ℤ × List ℕ))
deal_of a none = none
deal_of a (some r) =
    if eqb_ℤ r.0 (pos 0)
    then some (a, (pos 0, r.1))
    else some ((sim_allocate_err (error_of r.0) a).0, ((sim_allocate_err (error_of r.0) a).1, r.1))

-- `Get_Deal_From_SimPool`.
abbrev pub get_deal_from_sim_pool :
    Allocation → Option (List ℕ) → Option (Allocation × (ℤ × List ℕ))
get_deal_from_sim_pool a answer = deal_of a (get_deal_from_sim_pool_socket answer)

-- `char Key[64]`: a longer value is written past its end, one that fills it has no end.
abbrev pub key_size : ℕ
key_size = 64

abbrev pub int_of : Reading → Option ℤ
int_of (found v) = if ltb (length v) key_size then some (atoi v) else none
int_of (fails n) = some (pos 0)
int_of overrun = none

-- `Get_Key_Value_Int`.
unfoldable pub get_key_value_int : List ℕ → List ℕ → Option ℤ
get_key_value_int src key = int_of (get_key_value (some src) key key_size)

-- An `int` stored in an `unsigned short`.
abbrev pub to_short : ℤ → ℕ
to_short (pos n) = n % 65536
to_short (negsuc n) = 65535 - n % 65536

-- The fields of `Data_Spm` that `Deal_Proc` writes.
pub record Deal : Type 0 where
  pub minite_remain : ℕ
  pub last_start : ℕ
  pub allocation : Allocation

-- `"lastStart"` and `"minsRemaining"` without the quotes.
abbrev pub last_start_key : List ℕ
last_start_key = b'l' ∷ b'a' ∷ b's' ∷ b't' ∷ b'S' ∷ b't' ∷ b'a' ∷ b'r' ∷ b't' ∷ []

abbrev pub mins_remaining_key : List ℕ
mins_remaining_key =
    b'm' ∷ b'i' ∷ b'n' ∷ b's' ∷ b'R' ∷ b'e' ∷ b'm' ∷ b'a' ∷ b'i' ∷ b'n' ∷ b'i' ∷ b'n' ∷ b'g' ∷ []

-- The branch for `cnt` 0, on the two numbers read; `type` is the argument `Type`.
abbrev pub with_numbers_read : ℕ → Deal → Option ℤ → Option ℤ → Option Deal
with_numbers_read type d none m = none
with_numbers_read type d (some l) none = none
with_numbers_read type d (some l) (some m) = some (record d {
  last_start = to_byte l;
  minite_remain = if (type == 0) && (to_byte l == 1) then 1440 else to_short m;
})

abbrev pub deal_ends : ℕ → Deal → Option (Allocation × (ℤ × List ℕ)) → Option Deal
deal_ends type d none = none
deal_ends type d (some r) =
    let e = record d { allocation = r.0 } in
    if eqb_ℤ r.1.0 (pos 0)
    then with_numbers_read type e (get_key_value_int r.1.1 last_start_key)
        (get_key_value_int r.1.1 mins_remaining_key)
    else if not (eqb_ℤ r.1.0 (pos out_of_service))
    then some (record e { minite_remain = if type == 0 then 1 else 65535 })
    else some e

-- `Deal_Proc`; `none` when it writes past an array.
unfoldable pub deal_proc : ℕ → Option (List ℕ) → Deal → Option Deal
deal_proc type answer d =
    deal_ends type (record d { minite_remain = 0 }) (get_deal_from_sim_pool d.allocation answer)

-- The bytes of an `unsigned short` in memory.
abbrev pub short_bytes : ℕ → List ℕ
short_bytes n = n % 256 ∷ n / 256 % 256 ∷ []

-- `Coding_With_Deal`: what is written to the device. Behind `minite_Remain` in `Data_Spm` is
-- `threshold`.
unfoldable pub coding_with_deal : Deal → ℕ → List ℕ
coding_with_deal d threshold = bytes_of record {
  cmd_tag = 0xB1;
  frame_size_l = 5;
  frame_size_h = 0;
  result = 0;
  frame_data = short_bytes d.minite_remain ++ (short_bytes threshold ++ 1 ∷ []);
}
