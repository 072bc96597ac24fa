-- ===== src/Reports/Flow.antt =====
-- The report of a device's traffic, `Local_Log_Pack` and `getNetworkType` of src/common.c.
use tdm.Base.{ℕ, ◌*◌, ◌^◌, ◌%◌, List, [], ◌∷◌, ◌++◌, ◌==◌, leb, drop, get_or, if◌then◌else◌}
use tdm.Base.Int.{pos}
use tdm.Receive.{number_at}
use tdm.Reports.{Piece, say, str, int, long, codes, printed, as_int}

-- `getNetworkType`: the name, and the generation it returns.
unfoldable pub get_network_type : ℕ → List ℕ × ℕ
get_network_type n =
    if n == 1
    then (codes "GPRS", 2)
    else if n == 2
    then (codes "EDGE", 2)
    else if n == 3
    then (codes "UMTS", 3)
    else if n == 4
    then (codes "CMDA", 2)
    else if n == 5
    then (codes "EVDO_0", 3)
    else if n == 6
    then (codes "EVDO_A", 3)
    else if n == 7
    then (codes "1xRTT", 2)
    else if n == 8
    then (codes "HSDPA", 3)
    else if n == 9
    then (codes "HSUPA", 3)
    else if n == 10
    then (codes "HSPA", 3)
    else if n == 11
    then (codes "IDEN", 2)
    else if n == 12
    then (codes "EVDO_B", 3)
    else if n == 13
    then (codes "LTE", 4)
    else if n == 14
    then (codes "EHRPD", 3)
    else if n == 15
    then (codes "HSPAP", 3)
    else ([], 0)

-- The numbers of `Vsim_UpLoad_Flow`, by their place in memory.
abbrev pub word : ℕ → List ℕ → ℕ
word at_byte bytes = number_at 4 (drop at_byte bytes)

-- A newer device counts in units of 1024 bytes; the product is an `unsigned int`.
unfoldable pub flow_bytes : ℕ → ℕ → ℕ
flow_bytes version n = if leb 1601080936 version then n * 1024 % 2 ^ 32 else n

-- `remain_min`, 1440 in place of 0.
abbrev pub remain_min : List ℕ → ℕ
remain_min bytes = if word 64 bytes == 0 then 1440 else word 64 bytes

abbrev pub traffic_pieces : ℕ → List ℕ → List Piece
traffic_pieces version bytes =
    say "','UploadFlowCount':'"
    ∷ int (as_int (word 12 bytes))
    ∷ say "','wifiCount':'"
    ∷ int (pos (get_or bytes 28 0))
    ∷ say "','battery':'"
    ∷ int (pos (get_or bytes 29 0))
    ∷ say "','wifiState':'"
    ∷ int (pos (get_or bytes 11 0 * 2))
    ∷ say "','gSta':'"
    ∷ int (pos (get_or bytes 9 0))
    ∷ say "','gStrenth':'"
    ∷ int (pos (get_or bytes 10 0))
    ∷ say "','upFlowAll':'"
    ∷ long (flow_bytes version (word 16 bytes))
    ∷ say "','downFlowAll':'"
    ∷ long (flow_bytes version (word 20 bytes))
    ∷ say "','dayUsedFlow':'"
    ∷ long (flow_bytes version (word 24 bytes))
    ∷ []

abbrev pub roaming_pieces : List ℕ → List Piece
roaming_pieces bytes =
    say "','minsRemaining':'"
    ∷ int (as_int (remain_min bytes))
    ∷ say "','roamGStrenth':'"
    ∷ int (as_int (word 60 bytes))
    ∷ say "','roamUpFlowAll':'"
    ∷ int (as_int (word 48 bytes))
    ∷ say "','roamDownFlowAll':'"
    ∷ int (as_int (word 52 bytes))
    ∷ say "','roamDayUsedFlow':'"
    ∷ int (as_int (word 56 bytes))
    ∷ say "','FlowDistinction':'"
    ∷ int (as_int (word 68 bytes))
    ∷ []

abbrev pub local_pieces : List ℕ → List ℕ → ℕ → List ℕ → ℕ → List Piece
local_pieces sn imsi version bytes time =
    (say "45445445,2001,20|{'SN':'"
      ∷ str sn
      ∷ say "','location':'"
      ∷ int (as_int (word 32 bytes))
      ∷ say "."
      ∷ int (as_int (word 36 bytes))
      ∷ say "."
      ∷ int (as_int (word 40 bytes))
      ∷ say "."
      ∷ int (as_int (word 44 bytes))
      ∷ [])
    ++ (traffic_pieces version bytes
        ++ (roaming_pieces bytes
            ++ (say "','IMSI':'"
                ∷ str imsi
                ∷ say "','TTContext':'"
                ∷ str (get_network_type (word 72 bytes)).0
                ∷ say "','lastTime':'"
                ∷ long time
                ∷ say "'}&&"
                ∷ [])))

-- `Local_Log_Pack`.
unfoldable pub local_log_pack : List ℕ → List ℕ → ℕ → List ℕ → ℕ → List ℕ
local_log_pack sn imsi version bytes time = printed (local_pieces sn imsi version bytes time)
