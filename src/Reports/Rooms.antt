-- ===== src/Reports/Rooms.antt =====
-- Each text that is printed fits the array that it is printed to.
use Prim.Native.String.{}
use tdm.Base.{
  ℕ, zero, suc, ◌+◌, ◌-◌, ◌/◌, ◌%◌, ◌≤◌, ◌<◌, Bool, true, false, List, [], ◌∷◌, ◌==◌, take, drop,
  length, length-append, length-take, if◌then◌else◌, ◌&&◌, Bool-cases, inl, inr, arith,
}
use tdm.Base.Int.{ℤ, pos, negsuc}
use tdm.Text.{digits, format}
use tdm.Receive.{number_at}
use tdm.Reports.{
  Piece, say, str, int, long, codes, piece_text, printed, heart_pieces, heart_log_pack,
  confirm_pieces, local_confirm_pack, tt_text, tt_pieces, tt_log_pack_data, log_out_pieces,
  log_out_log_pack, same_text, zero_imsi, vpn_pieces, vpn_log, status_request, speed_request,
  set_deal_request, deal_request, plain_deal_pieces, typed_deal_pieces, home_mcc, Login,
  login_pieces, login_log_pack_data,
}
use tdm.Reports.Flow.{get_network_type, local_pieces, local_log_pack}
use tdm.Hex.{}
use tdm.Hex.RoundTrip.{length-hex_string}

-- At most so many digits.
length-digits :
    (fuel width n : ℕ) (rest : List ℕ) → length (digits fuel width n rest) ≤ fuel + length rest
unfolding digits
length-digits zero width n rest = omega arith
length-digits (suc fuel) width n rest =
    let more = length-digits fuel (width - 1) (n / 10) ((b'0' + n % 10) ∷ rest) in
    elim (Bool-cases ((n == 0) && (width == 0))) [
      | inl e ↦ rw e (omega arith)
      | inr e ↦ rw e (omega arith)
    ]

length-format : (n : ℤ) → length (format 1 n) ≤ 11
unfolding format
length-format (pos n) = let m = length-digits 10 1 n [] in omega arith
length-format (negsuc n) = let m = length-digits 10 0 (suc n) [] in omega arith

-- The room for a part of a format.
abbrev pub room : Piece → ℕ
room (say s) = length (codes s)
room (str t) = length t
room (int n) = 11
room (long n) = 20

length-piece_text : (p : Piece) → length (piece_text p) ≤ room p
length-piece_text (say s) = omega arith
length-piece_text (str t) = omega arith
length-piece_text (int n) = length-format n
length-piece_text (long n) = let m = length-digits 20 1 n [] in omega arith

abbrev pub rooms : List Piece → ℕ
rooms [] = 0
rooms (p ∷ ps) = room p + rooms ps

length-printed : (ps : List Piece) → length (printed ps) ≤ rooms ps
unfolding printed
length-printed [] = omega arith
length-printed (p ∷ ps) =
    let first = length-piece_text p in
    let rest = length-printed ps in
    let split = length-append (piece_text p) (printed ps) in omega arith

fits : (ps : List Piece) (k : ℕ) → rooms ps < k → length (printed ps) < k
fits ps k h = let m = length-printed ps in omega arith

heart_fits :
    (sn imsi hb : List ℕ) (time : ℕ)
    → length sn < 16
    → length imsi ≤ 18
    → length (heart_log_pack sn imsi hb time) < 1004
unfolding heart_log_pack
heart_fits sn imsi hb time s i = fits (heart_pieces sn imsi hb time) 1004 (omega arith)

confirm_fits :
    (sn imsi iccid : List ℕ) (version apk : ℤ) (time : ℕ)
    → length sn < 16
    → length imsi ≤ 18
    → length iccid ≤ 20
    → length (local_confirm_pack sn imsi version apk iccid time) < 1004
unfolding local_confirm_pack
confirm_fits sn imsi iccid version apk time s i c =
    fits (confirm_pieces sn imsi version apk iccid time) 1004 (omega arith)

tt_text_le : (buff : List ℕ) (len : ℤ) → length buff ≤ 79 → length (tt_text buff len) ≤ 158
tt_text_le buff (pos n) h =
    let m = length-hex_string (take n buff) in let k = length-take n buff in omega arith
tt_text_le buff (negsuc n) h = omega arith

tt_fits :
    (sn imsi buff : List ℕ) (cnt : ℕ) (len : ℤ) (time : ℕ)
    → length sn < 16
    → length buff ≤ 79
    → length (tt_log_pack_data sn cnt imsi buff len time) < 1004
unfolding tt_log_pack_data
tt_fits sn imsi buff cnt len time s b =
    let t = tt_text_le buff len b in
    let k = length-take 18 imsi in fits (tt_pieces sn cnt imsi buff len time) 1004 (omega arith)

if_le :
    (b : Bool) (x y : List ℕ) (k : ℕ)
    → length x ≤ k
    → length y ≤ k
    → length (if b then x else y) ≤ k
if_le true x y k h g = h
if_le false x y k h g = g

log_out_fits :
    (null_text sn imsi : List ℕ) (time : ℕ)
    → length null_text ≤ 18
    → length sn < 16
    → length imsi ≤ 18
    → length (log_out_log_pack null_text sn imsi time) < 1004
unfolding log_out_log_pack
log_out_fits null_text sn imsi time n s i =
    let m = if_le (same_text imsi zero_imsi) null_text imsi 18 n i in
    fits (log_out_pieces null_text sn imsi time) 1004 (omega arith)

network_le : (n : ℕ) → length (get_network_type n).0 ≤ 6
unfolding get_network_type
network_le n = ground arith

local_fits :
    (sn imsi bytes : List ℕ) (version time : ℕ)
    → length sn < 16
    → length imsi ≤ 18
    → length (local_log_pack sn imsi version bytes time) < 1004
unfolding local_log_pack
local_fits sn imsi bytes version time s i =
    let n = network_le (number_at 4 (drop 72 bytes)) in
    fits (local_pieces sn imsi version bytes time) 1004 (omega arith)

vpn_fits :
    (sn vpn : List ℕ) (result num type : ℤ) (time : ℕ)
    → length sn < 16
    → length vpn ≤ 50
    → length (vpn_log sn vpn result num type time) < 256
unfolding vpn_log
vpn_fits sn vpn result num type time s v =
    fits (vpn_pieces sn vpn result num type time) 256 (omega arith)

status_fits : (imsi : List ℕ) → length imsi ≤ 18 → length (status_request imsi) < 256
unfolding status_request
status_fits imsi i = fits _ 256 (omega arith)

speed_fits : (sn : List ℕ) (mcc : ℕ) → length sn < 16 → length (speed_request sn mcc) < 128
unfolding speed_request
speed_fits sn mcc s = fits _ 128 (omega arith)

set_deal_fits : (sn : List ℕ) (mcc : ℤ) → length sn < 16 → length (set_deal_request sn mcc) < 128
unfolding set_deal_request
set_deal_fits sn mcc s = fits _ 128 (omega arith)

deal_fits :
    (type : ℕ) (sn : List ℕ) (mcc : ℤ) (time : ℕ)
    → length sn < 16
    → length (deal_request type sn mcc time) < 356
unfolding deal_request
deal_fits type sn mcc time s = elim (Bool-cases (type == 0)) [
  | inl e ↦ rw e (fits (plain_deal_pieces sn (home_mcc mcc) time) 356 (omega arith))
  | inr e ↦ rw e (fits (typed_deal_pieces sn (home_mcc mcc) time) 356 (omega arith))
]

login_fits :
    (sn : List ℕ) (l : Login) (time : ℕ)
    → length sn < 16
    → length (login_log_pack_data sn l time) < 512
unfolding login_log_pack_data
login_fits sn l time s = fits (login_pieces sn l time) 512 (omega arith)

-- The texts with their zero byte, in the arrays that they are printed to.
abbrev pub AllFit :
    (sn imsi iccid vpn null_text buff bytes : List ℕ) (x y z : ℤ) (n time : ℕ) (l : Login) → Type 0
AllFit sn imsi iccid vpn null_text buff bytes x y z n time l =
    ((length (heart_log_pack sn imsi bytes time) < 1004)
      × ((length (local_log_pack sn imsi n bytes time) < 1004)
          × ((length (local_confirm_pack sn imsi x y iccid time) < 1004)
              × ((length (tt_log_pack_data sn n imsi buff x time) < 1004)
                  × (length (log_out_log_pack null_text sn imsi time) < 1004)))))
    × ((length (vpn_log sn vpn x y z time) < 256)
        × ((length (status_request imsi) < 256)
            × ((length (speed_request sn n) < 128)
                × ((length (set_deal_request sn x) < 128)
                    × ((length (deal_request n sn x time) < 356)
                        × (length (login_log_pack_data sn l time) < 512))))))

-- Whatever the numbers and the time, each text with its zero byte fits the array that it is printed
-- to, when the texts in it fit theirs and a reply of the card has at most 79 bytes: the log lines of
-- `Log_Data`, 1004 bytes; the line of `VPN_Log`, 256; and the requests to the pool of SIM cards, 256,
-- 128, 128, 356 and 512 bytes.
pub reports-fit :
    (sn imsi iccid vpn null_text buff bytes : List ℕ) (x y z : ℤ) (n time : ℕ) (l : Login)
    → length sn < 16
    → length imsi ≤ 18
    → length iccid ≤ 20
    → length vpn ≤ 50
    → length null_text ≤ 18
    → length buff ≤ 79
    → AllFit sn imsi iccid vpn null_text buff bytes x y z n time l
reports-fit sn imsi iccid vpn null_text buff bytes x y z n time l s i c v t b = (
  (
    heart_fits sn imsi bytes time s i,
    (
      local_fits sn imsi bytes n time s i,
      (
        confirm_fits sn imsi iccid x y time s i c,
        (tt_fits sn imsi buff n x time s b, log_out_fits null_text sn imsi time t s i),
      ),
    ),
  ),
  (
    vpn_fits sn vpn x y z time s v,
    (
      status_fits imsi i,
      (
        speed_fits sn n s,
        (set_deal_fits sn x s, (deal_fits n sn x time s, login_fits sn l time s)),
      ),
    ),
  ),
)
