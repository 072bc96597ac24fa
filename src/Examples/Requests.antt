-- ===== src/Examples/Requests.antt =====
-- Texts of requests and replies, sessions, and frames of a device.
use tdm.Base.{
  ℕ, inl, inr, ◌≡◌, refl, ap, subst, zero, suc, true, none, some, List, [], ◌∷◌, ◌++◌, arith,
}
use tdm.Base.Int.{pos}
use tdm.Config.{read_string}
use tdm.Config.Search.{}
use tdm.Trim.InPlace.{trim_left, trim_right}
use tdm.Deal.{Deal, last_start_key, mins_remaining_key, deal_proc}
use tdm.Deal.Minutes.{IsMember, minutes, deal_proc-minutes}
use tdm.Receive.{Para, frame_in, coding_with_recv_data}
use tdm.Receive.Answers.{IsAnswered, coding_with_recv_data-IsAnswered}
use tdm.Refusal.{}
use tdm.Config.Found.{block_text, section_text, item_text, read_string-found}
use tdm.Session.{Session, place_of, is_valid_sn, get_node_by_sn, set_device_sn_vpn}
use tdm.Session.Table.{IsKeyed, IsGot, get_node_by_sn-IsGot}
use tdm.Session.Vpn.{IsStored, set_device_sn_vpn-IsStored}
use tdm.Text.{atoi, read_digits}
use tdm.Values.{strstr, found, get_key_value, find_str_by_key}
use tdm.Values.Bounds.{IsSafe, get_key_value-IsSafe}
use tdm.Values.Readers.{object, get_key_value-object}
use tdm.Values.Reply.{reply}

-- `{"sn":"17"}`
abbrev brace : List ℕ
brace = b'{' ∷ []

abbrev sn_key : List ℕ
sn_key = b's' ∷ b'n' ∷ []

abbrev seventeen : List ℕ
seventeen = b'1' ∷ b'7' ∷ []

abbrev end_brace : List ℕ
end_brace = b'}' ∷ []

get_key_value-object_example :
    (get_key_value (some (object brace sn_key seventeen end_brace)) sn_key 15 ≡ found seventeen)
    × (find_str_by_key (some (object brace sn_key seventeen end_brace)) sn_key 15 ≡ found seventeen)
unfolding strstr
get_key_value-object_example =
    get_key_value-object brace sn_key b'1' (b'7' ∷ []) end_brace 15 (omega arith) refl refl
      (λ e. absurd cc) refl refl (omega arith)

get_key_value-IsSafe_example :
    IsSafe
      (object brace sn_key seventeen end_brace)
      1
      (get_key_value (some (object brace sn_key seventeen end_brace)) sn_key 1)
    × IsSafe
        (object brace sn_key seventeen end_brace)
        1
        (find_str_by_key (some (object brace sn_key seventeen end_brace)) sn_key 1)
get_key_value-IsSafe_example =
    get_key_value-IsSafe (object brace sn_key seventeen end_brace) sn_key 1 (omega arith)

abbrev five : List ℕ
five = b'5' ∷ []

abbrev nought : List ℕ
nought = b'0' ∷ []

-- `{"lastStart":"5","minsRemaining":"17"}` without the first brace.
abbrev comma : List ℕ
comma = b',' ∷ []

abbrev members : List ℕ
members = object [] last_start_key five (comma ++ object [] mins_remaining_key seventeen end_brace)

-- The serial numbers 172150210000001 and 172150210000002.
abbrev sn_of : ℕ → List ℕ
sn_of d =
    b'1' ∷ b'7' ∷ b'2' ∷ b'1' ∷ b'5' ∷ b'0' ∷ b'2' ∷ b'1' ∷ b'0' ∷ b'0' ∷ b'0' ∷ b'0' ∷ b'0' ∷ b'0'
    ∷ d ∷ []

abbrev first_session : Session
first_session = record {
  sn = sn_of b'1';
  socket_spm = pos 5;
  fd1 = pos 9;
  vpnc = sn_of b'7' ++ 0 ∷ [];
  vpn_flag = 1;
}

abbrev sessions : List Session
sessions = first_session ∷ []

sessions-IsKeyed : IsKeyed sessions
unfolding place_of
sessions-IsKeyed zero s e =
    let is : first_session ≡ s = ap (λ o. elim o [ none ↦ first_session | some x ↦ x ]) e in
    subst (λ x. place_of sessions x.sn ≡ some 0) is refl
sessions-IsKeyed (suc i) s e = absurd cc

first_valid : is_valid_sn (sn_of b'2') ≡ true
unfolding is_valid_sn atoi read_digits
first_valid = refl

get_node_by_sn-IsGot_example :
    (i : ℕ) × IsGot sessions (sn_of b'2') (get_node_by_sn sessions (sn_of b'2') true) i
get_node_by_sn-IsGot_example =
    get_node_by_sn-IsGot sessions (sn_of b'2') sessions-IsKeyed first_valid

-- A VPN name of 11 characters.
abbrev vpn_name : List ℕ
vpn_name = b'1' ∷ b'0' ∷ b'.' ∷ b'0' ∷ b'.' ∷ b'0' ∷ b'.' ∷ b'1' ∷ b'|' ∷ b'a' ∷ b'b' ∷ []

set_device_sn_vpn-IsStored_example :
    IsStored sessions
      (sn_of b'1')
      vpn_name
      (set_device_sn_vpn sessions (sn_of b'1') vpn_name 1 true)
set_device_sn_vpn-IsStored_example =
    set_device_sn_vpn-IsStored sessions (sn_of b'1') vpn_name sessions-IsKeyed refl (omega arith)
      (omega arith)

abbrev blank_deal : Deal
blank_deal = record {
  minite_remain = 0;
  last_start = 0;
  allocation = record { result = pos 0; factory_flag = pos 0; server_info = [] };
}

last-IsMember : IsMember members last_start_key five
unfolding strstr
last-IsMember = (
  [],
  comma ++ object [] mins_remaining_key seventeen end_brace,
  ((refl, refl), (refl, (omega arith, omega arith))),
)

-- The text before the key of the second member.
abbrev first_member : List ℕ
first_member = b'"' ∷ (last_start_key ++ b'"' ∷ b':' ∷ b'"' ∷ b'5' ∷ b'"' ∷ b',' ∷ [])

mins-IsMember : IsMember members mins_remaining_key seventeen
unfolding strstr
mins-IsMember = (first_member, end_brace, ((refl, refl), (refl, (omega arith, omega arith))))

deal_proc-minutes_example :
    (e : Deal) × ((deal_proc 0
          (some (reply seventeen five five nought (b'{' ∷ (members ++ b']' ∷ []))))
          blank_deal
        ≡ some e)
      × (e.minite_remain ≡ minutes 0 (atoi nought) (atoi five) (atoi seventeen)))
deal_proc-minutes_example =
    deal_proc-minutes seventeen five five nought b'{' members b']' five seventeen 0 blank_deal
      (omega arith, (refl, refl)) (omega arith, (refl, refl)) (omega arith, (refl, refl))
      (omega arith, (refl, refl)) refl (omega arith) last-IsMember mins-IsMember

abbrev blank_para : Para
blank_para = record { sn = 0 ∷ []; imsi = []; num = 0 }

-- A log-out of the first device.
abbrev log_out : List ℕ
log_out = 25 ∷ sn_of b'1'

coding_with_recv_data-IsAnswered_example :
    IsAnswered 0x9C
      (frame_in [] (0x9C ∷ log_out))
      blank_para
      (coding_with_recv_data [] (0x9C ∷ log_out) blank_para)
unfolding strstr
coding_with_recv_data-IsAnswered_example =
    coding_with_recv_data-IsAnswered [] 0x9C log_out blank_para (omega arith) refl refl

-- `{$a}`, `[b]`, `c= 17 #5`, each with its newline.
abbrev other_line : List ℕ
other_line = b'd' ∷ b'=' ∷ b'0' ∷ 10 ∷ []

abbrev letter : ℕ → List ℕ
letter c = c ∷ []

-- `{$a}`, `[b]` and `c = 17 #5`, with a line `d=0` around each.
read_string-found_example :
    read_string
      ((other_line ∷ [])
        ++ block_text [] (letter b'a') (letter 10)
          ∷ ((other_line ∷ [])
              ++ section_text (letter 9) (letter b'b') (letter 10)
                ∷ ((other_line ∷ [])
                    ++ item_text []
                        (letter b'c')
                        (letter 32)
                        ((32 ∷ b'1' ∷ b'7' ∷ 32 ∷ []) ++ b'#' ∷ (b'5' ∷ 10 ∷ []))
                      ∷ (other_line ∷ []))))
      (letter b'a')
      (letter b'b')
      (letter b'c')
    ≡ some (trim_right (trim_left (32 ∷ b'1' ∷ b'7' ∷ 32 ∷ [])))
read_string-found_example =
    read_string-found (letter b'a') (letter b'b') b'c' [] (other_line ∷ []) (other_line ∷ [])
      (other_line ∷ []) (other_line ∷ []) [] (letter 9) [] (letter 32) (letter 10) (letter 10)
      (32 ∷ b'1' ∷ b'7' ∷ 32 ∷ []) (b'5' ∷ 10 ∷ []) b'#' (omega arith, omega arith)
      (
        (
          [],
          (b'd', (b'=' ∷ b'0' ∷ 10 ∷ [], ((tt, refl), ((omega arith, omega arith), omega arith)))),
        ),
        tt,
      )
      (
        (
          [],
          (
            b'd',
            (
              b'=' ∷ b'0' ∷ 10 ∷ [],
              ((tt, refl), ((omega arith, omega arith), (omega arith, omega arith))),
            ),
          ),
        ),
        tt,
      )
      (
        (
          [],
          (
            b'd',
            (
              b'=' ∷ b'0' ∷ 10 ∷ [],
              (
                (tt, refl),
                (
                  (omega arith, omega arith),
                  ((omega arith, omega arith), (omega arith, omega arith)),
                ),
              ),
            ),
          ),
        ),
        tt,
      )
      (tt, ((inr refl, tt), (tt, (inl refl, tt)))) (inl refl) (ground arith)
