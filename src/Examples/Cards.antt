-- ===== src/Examples/Cards.antt =====
-- Log lines, levels of messages, texts that are printed, and requests of a device to its SIM card.
use tdm.Base.{ℕ, ◌≡◌, refl, true, false, some, List, [], ◌∷◌, replicate, arith}
use tdm.Base.Int.{pos, negsuc}
use tdm.Log.{Logger, Message, sets, registers, logs, Call, log_calls, log_msg, is_dropped, nothing}
use tdm.Log.Filter.{all_sorted, in_force, log_calls-sorted}
use tdm.Logs.{Answer, is_open}
use tdm.Reports.{Login, codes, printed, speed_request}
use tdm.Reports.Rooms.{AllFit, reports-fit}
use tdm.Frames.{tt_result_pack, reduce}
use tdm.Sock.{ready, get_msg_from_sock, get_loop}
use tdm.Config.{◌>>=◌}
use tdm.Text.{format, digits}
use tdm.Spm.{Card, Calls, pick_up_data_spm, with_data_ip, connect_spm, tdm_to_spm, data_coding_spm}
use tdm.Spm.Replies.{texts_of}
use tdm.Spm.Requests.{NodeData, Around, tt_frame, coding_with_cmdtt}

-- The socket 7 is refused and a new one, 8, answers.
abbrev refused : Answer
refused = record { made = some 7; accepted = false; sends = negsuc 0; receives = negsuc 0 }

abbrev served : Answer
served = record { made = some 8; accepted = true; sends = pos 5; receives = pos 1 }

abbrev line_calls : List (Answer × Answer)
line_calls = (refused, served) ∷ (served, served) ∷ []

abbrev message_of : ℕ → Message
message_of level = record {
  msg_level = level;
  backspace = false;
  text = codes "x";
  time = codes "12";
}

-- A message of `MSG_MONITOR`, then one of `MSG_ERROR` with the level set to `MSG_ERROR`.
abbrev log_example : List Call
log_example =
    registers (pos 3) true true (message_of 0)
    ∷ logs (message_of 3)
    ∷ sets (pos 5)
    ∷ logs (message_of 3)
    ∷ logs (message_of 5)
    ∷ []

abbrev fresh_log : Logger
fresh_log = record { level = pos 3; normal = false; error = false }

log_calls-sorted_example :
    (log_calls log_example fresh_log ≡ all_sorted (in_force log_example fresh_log))
    × (log_msg fresh_log (record (message_of 3) { msg_level = 0 }) ≡ nothing)
log_calls-sorted_example = log_calls-sorted log_example fresh_log (message_of 3) refl (refl, tt)

-- A device with the card's server at a port, and the request number 9 of 7 bytes.
abbrev device_card : Card
device_card = record {
  socket_spm = negsuc 0;
  cmd_tag = 0x83;
  len = 7;
  buff = 9 ∷ 0 ∷ 0 ∷ 0 ∷ 0 ∷ 1 ∷ 0x55 ∷ replicate 249 0;
  imsi = 0x80 ∷ replicate 8 0x11;
  s_imsi = [];
  ip = 10 ∷ 0 ∷ 0 ∷ 1 ∷ [];
  port = 7000;
  sim_bank_id = 1;
  channel_id = 2;
  tt_cnt = 0;
  result = 0;
}

abbrev two_bytes : Calls
two_bytes = record {
  connects = pos 12;
  sends = pos 152;
  rounds = (ready, (some 2, some (0x90 ∷ 0 ∷ []))) ∷ [];
}

-- A request for a card, a request to the card twice, the second without an answer, and a log-out.
abbrev no_answer : Calls
no_answer = record { connects = pos 13; sends = pos 152; rounds = [] }

abbrev node_of : ℕ → NodeData
node_of tag = record {
  node_tag = tag;
  node_len = 7;
  node_buff = device_card.buff;
  node_imsi = device_card.imsi;
}

abbrev around : Calls → Around
around s = record {
  calls = s;
  stored = record {
    stored_imsi = device_card.imsi;
    stored_s_imsi = [];
    stored_ip = 10 ∷ 0 ∷ 0 ∷ 2 ∷ [];
    stored_port = 7001;
    stored_sim_bank_id = 3;
    stored_channel_id = 4;
    stored_result = 0;
  };
  late = true;
}

abbrev some_requests : List (NodeData × Around)
some_requests =
    (node_of 0x81, around no_answer)
    ∷ (node_of 0x83, around two_bytes)
    ∷ (node_of 0x83, around no_answer)
    ∷ (node_of 0x9C, around no_answer)
    ∷ []

abbrev login_example : Login
login_example = record {
  login_mcc = 460;
  mnc = pos 1;
  lac = pos 9514;
  cid = negsuc 0;
  data_used = pos 0;
  firmware_ver = pos 1605041005;
  apk = 17;
  login_battery = pos 80;
  take_time = 5;
}

abbrev sn_text : List ℕ
sn_text = codes "860172008123456"

abbrev imsi_text : List ℕ
imsi_text = codes "809460011234567890"

reports-fit_example :
    AllFit sn_text imsi_text
      (codes "89860012345678901234")
      (codes "10.0.0.1|user")
      (codes "(null)")
      (0x90 ∷ 0 ∷ [])
      (replicate 80 7)
      (pos 2)
      (negsuc 4)
      (pos 1)
      3
      1480000000
      login_example
reports-fit_example =
    reports-fit sn_text imsi_text (codes "89860012345678901234") (codes "10.0.0.1|user")
      (codes "(null)") (0x90 ∷ 0 ∷ []) (replicate 80 7) (pos 2) (negsuc 4) (pos 1) 3 1480000000
      login_example (omega arith) (omega arith) (omega arith) (omega arith) (omega arith)
      (omega arith)

-- What the device reads for the two bytes, and the run of the three requests.
two_bytes_answered :
    (coding_with_cmdtt two_bytes device_card >>= λ r. some (texts_of r.1))
    ≡ some ((0x93 ∷ 2 ∷ 0 ∷ 9 ∷ 0x90 ∷ 0 ∷ []) ∷ [])
unfolding coding_with_cmdtt pick_up_data_spm with_data_ip connect_spm is_open tdm_to_spm
    data_coding_spm get_msg_from_sock get_loop tt_frame tt_result_pack reduce
two_bytes_answered = refl

console_shown : (log_calls log_example fresh_log).to_error ≡ codes "12E:0:x" ∷ []
unfolding log_calls log_msg is_dropped
console_shown = refl

speed_asked :
    speed_request sn_text 460 ≡ codes "45445445,3002,2|{'SN':'860172008123456','MCC':'460'}&&"
unfolding speed_request printed format digits
speed_asked = refl
