-- ===== src/Examples/Web.antt =====
-- A request of the web server with a text for a device.
use tdm.Base.{ℕ, zero, suc, ◌≡◌, refl, ap, subst, none, some, List, [], ◌∷◌, ◌++◌, arith}
use tdm.Base.Int.{pos}
use tdm.Access.{pack_success}
use tdm.Access.Address.{dotted, IsFrame, pack_success-dotted}
use tdm.Frames.{to_byte}
use tdm.Text.{atoi}
use tdm.Deal.Keys.{}
use tdm.Deal.Answer.{Info}
use tdm.Deal.Minutes.{IsMember}
use tdm.Frames.{}
use tdm.Session.{Session, place_of}
use tdm.Session.Table.{IsKeyed}
use tdm.Values.{strstr}
use tdm.Values.Readers.{object}
use tdm.WebRequest.{sn_key, type_key, num_key}
use tdm.WebRequest.Members.{}

abbrev device : List ℕ
device =
    b'1' ∷ b'7' ∷ b'2' ∷ b'1' ∷ b'5' ∷ b'0' ∷ b'2' ∷ b'1' ∷ b'0' ∷ b'0' ∷ b'0' ∷ b'0' ∷ b'0' ∷ b'0'
    ∷ b'1' ∷ []

abbrev device_session : Session
device_session = record {
  sn = device;
  socket_spm = pos 0;
  fd1 = pos 9;
  vpnc = 0 ∷ [];
  vpn_flag = 0;
}

abbrev one_session : List Session
one_session = device_session ∷ []

one_session-IsKeyed : IsKeyed one_session
unfolding place_of
one_session-IsKeyed zero s e =
    let is : device_session ≡ s = ap (λ o. elim o [ none ↦ device_session | some x ↦ x ]) e in
    subst (λ x. place_of one_session x.sn ≡ some 0) is refl
one_session-IsKeyed (suc i) s e = absurd cc

-- `{"sn":"172150210000001","type":"8","num":"hi"}`.
abbrev eight : List ℕ
eight = b'8' ∷ []

abbrev greeting : List ℕ
greeting = b'h' ∷ b'i' ∷ []

abbrev opening : List ℕ
opening = b'{' ∷ []

abbrev closing : List ℕ
closing = b'}' ∷ []

abbrev num_member : List ℕ
num_member = b',' ∷ object [] num_key greeting closing

abbrev request : List ℕ
request = object opening sn_key device (b',' ∷ object [] type_key eight num_member)

-- The text before the key of a member that follows another.
abbrev up_to : List ℕ → List ℕ → List ℕ → List ℕ
up_to before key value = before ++ b'"' ∷ (key ++ b'"' ∷ b':' ∷ b'"' ∷ (value ++ b'"' ∷ b',' ∷ []))

sn-IsMember : IsMember request sn_key device
unfolding strstr
sn-IsMember = (
  opening,
  b',' ∷ object [] type_key eight num_member,
  ((refl, refl), (refl, (omega arith, omega arith))),
)

type-IsMember : IsMember request type_key eight
unfolding strstr
type-IsMember =
    (up_to opening sn_key device, num_member, ((refl, refl), (refl, (omega arith, omega arith))))

num-IsMember : IsMember request num_key greeting
unfolding strstr
num-IsMember = (
  up_to (up_to opening sn_key device) type_key eight,
  closing,
  ((refl, refl), (refl, (omega arith, omega arith))),
)

abbrev blank_info : Info
blank_info = record {
  minite_remain = 0;
  last_start = 0;
  if_test = pos 0;
  order_type = 0;
  vpn = 0;
  if_vpn = 0;
  speed_str = [];
  s_imsi = [];
  ip = [];
  port = 0;
  sim_bank_id = 0;
  channel_id = 0;
  apn = [];
  is_apn = 0;
  selnet = [];
  is_net = 0;
  if_roam = 0;
  speed_type = 0;
  need_file = 0;
  imei = pos 0;
  imsi = [];
  active_num = [];
  active_flag = 0;
  allocation = record { result = pos 0; factory_flag = pos 0; server_info = [] };
}

abbrev ten : List ℕ
ten = b'1' ∷ b'0' ∷ []

abbrev nought : List ℕ
nought = b'0' ∷ []

abbrev card : Info
card = record blank_info { ip = dotted ten nought nought eight; order_type = 2; port = 600 }

pack_success-dotted_example :
    IsFrame
      (to_byte (atoi ten)
        ∷ to_byte (atoi nought)
        ∷ to_byte (atoi nought)
        ∷ to_byte (atoi eight)
        ∷ [])
      (pack_success card 5)
pack_success-dotted_example =
    pack_success-dotted card 5 ten nought nought eight refl (omega arith) (omega arith, refl)
      (omega arith, refl) (omega arith, refl) (omega arith, refl)
