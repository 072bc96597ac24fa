-- ===== src/WebRequest.antt =====
-- A whole request of the web server, from its text: `getValue` and `Client_Web_Manage` of src/TDM.c,
-- with the list of the sessions.
pub mod Members
use tdm.Base.{
  ℕ, zero, suc, ◌+◌, Bool, true, false, Option, none, some, List, [], ◌∷◌, ◌++◌, take, replicate,
  get_elem?, if◌then◌else◌,
}
use tdm.Base.Int.{ℤ, pos}
use tdm.Config.{◌>>=◌}
use tdm.Frames.{Handled, client_web_manage, member, to_byte}
use tdm.Session.{Session, get_data_list_by_sn}
use tdm.Text.{atoi}
use tdm.Values.{Reading, found, fails, overrun, find_str_by_key}

-- `Web_Data` with the 16 bytes of `sn`, and the text for the device.
pub record WebData : Type 0 where
  pub type : ℕ
  pub num : ℕ
  pub sn : List ℕ
  pub text : List ℕ

abbrev pub blank_data : WebData
blank_data = record { type = 0; num = 0; sn = replicate 16 0; text = [] }

-- The characters that `char Dst[56]` holds before a zero byte.
abbrev pub dst_room : ℕ
dst_room = 55

abbrev pub sn_key : List ℕ
sn_key = b's' ∷ b'n' ∷ []

abbrev pub type_key : List ℕ
type_key = b't' ∷ b'y' ∷ b'p' ∷ b'e' ∷ []

abbrev pub num_key : List ℕ
num_key = b'n' ∷ b'u' ∷ b'm' ∷ []

-- The 15 bytes copied to `sn`.
abbrev pub sn_bytes : List ℕ → List ℕ
sn_bytes v = take 15 (v ++ replicate 15 0) ++ 0 ∷ []

abbrev pub read_sn : Reading → WebData → Option WebData
read_sn (found v) d = some (record d { sn = sn_bytes v })
read_sn (fails n) d = some d
read_sn overrun d = none

abbrev pub read_type : Reading → WebData → Option WebData
read_type (found v) d = some (record d { type = to_byte (atoi v) })
read_type (fails n) d = some d
read_type overrun d = none

-- The `switch` on the type: these requests have a text.
abbrev pub with_num : List ℕ → WebData → WebData
with_num v d =
    if member d.type (8 ∷ 10 ∷ 11 ∷ 15 ∷ [])
    then record d { text = v }
    else record d { num = to_byte (atoi v) }

abbrev pub read_num : Reading → WebData → Option WebData
read_num (found v) d = some (with_num v d)
read_num (fails n) d = some d
read_num overrun d = none

-- `getValue`; `none` when it writes past an array.
unfoldable pub get_value : List ℕ → Option WebData
get_value src = do
  d ← read_sn (find_str_by_key (some src) sn_key dst_room) blank_data
  e ← read_type (find_str_by_key (some src) type_key dst_room) d
  read_num (find_str_by_key (some src) num_key dst_room) e

abbrev pub fd_at : Option Session → ℤ
fd_at none = pos 0
fd_at (some s) = s.fd1

abbrev pub fd_of : List Session → Option ℕ → ℤ
fd_of ss none = pos 0
fd_of ss (some i) = fd_at (get_elem? ss i)

-- `Client_Web_Manage`.
unfoldable pub client_web_request : List Session → List ℕ → Option Handled
client_web_request ss src = do
  d ← get_value src
  some (client_web_manage (fd_of ss (get_data_list_by_sn ss d.sn)) d.type d.num d.text)
