-- ===== src/WebRequest/Members.antt =====
-- A request with its three members reaches the device of its serial number.
use tdm.Base.{
  ℕ, ◌<◌, ◌≤◌, ◌≡◌, ◌≢◌, refl, ap, ◌∙◌, subst, true, some, List, [], ◌∷◌, length, take, get_elem?,
  arith, Bool-cases, inl, inr,
}
use tdm.Base.Int.{}
use tdm.Config.{◌>>=◌}
use tdm.Deal.Minutes.{IsMember}
use tdm.Frames.{client_web_manage, member, to_byte}
use tdm.Session.{Session, place_of, get_data_list_by_sn}
use tdm.Session.Table.{IsKeyed}
use tdm.Text.{atoi}
use tdm.Values.{found, find_str_by_key}
use tdm.Values.Search.{lacks}
use tdm.Values.Readers.{object, get_key_value-object}
use tdm.WebRequest.{
  WebData, blank_data, sn_key, type_key, num_key, sn_bytes, read_sn, read_type, with_num, read_num,
  get_value, fd_at, fd_of, client_web_request,
}

find_str_by_key-IsMember :
    (text key value : List ℕ)
    → IsMember text key value
    → length value ≤ 55
    → lacks b'"' key ≡ true
    → lacks b':' key ≡ true
    → key ≢ []
    → length text < 512
    → find_str_by_key (some text) key 55 ≡ found value
find_str_by_key-IsMember text key [] (before, rest, ((e, n), (q, (p, s)))) fits l c ne h =
    absurd (omega arith)
find_str_by_key-IsMember text key (v ∷ vs) (before, rest, ((e, n), (q, (p, s)))) fits l c ne h =
    let small : length (object before key (v ∷ vs) rest) < 512 = subst (λ t. length t < 512) e h in
    ap (λ t. find_str_by_key (some t) key 55) e
    ∙ (get_key_value-object before key v vs rest 55 small l c ne n q fits).1

-- What `getValue` makes of the three members.
abbrev pub data_of : List ℕ → List ℕ → List ℕ → WebData
data_of sn type num =
    with_num num (record blank_data { sn = sn_bytes sn; type = to_byte (atoi type) })

with_num_sn : (v : List ℕ) (d : WebData) → (with_num v d).sn ≡ d.sn
with_num_sn v d = elim (Bool-cases (member d.type (8 ∷ 10 ∷ 11 ∷ 15 ∷ []))) [
  | inl e ↦ rw e refl
  | inr e ↦ rw e refl
]

get_value-data_of :
    (src sn type num : List ℕ)
    → find_str_by_key (some src) sn_key 55 ≡ found sn
    → find_str_by_key (some src) type_key 55 ≡ found type
    → find_str_by_key (some src) num_key 55 ≡ found num
    → get_value src ≡ some (data_of sn type num)
unfolding get_value
get_value-data_of src sn type num es et en =
    let t = find_str_by_key (some src) type_key 55 in
    let n = find_str_by_key (some src) num_key 55 in
    let d = record blank_data { sn = sn_bytes sn } in
    let e = record d { type = to_byte (atoi type) } in
    ap (λ r. read_sn r blank_data >>= (λ d. read_type t d >>= λ e. read_num n e)) es
    ∙ ap (λ r. read_type r d >>= λ e. read_num n e) et
    ∙ ap (λ r. read_num r e) en

session_fd :
    (ss : List Session) (i : ℕ) (s : Session) (sn : List ℕ)
    → IsKeyed ss
    → get_elem? ss i ≡ some s
    → take 15 sn ≡ s.sn
    → fd_of ss (get_data_list_by_sn ss sn) ≡ s.fd1
session_fd ss i s sn keyed at_i e =
    ap (λ k. fd_of ss (place_of ss k)) e ∙ ap (fd_of ss) (keyed i s at_i) ∙ ap fd_at at_i

-- If the text of a request, of fewer than 512 characters, has the members `sn`, `type` and `num`, with
-- values of at most 55 characters, and the serial number is the one of the session at `i`, each
-- session being the one found under its own, then the request reaches that device: the server does
-- with the socket of that session what `Client_Web_Manage` does for that type, with `num` as the text
-- when the type has one and else as the number.
pub client_web_request-members :
    (ss : List Session) (src sn type num : List ℕ) (i : ℕ) (s : Session)
    → length src < 512
    → IsMember src sn_key sn
    → IsMember src type_key type
    → IsMember src num_key num
    → length sn ≤ 55
    → length type ≤ 55
    → length num ≤ 55
    → IsKeyed ss
    → get_elem? ss i ≡ some s
    → take 15 (sn_bytes sn) ≡ s.sn
    → client_web_request ss src
      ≡ (let d = data_of sn type num in some (client_web_manage s.fd1 d.type d.num d.text))
unfolding client_web_request
client_web_request-members ss src sn type num i s h ms mt mn ls lt ln keyed at_i same_sn =
    let es = find_str_by_key-IsMember src sn_key sn ms ls refl refl (λ e. absurd cc) h in
    let et = find_str_by_key-IsMember src type_key type mt lt refl refl (λ e. absurd cc) h in
    let en = find_str_by_key-IsMember src num_key num mn ln refl refl (λ e. absurd cc) h in
    let d = data_of sn type num in
    let kept : d.sn ≡ sn_bytes sn =
      with_num_sn num (record blank_data { sn = sn_bytes sn; type = to_byte (atoi type) }) in
    ap
      (λ r. r >>= λ d.
        some (client_web_manage (fd_of ss (get_data_list_by_sn ss d.sn)) d.type d.num d.text))
      (get_value-data_of src sn type num es et en)
    ∙ ap (λ fd. some (client_web_manage fd d.type d.num d.text))
        (session_fd ss i s d.sn keyed at_i (ap (take 15) kept ∙ same_sn))
