-- ===== src/Spm/Answered.antt =====
-- What the device is sent for a request to its SIM card.
use tdm.Base.{
  ℕ, zero, suc, ◌-◌, drop, ◌≤◌, ◌<◌, ◌≡◌, ◌⊎◌, refl, sym, ap, ap₂, ◌∙◌, subst, inl, inr, Bool, true,
  false, Option, none, some, List, [], ◌∷◌, ◌++◌, ◌||◌, ◌==◌, leb, length, if◌then◌else◌, arith,
  Bool-cases, Option-cases,
}
use tdm.Base.Int.{}
use tdm.Frames.{}
use tdm.Frames.Packing.{}
use tdm.Hex.{}
use tdm.Receive.{number_at}
use tdm.Session.{}
use tdm.Config.{◌>>=◌}
use tdm.Logs.{is_open}
use tdm.Sock.{
  Outcome, running, err_select, err_time_out, err_send, err_ioctl, err_recv, out_of_buffer, returns,
}
use tdm.Spm.{
  Exchange, with_data_ip, has_data_ip, connect_spm, pick_up_on, pick_up_data_spm, tdm_to_spm,
  request_bytes, Coded, coded, data_coding_spm, exchanged, received_reply, whole_reply, disconnect,
  Card, Calls, Act, sent_to, received_from,
}
use tdm.Spm.Replies.{texts_of, texts_of-++, texts_of-report, Answers, IsReplied}

-- What the answer depends on is kept.
abbrev pub Keeps : Card → Card → Type 0
Keeps c d = (d.buff ≡ c.buff) × (d.result ≡ c.result)

-- The request lies in front of `Buff`, or goes on behind `Tdm_to_Spm`.
abbrev pub HasStrayRequest : Card → Type 0
HasStrayRequest c = (c.len < 12) ⊎ (136 ≤ c.len)

-- The port that is connected to: that of the `Data_IP` at the end of the request, if there is one.
abbrev pub port_of : Card → ℕ
port_of c = if has_data_ip c then number_at 2 (drop 4 (drop (c.len - 12) c.buff)) else c.port

-- There is a connection already, or no port to connect to, or a new connection is made.
abbrev pub IsReached : Calls → Card → Type 0
IsReached s c = (is_open c.socket_spm ≡ true) ⊎ ((port_of c ≡ 0) ⊎ (is_open s.connects ≡ true))

-- Without a request the connection has failed.
abbrev pub IsPicked : Calls → Card → Option Exchange → Type 0
IsPicked s c none = HasStrayRequest c
IsPicked s c (some (d, (acts, none))) =
    Keeps c d × ((texts_of acts ≡ []) × (is_open s.connects ≡ false))
IsPicked s c (some (d, (acts, some request))) = Keeps c d × ((texts_of acts ≡ []) × IsReached s c)

abbrev pub HasLocated : Card → Option Card → Type 0
HasLocated c none = c.len < 12
HasLocated c (some d) =
    Keeps c d × ((d.len ≤ c.len) × ((d.socket_spm ≡ c.socket_spm) × (d.port ≡ port_of c)))

port_of_data_ip :
    (c : Card) → has_data_ip c ≡ true → port_of c ≡ number_at 2 (drop 4 (drop (c.len - 12) c.buff))
port_of_data_ip c e = rw e refl

port_of_kept : (c : Card) → has_data_ip c ≡ false → port_of c ≡ c.port
port_of_kept c e = rw e refl

with_data_ip-HasLocated : (c : Card) → HasLocated c (with_data_ip c)
unfolding with_data_ip
with_data_ip-HasLocated c = elim (Bool-cases (has_data_ip c)) [
  | inl e ↦ elim (Bool-cases (leb 12 c.len)) [
    | inl f ↦
        let port = port_of_data_ip c e in rw (e, f) ((refl, refl), (omega arith, (refl, sym port)))
    | inr f ↦ rw (e, f) (ground arith)
  ]
  | inr e ↦ let port = port_of_kept c e in rw e ((refl, refl), (omega arith, (refl, sym port)))
]

abbrev pub HasConnection : Calls → Card → Type 0
HasConnection s c = ((is_open c.socket_spm || (c.port == 0)) ≡ true) ⊎ (is_open s.connects ≡ true)

abbrev pub IsConnected : Calls → Card → Card × (List Act × Bool) → Type 0
IsConnected s c (d, (acts, false)) =
    Keeps c d × ((texts_of acts ≡ []) × (is_open s.connects ≡ false))
IsConnected s c (d, (acts, true)) =
    Keeps c d × ((texts_of acts ≡ []) × ((d.len ≡ c.len) × HasConnection s c))

connect_spm-IsConnected : (s : Calls) (c : Card) → IsConnected s c (connect_spm s c)
unfolding connect_spm
connect_spm-IsConnected s c = elim (Bool-cases (is_open c.socket_spm || (c.port == 0))) [
  | inl e ↦ rw e ((refl, refl), (refl, (refl, inl e)))
  | inr e ↦ elim (Bool-cases (is_open s.connects)) [
    | inl f ↦ rw (e, f) ((refl, refl), (refl, (refl, inr f)))
    | inr f ↦ rw (e, f) ((refl, refl), (texts_of-report c.s_imsi, f))
  ]
]

Keeps-trans : (a b c : Card) → Keeps a b → Keeps b c → Keeps a c
Keeps-trans a b c (p, q) (r, s) = (r ∙ p, s ∙ q)

long_request : (c : Card) → tdm_to_spm c ≡ none → 136 ≤ c.len
unfolding tdm_to_spm
long_request c h = elim (Bool-cases (leb c.len 135)) [
  | inl e ↦ absurd (let g = sym h ∙ ap (λ b. if b then some (request_bytes c) else none) e in cc)
  | inr e ↦ ground arith
]

or_cases : (a b : Bool) → (a || b) ≡ true → (a ≡ true) ⊎ (b ≡ true)
or_cases true b e = inl refl
or_cases false b e = inr e

reached :
    (s : Calls) (c d : Card)
    → (d.socket_spm ≡ c.socket_spm) × (d.port ≡ port_of c)
    → HasConnection s d
    → IsReached s c
reached s c d (same_socket, port) (inr f) = inr (inr f)
reached s c d (same_socket, port) (inl e) = elim (or_cases _ _ e) [
  | inl held ↦ inl (subst (λ fd. is_open fd ≡ true) same_socket held)
  | inr none_given ↦ inr (inl (let zero_port : d.port ≡ 0 = ground arith in sym port ∙ zero_port))
]

pick_up_on-IsPicked :
    (s : Calls) (c d : Card) (r : Card × (List Act × Bool))
    → Keeps c d
    → d.len ≤ c.len
    → (d.socket_spm ≡ c.socket_spm) × (d.port ≡ port_of c)
    → IsConnected s d r
    → IsPicked s c (pick_up_on r)
pick_up_on-IsPicked s c d (x, (acts, false)) keeps short place (keeps₂, rest) =
    (Keeps-trans c d x keeps keeps₂, rest)
pick_up_on-IsPicked s c d (x, (acts, true)) keeps short place (keeps₂, (quiet, (same_len, on))) =
    elim (Option-cases (tdm_to_spm x)) [
      | inl e ↦ rw e (inr (let long = long_request x e in omega arith))
      | inr (request, e) ↦ rw e (Keeps-trans c d x keeps keeps₂, (quiet, reached s c d place on))
    ]

located-IsPicked :
    (s : Calls) (c : Card) (o : Option Card)
    → HasLocated c o
    → IsPicked s c (o >>= λ d. pick_up_on (connect_spm s d))
located-IsPicked s c none short = inl short
located-IsPicked s c (some d) (keeps, (short, place)) =
    pick_up_on-IsPicked s c d (connect_spm s d) keeps short place (connect_spm-IsConnected s d)

pub pick_up_data_spm-IsPicked : (s : Calls) (c : Card) → IsPicked s c (pick_up_data_spm s c)
unfolding pick_up_data_spm
pick_up_data_spm-IsPicked s c = located-IsPicked s c (with_data_ip c) (with_data_ip-HasLocated c)

-- Where the reply comes from: nothing is received when the connection or the sending has failed; else
-- there was a connection, in the sense of `P`, the sending has succeeded, and it is what
-- `GetMsgFromSock` returns, if that is above 0.
abbrev pub ComesFrom : Type 0 → Calls → List ℕ → Option (List ℕ) → Type 0
ComesFrom P s bytes reply =
    ((bytes ≡ []) × ((reply ≡ none) × ((is_open s.connects ≡ false) ⊎ (is_open s.sends ≡ false))))
    ⊎ let r = received_reply s in
      (P × (is_open s.sends ≡ true)) × ((bytes ≡ r.bytes) × (reply ≡ whole_reply r.outcome r.bytes))

-- An exchange writes nothing to the device.
abbrev pub IsExchanged : Type 0 → Calls → Card → Coded → Type 0
IsExchanged P s c d = Keeps c d.card × ((texts_of d.acts ≡ []) × ComesFrom P s d.bytes d.reply)

texts_of-disconnect : (c : Card) → texts_of (disconnect c).1 ≡ []
texts_of-disconnect c = elim (Bool-cases (is_open c.socket_spm)) [
  | inl e ↦ rw e refl
  | inr e ↦ rw e refl
]

coded-IsExchanged :
    (P : Type 0) (s : Calls) (c : Card) (acts : List Act) (bytes : List ℕ) (reply : Option (List ℕ))
    → texts_of acts ≡ []
    → ComesFrom P s bytes reply
    → IsExchanged P s c (coded c acts bytes reply)
coded-IsExchanged P s c acts bytes none quiet from = (
  (refl, refl),
  (texts_of-++ acts (disconnect c).1 ∙ ap₂ (λ a b. a ++ b) quiet (texts_of-disconnect c), from),
)
coded-IsExchanged P s c acts bytes (some reply) quiet from = ((refl, refl), (quiet, from))

pub data_coding_sent :
    (s : Calls) (c : Card) (src : List ℕ)
    → is_open s.sends ≡ true
    → let r = received_reply s in
      data_coding_spm s c src
      ≡ coded c
          (sent_to c.socket_spm src ∷ received_from c.socket_spm ∷ [])
          r.bytes
          (whole_reply r.outcome r.bytes)
unfolding data_coding_spm
data_coding_sent s c src e = rw e refl

pub data_coding_failed :
    (s : Calls) (c : Card) (src : List ℕ)
    → is_open s.sends ≡ false
    → data_coding_spm s c src ≡ coded c (sent_to c.socket_spm src ∷ []) [] none
unfolding data_coding_spm
data_coding_failed s c src e = rw e refl

data_coding_spm-IsExchanged :
    (P : Type 0) (s : Calls) (c : Card) (src : List ℕ)
    → P
    → IsExchanged P s c (data_coding_spm s c src)
data_coding_spm-IsExchanged P s c src on =
    let r = received_reply s in
    let reply = whole_reply r.outcome r.bytes in
    let asked = sent_to c.socket_spm src in
    elim (Bool-cases (is_open s.sends)) [
      | inl e ↦
          subst (λ d. IsExchanged P s c d) (sym (data_coding_sent s c src e))
            (coded-IsExchanged P s c (asked ∷ received_from c.socket_spm ∷ []) r.bytes reply refl
              (inr ((on, e), (refl, refl))))
      | inr e ↦
          subst (λ d. IsExchanged P s c d) (sym (data_coding_failed s c src e))
            (coded-IsExchanged P s c (asked ∷ []) [] none refl (inl (refl, (refl, inr e))))
    ]

pub exchanged-IsExchanged :
    (s : Calls) (c : Card) (e : Exchange)
    → IsPicked s c (some e)
    → IsExchanged (IsReached s c) s c (exchanged s e)
exchanged-IsExchanged s c (d, (acts, none)) (keeps, (quiet, failed)) =
    (keeps, (quiet, inl (refl, (refl, inl failed))))
exchanged-IsExchanged s c (d, (acts, some request)) (keeps, (quiet, on)) =
    let (keeps₂, (quiet₂, from)) = data_coding_spm-IsExchanged (IsReached s c) s d request on in
    (
      Keeps-trans c d (data_coding_spm s d request).card keeps keeps₂,
      (
        texts_of-++ acts (data_coding_spm s d request).acts ∙ ap₂ (λ a b. a ++ b) quiet quiet₂,
        from,
      ),
    )

-- Either a text is written behind an array, or there is one answer.
abbrev pub IsAnswered : Calls → Card → Option (Card × List Act) → Type 0
IsAnswered s c none = HasStrayRequest c ⊎ (80 ≤ length (received_reply s).bytes)
IsAnswered s c (some r) =
    (bytes : List ℕ) × ((reply : Option (List ℕ)) × (ComesFrom (IsReached s c) s bytes reply
        × Answers c bytes reply r))

-- Only a text that is received is long.
pub reply_length :
    (o : Outcome) (bytes reply : List ℕ) → whole_reply o bytes ≡ some reply → bytes ≡ reply
reply_length (returns (suc n)) bytes reply e = cc
reply_length (returns zero) bytes reply e = absurd cc
reply_length running bytes reply e = absurd cc
reply_length err_select bytes reply e = absurd cc
reply_length err_time_out bytes reply e = absurd cc
reply_length err_send bytes reply e = absurd cc
reply_length err_ioctl bytes reply e = absurd cc
reply_length err_recv bytes reply e = absurd cc
reply_length out_of_buffer bytes reply e = absurd cc

pub long_reply :
    (P : Type 0) (s : Calls) (bytes reply : List ℕ)
    → ComesFrom P s bytes (some reply)
    → 80 ≤ length reply
    → 80 ≤ length (received_reply s).bytes
long_reply P s bytes reply (inl (e, (f, g))) h = absurd cc
long_reply P s bytes reply (inr (on, (e, f))) h =
    let r = received_reply s in
    subst (λ b. 80 ≤ length b) (sym (reply_length r.outcome r.bytes reply (sym f))) h

pub replied_long :
    (P : Type 0) (s : Calls) (c : Card) (bytes : List ℕ) (reply : Option (List ℕ))
    → ComesFrom P s bytes reply
    → IsReplied c bytes reply none
    → 80 ≤ length (received_reply s).bytes
replied_long P s c bytes none from replied = absurd replied
replied_long P s c bytes (some reply) from replied = long_reply P s bytes reply from replied
