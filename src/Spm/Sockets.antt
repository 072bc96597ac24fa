-- ===== src/Spm/Sockets.antt =====
-- The connection of a device to the server of its SIM card in one exchange.
use tdm.Base.{
  ℕ, ◌≡◌, refl, sym, ◌∙◌, subst, inl, inr, Bool, true, false, Option, none, some, List, [], ◌∷◌,
  ◌++◌, ◌||◌, ◌==◌, leb, take, replicate, if◌then◌else◌, Bool-cases, Option-cases,
}
use tdm.Base.Int.{ℤ, pos, negsuc}
use tdm.Config.{◌>>=◌}
use tdm.Frames.{}
use tdm.Hex.{}
use tdm.Logs.{is_open}
use tdm.Logs.Sockets.{held, zero-is_open}
use tdm.Session.{same}
use tdm.Spm.{
  Card, Calls, Act, connected, sent_to, received_from, disconnected, reported, wrote, logged,
  set_sim_cards_status, with_data_ip, has_data_ip, connect_spm, pick_up_on, pick_up_data_spm,
  tdm_to_spm, Coded, coded, data_coding_spm, exchanged, Exchange, disconnect, received_reply,
  whole_reply,
}
use tdm.Spm.Requests.{}
use tdm.Spm.Answered.{data_coding_sent, data_coding_failed}

-- A connection is made only when none is held, closed only when it is held, and then none is held;
-- what is sent and received uses the one that is held or, when none is, a number that is not above 0.
abbrev pub UsesSpm : List ℤ → List Act → List ℤ → Type 0
UsesSpm h [] e = h ≡ e
UsesSpm h (connected fd ∷ acts) e = (h ≡ []) × UsesSpm (fd ∷ []) acts e
UsesSpm h (sent_to fd bytes ∷ acts) e = (h ≡ held fd) × UsesSpm h acts e
UsesSpm h (received_from fd ∷ acts) e = (h ≡ held fd) × UsesSpm h acts e
UsesSpm h (disconnected fd ∷ acts) e = (h ≡ fd ∷ []) × UsesSpm [] acts e
UsesSpm h (reported imsi ∷ acts) e = UsesSpm h acts e
UsesSpm h (wrote text ∷ acts) e = UsesSpm h acts e
UsesSpm h (logged text n ∷ acts) e = UsesSpm h acts e

pub UsesSpm-++ :
    (h m e : List ℤ) (a b : List Act) → UsesSpm h a m → UsesSpm m b e → UsesSpm h (a ++ b) e
UsesSpm-++ h m e [] b same_held u = subst (λ x. UsesSpm x b e) (sym same_held) u
UsesSpm-++ h m e (connected fd ∷ a) b (p, u) v = (p, UsesSpm-++ (fd ∷ []) m e a b u v)
UsesSpm-++ h m e (sent_to fd bytes ∷ a) b (p, u) v = (p, UsesSpm-++ h m e a b u v)
UsesSpm-++ h m e (received_from fd ∷ a) b (p, u) v = (p, UsesSpm-++ h m e a b u v)
UsesSpm-++ h m e (disconnected fd ∷ a) b (p, u) v = (p, UsesSpm-++ [] m e a b u v)
UsesSpm-++ h m e (reported imsi ∷ a) b u v = UsesSpm-++ h m e a b u v
UsesSpm-++ h m e (wrote text ∷ a) b u v = UsesSpm-++ h m e a b u v
UsesSpm-++ h m e (logged text n ∷ a) b u v = UsesSpm-++ h m e a b u v

-- From one state of the connection to another.
abbrev pub IsRun : ℤ → Card × List Act → Type 0
IsRun fd (d, acts) = UsesSpm (held fd) acts (held d.socket_spm)

-- A run that gives a result.
abbrev pub IfRun : ℤ → Option (Card × List Act) → Type 0
IfRun fd none = Unit {0}
IfRun fd (some r) = IsRun fd r

pub report-UsesSpm : (h : List ℤ) (imsi : List ℕ) → UsesSpm h (set_sim_cards_status imsi) h
report-UsesSpm h imsi = elim (Bool-cases (same (take 18 imsi) (replicate 18 b'0'))) [
  | inl e ↦ rw e refl
  | inr e ↦ rw e refl
]

-- A number that is not above 0 stands for no connection.
pub none_held : (fd : ℤ) → is_open fd ≡ false → held fd ≡ []
none_held fd e = rw e refl

one_held : (fd : ℤ) → is_open fd ≡ true → held fd ≡ fd ∷ []
one_held fd e = rw e refl

pub zero_held : held (pos 0) ≡ []
zero_held = none_held (pos 0) zero-is_open

report-IsRun :
    (fd : ℤ) (imsi : List ℕ) (c : Card)
    → held fd ≡ held c.socket_spm
    → IsRun fd (c, set_sim_cards_status imsi)
report-IsRun fd imsi c e =
    subst (λ h. UsesSpm (held fd) (set_sim_cards_status imsi) h) e (report-UsesSpm (held fd) imsi)

abbrev pub KeepsSocket : Card → Option Card → Type 0
KeepsSocket c none = Unit {0}
KeepsSocket c (some d) = d.socket_spm ≡ c.socket_spm

with_data_ip-KeepsSocket : (c : Card) → KeepsSocket c (with_data_ip c)
unfolding with_data_ip
with_data_ip-KeepsSocket c = elim (Bool-cases (has_data_ip c)) [
  | inl e ↦ elim (Bool-cases (leb 12 c.len)) [ inl f ↦ rw (e, f) refl | inr f ↦ rw (e, f) tt ]
  | inr e ↦ rw e refl
]

or_false : (a b : Bool) → (a || b) ≡ false → a ≡ false
or_false false b e = refl
or_false true b e = absurd cc

abbrev pub IsConnect : ℤ → Card × (List Act × Bool) → Type 0
IsConnect fd (d, (acts, on)) = IsRun fd (d, acts)

connect_spm-IsConnect : (s : Calls) (c : Card) → IsConnect c.socket_spm (connect_spm s c)
unfolding connect_spm
connect_spm-IsConnect s c = elim (Bool-cases (is_open c.socket_spm || (c.port == 0))) [
  | inl e ↦ rw e refl
  | inr e ↦
      let closed = none_held c.socket_spm (or_false _ _ e) in
      elim (Bool-cases (is_open s.connects)) [
        | inl f ↦ rw (e, f) (closed, sym (one_held s.connects f))
        | inr f ↦
            rw (e, f)
              (report-IsRun c.socket_spm c.s_imsi (record c { socket_spm = pos 0 })
                (closed ∙ sym zero_held))
      ]
]

-- The parts of an exchange.
abbrev pub IfPicked : ℤ → Option Exchange → Type 0
IfPicked fd none = Unit {0}
IfPicked fd (some (d, (acts, request))) = IsRun fd (d, acts)

pick_up_on-IfPicked :
    (fd : ℤ) (r : Card × (List Act × Bool)) → IsConnect fd r → IfPicked fd (pick_up_on r)
pick_up_on-IfPicked fd (d, (acts, false)) run = run
pick_up_on-IfPicked fd (d, (acts, true)) run = elim (Option-cases (tdm_to_spm d)) [
  | inl e ↦ rw e tt
  | inr (request, e) ↦ rw e run
]

located-IfPicked :
    (s : Calls) (c : Card) (o : Option Card)
    → KeepsSocket c o
    → IfPicked c.socket_spm (o >>= λ d. pick_up_on (connect_spm s d))
located-IfPicked s c none keeps = tt
located-IfPicked s c (some d) keeps =
    subst (λ fd. IfPicked fd (pick_up_on (connect_spm s d))) keeps
      (pick_up_on-IfPicked d.socket_spm (connect_spm s d) (connect_spm-IsConnect s d))

pub pick_up_data_spm-IfPicked :
    (s : Calls) (c : Card) → IfPicked c.socket_spm (pick_up_data_spm s c)
unfolding pick_up_data_spm
pick_up_data_spm-IfPicked s c = located-IfPicked s c (with_data_ip c) (with_data_ip-KeepsSocket c)

abbrev pub IsCodedRun : ℤ → Coded → Type 0
IsCodedRun fd d = IsRun fd (d.card, d.acts)

minus_held : held (negsuc 0) ≡ []
unfolding is_open
minus_held = refl

-- Closing a connection that is held, or none.
closing :
    (fd : ℤ) (e : List ℤ)
    → e ≡ []
    → UsesSpm (held fd) (if is_open fd then disconnected fd ∷ [] else []) e
closing fd e none_after = elim (Bool-cases (is_open fd)) [
  | inl o ↦ rw o (refl, sym none_after)
  | inr o ↦ rw o (sym none_after)
]

disconnect-IsRun : (c : Card) → IsRun c.socket_spm (disconnect c)
disconnect-IsRun c = closing c.socket_spm (held (negsuc 0)) minus_held

coded-IsCodedRun :
    (c : Card) (acts : List Act) (bytes : List ℕ) (reply : Option (List ℕ))
    → UsesSpm (held c.socket_spm) acts (held c.socket_spm)
    → IsCodedRun c.socket_spm (coded c acts bytes reply)
coded-IsCodedRun c acts bytes none uses =
    let h = held c.socket_spm in
    UsesSpm-++ h h (held (negsuc 0)) acts (disconnect c).1 uses (disconnect-IsRun c)
coded-IsCodedRun c acts bytes (some reply) uses = uses

data_coding_spm-IsCodedRun :
    (s : Calls) (c : Card) (src : List ℕ) → IsCodedRun c.socket_spm (data_coding_spm s c src)
data_coding_spm-IsCodedRun s c src =
    let r = received_reply s in
    let fd = c.socket_spm in
    let asked = sent_to fd src in
    elim (Bool-cases (is_open s.sends)) [
      | inl e ↦
          subst (λ d. IsCodedRun fd d) (sym (data_coding_sent s c src e))
            (coded-IsCodedRun c (asked ∷ received_from fd ∷ []) r.bytes
              (whole_reply r.outcome r.bytes) (refl, (refl, refl)))
      | inr e ↦
          subst (λ d. IsCodedRun fd d) (sym (data_coding_failed s c src e))
            (coded-IsCodedRun c (asked ∷ []) [] none (refl, refl))
    ]

pub exchanged-IsCodedRun :
    (s : Calls) (fd : ℤ) (e : Exchange) → IfPicked fd (some e) → IsCodedRun fd (exchanged s e)
exchanged-IsCodedRun s fd (d, (acts, none)) run = run
exchanged-IsCodedRun s fd (d, (acts, some request)) run =
    let c = data_coding_spm s d request in
    UsesSpm-++ (held fd) (held d.socket_spm) (held c.card.socket_spm) acts c.acts run
      (data_coding_spm-IsCodedRun s d request)
