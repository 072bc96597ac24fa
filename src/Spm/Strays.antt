-- ===== src/Spm/Strays.antt =====
-- When a run of requests writes behind an array.
use tdm.Base.{
  ℕ, ◌%◌, ◌≤◌, ◌<◌, ◌⊎◌, inl, inr, Option, none, some, List, [], ◌∷◌, leb, length, arith,
  Bool-cases,
}
use tdm.Config.{◌>>=◌}
use tdm.Frames.{}
use tdm.Spm.{Card, Calls, Act, Exchange, Coded, exchanged, pick_up_data_spm, received_reply}
use tdm.Spm.Requests.{
  tt_reply, tt_answered, tt_started, coding_with_cmdtt, after_acts, file_reply,
  coding_with_simfile_request, handler_of, Handler, access_auth, simfile_request, change_ip, cmdtt,
  hb, new_hb, cfmd, local, log_out, low_vsim, deal, vpn_rqst, vpn_cmd, unhandled, close_socket,
  NodeData, Around, with_request, coding_with_date, coding_with_cmd_data_pool, pool_requests,
}
use tdm.Spm.Answered.{
  IsPicked, pick_up_data_spm-IsPicked, exchanged-IsExchanged, ComesFrom, long_reply, IsReached,
}

-- A request of below 12 bytes or above 135, or a reply of 80 bytes or more.
abbrev pub IsStray : ℕ → Calls → Type 0
IsStray len s = ((len < 12) ⊎ (136 ≤ len)) ⊎ (80 ≤ length (received_reply s).bytes)

-- No result only in a given case.
abbrev pub IfNone : {A : Type 0} → Type 0 → Option A → Type 0
IfNone P none = P
IfNone P (some a) = Unit {0}

-- A reply that is too long.
abbrev pub IsLong : Option (List ℕ) → Type 0
IsLong none = ⊥
IsLong (some text) = 80 ≤ length text

tt_reply-IfNone :
    (c : Card) (bytes : List ℕ) (reply : Option (List ℕ))
    → IfNone (IsLong reply) (tt_reply c bytes reply)
tt_reply-IfNone c bytes none = tt
tt_reply-IfNone c bytes (some []) = tt
tt_reply-IfNone c bytes (some (code ∷ [])) = tt
tt_reply-IfNone c bytes (some (x ∷ y ∷ rest)) = elim (Bool-cases (leb (length (x ∷ y ∷ rest)) 79)) [
  | inl f ↦ rw f tt
  | inr f ↦ rw f (ground arith)
]

file_reply-IfNone :
    (d : Coded) (reply : Option (List ℕ)) → IfNone (IsLong reply) (file_reply d reply)
file_reply-IfNone d none = tt
file_reply-IfNone d (some text) = elim (Bool-cases (leb 1024 (length text))) [
  | inl f ↦ rw f (ground arith)
  | inr f ↦ elim (Bool-cases (leb (length text) 5)) [ inl g ↦ rw (f, g) tt | inr g ↦ rw (f, g) tt ]
]

IfNone-weaken :
    {A : Type 0} (P : Type 0) (Q : Type 0) (o : Option A) → (P → Q) → IfNone P o → IfNone Q o
IfNone-weaken P Q none f p = f p
IfNone-weaken P Q (some a) f p = tt

IfNone-map :
    {A : Type 0} {B : Type 0} (P : Type 0) (o : Option A) (f : A → B)
    → IfNone P o
    → IfNone P (o >>= λ a. some (f a))
IfNone-map P none f p = p
IfNone-map P (some a) f p = tt

IfNone-bind :
    {A : Type 0} {B : Type 0} (P : Type 0) (Q : Type 0) (o : Option A) (f : A → Option B)
    → IfNone P o
    → ((a : A) → IfNone Q (f a))
    → IfNone (P ⊎ Q) (o >>= f)
IfNone-bind P Q none f p q = inl p
IfNone-bind P Q (some a) f p q = IfNone-weaken Q (P ⊎ Q) (f a) inr (q a)

-- A long reply is a long text that has been received.
received_long :
    (P : Type 0) (s : Calls) (bytes : List ℕ) (reply : Option (List ℕ))
    → ComesFrom P s bytes reply
    → IsLong reply
    → 80 ≤ length (received_reply s).bytes
received_long P s bytes none from long = absurd long
received_long P s bytes (some text) from long = long_reply P s bytes text from long

-- A request that is picked up, and what follows the exchange.
picked-IfNone :
    {B : Type 0} (s : Calls) (c : Card) (o : Option Exchange) (f : Coded → Option B)
    → IsPicked s c o
    → ((d : Coded) → IfNone (IsLong d.reply) (f d))
    → IfNone (IsStray c.len s) (o >>= λ e. f (exchanged s e))
picked-IfNone s c none f stray ends = inl stray
picked-IfNone s c (some e) f picked ends =
    let d = exchanged s e in
    let (keeps, (quiet, from)) = exchanged-IsExchanged s c e picked in
    IfNone-weaken (IsLong d.reply) (IsStray c.len s) (f d)
      (λ long. inr (received_long (IsReached s c) s d.bytes d.reply from long)) (ends d)

cmdtt-IfNone : (s : Calls) (c : Card) → IfNone (IsStray c.len s) (coding_with_cmdtt s c)
unfolding coding_with_cmdtt
cmdtt-IfNone s c =
    picked-IfNone s (tt_started c) (pick_up_data_spm s (tt_started c)) tt_answered
      (pick_up_data_spm-IsPicked s (tt_started c))
      (λ d.
        IfNone-map (IsLong d.reply) (tt_reply d.card d.bytes d.reply) (after_acts d.acts)
          (tt_reply-IfNone d.card d.bytes d.reply))

simfile-IfNone : (s : Calls) (c : Card) → IfNone (IsStray c.len s) (coding_with_simfile_request s c)
unfolding coding_with_simfile_request
simfile-IfNone s c =
    picked-IfNone s c (pick_up_data_spm s c) (λ d. file_reply d d.reply)
      (pick_up_data_spm-IsPicked s c) (λ d. file_reply-IfNone d d.reply)

date-IfNone :
    (h : Handler) (a : Around) (c : Card) → IfNone (IsStray c.len a.calls) (coding_with_date h a c)
unfolding coding_with_date
date-IfNone cmdtt a c = cmdtt-IfNone a.calls c
date-IfNone simfile_request a c = simfile-IfNone a.calls c
date-IfNone access_auth a c = tt
date-IfNone cfmd a c = tt
date-IfNone log_out a c = tt
date-IfNone change_ip a c = tt
date-IfNone hb a c = tt
date-IfNone new_hb a c = tt
date-IfNone local a c = tt
date-IfNone low_vsim a c = tt
date-IfNone deal a c = tt
date-IfNone vpn_rqst a c = tt
date-IfNone vpn_cmd a c = tt
date-IfNone unhandled a c = tt

pool-IfNone :
    (n : NodeData) (a : Around) (c : Card)
    → IfNone (IsStray (n.node_len % 256) a.calls) (coding_with_cmd_data_pool n a c)
unfolding coding_with_cmd_data_pool
pool-IfNone n a c =
    let d = with_request n (close_socket c).0 in
    IfNone-map (IsStray (n.node_len % 256) a.calls) (coding_with_date (handler_of n.node_tag) a d)
      (after_acts (close_socket c).1) (date-IfNone (handler_of n.node_tag) a d)

-- One of the requests is stray.
abbrev pub HasStray : List (NodeData × Around) → Type 0
HasStray [] = ⊥
HasStray ((n, a) ∷ rest) = IsStray (n.node_len % 256) a.calls ⊎ HasStray rest

next-IfNone :
    (P : Type 0) (Q : Type 0) (o : Option (Card × List Act))
    (next : Card → Option (Card × List Act))
    → IfNone P o
    → ((d : Card) → IfNone Q (next d))
    → IfNone (P ⊎ Q) (o >>= λ (d, acts). next d >>= λ r. some (after_acts acts r))
next-IfNone P Q o next p q =
    IfNone-bind P Q o (λ (d, acts). next d >>= λ r. some (after_acts acts r)) p
      (λ (d, acts). IfNone-map Q (next d) (after_acts acts) (q d))

pub pool_requests-IfNone :
    (requests : List (NodeData × Around)) (c : Card)
    → IfNone (HasStray requests) (pool_requests requests c)
unfolding pool_requests
pool_requests-IfNone [] c = tt
pool_requests-IfNone ((n, a) ∷ rest) c =
    next-IfNone (IsStray (n.node_len % 256) a.calls) (HasStray rest)
      (coding_with_cmd_data_pool n a c) (pool_requests rest) (pool-IfNone n a c)
      (pool_requests-IfNone rest)
