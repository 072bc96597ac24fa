-- ===== src/Spm/Replies.antt =====
-- What `Coding_With_CMDTT` writes for each reply of the card's server.
use tdm.Base.{
  ℕ, suc, ◌+◌, ◌-◌, ◌%◌, ◌≤◌, ◌<◌, ◌≡◌, refl, ap, ap₂, ◌∙◌, inl, inr, Bool, false, Option, none,
  some, List, [], ◌∷◌, ◌++◌, leb, take, drop, length, replicate, get_or, take-all, if◌then◌else◌,
  arith, Bool-cases,
}
use tdm.Base.Int.{ℤ, pos}
use tdm.Frames.{reduce, tt_result_pack, member}
use tdm.Frames.Packing.{reduce_lem}
use tdm.Hex.{hex_string}
use tdm.Session.{same}
use tdm.Config.{}
use tdm.Logs.{}
use tdm.Sock.{}
use tdm.Spm.Requests.{tt_frame, negated, bad_card_codes, failure_codes, code_reply, tt_reply}
use tdm.Spm.{
  Card, Act, connected, sent_to, received_from, disconnected, reported, wrote, logged,
  set_sim_cards_status,
}

-- The texts written to the device, in order.
abbrev pub texts_of : List Act → List (List ℕ)
texts_of [] = []
texts_of (connected fd ∷ acts) = texts_of acts
texts_of (sent_to fd bytes ∷ acts) = texts_of acts
texts_of (received_from fd ∷ acts) = texts_of acts
texts_of (disconnected fd ∷ acts) = texts_of acts
texts_of (reported imsi ∷ acts) = texts_of acts
texts_of (wrote text ∷ acts) = text ∷ texts_of acts
texts_of (logged text n ∷ acts) = texts_of acts

-- The answer to a request with the number `cnt`, for a reply of the card's server, with what is in the
-- buffer.
abbrev pub answer_text : ℕ → List ℕ → Option (List ℕ) → List ℕ
answer_text cnt bytes none = 0x93 ∷ 1 ∷ 0 ∷ cnt ∷ get_or bytes 4 0 ∷ []
answer_text cnt bytes (some []) = 0x93 ∷ 1 ∷ 0 ∷ cnt ∷ get_or bytes 4 0 ∷ []
answer_text cnt bytes (some (code ∷ [])) =
    if member code bad_card_codes
    then 0x93 ∷ 1 ∷ 0 ∷ cnt ∷ 0 ∷ []
    else if member code failure_codes
    then 0x93 ∷ 2 ∷ 0 ∷ cnt ∷ 0 ∷ 0 ∷ []
    else code ∷ []
answer_text cnt bytes (some (a ∷ b ∷ rest)) = 0x93 ∷ length (a ∷ b ∷ rest) ∷ 0 ∷ cnt ∷ a ∷ b ∷ rest

result_byte : (cnt : ℕ) → cnt < 256 → reduce cnt cnt % 256 ≡ cnt
result_byte cnt h = ap (λ k. k % 256) (reduce_lem cnt cnt (omega arith)) ∙ omega arith

-- What a buffer holds at its fifth byte.
fifth :
    (bytes : List ℕ)
    → take 1 (drop 4 (bytes ++ replicate (520 - length bytes) 0)) ≡ get_or bytes 4 0 ∷ []
fifth [] = refl
fifth (a ∷ []) = refl
fifth (a ∷ b ∷ []) = refl
fifth (a ∷ b ∷ c ∷ []) = refl
fifth (a ∷ b ∷ c ∷ d ∷ []) = refl
fifth (a ∷ b ∷ c ∷ d ∷ e ∷ rest) = refl

one_frame :
    (bytes : List ℕ) (cnt : ℕ)
    → cnt < 256
    → tt_frame none bytes 1 cnt ≡ wrote (0x93 ∷ 1 ∷ 0 ∷ cnt ∷ get_or bytes 4 0 ∷ [])
unfolding tt_frame tt_result_pack
one_frame bytes cnt h = rw (result_byte cnt h, fifth bytes) refl

two_frame :
    (code cnt : ℕ)
    → cnt < 256
    → tt_frame none (code ∷ []) 2 cnt ≡ wrote (0x93 ∷ 2 ∷ 0 ∷ cnt ∷ 0 ∷ 0 ∷ [])
unfolding tt_frame tt_result_pack
two_frame code cnt h = rw (result_byte cnt h) refl

long_frame :
    (bs : List ℕ) (cnt : ℕ)
    → cnt < 256
    → length bs < 256
    → tt_frame (some bs) [] (length bs) cnt ≡ wrote (0x93 ∷ length bs ∷ 0 ∷ cnt ∷ bs)
unfolding tt_frame tt_result_pack
long_frame bs cnt h hs =
    let n : length bs % 256 ≡ length bs = omega arith in
    let k : 4 + length bs ≡ suc (suc (suc (suc (length bs)))) = omega arith in
    let t = take-all bs (length bs) refl in rw (result_byte cnt h, n, k, t) (rw t refl)

pub texts_of-++ : (a b : List Act) → texts_of (a ++ b) ≡ texts_of a ++ texts_of b
texts_of-++ [] b = refl
texts_of-++ (connected fd ∷ a) b = texts_of-++ a b
texts_of-++ (sent_to fd bytes ∷ a) b = texts_of-++ a b
texts_of-++ (received_from fd ∷ a) b = texts_of-++ a b
texts_of-++ (disconnected fd ∷ a) b = texts_of-++ a b
texts_of-++ (reported imsi ∷ a) b = texts_of-++ a b
texts_of-++ (wrote text ∷ a) b = ap (λ r. text ∷ r) (texts_of-++ a b)
texts_of-++ (logged text n ∷ a) b = texts_of-++ a b

pub texts_of-report : (imsi : List ℕ) → texts_of (set_sim_cards_status imsi) ≡ []
texts_of-report imsi = elim (Bool-cases (same (take 18 imsi) (replicate 18 b'0'))) [
  | inl e ↦ rw e refl
  | inr e ↦ rw e refl
]

text_logged :
    (act : Act) (text shown : List ℕ) (n : ℤ)
    → act ≡ wrote text
    → texts_of (act ∷ logged shown n ∷ []) ≡ text ∷ []
text_logged act text shown n e = rw e refl

-- The reply says that the card is bad.
abbrev pub is_bad : Option (List ℕ) → Bool
is_bad none = false
is_bad (some []) = false
is_bad (some (code ∷ [])) = member code bad_card_codes
is_bad (some (a ∷ b ∷ rest)) = false

-- One text is written, the answer, and `Result` is 3 exactly after a reply that says that the card is
-- bad.
abbrev pub Answers : Card → List ℕ → Option (List ℕ) → Card × List Act → Type 0
Answers c bytes reply (d, acts) =
    (texts_of acts ≡ answer_text (get_or c.buff 0 0) bytes reply ∷ [])
    × (d.result ≡ (if is_bad reply then 3 else c.result))

code_reply-Answers :
    (c : Card) (bytes : List ℕ) (code : ℕ)
    → get_or c.buff 0 0 < 256
    → Answers c bytes (some (code ∷ [])) (code_reply c code)
code_reply-Answers c bytes code h = elim (Bool-cases (member code bad_card_codes)) [
  | inl e ↦ rw e (
    texts_of-++ (set_sim_cards_status c.s_imsi) _
        ∙ ap₂ (λ a b. a ++ b) (texts_of-report c.s_imsi)
            (text_logged _ _ [] (negated code) (one_frame (code ∷ []) (get_or c.buff 0 0) h)),
    refl,
  )
  | inr e ↦ elim (Bool-cases (member code failure_codes)) [
    | inl f ↦
        rw (e, f) (text_logged _ _ [] (negated code) (two_frame code (get_or c.buff 0 0) h), refl)
    | inr f ↦ rw (e, f) (refl, refl)
  ]
]

-- A reply whose text does not fit gives no answer.
abbrev pub IsReplied : Card → List ℕ → Option (List ℕ) → Option (Card × List Act) → Type 0
IsReplied c bytes reply (some r) = Answers c bytes reply r
IsReplied c bytes none none = ⊥
IsReplied c bytes (some reply) none = 80 ≤ length reply

pub tt_reply-IsReplied :
    (c : Card) (bytes : List ℕ) (reply : Option (List ℕ))
    → get_or c.buff 0 0 < 256
    → IsReplied c bytes reply (tt_reply c bytes reply)
tt_reply-IsReplied c bytes none h =
    (text_logged _ _ [] (pos 0) (one_frame bytes (get_or c.buff 0 0) h), refl)
tt_reply-IsReplied c bytes (some []) h =
    (text_logged _ _ [] (pos 0) (one_frame bytes (get_or c.buff 0 0) h), refl)
tt_reply-IsReplied c bytes (some (code ∷ [])) h = code_reply-Answers c bytes code h
tt_reply-IsReplied c bytes (some (x ∷ y ∷ rest)) h =
    elim (Bool-cases (leb (length (x ∷ y ∷ rest)) 79)) [
      | inl e ↦ rw e (
        text_logged _ _ (hex_string (x ∷ y ∷ rest)) (pos (length (x ∷ y ∷ rest)))
            (long_frame (x ∷ y ∷ rest) (get_or c.buff 0 0) h (ground arith)),
        refl,
      )
      | inr e ↦ rw e (ground arith)
    ]
