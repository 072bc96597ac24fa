-- ===== src/Handlers/Confirm/Confirmed.antt =====
-- What a device that has reported its SIM card is sent.
use tdm.Base.{
  ℕ, ◌+◌, ◌%◌, ◌/◌, true, false, append-nil, ◌-◌, ◌<◌, ◌≤◌, ◌≡◌, ◌⊎◌, inl, inr, refl, ap, ◌∙◌,
  subst, sym, Bool, not, ◌||◌, Option, none, some, List, [], ◌∷◌, ◌++◌, ◌==◌, ltb, leb, take, drop,
  length, replicate, if◌then◌else◌, arith, Bool-cases, length-append, length-take, length-drop,
}
use tdm.Base.Int.{}
use tdm.Config.{◌>>=◌}
use tdm.Deal.{Deal}
use tdm.Deal.Answer.{}
use tdm.Deal.Keys.{}
use tdm.Frames.{blank_frame}
use tdm.Frames.Packing.{tt_result_pack-bytes}
use tdm.Hex.{}
use tdm.Receive.{copy}
use tdm.Session.{text_in}
use tdm.Text.{atoi}
use tdm.Handlers.Confirm.{
  Confirming, Bill, read_bill, asked, get_speed_str_from_socket, get_config_by_mcc, minutes_of,
  with_config, confirm_frame, takes_config, confirm_answer, dealt, coding_with_cfmd_socket,
  unsigned, identified, confirmed, confirmed_with, coding_with_cfmd,
}

-- The bytes of a frame with its own length.
abbrev pub cfmd_frame : List ℕ → List ℕ
cfmd_frame content = 0x85 ∷ length content ∷ 0 ∷ 0 ∷ content

confirm_frame_lem :
    (content : List ℕ) → length content < 256 → confirm_frame content ≡ cfmd_frame content
unfolding confirm_frame
confirm_frame_lem content h = (tt_result_pack-bytes content blank_frame 0x85 0 h (omega arith)).0

-- How many bytes follow the minutes, by the version of the device.
abbrev pub config_size : ℕ → ℕ
config_size version =
    if leb 1605041005 version then 44 else if leb 1601080936 version then 40 else 240

old_version : (version : ℕ) → leb 1605041005 version ≡ true → leb 1601080936 version ≡ true
old_version version e = ground arith

length-with_config :
    (version : ℕ) (c : Confirming) (config : List ℕ)
    → length config ≡ 40
    → length c.if_test ≡ 4
    → length (with_config version c config) ≡ 4 + config_size version
length-with_config version c config h t = elim (Bool-cases (leb 1605041005 version)) [
  | inl e ↦
      rw (e, old_version version e)
        (let n = length-append config (take 4 c.if_test) in
          let m = length-take 4 c.if_test in omega arith)
  | inr e ↦ elim (Bool-cases (leb 1601080936 version)) [
    | inl f ↦ rw (e, f) (let n = length-append config [] in omega arith)
    | inr f ↦ rw (e, f) (let n = length-append config (replicate 200 0 ++ []) in omega arith)
  ]
]

-- The content of the frame: the minutes alone, or with the configuration.
abbrev pub content_of : ℕ → ℕ → ℕ → Confirming → List ℕ → List ℕ
content_of version mcc state c config =
    if (c.deal.minite_remain == 0) || not (takes_config state mcc)
    then minutes_of c
    else with_config version c config

abbrev pub is_bare : ℕ → ℕ → Confirming → Bool
is_bare mcc state c = (c.deal.minite_remain == 0) || not (takes_config state mcc)

-- Nothing is told but the minutes when there are none, when the country is not known, and when the
-- device has not started to use the card, state 0, and does not go on with it, state 2.
abbrev pub tells_minutes_only : ℕ → ℕ → ℕ → Bool
tells_minutes_only minutes mcc state =
    if minutes == 0
    then true
    else if mcc == 0
    then true
    else if state == 0
    then false
    else if state == 2
    then false
    else true

-- The two bytes of a number, the lower one first.
abbrev pub two_bytes : ℕ → List ℕ
two_bytes n = n % 256 ∷ n / 256 % 256 ∷ []

-- What is told: the minutes and the threshold, and behind them the configuration with what the version
-- of the device expects there.
abbrev pub told : Bool → ℕ → Confirming → ℕ → List ℕ → List ℕ
told bare version c minutes config =
    two_bytes minutes
    ++ (two_bytes c.threshold
        ++ (if bare
            then []
            else if leb 1605041005 version
            then config ++ take 4 c.if_test
            else if leb 1601080936 version
            then config
            else config ++ replicate 200 0))

-- The session, and a frame whose length is that of its content.
abbrev pub IsConfirmed : Bill → Deal → Confirming → List ℕ → Confirming × List ℕ → Type 0
IsConfirmed b d c config (e, frame) =
    let version = unsigned (atoi b.bill_version) in
    let bare = tells_minutes_only d.minite_remain b.bill_mcc b.action in
    let content = told bare version c d.minite_remain config in
    ((frame ≡ cfmd_frame content)
      × (length content ≡ (if bare then 4 else 4 + config_size version)))
    × ((e.deal ≡ d)
        × ((e.state ≡ b.action)
            × (((b.action ≡ 0) ⊎ (b.action ≡ 2) → e.locale_flag ≡ 1) × (e.version ≡ version))))

is_bare_lem :
    (mcc state : ℕ) (c : Confirming)
    → is_bare mcc state c ≡ tells_minutes_only c.deal.minite_remain mcc state
is_bare_lem mcc state c = ground arith

with_config-told :
    (version : ℕ) (c : Confirming) (config : List ℕ)
    → with_config version c config ≡ told false version c c.deal.minite_remain config
with_config-told version c config = elim (Bool-cases (leb 1605041005 version)) [
  | inl e ↦ rw (e, old_version version e) refl
  | inr e ↦ elim (Bool-cases (leb 1601080936 version)) [
    | inl f ↦ rw (e, f, append-nil config) refl
    | inr f ↦ rw (e, f, append-nil (replicate {A = ℕ} 200 0)) refl
  ]
]

content_of-told :
    (version mcc state : ℕ) (c : Confirming) (config : List ℕ)
    → content_of version mcc state c config
      ≡ told
          (tells_minutes_only c.deal.minite_remain mcc state)
          version
          c
          c.deal.minite_remain
          config
content_of-told version mcc state c config =
    by_test (is_bare mcc state c) _ (is_bare_lem mcc state c)
  where
    by_test :
        (old new : Bool)
        → old ≡ new
        → (if old then minutes_of c else with_config version c config)
          ≡ told new version c c.deal.minite_remain config
    by_test true true e = refl
    by_test false false e = with_config-told version c config
    by_test true false e = absurd cc
    by_test false true e = absurd cc

length-content_of :
    (version mcc state : ℕ) (c : Confirming) (config : List ℕ)
    → length config ≡ 40
    → length c.if_test ≡ 4
    → length (content_of version mcc state c config)
      ≡ (if is_bare mcc state c then 4 else 4 + config_size version)
length-content_of version mcc state c config h t = elim (Bool-cases (is_bare mcc state c)) [
  | inl e ↦ rw e refl
  | inr e ↦ rw e (length-with_config version c config h t)
]

config_size_le : (version : ℕ) → config_size version ≤ 240
config_size_le version = ground arith

-- What follows `Deal_Proc`.
confirm_answer_lem :
    (version mcc state : ℕ) (answer : Option (List ℕ)) (c : Confirming) (speed config : List ℕ)
    → get_config_by_mcc answer c.speed_str ≡ some (speed, config)
    → length config ≡ 40
    → length c.if_test ≡ 4
    → (text : List ℕ) × (confirm_answer version mcc state answer c
        ≡ some (record c { speed_str = text }, cfmd_frame (content_of version mcc state c config)))
unfolding confirm_answer
confirm_answer_lem version mcc state answer c speed config given h t =
    let short : length (with_config version c config) < 256 =
      let n = length-with_config version c config h t in
      let k = config_size_le version in omega arith in
    elim (Bool-cases (is_bare mcc state c)) [
      | inl e ↦ (
        c.speed_str,
        rw e (ap (λ f. some (c, f)) (confirm_frame_lem (minutes_of c) (omega arith))),
      )
      | inr e ↦ (
        speed,
        rw e (
            rw given (
              ap (λ f. some (record c { speed_str = speed }, f))
                (confirm_frame_lem (with_config version c config) short))),
      )
    ]

length-copy : (xs : List ℕ) → length (copy (take 40 xs) (replicate 40 0)) ≡ 40
length-copy xs =
    let zeros : List ℕ = replicate 40 0 in
    let n = length-append (take 40 xs) (drop (length (take 40 xs)) zeros) in
    let m = length-take 40 xs in
    let k : length (drop (length (take 40 xs)) zeros) ≡ 40 - length (take 40 xs) =
      length-drop (length (take 40 xs)) zeros in
    omega arith

asked_config :
    (o : Option (List ℕ)) (speed config : List ℕ)
    → (o >>= λ text. some (asked text)) ≡ some (speed, config)
    → length config ≡ 40
asked_config none speed config given = absurd cc
asked_config (some text) speed config given =
    let e : replicate 40 0 ≡ config = cc in subst (λ x. length x ≡ 40) e refl

length-config :
    (answer : Option (List ℕ)) (old speed config : List ℕ)
    → get_config_by_mcc answer old ≡ some (speed, config)
    → length config ≡ 40
unfolding get_config_by_mcc
length-config answer old speed config given = elim (Bool-cases (ltb 5 (length (text_in old)))) [
  | inl e ↦
      let kept : get_config_by_mcc answer old ≡ some (old, copy (take 40 old) (replicate 40 0)) =
        rw e refl in
      let same : copy (take 40 old) (replicate 40 0) ≡ config = cc in
      subst (λ x. length x ≡ 40) same (length-copy old)
  | inr e ↦
      let is_asked : get_config_by_mcc answer old
          ≡ (get_speed_str_from_socket answer old >>= λ text. some (asked text)) =
        rw e refl in
      asked_config (get_speed_str_from_socket answer old) speed config (sym is_asked ∙ given)
]

confirmed-flag :
    (b : Bill) (c : Confirming) → (b.action ≡ 0) ⊎ (b.action ≡ 2) → (confirmed b c).locale_flag ≡ 1
confirmed-flag b c (inl e) = rw e refl
confirmed-flag b c (inr e) = rw e refl

-- When the report fits its structure and the texts that the pool gives fit theirs, `Coding_With_CFMD`
-- sends the device one frame whose length is that of its content, with the minutes that `Deal_Proc`
-- has found and the threshold in front, two bytes each; nothing follows them when the minutes or the
-- country are 0 or the state is neither 0 nor 2, and else the configuration, with 200 zeros for an old
-- version and with `ifTest` for the newest. The session keeps the minutes,
-- what the device does and its version, and that it has begun, when it has.
pub coding_with_cfmd-IsConfirmed :
    (len : ℕ) (buff : List ℕ) (of_deal of_speed : Option (List ℕ)) (c : Confirming) (b : Bill)
    (d : Deal) (speed config : List ℕ)
    → read_bill len buff ≡ some b
    → dealt b.bill_mcc of_deal c.deal ≡ some d
    → get_config_by_mcc of_speed c.speed_str ≡ some (speed, config)
    → length c.if_test ≡ 4
    → (r : Confirming × List ℕ) × ((coding_with_cfmd len buff (of_deal, of_speed) c ≡ some r)
        × IsConfirmed b d c config r)
unfolding coding_with_cfmd coding_with_cfmd_socket
coding_with_cfmd-IsConfirmed len buff of_deal of_speed c b d speed config is_bill is_deal given t =
    let version = unsigned (atoi b.bill_version) in
    let e = record (identified b c) { deal = d } in
    let h = length-config of_speed c.speed_str speed config given in
    let same = content_of-told version b.bill_mcc b.action e config in
    let (text, is) =
      confirm_answer_lem version b.bill_mcc b.action of_speed e speed config given h t in
    (
      confirmed_with b (
        record e { speed_str = text },
        cfmd_frame (content_of version b.bill_mcc b.action e config),
      ),
      (
        rw (is_bill, is_deal, is) refl,
        (
          (
            ap cfmd_frame same,
            ap length (sym same)
                ∙ length-content_of version b.bill_mcc b.action e config h t
                ∙ ap (λ bare. if bare then 4 else 4 + config_size version)
                    (is_bare_lem b.bill_mcc b.action e),
          ),
          (refl, (refl, (confirmed-flag b (record e { speed_str = text }), refl))),
        ),
      ),
    )
