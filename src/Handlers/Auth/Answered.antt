-- ===== src/Handlers/Auth/Answered.antt =====
-- What a device that asks for a SIM card is sent.
use tdm.Base.{
  ℕ, ◌%◌, ◌≡◌, ◌⊎◌, true, false, Option, none, some, List, [], ◌∷◌, length, if◌then◌else◌,
}
use tdm.Base.Int.{ℤ, pos, eqb_ℤ, ltb_ℤ}
use tdm.Access.{result_bytes, set_data_ip}
use tdm.Config.{◌>>=◌}
use tdm.Deal.Answer.{Info}
use tdm.Deal.Remote.{with_address, ip_changed}
use tdm.Deal.Keys.{test_ip}
use tdm.Frames.{SendFrame, member}
use tdm.Refusal.{Allocation, sim_allocate_err}
use tdm.Handlers.Auth.{written}

-- What holds of a result, if there is one.
abbrev pub IfSome : {A : Type 0} → (A → Type 0) → Option A → Type 0
IfSome P none = Unit {0}
IfSome P (some a) = P a

-- The errors that a device may be told: `OutOfService`, `NoSimUsable`, `IpChange`, `LowPower`.
abbrev pub told_codes : List ℕ
told_codes = 3 ∷ 4 ∷ 6 ∷ 7 ∷ []

abbrev pub IsFailure : Allocation → Type 0
IsFailure a = (code : ℕ) × ((member code told_codes ≡ true) × (a.result ≡ pos code))

-- A card, or an error.
abbrev pub IsDecided : Info × ℤ → Type 0
IsDecided (d, n) = (d.allocation.result ≡ pos 0) ⊎ IsFailure d.allocation

abbrev pub IsClear : Info × ℤ → Type 0
IsClear (d, n) = d.allocation.result ≡ pos 0

-- An error that is recorded.
abbrev pub failed : Allocation → ℕ → List ℕ → Allocation × (ℤ × List ℕ)
failed a code text = ((sim_allocate_err code a).0, ((sim_allocate_err code a).1, text))

-- The two frames for a device: with a card, all of the 36 bytes of its data; or with an error, and
-- behind it the address of a server when the device has to go to it.
abbrev pub address_of : Allocation → List ℕ
address_of a = if eqb_ℤ (pos 1) a.factory_flag then a.server_info else []

abbrev pub IsAuthorized : ℕ → Info → List ℕ → Type 0
IsAuthorized threshold d text =
    ((d.allocation.result ≡ pos 0)
      × ((ip : List ℕ) × ((set_data_ip d.ip ≡ some ip)
            × ((text ≡ 0x91 ∷ 36 ∷ 0 ∷ 0x31 ∷ result_bytes d threshold ip) × (length text ≡ 40)))))
    ⊎ ((code : ℕ) × ((member code told_codes ≡ true)
          × ((d.allocation.result ≡ pos code)
              × (text ≡ 0x91 ∷ 1 ∷ 0 ∷ 0x32 ∷ code ∷ address_of d.allocation))))

abbrev pub IsAuthAnswered : ℕ → Info × List (List ℕ) → Type 0
IsAuthAnswered threshold (d, texts) =
    (text : List ℕ) × ((texts ≡ text ∷ []) × IsAuthorized threshold d text)

-- A code that is a byte and not `SockErr`.
abbrev pub IsPlain : ℕ → Type 0
IsPlain code =
    (eqb_ℤ (pos code) (pos 8) ≡ false) × ((code % 256 ≡ code) × (ltb_ℤ (pos 0) (pos code) ≡ true))

-- An answer, or no answer in a given case.
abbrev pub IsAnsweredOr : Type 0 → ℕ → Option (Info × List (List ℕ)) → Type 0
IsAnsweredOr P threshold none = P
IsAnsweredOr P threshold (some r) = IsAuthAnswered threshold r

-- The frame that is packed, and the answer with it.
abbrev answer_with : Info → Option (SendFrame × ℕ) → Option (Info × List (List ℕ))
answer_with d o = o >>= λ f. some (d, written f ∷ [])

abbrev pub sent_home : Info → Info × ℤ
sent_home d =
    ip_changed (
      with_address test_ip (record d { allocation = record d.allocation { factory_flag = pos 1 } }))

abbrev result_of : Option (Info × ℤ) → ℤ
result_of none = pos 0
result_of (some r) = r.0.allocation.result
