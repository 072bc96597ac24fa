-- ===== src/Frames/Web.antt =====
-- What a request of the web server does to a device.
use tdm.Base.{
  ℕ, ◌%◌, ◌<◌, ◌≡◌, refl, ◌⊎◌, inl, inr, Option, none, some, List, [], ◌∷◌, take-all, length, arith,
  Bool-cases,
}
use tdm.Base.Int.{ℤ, pos, negsuc, ◌≤ℤ◌, ◌<ℤ◌, ltb_ℤ}
use tdm.Frames.{
  pick_up_web_data, web_switch, client_web_manage, member, log_types, update_types, text_types,
  bare_types, tag_of, tagged, text_request, bare_request,
}

-- A frame of a device: a tag, the length of the data, two zeros, the data.
abbrev pub IsFrame : List ℕ → Type 0
IsFrame bs =
    (tag : ℕ) × ((payload : List ℕ) × ((bs ≡ tag ∷ length payload ∷ 0 ∷ 0 ∷ payload)
        × (length payload < 256)))

-- Nothing, or one frame.
abbrev pub AtMostOne : List (List ℕ) → Type 0
AtMostOne [] = Unit {0}
AtMostOne (bs ∷ []) = IsFrame bs
AtMostOne (bs ∷ cs ∷ rest) = ⊥

pick_up-IsFrame :
    (tag : ℕ) (bs : List ℕ)
    → length bs < 256
    → IsFrame (pick_up_web_data (tagged tag) (length bs) bs)
unfolding pick_up_web_data
pick_up-IsFrame tag bs h =
    let n : length bs % 256 ≡ length bs = omega arith in
    let t = take-all bs (length bs) refl in (tag, (bs, (rw (n, t) refl, h)))

bare-AtMostOne : (o : Option ℕ) → AtMostOne (bare_request o)
bare-AtMostOne none = tt
bare-AtMostOne (some tag) = pick_up-IsFrame tag [] (omega arith)

text-AtMostOne :
    (o : Option ℕ) (dst : List ℕ) (rest : List (List ℕ))
    → length dst < 256
    → AtMostOne rest
    → AtMostOne (text_request o dst rest)
text-AtMostOne none dst rest h a = a
text-AtMostOne (some tag) dst rest h a = pick_up-IsFrame tag dst h

web_switch-AtMostOne :
    (type num : ℕ) (dst : List ℕ) → length dst < 256 → AtMostOne (web_switch type num dst)
unfolding web_switch
web_switch-AtMostOne type num dst h = elim (Bool-cases (member type log_types)) [
  | inl e ↦ rw e (pick_up-IsFrame 0x41 (type ∷ num ∷ []) (omega arith))
  | inr e ↦ rw e (elim (Bool-cases (member type update_types)) [
    | inl f ↦ rw f (pick_up-IsFrame 0x8D (type ∷ num ∷ []) (omega arith))
    | inr f ↦
        rw f (
          text-AtMostOne (tag_of type text_types) dst _ h (bare-AtMostOne (tag_of type bare_types)))
  ])
]

-- `Client_Web_Manage`, for a text of fewer than 256 characters: when the device of the request has no
-- open socket it is told `faild`, nothing is written to a device, and -2 is returned; otherwise the
-- web server is told `ok`, 0 is returned, and at most one frame is written to the device, whole and
-- with the true length of its data.
pub client_web_manage-IsFrame :
    (fd : ℤ) (type num : ℕ) (dst : List ℕ)
    → length dst < 256
    → ((fd ≤ℤ pos 0)
        × (client_web_manage fd type num dst ≡ record {
          to_web = b'f' ∷ b'a' ∷ b'i' ∷ b'l' ∷ b'd' ∷ 10 ∷ [];
          to_device = [];
          ret = negsuc 1;
        }))
      ⊎ ((pos 0 <ℤ fd)
          × ((((client_web_manage fd type num dst).to_web ≡ b'o' ∷ b'k' ∷ 10 ∷ [])
                × ((client_web_manage fd type num dst).ret ≡ pos 0))
              × AtMostOne (client_web_manage fd type num dst).to_device))
unfolding client_web_manage
client_web_manage-IsFrame fd type num dst h = elim (Bool-cases (ltb_ℤ (pos 0) fd)) [
  | inl e ↦ inr (ground arith, rw e ((refl, refl), web_switch-AtMostOne type num dst h))
  | inr e ↦ inl (ground arith, rw e refl)
]
