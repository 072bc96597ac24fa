-- ===== src/Receive/Sessions.antt =====
-- The frames that go on to the device's session: `Coding_With_Out_Sql` with the three functions it
-- calls, and what `Coding_With_Local_Socket` writes, of src/TDM.c.
use tdm.Base.{
  ℕ, ◌%◌, ◌<◌, ◌≤◌, ◌≡◌, ◌⊎◌, refl, not, ◌&&◌, Option, none, some, List, [], ◌∷◌, ◌==◌, ltb, take,
  drop, length, get_or, arith, take-all, if◌then◌else◌, Bool-cases, inl, inr,
}
use tdm.Base.Int.{}
use tdm.Frames.{pick_up_web_data, tagged}
use tdm.Receive.{number_at, header_only}

-- The texts of `imsi_info`: `Vusim_Active_Num`, `APN`, `Selnet`.
pub record CardTexts : Type 0 where
  pub active_num : List ℕ
  pub apn : List ℕ
  pub selnet : List ℕ

-- What `Coding_With_ADN`, `Coding_With_APN` and `Coding_with_Selnet` write.
abbrev pub text_reply : ℕ → List ℕ → List ℕ
text_reply tag text = tag ∷ length text % 256 ∷ 0 ∷ 0 ∷ take (length text % 256) text

-- `Coding_With_Out_Sql`: what is written; `none` when there is no session.
unfoldable pub coding_with_out_sql : Option CardTexts → ℕ → List (List ℕ)
coding_with_out_sql none tag = []
coding_with_out_sql (some c) tag =
    if tag == 0x9E
    then text_reply 0x9E c.selnet ∷ []
    else if tag == 0x8A
    then text_reply 0x8A c.apn ∷ []
    else if tag == 0x86
    then text_reply 0x86 c.active_num ∷ []
    else []

-- `while(cnt > 255) cnt = cnt - 256;` and the byte stored; a number from 2 ^ 31 on is negative as an
-- `int` and is only cut to its last byte.
abbrev pub flow_byte : ℕ → ℕ
flow_byte n = n % 256

-- `Upload_Flow_Id` at byte 12 and `Battery` at byte 29 of `Vsim_UpLoad_Flow`.
abbrev pub flow_id : List ℕ → ℕ
flow_id bytes = number_at 4 (drop 12 bytes)

abbrev pub battery : List ℕ → ℕ
battery bytes = get_or bytes 29 0

abbrev pub shutdown_frames : ℕ → List (List ℕ)
shutdown_frames b = if ltb b 3 && not (b == 0) then pick_up_web_data (tagged 0xA0) 0 [] ∷ [] else []

-- The frames `Coding_With_Local_Socket` writes, for the data in its buffer.
unfoldable pub coding_with_local_socket : List ℕ → List (List ℕ)
coding_with_local_socket bytes =
    header_only 0x97 (flow_byte (flow_id bytes)) ∷ shutdown_frames (battery bytes)

-- One frame, with the tag.
abbrev pub IsOne : ℕ → List ℕ → List (List ℕ) → Type 0
IsOne tag text fs = fs ≡ (tag ∷ length text ∷ 0 ∷ 0 ∷ text) ∷ []

whole : (tag : ℕ) (text : List ℕ) → length text < 256 → IsOne tag text (text_reply tag text ∷ [])
whole tag text h =
    let n : length text % 256 ≡ length text = omega arith in
    rw (n, take-all text (length text) refl) refl

-- For a session whose texts have fewer than 256 characters, each of the three requests is answered
-- with one frame, of its own tag, which holds the whole text asked for and its length; a report of
-- the traffic is answered with the last byte of its number, and a device with a battery of 1 or 2 is
-- shut down by a second frame and no other is.
pub sessions-answered :
    (c : CardTexts) (bytes : List ℕ)
    → length c.selnet < 256
    → length c.apn < 256
    → length c.active_num < 256
    → (IsOne 0x9E c.selnet (coding_with_out_sql (some c) 0x9E)
        × (IsOne 0x8A c.apn (coding_with_out_sql (some c) 0x8A)
            × IsOne 0x86 c.active_num (coding_with_out_sql (some c) 0x86)))
      × (((1 ≤ battery bytes)
            × (battery bytes ≤ 2)
            × (coding_with_local_socket bytes
                ≡ (0x97 ∷ 0 ∷ 0 ∷ flow_id bytes % 256 ∷ []) ∷ (0xA0 ∷ 0 ∷ 0 ∷ 0 ∷ []) ∷ []))
          ⊎ (((battery bytes ≡ 0) ⊎ (3 ≤ battery bytes))
              × (coding_with_local_socket bytes ≡ (0x97 ∷ 0 ∷ 0 ∷ flow_id bytes % 256 ∷ []) ∷ [])))
unfolding coding_with_out_sql coding_with_local_socket pick_up_web_data
sessions-answered c bytes hs ha hn = (
  (whole 0x9E c.selnet hs, (whole 0x8A c.apn ha, whole 0x86 c.active_num hn)),
  elim (Bool-cases (ltb (battery bytes) 3 && not (battery bytes == 0))) [
    | inl e ↦ inl (ground arith, ground arith, rw e refl)
    | inr e ↦ inr (ground arith, rw e refl)
  ],
)
