-- ===== src/Receive/Answers.antt =====
-- Which command a frame of a device becomes, and what the device is answered at once.
use tdm.Base.{
  ℕ, ◌-◌, ◌<◌, ◌≤◌, ◌≡◌, ◌≢◌, refl, sym, subst, Bool, true, false, not, ◌&&◌, Option, none, some,
  List, [], ◌∷◌, ◌==◌, leb, take, drop, length, arith, if◌then◌else◌, Bool-cases, inl, inr,
}
use tdm.Frames.{cmd_test, pick_up_web_data, tagged, member, device_tags}
use tdm.Session.{is_valid_sn, text_in}
use tdm.Values.{strstr}
use tdm.Receive.{
  RecvFrame, Para, copy, with_sn, pack_para, coding_with_cmd_data_pack, coding_with_hb_socket,
  coding_with_new_hb_socket, coding_with_frame_data, tt_para, coding_with_tt_data, Reception,
  closed, web, unknown, taken, other, overrun, by_tag, received_tag, frame_in, frame_or_web,
  coding_with_recv_data,
}

-- The commands that are dropped when the serial number is not valid: `TAG_HB` and those of
-- `Coding_With_CMD_Data_Pack`.
abbrev pub needs_sn : List ℕ
needs_sn = 0x84 ∷ 0xA5 ∷ 0xA6 ∷ 0xB0 ∷ 0x9F ∷ 0x9C ∷ 0x85 ∷ []

-- The commands that go on to the device's session: `TAG_LOCAL_STA`, `TAG_AUTONET`,
-- `TAG_GET_APN_INFO`, `TAG_ADN`.
abbrev pub session_tags : List ℕ
session_tags = 0x87 ∷ 0x9E ∷ 0x8A ∷ 0x86 ∷ []

-- The frames a device is answered at once, by its command and whether its number is valid.
abbrev pub answer_to : ℕ → Bool → List (List ℕ)
answer_to tag valid =
    if tag == 0x84
    then (0x94 ∷ 0 ∷ 0 ∷ 0 ∷ []) ∷ []
    else if tag == 0x8B
    then (0x9B ∷ 0 ∷ 0 ∷ 0 ∷ []) ∷ []
    else if tag == 0xA6
    then (0xA6 ∷ 0 ∷ 0 ∷ 1 ∷ []) ∷ []
    else if tag == 0x9C
    then (0x9C ∷ 0 ∷ 0 ∷ 0 ∷ []) ∷ []
    else if (tag == 0x83) && not valid
    then (0x09 ∷ 0 ∷ 0 ∷ 0 ∷ []) ∷ []
    else []

-- The command that is left.
abbrev pub command_of : ℕ → Bool → Option ℕ
command_of tag valid = if member tag needs_sn && not valid then none else some tag

-- Where the 15 bytes of the serial number are in the data of a frame, if they are there.
abbrev pub sn_place : ℕ → Option ℕ
sn_place tag =
    if tag == 0x84
    then some 9
    else if member tag (0xA5 ∷ 0xA6 ∷ 0x9F ∷ 0x9C ∷ 0x85 ∷ [])
    then some 0
    else none

abbrev pub IsFrom : Option ℕ → List ℕ → List ℕ → List ℕ → Type 0
IsFrom none bytes old sn = sn ≡ sn
IsFrom (some at) bytes old sn = sn ≡ copy (take 15 (drop at bytes)) old

-- What is promised of a frame of the command `tag`.
abbrev pub IsAnswered : ℕ → RecvFrame → Para → Reception → Type 0
IsAnswered tag r p (taken t) =
    ((t.tag ≡ command_of tag (is_valid_sn t.para.sn))
      × (t.writes ≡ answer_to tag (is_valid_sn t.para.sn)))
    × IsFrom (sn_place tag) r.frame_data p.sn t.para.sn
IsAnswered tag r p (other t q) = (t ≡ tag) × (member tag session_tags ≡ true)
IsAnswered tag r p unknown = tag ≢ tag
IsAnswered tag r p closed = tag ≢ tag
IsAnswered tag r p (web text) = tag ≢ tag
IsAnswered tag r p overrun = tag ≢ tag

AllOf : (ℕ → Type 0) → List ℕ → Type 0
AllOf P [] = 0 ≤ 0
AllOf P (x ∷ xs) = P x × AllOf P xs

-- A property of each tag of a list.
of_member : (P : ℕ → Type 0) (xs : List ℕ) (x : ℕ) → AllOf P xs → member x xs ≡ true → P x
unfolding AllOf
of_member P [] x h e = absurd cc
of_member P (y ∷ ys) x (h, hs) e = elim (Bool-cases (x == y)) [
  | inl same ↦ let is : x ≡ y = ground arith in subst P (sym is) h
  | inr differs ↦ of_member P ys x hs (ground arith)
]

kept :
    (valid : Bool) (tag : ℕ)
    → (if valid then some tag else none) ≡ (if not valid then none else some tag)
kept true tag = refl
kept false tag = refl

swap_frame :
    (valid : Bool)
    → (if valid then [] else pick_up_web_data (tagged 0x09) 0 [] ∷ []) ≡ answer_to 0x83 valid
unfolding pick_up_web_data
swap_frame true = refl
swap_frame false = refl

-- The frames of each command, in the order of `device_tags`.
by_tag-IsAnswered :
    (r : RecvFrame) (temp : List ℕ) (p : Para)
    → AllOf (λ tag. IsAnswered tag r p (by_tag r temp p tag)) device_tags
unfolding AllOf coding_with_cmd_data_pack coding_with_hb_socket coding_with_new_hb_socket
    coding_with_frame_data coding_with_tt_data
by_tag-IsAnswered r temp p =
    let q = pack_para 0xA5 r (record p { num = r.frame_size }) in
    let d = pack_para 0xB0 r (record p { num = r.frame_size }) in
    let h = with_sn 15 (drop 9 r.frame_data) p in
    let t = record p { imsi = take 9 r.frame_data } in
    let new = copy (take p.num (drop 9 r.frame_data)) temp in
    let v = is_valid_sn q.sn in
    (
      ((refl, refl), refl),
      (
        ((refl, refl), refl),
        (
          ((refl, swap_frame (is_valid_sn (tt_para r new t).sn)), refl),
          (
            ((refl, refl), refl),
            (
              ((kept v 0xA5, refl), refl),
              (
                ((kept v 0xA6, refl), refl),
                (
                  ((kept (is_valid_sn d.sn) 0xB0, refl), refl),
                  (
                    ((kept v 0x9F, refl), refl),
                    (
                      ((kept v 0x9C, refl), refl),
                      (
                        ((kept v 0x85, refl), refl),
                        (
                          (refl, refl),
                          (
                            ((kept (is_valid_sn h.sn) 0x84, refl), refl),
                            (
                              (refl, refl),
                              ((refl, refl), ((refl, refl), (((refl, refl), refl), omega arith))),
                            ),
                          ),
                        ),
                      ),
                    ),
                  ),
                ),
              ),
            ),
          ),
        ),
      ),
    )

not_zero : (tag : ℕ) → member tag device_tags ≡ true → leb tag 0 ≡ false
unfolding AllOf
not_zero tag m = of_member (λ x. leb x 0 ≡ false) device_tags tag positive m
  where
    positive : AllOf (λ x. leb x 0 ≡ false) device_tags
    positive =
        let four : AllOf (λ x. leb x 0 ≡ false) (0x9E ∷ 0x8A ∷ 0x86 ∷ 0x02 ∷ []) =
          (refl, (refl, (refl, (refl, omega arith)))) in
        let eight : AllOf (λ x. leb x 0 ≡ false)
            (0x9C ∷ 0x85 ∷ 0x87 ∷ 0x84 ∷ 0x9E ∷ 0x8A ∷ 0x86 ∷ 0x02 ∷ []) =
          (refl, (refl, (refl, (refl, four)))) in
        (refl, (refl, (refl, (refl, (refl, (refl, (refl, (refl, eight))))))))

passes :
    (a b : Bool) (tag : ℕ)
    → a ≡ false
    → b ≡ true
    → (if a then none else if b then some tag else none) ≡ some tag
passes true b tag e f = absurd cc
passes false true tag e f = refl
passes false false tag e f = absurd cc

cmd_test-device : (tag : ℕ) → member tag device_tags ≡ true → cmd_test tag ≡ some tag
unfolding cmd_test
cmd_test-device tag m = passes (leb tag 0) (member tag device_tags) tag (not_zero tag m) m

-- On at most 256 bytes without the text `sn`, which begin with the tag of a command of a device, the
-- server answers at once with the frame for that command, if it has one; a heartbeat and the commands
-- packed for a thread are dropped exactly when the serial number is not valid, which for those with
-- their number as text is the one in the frame, and each other command is kept or goes on to the
-- session.
pub coding_with_recv_data-IsAnswered :
    (front : List ℕ) (tag : ℕ) (bytes : List ℕ) (p : Para)
    → length bytes < 256
    → strstr (text_in (tag ∷ bytes)) (b's' ∷ b'n' ∷ []) ≡ none
    → member tag device_tags ≡ true
    → IsAnswered tag (frame_in front (tag ∷ bytes)) p (coding_with_recv_data front (tag ∷ bytes) p)
unfolding coding_with_recv_data
coding_with_recv_data-IsAnswered front tag bytes p h n m =
    let fits : leb (length (tag ∷ bytes)) 256 ≡ true = ground arith in
    let r = frame_in front (tag ∷ bytes) in
    let q = record p { num = r.frame_size - 9 } in
    rw fits (
      subst (λ o. IsAnswered tag r p (frame_or_web front (tag ∷ bytes) p o)) (sym n)
        (subst (λ o. IsAnswered tag r p (received_tag r (tag ∷ bytes) p o))
          (sym (cmd_test-device tag m))
          (of_member (λ x. IsAnswered x r q (by_tag r (tag ∷ bytes) q x)) device_tags tag
            (by_tag-IsAnswered r (tag ∷ bytes) q) m)))
