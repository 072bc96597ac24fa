-- ===== src/Session/Vpn.antt =====
-- The VPN name that `Set_Device_SN_VPN` stores is the one `Get_VPN_From_SN_List` gives back.
use tdm.Base.{
  ℕ, zero, suc, ◌<◌, ◌≡◌, refl, sym, ap, ◌∙◌, subst, true, Option, none, some, List, [], ◌∷◌, ◌++◌,
  ltb, take, drop, length, replicate, get_elem?, set, arith, length-append,
}
use tdm.Base.Int.{pos}
use tdm.Session.{
  Session, get_data_list_by_sn, blank_session, find_or_add, write_vpn, write_session, write_found,
  set_device_sn_vpn, text_in, vpn_of, vpn_at, get_vpn_from_sn_list,
}
use tdm.Session.Lists.{unsome, place_of_found, get_elem?-set, get_elem?_added}
use tdm.Session.Table.{IsKeyed, IsSession, find_or_add-IsSession, rewritten-IsSession}
use tdm.Values.Search.{lacks}

-- The text that was in the array behind the first characters of a name.
abbrev pub remains : ℕ → List ℕ → List ℕ
remains n vpnc = text_in (drop n vpnc)

text_in-written :
    (vpn vpnc : List ℕ) → lacks 0 vpn ≡ true → text_in (vpn ++ vpnc) ≡ vpn ++ text_in vpnc
text_in-written [] vpnc h = refl
text_in-written (c ∷ cs) vpnc h = ground (arith, text_in-written cs vpnc)

vpn_of-written :
    (vpn : List ℕ) (s : Session)
    → lacks 0 vpn ≡ true
    → 10 < length vpn
    → vpn_of (some (write_vpn vpn 1 s)) ≡ some (vpn ++ remains (length vpn) s.vpnc)
vpn_of-written vpn s h p =
    let text : text_in (vpn ++ drop (length vpn) s.vpnc) ≡ vpn ++ remains (length vpn) s.vpnc =
      text_in-written vpn (drop (length vpn) s.vpnc) h in
    let long : ltb 10 (length (vpn ++ remains (length vpn) s.vpnc)) ≡ true =
      ground (arith, length-append vpn (remains (length vpn) s.vpnc)) in
    rw (text, long) refl

-- What the session of `sn` held behind the first `n` characters, nothing if there was none.
abbrev pub held : ℕ → Option Session → List ℕ
held n none = []
held n (some s) = remains n s.vpnc

abbrev pub held_at : List Session → ℕ → Option ℕ → List ℕ
held_at ss n none = []
held_at ss n (some i) = held n (get_elem? ss i)

zeros-held : (n m : ℕ) → text_in (drop n (replicate m 0)) ≡ []
zeros-held zero zero = refl
zeros-held zero (suc m) = refl
zeros-held (suc n) zero = refl
zeros-held (suc n) (suc m) = zeros-held n m

find_or_add-held :
    (ss : List Session) (sn : List ℕ) (o : Option ℕ) (i n : ℕ)
    → (find_or_add ss sn (pos 0) true o).1 ≡ some i
    → held n (get_elem? (find_or_add ss sn (pos 0) true o).0 i) ≡ held_at ss n o
find_or_add-held ss sn none i n e =
    let is_end : length ss ≡ i = unsome e in
    ap (λ j. held n (get_elem? (ss ++ blank_session sn (pos 0) ∷ []) j)) (sym is_end)
    ∙ ap (held n) (get_elem?_added ss (blank_session sn (pos 0)))
    ∙ zeros-held n 127
find_or_add-held ss sn (some j) i n e =
    let is_j : j ≡ i = unsome e in ap (λ k. held n (get_elem? ss k)) (sym is_j)

set_device_sn_vpn-open :
    (ss : List Session) (sn vpn : List ℕ)
    → length vpn < 127
    → set_device_sn_vpn ss sn vpn 1 true ≡ (
        let r = find_or_add ss sn (pos 0) true (get_data_list_by_sn ss sn) in
        some (write_found r.0 vpn 1 r.1))
unfolding set_device_sn_vpn
set_device_sn_vpn-open ss sn vpn h =
    let fits : ltb (length vpn) 127 ≡ true = ground arith in rw fits refl

get_vpn-open :
    (ss : List Session) (sn : List ℕ) (i : ℕ) (s : Session)
    → get_data_list_by_sn ss sn ≡ some i
    → get_elem? ss i ≡ some s
    → get_vpn_from_sn_list ss sn ≡ vpn_of (some s)
unfolding get_vpn_from_sn_list
get_vpn-open ss sn i s e f = ap (vpn_at ss) e ∙ ap vpn_of f

-- Writing the name in the session at `i`, and what is read afterwards.
write_session-IsSession :
    (old : List Session) (sn vpn : List ℕ) (ss : List Session) (i : ℕ) (s : Session)
    → lacks 0 vpn ≡ true
    → 10 < length vpn
    → IsSession old sn ss i
    → get_elem? ss i ≡ some s
    → IsSession old sn (write_session ss i vpn 1 (some s)) i
      × (get_vpn_from_sn_list (write_session ss i vpn 1 (some s)) sn
          ≡ some (vpn ++ held (length vpn) (some s)))
write_session-IsSession old sn vpn ss i s z p h at_i =
    let t = write_vpn vpn 1 s in
    let new = rewritten-IsSession old sn ss i s t h at_i refl in
    (
      new,
      get_vpn-open (set ss i t) sn i t new.1.0 (get_elem?-set ss i s t at_i)
          ∙ vpn_of-written vpn s z p,
    )

-- What `Set_Device_SN_VPN` leaves when it stores a name with flag 1 in the session at `i`.
abbrev pub IsStored : List Session → List ℕ → List ℕ → Option (List Session) → Type 0
IsStored old sn vpn r =
    (new : List Session) × (i : ℕ) × ((r ≡ some new)
      × (IsSession old sn new i
          × (get_vpn_from_sn_list new sn
              ≡ some (vpn ++ held_at old (length vpn) (get_data_list_by_sn old sn)))))

write_found-IsStored :
    (old : List Session) (sn vpn : List ℕ) (ss : List Session) (i : ℕ)
    → lacks 0 vpn ≡ true
    → 10 < length vpn
    → IsSession old sn ss i
    → held (length vpn) (get_elem? ss i) ≡ held_at old (length vpn) (get_data_list_by_sn old sn)
    → IsStored old sn vpn (some (write_found ss vpn 1 (some i)))
write_found-IsStored old sn vpn ss i z p (h, (here, others)) same_rest =
    let (s, (at_i, k)) = place_of_found ss (take 15 sn) i here in
    let (new, read) = write_session-IsSession old sn vpn ss i s z p (h, (here, others)) at_i in
    let rest : held (length vpn) (some s) ≡ held_at old (length vpn) (get_data_list_by_sn old sn) =
      ap (held (length vpn)) (sym at_i) ∙ same_rest in
    (
      write_session ss i vpn 1 (some s),
      i,
      (
        ap (λ o. some (write_session ss i vpn 1 o)) at_i,
        (new, read ∙ ap (λ r. some (vpn ++ r)) rest),
      ),
    )

-- If each session is the one found under its own serial number, and a VPN name has more than 10 and
-- fewer than 127 characters, then `Set_Device_SN_VPN` with flag 1, when memory is given, stores it in
-- the session found under the serial number afterwards, each session is still the one found under its
-- own number, the other sessions are unchanged, and `Get_VPN_From_SN_List` then gives the name
-- followed by what the session held behind that many characters of a longer name.
pub set_device_sn_vpn-IsStored :
    (ss : List Session) (sn vpn : List ℕ)
    → IsKeyed ss
    → lacks 0 vpn ≡ true
    → 10 < length vpn
    → length vpn < 127
    → IsStored ss sn vpn (set_device_sn_vpn ss sn vpn 1 true)
set_device_sn_vpn-IsStored ss sn vpn h z p q =
    let o = get_data_list_by_sn ss sn in
    let new = (find_or_add ss sn (pos 0) true o).0 in
    let (i, (at_i, made)) = find_or_add-IsSession ss sn (pos 0) o h refl in
    subst (IsStored ss sn vpn) (sym (set_device_sn_vpn-open ss sn vpn q)) (
      subst (λ x. IsStored ss sn vpn (some (write_found new vpn 1 x))) (sym at_i)
        (write_found-IsStored ss sn vpn new i z p made
          (find_or_add-held ss sn o i (length vpn) at_i)))
