-- ===== src/Session/Table.antt =====
-- One session for each serial number.
use tdm.Base.{
  ℕ, ◌≡◌, ◌≢◌, ◌⊎◌, refl, sym, ap, ◌∙◌, Bool, true, false, Option, none, some, List, [], ◌∷◌, ◌++◌,
  ◌==◌, take, length, get_elem?, set, arith, subst, Bool-cases, inl, inr, if◌then◌else◌,
}
use tdm.Base.Int.{ℤ, pos, negsuc, ltb_ℤ}
use tdm.Session.{
  Session, place_of, get_data_list_by_sn, blank_session, Got, close_socket_fd, with_socket_closed,
  release_socket, find_or_add, is_valid_sn, get_node_by_sn,
}
use tdm.Session.Lists.{
  same_refl, unsome, place_of-add, place_of_added, place_of_found, place_of-set, get_elem?-set,
  get_elem?-set_other, get_elem?-add, get_elem?-add_cases, get_elem?_added, get_elem?-length,
}

-- Each session is the one found under its own serial number.
abbrev pub IsKeyed : List Session → Type 0
IsKeyed ss = (i : ℕ) (s : Session) → get_elem? ss i ≡ some s → place_of ss s.sn ≡ some i

added-IsKeyed :
    (ss : List Session) (t : Session)
    → IsKeyed ss
    → place_of ss t.sn ≡ none
    → IsKeyed (ss ++ t ∷ [])
added-IsKeyed ss t h n i s e = elim (get_elem?-add_cases ss t s i e) [
  | inl old ↦ place_of-add ss s.sn i t (h i s old)
  | inr (at_end, is_t) ↦ rw (is_t, at_end) (place_of_added ss t.sn t n (same_refl t.sn))
]

eq_or_ne : (j i : ℕ) → (j ≡ i) ⊎ (j ≢ i)
eq_or_ne j i = elim (Bool-cases (j == i)) [
  | inl e ↦ inl (ground (arith))
  | inr e ↦ inr (λ f. ground (arith))
]

set-IsKeyed :
    (ss : List Session) (i : ℕ) (s t : Session)
    → IsKeyed ss
    → get_elem? ss i ≡ some s
    → t.sn ≡ s.sn
    → IsKeyed (set ss i t)
set-IsKeyed ss i s t h at_i e j m f = elim (eq_or_ne j i) [
  | inl here ↦
      let is_t : t ≡ m =
        unsome (sym (get_elem?-set ss i s t at_i) ∙ ap (get_elem? (set ss i t)) (sym here) ∙ f) in
      place_of-set ss m.sn i s t at_i e
      ∙ ap (place_of ss) (ap Session.sn (sym is_t) ∙ e)
      ∙ h i s at_i
      ∙ ap some (sym here)
  | inr there ↦
      place_of-set ss m.sn i s t at_i e ∙ h j m (sym (get_elem?-set_other ss i j t there) ∙ f)
]

-- `new` has the session of `sn` at `i`, and otherwise the sessions of `old` where they were.
abbrev pub IsSession : List Session → List ℕ → List Session → ℕ → Type 0
IsSession old sn new i =
    IsKeyed new
    × ((get_data_list_by_sn new sn ≡ some i)
        × ((j : ℕ) (s : Session) → j ≢ i → get_elem? old j ≡ some s → get_elem? new j ≡ some s))

-- The socket that the session held, if any: a number that is not above 0 is none.
abbrev pub held_spm : Option Session → List ℤ
held_spm none = []
held_spm (some s) = if ltb_ℤ (pos 0) s.socket_spm then s.socket_spm ∷ [] else []

-- A new session holds no socket to the pool.
find_or_add-held :
    (ss : List Session) (sn : List ℕ) (o : Option ℕ) (i : ℕ)
    → (find_or_add ss sn (negsuc 0) true o).1 ≡ some i
    → place_of ss (take 15 sn) ≡ o
    → held_spm (get_elem? (find_or_add ss sn (negsuc 0) true o).0 i) ≡ held_spm (get_elem? ss i)
find_or_add-held ss sn none i h e =
    let at_end : length ss ≡ i = unsome h in
    subst
      (λ k.
        held_spm (get_elem? (ss ++ blank_session sn (negsuc 0) ∷ []) k) ≡ held_spm (get_elem? ss k))
      at_end
      (ap held_spm (get_elem?_added ss (blank_session sn (negsuc 0)))
        ∙ sym (ap held_spm (get_elem?-length ss)))
find_or_add-held ss sn (some j) i h e = refl

pub find_or_add-IsSession :
    (ss : List Session) (sn : List ℕ) (socket : ℤ) (o : Option ℕ)
    → IsKeyed ss
    → place_of ss (take 15 sn) ≡ o
    → (i : ℕ) × (((find_or_add ss sn socket true o).1 ≡ some i)
        × IsSession ss sn (find_or_add ss sn socket true o).0 i)
find_or_add-IsSession ss sn socket none h e =
    let t = blank_session sn socket in
    (
      length ss,
      (
        refl,
        (
          added-IsKeyed ss t h e,
          (
            place_of_added ss (take 15 sn) t e (same_refl (take 15 sn)),
            λ j s ne at_j. get_elem?-add ss t s j at_j,
          ),
        ),
      ),
    )
find_or_add-IsSession ss sn socket (some i) h e = (i, (refl, (h, (e, λ j s ne at_j. at_j))))

-- The session of `sn` may be rewritten, all but its serial number.
pub rewritten-IsSession :
    (old : List Session) (sn : List ℕ) (ss : List Session) (i : ℕ) (s t : Session)
    → IsSession old sn ss i
    → get_elem? ss i ≡ some s
    → t.sn ≡ s.sn
    → IsSession old sn (set ss i t) i
rewritten-IsSession old sn ss i s t (h, (here, others)) at_i e = (
  set-IsKeyed ss i s t h at_i e,
  (
    place_of-set ss (take 15 sn) i s t at_i e ∙ here,
    λ j m ne at_j. get_elem?-set_other ss i j t ne ∙ others j m ne at_j,
  ),
)

-- The socket that the session at `i` held before is closed, and no other, and it holds none.
abbrev pub IsReleased : List Session → Got → ℕ → Type 0
IsReleased old r i =
    (r.closed ≡ held_spm (get_elem? old i))
    × ((s : Session) → get_elem? r.sessions i ≡ some s → ltb_ℤ (pos 0) s.socket_spm ≡ false)

close_socket_fd-closed : (fd : ℤ) → ltb_ℤ (pos 0) (close_socket_fd fd).0 ≡ false
close_socket_fd-closed fd = elim (Bool-cases (ltb_ℤ (pos 0) fd)) [
  | inl e ↦ rw e refl
  | inr e ↦ rw e e
]

close_socket_fd-held :
    (fd : ℤ) → (close_socket_fd fd).1 ≡ (if ltb_ℤ (pos 0) fd then fd ∷ [] else [])
close_socket_fd-held fd = elim (Bool-cases (ltb_ℤ (pos 0) fd)) [
  | inl e ↦ rw e refl
  | inr e ↦ rw e refl
]

with_socket_closed-IsSession :
    (old : List Session) (sn : List ℕ) (ss : List Session) (i : ℕ) (s : Session)
    → IsSession old sn ss i
    → get_elem? ss i ≡ some s
    → IsSession old sn (with_socket_closed ss i (some s)).sessions i
      × IsReleased ss (with_socket_closed ss i (some s)) i
with_socket_closed-IsSession old sn ss i s h at_i =
    let t = record s { socket_spm = (close_socket_fd s.socket_spm).0 } in
    (
      rewritten-IsSession old sn ss i s t h at_i refl,
      (
        close_socket_fd-held s.socket_spm ∙ sym (ap held_spm at_i),
        λ m e.
            let is_t : t ≡ m = unsome (sym (get_elem?-set ss i s t at_i) ∙ e) in
            rw (sym is_t) (close_socket_fd-closed s.socket_spm),
      ),
    )

-- What `Get_Node_By_SN` promises when it returns the session at `i`.
abbrev pub IsGot : List Session → List ℕ → Got → ℕ → Type 0
IsGot old sn r i = (r.node ≡ some i) × (IsSession old sn r.sessions i × IsReleased old r i)

release_socket-IsGot :
    (old : List Session) (sn : List ℕ) (ss : List Session) (i : ℕ)
    → IsSession old sn ss i
    → held_spm (get_elem? ss i) ≡ held_spm (get_elem? old i)
    → IsGot old sn (release_socket ss (some i)) i
release_socket-IsGot old sn ss i (h, (here, others)) same_held =
    let (s, (at_i, k)) = place_of_found ss (take 15 sn) i here in
    let (session, (closes, none_left)) =
      with_socket_closed-IsSession old sn ss i s (h, (here, others)) at_i in
    subst (λ o. IsGot old sn (with_socket_closed ss i o) i) (sym at_i)
      (refl, (session, (closes ∙ same_held, none_left)))

get_node_by_sn-open :
    (ss : List Session) (sn : List ℕ) (allocated : Bool)
    → is_valid_sn sn ≡ true
    → get_node_by_sn ss sn allocated ≡ (
        let r = find_or_add ss sn (negsuc 0) allocated (get_data_list_by_sn ss sn) in
        release_socket r.0 r.1)
unfolding get_node_by_sn
get_node_by_sn-open ss sn allocated v = rw v refl

-- If each session is the one found under its own serial number, `Get_Node_By_SN` of a valid serial
-- number, when memory is given, returns the session found under it afterwards; it closes the socket to
-- the pool that this session held, if its number is above 0, and no other, and the session holds none
-- then; each session is still the one found under its own number, and the other sessions are
-- unchanged.
pub get_node_by_sn-IsGot :
    (ss : List Session) (sn : List ℕ)
    → IsKeyed ss
    → is_valid_sn sn ≡ true
    → (i : ℕ) × IsGot ss sn (get_node_by_sn ss sn true) i
get_node_by_sn-IsGot ss sn h v =
    let o = get_data_list_by_sn ss sn in
    let (i, (at_i, made)) = find_or_add-IsSession ss sn (negsuc 0) o h refl in
    let new = (find_or_add ss sn (negsuc 0) true o).0 in
    (
      i,
      subst (λ r. IsGot ss sn r i) (sym (get_node_by_sn-open ss sn true v))
          (subst (λ x. IsGot ss sn (release_socket new x) i) (sym at_i)
            (release_socket-IsGot ss sn new i made (find_or_add-held ss sn o i at_i refl))),
    )
