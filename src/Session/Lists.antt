-- ===== src/Session/Lists.antt =====
-- Positions in the list of sessions: found again after a session is added or rewritten.
use tdm.Base.{
  ℕ, zero, suc, ◌≡◌, ◌≢◌, ◌⊎◌, refl, sym, ap, ◌∙◌, true, false, Option, none, some, List, [], ◌∷◌,
  ◌++◌, length, get_elem?, set, arith, if◌then◌else◌, Bool-cases, inl, inr,
}
use tdm.Session.{Session, same, next, place_of}

pub same_refl : (xs : List ℕ) → same xs xs ≡ true
same_refl [] = refl
same_refl (x ∷ xs) = ground (arith, same_refl xs)

pub unsome {ℓ} : {A : Type ℓ} {a b : A} → some a ≡ some b → a ≡ b
unsome {a} {b} e = ap (λ o. elim o [ none ↦ a | some x ↦ x ]) e

next-some : (o : Option ℕ) (i : ℕ) → next o ≡ some i → (j : ℕ) × ((o ≡ some j) × (i ≡ suc j))
next-some none i e = absurd cc
next-some (some j) i e = (j, (refl, sym (unsome e)))

next-none : (o : Option ℕ) → next o ≡ none → o ≡ none
next-none none e = refl
next-none (some j) e = absurd cc

place_of-here :
    (s : Session) (ss : List Session) (key : List ℕ)
    → same s.sn key ≡ true
    → place_of (s ∷ ss) key ≡ some 0
unfolding place_of
place_of-here s ss key h = rw h refl

place_of-there :
    (s : Session) (ss : List Session) (key : List ℕ)
    → same s.sn key ≡ false
    → place_of (s ∷ ss) key ≡ next (place_of ss key)
unfolding place_of
place_of-there s ss key h = rw h refl

place_of_nil : (key : List ℕ) → place_of [] key ≡ none
unfolding place_of
place_of_nil key = refl

-- A session that is found stays where it is when one is added at the tail.
pub place_of-add :
    (ss : List Session) (key : List ℕ) (i : ℕ) (t : Session)
    → place_of ss key ≡ some i
    → place_of (ss ++ t ∷ []) key ≡ some i
place_of-add [] key i t h =
    let gone : ◌≡◌ {A = Option ℕ} none (some i) = sym (place_of_nil key) ∙ h in absurd cc
place_of-add (s ∷ ss) key i t h = elim (Bool-cases (same s.sn key)) [
  | inl e ↦ place_of-here s (ss ++ t ∷ []) key e ∙ sym (place_of-here s ss key e) ∙ h
  | inr e ↦
      let (j, (at_j, is)) = next-some (place_of ss key) i (sym (place_of-there s ss key e) ∙ h) in
      place_of-there s (ss ++ t ∷ []) key e
      ∙ ap next (place_of-add ss key j t at_j)
      ∙ ap some (sym is)
]

-- A session that was not found is found at the end once it is added there.
pub place_of_added :
    (ss : List Session) (key : List ℕ) (t : Session)
    → place_of ss key ≡ none
    → same t.sn key ≡ true
    → place_of (ss ++ t ∷ []) key ≡ some (length ss)
place_of_added [] key t h k = place_of-here t [] key k
place_of_added (s ∷ ss) key t h k = elim (Bool-cases (same s.sn key)) [
  | inl e ↦
      let gone : ◌≡◌ {A = Option ℕ} (some 0) none = sym (place_of-here s ss key e) ∙ h in absurd cc
  | inr e ↦
      let tail_none = next-none (place_of ss key) (sym (place_of-there s ss key e) ∙ h) in
      place_of-there s (ss ++ t ∷ []) key e ∙ ap next (place_of_added ss key t tail_none k)
]

-- What is found has the key.
pub place_of_found :
    (ss : List Session) (key : List ℕ) (i : ℕ)
    → place_of ss key ≡ some i
    → (s : Session) × ((get_elem? ss i ≡ some s) × (same s.sn key ≡ true))
place_of_found [] key i h =
    let gone : ◌≡◌ {A = Option ℕ} none (some i) = sym (place_of_nil key) ∙ h in absurd cc
place_of_found (s ∷ ss) key i h = elim (Bool-cases (same s.sn key)) [
  | inl e ↦
      let is : 0 ≡ i = unsome (sym (place_of-here s ss key e) ∙ h) in (s, (rw (sym is) refl, e))
  | inr e ↦
      let (j, (at_j, is)) = next-some (place_of ss key) i (sym (place_of-there s ss key e) ∙ h) in
      let (t, (found, k)) = place_of_found ss key j at_j in
      (t, (ap (get_elem? (s ∷ ss)) is ∙ found, k))
]

-- A rewritten session keeps its place if it keeps its serial number.
pub place_of-set :
    (ss : List Session) (key : List ℕ) (i : ℕ) (s t : Session)
    → get_elem? ss i ≡ some s
    → t.sn ≡ s.sn
    → place_of (set ss i t) key ≡ place_of ss key
unfolding place_of
place_of-set [] key i s t h e = refl
place_of-set (x ∷ xs) key zero s t h e =
    let same_one : x ≡ s = unsome h in rw (e, sym same_one) refl
place_of-set (x ∷ xs) key (suc i) s t h e =
    ap (λ o. if same x.sn key then some 0 else next o) (place_of-set xs key i s t h e)

pub get_elem?-set :
    (ss : List Session) (i : ℕ) (s t : Session)
    → get_elem? ss i ≡ some s
    → get_elem? (set ss i t) i ≡ some t
get_elem?-set [] i s t h = absurd cc
get_elem?-set (x ∷ xs) zero s t h = refl
get_elem?-set (x ∷ xs) (suc i) s t h = get_elem?-set xs i s t h

pub get_elem?-set_other :
    (ss : List Session) (i j : ℕ) (t : Session) → j ≢ i → get_elem? (set ss i t) j ≡ get_elem? ss j
get_elem?-set_other [] i j t ne = refl
get_elem?-set_other (x ∷ xs) zero zero t ne = absurd (ne refl)
get_elem?-set_other (x ∷ xs) zero (suc j) t ne = refl
get_elem?-set_other (x ∷ xs) (suc i) zero t ne = refl
get_elem?-set_other (x ∷ xs) (suc i) (suc j) t ne =
    get_elem?-set_other xs i j t (λ e. ne (ap suc e))

-- An added session is the last one, and the others stay.
pub get_elem?-length : (ss : List Session) → get_elem? ss (length ss) ≡ none
get_elem?-length [] = refl
get_elem?-length (x ∷ xs) = get_elem?-length xs

pub get_elem?_added :
    (ss : List Session) (t : Session) → get_elem? (ss ++ t ∷ []) (length ss) ≡ some t
get_elem?_added [] t = refl
get_elem?_added (x ∷ xs) t = get_elem?_added xs t

pub get_elem?-add :
    (ss : List Session) (t s : Session) (i : ℕ)
    → get_elem? ss i ≡ some s
    → get_elem? (ss ++ t ∷ []) i ≡ some s
get_elem?-add [] t s i h = absurd cc
get_elem?-add (x ∷ xs) t s zero h = h
get_elem?-add (x ∷ xs) t s (suc i) h = get_elem?-add xs t s i h

pub get_elem?-add_cases :
    (ss : List Session) (t s : Session) (i : ℕ)
    → get_elem? (ss ++ t ∷ []) i ≡ some s
    → (get_elem? ss i ≡ some s) ⊎ ((i ≡ length ss) × (s ≡ t))
get_elem?-add_cases [] t s zero h = inr (refl, sym (unsome h))
get_elem?-add_cases [] t s (suc i) h = absurd cc
get_elem?-add_cases (x ∷ xs) t s zero h = inl h
get_elem?-add_cases (x ∷ xs) t s (suc i) h = elim (get_elem?-add_cases xs t s i h) [
  | inl e ↦ inl e
  | inr (e, f) ↦ inr (ap suc e, f)
]
