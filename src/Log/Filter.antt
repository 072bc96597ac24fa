-- ===== src/Log/Filter.antt =====
-- Where each message of a program goes.
use tdm.Base.{
  ℕ, ◌≤◌, ◌≡◌, refl, ap, ◌∙◌, Bool, true, false, ◌&&◌, not, List, [], ◌∷◌, ◌++◌, ◌==◌, leb,
  if◌then◌else◌, arith, Bool-cases, inl, inr,
}
use tdm.Base.Int.{ℤ, pos, negsuc, pos_part}
use tdm.Log.{
  Logger, Message, Written, is_dropped, normal_text, error_text, log_msg, when, is_in_range, Call,
  sets, registers, logs, log_calls, nothing, with_written, is_filed, is_alarm,
}

dropped : (t l : ℕ) → 1 ≤ t → t ≤ 6 → is_dropped (pos t) l ≡ not (leb t l && leb l 6)
unfolding is_dropped
dropped t l low high = ground arith

filed_normal : (t l : ℕ) → (leb t l && leb l 6) ≡ true → (is_filed l && ((l == 3))) ≡ (l == 3)
filed_normal t l h = ground arith

-- A message of level `l` goes to the standard output, to the first file and to the second, when the
-- level `t` is set and the files are open or not.
abbrev pub is_shown : ℕ → ℕ → Bool
is_shown t l = leb t l && leb l 6

unfoldable pub is_normal : ℕ → Bool → ℕ → Bool
is_normal t is_open l = (l == 3) && (leb t 3 && is_open)

unfoldable pub is_error : ℕ → Bool → ℕ → Bool
is_error t is_open l = (leb 4 l && leb l 6) && (leb t l && is_open)

shown_level : (t l : ℕ) → is_shown t l ≡ true → leb t l ≡ true
shown_level t l h = ground arith

shown_normal :
    (t l : ℕ) (b : Bool) → is_shown t l ≡ true → (is_filed l && ((l == 3) && b)) ≡ is_normal t b l
unfolding is_normal
shown_normal t l b h = ground arith

shown_error :
    (t l : ℕ) (b : Bool) → is_shown t l ≡ true → (is_filed l && (is_alarm l && b)) ≡ is_error t b l
unfolding is_error
shown_error t l b h = ground arith

hidden_normal : (t l : ℕ) (b : Bool) → is_shown t l ≡ false → is_normal t b l ≡ false
unfolding is_normal
hidden_normal t l b h = ground arith

hidden_error : (t l : ℕ) (b : Bool) → is_shown t l ≡ false → is_error t b l ≡ false
unfolding is_error
hidden_error t l b h = ground arith

-- What a message leaves, one condition for each place.
abbrev pub sorted : Logger → Message → Written
sorted s m =
    let t = pos_part s.level in
    record {
      console = when (is_shown t m.msg_level) (b'>' ∷ m.text);
      to_normal = when (is_normal t s.normal m.msg_level) (normal_text m);
      to_error = when (is_error t s.error m.msg_level) (error_text m);
    }

by_level :
    (level : ℤ) (b c : Bool) (m : Message)
    → is_in_range level ≡ true
    → let s : Logger = record { level = level; normal = b; error = c } in log_msg s m ≡ sorted s m
unfolding log_msg
by_level (negsuc n) b c m h = absurd cc
by_level (pos t) b c m h =
    let l = m.msg_level in
    let drops = dropped t l (ground arith) (ground arith) in
    elim (Bool-cases (is_shown t l)) [
      | inl e ↦ rw (drops, e, shown_level t l e, shown_normal t l b e, shown_error t l c e) refl
      | inr e ↦ rw (drops, e, hidden_normal t l b e, hidden_error t l c e) refl
    ]

log_msg-sorted : (s : Logger) (m : Message) → is_in_range s.level ≡ true → log_msg s m ≡ sorted s m
log_msg-sorted s m h = by_level s.level s.normal s.error m h

-- The calls set levels that are in range.
abbrev pub AllInRange : List Call → Type 0
AllInRange [] = Unit
AllInRange (sets new ∷ calls) = (is_in_range new ≡ true) × AllInRange calls
AllInRange (registers level normal error m ∷ calls) = AllInRange calls
AllInRange (logs m ∷ calls) = AllInRange calls

-- The messages of a program until it ends, each with the log as it is set at the time.
abbrev pub in_force : List Call → Logger → List (Logger × Message)
in_force [] s = []
in_force (sets new ∷ calls) s = in_force calls (record s { level = new })
in_force (registers level normal error m ∷ calls) s =
    let rest = in_force calls (record { level = level; normal = normal; error = error }) in
    if is_in_range level then rest else []
in_force (logs m ∷ calls) s = let rest = in_force calls s in (s, m) ∷ rest

-- The texts of the messages that meet a condition, in order.
abbrev pub texts :
    (Logger → ℕ → Bool) → (Message → List ℕ) → List (Logger × Message) → List (List ℕ)
texts goes text [] = []
texts goes text ((s, m) ∷ rest) =
    let others = texts goes text rest in when (goes s m.msg_level) (text m) ++ others

abbrev pub to_console : Logger → ℕ → Bool
to_console s l = is_shown (pos_part s.level) l

abbrev pub to_first : Logger → ℕ → Bool
to_first s l = is_normal (pos_part s.level) s.normal l

abbrev pub to_second : Logger → ℕ → Bool
to_second s l = is_error (pos_part s.level) s.error l

abbrev pub console_text : Message → List ℕ
console_text m = b'>' ∷ m.text

abbrev pub all_sorted : List (Logger × Message) → Written
all_sorted found = record {
  console = texts to_console console_text found;
  to_normal = texts to_first normal_text found;
  to_error = texts to_second error_text found;
}

-- A message of level 0 goes nowhere.
silent_at :
    (level : ℤ) (b c : Bool) (m : Message)
    → is_in_range level ≡ true
    → let s : Logger = record { level = level; normal = b; error = c } in
      sorted s (record m { msg_level = 0 }) ≡ nothing
silent_at (negsuc n) b c m h = absurd cc
silent_at (pos t) b c m h =
    let e : is_shown t 0 ≡ false = ground arith in
    rw (e, hidden_normal t 0 b e, hidden_error t 0 c e) refl

silent :
    (s : Logger) (m : Message)
    → is_in_range s.level ≡ true
    → log_msg s (record m { msg_level = 0 }) ≡ nothing
silent s m h =
    log_msg-sorted s (record m { msg_level = 0 }) h ∙ silent_at s.level s.normal s.error m h

all_calls :
    (calls : List Call) (s : Logger)
    → is_in_range s.level ≡ true
    → AllInRange calls
    → log_calls calls s ≡ all_sorted (in_force calls s)
unfolding log_calls
all_calls [] s h all = refl
all_calls (sets new ∷ calls) s h (p, all) = all_calls calls (record s { level = new }) p all
all_calls (registers level normal error m ∷ calls) s h all = elim (Bool-cases (is_in_range level)) [
  | inl e ↦ rw e (all_calls calls (record { level = level; normal = normal; error = error }) e all)
  | inr e ↦ rw e (silent s m h)
]
all_calls (logs m ∷ calls) s h all =
    ap (λ w. with_written w (log_calls calls s)) (log_msg-sorted s m h)
    ∙ ap (λ w. with_written (sorted s m) w) (all_calls calls s h all)

-- In a program that sets the level only to one of `MSG_DEBUG` to `MSG_SMS`, beginning with one of
-- them, the standard output gets the messages of a level from the one that is set to `MSG_SMS`, the
-- first file those of `MSG_MONITOR`, when the level that is set is not above it and the file is open,
-- and the second file those from `MSG_ALARM` to `MSG_SMS` that are not below the level that is set,
-- when the file is open, each in order. A message of level 0, also the one that
-- `RegisterLogMsg` has for a level out of range, goes nowhere.
pub log_calls-sorted :
    (calls : List Call) (s : Logger) (m : Message)
    → is_in_range s.level ≡ true
    → AllInRange calls
    → (log_calls calls s ≡ all_sorted (in_force calls s))
      × (log_msg s (record m { msg_level = 0 }) ≡ nothing)
log_calls-sorted calls s m h all = (all_calls calls s h all, silent s m h)
