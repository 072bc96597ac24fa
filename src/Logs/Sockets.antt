-- ===== src/Logs/Sockets.antt =====
-- Every socket for log lines is kept or closed.
use tdm.Base.{ℕ, suc, ◌≡◌, refl, false, List, [], ◌∷◌, if◌then◌else◌, Bool-cases, inl, inr}
use tdm.Base.Int.{ℤ, pos}
use tdm.Logs.{
  Act, opened, left_behind, connects, left_of, sent, received, closed, Answer, Done, is_open,
  close_fd,
}

-- How often a line is sent, and a reply read.
abbrev pub sends_of : List Act → ℕ
sends_of [] = 0
sends_of (opened fd ∷ acts) = sends_of acts
sends_of (left_behind fd ∷ acts) = sends_of acts
sends_of (sent fd ∷ acts) = suc (sends_of acts)
sends_of (received fd ∷ acts) = sends_of acts
sends_of (closed fd ∷ acts) = sends_of acts

-- A descriptor that is open is held.
abbrev pub held : ℤ → List ℤ
held fd = if is_open fd then fd ∷ [] else []

-- Each act is on the descriptor that is held at the time, and is opened only when none is: the
-- descriptor that is held in the end.
abbrev pub Uses : List ℤ → List Act → List ℤ → Type 0
Uses h [] e = h ≡ e
Uses h (opened fd ∷ acts) e = (h ≡ []) × Uses (fd ∷ []) acts e
Uses h (left_behind fd ∷ acts) e = (h ≡ []) × Uses h acts e
Uses h (sent fd ∷ acts) e = (h ≡ fd ∷ []) × Uses h acts e
Uses h (received fd ∷ acts) e = (h ≡ fd ∷ []) × Uses h acts e
Uses h (closed fd ∷ acts) e = (h ≡ fd ∷ []) × Uses [] acts e

abbrev pub IsRun : ℤ → Done → Type 0
IsRun fd d = Uses (held fd) d.1 (held d.0)

pub zero-is_open : is_open (pos 0) ≡ false
unfolding is_open
zero-is_open = refl

close_fd-IsRun : (fd : ℤ) → IsRun fd (close_fd fd)
close_fd-IsRun fd = elim (Bool-cases (is_open fd)) [
  | inl e ↦ rw e (rw zero-is_open (refl, refl))
  | inr e ↦ rw e (rw e refl)
]

sends_of-close : (fd : ℤ) → sends_of (close_fd fd).1 ≡ 0
sends_of-close fd = elim (Bool-cases (is_open fd)) [ inl e ↦ rw e refl | inr e ↦ rw e refl ]

-- The sockets that are left behind.
abbrev pub behind : List Act → List ℤ
behind [] = []
behind (left_behind fd ∷ acts) = fd ∷ behind acts
behind (opened fd ∷ acts) = behind acts
behind (sent fd ∷ acts) = behind acts
behind (received fd ∷ acts) = behind acts
behind (closed fd ∷ acts) = behind acts

-- The connected socket that `Send_Sim_Data` leaves open, and the one that it leaves behind.
abbrev pub left_open : Answer → List ℤ
left_open a = if is_open a.sends then [] else held (connects a)

abbrev pub lost : Answer → List ℤ
lost a = if is_open (connects a) then [] else behind (left_of a.made)
