-- ===== src/Handlers/LogOut.antt =====
-- How often the log-outs of a device are logged.
use tdm.Base.{ℕ, ◌+◌, ◌<◌, ◌≤◌, ◌≡◌, refl, List, [], ◌∷◌, leb, arith, Bool-cases, inl, inr}
use tdm.Base.Int.{}
use tdm.Session.{close_socket_fd}
use tdm.Handlers.{Leaving, without_fd, coding_with_log_out, log_outs}

-- Each time is more than 25 seconds after the one before it, the first after `t`.
abbrev pub IsSpaced : ℕ → List ℕ → Type 0
IsSpaced t [] = t ≤ t
IsSpaced t (x ∷ xs) = (t + 25 < x) × IsSpaced x xs

-- The last of the times, `t` if there are none.
abbrev pub last_of : ℕ → List ℕ → ℕ
last_of t [] = t
last_of t (x ∷ xs) = last_of x xs

-- Whatever the times at which a device logs out, in any order, the log-outs that are logged are each
-- more than 25 seconds after the one logged before, the first after the time kept in the session, and
-- the session keeps the time of the last one logged.
pub log_outs-IsSpaced :
    (times : List ℕ) (d : Leaving)
    → IsSpaced d.outtime (log_outs times d).1
      × ((log_outs times d).0.outtime ≡ last_of d.outtime (log_outs times d).1)
unfolding log_outs coding_with_log_out
log_outs-IsSpaced [] d = (omega arith, refl)
log_outs-IsSpaced (now ∷ times) d = elim (Bool-cases (leb now (d.outtime + 25))) [
  | inl e ↦ rw e (log_outs-IsSpaced times (record d { fd1 = without_fd d.fd1 }))
  | inr e ↦
      let (spaced, last) = log_outs-IsSpaced times (record {
        fd1 = without_fd d.fd1;
        socket_spm = (close_socket_fd d.socket_spm).0;
        outtime = now;
      }) in
      rw e ((ground arith, spaced), last)
]
